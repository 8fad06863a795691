-- ===== src/Engagements/Action/Rules.antt =====
-- What an action ensures when it returns, one rule for each way to continue a do block.
use cyber_hub_api.Prelude.{◌≡◌, refl, subst, Bool, true, false, Option, none, some, if◌then◌else◌}
use cyber_hub_api.Engagements.Schema.{Database}
use cyber_hub_api.Engagements.Action.{
  Action, AppException, returned, raised, Result, pure, raise, gets, modify, raise_if, require,
  or_raise, ◌>>=◌,
}

module _ {ℓ} {A : Type 0} where
  abbrev pub Outcome : (A → Database → Type ℓ) → Result (A × Database) → Type ℓ
  Outcome Q (returned (a, after)) = Q a after
  Outcome Q (raised e) = Unit

  -- When `m` returns on `db`, its answer and the database that it leaves satisfy `Q`.
  pub record Ensures (Q : A → Database → Type ℓ) (m : Action A) (db : Database) : Type ℓ where
    pub outcome : Outcome Q (m db)

  pub of_returned :
      {Q : A → Database → Type ℓ} {m : Action A} {db : Database} {a : A} {after : Database}
      → Ensures Q m db
      → m db ≡ returned (a, after)
      → Q a after
  of_returned {Q} h e = subst (Outcome Q) e h.outcome

module _ {ℓ} {A : Type 0} {Q : A → Database → Type ℓ} {db : Database} where
  pub on_pure : (a : A) → Q a db → Ensures Q (pure a) db
  unfolding pure
  on_pure a h = record { outcome = h }

  pub on_raise : (e : AppException) → Ensures Q (raise e) db
  unfolding raise
  on_raise e = record { outcome = tt }

  pub on_or_raise :
      (o : Option A) (e : AppException)
      → ((a : A) → o ≡ some a → Q a db)
      → Ensures Q (or_raise o e) db
  unfolding or_raise
  on_or_raise none e h = record { outcome = tt }
  on_or_raise (some a) e h = record { outcome = h a refl }

  pub on_if :
      (b : Bool) {m n : Action A}
      → (b ≡ true → Ensures Q m db)
      → (b ≡ false → Ensures Q n db)
      → Ensures Q (if b then m else n) db
  on_if true hm hn = hm refl
  on_if false hm hn = hn refl

outcome_of {ℓ} :
    {A B : Type 0} (Q : B → Database → Type ℓ) (f : A → Action B) (r : Result (A × Database))
    → Outcome (λ a between. Ensures Q (f a) between) r
    → Outcome Q (elim r [ raised e ↦ raised e | returned (a, between) ↦ f a between ])
outcome_of Q f (raised e) h = tt
outcome_of Q f (returned (a, between)) h = h.outcome

module _ {ℓ} {A B : Type 0} {Q : B → Database → Type ℓ} {db : Database} where
  pub after :
      (m : Action A) (f : A → Action B)
      → Ensures (λ a between. Ensures Q (f a) between) m db
      → Ensures Q (m >>= f) db
  unfolding ◌>>=◌
  after m f h = record { outcome = outcome_of Q f (m db) h.outcome }

  pub after_gets :
      (g : Database → A) (f : A → Action B) → Ensures Q (f (g db)) db → Ensures Q (gets g >>= f) db
  unfolding ◌>>=◌
  after_gets g f h = record { outcome = h.outcome }

  pub after_or_raise :
      (o : Option A) (e : AppException) (f : A → Action B)
      → ((a : A) → o ≡ some a → Ensures Q (f a) db)
      → Ensures Q (or_raise o e >>= f) db
  after_or_raise o e f h = after _ _ (on_or_raise o e h)

module _ {ℓ} {B : Type 0} {Q : B → Database → Type ℓ} {db : Database} where
  pub after_modify :
      (g : Database → Database) (f : Unit {0} → Action B)
      → Ensures Q (f tt) (g db)
      → Ensures Q (modify g >>= f) db
  unfolding ◌>>=◌
  after_modify g f h = record { outcome = h.outcome }

  pub after_raise_if :
      (b : Bool) (e : AppException) (f : Unit {0} → Action B)
      → (b ≡ false → Ensures Q (f tt) db)
      → Ensures Q (raise_if b e >>= f) db
  unfolding ◌>>=◌
  after_raise_if true e f h = record { outcome = tt }
  after_raise_if false e f h = record { outcome = (h refl).outcome }

  pub after_require :
      (o : Option AppException) (f : Unit {0} → Action B)
      → (o ≡ none → Ensures Q (f tt) db)
      → Ensures Q (require o >>= f) db
  unfolding ◌>>=◌
  after_require none f h = record { outcome = (h refl).outcome }
  after_require (some e) f h = record { outcome = tt }

module _ {ℓ κ} {A : Type 0} {P : A → Database → Type ℓ} {Q : A → Database → Type κ} where
  weaken_outcome :
      (r : Result (A × Database))
      → ((a : A) (between : Database) → P a between → Q a between)
      → Outcome P r
      → Outcome Q r
  weaken_outcome (raised e) f h = tt
  weaken_outcome (returned (a, between)) f h = f a between h

  pub weaken :
      {m : Action A} {db : Database}
      → ((a : A) (between : Database) → P a between → Q a between)
      → Ensures P m db
      → Ensures Q m db
  weaken {m} {db} f h = record { outcome = weaken_outcome (m db) f h.outcome }
