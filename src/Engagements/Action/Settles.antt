-- ===== src/Engagements/Action/Settles.antt =====
-- How an action ends on every path, one rule for each way to continue a do block: what holds of an
-- answer, and what of an exception.
use cyber_hub_api.Prelude.{◌≡◌, refl, sym, subst, Bool, true, false, Option, none, some}
use cyber_hub_api.Engagements.Schema.{Database}
use cyber_hub_api.Engagements.Action.{
  Action, AppException, returned, raised, Result, pure, raise, gets, raise_if, require, or_raise,
  ◌>>=◌, run_in_transaction,
}

module _ {A : Type 0} where
  abbrev pub Ending :
      (A → Database → Type 0) → (AppException → Type 0) → Result (A × Database) → Type 0
  Ending Q E (returned (a, left)) = Q a left
  Ending Q E (raised e) = E e

  -- On `db`, `m` returns as `Q` says or raises as `E` says.
  pub record Settles (Q : A → Database → Type 0) (E : AppException → Type 0) (m : Action A)
      (db : Database) : Type 0 where
    pub ending : Ending Q E (m db)

  raised_of :
      {E : AppException → Type 0} (m : Action A) (db : Database) (r : Result (A × Database))
      → m db ≡ r
      → Ending (λ a left. ⊥) E r
      → (e : AppException) × (run_in_transaction m db ≡ (raised e, db)) × E e
  unfolding run_in_transaction
  raised_of m db (raised e) step h = (e, rw (step, run_in_transaction) refl, h)
  raised_of m db (returned (a, left)) step h = absurd h

  -- An action that never returns is rolled back.
  pub rolled_back :
      {E : AppException → Type 0} (m : Action A) (db : Database)
      → Settles (λ a left. ⊥) E m db
      → (e : AppException) × (run_in_transaction m db ≡ (raised e, db)) × E e
  rolled_back m db h = raised_of m db (m db) refl h.ending

module _ {A : Type 0} {Q : A → Database → Type 0} {E : AppException → Type 0} {db : Database} where
  pub by_pure : (a : A) → Q a db → Settles Q E (pure a) db
  unfolding pure
  by_pure a h = record { ending = h }

  pub by_raise : (e : AppException) → E e → Settles Q E (raise e) db
  unfolding raise
  by_raise e h = record { ending = h }

continued :
    {A B : Type 0} (Q : B → Database → Type 0) (E : AppException → Type 0) (f : A → Action B)
    (r : Result (A × Database))
    → Ending (λ a between. Settles Q E (f a) between) E r
    → Ending Q E (elim r [ raised e ↦ raised e | returned (a, between) ↦ f a between ])
continued Q E f (raised e) h = h
continued Q E f (returned (a, between)) h = h.ending

module _ {A B : Type 0} {Q : B → Database → Type 0} {E : AppException → Type 0}
    {db : Database} where
  pub by_bind :
      (m : Action A) (f : A → Action B)
      → Settles (λ a between. Settles Q E (f a) between) E m db
      → Settles Q E (m >>= f) db
  unfolding ◌>>=◌
  by_bind m f h = record { ending = continued Q E f (m db) h.ending }

  pub by_returned :
      (m : Action A) (f : A → Action B) {a : A} {between : Database}
      → m db ≡ returned (a, between)
      → Settles Q E (f a) between
      → Settles Q E (m >>= f) db
  by_returned m f step h =
      by_bind m f
        (record { ending = subst (Ending (λ a left. Settles Q E (f a) left) E) (sym step) h })

  pub by_gets :
      (g : Database → A) (f : A → Action B)
      → Settles Q E (f (g db)) db
      → Settles Q E (gets g >>= f) db
  unfolding ◌>>=◌
  by_gets g f h = record { ending = h.ending }

  pub by_or_raise :
      (o : Option A) (e : AppException) (f : A → Action B)
      → (o ≡ none → E e)
      → ((a : A) → o ≡ some a → Settles Q E (f a) db)
      → Settles Q E (or_raise o e >>= f) db
  unfolding ◌>>=◌
  by_or_raise none e f lost h = record { ending = lost refl }
  by_or_raise (some a) e f lost h = record { ending = (h a refl).ending }

module _ {B : Type 0} {Q : B → Database → Type 0} {E : AppException → Type 0} {db : Database} where
  pub by_raise_if :
      (b : Bool) (e : AppException) (f : Unit {0} → Action B)
      → (b ≡ true → E e)
      → (b ≡ false → Settles Q E (f tt) db)
      → Settles Q E (raise_if b e >>= f) db
  unfolding ◌>>=◌
  by_raise_if true e f stop h = record { ending = stop refl }
  by_raise_if false e f stop h = record { ending = (h refl).ending }

  pub by_require :
      (o : Option AppException) (f : Unit {0} → Action B)
      → ((e : AppException) → o ≡ some e → E e)
      → (o ≡ none → Settles Q E (f tt) db)
      → Settles Q E (require o >>= f) db
  unfolding ◌>>=◌
  by_require none f stop h = record { ending = (h refl).ending }
  by_require (some e) f stop h = record { ending = stop e refl }
