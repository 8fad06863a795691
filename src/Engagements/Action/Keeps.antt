-- ===== src/Engagements/Action/Keeps.antt =====
-- Invariants of actions, one rule for each way to build one.
use cyber_hub_api.Prelude.{◌≡◌, Bool, true, false, Option, none, some, if◌then◌else◌}
use cyber_hub_api.Engagements.Schema.{Database}
use cyber_hub_api.Engagements.Action.{
  Action, AppException, returned, pure, raise, gets, modify, raise_if, require, or_raise, ◌>>=◌,
}
use cyber_hub_api.Engagements.Action.Rules.{Ensures, after, of_returned, weaken}

-- When `m` returns, it leaves a database that satisfies `P`, as the one it found did.
pub record Keeps {ℓ} {A : Type 0} (P : Database → Type ℓ) (m : Action A) : Type ℓ where
  pub keeps : (db : Database) → P db → Ensures (λ a left. P left) m db

module _ {ℓ} {A : Type 0} {P : Database → Type ℓ} where
  pub Keeps-pure : (a : A) → Keeps P (pure a)
  unfolding pure
  Keeps-pure a = record { keeps = λ db h. record { outcome = h } }

  pub Keeps-raise : (e : AppException) → Keeps P (raise {A = A} e)
  unfolding raise
  Keeps-raise e = record { keeps = λ db h. record { outcome = tt } }

  pub Keeps-gets : (f : Database → A) → Keeps P (gets f)
  unfolding gets
  Keeps-gets f = record { keeps = λ db h. record { outcome = h } }

  pub Keeps-or_raise : (o : Option A) (e : AppException) → Keeps P (or_raise o e)
  unfolding or_raise
  Keeps-or_raise none e = record { keeps = λ db h. record { outcome = tt } }
  Keeps-or_raise (some a) e = record { keeps = λ db h. record { outcome = h } }

  pub Keeps-if : (b : Bool) (m n : Action A) → Keeps P m → Keeps P n → Keeps P (if b then m else n)
  Keeps-if true m n km kn = km
  Keeps-if false m n km kn = kn

  -- What an action that keeps `P` returned on a database with `P`.
  pub kept :
      {m : Action A} {db : Database} {a : A} {left : Database}
      → Keeps P m
      → m db ≡ returned (a, left)
      → P db
      → P left
  kept {m} {db} k e h = of_returned (k.keeps db h) e

module _ {ℓ} {P : Database → Type ℓ} where
  pub Keeps-raise_if : (b : Bool) (e : AppException) → Keeps P (raise_if b e)
  unfolding raise_if
  Keeps-raise_if true e = record { keeps = λ db h. record { outcome = tt } }
  Keeps-raise_if false e = record { keeps = λ db h. record { outcome = h } }

  pub Keeps-require : (o : Option AppException) → Keeps P (require o)
  unfolding require
  Keeps-require none = record { keeps = λ db h. record { outcome = h } }
  Keeps-require (some e) = record { keeps = λ db h. record { outcome = tt } }

  pub Keeps-modify :
      (g : Database → Database) → ((db : Database) → P db → P (g db)) → Keeps P (modify g)
  unfolding modify
  Keeps-modify g step = record { keeps = λ db h. record { outcome = step db h } }

module _ {ℓ} {A B : Type 0} {P : Database → Type ℓ} where
  pub Keeps-bind :
      (m : Action A) (f : A → Action B) → Keeps P m → ((a : A) → Keeps P (f a)) → Keeps P (m >>= f)
  Keeps-bind m f km kf = record {
    keeps = λ db h. after m f (weaken (λ a between p. (kf a).keeps between p) (km.keeps db h));
  }

pub ruleset keeps_rules = (
  Keeps-pure, Keeps-raise, Keeps-gets, Keeps-or_raise, Keeps-if, Keeps-raise_if, Keeps-require,
  Keeps-bind,
)
