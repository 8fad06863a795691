-- ===== src/Engagements/Action.antt =====
-- What a service does in a transaction: it reads and writes the database, and a thrown exception
-- rolls it back. Rows are locked as they are read, so a transaction meets no other writer of them,
-- and runs here at once.
pub mod Rules
pub mod Settles
pub mod Keeps
use cyber_hub_api.Prelude.{ℕ, String, Bool, true, false, Option, none, some, [], ◌∷◌, ◌++◌}
use cyber_hub_api.Authorization.Types.{Role}
use cyber_hub_api.Engagements.Schema.{Database, AuditLog, MetaValue}

-- The exceptions of src/core/errors/app.exception.ts that these services throw. `internal_error`
-- stands for `throw new Error`.
pub data AppException : Type 0 where
  not_found permission_denied workflow_conflict domain_validation : AppException
  state_version_conflict : ℕ → AppException
  file_policy_not_configured internal_error : AppException

pub record AuthPrincipal : Type 0 where
  pub user_id : String
  pub role : Role
  pub employer_id : Option String

-- What a request brings beside its input: the clock, the id that the database gives a new row, and
-- the id of the request.
pub record Call : Type 0 where
  pub now : ℕ
  pub new_id : String
  pub request_id : Option String

pub data Result (A : Type 0) : Type 0 where
  returned : A → Result A
  raised : AppException → Result A

abbrev pub Action : Type 0 → Type 0
Action A = Database → Result (A × Database)

unfoldable pub pure : {A : Type 0} → A → Action A
pure a db = returned (a, db)

unfoldable pub raise : {A : Type 0} → AppException → Action A
raise e db = raised e

unfoldable pub gets : {A : Type 0} → (Database → A) → Action A
gets f db = returned (f db, db)

unfoldable pub modify : (Database → Database) → Action (Unit {0})
modify f db = returned (tt, f db)

unfoldable pub raise_if : Bool → AppException → Action (Unit {0})
raise_if true e db = raised e
raise_if false e db = returned (tt, db)

unfoldable pub require : Option AppException → Action (Unit {0})
require none db = returned (tt, db)
require (some e) db = raised e

unfoldable pub or_raise : {A : Type 0} → Option A → AppException → Action A
or_raise none e db = raised e
or_raise (some a) e db = returned (a, db)

infixl 5 ◌>>=◌ ◌>>◌
-- Opening this opens the actions above.
unfoldable pub ◌>>=◌ : {A B : Type 0} → Action A → (A → Action B) → Action B
unfolding pure raise gets modify raise_if require or_raise
◌>>=◌ m f db = elim (m db) [ raised e ↦ raised e | returned (a, db') ↦ f a db' ]

abbrev pub ◌>>◌ : {B : Type 0} → Action (Unit {0}) → Action B → Action B
m >> k = m >>= λ _. k

-- `runInTransaction`: the answer, and the database that is left.
unfoldable pub run_in_transaction : {A : Type 0} → Action A → Database → Result A × Database
run_in_transaction m db = elim (m db) [
  | raised e ↦ (raised e, db)
  | returned (a, db') ↦ (returned a, db')
]

-- `audits.record`
abbrev pub record_audit : AuditLog → Action (Unit {0})
record_audit row = modify λ db. record db { audits = db.audits ++ row ∷ [] }
