-- ===== src/Idempotency.antt =====
-- Idempotent requests (src/core/idempotency: the service, its guard and interceptor, and the
-- in-memory storage). The clock is an argument, in milliseconds; a store is the `Map` of the
-- storage, and every operation that may change it returns the new one. A JSON value is of a type
-- `Body`, and the SHA-256 digest is a parameter.
pub mod Spec
pub mod Laws
pub mod Reachable
pub mod Requests
use Prim.Native.String.{◌++◌ as concat}
use cyber_hub_api.Prelude.{
  ℕ, String, Bool, true, false, not, ◌+◌, ◌*◌, leb, Option, none, some, str_eq, if◌then◌else◌,
}

pub data IdempotencyStatus : Type 0 where
  processing completed : IdempotencyStatus

pub record IdempotencyRecord (Body : Type 0) : Type 0 where
  pub key : String
  pub request_hash : String
  pub status : IdempotencyStatus
  pub response_body : Option Body
  pub status_code : Option ℕ
  pub created_at : ℕ
  pub expires_at : Option ℕ

abbrev pub Store : Type 0 → Type 0
Store Body = String → Option (IdempotencyRecord Body)

-- `record.expiresAt && record.expiresAt.getTime() <= Date.now()`
abbrev pub is_expired : ℕ → Option ℕ → Bool
is_expired now none = false
is_expired now (some expiry) = leb expiry now

-- The request that the guard sees: its `Idempotency-Key` header, and the JSON text of its body.
pub record Request : Type 0 where
  pub method : String
  pub original_url : String
  pub body_text : String
  pub idempotency_key : Option String

pub data Reservation : Type 0 where
  reserved different_request in_progress : Reservation

pub data GuardOutcome (Body : Type 0) : Type 0 where
  without_key : GuardOutcome Body
  replayed : ℕ → Option Body → GuardOutcome Body
  conflict : Reservation → GuardOutcome Body
  admitted : String → GuardOutcome Body

-- What the handler ends with: a body under the response's status code, or an error.
pub data HandlerResult (Body : Type 0) : Type 0 where
  answered : Body → ℕ → HandlerResult Body
  failed : HandlerResult Body

module _ {Body : Type 0} where
  unfoldable pub storage_set : Store Body → IdempotencyRecord Body → Store Body
  storage_set store record_ key = if str_eq record_.key key then some record_ else store key

  unfoldable pub storage_delete : Store Body → String → Store Body
  storage_delete store gone key = if str_eq gone key then none else store key

  -- An expired record is dropped by the read that finds it.
  unfoldable pub storage_get :
      ℕ → Store Body → String → Option (IdempotencyRecord Body) × Store Body
  storage_get now store key = elim (store key) [
    | none ↦ (none, store)
    | some r ↦
        if is_expired now r.expires_at then (none, storage_delete store key) else (some r, store)
  ]

  abbrev pub if_completed : Option (IdempotencyRecord Body) → Option (IdempotencyRecord Body)
  if_completed none = none
  if_completed (some r) = elim r.status [ completed ↦ some r | processing ↦ none ]

  unfoldable pub get_completed :
      ℕ → Store Body → String → Option (IdempotencyRecord Body) × Store Body
  get_completed now store key =
      let (existing, after) = storage_get now store key in (if_completed existing, after)

  abbrev pub new_record : ℕ → String → String → IdempotencyRecord Body
  new_record now key request_hash = record {
    key = key;
    request_hash = request_hash;
    status = processing;
    response_body = none;
    status_code = none;
    created_at = now;
    expires_at = some (now + 24 * 60 * 60 * 1000);
  }

  abbrev pub reserve_found : IdempotencyRecord Body → String → Reservation
  reserve_found existing request_hash =
      if not (str_eq existing.request_hash request_hash)
      then different_request
      else elim existing.status [ processing ↦ in_progress | completed ↦ reserved ]

  unfoldable pub reserve : ℕ → Store Body → String → String → Reservation × Store Body
  reserve now store key request_hash =
      let (existing, after) = storage_get now store key in
      elim existing [
        | none ↦ (reserved, storage_set after (new_record now key request_hash))
        | some r ↦ (reserve_found r request_hash, after)
      ]

  unfoldable pub complete : ℕ → Store Body → String → Body → ℕ → Store Body
  complete now store key response_body status_code =
      let (existing, after) = storage_get now store key in
      elim existing [
        | none ↦ after
        | some r ↦ storage_set after (record r {
          status = completed;
          response_body = some response_body;
          status_code = some status_code;
        })
      ]

  unfoldable pub fail : ℕ → Store Body → String → Store Body
  fail now store key =
      let (existing, after) = storage_get now store key in
      elim existing [
        | none ↦ after
        | some r ↦ elim r.status [ processing ↦ storage_delete after key | completed ↦ after ]
      ]

  -- `response.status(existing.statusCode ?? 200).json(existing.responseBody)`
  abbrev pub replay : IdempotencyRecord Body → GuardOutcome Body
  replay r = elim r.status_code [
    | none ↦ replayed 200 r.response_body
    | some code ↦ replayed code r.response_body
  ]

  abbrev pub of_reservation : String → Reservation → GuardOutcome Body
  of_reservation key reserved = admitted key
  of_reservation key different_request = conflict different_request
  of_reservation key in_progress = conflict in_progress

  -- IdempotencyInterceptor: what the handler's end does to the store.
  unfoldable pub intercept : ℕ → Store Body → Option String → HandlerResult Body → Store Body
  intercept now store none result = store
  intercept now store (some key) (answered body code) = complete now store key body code
  intercept now store (some key) failed = fail now store key

module _ (sha256 : String → String) where
  abbrev pub request_hash_of : Request → String
  request_hash_of request = sha256 (
      concat request.method
        (concat ":" (concat request.original_url (concat ":" request.body_text))))

module _ {Body : Type 0} (sha256 : String → String) where
  abbrev pub guard_key : ℕ → Store Body → String → Request → GuardOutcome Body × Store Body
  guard_key now store key request =
      let (existing, after) = get_completed now store key in
      elim existing [
        | some r ↦ (replay r, after)
        | none ↦
            let (outcome, later) = reserve now after key (request_hash_of sha256 request) in
            (of_reservation key outcome, later)
      ]

  -- IdempotencyGuard
  unfoldable pub idempotency_guard : ℕ → Store Body → Request → GuardOutcome Body × Store Body
  idempotency_guard now store request = elim request.idempotency_key [
    | none ↦ (without_key, store)
    | some key ↦ if str_eq key "" then (without_key, store) else guard_key now store key request
  ]
