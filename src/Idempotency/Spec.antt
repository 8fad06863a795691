-- ===== src/Idempotency/Spec.antt =====
-- What the service promises of a key: its state, and what each operation makes of it. A store is
-- read at a time, and holds the state of each key independently.
use cyber_hub_api.Prelude.{◌≡◌, ◌≢◌, ℕ, String, Option, none, some, str_eq, if◌then◌else◌}
use cyber_hub_api.Idempotency.{
  processing, completed, IdempotencyRecord, Store, is_expired, Reservation, reserved,
  different_request, in_progress,
}

pub data KeyState (Body : Type 0) : Type 0 where
  free : KeyState Body
  in_flight : String → KeyState Body
  finished : String → Option Body → Option ℕ → KeyState Body

module _ {Body : Type 0} where
  abbrev pub state_of : IdempotencyRecord Body → KeyState Body
  state_of r = elim r.status [
    | processing ↦ in_flight r.request_hash
    | completed ↦ finished r.request_hash r.response_body r.status_code
  ]

  abbrev pub live : ℕ → Option (IdempotencyRecord Body) → KeyState Body
  live now none = free
  live now (some r) = if is_expired now r.expires_at then free else state_of r

  -- The state of a key, at a time.
  unfoldable pub view : ℕ → Store Body → String → KeyState Body
  view now store key = live now (store key)

  -- Each record stands under its own key.
  abbrev pub IsKeyed : Store Body → Type 0
  IsKeyed store = (key : String) (r : IdempotencyRecord Body) → store key ≡ some r → r.key ≡ key

  abbrev pub reserve_outcome : KeyState Body → String → Reservation
  reserve_outcome free h = reserved
  reserve_outcome (in_flight g) h = if str_eq g h then in_progress else different_request
  reserve_outcome (finished g body code) h = if str_eq g h then reserved else different_request

  abbrev pub reserve_state : KeyState Body → String → KeyState Body
  reserve_state free h = in_flight h
  reserve_state (in_flight g) h = in_flight g
  reserve_state (finished g body code) h = finished g body code

  abbrev pub complete_state : KeyState Body → Body → ℕ → KeyState Body
  complete_state free body code = free
  complete_state (in_flight g) body code = finished g (some body) (some code)
  complete_state (finished g _ _) body code = finished g (some body) (some code)

  abbrev pub fail_state : KeyState Body → KeyState Body
  fail_state free = free
  fail_state (in_flight g) = free
  fail_state (finished g body code) = finished g body code

  -- The state of one key becomes what is said; those of the others stay.
  abbrev pub Becomes : ℕ → Store Body → String → KeyState Body → Store Body → Type 0
  Becomes now store key new after =
      (view now after key ≡ new)
      × ((other : String) → other ≢ key → view now after other ≡ view now store other)
