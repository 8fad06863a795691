-- ===== src/Idempotency/Requests.antt =====
-- What the guard answers to a request that carries a key.
use cyber_hub_api.Prelude.{
  true, ltb, ◌≡◌, refl, sym, ap, ◌∙◌, ◌≢◌, inl, inr, ℕ, ◌≤◌, String, false, leb, Option, none, some,
  str_eq, eq_iff, eq_refl, ◌+◌, arith, Bool-cases, if◌then◌else◌,
}
use cyber_hub_api.Idempotency.{
  IdempotencyRecord, Store, is_expired, new_record, storage_set, get_completed, reserve, complete,
  different_request, in_progress, Request, GuardOutcome, replayed, conflict, admitted,
  request_hash_of, guard_key, idempotency_guard, of_reservation,
}
use cyber_hub_api.Idempotency.Spec.{
  KeyState, free, in_flight, finished, view, state_of, IsKeyed, reserve_outcome,
}
use cyber_hub_api.Idempotency.Laws.{status_cases, storage_get_cases, view_live, reserve-Reserves}

module _ {Body : Type 0} (sha256 : String → String) (now : ℕ) (store : Store Body) where
  -- The answer that a key's state calls for, to a request with the digest `h`.
  abbrev pub answer_of : String → String → KeyState Body → GuardOutcome Body
  answer_of key h free = admitted key
  answer_of key h (in_flight g) =
      if str_eq g h then conflict in_progress else conflict different_request
  answer_of key h (finished g body none) = replayed 200 body
  answer_of key h (finished g body (some code)) = replayed code body

  guard_key_lem :
      (key : String) (request : Request)
      → (guard_key sha256 now store key request).0
        ≡ answer_of key (request_hash_of sha256 request) (view now store key)
  unfolding get_completed
  guard_key_lem key request =
      let h = request_hash_of sha256 request in
      elim (storage_get_cases now store key) [
        | inl (r, here, fresh, got) ↦
            let seen = view_live now store key r here fresh in
            elim (status_cases r.status) [
              | inl running ↦
                  let same : guard_key sha256 now store key request ≡ (
                    of_reservation key (reserve now store key h).0,
                    (reserve now store key h).1,
                  ) =
                    ground arith in
                  let told : (reserve now store key h).0 ≡ reserve_outcome (state_of r) h =
                    (reserve-Reserves now store key h).0
                    ∙ ap (λ state. reserve_outcome state h) seen in
                  let flying : state_of r ≡ in_flight r.request_hash = ground arith in
                  ap (λ (p : GuardOutcome Body × Store Body). p.0) same
                  ∙ ap (of_reservation key) (told ∙ ap (λ state. reserve_outcome state h) flying)
                  ∙ ground arith
              | inr ended ↦ ground arith
            ]
        | inr (after, quiet, drops, got) ↦
            let same : guard_key sha256 now store key request
                ≡ (of_reservation key (reserve now after key h).0, (reserve now after key h).1) =
              ground arith in
            let told =
              (reserve-Reserves now after key h).0
              ∙ ap (λ state. reserve_outcome state h) drops.0 in
            ap (λ (p : GuardOutcome Body × Store Body). p.0) same
            ∙ ap (of_reservation key) told
            ∙ ap (answer_of key h) (sym quiet)
      ]

  -- The answer to a request that carries a key is that of the key's state: it is admitted on a
  -- free key, a conflict on a key in flight, and on a finished key the stored answer, whatever
  -- the request's digest is.
  pub idempotency_guard_lem :
      (request : Request) (key : String)
      → request.idempotency_key ≡ some key
      → key ≢ ""
      → (idempotency_guard sha256 now store request).0
        ≡ answer_of key (request_hash_of sha256 request) (view now store key)
  unfolding idempotency_guard
  idempotency_guard_lem request key carried filled = elim (Bool-cases (str_eq key "")) [
    | inl blank ↦ absurd (filled ((eq_iff key "").0 blank))
    | inr ok ↦ let step = guard_key_lem key request in ground arith
  ]

not_expired_before :
    (now later : ℕ) (expiry : Option ℕ)
    → now ≤ later
    → is_expired later expiry ≡ false
    → is_expired now expiry ≡ false
not_expired_before now later none before fresh = refl
not_expired_before now later (some x) before fresh = ground arith

module _ {Body : Type 0} where
  reserved-record :
      (now : ℕ) (store : Store Body) (key h : String)
      → view now store key ≡ free
      → (reserve now store key h).1 key ≡ some (new_record now key h)
  unfolding reserve storage_set view
  reserved-record now store key h idle = elim (storage_get_cases now store key) [
    | inl (r, here, fresh, got) ↦
        let seen = view_live now store key r here fresh in
        elim (status_cases r.status) [
          | inl running ↦ absurd (ground arith)
          | inr ended ↦ absurd (ground arith)
        ]
    | inr (after, quiet, drops, got) ↦ let same = eq_refl key in ground arith
  ]

  -- A key that a free reservation took is held for 24 hours (86,400,000 milliseconds), and for no
  -- longer. In the store that the reservation left, whatever request carries the key is refused as
  -- a conflict before that time is over, and is admitted from then on.
  pub reserved_key_conflicts :
      (sha256 : String → String) (now later : ℕ) (store : Store Body) (key h : String)
      (request : Request)
      → view now store key ≡ free
      → request.idempotency_key ≡ some key
      → key ≢ ""
      → (idempotency_guard sha256 later (reserve now store key h).1 request).0 ≡ (
          if ltb later (now + 86400000)
          then conflict
              (if str_eq h (request_hash_of sha256 request) then in_progress else different_request)
          else admitted key)
  unfolding view
  reserved_key_conflicts sha256 now later store key h request idle carried filled =
      let held = reserved-record now store key h idle in
      let answer =
        idempotency_guard_lem sha256 later (reserve now store key h).1 request key carried filled in
      let answers = answer_of sha256 later store key (request_hash_of sha256 request) in
      elim (Bool-cases (ltb later (now + 86400000))) [
        | inl before ↦
            let fresh : leb (now + 86400000) later ≡ false = ground arith in
            let flying : view later (reserve now store key h).1 key ≡ in_flight h = ground arith in
            answer ∙ ap answers flying ∙ ground arith
        | inr over ↦
            let stale : leb (now + 86400000) later ≡ true = ground arith in
            let dropped : view later (reserve now store key h).1 key ≡ free = ground arith in
            answer ∙ ap answers dropped ∙ ground arith
      ]

  completed-view :
      (now later : ℕ) (store : Store Body) (key : String) (r : IdempotencyRecord Body) (body : Body)
      (code : ℕ)
      → IsKeyed store
      → store key ≡ some r
      → now ≤ later
      → is_expired later r.expires_at ≡ false
      → view later (complete now store key body code) key
        ≡ finished r.request_hash (some body) (some code)
  unfolding view complete storage_set
  completed-view now later store key r body code keyed here after fresh =
      let own = (eq_iff r.key key).1 (keyed key r here) in
      elim (storage_get_cases now store key) [
        | inl (q, there, alive, got) ↦ let same : q ≡ r = ground arith in ground arith
        | inr (dropped, quiet, drops, got) ↦
            let alive = not_expired_before now later r.expires_at after fresh in
            let seen = view_live now store key r here alive in
            elim (status_cases r.status) [
              | inl running ↦ absurd (ground arith)
              | inr ended ↦ absurd (ground arith)
            ]
      ]

  -- A completed answer is replayed: until the key expires, every request that carries it is
  -- answered by the stored status code and body, and is not handled again.
  pub completed_is_replayed :
      (sha256 : String → String) (now later : ℕ) (store : Store Body) (key : String)
      (r : IdempotencyRecord Body) (body : Body) (code : ℕ) (request : Request)
      → IsKeyed store
      → store key ≡ some r
      → now ≤ later
      → is_expired later r.expires_at ≡ false
      → request.idempotency_key ≡ some key
      → key ≢ ""
      → (idempotency_guard sha256 later (complete now store key body code) request).0
        ≡ replayed code (some body)
  completed_is_replayed sha256 now later store key r body code request keyed here after fresh
        carried filled =
      idempotency_guard_lem sha256 later (complete now store key body code) request key carried
        filled
      ∙ ap (answer_of sha256 later store key (request_hash_of sha256 request))
          (completed-view now later store key r body code keyed here after fresh)
