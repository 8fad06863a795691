-- ===== src/Idempotency/Laws.antt =====
-- The service's operations do to the states of the keys what the specification says.
use cyber_hub_api.Prelude.{
  ◌≡◌, refl, sym, ◌∙◌, subst, ◌≢◌, ◌⊎◌, inl, inr, ℕ, ◌+◌, String, false, leb, none, some, str_eq,
  eq_iff, eq_refl, arith, Bool-cases, Option-cases,
}
use cyber_hub_api.Idempotency.{
  IdempotencyStatus, processing, completed, IdempotencyRecord, Store, is_expired, Reservation,
  reserved, new_record, storage_set, storage_delete, storage_get, reserve_found, reserve, complete,
  fail,
}
use cyber_hub_api.Idempotency.Spec.{
  KeyState, free, in_flight, state_of, live, view, IsKeyed, reserve_outcome, reserve_state,
  complete_state, fail_state, Becomes,
}

pub status_cases : (s : IdempotencyStatus) → (s ≡ processing) ⊎ (s ≡ completed)
status_cases processing = inl refl
status_cases completed = inr refl

differs : {k other : String} → other ≢ k → str_eq k other ≡ false
differs {k} {other} apart = elim (Bool-cases (str_eq k other)) [
  | inl same ↦ absurd (apart (sym ((eq_iff k other).0 same)))
  | inr other_ ↦ other_
]

module _ {Body : Type 0} (now : ℕ) (store : Store Body) where
  set-Becomes :
      (r : IdempotencyRecord Body)
      → Becomes now store r.key (live now (some r)) (storage_set store r)
  unfolding view storage_set
  set-Becomes r = (
    let same = eq_refl r.key in ground arith,
    λ other apart. let no_hit = differs apart in ground arith,
  )

  delete-Becomes : (key : String) → Becomes now store key free (storage_delete store key)
  unfolding view storage_delete
  delete-Becomes key = (
    let same = eq_refl key in ground arith,
    λ other apart. let no_hit = differs apart in ground arith,
  )

  -- A read finds the live record of the key, or drops a dead one.
  pub storage_get_cases :
      (key : String)
      → ((r : IdempotencyRecord Body) × (store key ≡ some r)
          × (is_expired now r.expires_at ≡ false)
          × (storage_get now store key ≡ (some r, store)))
        ⊎ ((after : Store Body) × (view now store key ≡ free)
            × Becomes now store key free after
            × (storage_get now store key ≡ (none, after)))
  unfolding storage_get view
  storage_get_cases key = elim (Option-cases (store key)) [
    | inl gone ↦
        let quiet : view now store key ≡ free = ground arith in
        inr (store, quiet, (quiet, λ other apart. refl), ground arith)
    | inr (r, here) ↦ elim (Bool-cases (is_expired now r.expires_at)) [
      | inl stale ↦
          let quiet : view now store key ≡ free = ground arith in
          inr (storage_delete store key, quiet, delete-Becomes key, ground arith)
      | inr fresh ↦ inl (r, here, fresh, ground arith)
    ]
  ]

  pub view_live :
      (key : String) (r : IdempotencyRecord Body)
      → store key ≡ some r
      → is_expired now r.expires_at ≡ false
      → view now store key ≡ state_of r
  unfolding view
  view_live key r here fresh = ground arith

-- A change after a change that only dropped a dead record.
module _ {Body : Type 0} (now : ℕ) where
  Becomes-after :
      (store middle after : Store Body) (key : String) {old new : KeyState Body}
      → Becomes now store key old middle
      → Becomes now middle key new after
      → Becomes now store key new after
  Becomes-after store middle after key before later =
      (later.0, λ other apart. later.1 other apart ∙ before.1 other apart)

  fresh_record :
      (key h : String) → live now (some (new_record {Body = Body} now key h)) ≡ in_flight h
  fresh_record key h = let later : leb (now + 86400000) now ≡ false = ground arith in ground arith

  reserve_found-outcome :
      (r : IdempotencyRecord Body) (h : String)
      → (reserve_found r h ≡ reserve_outcome (state_of r) h)
        × (reserve_state (state_of r) h ≡ state_of r)
  reserve_found-outcome r h = (ground arith, ground arith)

  -- What the state of a key says of a reservation of it, and of the store after.
  abbrev pub Reserves :
      Store Body → String → String → KeyState Body → Reservation × Store Body → Type 0
  Reserves store key h state (outcome, after) =
      (outcome ≡ reserve_outcome state h) × Becomes now store key (reserve_state state h) after

  -- A reservation of a key is accepted, refused as another request's or refused as in progress by
  -- the key's state alone; an accepted one puts a free key in flight with the request's digest,
  -- and no reservation changes the state of another key.
  pub reserve-Reserves :
      (store : Store Body) (key h : String)
      → Reserves store key h (view now store key) (reserve now store key h)
  unfolding reserve
  reserve-Reserves store key h = elim (storage_get_cases now store key) [
    | inl (r, here, fresh, got) ↦
        let seen = view_live now store key r here fresh in
        let (answer, kept) = reserve_found-outcome r h in
        let same : reserve now store key h ≡ (reserve_found r h, store) = ground arith in
        subst (Reserves store key h (view now store key)) (sym same) (
          subst (λ state. Reserves store key h state (reserve_found r h, store)) (sym seen)
            (answer, (seen ∙ sym kept, λ other apart. refl)))
    | inr (after, quiet, drops, got) ↦
        let sets = set-Becomes now after (new_record now key h) in
        let same : reserve now store key h ≡ (reserved, storage_set after (new_record now key h)) =
          ground arith in
        subst (Reserves store key h (view now store key)) (sym same) (
          subst
            (λ state.
              Reserves store key h state (reserved, storage_set after (new_record now key h)))
            (sym quiet)
            (
              refl,
              (
                sets.0 ∙ fresh_record key h,
                (Becomes-after store after (storage_set after (new_record now key h)) key drops
                    sets).1,
              ),
            ))
  ]

  abbrev pub Completes : Store Body → String → Body → ℕ → KeyState Body → Store Body → Type 0
  Completes store key body code state after =
      Becomes now store key (complete_state state body code) after

  abbrev pub completed_record : IdempotencyRecord Body → Body → ℕ → IdempotencyRecord Body
  completed_record r body code = record r {
    status = completed;
    response_body = some body;
    status_code = some code;
  }

  -- A completion of a key that is held stores the answer under the request's digest; of a free key
  -- it does nothing; and it changes the state of no other key.
  pub complete-Completes :
      (store : Store Body) (key : String) (body : Body) (code : ℕ)
      → IsKeyed store
      → Completes store key body code (view now store key) (complete now store key body code)
  unfolding complete
  complete-Completes store key body code keyed = elim (storage_get_cases now store key) [
    | inl (r, here, fresh, got) ↦
        let done = completed_record r body code in
        let seen = view_live now store key r here fresh in
        let sets =
          subst (λ k. Becomes now store k (live now (some done)) (storage_set store done))
            (keyed key r here) (set-Becomes now store done) in
        let now_done : live now (some done) ≡ complete_state (state_of r) body code =
          ground arith in
        let same : complete now store key body code ≡ storage_set store done = ground arith in
        subst (Completes store key body code (view now store key)) (sym same) (
          subst (λ state. Completes store key body code state (storage_set store done)) (sym seen)
            (sets.0 ∙ now_done, sets.1))
    | inr (after, quiet, drops, got) ↦
        let same : complete now store key body code ≡ after = ground arith in
        subst (Completes store key body code (view now store key)) (sym same)
          (subst (λ state. Completes store key body code state after) (sym quiet) drops)
  ]

  abbrev pub Fails : Store Body → String → KeyState Body → Store Body → Type 0
  Fails store key state after = Becomes now store key (fail_state state) after

  -- A failure frees a key in flight, keeps a finished one, and changes the state of no other key.
  pub fail-Fails :
      (store : Store Body) (key : String)
      → Fails store key (view now store key) (fail now store key)
  unfolding fail
  fail-Fails store key = elim (storage_get_cases now store key) [
    | inl (r, here, fresh, got) ↦
        let seen = view_live now store key r here fresh in
        elim (status_cases r.status) [
          | inl running ↦
              let flying : state_of r ≡ in_flight r.request_hash = ground arith in
              let same : fail now store key ≡ storage_delete store key = ground arith in
              subst (Fails store key (view now store key)) (sym same) (
                subst (λ state. Fails store key state (storage_delete store key))
                  (sym (seen ∙ flying)) (delete-Becomes now store key))
          | inr ended ↦
              let kept : fail_state (state_of r) ≡ state_of r = ground arith in
              let same : fail now store key ≡ store = ground arith in
              subst (Fails store key (view now store key)) (sym same) (
                subst (λ state. Fails store key state store) (sym seen)
                  (seen ∙ sym kept, λ other apart. refl))
        ]
    | inr (after, quiet, drops, got) ↦
        let same : fail now store key ≡ after = ground arith in
        subst (Fails store key (view now store key)) (sym same)
          (subst (λ state. Fails store key state after) (sym quiet) drops)
  ]
