-- ===== src/Idempotency/Reachable.antt =====
-- The stores that the operations reach from the empty one, and what each of their records is.
use cyber_hub_api.Prelude.{
  ◌≡◌, refl, sym, subst, ◌⊎◌, inl, inr, ℕ, ◌+◌, String, none, some, str_eq, eq_iff, arith,
  Bool-cases, Option-cases,
}
use cyber_hub_api.Idempotency.{
  processing, completed, IdempotencyRecord, Store, is_expired, new_record, storage_set,
  storage_delete, storage_get, reserve, complete, fail,
}
use cyber_hub_api.Idempotency.Spec.{IsKeyed}
use cyber_hub_api.Idempotency.Laws.{status_cases, completed_record}

module _ {Body : Type 0} where
  -- A request in progress has no answer yet; a completed one has a body and a status code.
  abbrev pub IsAnswered : IdempotencyRecord Body → Type 0
  IsAnswered r =
      ((r.status ≡ processing) × (r.response_body ≡ none) × (r.status_code ≡ none))
      ⊎ ((r.status ≡ completed)
          × ((body : Body) × (r.response_body ≡ some body))
          × ((code : ℕ) × (r.status_code ≡ some code)))

  -- A record under a key.
  pub record IsEntry (key : String) (r : IdempotencyRecord Body) : Type 0 where
    pub own_key : r.key ≡ key
    pub lives_a_day : r.expires_at ≡ some (r.created_at + 86400000)
    pub answered : IsAnswered r

  abbrev pub AreEntries : Store Body → Type 0
  AreEntries store =
      (key : String) (r : IdempotencyRecord Body) → store key ≡ some r → IsEntry key r

  found_under :
      (key other : String) (r : IdempotencyRecord Body)
      → key ≡ other
      → IsEntry key r
      → IsEntry other r
  found_under key other r same e = subst (λ k. IsEntry k r) same e

module _ {Body : Type 0} (now : ℕ) where
  set-AreEntries :
      (store : Store Body) (r : IdempotencyRecord Body)
      → IsEntry r.key r
      → AreEntries store
      → AreEntries (storage_set store r)
  unfolding storage_set
  set-AreEntries store r entry entries key q e = elim (Bool-cases (str_eq r.key key)) [
    | inl here ↦
        let same : r ≡ q = ground arith in
        subst (IsEntry key) same (found_under r.key key r ((eq_iff r.key key).0 here) entry)
    | inr there ↦ entries key q (ground arith)
  ]

  delete-AreEntries :
      (store : Store Body) (gone : String)
      → AreEntries store
      → AreEntries (storage_delete store gone)
  unfolding storage_delete
  delete-AreEntries store gone entries key q e = entries key q (ground arith)

  get-AreEntries :
      (store : Store Body) (key : String)
      → AreEntries store
      → AreEntries (storage_get now store key).1
  unfolding storage_get
  get-AreEntries store key entries = elim (Option-cases (store key)) [
    | inl gone ↦
        let same : (storage_get now store key).1 ≡ store = ground arith in
        subst AreEntries (sym same) entries
    | inr (r, here) ↦ elim (Bool-cases (is_expired now r.expires_at)) [
      | inl stale ↦
          let same : (storage_get now store key).1 ≡ storage_delete store key = ground arith in
          subst AreEntries (sym same) (delete-AreEntries store key entries)
      | inr fresh ↦
          let same : (storage_get now store key).1 ≡ store = ground arith in
          subst AreEntries (sym same) entries
    ]
  ]

  -- What a read finds is an entry.
  got-IsEntry :
      (store : Store Body) (key : String) (r : IdempotencyRecord Body)
      → AreEntries store
      → (storage_get now store key).0 ≡ some r
      → IsEntry key r
  unfolding storage_get
  got-IsEntry store key r entries got = elim (Option-cases (store key)) [
    | inl gone ↦ absurd (ground arith)
    | inr (q, here) ↦ elim (Bool-cases (is_expired now q.expires_at)) [
      | inl stale ↦ absurd (ground arith)
      | inr fresh ↦ let same : q ≡ r = ground arith in subst (IsEntry key) same (entries key q here)
    ]
  ]

  new_record-IsEntry : (key h : String) → IsEntry key (new_record {Body = Body} now key h)
  new_record-IsEntry key h = record {
    own_key = refl;
    lives_a_day = refl;
    answered = inl (refl, refl, refl);
  }

  completed-IsEntry :
      (key : String) (r : IdempotencyRecord Body) (body : Body) (code : ℕ)
      → IsEntry key r
      → IsEntry key (completed_record now r body code)
  completed-IsEntry key r body code e = record {
    own_key = e.own_key;
    lives_a_day = e.lives_a_day;
    answered = inr (refl, (body, refl), (code, refl));
  }

  -- Each operation leaves the store that it read, or one change of it.
  reserve-AreEntries :
      (store : Store Body) (key h : String)
      → AreEntries store
      → AreEntries (reserve now store key h).1
  unfolding reserve
  reserve-AreEntries store key h entries =
      let kept = get-AreEntries store key entries in
      elim (Option-cases (storage_get now store key).0) [
        | inl gone ↦
            let same : (reserve now store key h).1
                ≡ storage_set (storage_get now store key).1 (new_record now key h) =
              ground arith in
            subst AreEntries (sym same) (
              set-AreEntries (storage_get now store key).1 (new_record now key h)
                (new_record-IsEntry key h) kept)
        | inr (r, got) ↦
            let same : (reserve now store key h).1 ≡ (storage_get now store key).1 = ground arith in
            subst AreEntries (sym same) kept
      ]

  complete-AreEntries :
      (store : Store Body) (key : String) (body : Body) (code : ℕ)
      → AreEntries store
      → AreEntries (complete now store key body code)
  unfolding complete
  complete-AreEntries store key body code entries =
      let kept = get-AreEntries store key entries in
      elim (Option-cases (storage_get now store key).0) [
        | inl gone ↦
            let same : complete now store key body code ≡ (storage_get now store key).1 =
              ground arith in
            subst AreEntries (sym same) kept
        | inr (r, got) ↦
            let same : complete now store key body code
                ≡ storage_set (storage_get now store key).1 (completed_record now r body code) =
              ground arith in
            let entry = got-IsEntry store key r entries got in
            subst AreEntries (sym same) (
              set-AreEntries (storage_get now store key).1 (completed_record now r body code)
                (found_under key r.key _ (sym entry.own_key)
                  (completed-IsEntry key r body code entry))
                kept)
      ]

  fail-AreEntries :
      (store : Store Body) (key : String) → AreEntries store → AreEntries (fail now store key)
  unfolding fail
  fail-AreEntries store key entries =
      let kept = get-AreEntries store key entries in
      elim (Option-cases (storage_get now store key).0) [
        | inl gone ↦
            let same : fail now store key ≡ (storage_get now store key).1 = ground arith in
            subst AreEntries (sym same) kept
        | inr (r, got) ↦ elim (status_cases r.status) [
          | inl running ↦
              let same : fail now store key ≡ storage_delete (storage_get now store key).1 key =
                ground arith in
              subst AreEntries (sym same) (delete-AreEntries (storage_get now store key).1 key kept)
          | inr ended ↦
              let same : fail now store key ≡ (storage_get now store key).1 = ground arith in
              subst AreEntries (sym same) kept
        ]
      ]

-- The stores that a sequence of operations reaches, each at a time of its own.
pub data Reachable {Body : Type 0} : Store Body → Type 0 where
  empty : Reachable (λ key. none)
  reading :
      {s : Store Body}
      → Reachable s
      → (now : ℕ) (key : String) → Reachable (storage_get now s key).1
  reserving :
      {s : Store Body}
      → Reachable s
      → (now : ℕ) (key h : String) → Reachable (reserve now s key h).1
  completing :
      {s : Store Body}
      → Reachable s
      → (now : ℕ) (key : String) (body : Body) (code : ℕ) → Reachable (complete now s key body code)
  failing : {s : Store Body} → Reachable s → (now : ℕ) (key : String) → Reachable (fail now s key)

-- In every store that the operations reach from the empty one, each record stands under its own
-- key, expires 86,400,000 milliseconds after it was created, and has a body and a status code where
-- it is completed, and neither where it is in progress.
pub Reachable-AreEntries : {Body : Type 0} {s : Store Body} → Reachable s → AreEntries s
Reachable-AreEntries empty = λ key r e. absurd (ground arith)
Reachable-AreEntries (reading {s} steps now key) =
    get-AreEntries now s key (Reachable-AreEntries steps)
Reachable-AreEntries (reserving {s} steps now key h) =
    reserve-AreEntries now s key h (Reachable-AreEntries steps)
Reachable-AreEntries (completing {s} steps now key body code) =
    complete-AreEntries now s key body code (Reachable-AreEntries steps)
Reachable-AreEntries (failing {s} steps now key) =
    fail-AreEntries now s key (Reachable-AreEntries steps)

pub Reachable-IsKeyed : {Body : Type 0} {s : Store Body} → Reachable s → IsKeyed s
Reachable-IsKeyed steps = λ key r e. (Reachable-AreEntries steps key r e).own_key
