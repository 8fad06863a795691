-- ===== src/Workflow/Cas/Schedule.antt =====
-- Several clients on one table: their UPDATE statements in any order, between other statements.
use cyber_hub_api.Prelude.{
  ◌≡◌, refl, sym, ap, ◌∙◌, ℕ, suc, ◌+◌, ◌≤◌, ◌<◌, String, true, ◌&&◌, some, List, [], ◌∷◌, arith,
  Bool-cases, Option-cases, ◌⊎◌, inl, inr, str_eq, eq_iff, ◌==◌, if◌then◌else◌, is_empty, not,
}
use cyber_hub_api.Workflow.Table.{Row, WorkflowTable}
use cyber_hub_api.Workflow.Cas.{CasTransitionInput, cas_update, cas_matches, cas_set}
use cyber_hub_api.Workflow.Cas.Laws.{
  SameRows, Replaced, cas_matches_iff, cas_update-hit, cas_update-miss,
}

module _ (db : WorkflowTable) where
  open db use {Table, row}

  -- What is not a compare-and-set keeps the rows that there are, and takes no version back.
  abbrev pub KeepsVersions : (Table → Table) → Type 0
  KeepsVersions f =
      (t : Table) (key : String) (r : Row)
      → row t key ≡ some r
      → (r' : Row) × (row (f t) key ≡ some r') × (r.state_version ≤ r'.state_version)

  pub data Statement : Type 0 where
    cas : CasTransitionInput → ℕ → Statement
    other : (f : Table → Table) → KeepsVersions f → Statement

  abbrev pub execute : Statement → Table → Table
  execute (cas input now) t = (cas_update db input now t).0
  execute (other f _) t = f t

  -- 1 where the statement is a compare-and-set for that key and version, and wrote the row.
  abbrev pub win : String → ℕ → Statement → Table → ℕ
  win key version (cas input now) t =
      if str_eq input.resource_id key
        && input.expected_state_version == version
        && not (is_empty (cas_update db input now t).1)
      then 1
      else 0
  win key version (other _ _) t = 0

  -- The wins of a schedule, its statements executed one after the other.
  abbrev pub wins : String → ℕ → List Statement → Table → ℕ
  wins key version [] t = 0
  wins key version (s ∷ ss) t = win key version s t + wins key version ss (execute s t)

  abbrev AtLeast : String → ℕ → Table → Type 0
  AtLeast key v t = (r : Row) × (row t key ≡ some r) × (v ≤ r.state_version)

  -- A compare-and-set that writes nothing, or writes the row that it matches.
  cas-cases :
      (input : CasTransitionInput) (now : ℕ) (t : Table)
      → (SameRows db t (cas_update db input now t).0 × ((cas_update db input now t).1 ≡ []))
        ⊎ ((r : Row) × (row t input.resource_id ≡ some r)
            × (r.state_version ≡ input.expected_state_version)
            × Replaced db input.resource_id (cas_set input now r) t (cas_update db input now t).0)
  cas-cases input now t = elim (Option-cases (row t input.resource_id)) [
    | inl gone ↦ inl (cas_update-miss db input now t (λ r e. absurd (ground arith)))
    | inr (r, e) ↦ elim (Bool-cases (cas_matches input r)) [
      | inl hit ↦
          inr (r, e, ((cas_matches_iff input r).0 hit).1, (cas_update-hit db input now t r e hit).0)
      | inr miss ↦ inl (
          cas_update-miss db input now t
            (λ s e'. let same : s ≡ r = ground arith in ap (cas_matches input) same ∙ miss))
    ]
  ]

  module _ (key : String) (v : ℕ) where
    AtLeast-execute : (s : Statement) (t : Table) → AtLeast key v t → AtLeast key v (execute s t)
    AtLeast-execute (other f keeps) t (r, e, h) =
        let (r', e', h') = keeps t key r e in (r', e', omega arith)
    AtLeast-execute (cas input now) t (r, e, h) = elim (cas-cases input now t) [
      | inl (same, _) ↦ (r, same key ∙ e, h)
      | inr (q, found, _, wrote) ↦ elim (Bool-cases (str_eq input.resource_id key)) [
        | inl here ↦
            let at_key : row t key ≡ some q = ap (row t) (sym ((eq_iff _ key).0 here)) ∙ found in
            let one : q ≡ r = ground arith in
            (
              cas_set input now q,
              wrote key ∙ rw here,
              let bound : r.state_version ≡ q.state_version =
                    ap (λ (r : Row). r.state_version) (sym one) in
                  omega arith,
            )
        | inr there ↦ (r, wrote key ∙ (rw there e), h)
      ]
    ]

    lost_of_nothing :
        (input : CasTransitionInput) (now : ℕ) (t : Table)
        → (cas_update db input now t).1 ≡ []
        → win key v (cas input now) t ≡ 0
    lost_of_nothing input now t nothing = rw nothing (ground arith)

    won_here :
        (input : CasTransitionInput) (now : ℕ) (t : Table)
        → 0 < win key v (cas input now) t
        → (str_eq input.resource_id key ≡ true) × (input.expected_state_version ≡ v)
    won_here input now t h = ground arith

    -- Past the version, no compare-and-set for it writes.
    win_past : (s : Statement) (t : Table) → AtLeast key (suc v) t → win key v s t ≡ 0
    win_past (other f keeps) t h = refl
    win_past (cas input now) t (q, at_key, past) =
        elim (Bool-cases (str_eq input.resource_id key)) [
          | inr there ↦ ground arith
          | inl here ↦ elim (Bool-cases (input.expected_state_version == v)) [
            | inr old ↦ ground arith
            | inl now_at ↦ elim (cas-cases input now t) [
              | inl (_, nothing) ↦ rw nothing (ground arith)
              | inr (r, found, current, _) ↦
                  let at_key' : row t key ≡ some r =
                    ap (row t) (sym ((eq_iff _ key).0 here)) ∙ found in
                  let one : r ≡ q = ground arith in
                  let bound : r.state_version ≡ q.state_version =
                    ap (λ (r : Row). r.state_version) one in
                  absurd (ground arith)
            ]
          ]
        ]

    -- A win takes the row past the version.
    win-AtLeast :
        (s : Statement) (t : Table) → 0 < win key v s t → AtLeast key (suc v) (execute s t)
    win-AtLeast (other f keeps) t h = absurd (omega arith)
    win-AtLeast (cas input now) t h = elim (cas-cases input now t) [
      | inl (_, nothing) ↦ let lost = lost_of_nothing input now t nothing in absurd (omega arith)
      | inr (r, found, current, wrote) ↦
          let (here, at_v) = won_here input now t h in
          (cas_set input now r, wrote key ∙ rw here, omega arith)
    ]

    win-le-one : (s : Statement) (t : Table) → win key v s t ≤ 1
    win-le-one (other f keeps) t = omega arith
    win-le-one (cas input now) t = ground arith

  wins_past :
      (key : String) (v : ℕ) (ss : List Statement) (t : Table)
      → AtLeast key (suc v) t
      → wins key v ss t ≡ 0
  wins_past key v [] t h = refl
  wins_past key v (s ∷ ss) t h = omega (
    arith,
    win_past key v s t h,
    wins_past key v ss (execute s t) (AtLeast-execute key (suc v) s t h),
  )

  -- Of all the compare-and-set transitions that any clients send for one row at one expected
  -- version, in any order and between any other statements that take no version back, one at most
  -- writes the row.
  pub wins-le-one :
      (key : String) (version : ℕ) (ss : List Statement) (t : Table) → wins key version ss t ≤ 1
  wins-le-one key version [] t = omega arith
  wins-le-one key version (s ∷ ss) t = elim (Bool-cases (win key version s t == 0)) [
    | inl lost ↦
        let z : win key version s t ≡ 0 = ground arith in
        omega (arith, wins-le-one key version ss (execute s t))
    | inr won ↦
        let past = win-AtLeast key version s t (ground arith) in
        omega (arith, win-le-one key version s t, wins_past key version ss (execute s t) past)
  ]
