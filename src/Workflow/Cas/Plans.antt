-- ===== src/Workflow/Cas/Plans.antt =====
-- What a transition service hands to the compare-and-set, against the rows of the registry.
use mathlib.Core.List.Memᴰ as MemD
use cyber_hub_api.Prelude.{
  ◌⊎◌, ◌≡◌, refl, sym, ap, ◌∙◌, subst, ℕ, String, true, false, none, some, List, [], ◌∷◌, Memᴰ,
  arith, Bool-cases, Option-cases, inl, inr, map, unique, includes-unique, mem_of_includes,
  includes_of_mem, is_empty, mem-flat_map, flat_map_mem, flat_map, same_of_unique, unique_of_same,
  List-cases, map_mem, mem_map, ltb, length, not_empty_of_mem,
}
use cyber_hub_api.Workflow.Types.{
  WorkflowTransitionId, WorkflowTransitionDefinition, WorkflowDefinition, WorkflowState,
}
use cyber_hub_api.Workflow.Registry.{find_transition}
use cyber_hub_api.Workflow.Registry.Laws.{IsWellFormed}
use cyber_hub_api.Workflow.Validation.Laws.{HasRow, find_transition_sound}
use cyber_hub_api.Workflow.Cas.{
  CasTransitionInput, CasTransitionOutcome, TransitionPlan, refused, run, conflict,
  existing_transitions, plan_candidates, plan_single,
}

run-injective : {a b : CasTransitionInput} → ◌≡◌ {A = TransitionPlan} (run a) (run b) → a ≡ b
run-injective {a} {b} e = cc

-- The test for one target leaves one.
same_target :
    (t : WorkflowTransitionDefinition) (ts : List WorkflowTransitionDefinition)
    → ltb 1 (length (unique (map (λ t. t.to) (t ∷ ts)))) ≡ false
    → (u : WorkflowTransitionDefinition) → Memᴰ u (t ∷ ts)
    → u.to ≡ t.to
same_target t ts h u (Memᴰ.head same) = ap (λ t. t.to) same
same_target t ts h u (Memᴰ.tail n) =
    same_of_unique t.to (map (λ t. t.to) ts) h u.to (mem_map (λ t. t.to) ts n)

module _ (d : WorkflowDefinition) where
  -- A candidate is kept where its row exists and has a source state.
  existing-cons :
      (id : WorkflowTransitionId) (ids : List WorkflowTransitionId)
      → (existing_transitions d (id ∷ ids) ≡ existing_transitions d ids)
          × ((t : WorkflowTransitionDefinition)
              → find_transition d id ≡ some t
              → is_empty t.from ≡ true)
        ⊎ ((t : WorkflowTransitionDefinition) × (find_transition d id ≡ some t)
            × (existing_transitions d (id ∷ ids) ≡ t ∷ existing_transitions d ids))
  unfolding existing_transitions
  existing-cons id ids = elim (Option-cases (find_transition d id)) [
    | inl missing ↦ inl (ground arith, λ t e. absurd (ground arith))
    | inr (u, found) ↦ elim (Bool-cases (is_empty u.from)) [
      | inl create ↦ inl (
        ground arith,
        λ t e. let same : t ≡ u = ground arith in ap (λ t. is_empty t.from) same ∙ create,
      )
      | inr kept ↦ inr (u, found, ground arith)
    ]
  ]

  pub existing-mem :
      (ids : List WorkflowTransitionId) (t : WorkflowTransitionDefinition)
      → Memᴰ t (existing_transitions d ids)
      → (id : WorkflowTransitionId) × Memᴰ id ids × (find_transition d id ≡ some t)
  unfolding existing_transitions
  existing-mem [] t m = elim m [ ]
  existing-mem (id ∷ ids) t m =
      let later = λ (n : Memᴰ t (existing_transitions d ids)).
        let (i, k, e) = existing-mem ids t n in
        let r : (i : WorkflowTransitionId) × Memᴰ i (id ∷ ids) × (find_transition d i ≡ some t) =
          (i, Memᴰ.tail k, e) in
        r in
      elim (existing-cons id ids) [
        | inl (skip, _) ↦ later (subst (Memᴰ t) skip m)
        | inr (u, found, keep) ↦ elim (MemD.cases_cons (subst (Memᴰ t) keep m)) [
          | inl same ↦ (id, Memᴰ.head refl, found ∙ ap some (sym same))
          | inr n ↦ later n
        ]
      ]

  pub mem-existing :
      (ids : List WorkflowTransitionId) {id : WorkflowTransitionId}
      {t : WorkflowTransitionDefinition}
      → Memᴰ id ids
      → find_transition d id ≡ some t
      → is_empty t.from ≡ false
      → Memᴰ t (existing_transitions d ids)
  mem-existing [] m e h = elim m [ ]
  mem-existing (i ∷ ids) {id} {t} (Memᴰ.head same) e h =
      let here : find_transition d i ≡ some t = ap (find_transition d) (sym same) ∙ e in
      elim (existing-cons i ids) [
        | inl (_, create) ↦ let c = create t here in absurd (ground arith)
        | inr (u, found, keep) ↦
            let one : t ≡ u = ground arith in subst (Memᴰ t) (sym keep) (Memᴰ.head one)
      ]
  mem-existing (i ∷ ids) {id} {t} (Memᴰ.tail m) e h =
      let rest = mem-existing ids m e h in
      elim (existing-cons i ids) [
        | inl (skip, _) ↦ subst (Memᴰ t) (sym skip) rest
        | inr (u, _, keep) ↦ subst (Memᴰ t) (sym keep) (Memᴰ.tail rest)
      ]

  -- The command names rows of the registry: each state that it allows has a candidate's row to
  -- its target.
  pub record Follows (resource_id : String) (ids : List WorkflowTransitionId) (expected : ℕ)
      (input : CasTransitionInput) : Type 0 where
    pub same_resource : input.resource_id ≡ resource_id
    pub same_version : input.expected_state_version ≡ expected
    pub rows :
        (s : WorkflowState)
        → Memᴰ s input.allowed_from_states
        → (id : WorkflowTransitionId) × Memᴰ id ids × HasRow d id (some s) input.to_state

  -- All the candidates' rows lead to one state.
  abbrev pub Agree : List WorkflowTransitionId → Type 0
  Agree ids =
      (i j : WorkflowTransitionId) (t u : WorkflowTransitionDefinition)
      → Memᴰ i ids
      → Memᴰ j ids
      → find_transition d i ≡ some t
      → find_transition d j ≡ some u
      → t.to ≡ u.to

  module _ (resource_id : String) (expected : ℕ) where
    -- The command of one target.
    abbrev command : List WorkflowState → WorkflowState → CasTransitionInput
    command states to = record {
      resource_id = resource_id;
      allowed_from_states = states;
      to_state = to;
      expected_state_version = expected;
    }

    command-Follows :
        (ids : List WorkflowTransitionId) (states : List WorkflowState) (to : WorkflowState)
        → ((s : WorkflowState)
            → Memᴰ s states
            → (id : WorkflowTransitionId) × Memᴰ id ids × HasRow d id (some s) to)
        → Follows resource_id ids expected (command states to)
    command-Follows ids states to h = record { same_resource = refl; same_version = refl; rows = h }

    -- The candidates name one target, and the plan is the command to it.
    pub plan_candidates-run :
        (ids : List WorkflowTransitionId) (t : WorkflowTransitionDefinition)
        (ts : List WorkflowTransitionDefinition)
        → existing_transitions d ids ≡ t ∷ ts
        → ltb 1 (length (unique (map (λ t. t.to) (t ∷ ts)))) ≡ false
        → plan_candidates d resource_id ids expected
          ≡ run (command (unique (flat_map (λ t. t.from) (t ∷ ts))) t.to)
    unfolding plan_candidates
    plan_candidates-run ids t ts e h = rw (e, plan_candidates) (rw h)

    plan_candidates-refused :
        (ids : List WorkflowTransitionId) (t : WorkflowTransitionDefinition)
        (ts : List WorkflowTransitionDefinition)
        → existing_transitions d ids ≡ t ∷ ts
        → ltb 1 (length (unique (map (λ t. t.to) (t ∷ ts)))) ≡ true
        → plan_candidates d resource_id ids expected ≡ refused (conflict true none)
    unfolding plan_candidates
    plan_candidates-refused ids t ts e h = rw (e, plan_candidates) (rw h)

    plan_candidates-empty :
        (ids : List WorkflowTransitionId)
        → existing_transitions d ids ≡ []
        → plan_candidates d resource_id ids expected ≡ refused (conflict true none)
    unfolding plan_candidates
    plan_candidates-empty ids e = rw (e, plan_candidates)

    rows_of_candidates :
        (ids : List WorkflowTransitionId) (t : WorkflowTransitionDefinition)
        (ts : List WorkflowTransitionDefinition)
        → existing_transitions d ids ≡ t ∷ ts
        → ltb 1 (length (unique (map (λ t. t.to) (t ∷ ts)))) ≡ false
        → (s : WorkflowState) → Memᴰ s (unique (flat_map (λ t. t.from) (t ∷ ts)))
        → (id : WorkflowTransitionId) × Memᴰ id ids × HasRow d id (some s) t.to
    rows_of_candidates ids t ts e h s m =
        let from = includes_of_mem m in
        let (u, n, l) =
          mem-flat_map (λ t. t.from) (t ∷ ts)
            (mem_of_includes s _
              (sym (includes-unique s (flat_map (λ t. t.from) (t ∷ ts))) ∙ from)) in
        let (id, k, found) = existing-mem ids u (subst (Memᴰ u) (sym e) n) in
        let (listed, same_id) = find_transition_sound d id found in
        (id, k, (u, listed, same_id, same_target t ts h u n, l))

    pub plan_candidates-Follows :
        (ids : List WorkflowTransitionId) (input : CasTransitionInput)
        → plan_candidates d resource_id ids expected ≡ run input
        → Follows resource_id ids expected input
    plan_candidates-Follows ids input e = elim (List-cases (existing_transitions d ids)) [
      | inl nothing ↦ let r = plan_candidates-empty ids nothing in absurd (ground arith)
      | inr (t, ts, kept) ↦ elim (Bool-cases (ltb 1 (length (unique (map (λ t. t.to) (t ∷ ts)))))) [
        | inl many ↦ let r = plan_candidates-refused ids t ts kept many in absurd (ground arith)
        | inr one ↦
            let same : command (unique (flat_map (λ t. t.from) (t ∷ ts))) t.to ≡ input =
              run-injective (sym (plan_candidates-run ids t ts kept one) ∙ e) in
            subst (Follows resource_id ids expected) same
              (command-Follows ids _ t.to (rows_of_candidates ids t ts kept one))
      ]
    ]

    pub plan_candidates-refusal :
        (ids : List WorkflowTransitionId) (o : CasTransitionOutcome)
        → plan_candidates d resource_id ids expected ≡ refused o
        → o ≡ conflict true none
    plan_candidates-refusal ids o e = elim (List-cases (existing_transitions d ids)) [
      | inl nothing ↦ let r = plan_candidates-empty ids nothing in ground arith
      | inr (t, ts, kept) ↦ elim (Bool-cases (ltb 1 (length (unique (map (λ t. t.to) (t ∷ ts)))))) [
        | inl many ↦ let r = plan_candidates-refused ids t ts kept many in cc
        | inr one ↦ let r = plan_candidates-run ids t ts kept one in absurd (ground arith)
      ]
    ]

    pub plan_single-refusal :
        (id : WorkflowTransitionId) (o : CasTransitionOutcome)
        → plan_single d resource_id id expected ≡ refused o
        → o ≡ conflict true none
    unfolding plan_single
    plan_single-refusal id o e = ground arith

    pub plan_single-Follows :
        (id : WorkflowTransitionId) (input : CasTransitionInput)
        → plan_single d resource_id id expected ≡ run input
        → Follows resource_id (id ∷ []) expected input
    unfolding plan_single
    plan_single-Follows id input e = elim (Option-cases (find_transition d id)) [
      | inl missing ↦ absurd (ground arith)
      | inr (t, found) ↦ elim (Bool-cases (is_empty t.from)) [
        | inl create ↦ absurd (ground arith)
        | inr kept ↦
            let same : command t.from t.to ≡ input = run-injective (ground arith) in
            let (listed, same_id) = find_transition_sound d id found in
            subst (Follows resource_id (id ∷ []) expected) same (
              command-Follows (id ∷ []) t.from t.to
                (λ s m. (id, Memᴰ.head refl, (t, listed, same_id, refl, m))))
      ]
    ]

    one_target :
        (ids : List WorkflowTransitionId) (t : WorkflowTransitionDefinition)
        (ts : List WorkflowTransitionDefinition)
        → Agree ids
        → existing_transitions d ids ≡ t ∷ ts
        → ltb 1 (length (unique (map (λ t. t.to) (t ∷ ts)))) ≡ false
    one_target ids t ts agree e =
        ap (λ xs. ltb 1 (length xs))
          (unique_of_same t.to (map (λ t. t.to) ts) λ y m.
            let (u, n, same) = map_mem (λ t. t.to) ts m in
            let (i, mi, fi) = existing-mem ids u (subst (Memᴰ u) (sym e) (Memᴰ.tail n)) in
            let (j, mj, fj) = existing-mem ids t (subst (Memᴰ t) (sym e) (Memᴰ.head refl)) in
            same ∙ agree i j u t mi mj fi fj)

    -- A candidate that is valid from a state is planned, where the candidates agree.
    pub plan_candidates_complete :
        (ids : List WorkflowTransitionId) (id : WorkflowTransitionId) (s to : WorkflowState)
        → IsWellFormed d
        → Agree ids
        → Memᴰ id ids
        → HasRow d id (some s) to
        → (input : CasTransitionInput) × (plan_candidates d resource_id ids expected ≡ run input)
          × Memᴰ s input.allowed_from_states
          × (input.to_state ≡ to)
    plan_candidates_complete ids id s to w agree m (u, listed, same_id, same_to, l) =
        let found : find_transition d id ≡ some u =
          subst (λ i. find_transition d i ≡ some u) same_id (w.found_by_id u listed) in
        let kept = mem-existing ids m found (not_empty_of_mem u.from l) in
        elim (List-cases (existing_transitions d ids)) [
          | inl nothing ↦ absurd (MemD.not-nil (subst (Memᴰ u) nothing kept))
          | inr (t, ts, e) ↦
              let one = one_target ids t ts agree e in
              let n = subst (Memᴰ u) e kept in
              (
                command (unique (flat_map (λ t. t.from) (t ∷ ts))) t.to,
                plan_candidates-run ids t ts e one,
                mem_of_includes s _ (
                    includes-unique s _
                    ∙ includes_of_mem (flat_map_mem (λ t. t.from) (t ∷ ts) n l)),
                sym (same_target t ts one u n) ∙ same_to,
              )
        ]
