-- ===== src/Workflow/Validation/Candidates.antt =====
-- Which candidate `resolveCandidate` picks.
use cyber_hub_api.Prelude.{
  ◌≡◌, refl, sym, subst, ◌⊎◌, ◌↔◌, Option, none, some, List, [], ◌∷◌, true, arith, Bool-cases,
  Option-cases, inl, inr, mem_of_includes, includes_of_mem, eq-nil_of_is_empty, not_empty_of_mem,
}
use cyber_hub_api.Workflow.Types.{
  WorkflowEntityType, WorkflowState, WorkflowTransitionId, WorkflowTransitionDefinition,
  WorkflowDefinition,
}
use cyber_hub_api.Workflow.Registry.{find_transition}
use cyber_hub_api.Workflow.Registry.Laws.{IsWellFormed, get_workflow_definition_total}
use cyber_hub_api.Workflow.Validation.{
  valid, candidate_applies, validate, first_candidate, resolve_candidate,
}
use cyber_hub_api.Workflow.Validation.Laws.{Leaves, HasRow, find_transition_sound, validate_iff}

-- `r` is the first of the ids with the property, or `none` where no id has it.
abbrev pub IsFirst :
    (WorkflowTransitionId → Type 0)
    → List WorkflowTransitionId
    → Option WorkflowTransitionId
    → Type 0
IsFirst P [] r = r ≡ none
IsFirst P (id ∷ ids) r = (P id × (r ≡ some id)) ⊎ ((¬ P id) × IsFirst P ids r)

IsFirst-map :
    (P Q : WorkflowTransitionId → Type 0)
    → ((id : WorkflowTransitionId) → P id ↔ Q id)
    → (ids : List WorkflowTransitionId) (r : Option WorkflowTransitionId) → IsFirst P ids r
    → IsFirst Q ids r
IsFirst-map P Q pq [] r h = h
IsFirst-map P Q pq (id ∷ ids) r (inl (p, e)) = inl ((pq id).0 p, e)
IsFirst-map P Q pq (id ∷ ids) r (inr (n, h)) =
    inr (λ q. n ((pq id).1 q), IsFirst-map P Q pq ids r h)

applies_iff :
    (t : WorkflowTransitionDefinition) (current : Option WorkflowState)
    → (candidate_applies t current ≡ true) ↔ Leaves t current
applies_iff t none = (λ h. eq-nil_of_is_empty t.from h, λ l. rw l)
applies_iff t (some s) = (
  λ h. mem_of_includes s t.from (ground arith),
  λ l. ground (arith, not_empty_of_mem t.from l, includes_of_mem l),
)

module _ (d : WorkflowDefinition) (w : IsWellFormed d) (current : Option WorkflowState) where
  abbrev Applies : WorkflowTransitionId → Type 0
  Applies id = (to : WorkflowState) × HasRow d id current to

  no_row : (id : WorkflowTransitionId) → find_transition d id ≡ none → ¬ Applies id
  no_row id missing (to, (t, m, same, _, _)) =
      let found = subst (λ i. find_transition d i ≡ some t) same (w.found_by_id t m) in ground arith

  row-Applies :
      (id : WorkflowTransitionId) (t : WorkflowTransitionDefinition)
      → find_transition d id ≡ some t
      → Applies id
      → candidate_applies t current ≡ true
  row-Applies id t found (to, (u, m, same, _, l)) =
      let other = subst (λ i. find_transition d i ≡ some u) same (w.found_by_id u m) in
      let one : u ≡ t = ground arith in
      subst (λ t. candidate_applies t current ≡ true) one ((applies_iff u current).1 l)

  first_candidate-IsFirst :
      (ids : List WorkflowTransitionId) → IsFirst Applies ids (first_candidate d ids current)
  unfolding first_candidate
  first_candidate-IsFirst [] = ground arith
  first_candidate-IsFirst (id ∷ ids) = elim (Option-cases (find_transition d id)) [
    | inl missing ↦
        let skip : first_candidate d (id ∷ ids) current ≡ first_candidate d ids current =
          ground arith in
        inr
          (no_row id missing, subst (IsFirst Applies ids) (sym skip) (first_candidate-IsFirst ids))
    | inr (t, found) ↦ elim (Bool-cases (candidate_applies t current)) [
      | inl hit ↦
          let row = find_transition_sound d id found in
          inl ((t.to, (t, row.0, row.1, refl, (applies_iff t current).0 hit)), ground arith)
      | inr miss ↦
          let skip : first_candidate d (id ∷ ids) current ≡ first_candidate d ids current =
            ground arith in
          inr (
            λ a. let hit = row-Applies id t found a in cc,
            subst (IsFirst Applies ids) (sym skip) (first_candidate-IsFirst ids),
          )
    ]
  ]

-- The transition is valid from the current state, to some target.
abbrev pub IsValidFrom : WorkflowEntityType → Option WorkflowState → WorkflowTransitionId → Type 0
IsValidFrom e current id = (to : WorkflowState) × (validate e id current ≡ some (valid to))

-- For any candidates and any current state, `resolveCandidate` returns: the first candidate that
-- `validate` accepts from that state, and null exactly where `validate` accepts none of them.
pub resolve_candidate-IsFirst :
    (e : WorkflowEntityType) (ids : List WorkflowTransitionId) (current : Option WorkflowState)
    → (r : Option WorkflowTransitionId) × (resolve_candidate e ids current ≡ some r)
      × IsFirst (IsValidFrom e current) ids r
unfolding resolve_candidate
resolve_candidate-IsFirst e ids current =
    let has = get_workflow_definition_total e in
    let d = has.definition in
    (
      first_candidate d ids current,
      ground (arith, has.registered),
      IsFirst-map (Applies d has.is_well_formed current) (IsValidFrom e current)
          (λ id. (
            λ (to, row). (to, (validate_iff e id current to).1 (d, has.registered, row)),
            λ (to, ok).
                let (d', found, row) = (validate_iff e id current to).0 ok in
                let same : d' ≡ d = ground (arith, has.registered) in
                (to, subst (λ d. HasRow d id current to) same row),
          ))
          ids (first_candidate d ids current)
          (first_candidate-IsFirst d has.is_well_formed current ids),
    )
