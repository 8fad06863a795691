-- ===== src/Workflow/Validation/Laws.antt =====
-- What WorkflowValidationService decides, against the rows of the registry.
use cyber_hub_api.Prelude.{
  ◌≡◌, subst, ◌↔◌, Option, none, some, [], Memᴰ, arith, Option-cases, inl, inr, mem_of_includes,
  includes_of_mem, str_eq, eq_iff, find_sound, eq-nil_of_is_empty, not_empty_of_mem,
  not_includes_of_not_mem,
}
use cyber_hub_api.Workflow.Types.{
  WorkflowEntityType, WorkflowState, WorkflowTransitionId, WorkflowTransitionDefinition,
  WorkflowDefinition,
}
use cyber_hub_api.Workflow.Registry.{get_workflow_definition, find_transition}
use cyber_hub_api.Workflow.Registry.Laws.{IsWellFormed, get_workflow_definition_total}
use cyber_hub_api.Workflow.Validation.{
  valid, TransitionValidationResult, validate_transition, validate_in, validate,
}

-- The row leaves the current state; a row with no source state creates the entity.
abbrev pub Leaves : WorkflowTransitionDefinition → Option WorkflowState → Type 0
Leaves t none = t.from ≡ []
Leaves t (some s) = Memᴰ s t.from

-- The definition has a row of that id, from the current state to the target.
abbrev pub HasRow :
    WorkflowDefinition → WorkflowTransitionId → Option WorkflowState → WorkflowState → Type 0
HasRow d id current to =
    (t : WorkflowTransitionDefinition) × Memᴰ t d.transitions
    × (t.id ≡ id)
    × (t.to ≡ to)
    × Leaves t current

pub find_transition_sound :
    (d : WorkflowDefinition) (id : WorkflowTransitionId) {t : WorkflowTransitionDefinition}
    → find_transition d id ≡ some t
    → Memᴰ t d.transitions × (t.id ≡ id)
find_transition_sound d id {t} e =
    let hit = find_sound (λ t. str_eq t.id id) d.transitions e in (hit.0, (eq_iff t.id id).0 hit.1)

validate_transition_sound :
    (e : WorkflowEntityType) (id : WorkflowTransitionId) (d : WorkflowDefinition)
    (t : WorkflowTransitionDefinition) (current : Option WorkflowState) {to : WorkflowState}
    → validate_transition e id d t current ≡ valid to
    → (t.to ≡ to) × Leaves t current
unfolding validate_transition
validate_transition_sound e id d t none h =
    (ground arith, ground (arith, eq-nil_of_is_empty t.from))
validate_transition_sound e id d t (some s) h =
    (ground arith, mem_of_includes s t.from (ground arith))

validate_transition_complete :
    (e : WorkflowEntityType) (id : WorkflowTransitionId) (d : WorkflowDefinition)
    (t : WorkflowTransitionDefinition) (current : Option WorkflowState)
    → IsWellFormed d
    → Memᴰ t d.transitions
    → Leaves t current
    → validate_transition e id d t current ≡ valid t.to
unfolding validate_transition
validate_transition_complete e id d t none w m l = rw l
validate_transition_complete e id d t (some s) w m l = ground (
  arith,
  not_empty_of_mem t.from l,
  includes_of_mem l,
  includes_of_mem (w.from_listed t s m l),
  not_includes_of_not_mem s d.terminal_states (w.from_open t s m l),
)

module _ (e : WorkflowEntityType) (id : WorkflowTransitionId) (d : WorkflowDefinition) where
  validate_in_sound :
      (current : Option WorkflowState) {to : WorkflowState}
      → validate_in e id d current ≡ valid to
      → HasRow d id current to
  unfolding validate_in
  validate_in_sound current h = elim (Option-cases (find_transition d id)) [
    | inl missing ↦ absurd (ground arith)
    | inr (t, found) ↦
        let row = find_transition_sound d id found in
        let checked = validate_transition_sound e id d t current (ground arith) in
        (t, row.0, row.1, checked.0, checked.1)
  ]

  validate_in_complete :
      (current : Option WorkflowState) {to : WorkflowState}
      → IsWellFormed d
      → HasRow d id current to
      → validate_in e id d current ≡ valid to
  unfolding validate_in
  validate_in_complete current w (t, m, same_id, same_to, l) =
      let found : find_transition d id ≡ some t =
        subst (λ i. find_transition d i ≡ some t) same_id (w.found_by_id t m) in
      ground (arith, found, validate_transition_complete e id d t current w m l)

-- A named transition is valid from the current state, with the given target, exactly when the
-- registry has a row of that id from that state to that target (a row with no source state, where
-- there is no current state): the tests for unknown and terminal states refuse no row.
pub validate_iff :
    (e : WorkflowEntityType) (id : WorkflowTransitionId) (current : Option WorkflowState)
    (to : WorkflowState)
    → (validate e id current ≡ some (valid to))
      ↔ ((d : WorkflowDefinition) × (get_workflow_definition e ≡ some d) × HasRow d id current to)
unfolding validate
validate_iff e id current to =
    let has = get_workflow_definition_total e in
    (
      λ h. (
        has.definition,
        has.registered,
        validate_in_sound e id has.definition current (ground (arith, has.registered)),
      ),
      λ (d, found, row).
          let same : has.definition ≡ d = ground (arith, has.registered) in
          let w = subst IsWellFormed same has.is_well_formed in
          ground (arith, validate_in_complete e id d current w row),
    )

-- `validate` returns for every input: no lookup throws.
pub validate_total :
    (e : WorkflowEntityType) (id : WorkflowTransitionId) (current : Option WorkflowState)
    → (r : TransitionValidationResult) × (validate e id current ≡ some r)
unfolding validate
validate_total e id current =
    let has = get_workflow_definition_total e in
    (validate_in e id has.definition current, ground (arith, has.registered))
