-- ===== src/Workflow/Validation.antt =====
-- WorkflowValidationService (src/core/workflow/workflow-validation.service.ts).
-- `null` states are `none`; an outer `none` stands for the error that getWorkflowDefinition throws.
pub mod Laws
pub mod Candidates
use cyber_hub_api.Prelude.{
  Option, none, some, List, [], ◌∷◌, Bool, true, false, not, includes, is_empty, if◌then◌else◌,
}
use cyber_hub_api.Workflow.Types.{
  WorkflowEntityType, WorkflowState, WorkflowTransitionId, WorkflowTransitionDefinition,
  WorkflowDefinition,
}
use cyber_hub_api.Workflow.Registry.{get_workflow_definition, find_transition}

-- The `reason` of a refusal: one constructor for each message, with what the message quotes.
pub data InvalidReason : Type 0 where
  unknown_transition : WorkflowTransitionId → WorkflowEntityType → InvalidReason
  create_only : WorkflowTransitionId → InvalidReason
  needs_existing : WorkflowTransitionId → InvalidReason
  unknown_state : WorkflowState → WorkflowEntityType → InvalidReason
  terminal_state : WorkflowEntityType → WorkflowState → InvalidReason
  not_from_here : WorkflowTransitionId → WorkflowState → List WorkflowState → InvalidReason

pub data TransitionValidationResult : Type 0 where
  valid : WorkflowState → TransitionValidationResult
  invalid : InvalidReason → TransitionValidationResult

-- `transition.from.length === 0`
abbrev pub is_create_transition : WorkflowTransitionDefinition → Bool
is_create_transition t = is_empty t.from

-- The body of `validate` below the lookup of the transition.
unfoldable pub validate_transition :
    WorkflowEntityType
    → WorkflowTransitionId
    → WorkflowDefinition
    → WorkflowTransitionDefinition
    → Option WorkflowState
    → TransitionValidationResult
validate_transition entity_type id definition transition none =
    if is_create_transition transition then valid transition.to else invalid (needs_existing id)
validate_transition entity_type id definition transition (some current) =
    if is_create_transition transition
    then invalid (create_only id)
    else if not (includes current definition.states)
    then invalid (unknown_state current entity_type)
    else if includes current definition.terminal_states
    then invalid (terminal_state entity_type current)
    else if not (includes current transition.from)
    then invalid (not_from_here id current transition.from)
    else valid transition.to

unfoldable pub validate_in :
    WorkflowEntityType
    → WorkflowTransitionId
    → WorkflowDefinition
    → Option WorkflowState
    → TransitionValidationResult
validate_in entity_type id definition current = elim (find_transition definition id) [
  | none ↦ invalid (unknown_transition id entity_type)
  | some transition ↦ validate_transition entity_type id definition transition current
]

unfoldable pub validate :
    WorkflowEntityType
    → WorkflowTransitionId
    → Option WorkflowState
    → Option TransitionValidationResult
validate entity_type id current = elim (get_workflow_definition entity_type) [
  | none ↦ none
  | some definition ↦ some (validate_in entity_type id definition current)
]

-- Whether one candidate of `resolveCandidate` applies: the two tests of the loop's body.
abbrev pub candidate_applies : WorkflowTransitionDefinition → Option WorkflowState → Bool
candidate_applies transition none = is_create_transition transition
candidate_applies transition (some current) =
    if is_create_transition transition then false else includes current transition.from

-- The loop of `resolveCandidate`.
unfoldable pub first_candidate :
    WorkflowDefinition
    → List WorkflowTransitionId
    → Option WorkflowState
    → Option WorkflowTransitionId
first_candidate definition [] current = none
first_candidate definition (id ∷ ids) current =
    let rest = first_candidate definition ids current in
    elim (find_transition definition id) [
      | none ↦ rest
      | some transition ↦ if candidate_applies transition current then some id else rest
    ]

unfoldable pub resolve_candidate :
    WorkflowEntityType
    → List WorkflowTransitionId
    → Option WorkflowState
    → Option (Option WorkflowTransitionId)
resolve_candidate entity_type ids current = elim (get_workflow_definition entity_type) [
  | none ↦ none
  | some definition ↦ some (first_candidate definition ids current)
]
