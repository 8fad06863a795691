-- ===== src/Workflow/Helper.antt =====
-- What the services share of a transition (src/core/workflow/workflow-helper.ts): its row in the
-- registry, and the exception of a failed write.
use cyber_hub_api.Prelude.{
  ◌≡◌, ℕ, not, Option, none, some, List, ◌∷◌, arith, Bool-cases, inl, inr, ◌==◌, if◌then◌else◌,
}
use cyber_hub_api.Workflow.Types.{
  WorkflowEntityType, WorkflowTransitionId, WorkflowTransitionDefinition,
}
use cyber_hub_api.Workflow.Registry.{get_workflow_definition, find_transition}
use cyber_hub_api.Workflow.Table.{Row}
use cyber_hub_api.Workflow.Cas.{
  CasTransitionInput, CasTransitionOutcome, updated, not_found, stale_conflict, conflict, diagnose,
}

pub data WorkflowException : Type 0 where
  state_version_conflict : ℕ → WorkflowException
  workflow_conflict : WorkflowException

unfoldable pub workflow_conflict_for_version : ℕ → ℕ → WorkflowException
workflow_conflict_for_version current_state_version expected_state_version =
    if not (current_state_version == expected_state_version)
    then state_version_conflict current_state_version
    else workflow_conflict

-- Only a conflict has an exception.
unfoldable pub workflow_conflict_for_cas : CasTransitionOutcome → Option WorkflowException
workflow_conflict_for_cas (stale_conflict invalid current) = some (state_version_conflict current)
workflow_conflict_for_cas (conflict invalid current) = some workflow_conflict
workflow_conflict_for_cas (updated version state) = none
workflow_conflict_for_cas not_found = none

-- `none` stands for the thrown error.
unfoldable pub require_transition :
    WorkflowEntityType → WorkflowTransitionId → Option WorkflowTransitionDefinition
require_transition entity_type transition_id = elim (get_workflow_definition entity_type) [
  | none ↦ none
  | some definition ↦ find_transition definition transition_id
]

-- The two ways to an exception agree: that of the diagnosed conflict of a write is that of the
-- version which the diagnostic read found and the one expected.
pub conflict_for_cas_of_diagnose :
    (input : CasTransitionInput) (current : Row) (rest : List Row)
    → workflow_conflict_for_cas (diagnose input (current ∷ rest))
      ≡ some (workflow_conflict_for_version current.state_version input.expected_state_version)
unfolding workflow_conflict_for_cas workflow_conflict_for_version diagnose
conflict_for_cas_of_diagnose input current rest =
    elim (Bool-cases (current.state_version == input.expected_state_version)) [
      | inl same ↦ ground arith
      | inr other ↦ ground arith
    ]
