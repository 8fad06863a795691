-- ===== src/Workflow/Cas.antt =====
-- The atomic compare-and-set transition (src/core/workflow/transition.repository.ts) and the
-- services that call it (finding-workflow.service.ts, security-assessment-workflow.service.ts,
-- consulting-request-workflow.service.ts). A statement that the database refuses raises there,
-- and is not modelled. Times are milliseconds.
pub mod Laws
pub mod Plans
pub mod Schedule
pub mod Invariant
pub mod Services
use cyber_hub_api.Prelude.{
  ℕ, suc, String, Bool, true, false, not, ◌&&◌, Option, none, some, List, [], ◌∷◌, ◌++◌, map,
  includes, ◌==◌, if◌then◌else◌, length, ltb, is_empty, unique, flat_map,
}
use cyber_hub_api.Workflow.Table.{Row, WorkflowTable}
use cyber_hub_api.Workflow.Types.{
  WorkflowEntityType, WorkflowTransitionId, WorkflowTransitionDefinition, WorkflowDefinition,
  finding, security_assessment, consulting_request,
}
use cyber_hub_api.Workflow.Registry.{get_workflow_definition, find_transition}

pub data CasTransitionOutcome : Type 0 where
  -- new version and state
  updated : ℕ → String → CasTransitionOutcome
  not_found : CasTransitionOutcome
  -- CONFLICT with staleVersionSuspected: invalidStateSuspected, currentStateVersion
  stale_conflict : Bool → ℕ → CasTransitionOutcome
  -- CONFLICT without: invalidStateSuspected, currentStateVersion where it was read
  conflict : Bool → Option ℕ → CasTransitionOutcome

pub record CasTransitionInput : Type 0 where
  pub resource_id : String
  pub allowed_from_states : List String
  pub to_state : String
  pub expected_state_version : ℕ

-- The WHERE clause beside the key, and the SET clause.
abbrev pub cas_matches : CasTransitionInput → Row → Bool
cas_matches input r =
    includes r.status input.allowed_from_states && r.state_version == input.expected_state_version

abbrev pub cas_set : CasTransitionInput → ℕ → Row → Row
cas_set input now r = record {
  status = input.to_state;
  state_version = suc r.state_version;
  updated_at = now;
}

-- The diagnostic read after an UPDATE that wrote no row.
unfoldable pub diagnose : CasTransitionInput → List Row → CasTransitionOutcome
diagnose input [] = not_found
diagnose input (current ∷ _) =
    let invalid_state_suspected = not (includes current.status input.allowed_from_states) in
    if not (current.state_version == input.expected_state_version)
    then stale_conflict invalid_state_suspected current.state_version
    else conflict invalid_state_suspected (some current.state_version)

-- What a service makes of its candidates before it touches the database.
pub data TransitionPlan : Type 0 where
  refused : CasTransitionOutcome → TransitionPlan
  run : CasTransitionInput → TransitionPlan

-- `.map((id) => definition.transitions.find(…)).filter((t) => t !== undefined && t.from.length > 0)`
unfoldable pub existing_transitions :
    WorkflowDefinition → List WorkflowTransitionId → List WorkflowTransitionDefinition
existing_transitions definition [] = []
existing_transitions definition (id ∷ ids) =
    let rest = existing_transitions definition ids in
    elim (find_transition definition id) [
      | none ↦ rest
      | some t ↦ if is_empty t.from then rest else t ∷ rest
    ]

-- FindingWorkflowService.transition and SecurityAssessmentWorkflowService.transition, up to the
-- call of `executeCasTransition`.
unfoldable pub plan_candidates :
    WorkflowDefinition → String → List WorkflowTransitionId → ℕ → TransitionPlan
plan_candidates definition resource_id ids expected = elim (existing_transitions definition ids) [
  | [] ↦ refused (conflict true none)
  | t ∷ ts ↦
      if ltb 1 (length (unique (map (λ t. t.to) (t ∷ ts))))
      then refused (conflict true none)
      else run (record {
        resource_id = resource_id;
        allowed_from_states = unique (flat_map (λ t. t.from) (t ∷ ts));
        to_state = t.to;
        expected_state_version = expected;
      })
]

-- ConsultingRequestWorkflowService.transition, likewise.
unfoldable pub plan_single : WorkflowDefinition → String → WorkflowTransitionId → ℕ → TransitionPlan
plan_single definition resource_id id expected = elim (find_transition definition id) [
  | none ↦ refused (conflict true none)
  | some t ↦
      if is_empty t.from
      then refused (conflict true none)
      else run (record {
        resource_id = resource_id;
        allowed_from_states = t.from;
        to_state = t.to;
        expected_state_version = expected;
      })
]

module _ (db : WorkflowTable) where
  open db use {Table, update_by_id, select_by_id}

  unfoldable pub cas_update : CasTransitionInput → ℕ → Table → Table × List Row
  cas_update input now t = update_by_id input.resource_id (cas_matches input) (cas_set input now) t

  -- `meanwhile` is what other clients do between the UPDATE and the diagnostic read.
  unfoldable pub execute_cas_transition :
      CasTransitionInput → ℕ → (Table → Table) → Table → Table × CasTransitionOutcome
  execute_cas_transition input now meanwhile t =
      let (t', rows) = cas_update input now t in
      elim rows [
        | row ∷ _ ↦ (t', updated row.state_version row.status)
        | [] ↦
            let later = meanwhile t' in
            (later, diagnose input (select_by_id input.resource_id later))
      ]

  unfoldable pub run_plan :
      TransitionPlan → ℕ → (Table → Table) → Table → Table × CasTransitionOutcome
  run_plan (refused outcome) now meanwhile t = (t, outcome)
  run_plan (run input) now meanwhile t = execute_cas_transition input now meanwhile t

  -- `none` stands for the error of a missing definition.
  unfoldable pub candidates_transition :
      WorkflowEntityType
      → String
      → List WorkflowTransitionId
      → ℕ
      → ℕ
      → (Table → Table)
      → Table
      → Option (Table × CasTransitionOutcome)
  candidates_transition e resource_id ids expected now meanwhile t =
      elim (get_workflow_definition e) [
        | none ↦ none
        | some definition ↦
            some (run_plan (plan_candidates definition resource_id ids expected) now meanwhile t)
      ]

  unfoldable pub finding_transition :
      String
      → List WorkflowTransitionId
      → ℕ
      → ℕ
      → (Table → Table)
      → Table
      → Option (Table × CasTransitionOutcome)
  finding_transition = candidates_transition finding

  unfoldable pub assessment_transition :
      String
      → List WorkflowTransitionId
      → ℕ
      → ℕ
      → (Table → Table)
      → Table
      → Option (Table × CasTransitionOutcome)
  assessment_transition = candidates_transition security_assessment

  unfoldable pub consulting_request_transition :
      String
      → WorkflowTransitionId
      → ℕ
      → ℕ
      → (Table → Table)
      → Table
      → Option (Table × CasTransitionOutcome)
  consulting_request_transition resource_id id expected now meanwhile t =
      elim (get_workflow_definition consulting_request) [
        | none ↦ none
        | some definition ↦
            some (run_plan (plan_single definition resource_id id expected) now meanwhile t)
      ]
