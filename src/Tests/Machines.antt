-- ===== src/Tests/Machines.antt =====
-- The workflow theorems on a finding and a consulting request in a table in memory.
use cyber_hub_api.Prelude.{
  ◌≡◌, refl, ◌≢◌, ◌⊎◌, inl, inr, ap, sym, subst, ◌∙◌, Bool-cases, ◌≤◌, ℕ, String, false, Option,
  none, some, List, [], ◌∷◌, Memᴰ, arith, str_eq, if◌then◌else◌,
}
use cyber_hub_api.Workflow.Types.{
  WorkflowTransitionDefinition, WorkflowDefinition, finding, consulting_request, report,
  internship_application,
}
use cyber_hub_api.Workflow.Registry.{
  get_workflow_definition, find_transition, finding_workflow, report_workflow,
}
use cyber_hub_api.Workflow.Registry.Laws.{HasDefinition, get_workflow_definition_total}
use cyber_hub_api.Workflow.Table.{Row, memory_table}
use cyber_hub_api.Workflow.Validation.{
  validate, resolve_candidate, validate_in, validate_transition,
}
use cyber_hub_api.Workflow.Validation.Laws.{HasRow, validate_iff}
use cyber_hub_api.Workflow.Validation.Candidates.{IsFirst, IsValidFrom, resolve_candidate-IsFirst}
use cyber_hub_api.Workflow.Cas.{
  CasTransitionInput, updated, stale_conflict, diagnose, execute_cas_transition,
  candidates_transition, consulting_request_transition, cas_update, existing_transitions,
  plan_candidates, plan_single, run_plan,
}
use cyber_hub_api.Workflow.Cas.Plans.{Agree}
use cyber_hub_api.Workflow.Cas.Laws.{Succeeds, Fails, execute_cas_transition_lem}
use cyber_hub_api.Workflow.Cas.Services.{
  Transitioned, candidates_transition-Transitioned, consulting_request_transition-Transitioned,
  candidates_transition_succeeds,
}
use cyber_hub_api.Workflow.Cas.Schedule.{cas, wins, wins-le-one}
use cyber_hub_api.Workflow.Cas.Invariant.{
  IsLawful, candidates_transition-IsLawful, candidates_transition_terminal,
}
use cyber_hub_api.Workflow.Helper.{
  workflow_conflict_for_cas, workflow_conflict_for_version, conflict_for_cas_of_diagnose,
}
use cyber_hub_api.Workflow.Operations.{transition, get_workflow_operation_mapping}
use cyber_hub_api.Workflow.Operations.Laws.{IsSound, get_workflow_operation_mapping-IsSound}

abbrev Rows : Type 0
Rows = String → Option Row

abbrev at_version : String → ℕ → Row
at_version status version = record { status = status; state_version = version; updated_at = 0 }

-- One row under the key "f1".
abbrev holding : String → ℕ → Rows
holding status version key = if str_eq "f1" key then some (at_version status version) else none

abbrev open_finding : Rows
open_finding = holding "OPEN" 3

abbrev resolving : List String
resolving = "WF-FND-03" ∷ "WF-FND-04" ∷ []

abbrev resolve_input : CasTransitionInput
resolve_input = record {
  resource_id = "f1";
  allowed_from_states = "OPEN" ∷ "REMEDIATION_IN_PROGRESS" ∷ [];
  to_state = "RESOLVED";
  expected_state_version = 3;
}

abbrev after_resolving : Rows
after_resolving = (cas_update memory_table resolve_input 9 open_finding).0

resolving_runs :
    candidates_transition memory_table finding "f1" resolving 3 9 (λ t. t) open_finding
    ≡ some (after_resolving, updated 4 "RESOLVED")
unfolding candidates_transition get_workflow_definition plan_candidates existing_transitions
    run_plan execute_cas_transition cas_update
resolving_runs = refl

candidates_transition-Transitioned_example :
    Transitioned memory_table finding "f1" resolving 3 9 open_finding after_resolving 4 "RESOLVED"
candidates_transition-Transitioned_example =
    candidates_transition-Transitioned memory_table finding "f1" resolving 3 9 (λ t. t) open_finding
      after_resolving 4 "RESOLVED" resolving_runs

execute_cas_transition_lem_example :
    let (u, o) = execute_cas_transition memory_table resolve_input 9 (λ t. t) open_finding in
    ((r : Row) × Succeeds memory_table resolve_input 9 (λ t. t) open_finding r u o)
    ⊎ Fails memory_table resolve_input 9 (λ t. t) open_finding u o
execute_cas_transition_lem_example =
    execute_cas_transition_lem memory_table resolve_input 9 (λ t. t) open_finding

mem_one : {i id : String} → Memᴰ i (id ∷ []) → i ≡ id
mem_one (Memᴰ.head e) = e
mem_one (Memᴰ.tail m) = elim m [ ]

one_agrees : (d : WorkflowDefinition) (id : String) → Agree d (id ∷ [])
one_agrees d id i j t u m n e f =
    let same : i ≡ j = mem_one m ∙ sym (mem_one n) in
    let here : find_transition d j ≡ some t = subst (λ i. find_transition d i ≡ some t) same e in
    let one : t ≡ u = ground arith in ap (λ (t : WorkflowTransitionDefinition). t.to) one

candidates_transition_succeeds_example :
    (u : Rows) × (candidates_transition memory_table finding "f1"
        ("WF-FND-03" ∷ [])
        3
        9
        (λ t. t)
        open_finding
      ≡ some (u, updated 4 "RESOLVED"))
unfolding get_workflow_definition validate validate_in validate_transition
candidates_transition_succeeds_example =
    candidates_transition_succeeds memory_table finding finding_workflow "f1" ("WF-FND-03" ∷ []) 3 9
      (λ t. t) open_finding (at_version "OPEN" 3) "WF-FND-03" "RESOLVED" refl
      (one_agrees finding_workflow "WF-FND-03") refl refl (Memᴰ.head refl) refl

-- Two clients send the same transition for one version.
wins-le-one_example :
    wins memory_table "f1" 3 (cas resolve_input 9 ∷ cas resolve_input 10 ∷ []) open_finding ≤ 1
wins-le-one_example =
    wins-le-one memory_table "f1" 3 (cas resolve_input 9 ∷ cas resolve_input 10 ∷ []) open_finding

holding-IsLawful : IsLawful memory_table finding_workflow open_finding
holding-IsLawful key r e = elim (Bool-cases (str_eq "f1" key)) [
  | inl here ↦ let same : r.status ≡ "OPEN" = ground arith in Memᴰ.head same
  | inr there ↦ absurd (ground arith)
]

candidates_transition-IsLawful_example : IsLawful memory_table finding_workflow after_resolving
unfolding get_workflow_definition
candidates_transition-IsLawful_example =
    candidates_transition-IsLawful memory_table finding finding_workflow "f1" resolving 3 9 (λ t. t)
      open_finding after_resolving (updated 4 "RESOLVED") refl (λ t l. l) holding-IsLawful
      resolving_runs

abbrev old_report : Rows
old_report = holding "SUPERSEDED" 5

candidates_transition_terminal_example :
    candidates_transition memory_table report "f1" ("WF-RPT-02" ∷ []) 5 9 (λ t. t) old_report
    ≢ some (old_report, updated 6 "IN_REVIEW")
unfolding get_workflow_definition
candidates_transition_terminal_example =
    candidates_transition_terminal memory_table report report_workflow "f1" ("WF-RPT-02" ∷ []) 5 9
      (λ t. t) old_report old_report (at_version "SUPERSEDED" 5) 6 "IN_REVIEW" refl refl
      (Memᴰ.head refl)

abbrev submitted_request : Rows
submitted_request = holding "SUBMITTED" 1

abbrev review_input : CasTransitionInput
review_input = record {
  resource_id = "f1";
  allowed_from_states = "SUBMITTED" ∷ [];
  to_state = "UNDER_REVIEW";
  expected_state_version = 1;
}

abbrev reviewed_request : Rows
reviewed_request = (cas_update memory_table review_input 9 submitted_request).0

review_runs :
    consulting_request_transition memory_table "f1" "WF-REQ-02" 1 9 (λ t. t) submitted_request
    ≡ some (reviewed_request, updated 2 "UNDER_REVIEW")
unfolding consulting_request_transition get_workflow_definition plan_single run_plan
    execute_cas_transition cas_update
review_runs = refl

consulting_request_transition-Transitioned_example :
    Transitioned memory_table consulting_request "f1"
      ("WF-REQ-02" ∷ [])
      1
      9
      submitted_request
      reviewed_request
      2
      "UNDER_REVIEW"
consulting_request_transition-Transitioned_example =
    consulting_request_transition-Transitioned memory_table "f1" "WF-REQ-02" 1 9 (λ t. t)
      submitted_request reviewed_request 2 "UNDER_REVIEW" review_runs

get_workflow_definition_total_example : HasDefinition internship_application
get_workflow_definition_total_example = get_workflow_definition_total internship_application

validate_iff_example :
    (d : WorkflowDefinition) × (get_workflow_definition finding ≡ some d)
    × HasRow d "WF-FND-04" (some "REMEDIATION_IN_PROGRESS") "RESOLVED"
unfolding validate get_workflow_definition validate_in validate_transition
validate_iff_example =
    (validate_iff finding "WF-FND-04" (some "REMEDIATION_IN_PROGRESS") "RESOLVED").0 refl

resolve_candidate-IsFirst_example :
    (r : Option String) × (resolve_candidate finding resolving (some "OPEN") ≡ some r)
    × IsFirst (IsValidFrom finding (some "OPEN")) resolving r
resolve_candidate-IsFirst_example = resolve_candidate-IsFirst finding resolving (some "OPEN")

conflict_for_cas_of_diagnose_example :
    workflow_conflict_for_cas (diagnose resolve_input (at_version "OPEN" 4 ∷ []))
    ≡ some (workflow_conflict_for_version 4 3)
conflict_for_cas_of_diagnose_example =
    conflict_for_cas_of_diagnose resolve_input (at_version "OPEN" 4) []

-- A stale version is diagnosed, with the version that stands.
stale_version_runs :
    (execute_cas_transition memory_table resolve_input 9 (λ t. t) (holding "OPEN" 4)).1
    ≡ stale_conflict false 4
unfolding execute_cas_transition cas_update diagnose
stale_version_runs = refl

submit_mapping :
    get_workflow_operation_mapping "API-APP-006"
    ≡ some (transition internship_application ("WF-APP-02" ∷ []))
unfolding get_workflow_operation_mapping
submit_mapping = refl

get_workflow_operation_mapping-IsSound_example :
    IsSound (transition internship_application ("WF-APP-02" ∷ []))
get_workflow_operation_mapping-IsSound_example =
    get_workflow_operation_mapping-IsSound "API-APP-006"
      (transition internship_application ("WF-APP-02" ∷ [])) submit_mapping
