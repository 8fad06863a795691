-- ===== src/Engagements/Findings.antt =====
-- The findings of an assessment
-- (src/modules/security-work/services/security-work.service.ts). `findingView` shows every column,
-- so an answer is the row.
pub mod Laws
use cyber_hub_api.Workflow.Types.{finding}
use cyber_hub_api.Engagements.Access.{
  or_conflict, check_version, require_scope, find_finding, require_assessment_access,
  registered_transition, lock_assessment, FindingContext,
}
use cyber_hub_api.Workflow.Operations.{
  edit_guard, delete_guard, get_workflow_operation_mapping, transition, WorkflowOperationMapping,
}
use cyber_hub_api.Engagements.Schema.{
  meta_null, meta_texts, update_where, returning, meta_text, AuditLog, meta_number, MetaValue,
  SecurityAssessment, VulnerabilityFinding,
}
use cyber_hub_api.Engagements.Action.{
  record_audit, raise_if, pure, not_found, modify, internal_error, workflow_conflict, require,
  or_raise, gets, AppException, Action, AuthPrincipal, Call, ◌>>=◌, ◌>>◌,
}
use cyber_hub_api.Prelude.{
  not, includes, ◌==◌, ◌&&◌, none, ◌∷◌, ◌||◌, false, [], some, true, str_eq, suc, if◌then◌else◌,
  ◌++◌, List, Bool, String, Option, ℕ,
}

pub data FindingMutation : Type 0 where
  create_mutation edit_mutation command_mutation : FindingMutation

abbrev is_command : FindingMutation → Bool
is_command command_mutation = true
is_command create_mutation = false
is_command edit_mutation = false

-- `requireFindingMutation`
unfoldable pub require_finding_mutation : String → FindingMutation → Option AppException
require_finding_mutation parent operation =
    if str_eq parent "IN_PROGRESS" || str_eq parent "COMPLETED" && is_command operation
    then none
    else some workflow_conflict

pub record FindingCreateInput : Type 0 where
  pub title : String
  pub severity : String
  pub description : Option String
  pub evidence_summary : Option String
  pub recommendation : String

abbrev pub finding_audit :
    AuthPrincipal → Call → String → VulnerabilityFinding → List (String × MetaValue) → AuditLog
finding_audit principal call api_id row metadata = record {
  actor_user_id = principal.user_id;
  actor_role = principal.role;
  action = "security.finding.mutated";
  entity_type = "finding";
  entity_id = row.id;
  employer_id = row.employer_id;
  request_id = call.request_id;
  metadata = ("apiId", meta_text api_id) ∷ ("assessmentId", meta_text row.assessment_id) ∷ metadata;
}

abbrev new_finding :
    Call → String → String → String → FindingCreateInput → String → VulnerabilityFinding
new_finding call assessment_id employer_id user_id input status = record {
  id = call.new_id;
  assessment_id = assessment_id;
  employer_id = employer_id;
  title = input.title;
  severity = input.severity;
  description = input.description;
  evidence_summary = input.evidence_summary;
  recommendation = input.recommendation;
  status = status;
  state_version = 1;
  resolved_at = none;
  created_by_user_id = user_id;
  created_at = call.now;
  updated_at = call.now;
}

-- `createFinding`
unfoldable pub create_finding :
    String → AuthPrincipal → FindingCreateInput → Call → Action VulnerabilityFinding
create_finding assessment_id principal input call = do
  row ← lock_assessment assessment_id
  require (require_assessment_access row principal)
  require_scope call.now assessment_id
  require (require_finding_mutation row.assessment.status create_mutation)
  step ← registered_transition finding "WF-FND-01"
  let created =
      new_finding call assessment_id row.assessment.employer_id principal.user_id input step.to
  modify λ db. record db { findings = db.findings ++ created ∷ [] }
  record_audit (
      finding_audit principal call "API-FND-001" created (
        ("transitionId", meta_text step.id)
        ∷ ("from", meta_null)
        ∷ ("to", meta_text created.status)
        ∷ ("stateVersion", meta_number created.state_version)
        ∷ []))
  pure created

-- `getFinding`
unfoldable pub get_finding : String → AuthPrincipal → Action VulnerabilityFinding
get_finding id principal = do
  row ← or_raise (← gets (find_finding id)) not_found
  raise_if (not (str_eq row.finding.employer_id row.at.assessment.employer_id)) not_found
  require (require_assessment_access row.at principal)
  pure row.finding

abbrev pub finding_matches : String → ℕ → List String → VulnerabilityFinding → Bool
finding_matches id version from row =
    str_eq row.id id && row.state_version == version && includes row.status from

abbrev pub set_finding :
    ℕ → (VulnerabilityFinding → VulnerabilityFinding) → VulnerabilityFinding → VulnerabilityFinding
set_finding now fields row = record (fields row) {
  state_version = suc row.state_version;
  updated_at = now;
}

-- SecurityWorkRepository.updateFinding
unfoldable pub update_finding :
    String
    → ℕ
    → List String
    → ℕ
    → (VulnerabilityFinding → VulnerabilityFinding)
    → Action (Option VulnerabilityFinding)
update_finding id version from now fields = do
  let test = finding_matches id version from
  let change = set_finding now fields
  written ← gets λ db. returning test change db.findings
  modify λ db. record db { findings = update_where test change db.findings }
  pure written

-- What `apply` answers: the row, when one was written, and the metadata of its event.
abbrev pub Applied : Type 0
Applied = Option VulnerabilityFinding × List (String × MetaValue)

-- `mutateFinding`
unfoldable pub mutate_finding :
    String
    → AuthPrincipal
    → ℕ
    → String
    → (FindingContext → Action Applied)
    → Call
    → Action VulnerabilityFinding
mutate_finding id principal version api_id apply call = do
  initial ← or_raise (← gets (find_finding id)) not_found
  locked ← lock_assessment initial.at.assessment.id
  row ← or_raise (← gets (find_finding id)) not_found
  raise_if (not (str_eq row.finding.employer_id row.at.assessment.employer_id)) not_found
  require (require_assessment_access row.at principal)
  if str_eq api_id "API-FND-005" then pure tt else require_scope call.now row.at.assessment.id
  check_version row.finding.state_version version
  result ← apply row
  updated ← or_conflict result.0 row.finding.state_version version
  record_audit (finding_audit principal call api_id updated result.1)
  pure updated

-- The fields of the input that are present; none of them is `null`.
pub record FindingUpdateInput : Type 0 where
  pub expected_state_version : ℕ
  pub title : Option String
  pub severity : Option String
  pub description : Option String
  pub evidence_summary : Option String
  pub recommendation : Option String

abbrev pub or_else : {A : Type 0} → Option A → A → A
or_else none old = old
or_else (some a) old = a

abbrev or_kept : Option String → Option String → Option String
or_kept none old = old
or_kept (some text) old = some text

abbrev pub edited_fields : FindingUpdateInput → VulnerabilityFinding → VulnerabilityFinding
edited_fields input row = record row {
  title = or_else input.title row.title;
  severity = or_else input.severity row.severity;
  description = or_kept input.description row.description;
  evidence_summary = or_kept input.evidence_summary row.evidence_summary;
  recommendation = or_else input.recommendation row.recommendation;
}

abbrev pub named_if_given : String → Option String → List String
named_if_given name none = []
named_if_given name (some text) = name ∷ []

-- `Object.keys(fields).sort()`
abbrev changed_fields : FindingUpdateInput → List String
changed_fields input =
    named_if_given "description" input.description
    ++ named_if_given "evidenceSummary" input.evidence_summary
    ++ named_if_given "recommendation" input.recommendation
    ++ named_if_given "severity" input.severity
    ++ named_if_given "title" input.title

-- `operation?.kind !== "EDIT_GUARD"` throws, else its states.
abbrev pub guarded_states : Option WorkflowOperationMapping → Option (List String)
guarded_states none = none
guarded_states (some (transition entity ids)) = none
guarded_states (some (delete_guard entity states)) = none
guarded_states (some (edit_guard entity states)) = some states

-- `stateVersion: updated?.stateVersion`
abbrev version_of : Option VulnerabilityFinding → List (String × MetaValue)
version_of none = []
version_of (some row) = ("stateVersion", meta_number row.state_version) ∷ []

-- The `apply` of `editFinding`
unfoldable pub apply_edit : String → FindingUpdateInput → Call → FindingContext → Action Applied
apply_edit id input call row = do
  require (require_finding_mutation row.at.assessment.status edit_mutation)
  allowed ← or_raise (guarded_states (get_workflow_operation_mapping "API-FND-004")) internal_error
  updated ← update_finding id input.expected_state_version allowed call.now (edited_fields input)
  pure (updated, ("changedFields", meta_texts (changed_fields input)) ∷ version_of updated)

unfoldable pub edit_finding :
    String → AuthPrincipal → FindingUpdateInput → Call → Action VulnerabilityFinding
edit_finding id principal input call =
    mutate_finding id principal input.expected_state_version "API-FND-004"
      (apply_edit id input call) call

pub data FindingCommand : Type 0 where
  start_remediation resolve reopen : FindingCommand

abbrev pub finding_operation : FindingCommand → String
finding_operation start_remediation = "API-FND-005"
finding_operation resolve = "API-FND-006"
finding_operation reopen = "API-FND-007"

unfoldable pub finding_command_transition : FindingCommand → String → String
finding_command_transition start_remediation status = "WF-FND-02"
finding_command_transition reopen status = "WF-FND-05"
finding_command_transition resolve status =
    if str_eq status "OPEN" then "WF-FND-03" else "WF-FND-04"

abbrev pub finding_fields :
    FindingCommand → String → ℕ → VulnerabilityFinding → VulnerabilityFinding
finding_fields start_remediation to now row = record row { status = to }
finding_fields resolve to now row = record row { status = to; resolved_at = some now }
finding_fields reopen to now row = record row { status = to; resolved_at = none }

abbrev note_of : FindingCommand → Option String → List (String × MetaValue)
note_of start_remediation _ = []
note_of resolve none = []
note_of resolve (some text) = ("verificationNote", meta_text text) ∷ []
note_of reopen none = []
note_of reopen (some text) = ("reason", meta_text text) ∷ []

-- The `apply` of `findingCommand`
unfoldable pub apply_command :
    String → ℕ → FindingCommand → Option String → Call → FindingContext → Action Applied
apply_command id version command note call row = do
  require (require_finding_mutation row.at.assessment.status command_mutation)
  step ← registered_transition finding (finding_command_transition command row.finding.status)
  updated ← update_finding id version step.from call.now (finding_fields command step.to call.now)
  pure (
    updated,
    ("transitionId", meta_text step.id)
          ∷ ("from", meta_text row.finding.status)
          ∷ ("to", meta_text step.to)
          ∷ version_of updated
        ++ note_of command note,
  )

unfoldable pub finding_command :
    String → ℕ → AuthPrincipal → FindingCommand → Option String → Call → Action VulnerabilityFinding
finding_command id version principal command note call =
    mutate_finding id principal version (finding_operation command)
      (apply_command id version command note call) call
