-- ===== src/Engagements/Assessments.antt =====
-- The commands on a security assessment
-- (src/modules/security-work/services/security-work.service.ts). `assessmentView` shows every
-- column, so an answer is the row.
pub mod Laws
use cyber_hub_api.Engagements.Access.{
  when_given, or_conflict, registered_transition, check_version, require_creation_scope,
  require_scope, current_scope, require_assessment_access, require_request_access, lock_assessment,
  request_by_key, is_admin,
}
use cyber_hub_api.Workflow.Types.{security_assessment, WorkflowTransitionDefinition}
use cyber_hub_api.Engagements.Schema.{
  meta_number, meta_null, update_where, returning, meta_text, ScopeAuthorization, AuditLog,
  ConsultingRequest, MetaValue, SecurityAssessment,
}
use cyber_hub_api.Engagements.Action.{
  record_audit, workflow_conflict, pure, require, permission_denied, modify, not_found, raise_if,
  gets, or_raise, ◌>>=◌, ◌>>◌, Action, AuthPrincipal, Call,
}
use cyber_hub_api.Prelude.{
  false, All, true, ℕ, suc, String, Bool, not, ◌&&◌, ◌||◌, Option, none, some, List, [], ◌∷◌, ◌++◌,
  ◌==◌, str_eq, includes, if◌then◌else◌,
}

-- A text that is present and not empty, as the code's test of a value sees it.
abbrev non_empty : Option String → Option String
non_empty none = none
non_empty (some text) = if str_eq text "" then none else some text

abbrev pub assessment_audit :
    AuthPrincipal → Call → String → SecurityAssessment → List (String × MetaValue) → AuditLog
assessment_audit principal call api_id row metadata = record {
  actor_user_id = principal.user_id;
  actor_role = principal.role;
  action = "security.assessment.mutated";
  entity_type = "assessment";
  entity_id = row.id;
  employer_id = row.employer_id;
  request_id = call.request_id;
  metadata =
      ("apiId", meta_text api_id)
      ∷ ("consultingRequestId", meta_text row.consulting_request_id)
      ∷ metadata;
}

abbrev new_assessment :
    Call
    → ConsultingRequest
    → ScopeAuthorization
    → String
    → WorkflowTransitionDefinition
    → SecurityAssessment
new_assessment call request scope consultant transition = record {
  id = call.new_id;
  employer_id = request.employer_id;
  consulting_request_id = request.id;
  scope_authorization_id = scope.id;
  service = request.requested_service;
  scope_snapshot = record {
    authorized_targets = scope.authorized_targets;
    allowed_activities = scope.allowed_activities;
    restrictions = scope.restrictions;
  };
  assigned_consultant_id = consultant;
  status = transition.to;
  state_version = 1;
  started_at = none;
  completed_at = none;
  cancelled_at = none;
  created_at = call.now;
  updated_at = call.now;
}

-- `createAssessment`
unfoldable pub create_assessment : String → AuthPrincipal → Call → Action SecurityAssessment
create_assessment request_id principal call = do
  request ← or_raise (← gets λ db. request_by_key db request_id) not_found
  require (require_request_access request principal)
  scope ← or_raise (← gets λ db. current_scope db request_id) not_found
  require_creation_scope call.now request_id
  raise_if (not (str_eq request.status "ACCEPTED")) workflow_conflict
  consultant ← or_raise (non_empty request.assigned_consultant_id) workflow_conflict
  transition ← registered_transition security_assessment "WF-ASM-01"
  let created = new_assessment call request scope consultant transition
  modify λ db. record db { assessments = db.assessments ++ created ∷ [] }
  record_audit (
      assessment_audit principal call "API-ASM-001" created (
        ("transitionId", meta_text transition.id)
        ∷ ("from", meta_null)
        ∷ ("to", meta_text created.status)
        ∷ ("stateVersion", meta_number created.state_version)
        ∷ []))
  pure created

-- The row that an UPDATE … WHERE id, version and states … RETURNING writes, if any.
abbrev pub assessment_matches : String → ℕ → List String → SecurityAssessment → Bool
assessment_matches id version from row =
    str_eq row.id id && row.state_version == version && includes row.status from

-- SET …fields, stateVersion + 1, updatedAt
abbrev pub set_assessment :
    ℕ → (SecurityAssessment → SecurityAssessment) → SecurityAssessment → SecurityAssessment
set_assessment now fields row = record (fields row) {
  state_version = suc row.state_version;
  updated_at = now;
}

-- SecurityWorkRepository.updateAssessment
unfoldable pub update_assessment :
    String
    → ℕ
    → List String
    → ℕ
    → (SecurityAssessment → SecurityAssessment)
    → Action (Option SecurityAssessment)
update_assessment id version from now fields = do
  let test = assessment_matches id version from
  let change = set_assessment now fields
  written ← gets λ db. returning test change db.assessments
  modify λ db. record db { assessments = update_where test change db.assessments }
  pure written

pub data AssessmentCommand : Type 0 where
  start_command complete_command cancel_command : AssessmentCommand

abbrev pub is_cancel : AssessmentCommand → Bool
is_cancel cancel_command = true
is_cancel start_command = false
is_cancel complete_command = false

-- The transition that a command runs on an assessment in a status.
unfoldable pub command_transition : AssessmentCommand → String → String
command_transition start_command status = "WF-ASM-02"
command_transition complete_command status = "WF-ASM-03"
command_transition cancel_command status =
    if str_eq status "PLANNED" then "WF-ASM-04" else "WF-ASM-05"

abbrev command_operation : AssessmentCommand → String
command_operation start_command = "API-ASM-004"
command_operation complete_command = "API-ASM-005"
command_operation cancel_command = "API-ASM-006"

abbrev pub command_fields : AssessmentCommand → String → ℕ → SecurityAssessment → SecurityAssessment
command_fields start_command to now row = record row { status = to; started_at = some now }
command_fields complete_command to now row = record row { status = to; completed_at = some now }
command_fields cancel_command to now row = record row { status = to; cancelled_at = some now }

-- `assessmentCommand`
unfoldable pub assessment_command :
    String
    → ℕ
    → AuthPrincipal
    → AssessmentCommand
    → Option String
    → Call
    → Action SecurityAssessment
assessment_command id version principal command reason call = do
  raise_if (is_cancel command && not (is_admin principal.role)) permission_denied
  row ← lock_assessment id
  require (require_assessment_access row principal)
  if is_cancel command then pure tt else require_scope call.now row.assessment.id
  check_version row.assessment.state_version version
  transition ←
      registered_transition security_assessment (command_transition command row.assessment.status)
  written ←
      update_assessment id version transition.from call.now
        (command_fields command transition.to call.now)
  updated ← or_conflict written row.assessment.state_version version
  record_audit (
      assessment_audit principal call (command_operation command) updated (
        ("transitionId", meta_text transition.id)
        ∷ ("from", meta_text row.assessment.status)
        ∷ ("to", meta_text updated.status)
        ∷ ("stateVersion", meta_number updated.state_version)
        ∷ when_given "reason" reason))
  pure updated
