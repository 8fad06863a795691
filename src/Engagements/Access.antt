-- ===== src/Engagements/Access.antt =====
-- Who may work on an engagement (src/modules/security-work/security-work-access.ts), the joins that
-- the repositories read (security-work.repository.ts, security-report.repository.ts), and the
-- locks that a transaction takes.
pub mod Laws
use cyber_hub_api.Workflow.Types.{
  WorkflowTransitionDefinition, WorkflowTransitionId, WorkflowEntityType,
}
use cyber_hub_api.Workflow.Helper.{
  require_transition, WorkflowException, workflow_conflict_for_version,
}
use cyber_hub_api.Prelude.{
  ◌∷◌, [], ℕ, String, Bool, true, false, not, ◌&&◌, ◌||◌, Option, none, some, List, find, str_eq,
  ◌==◌, if◌then◌else◌,
}
use cyber_hub_api.Authorization.Types.{
  Role, role_learner, role_business, role_mentor, role_consultant, role_admin,
}
use cyber_hub_api.Authorization.AuthScope.{
  AuthScopeTables, AssessmentRow, AuthorizationRow, RequestRow, row, scope_allowed, scope_denied,
  AuthScopeResult, evaluate_assessment, evaluate_assessment_creation, assessment_input,
}
use cyber_hub_api.Engagements.Schema.{
  meta_text, MetaValue, ConsultingRequest, ScopeAuthorization, SecurityAssessment,
  VulnerabilityFinding, SecurityReport, Database,
}
use cyber_hub_api.Engagements.Action.{
  internal_error, workflow_conflict, AppException, not_found, permission_denied,
  state_version_conflict, AuthPrincipal, Action, ◌>>=◌, ◌>>◌, gets, require, raise_if, or_raise,
  pure,
}

abbrev pub is_admin : Role → Bool
is_admin role_admin = true
is_admin role_learner = false
is_admin role_business = false
is_admin role_mentor = false
is_admin role_consultant = false

abbrev pub is_consultant : Role → Bool
is_consultant role_consultant = true
is_consultant role_learner = false
is_consultant role_business = false
is_consultant role_mentor = false
is_consultant role_admin = false

-- `assigned === userId` of a column that may be null
abbrev pub is_user : Option String → String → Bool
is_user none user_id = false
is_user (some assigned) user_id = str_eq assigned user_id

unfoldable pub require_operational_role : AuthPrincipal → Option AppException
require_operational_role principal =
    if is_admin principal.role || is_consultant principal.role then none else some permission_denied

unfoldable pub require_request_access : ConsultingRequest → AuthPrincipal → Option AppException
unfolding require_operational_role
require_request_access request principal = elim (require_operational_role principal) [
  | some e ↦ some e
  | none ↦
      if is_consultant principal.role
        && not (is_user request.assigned_consultant_id principal.user_id)
      then some not_found
      else none
]

pub record AssessmentContext : Type 0 where
  pub assessment : SecurityAssessment
  pub request : ConsultingRequest

unfoldable pub require_assessment_access : AssessmentContext → AuthPrincipal → Option AppException
unfolding require_request_access
require_assessment_access context principal =
    elim (require_request_access context.request principal) [
      | some e ↦ some e
      | none ↦
          if not (str_eq context.assessment.employer_id context.request.employer_id)
            || is_consultant principal.role
              && not (str_eq context.assessment.assigned_consultant_id principal.user_id)
          then some not_found
          else none
    ]

pub record FindingContext : Type 0 where
  pub finding : VulnerabilityFinding
  pub at : AssessmentContext

pub record ReportContext : Type 0 where
  pub report : SecurityReport
  pub at : AssessmentContext

-- The row of a table with a primary key.
abbrev pub request_by_key : Database → String → Option ConsultingRequest
request_by_key db id = find (λ (r : ConsultingRequest). str_eq r.id id) db.requests

abbrev pub assessment_by_key : Database → String → Option SecurityAssessment
assessment_by_key db id = find (λ (r : SecurityAssessment). str_eq r.id id) db.assessments

abbrev pub finding_by_key : Database → String → Option VulnerabilityFinding
finding_by_key db id = find (λ (r : VulnerabilityFinding). str_eq r.id id) db.findings

abbrev pub report_by_key : Database → String → Option SecurityReport
report_by_key db id = find (λ (r : SecurityReport). str_eq r.id id) db.reports

abbrev pub scope_by_key : Database → String → Option ScopeAuthorization
scope_by_key db id = find (λ (r : ScopeAuthorization). str_eq r.id id) db.scopes

-- SecurityWorkRepository.assessment
unfoldable pub find_assessment : String → Database → Option AssessmentContext
find_assessment id db = elim (assessment_by_key db id) [
  | none ↦ none
  | some assessment ↦ elim (request_by_key db assessment.consulting_request_id) [
    | none ↦ none
    | some request ↦ some (record { assessment = assessment; request = request })
  ]
]

-- SecurityWorkRepository.finding
unfoldable pub find_finding : String → Database → Option FindingContext
find_finding id db = elim (finding_by_key db id) [
  | none ↦ none
  | some finding ↦ elim (find_assessment finding.assessment_id db) [
    | none ↦ none
    | some at ↦ some (record { finding = finding; at = at })
  ]
]

-- SecurityReportRepository.report
unfoldable pub find_report : String → Database → Option ReportContext
find_report id db = elim (report_by_key db id) [
  | none ↦ none
  | some report ↦ elim (find_assessment report.assessment_id db) [
    | none ↦ none
    | some at ↦ some (record { report = report; at = at })
  ]
]

-- What AuthScopeEvaluator reads of the tables.
abbrev assessment_row : SecurityAssessment → AssessmentRow
assessment_row a = record {
  id = a.id;
  employer_id = a.employer_id;
  consulting_request_id = a.consulting_request_id;
  scope_authorization_id = a.scope_authorization_id;
  assigned_consultant_id = a.assigned_consultant_id;
  service = a.service;
}

abbrev authorization_row : ScopeAuthorization → AuthorizationRow
authorization_row s = record {
  id = s.id;
  consulting_request_id = s.consulting_request_id;
  employer_id = s.employer_id;
  is_current = s.is_current;
  revoked_at = s.revoked_at;
  valid_from = s.valid_from;
  valid_until = s.valid_until;
  authorized_targets = s.authorized_targets;
  allowed_activities = s.allowed_activities;
}

abbrev request_row : ConsultingRequest → RequestRow
request_row r = record {
  id = r.id;
  employer_id = r.employer_id;
  requested_service = r.requested_service;
}

abbrev map_option : {A B : Type 0} → (A → B) → Option A → Option B
map_option f none = none
map_option f (some a) = some (f a)

-- SecurityWorkRepository.currentScope
abbrev pub current_scope : Database → String → Option ScopeAuthorization
current_scope db request_id =
    find (λ (s : ScopeAuthorization). str_eq s.consulting_request_id request_id && s.is_current)
      db.scopes

abbrev current_scope_of : Database → Option String → Option ScopeAuthorization
current_scope_of db none = none
current_scope_of db (some request_id) = current_scope db request_id

abbrev request_of : Database → Option String → Option ConsultingRequest
request_of db none = none
request_of db (some request_id) = request_by_key db request_id

-- The assessment of a finding, joined on its key and its employer.
abbrev finding_assessment : Database → VulnerabilityFinding → Option String
finding_assessment db f = elim (assessment_by_key db f.assessment_id) [
  | none ↦ none
  | some a ↦ if str_eq f.employer_id a.employer_id then some a.id else none
]

abbrev finding_assessment_of : Database → Option VulnerabilityFinding → Option String
finding_assessment_of db none = none
finding_assessment_of db (some f) = finding_assessment db f

unfoldable pub scope_tables : Database → AuthScopeTables
scope_tables db = record {
  assessment_by_id = λ id. row (map_option assessment_row (assessment_by_key db id));
  authorization_by_id = λ id. row (map_option authorization_row (scope_by_key db id));
  request_by_id = λ id. row (map_option request_row (request_of db id));
  current_authorization_of = λ id. row (map_option authorization_row (current_scope_of db id));
  assessment_id_of_finding = λ id. row (finding_assessment_of db (finding_by_key db id));
}

-- `lockAssessment` of the services
unfoldable pub lock_assessment : String → Action AssessmentContext
lock_assessment id = do
  initial ← or_raise (← gets (find_assessment id)) not_found
  request ← or_raise (← gets λ db. request_by_key db initial.request.id) not_found
  or_raise (← gets (find_assessment id)) not_found

-- What `workflowConflictForVersion` makes, as an exception of a service.
abbrev pub conflict_exception : WorkflowException → AppException
conflict_exception (WorkflowException.state_version_conflict current) =
    state_version_conflict current
conflict_exception WorkflowException.workflow_conflict = workflow_conflict

abbrev pub or_conflict : {A : Type 0} → Option A → ℕ → ℕ → Action A
or_conflict written current expected =
    or_raise written (conflict_exception (workflow_conflict_for_version current expected))

-- `requireTransition`, whose thrown error is no exception of the application.
abbrev pub registered_transition :
    WorkflowEntityType → WorkflowTransitionId → Action WorkflowTransitionDefinition
registered_transition entity id = or_raise (require_transition entity id) internal_error

-- `reason ? { reason } : {}`
abbrev pub when_given : String → Option String → List (String × MetaValue)
when_given key none = []
when_given key (some text) = if str_eq text "" then [] else (key, meta_text text) ∷ []

-- `if (current !== expected) throw`
abbrev pub check_version : ℕ → ℕ → Action (Unit {0})
check_version current expected =
    raise_if (not (current == expected)) (state_version_conflict current)

abbrev pub is_allowed : AuthScopeResult → Bool
is_allowed scope_allowed = true
is_allowed (scope_denied reason) = false

-- What AuthScopeEvaluator finds for an assessment, and for one to be created.
abbrev pub assessment_verdict : Database → ℕ → String → AuthScopeResult
assessment_verdict db now assessment_id =
    evaluate_assessment (scope_tables db) now (assessment_input (scope_tables db) now assessment_id)

abbrev pub creation_verdict : Database → ℕ → String → AuthScopeResult
creation_verdict db now request_id =
    evaluate_assessment_creation (scope_tables db) now (some request_id)

-- The private method `scope` of SecurityWorkService
unfoldable pub require_scope : ℕ → String → Action (Unit {0})
require_scope now assessment_id = do
  verdict ← gets λ db. assessment_verdict db now assessment_id
  raise_if (not (is_allowed verdict)) not_found
  pure tt

unfoldable pub require_creation_scope : ℕ → String → Action (Unit {0})
require_creation_scope now request_id = do
  verdict ← gets λ db. creation_verdict db now request_id
  raise_if (not (is_allowed verdict)) not_found
  pure tt
