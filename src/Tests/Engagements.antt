-- ===== src/Tests/Engagements.antt =====
-- The theorems on engagements at one database: a request of employer "e1" in delivery, with an
-- assessment in progress, a finding, and two released reports.
use cyber_hub_api.Workflow.Registry.{get_workflow_definition}
use cyber_hub_api.Workflow.Helper.{require_transition}
use cyber_hub_api.Engagements.Access.{
  find_finding, require_request_access, find_report, scope_tables, require_scope,
  require_assessment_access, find_assessment, lock_assessment,
}
use cyber_hub_api.Engagements.Reports.Versions.{next_version_no_lem}
use cyber_hub_api.Engagements.Reports.Release.{IsRefused, release-IsRefused}
use cyber_hub_api.Engagements.Consistency.Laws.{eq_of_single}
use cyber_hub_api.Engagements.Consistency.Reachable.{
  create_report_step, here, then_step, Reaches-IsConsistent,
}
use cyber_hub_api.Engagements.Reports.{
  update_report, report_linked, lock_report, report_view, require_linked_findings, version_taken,
  next_version_no, ReportView,
}
use cyber_hub_api.Engagements.Findings.{
  mutate_finding, apply_command, require_finding_mutation, finding_command_transition,
  update_finding, resolve, finding_command,
}
use cyber_hub_api.Engagements.Reports.Drafts.{insert_memberships, ReportCreateInput, create_report}
use cyber_hub_api.Engagements.Findings.Laws.{finding_command-IsFindingCommanded, IsFindingCommanded}
use cyber_hub_api.Engagements.Consulting.Assignment.{IsAssigned, assign-IsAssigned}
use cyber_hub_api.Engagements.Consulting.Completion.{
  IsCompletedRequest, complete_request-IsCompletedRequest,
}
use cyber_hub_api.Engagements.Consulting.{domain_guard, request_transition, transition_with_extras}
use cyber_hub_api.Engagements.Consulting.Commands.{
  has_only_completed_linked_work, propagate_active_assignment, assign_consultant, complete_request,
  assign,
}
use cyber_hub_api.Engagements.Reports.Review.{record_lineage, can_replace, release, supersede}
use cyber_hub_api.Engagements.Scopes.Laws.{create_scope-IsNextScope, IsNextScope}
use cyber_hub_api.Engagements.Reports.Supersession.{supersede-IsSuperseded, IsSuperseded}
use cyber_hub_api.Engagements.Scopes.{create_scope, ScopeAuthorizationInput}
use cyber_hub_api.Engagements.Consistency.{
  finding_key, IsIncluded, ReportKey, report_key, IsConsistent,
}
use cyber_hub_api.Authorization.AuthScope.{
  evaluate_context, parse_string_array, load_assessment_security_context, evaluate_assessment, text,
  json_array,
}
use cyber_hub_api.Authorization.Types.{role_business, role_admin, role_consultant}
use cyber_hub_api.Engagements.Assessments.Laws.{assessment_command-IsCommanded, IsCommanded}
use cyber_hub_api.Engagements.Assessments.{
  update_assessment, command_transition, complete_command, assessment_command,
}
use cyber_hub_api.Engagements.Action.{
  not_found, state_version_conflict, permission_denied, workflow_conflict, run_in_transaction,
  AppException, raised, returned, ◌>>=◌, AuthPrincipal, Result, Call,
}
use cyber_hub_api.Engagements.Schema.{
  json_object, SecurityReport, VulnerabilityFinding, SecurityAssessment, ScopeAuthorization,
  Database, ConsultingRequest,
}
use cyber_hub_api.Prelude.{
  sym, map, subst, ap, ◌<◌, Memᴰ, ℕ, String, refl, [], ◌∷◌, none, some, true, ◌≡◌, false, arith,
}

abbrev admin : AuthPrincipal
admin = record { user_id = "adm"; role = role_admin; employer_id = none }

abbrev consultant : AuthPrincipal
consultant = record { user_id = "con"; role = role_consultant; employer_id = none }

abbrev call : Call
call = record { now = 50; new_id = "new-1"; request_id = some "http-1" }

abbrev request : ConsultingRequest
request = record {
  id = "req-1";
  employer_id = "e1";
  submitted_by_user_id = "biz";
  company_details = "A company";
  business_size = "SMALL";
  security_concern = "A concern";
  business_impact = none;
  requested_service = "PENTEST";
  environment_details = none;
  contact_information = "mail";
  status = "IN_PROGRESS";
  state_version = 4;
  assigned_consultant_id = some "con";
  submitted_at = 1;
  accepted_at = some 2;
  completed_at = none;
  updated_at = 3;
}

abbrev scope : ScopeAuthorization
scope = record {
  id = "auth-1";
  consulting_request_id = "req-1";
  employer_id = "e1";
  version_no = 1;
  authorized_targets = json_array (text "example.org" ∷ []);
  allowed_activities = json_array (text "PENTEST" ∷ []);
  restrictions = json_array [];
  confirmed_by_user_id = "biz";
  confirmed_at = 5;
  valid_from = 10;
  valid_until = some 90;
  is_current = true;
  superseded_at = none;
  revoked_at = none;
  created_at = 5;
}

abbrev assessment : SecurityAssessment
assessment = record {
  id = "asm-1";
  employer_id = "e1";
  consulting_request_id = "req-1";
  scope_authorization_id = "auth-1";
  service = "PENTEST";
  scope_snapshot = record {
    authorized_targets = scope.authorized_targets;
    allowed_activities = scope.allowed_activities;
    restrictions = scope.restrictions;
  };
  assigned_consultant_id = "con";
  status = "IN_PROGRESS";
  state_version = 2;
  started_at = some 11;
  completed_at = none;
  cancelled_at = none;
  created_at = 10;
  updated_at = 11;
}

abbrev finding : VulnerabilityFinding
finding = record {
  id = "f-1";
  assessment_id = "asm-1";
  employer_id = "e1";
  title = "A finding";
  severity = "HIGH";
  description = none;
  evidence_summary = none;
  recommendation = "Fix it";
  status = "OPEN";
  state_version = 1;
  resolved_at = none;
  created_by_user_id = "con";
  created_at = 12;
  updated_at = 12;
}

abbrev released : String → ℕ → SecurityReport
released id version_no = record {
  id = id;
  assessment_id = "asm-1";
  employer_id = "e1";
  draft_content = json_object ("summary" ∷ []);
  status = "RELEASED";
  state_version = 5;
  version_no = version_no;
  supersedes_report_id = none;
  prepared_by_user_id = "con";
  reviewed_by_user_id = some "con";
  released_at = some 20;
  created_at = 13;
  updated_at = 20;
}

abbrev engaged : Database
engaged = record {
  users =
      record { id = "con"; role = role_consultant; employer_id = none }
      ∷ record { id = "con-2"; role = role_consultant; employer_id = none }
      ∷ record { id = "biz"; role = role_business; employer_id = some "e1" }
      ∷ [];
  requests = request ∷ [];
  scopes = scope ∷ [];
  assessments = assessment ∷ [];
  findings = finding ∷ [];
  reports = released "r-1" 1 ∷ released "r-2" 2 ∷ [];
  memberships =
      record { report_id = "r-1"; finding_id = "f-1"; sort_order = 0; included_at = 13 } ∷ [];
  notes = [];
  audits = [];
}

abbrev delivered : Database
delivered = record engaged { assessments = record assessment { status = "COMPLETED" } ∷ [] }

-- The answer of a run and the database that it leaves; a run that raises leaves the defaults.
abbrev answer : {A : Type 0} → A → Result (A × Database) → A
answer default (returned (a, after)) = a
answer default (raised e) = default

abbrev left_by : {A : Type 0} → Result (A × Database) → Database
left_by (returned (a, after)) = after
left_by (raised e) = engaged

abbrev completed : Result (SecurityAssessment × Database)
completed = assessment_command "asm-1" 2 consultant complete_command none call engaged

completed_returns : completed ≡ returned (answer assessment completed, left_by completed)
unfolding assessment_command ◌>>=◌ lock_assessment find_assessment require_assessment_access
    require_scope evaluate_assessment load_assessment_security_context scope_tables
    parse_string_array evaluate_context require_transition get_workflow_definition
    command_transition update_assessment
completed_returns = refl

assessment_command-IsCommanded_example :
    IsCommanded "asm-1" 2 consultant complete_command call engaged
      (answer assessment completed)
      (left_by completed)
assessment_command-IsCommanded_example =
    assessment_command-IsCommanded "asm-1" 2 consultant complete_command none call engaged
      completed_returns

abbrev resolved : Result (VulnerabilityFinding × Database)
resolved = finding_command "f-1" 1 consultant resolve (some "Verified") call engaged

resolved_returns : resolved ≡ returned (answer finding resolved, left_by resolved)
unfolding finding_command ◌>>=◌ mutate_finding find_finding find_assessment lock_assessment
    require_assessment_access require_scope evaluate_assessment load_assessment_security_context
    scope_tables parse_string_array evaluate_context apply_command require_finding_mutation
    require_transition get_workflow_definition finding_command_transition update_finding
resolved_returns = refl

finding_command-IsFindingCommanded_example :
    IsFindingCommanded "f-1" 1 consultant resolve call engaged
      (answer finding resolved)
      (left_by resolved)
finding_command-IsFindingCommanded_example =
    finding_command-IsFindingCommanded "f-1" 1 consultant resolve (some "Verified") call engaged
      resolved_returns

abbrev no_view : ReportView
no_view = record { report = released "none" 0; included_findings = [] }

abbrev report_input : ReportCreateInput
report_input = record { draft_content = json_object ("summary" ∷ []); finding_ids = "f-1" ∷ [] }

abbrev drafted : Result (ReportView × Database)
drafted = create_report "asm-1" consultant report_input call engaged

drafted_returns : drafted ≡ returned (answer no_view drafted, left_by drafted)
unfolding create_report ◌>>=◌ lock_assessment find_assessment require_assessment_access
    require_linked_findings require_transition get_workflow_definition version_taken next_version_no
    insert_memberships report_view
drafted_returns = refl

engaged-IsConsistent : IsConsistent engaged
engaged-IsConsistent = record {
  versioned = (
    λ o m same.
        let key : o ≡ report_key (released "r-2" 2) = eq_of_single m in
        let next = ap (λ (k : ReportKey). k.version_no) key in let one = same.1 in omega arith,
    (λ o m. elim m [ ], tt),
  );
  distinct_findings = (refl, tt);
  included = λ m there.
      subst (IsIncluded (map report_key engaged.reports) (map finding_key engaged.findings))
        (sym (eq_of_single there))
        (record {
          report = report_key (released "r-1" 1);
          finding = finding_key finding;
          report_row = Memᴰ.head refl;
          finding_row = Memᴰ.head refl;
          of_report = refl;
          of_finding = refl;
          same_assessment = refl;
          same_employer = refl;
        });
}

Reaches-IsConsistent_example : IsConsistent (left_by drafted)
Reaches-IsConsistent_example =
    Reaches-IsConsistent
      (then_step here (create_report_step "asm-1" consultant report_input call drafted_returns))
      engaged-IsConsistent

release-IsRefused_example :
    (e : AppException) × (run_in_transaction (release "r-1" admin 5) engaged ≡ (raised e, engaged))
    × IsRefused "r-1" admin 5 engaged e
release-IsRefused_example = release-IsRefused "r-1" admin 5 engaged

-- A release by another role, of an unknown report, at another version and of a released report.
unpermitted_release_refused :
    (run_in_transaction (release "r-1" consultant 5) engaged).0 ≡ raised permission_denied
unfolding run_in_transaction release ◌>>=◌
unpermitted_release_refused = refl

unknown_release_refused : (run_in_transaction (release "r-9" admin 5) engaged).0 ≡ raised not_found
unfolding run_in_transaction release ◌>>=◌ find_report lock_report
unknown_release_refused = refl

stale_release_refused :
    (run_in_transaction (release "r-1" admin 4) engaged).0 ≡ raised (state_version_conflict 5)
unfolding run_in_transaction release ◌>>=◌ find_report find_assessment lock_report lock_assessment
    report_linked require_assessment_access
stale_release_refused = refl

repeated_release_refused :
    (run_in_transaction (release "r-1" admin 5) engaged).0 ≡ raised workflow_conflict
unfolding run_in_transaction release ◌>>=◌ find_report find_assessment lock_report lock_assessment
    report_linked require_assessment_access require_transition get_workflow_definition
repeated_release_refused = refl

next_version_no_lem_example :
    ((r : SecurityReport)
      → Memᴰ r engaged.reports
      → r.assessment_id ≡ "asm-1"
      → r.version_no < next_version_no engaged "asm-1")
    × (version_taken engaged "asm-1" (next_version_no engaged "asm-1") ≡ false)
next_version_no_lem_example = next_version_no_lem engaged "asm-1"

abbrev superseded : Result (ReportView × Database)
superseded = supersede "r-1" admin 5 "r-2" call engaged

superseded_returns : superseded ≡ returned (answer no_view superseded, left_by superseded)
unfolding supersede ◌>>=◌ find_report find_assessment lock_report lock_assessment report_linked
    require_assessment_access require_transition get_workflow_definition can_replace update_report
    record_lineage report_view
superseded_returns = refl

supersede-IsSuperseded_example :
    IsSuperseded "r-1" admin 5 "r-2" call engaged (answer no_view superseded) (left_by superseded)
supersede-IsSuperseded_example =
    supersede-IsSuperseded "r-1" admin 5 "r-2" call engaged superseded_returns

abbrev scope_input : ScopeAuthorizationInput
scope_input = record {
  authorized_targets = scope.authorized_targets;
  allowed_activities = scope.allowed_activities;
  restrictions = none;
  valid_from = 60;
  valid_until = none;
}

abbrev rescoped : Result (ScopeAuthorization × Database)
rescoped = create_scope "req-1" "e1" "biz" scope_input call engaged

rescoped_returns : rescoped ≡ returned (answer scope rescoped, left_by rescoped)
unfolding create_scope ◌>>=◌
rescoped_returns = refl

create_scope-IsNextScope_example :
    IsNextScope "req-1" "e1" "biz" call engaged (answer scope rescoped) (left_by rescoped)
create_scope-IsNextScope_example =
    create_scope-IsNextScope "req-1" "e1" "biz" scope_input call engaged rescoped_returns

abbrev reassigned : Result (ConsultingRequest × Database)
reassigned = assign "req-1" "con-2" admin call engaged

reassigned_returns : reassigned ≡ returned (answer request reassigned, left_by reassigned)
unfolding assign ◌>>=◌ assign_consultant propagate_active_assignment
reassigned_returns = refl

assign-IsAssigned_example :
    IsAssigned "req-1" "con-2" admin call engaged (answer request reassigned) (left_by reassigned)
assign-IsAssigned_example = assign-IsAssigned "req-1" "con-2" admin call engaged reassigned_returns

abbrev closed : Result (ConsultingRequest × Database)
closed = complete_request "req-1" 4 consultant call delivered

closed_returns : closed ≡ returned (answer request closed, left_by closed)
unfolding complete_request ◌>>=◌ require_request_access has_only_completed_linked_work
    request_transition require_transition get_workflow_definition transition_with_extras
    domain_guard
closed_returns = refl

complete_request-IsCompletedRequest_example :
    IsCompletedRequest "req-1" 4 consultant call delivered (answer request closed) (left_by closed)
complete_request-IsCompletedRequest_example =
    complete_request-IsCompletedRequest "req-1" 4 consultant call delivered closed_returns
