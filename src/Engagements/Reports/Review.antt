-- ===== src/Engagements/Reports/Review.antt =====
-- A report in review
-- (src/modules/security-report/services/security-report.service.ts: submitReview, returnToDraft,
-- markReady, release and supersede).
use cyber_hub_api.Engagements.Reports.Drafts.{may_have_reports}
use cyber_hub_api.Workflow.Validation.{resolve_candidate}
use cyber_hub_api.Workflow.Types.{report}
use cyber_hub_api.Authorization.RolePolicies.{get_role_policy}
use cyber_hub_api.Workflow.Operations.{
  delete_guard, get_workflow_operation_mapping, edit_guard, transition, WorkflowOperationMapping,
}
use cyber_hub_api.Authorization.Types.{Role}
use cyber_hub_api.Engagements.Reports.{
  report_view, report_audit, update_report, has_report_content, lock_report, membership_count,
  report_linked, require_role, ReportView,
}
use cyber_hub_api.Engagements.Schema.{
  meta_number, meta_text, update_where, MetaValue, returning, SecurityReport,
}
use cyber_hub_api.Engagements.Access.{
  when_given, or_conflict, find_report, registered_transition, check_version, is_admin,
  is_consultant, ReportContext,
}
use cyber_hub_api.Prelude.{
  ◌∷◌, [], true, includes, ◌||◌, none, ltb, not, is_none, ◌&&◌, false, str_eq, List, some, Bool,
  Option, String, ℕ,
}
use cyber_hub_api.Engagements.Action.{
  record_audit, permission_denied, workflow_conflict, internal_error, not_found, pure, or_raise,
  modify, raise_if, file_policy_not_configured, raise, Call, gets, AuthPrincipal, Action, ◌>>=◌,
  ◌>>◌,
}

-- The private method `transition`
unfoldable pub run_transition :
    SecurityReport
    → AuthPrincipal
    → String
    → String
    → ℕ
    → (SecurityReport → SecurityReport)
    → List (String × MetaValue)
    → Call
    → Action ReportView
run_transition row principal api_id transition_id version extra_fields extra_metadata call = do
  step ← registered_transition report transition_id
  written ←
      update_report row.id version step.from call.now
        λ r. extra_fields (record r { status = step.to })
  updated ← or_conflict written row.state_version version
  record_audit (
      report_audit principal call api_id updated (
        ("transitionId", meta_text step.id)
        ∷ ("from", meta_text row.status)
        ∷ ("to", meta_text updated.status)
        ∷ ("stateVersion", meta_number updated.state_version)
        ∷ extra_metadata))
  report_view updated

-- `requireReviewableContent`
unfoldable pub require_reviewable_content : SecurityReport → Action (Unit {0})
require_reviewable_content row = do
  count ← gets λ db. membership_count db row.id
  raise_if (not (has_report_content row.draft_content) || ltb count 1) workflow_conflict
  pure tt

-- `submitReview`
unfoldable pub submit_review : String → AuthPrincipal → ℕ → Call → Action ReportView
submit_review id principal version call = do
  require_role (is_consultant principal.role)
  row ← lock_report id principal
  check_version row.report.state_version version
  step ← registered_transition report "WF-RPT-02"
  raise_if
      (not (includes row.report.status step.from)
        || not (may_have_reports row.at.assessment.status))
      workflow_conflict
  require_reviewable_content row.report
  run_transition row.report principal "API-RPT-005" step.id version (λ r. r) [] call

-- `operation?.kind !== "TRANSITION"` throws, else its candidates.
abbrev candidate_ids : Option WorkflowOperationMapping → Option (List String)
candidate_ids none = none
candidate_ids (some (transition entity ids)) = some ids
candidate_ids (some (edit_guard entity states)) = none
candidate_ids (some (delete_guard entity states)) = none

abbrev pub is_candidate : Option String → String → Bool
is_candidate none id = false
is_candidate (some found) id = str_eq found id

abbrev pub has_policy : String → Role → Bool
has_policy key role = elim (get_role_policy key role) [ none ↦ false | some policy ↦ true ]

-- `returnToDraft`
unfoldable pub return_to_draft : String → AuthPrincipal → ℕ → String → Call → Action ReportView
return_to_draft id principal version reason call = do
  row ← lock_report id principal
  ids ← or_raise (candidate_ids (get_workflow_operation_mapping "API-RPT-006")) internal_error
  candidate ← or_raise (resolve_candidate report ids (some row.report.status)) internal_error
  raise_if
      (is_candidate candidate "WF-RPT-05"
        && not (has_policy "report.release_client" principal.role))
      permission_denied
  check_version row.report.state_version version
  transition_id ← or_raise candidate workflow_conflict
  run_transition row.report principal "API-RPT-006" transition_id version (λ r. r)
      (when_given "reason" (some reason)) call

-- `markReady`
unfoldable pub mark_ready : String → AuthPrincipal → ℕ → Call → Action ReportView
mark_ready id principal version call = do
  require_role (is_consultant principal.role)
  row ← lock_report id principal
  check_version row.report.state_version version
  step ← registered_transition report "WF-RPT-04"
  raise_if
      (not (includes row.report.status step.from)
        || not (str_eq row.at.assessment.status "COMPLETED"))
      workflow_conflict
  require_reviewable_content row.report
  run_transition row.report principal "API-RPT-007" step.id version
      (λ r. record r { reviewed_by_user_id = some principal.user_id }) [] call

-- `assertReportFilePolicyConfigured`
unfoldable pub assert_report_file_policy_configured : Action ReportView
assert_report_file_policy_configured = raise file_policy_not_configured

-- `release`
unfoldable pub release : String → AuthPrincipal → ℕ → Action ReportView
release id principal version = do
  require_role (is_admin principal.role)
  row ← lock_report id principal
  check_version row.report.state_version version
  step ← registered_transition report "WF-RPT-06"
  raise_if
      (not (includes row.report.status step.from)
        || not (str_eq row.at.assessment.status "COMPLETED"))
      workflow_conflict
  assert_report_file_policy_configured

-- Whether one report may take the place of another.
unfoldable pub can_replace : ReportContext → SecurityReport → Bool
can_replace replacement row =
    report_linked replacement
    && not (str_eq replacement.report.id row.id)
    && str_eq replacement.report.assessment_id row.assessment_id
    && str_eq replacement.report.employer_id row.employer_id
    && str_eq replacement.report.status "RELEASED"
    && ltb row.version_no replacement.report.version_no
    && is_none replacement.report.supersedes_report_id

abbrev pub takes_lineage : String → SecurityReport → SecurityReport → Bool
takes_lineage replacement_id old r =
    str_eq r.id replacement_id
    && str_eq r.status "RELEASED"
    && is_none r.supersedes_report_id
    && str_eq r.assessment_id old.assessment_id
    && str_eq r.employer_id old.employer_id

abbrev pub set_lineage : SecurityReport → SecurityReport → SecurityReport
set_lineage old r = record r { supersedes_report_id = some old.id }

-- SecurityReportRepository.recordLineage
unfoldable pub record_lineage : String → SecurityReport → Action (Option SecurityReport)
record_lineage replacement_id old = do
  let test = takes_lineage replacement_id old
  written ← gets λ db. returning test (set_lineage old) db.reports
  modify λ db. record db { reports = update_where test (set_lineage old) db.reports }
  pure written

-- `supersede`
unfoldable pub supersede : String → AuthPrincipal → ℕ → String → Call → Action ReportView
supersede id principal version replacement_id call = do
  require_role (is_admin principal.role)
  initial ← or_raise (← gets (find_report id)) not_found
  row ← lock_report id principal
  check_version row.report.state_version version
  step ← registered_transition report "WF-RPT-07"
  raise_if (not (includes row.report.status step.from)) workflow_conflict
  replacement ← or_raise (← gets (find_report replacement_id)) workflow_conflict
  raise_if (not (can_replace replacement row.report)) workflow_conflict
  written ← update_report id version step.from call.now λ r. record r { status = step.to }
  updated ← or_conflict written row.report.state_version version
  lineage ← or_raise (← record_lineage replacement.report.id updated) workflow_conflict
  record_audit (
      report_audit principal call "API-RPT-009" updated (
        ("transitionId", meta_text step.id)
        ∷ ("from", meta_text row.report.status)
        ∷ ("to", meta_text updated.status)
        ∷ ("stateVersion", meta_number updated.state_version)
        ∷ ("oldReportId", meta_text updated.id)
        ∷ ("replacementReportId", meta_text replacement.report.id)
        ∷ []))
  report_view updated
