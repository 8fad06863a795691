-- ===== src/Engagements/Reports/Drafts.antt =====
-- A report as a draft
-- (src/modules/security-report/services/security-report.service.ts: create, get, update and
-- replaceFindings).
use cyber_hub_api.Workflow.Types.{report}
use cyber_hub_api.Engagements.Reports.{
  version_taken, next_version_no, report_view, report_linked, report_audit, edit_guard_states,
  memberships_of, of_report, lock_report, require_linked_findings, update_report, ReportView,
}
use cyber_hub_api.Engagements.Access.{
  registered_transition, require_assessment_access, find_report, check_version, or_conflict,
  lock_assessment, ReportContext,
}
use cyber_hub_api.Engagements.Findings.{or_else}
use cyber_hub_api.Engagements.Schema.{
  meta_null, meta_text, meta_number, meta_texts, select_where, delete_where, update_where,
  JsonContent, ReportFinding, SecurityReport,
}
use cyber_hub_api.Prelude.{
  ◌==◌, includes, map, not, ◌||◌, ◌++◌, ◌&&◌, if◌then◌else◌, some, suc, str_eq, some_of, ◌∷◌, Bool,
  [], none, Option, List, String, ℕ,
}
use cyber_hub_api.Engagements.Action.{
  workflow_conflict, not_found, raise_if, record_audit, require, gets, or_raise, pure, modify,
  Action, AuthPrincipal, Call, ◌>>=◌, ◌>>◌,
}

-- `findingIds` is an empty list where the input has none.
pub record ReportCreateInput : Type 0 where
  pub draft_content : JsonContent
  pub finding_ids : List String

abbrev pub may_have_reports : String → Bool
may_have_reports status = str_eq status "IN_PROGRESS" || str_eq status "COMPLETED"

abbrev pub numbered : ℕ → List String → List (String × ℕ)
numbered n [] = []
numbered n (id ∷ ids) = (id, n) ∷ numbered (suc n) ids

abbrev pub membership : String → ℕ → String × ℕ → ReportFinding
membership report_id now (finding_id, sort_order) = record {
  report_id = report_id;
  finding_id = finding_id;
  sort_order = sort_order;
  included_at = now;
}

-- SecurityReportRepository.insertMemberships
unfoldable pub insert_memberships : String → ℕ → List (String × ℕ) → Action (Unit {0})
insert_memberships report_id now findings =
    modify
      λ db. record db { memberships = db.memberships ++ map (membership report_id now) findings }

abbrev pub new_report : Call → String → String → JsonContent → String → ℕ → String → SecurityReport
new_report call assessment_id employer_id content status version_no user_id = record {
  id = call.new_id;
  assessment_id = assessment_id;
  employer_id = employer_id;
  draft_content = content;
  status = status;
  state_version = 1;
  version_no = version_no;
  supersedes_report_id = none;
  prepared_by_user_id = user_id;
  reviewed_by_user_id = none;
  released_at = none;
  created_at = call.now;
  updated_at = call.now;
}

-- `create`; a violation of the constraint on versions is answered as a conflict.
unfoldable pub create_report : String → AuthPrincipal → ReportCreateInput → Call → Action ReportView
create_report assessment_id principal input call = do
  row ← lock_assessment assessment_id
  require (require_assessment_access row principal)
  raise_if (not (may_have_reports row.assessment.status)) workflow_conflict
  require_linked_findings input.finding_ids row.assessment.id row.assessment.employer_id
  step ← registered_transition report "WF-RPT-01"
  version_no ← gets λ db. next_version_no db assessment_id
  taken ← gets λ db. version_taken db assessment_id version_no
  raise_if taken workflow_conflict
  let created =
      new_report call assessment_id row.assessment.employer_id input.draft_content step.to
        version_no principal.user_id
  modify λ db. record db { reports = db.reports ++ created ∷ [] }
  insert_memberships created.id call.now (numbered 0 input.finding_ids)
  record_audit (
      report_audit principal call "API-RPT-001" created (
        ("transitionId", meta_text step.id)
        ∷ ("from", meta_null)
        ∷ ("to", meta_text created.status)
        ∷ ("stateVersion", meta_number created.state_version)
        ∷ ("versionNo", meta_number created.version_no)
        ∷ ("findingIds", meta_texts input.finding_ids)
        ∷ []))
  report_view created

-- `get`
unfoldable pub get_report : String → AuthPrincipal → Action ReportView
get_report id principal = do
  row ← or_raise (← gets (find_report id)) not_found
  raise_if (not (report_linked row)) not_found
  require (require_assessment_access row.at principal)
  report_view row.report

-- What the guards of an edit leave: the report's row, and the states that the edit may meet.
unfoldable pub open_draft :
    String → AuthPrincipal → ℕ → String → Action (ReportContext × List String)
open_draft id principal version api_id = do
  row ← lock_report id principal
  check_version row.report.state_version version
  allowed ← edit_guard_states api_id
  raise_if (not (includes row.report.status allowed)) workflow_conflict
  pure (row, allowed)

pub record ReportUpdateInput : Type 0 where
  pub expected_state_version : ℕ
  pub draft_content : Option JsonContent

abbrev pub updated_fields : ReportUpdateInput → SecurityReport → SecurityReport
updated_fields input row = record row {
  draft_content = or_else input.draft_content row.draft_content;
}

abbrev updated_names : Option JsonContent → List String
updated_names none = []
updated_names (some content) = "draftContent" ∷ []

-- `update`
unfoldable pub edit_report : String → AuthPrincipal → ReportUpdateInput → Call → Action ReportView
edit_report id principal input call = do
  draft ← open_draft id principal input.expected_state_version "API-RPT-003"
  written ← update_report id input.expected_state_version draft.1 call.now (updated_fields input)
  updated ← or_conflict written draft.0.report.state_version input.expected_state_version
  record_audit (
      report_audit principal call "API-RPT-003" updated (
        ("changedFields", meta_texts (updated_names input.draft_content))
        ∷ ("stateVersion", meta_number updated.state_version)
        ∷ []))
  report_view updated

abbrev finding_id_of : ReportFinding → String
finding_id_of m = m.finding_id

-- SecurityReportRepository.deleteMemberships
unfoldable pub delete_memberships : String → List String → Action (Unit {0})
delete_memberships report_id finding_ids = modify λ db. record db {
  memberships =
      delete_where (λ m. of_report report_id m && includes m.finding_id finding_ids) db.memberships;
}

abbrev pub reorder : ℕ → ReportFinding → ReportFinding
reorder sort_order m = record m { sort_order = sort_order }

-- SecurityReportRepository.setSortOrder
abbrev pub set_sort_order : String → String → ℕ → Action (Unit {0})
set_sort_order report_id finding_id sort_order = modify λ db. record db {
  memberships =
      update_where (λ m. of_report report_id m && str_eq m.finding_id finding_id)
        (reorder sort_order) db.memberships;
}

abbrev pub is_misplaced : List ReportFinding → String × ℕ → Bool
is_misplaced current (finding_id, sort_order) =
    some_of
      (λ (m : ReportFinding). str_eq m.finding_id finding_id && not (m.sort_order == sort_order))
      current

-- The loop over the input that puts the retained findings in order.
unfoldable pub place_retained : String → List ReportFinding → List (String × ℕ) → Action (Unit {0})
place_retained report_id current [] = pure tt
place_retained report_id current (entry ∷ entries) = do
  if is_misplaced current entry then set_sort_order report_id entry.0 entry.1 else pure tt
  place_retained report_id current entries

-- `replaceFindings`
unfoldable pub replace_findings :
    String → AuthPrincipal → ℕ → List String → Call → Action ReportView
replace_findings id principal version finding_ids call = do
  draft ← open_draft id principal version "API-RPT-004"
  require_linked_findings finding_ids draft.0.report.assessment_id draft.0.report.employer_id
  written ← update_report id version draft.1 call.now λ row. row
  updated ← or_conflict written draft.0.report.state_version version
  current ← gets λ db. memberships_of db id
  let present = map finding_id_of current
  let removed = select_where (λ f. not (includes f finding_ids)) present
  let added = select_where (λ f. not (includes f present)) finding_ids
  delete_memberships id removed
  insert_memberships id call.now (
      select_where (λ (entry : String × ℕ). not (includes entry.0 present))
        (numbered 0 finding_ids))
  place_retained id current (numbered 0 finding_ids)
  record_audit (
      report_audit principal call "API-RPT-004" updated (
        ("addedFindingIds", meta_texts added)
        ∷ ("removedFindingIds", meta_texts removed)
        ∷ ("stateVersion", meta_number updated.state_version)
        ∷ []))
  report_view updated
