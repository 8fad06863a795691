-- ===== src/Engagements/Reports.antt =====
-- The reports of an assessment
-- (src/modules/security-report/services/security-report.service.ts): what its operations share, and
-- the statements of security-report.repository.ts. The locks on rows have no effect here.
pub mod Drafts
pub mod Review
pub mod Lock
pub mod Release
pub mod Laws
pub mod Versions
pub mod Supersession
use cyber_hub_api.Workflow.Operations.{get_workflow_operation_mapping}
use cyber_hub_api.Engagements.Findings.{guarded_states}
use cyber_hub_api.Engagements.Access.{
  require_assessment_access, lock_assessment, find_report, finding_by_key, ReportContext,
}
use cyber_hub_api.Engagements.Schema.{
  json_array_content, json_scalar, update_where, meta_text, returning, AuditLog, MetaValue,
  json_object, VulnerabilityFinding, select_where, SecurityReport, ReportFinding, Database,
  JsonContent,
}
use cyber_hub_api.Engagements.Action.{
  require, internal_error, domain_validation, not_found, modify, permission_denied, pure, gets,
  raise_if, or_raise, Action, Call, AuthPrincipal, ◌>>=◌, ◌>>◌,
}
use Prim.Native.Nat.{Ordering}
use Prim.Native.String.{compare as text_compare}
use cyber_hub_api.Prelude.{
  ◌||◌, unique, not, ◌==◌, leb, false, Option, if◌then◌else◌, ltb, includes, ◌&&◌, str_eq, map,
  length, ◌∷◌, suc, some_of, String, List, Bool, ℕ, [], none, some, true, refl, inl, inr, arith,
  ◌≡◌,
}

-- `reportLinked`
unfoldable pub report_linked : ReportContext → Bool
report_linked row =
    str_eq row.report.assessment_id row.at.assessment.id
    && str_eq row.report.employer_id row.at.assessment.employer_id
    && str_eq row.at.assessment.employer_id row.at.request.employer_id

-- `hasReportContent`
unfoldable pub has_report_content : JsonContent → Bool
has_report_content (json_object keys) = ltb 0 (length keys)
has_report_content json_array_content = false
has_report_content json_scalar = false

-- `editGuard`
abbrev pub edit_guard_states : String → Action (List String)
edit_guard_states api_id =
    or_raise (guarded_states (get_workflow_operation_mapping api_id)) internal_error

abbrev pub require_role : Bool → Action (Unit {0})
require_role allowed = raise_if (not allowed) permission_denied

abbrev pub report_audit :
    AuthPrincipal → Call → String → SecurityReport → List (String × MetaValue) → AuditLog
report_audit principal call api_id row metadata = record {
  actor_user_id = principal.user_id;
  actor_role = principal.role;
  action = "security.report.mutated";
  entity_type = "report";
  entity_id = row.id;
  employer_id = row.employer_id;
  request_id = call.request_id;
  metadata = ("apiId", meta_text api_id) ∷ ("assessmentId", meta_text row.assessment_id) ∷ metadata;
}

abbrev pub of_assessment : String → SecurityReport → Bool
of_assessment assessment_id r = str_eq r.assessment_id assessment_id

abbrev pub max_version : List SecurityReport → ℕ
max_version [] = 0
max_version (r ∷ rows) =
    let rest = max_version rows in if ltb rest r.version_no then r.version_no else rest

-- SecurityReportRepository.nextVersionNo
unfoldable pub next_version_no : Database → String → ℕ
next_version_no db assessment_id =
    suc (max_version (select_where (of_assessment assessment_id) db.reports))

-- The constraint security_reports_assessment_version_key
unfoldable pub version_taken : Database → String → ℕ → Bool
version_taken db assessment_id version_no =
    some_of (λ (r : SecurityReport). of_assessment assessment_id r && r.version_no == version_no)
      db.reports

abbrev pub is_linked : List String → String → String → VulnerabilityFinding → Bool
is_linked ids assessment_id employer_id f =
    includes f.id ids && str_eq f.assessment_id assessment_id && str_eq f.employer_id employer_id

-- SecurityReportRepository.linkedFindingIds
abbrev pub linked_finding_ids : Database → List String → String → String → List String
linked_finding_ids db ids assessment_id employer_id =
    map (λ (f : VulnerabilityFinding). f.id)
      (select_where (is_linked ids assessment_id employer_id) db.findings)

-- `requireLinkedFindings`
unfoldable pub require_linked_findings : List String → String → String → Action (Unit {0})
require_linked_findings finding_ids assessment_id employer_id = do
  raise_if (not (length (unique finding_ids) == length finding_ids)) domain_validation
  linked ← gets λ db. linked_finding_ids db finding_ids assessment_id employer_id
  raise_if (not (length linked == length (unique finding_ids))) domain_validation
  pure tt

abbrev pub of_report : String → ReportFinding → Bool
of_report report_id m = str_eq m.report_id report_id

abbrev has_finding : Database → ReportFinding → Bool
has_finding db m = elim (finding_by_key db m.finding_id) [ none ↦ false | some f ↦ true ]

-- The order of ids, which are of one form and length, as texts.
abbrev id_leb : String → String → Bool
id_leb a b = elim (text_compare a b) [ Ordering.gt ↦ false | _ ↦ true ]

-- ORDER BY sortOrder, findingId
abbrev in_order : ReportFinding → ReportFinding → Bool
in_order m n =
    ltb m.sort_order n.sort_order
    || m.sort_order == n.sort_order && id_leb m.finding_id n.finding_id

abbrev insert_by_order : ReportFinding → List ReportFinding → List ReportFinding
insert_by_order m [] = m ∷ []
insert_by_order m (n ∷ rows) =
    let rest = insert_by_order m rows in if in_order m n then m ∷ n ∷ rows else n ∷ rest

abbrev by_sort_order : List ReportFinding → List ReportFinding
by_sort_order [] = []
by_sort_order (m ∷ rows) = insert_by_order m (by_sort_order rows)

-- SecurityReportRepository.memberships: those whose finding exists, in their order.
unfoldable pub memberships_of : Database → String → List ReportFinding
memberships_of db report_id =
    by_sort_order (select_where (λ m. of_report report_id m && has_finding db m) db.memberships)

-- SecurityReportRepository.membershipCount
abbrev pub membership_count : Database → String → ℕ
membership_count db report_id = length (select_where (of_report report_id) db.memberships)

-- `view`: the columns of the report with its memberships.
pub record ReportView : Type 0 where
  pub report : SecurityReport
  pub included_findings : List ReportFinding

unfoldable pub report_view : SecurityReport → Action ReportView
report_view row = do
  included ← gets λ db. memberships_of db row.id
  pure record { report = row; included_findings = included }

-- `lockReport`
unfoldable pub lock_report : String → AuthPrincipal → Action ReportContext
lock_report id principal = do
  initial ← or_raise (← gets (find_report id)) not_found
  locked ← lock_assessment initial.report.assessment_id
  row ← or_raise (← gets (find_report id)) not_found
  raise_if (not (report_linked row)) not_found
  require (require_assessment_access row.at principal)
  pure row

abbrev pub report_matches : String → ℕ → List String → SecurityReport → Bool
report_matches id version from row =
    str_eq row.id id && row.state_version == version && includes row.status from

abbrev pub set_report : ℕ → (SecurityReport → SecurityReport) → SecurityReport → SecurityReport
set_report now fields row = record (fields row) {
  state_version = suc row.state_version;
  updated_at = now;
}

-- SecurityReportRepository.update
unfoldable pub update_report :
    String
    → ℕ
    → List String
    → ℕ
    → (SecurityReport → SecurityReport)
    → Action (Option SecurityReport)
update_report id version from now fields = do
  let test = report_matches id version from
  let change = set_report now fields
  written ← gets λ db. returning test change db.reports
  modify λ db. record db { reports = update_where test change db.reports }
  pure written
