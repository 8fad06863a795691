-- ===== src/Engagements/Consistency/Reachable.antt =====
-- What holds of every database that the operations on assessments, findings and reports reach.
use cyber_hub_api.Engagements.Reports.Review.{
  supersede, release, mark_ready, return_to_draft, submit_review,
}
use cyber_hub_api.Engagements.Reports.Drafts.{
  replace_findings, edit_report, ReportUpdateInput, create_report, ReportCreateInput,
}
use cyber_hub_api.Engagements.Reports.{ReportView}
use cyber_hub_api.Engagements.Reports.Laws.{release-Ensures}
use cyber_hub_api.Engagements.Findings.{
  finding_command, FindingCommand, edit_finding, FindingUpdateInput, create_finding,
  FindingCreateInput,
}
use cyber_hub_api.Engagements.Consistency.Membership.{replace_findings-Keeps}
use cyber_hub_api.Engagements.Consistency.Review.{
  supersede-Keeps, mark_ready-Keeps, return_to_draft-Keeps, submit_review-Keeps, edit_report-Keeps,
}
use cyber_hub_api.Engagements.Consistency.Drafts.{create_report-Keeps}
use cyber_hub_api.Engagements.Action.Rules.{of_returned}
use cyber_hub_api.Engagements.Assessments.{assessment_command, AssessmentCommand, create_assessment}
use cyber_hub_api.Engagements.Consistency.Work.{
  finding_command-Keeps, edit_finding-Keeps, create_finding-Ensures, assessment_command-Keeps,
  create_assessment-Keeps,
}
use cyber_hub_api.Engagements.Action.{returned, Call, AuthPrincipal}
use cyber_hub_api.Engagements.Action.Keeps.{kept}
use cyber_hub_api.Engagements.Consistency.{finding_key, key_id, IsConsistent}
use cyber_hub_api.Engagements.Schema.{VulnerabilityFinding, SecurityAssessment, Database}
use cyber_hub_api.Prelude.{List, map, includes, Option, ℕ, String, false, ◌≡◌}

-- One operation that returned; an operation that raises is rolled back. A new finding is given an
-- id that no finding has.
pub data Step : Database → Database → Type 0 where
  create_assessment_step :
      {db after : Database} {row : SecurityAssessment} (id : String) (principal : AuthPrincipal)
      (call : Call)
      → create_assessment id principal call db ≡ returned (row, after)
      → Step db after
  assessment_command_step :
      {db after : Database} {row : SecurityAssessment} (id : String) (version : ℕ)
      (principal : AuthPrincipal) (command : AssessmentCommand) (reason : Option String)
      (call : Call)
      → assessment_command id version principal command reason call db ≡ returned (row, after)
      → Step db after
  create_finding_step :
      {db after : Database} {row : VulnerabilityFinding} (id : String) (principal : AuthPrincipal)
      (input : FindingCreateInput) (call : Call)
      → includes call.new_id (map key_id (map finding_key db.findings)) ≡ false
      → create_finding id principal input call db ≡ returned (row, after)
      → Step db after
  edit_finding_step :
      {db after : Database} {row : VulnerabilityFinding} (id : String) (principal : AuthPrincipal)
      (input : FindingUpdateInput) (call : Call)
      → edit_finding id principal input call db ≡ returned (row, after)
      → Step db after
  finding_command_step :
      {db after : Database} {row : VulnerabilityFinding} (id : String) (version : ℕ)
      (principal : AuthPrincipal) (command : FindingCommand) (text : Option String) (call : Call)
      → finding_command id version principal command text call db ≡ returned (row, after)
      → Step db after
  create_report_step :
      {db after : Database} {view : ReportView} (assessment_id : String) (principal : AuthPrincipal)
      (input : ReportCreateInput) (call : Call)
      → create_report assessment_id principal input call db ≡ returned (view, after)
      → Step db after
  edit_report_step :
      {db after : Database} {view : ReportView} (id : String) (principal : AuthPrincipal)
      (input : ReportUpdateInput) (call : Call)
      → edit_report id principal input call db ≡ returned (view, after)
      → Step db after
  replace_findings_step :
      {db after : Database} {view : ReportView} (id : String) (principal : AuthPrincipal)
      (version : ℕ) (ids : List String) (call : Call)
      → replace_findings id principal version ids call db ≡ returned (view, after)
      → Step db after
  submit_review_step :
      {db after : Database} {view : ReportView} (id : String) (principal : AuthPrincipal)
      (version : ℕ) (call : Call)
      → submit_review id principal version call db ≡ returned (view, after)
      → Step db after
  return_to_draft_step :
      {db after : Database} {view : ReportView} (id : String) (principal : AuthPrincipal)
      (version : ℕ) (reason : String) (call : Call)
      → return_to_draft id principal version reason call db ≡ returned (view, after)
      → Step db after
  mark_ready_step :
      {db after : Database} {view : ReportView} (id : String) (principal : AuthPrincipal)
      (version : ℕ) (call : Call)
      → mark_ready id principal version call db ≡ returned (view, after)
      → Step db after
  release_step :
      {db after : Database} {view : ReportView} (id : String) (principal : AuthPrincipal)
      (version : ℕ)
      → release id principal version db ≡ returned (view, after)
      → Step db after
  supersede_step :
      {db after : Database} {view : ReportView} (id : String) (principal : AuthPrincipal)
      (version : ℕ) (replacement_id : String) (call : Call)
      → supersede id principal version replacement_id call db ≡ returned (view, after)
      → Step db after

pub data Reaches : Database → Database → Type 0 where
  here : {db : Database} → Reaches db db
  then_step :
      {db between after : Database} → Reaches db between → Step between after → Reaches db after

pub Step-IsConsistent : {db after : Database} → Step db after → IsConsistent db → IsConsistent after
Step-IsConsistent (create_assessment_step id principal call e) h =
    kept (create_assessment-Keeps id principal call) e h
Step-IsConsistent (assessment_command_step id version principal command reason call e) h =
    kept (assessment_command-Keeps id version principal command reason call) e h
Step-IsConsistent {db} (create_finding_step id principal input call fresh e) h =
    of_returned (create_finding-Ensures id principal input call db fresh h) e
Step-IsConsistent (edit_finding_step id principal input call e) h =
    kept (edit_finding-Keeps id principal input call) e h
Step-IsConsistent (finding_command_step id version principal command text call e) h =
    kept (finding_command-Keeps id version principal command text call) e h
Step-IsConsistent (create_report_step id principal input call e) h =
    kept (create_report-Keeps id principal input call) e h
Step-IsConsistent (edit_report_step id principal input call e) h =
    kept (edit_report-Keeps id principal input call) e h
Step-IsConsistent (replace_findings_step id principal version ids call e) h =
    kept (replace_findings-Keeps id principal version ids call) e h
Step-IsConsistent (submit_review_step id principal version call e) h =
    kept (submit_review-Keeps id principal version call) e h
Step-IsConsistent (return_to_draft_step id principal version reason call e) h =
    kept (return_to_draft-Keeps id principal version reason call) e h
Step-IsConsistent (mark_ready_step id principal version call e) h =
    kept (mark_ready-Keeps id principal version call) e h
Step-IsConsistent {db} (release_step id principal version e) h =
    absurd (of_returned (release-Ensures id principal version db) e)
Step-IsConsistent (supersede_step id principal version replacement_id call e) h =
    kept (supersede-Keeps id principal version replacement_id call) e h

-- From a consistent database every sequence of operations on assessments, findings and reports
-- leads to a consistent one: no two reports of an assessment have one version number, no two
-- findings have one id, and every membership joins a report and a finding of one assessment and
-- one employer.
pub Reaches-IsConsistent :
    {db after : Database} → Reaches db after → IsConsistent db → IsConsistent after
Reaches-IsConsistent here h = h
Reaches-IsConsistent (then_step before step) h =
    Step-IsConsistent step (Reaches-IsConsistent before h)
