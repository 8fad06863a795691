-- ===== src/Engagements/Reports/Release.antt =====
-- How a release of a report is refused
-- (src/modules/security-report/services/security-report.service.ts: release).
use cyber_hub_api.Engagements.Reports.Lock.{IsLinkedReport, lock_report-Settles}
use cyber_hub_api.Engagements.Access.Laws.{equal_of_not_differ}
use cyber_hub_api.Engagements.Reports.Review.{assert_report_file_policy_configured, release}
use cyber_hub_api.Workflow.Types.{report, WorkflowTransitionDefinition}
use cyber_hub_api.Workflow.Registry.{get_workflow_definition}
use cyber_hub_api.Engagements.Action.Settles.{
  by_raise, by_bind, rolled_back, by_raise_if, by_or_raise, Settles,
}
use cyber_hub_api.Workflow.Helper.{require_transition}
use cyber_hub_api.Engagements.Access.{is_admin, ReportContext}
use cyber_hub_api.Prelude.{
  ◌||◌, includes, Bool, List, ◌==◌, Option, [], ◌∷◌, sym, ℕ, String, ◌≡◌, refl, true, false, some,
  none, eq_iff, arith, str_eq, not, ap, subst,
}
use cyber_hub_api.Authorization.Types.{
  Role, role_admin, role_learner, role_business, role_mentor, role_consultant,
}
use cyber_hub_api.Engagements.Schema.{Database}
use cyber_hub_api.Engagements.Action.{
  AppException, AuthPrincipal, raised, run_in_transaction, permission_denied, not_found,
  state_version_conflict, workflow_conflict, file_policy_not_configured,
}

-- Why a release ends in an exception, one constructor for each exception.
pub data IsRefused (id : String) (principal : AuthPrincipal) (version : ℕ) (db : Database)
    : AppException → Type 0 where
  by_another_role :
      ¬ (principal.role ≡ role_admin) → IsRefused id principal version db permission_denied
  no_report :
      principal.role ≡ role_admin
      → ((row : ReportContext) → ¬ IsLinkedReport id db row)
      → IsRefused id principal version db not_found
  at_other_version :
      (row : ReportContext)
      → principal.role ≡ role_admin
      → IsLinkedReport id db row
      → ¬ (row.report.state_version ≡ version)
      → IsRefused id principal version db (state_version_conflict row.report.state_version)
  not_ready :
      (row : ReportContext)
      → principal.role ≡ role_admin
      → IsLinkedReport id db row
      → row.report.state_version ≡ version
      → ¬ ((row.report.status ≡ "READY_FOR_RELEASE") × (row.at.assessment.status ≡ "COMPLETED"))
      → IsRefused id principal version db workflow_conflict
  no_artifact :
      (row : ReportContext)
      → principal.role ≡ role_admin
      → IsLinkedReport id db row
      → row.report.state_version ≡ version
      → row.report.status ≡ "READY_FOR_RELEASE"
      → row.at.assessment.status ≡ "COMPLETED"
      → IsRefused id principal version db file_policy_not_configured

role_of_admin : (r : Role) → not (is_admin r) ≡ false → r ≡ role_admin
role_of_admin role_admin h = refl
role_of_admin role_learner h = absurd (ground arith)
role_of_admin role_business h = absurd (ground arith)
role_of_admin role_mentor h = absurd (ground arith)
role_of_admin role_consultant h = absurd (ground arith)

no_admin : (r : Role) → not (is_admin r) ≡ true → ¬ (r ≡ role_admin)
no_admin r h e = let stopped = subst (λ (r : Role). not (is_admin r) ≡ true) e h in ground arith

abbrev from_of : Option WorkflowTransitionDefinition → List String
from_of none = []
from_of (some step) = step.from

-- The state that WF-RPT-06 leaves.
release_from :
    {step : WorkflowTransitionDefinition}
    → require_transition report "WF-RPT-06" ≡ some step
    → step.from ≡ "READY_FOR_RELEASE" ∷ []
unfolding require_transition get_workflow_definition
release_from e = ap from_of (sym e)

release_registered : ¬ (require_transition report "WF-RPT-06" ≡ none)
unfolding require_transition get_workflow_definition
release_registered e = cc

-- The test of a report's state and of its assessment's.
abbrev unready : ReportContext → List String → Bool
unready row from =
    not (includes row.report.status from) || not (str_eq row.at.assessment.status "COMPLETED")

not_ready_of :
    (row : ReportContext)
    → unready row ("READY_FOR_RELEASE" ∷ []) ≡ true
    → ¬ ((row.report.status ≡ "READY_FOR_RELEASE") × (row.at.assessment.status ≡ "COMPLETED"))
not_ready_of row h (ready, completed) =
    let r = (eq_iff row.report.status "READY_FOR_RELEASE").1 ready in
    let c = (eq_iff row.at.assessment.status "COMPLETED").1 completed in ground arith

ready_of :
    (row : ReportContext)
    → unready row ("READY_FOR_RELEASE" ∷ []) ≡ false
    → (row.report.status ≡ "READY_FOR_RELEASE") × (row.at.assessment.status ≡ "COMPLETED")
ready_of row h = (
  sym ((eq_iff "READY_FOR_RELEASE" row.report.status).0 (ground arith)),
  (eq_iff row.at.assessment.status "COMPLETED").0 (ground arith),
)

differ_of : (a b : ℕ) → not (a == b) ≡ true → ¬ (a ≡ b)
differ_of a b h e = ground arith

release-Settles :
    (id : String) (principal : AuthPrincipal) (version : ℕ) (db : Database)
    → Settles (λ a left. ⊥) (IsRefused id principal version db) (release id principal version) db
unfolding release assert_report_file_policy_configured
release-Settles id principal version db =
    by_raise_if _ _ _ (λ other. by_another_role (no_admin principal.role other))
      λ same_role.
        let admin = role_of_admin principal.role same_role in
        by_bind _ _ (
          lock_report-Settles _ _ id principal db admin (no_report admin) λ row o.
            by_raise_if _ _ _ (λ stale. at_other_version row admin o (differ_of _ _ stale))
              λ current.
                let at_version = equal_of_not_differ _ _ current in
                by_or_raise _ _ _ (λ e. absurd (release_registered e))
                  λ step registered.
                    let from = release_from registered in
                    by_raise_if _ _ _
                      (λ h.
                        not_ready row admin o at_version
                          (not_ready_of row (subst (λ f. unready row f ≡ true) from h)))
                      λ h.
                        let (ready, completed) =
                          ready_of row (subst (λ f. unready row f ≡ false) from h) in
                        by_raise _ (no_artifact row admin o at_version ready completed))

-- A release never succeeds and leaves the database as it was, and its exception says why. Without
-- the admin role it is refused as not permitted. For an admin it is not found where the id names no
-- report whose assessment and request are its own, by id and by employer; it is a version conflict
-- with the report's version where that is not the one expected; it is a workflow conflict where the
-- report is not READY_FOR_RELEASE or its assessment is not COMPLETED; and where all of these hold,
-- the missing artifact policy stops it.
pub release-IsRefused :
    (id : String) (principal : AuthPrincipal) (version : ℕ) (db : Database)
    → (e : AppException) × (run_in_transaction (release id principal version) db ≡ (raised e, db))
      × IsRefused id principal version db e
release-IsRefused id principal version db =
    rolled_back (release id principal version) db (release-Settles id principal version db)
