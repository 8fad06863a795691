-- ===== src/Engagements/Reports/Laws.antt =====
-- What the operations on a report may do.
use cyber_hub_api.Engagements.Access.Laws.{lock_assessment-Ensures}
use cyber_hub_api.Engagements.Action.Rules.{
  on_pure, after_require, after_gets, on_raise, after_or_raise, weaken, after, after_raise_if,
  Ensures,
}
use cyber_hub_api.Engagements.Action.Keeps.{keeps_rules, Keeps}
use cyber_hub_api.Engagements.Schema.{Database}
use cyber_hub_api.Engagements.Reports.Review.{assert_report_file_policy_configured, release}
use cyber_hub_api.Engagements.Action.{AuthPrincipal}
use cyber_hub_api.Engagements.Reports.{report_linked, require_linked_findings, lock_report}
use cyber_hub_api.Engagements.Access.{
  require_assessment_access, find_report, ReportContext, lock_assessment,
}
use cyber_hub_api.Prelude.{ℕ, List, String, ◌≡◌, none, some, true, arith}

pub require_linked_findings-Keeps :
    {P : Database → Type 0} (ids : List String) (assessment_id employer_id : String)
    → Keeps P (require_linked_findings ids assessment_id employer_id)
unfolding require_linked_findings
require_linked_findings-Keeps ids assessment_id employer_id = search keeps_rules depth 30 fits 3000

pub lock_assessment-Keeps : {P : Database → Type 0} (id : String) → Keeps P (lock_assessment id)
unfolding lock_assessment
lock_assessment-Keeps id = search keeps_rules depth 30 fits 3000

pub lock_report-Keeps :
    {P : Database → Type 0} (id : String) (principal : AuthPrincipal)
    → Keeps P (lock_report id principal)
unfolding lock_report
lock_report-Keeps id principal = search (keeps_rules, lock_assessment-Keeps) depth 30 fits 3000

pub release-Ensures :
    (id : String) (principal : AuthPrincipal) (version : ℕ) (db : Database)
    → Ensures (λ a left. ⊥) (release id principal version) db
unfolding release assert_report_file_policy_configured
release-Ensures id principal version db = after_raise_if _ _ _ λ _. after _ _ (
    weaken
      (λ row between _.
        after_raise_if _ _ _ λ _. after_or_raise _ _ _ λ _ _. after_raise_if _ _ _ λ _. on_raise _)
      ((lock_report-Keeps {P = λ _. Unit} id principal).keeps db tt))

pub lock_report-Ensures {ℓ} :
    (id : String) (principal : AuthPrincipal) (db : Database)
    {Q : ReportContext → Database → Type ℓ}
    → ((row : ReportContext)
        → find_report id db ≡ some row
        → report_linked row ≡ true
        → require_assessment_access row.at principal ≡ none
        → Q row db)
    → Ensures Q (lock_report id principal) db
unfolding lock_report
lock_report-Ensures id principal db h = after_gets _ _ (
    after_or_raise _ _ _ λ initial _. after _ _ (
      lock_assessment-Ensures _ db λ locked _. after_gets _ _ (
        after_or_raise _ _ _ λ row found. after_raise_if _ _ _ λ linked.
          after_require _ _ λ accessible. on_pure row (h row found (ground arith) accessible))))
