-- ===== src/Engagements/Consistency/Review.antt =====
-- Edits and reviews of reports keep a database consistent.
use cyber_hub_api.Engagements.Schema.Laws.{map-update_where}
use cyber_hub_api.Engagements.Consistency.Membership.{update_report-Keys}
use cyber_hub_api.Engagements.Consistency.Drafts.{report_view-Keeps}
use cyber_hub_api.Engagements.Consistency.Work.{record_audit-Keeps}
use cyber_hub_api.Engagements.Consistency.{finding_key, AreConsistent, report_key, IsConsistent}
use cyber_hub_api.Engagements.Action.{Call, AuthPrincipal}
use cyber_hub_api.Engagements.Schema.{MetaValue, SecurityReport}
use cyber_hub_api.Engagements.Reports.Laws.{lock_report-Keeps}
use cyber_hub_api.Engagements.Reports.{update_report}
use cyber_hub_api.Engagements.Action.Keeps.{
  Keeps-pure, Keeps-modify, Keeps-gets, Keeps-raise_if, Keeps-or_raise, Keeps-bind, Keeps,
  keeps_rules,
}
use cyber_hub_api.Engagements.Reports.Drafts.{
  updated_fields, ReportUpdateInput, open_draft, edit_report,
}
use cyber_hub_api.Engagements.Reports.Review.{
  set_lineage, require_reviewable_content, supersede, mark_ready, return_to_draft, record_lineage,
  submit_review, run_transition,
}
use cyber_hub_api.Prelude.{sym, map, subst, List, ℕ, String, refl, ◌≡◌, some}

update_report-Keeps :
    (id : String) (version : ℕ) (from : List String) (now : ℕ)
    (fields : SecurityReport → SecurityReport)
    → ((r : SecurityReport) → report_key (fields r) ≡ report_key r)
    → Keeps IsConsistent (update_report id version from now fields)
unfolding update_report
update_report-Keeps id version from now fields same = Keeps-bind _ _ (Keeps-gets _) λ written.
    Keeps-bind _ _
      (Keeps-modify _ λ db h.
        subst (λ ks. AreConsistent ks (map finding_key db.findings) db.memberships)
          (sym (update_report-Keys id version from now fields same db.reports)) h)
      λ _. Keeps-pure written

open_draft-Keeps :
    (id : String) (principal : AuthPrincipal) (version : ℕ) (api_id : String)
    → Keeps IsConsistent (open_draft id principal version api_id)
unfolding open_draft
open_draft-Keeps id principal version api_id =
    search (keeps_rules, lock_report-Keeps) depth 30 fits 3000

pub edit_report-Keeps :
    (id : String) (principal : AuthPrincipal) (input : ReportUpdateInput) (call : Call)
    → Keeps IsConsistent (edit_report id principal input call)
unfolding edit_report
edit_report-Keeps id principal input call =
    Keeps-bind _ _ (open_draft-Keeps id principal _ _) λ draft.
      Keeps-bind _ _ (update_report-Keeps id _ draft.1 call.now (updated_fields input) λ r. refl)
        λ written.
          Keeps-bind _ _ (Keeps-or_raise written _)
            λ updated. Keeps-bind _ _ (record_audit-Keeps _) λ _. report_view-Keeps updated

run_transition-Keeps :
    (row : SecurityReport) (principal : AuthPrincipal) (api_id transition_id : String) (version : ℕ)
    (fields : SecurityReport → SecurityReport) (metadata : List (String × MetaValue)) (call : Call)
    → ((r : SecurityReport) → report_key (fields r) ≡ report_key r)
    → Keeps IsConsistent
        (run_transition row principal api_id transition_id version fields metadata call)
unfolding run_transition
run_transition-Keeps row principal api_id transition_id version fields metadata call same =
    Keeps-bind _ _ (Keeps-or_raise _ _) λ step.
      Keeps-bind _ _
        (update_report-Keeps row.id version step.from call.now _
          λ r. same (record r { status = step.to }))
        λ written.
          Keeps-bind _ _ (Keeps-or_raise written _)
            λ updated. Keeps-bind _ _ (record_audit-Keeps _) λ _. report_view-Keeps updated

require_reviewable_content-Keeps :
    (r : SecurityReport) → Keeps IsConsistent (require_reviewable_content r)
unfolding require_reviewable_content
require_reviewable_content-Keeps r = search keeps_rules depth 30 fits 3000

plain_transition-Keeps :
    (row : SecurityReport) (principal : AuthPrincipal) (api_id transition_id : String) (version : ℕ)
    (metadata : List (String × MetaValue)) (call : Call)
    → Keeps IsConsistent
        (run_transition row principal api_id transition_id version (λ r. r) metadata call)
plain_transition-Keeps row principal api_id transition_id version metadata call =
    run_transition-Keeps row principal api_id transition_id version _ metadata call λ r. refl

reviewed_transition-Keeps :
    (row : SecurityReport) (principal : AuthPrincipal) (api_id transition_id : String) (version : ℕ)
    (metadata : List (String × MetaValue)) (call : Call)
    → Keeps IsConsistent (
        run_transition row principal api_id transition_id version
          (λ r. record r { reviewed_by_user_id = some principal.user_id })
          metadata
          call)
reviewed_transition-Keeps row principal api_id transition_id version metadata call =
    run_transition-Keeps row principal api_id transition_id version _ metadata call λ r. refl

ruleset review_rules = (
  keeps_rules, lock_report-Keeps, require_reviewable_content-Keeps, plain_transition-Keeps,
  reviewed_transition-Keeps,
)

pub submit_review-Keeps :
    (id : String) (principal : AuthPrincipal) (version : ℕ) (call : Call)
    → Keeps IsConsistent (submit_review id principal version call)
unfolding submit_review
submit_review-Keeps id principal version call = search review_rules depth 40 fits 5000

pub mark_ready-Keeps :
    (id : String) (principal : AuthPrincipal) (version : ℕ) (call : Call)
    → Keeps IsConsistent (mark_ready id principal version call)
unfolding mark_ready
mark_ready-Keeps id principal version call = search review_rules depth 40 fits 5000

pub return_to_draft-Keeps :
    (id : String) (principal : AuthPrincipal) (version : ℕ) (reason : String) (call : Call)
    → Keeps IsConsistent (return_to_draft id principal version reason call)
unfolding return_to_draft
return_to_draft-Keeps id principal version reason call = search review_rules depth 40 fits 5000

record_lineage-Keeps :
    (replacement_id : String) (old : SecurityReport)
    → Keeps IsConsistent (record_lineage replacement_id old)
unfolding record_lineage
record_lineage-Keeps replacement_id old = Keeps-bind _ _ (Keeps-gets _) λ written.
    Keeps-bind _ _
      (Keeps-modify _ λ db h.
        subst (λ ks. AreConsistent ks (map finding_key db.findings) db.memberships)
          (sym (map-update_where _ (set_lineage old) report_key (λ r. refl) db.reports)) h)
      λ _. Keeps-pure written

pub supersede-Keeps :
    (id : String) (principal : AuthPrincipal) (version : ℕ) (replacement_id : String) (call : Call)
    → Keeps IsConsistent (supersede id principal version replacement_id call)
unfolding supersede
supersede-Keeps id principal version replacement_id call = Keeps-bind _ _ (Keeps-raise_if _ _) λ _.
    Keeps-bind _ _ (Keeps-gets _) λ found. Keeps-bind _ _ (Keeps-or_raise found _) λ initial.
      Keeps-bind _ _ (lock_report-Keeps id principal) λ row.
        Keeps-bind _ _ (Keeps-raise_if _ _) λ _. Keeps-bind _ _ (Keeps-or_raise _ _) λ step.
          Keeps-bind _ _ (Keeps-raise_if _ _) λ _. Keeps-bind _ _ (Keeps-gets _) λ other.
            Keeps-bind _ _ (Keeps-or_raise other _) λ replacement.
              Keeps-bind _ _ (Keeps-raise_if _ _) λ _.
                Keeps-bind _ _ (update_report-Keeps id version step.from call.now _ λ r. refl)
                  λ written. Keeps-bind _ _ (Keeps-or_raise written _) λ updated.
                    Keeps-bind _ _ (record_lineage-Keeps _ updated) λ lineage.
                      Keeps-bind _ _ (Keeps-or_raise lineage _)
                        λ _. Keeps-bind _ _ (record_audit-Keeps _) λ _. report_view-Keeps updated
