-- ===== src/Engagements/Reports/Supersession.antt =====
-- What a supersession of a report writes.
use cyber_hub_api.Engagements.Schema.Writes.{IsWrite, Columns, IsGuarded, returning-IsWrite}
use cyber_hub_api.Engagements.Schema.Laws.{kept_where, written_where, returning-Written}
use cyber_hub_api.Workflow.Helper.{require_transition}
use cyber_hub_api.Engagements.Access.Laws.{find_report_at, equal_of_not_differ}
use cyber_hub_api.Workflow.Types.{report, WorkflowTransitionDefinition}
use cyber_hub_api.Engagements.Reports.Laws.{lock_report-Ensures}
use cyber_hub_api.Engagements.Access.{
  require_assessment_access, find_report, ReportContext, is_admin,
}
use cyber_hub_api.Engagements.Action.Rules.{
  on_pure, after_modify, after, after_or_raise, after_gets, of_returned, after_raise_if, Ensures,
}
use cyber_hub_api.Engagements.Schema.{update_where, returning, Database, SecurityReport}
use cyber_hub_api.Engagements.Action.{returned, Call, AuthPrincipal}
use cyber_hub_api.Engagements.Reports.{
  report_linked, set_report, report_matches, ReportView, report_view, update_report,
}
use cyber_hub_api.Engagements.Reports.Review.{
  can_replace, set_lineage, takes_lineage, supersede, record_lineage,
}
use cyber_hub_api.Prelude.{
  other_sym, sym, ◌∙◌, ap, subst, is_none, ◌<◌, str_eq, eq_iff, Memᴰ, Option, List, ℕ, String, refl,
  some, true, arith, ◌≡◌, none, false,
}

abbrev report_columns : Columns SecurityReport
report_columns = record { key = λ r. r.id; version = λ r. r.state_version; status = λ r. r.status }

abbrev superseding : ℕ → String → SecurityReport → SecurityReport
superseding now to = set_report now (λ r. record r { status = to })

superseding-IsGuarded :
    (id : String) (version : ℕ) (from : List String) (now : ℕ) (to : String)
    → IsGuarded report_columns id version from (report_matches id version from) (superseding now to)
superseding-IsGuarded id version from now to = record {
  tests_key = λ r hit. ground arith;
  tests_version = λ r hit. ground arith;
  tests_state = λ r hit. ground arith;
  keeps_key = λ r. refl;
  counts_version = λ r. refl;
}

-- The report that takes the place of another.
pub record IsReplacement (replacement old : SecurityReport) : Type 0 where
  pub released : replacement.status ≡ "RELEASED"
  pub later : old.version_no < replacement.version_no
  pub same_assessment : replacement.assessment_id ≡ old.assessment_id
  pub same_employer : replacement.employer_id ≡ old.employer_id
  pub another : str_eq replacement.id old.id ≡ false
  pub first_lineage : is_none replacement.supersedes_report_id ≡ true

can_replace_sound :
    (replacement : ReportContext) (old : SecurityReport)
    → can_replace replacement old ≡ true
    → IsReplacement replacement.report old
unfolding can_replace
can_replace_sound replacement old h = record {
  released = (eq_iff replacement.report.status "RELEASED").0 (ground arith);
  later = ground arith;
  same_assessment = (eq_iff replacement.report.assessment_id old.assessment_id).0 (ground arith);
  same_employer = (eq_iff replacement.report.employer_id old.employer_id).0 (ground arith);
  another = ground arith;
  first_lineage = ground arith;
}

pub record IsSuperseded (id : String) (principal : AuthPrincipal) (version : ℕ)
    (replacement_id : String) (call : Call) (db : Database) (view : ReportView) (after : Database)
    : Type 0 where
  pub by_admin : is_admin principal.role ≡ true
  pub context : ReportContext
  pub found : find_report id db ≡ some context
  pub linked : report_linked context ≡ true
  pub accessible : require_assessment_access context.at principal ≡ none
  pub at_version : context.report.state_version ≡ version
  pub replacement : ReportContext
  pub replacement_found : find_report replacement_id db ≡ some replacement
  pub replaces : IsReplacement replacement.report context.report
  pub step : WorkflowTransitionDefinition
  pub registered : require_transition report "WF-RPT-07" ≡ some step
  pub between : List SecurityReport
  pub written :
      IsWrite report_columns id version step.from
        (superseding call.now step.to)
        db.reports
        between
        view.report
  pub superseded_row : Memᴰ view.report after.reports
  pub lineage : SecurityReport
  pub lineage_row : Memᴰ lineage after.reports
  pub lineage_key : lineage.id ≡ replacement.report.id
  pub lineage_to : lineage.supersedes_report_id ≡ some id

update_report-Ensures {ℓ} :
    (id : String) (version : ℕ) (from : List String) (now : ℕ)
    (fields : SecurityReport → SecurityReport) (db : Database)
    {Q : Option SecurityReport → Database → Type ℓ}
    → Q (returning (report_matches id version from) (set_report now fields) db.reports) (record db {
      reports = update_where (report_matches id version from) (set_report now fields) db.reports;
    })
    → Ensures Q (update_report id version from now fields) db
unfolding update_report
update_report-Ensures id version from now fields db h =
    after_gets _ _ (after_modify _ _ (on_pure _ h))

record_lineage-Ensures {ℓ} :
    (replacement_id : String) (old : SecurityReport) (db : Database)
    {Q : Option SecurityReport → Database → Type ℓ}
    → Q (returning (takes_lineage replacement_id old) (set_lineage old) db.reports) (record db {
      reports = update_where (takes_lineage replacement_id old) (set_lineage old) db.reports;
    })
    → Ensures Q (record_lineage replacement_id old) db
unfolding record_lineage
record_lineage-Ensures replacement_id old db h = after_gets _ _ (after_modify _ _ (on_pure _ h))

-- The write of the lineage does not meet the report that was superseded.
not_own_lineage :
    (id : String) (db : Database) (row : ReportContext) (replacement old : SecurityReport)
    → find_report id db ≡ some row
    → old.id ≡ id
    → str_eq replacement.id row.report.id ≡ false
    → takes_lineage replacement.id old old ≡ false
not_own_lineage id db row replacement old found own apart =
    let (_, key) = find_report_at id db found in
    let other : str_eq replacement.id old.id ≡ false =
      subst (λ k. str_eq replacement.id k ≡ false) (key ∙ sym own) apart in
    let turned = other_sym replacement.id old.id other in ground arith

supersede-Ensures :
    (id : String) (principal : AuthPrincipal) (version : ℕ) (replacement_id : String) (call : Call)
    (db : Database)
    → Ensures
        (IsSuperseded id principal version replacement_id call db)
        (supersede id principal version replacement_id call)
        db
unfolding supersede report_view
supersede-Ensures id principal version replacement_id call db = after_raise_if _ _ _ λ admin.
    after_gets _ _ (
      after_or_raise _ _ _ λ initial _. after _ _ (
        lock_report-Ensures id principal db λ row found linked accessible.
          after_raise_if _ _ _ λ same. after_or_raise _ _ _ λ step registered.
            after_raise_if _ _ _ λ in_state. after_gets _ _ (
              after_or_raise _ _ _ λ replacement replacement_found. after_raise_if _ _ _ λ replaces.
                after _ _ (
                  update_report-Ensures id version step.from call.now _ db (
                    after_or_raise _ _ _ λ old superseded. after _ _ (
                      record_lineage-Ensures replacement.report.id old _ (
                        after_or_raise _ _ _ λ lineage taken. after_modify _ _ (
                          after_gets _ _ (
                            on_pure _ (
                              let w =
                                returning-IsWrite report_columns id version step.from _ _
                                  (superseding-IsGuarded id version step.from call.now step.to)
                                  db.reports superseded in
                              let replaced =
                                can_replace_sound replacement row.report (ground arith) in
                              let l =
                                returning-Written (takes_lineage replacement.report.id old)
                                  (set_lineage old)
                                  (update_where (report_matches id version step.from)
                                    (superseding call.now step.to) db.reports)
                                  taken in
                              let key : str_eq l.old.id replacement.report.id ≡ true =
                                (let hit = l.tested in ground arith) in
                              record {
                                by_admin = ground arith;
                                context = row;
                                found = found;
                                linked = linked;
                                accessible = accessible;
                                at_version = equal_of_not_differ _ _ same;
                                replacement = replacement;
                                replacement_found = replacement_found;
                                replaces = replaced;
                                step = step;
                                registered = registered;
                                between = _;
                                written = w;
                                superseded_row = kept_where _ (set_lineage old) _ w.updated_row (
                                    not_own_lineage id db row replacement.report old found
                                      w.same_key replaced.another);
                                lineage = lineage;
                                lineage_row = written_where _ (set_lineage old) _ taken;
                                lineage_key =
                                    ap (λ (r : SecurityReport). r.id) l.changed
                                    ∙ (eq_iff l.old.id replacement.report.id).0 key;
                                lineage_to =
                                    ap (λ (r : SecurityReport). r.supersedes_report_id) l.changed
                                    ∙ ap (λ (k : String). some k) w.same_key;
                              }))))))))))

-- A supersession that returned was run by an admin at the report's version, with a replacement that
-- is another released report of the same assessment and employer, of a higher version number and
-- without a predecessor. The registry has WF-RPT-07; the report, in a state that it leaves, was
-- moved to the state that it enters with the next version, and the replacement names the report as
-- its predecessor.
pub supersede-IsSuperseded :
    (id : String) (principal : AuthPrincipal) (version : ℕ) (replacement_id : String) (call : Call)
    (db : Database) {view : ReportView} {after : Database}
    → supersede id principal version replacement_id call db ≡ returned (view, after)
    → IsSuperseded id principal version replacement_id call db view after
supersede-IsSuperseded id principal version replacement_id call db h =
    of_returned (supersede-Ensures id principal version replacement_id call db) h
