-- ===== src/Engagements/Consistency/Work.antt =====
-- The operations on assessments and findings keep a database consistent.
use cyber_hub_api.Engagements.Consistency.Laws.{AreConsistent-finding}
use cyber_hub_api.Engagements.Access.Laws.{require_scope-Ensures, lock_assessment-Ensures}
use cyber_hub_api.Engagements.Schema.Laws.{map-update_where}
use cyber_hub_api.Engagements.Action.Rules.{
  on_pure, after_modify, after_or_raise, after_require, after, Ensures,
}
use cyber_hub_api.Engagements.Action.{Action, Call, record_audit, modify, AuthPrincipal}
use cyber_hub_api.Engagements.Consistency.{
  report_key, key_id, AreConsistent, finding_key, IsConsistent,
}
use cyber_hub_api.Engagements.Reports.Laws.{lock_assessment-Keeps}
use cyber_hub_api.Engagements.Action.Keeps.{
  Keeps-or_raise, Keeps-pure, Keeps-require, Keeps-modify, Keeps-gets, Keeps-bind, Keeps,
  keeps_rules,
}
use cyber_hub_api.Engagements.Schema.{Database, VulnerabilityFinding, AuditLog, SecurityAssessment}
use cyber_hub_api.Engagements.Access.{FindingContext, require_creation_scope, require_scope}
use cyber_hub_api.Engagements.Findings.{
  start_remediation, resolve, reopen, set_finding, finding_matches, Applied, finding_fields,
  FindingCreateInput, FindingUpdateInput, apply_command, apply_edit, update_finding, edit_finding,
  finding_command, mutate_finding, create_finding, FindingCommand,
}
use cyber_hub_api.Engagements.Assessments.{
  AssessmentCommand, update_assessment, assessment_command, create_assessment,
}
use mathlib.Core.List.{map-append}
use cyber_hub_api.Prelude.{
  sym, map, subst, includes, ◌++◌, Option, List, String, ℕ, refl, [], ◌∷◌, false, ◌≡◌,
}

update_assessment-Keeps :
    (id : String) (version : ℕ) (from : List String) (now : ℕ)
    (fields : SecurityAssessment → SecurityAssessment)
    → Keeps IsConsistent (update_assessment id version from now fields)
unfolding update_assessment
update_assessment-Keeps id version from now fields =
    Keeps-bind _ _ (Keeps-gets _)
      λ written. Keeps-bind _ _ (Keeps-modify _ λ db h. h) λ _. Keeps-pure written

pub record_audit-Keeps : (row : AuditLog) → Keeps IsConsistent (record_audit row)
record_audit-Keeps row = Keeps-modify _ λ db h. h

pub require_scope-Keeps : (now : ℕ) (id : String) → Keeps IsConsistent (require_scope now id)
unfolding require_scope
require_scope-Keeps now id = search keeps_rules depth 30 fits 3000

pub require_creation_scope-Keeps :
    (now : ℕ) (id : String) → Keeps IsConsistent (require_creation_scope now id)
unfolding require_creation_scope
require_creation_scope-Keeps now id = search keeps_rules depth 30 fits 3000

ruleset work_rules = (
  keeps_rules, lock_assessment-Keeps, record_audit-Keeps, require_scope-Keeps,
  require_creation_scope-Keeps,
)

pub assessment_command-Keeps :
    (id : String) (version : ℕ) (principal : AuthPrincipal) (command : AssessmentCommand)
    (reason : Option String) (call : Call)
    → Keeps IsConsistent (assessment_command id version principal command reason call)
unfolding assessment_command
assessment_command-Keeps id version principal command reason call =
    search (work_rules, update_assessment-Keeps) depth 40 fits 5000

insert_assessment-Keeps :
    (row : SecurityAssessment)
    → Keeps IsConsistent (modify λ db. record db { assessments = db.assessments ++ row ∷ [] })
insert_assessment-Keeps row = Keeps-modify _ λ db h. h

pub create_assessment-Keeps :
    (id : String) (principal : AuthPrincipal) (call : Call)
    → Keeps IsConsistent (create_assessment id principal call)
unfolding create_assessment
create_assessment-Keeps id principal call =
    search (work_rules, insert_assessment-Keeps) depth 40 fits 5000

update_finding-Keeps :
    (id : String) (version : ℕ) (from : List String) (now : ℕ)
    (fields : VulnerabilityFinding → VulnerabilityFinding)
    → ((f : VulnerabilityFinding) → finding_key (fields f) ≡ finding_key f)
    → Keeps IsConsistent (update_finding id version from now fields)
unfolding update_finding
update_finding-Keeps id version from now fields same = Keeps-bind _ _ (Keeps-gets _) λ written.
    Keeps-bind _ _
      (Keeps-modify _ λ db h.
        subst (λ ks. AreConsistent (map report_key db.reports) ks db.memberships)
          (sym (
            map-update_where (finding_matches id version from) (set_finding now fields) finding_key
              same db.findings))
          h)
      λ _. Keeps-pure written

finding_fields-key :
    (command : FindingCommand) (to : String) (now : ℕ) (f : VulnerabilityFinding)
    → finding_key (finding_fields command to now f) ≡ finding_key f
finding_fields-key start_remediation to now f = refl
finding_fields-key resolve to now f = refl
finding_fields-key reopen to now f = refl

mutate_finding-Keeps :
    (id : String) (principal : AuthPrincipal) (version : ℕ) (api_id : String)
    (apply : FindingContext → Action Applied) (call : Call)
    → ((row : FindingContext) → Keeps IsConsistent (apply row))
    → Keeps IsConsistent (mutate_finding id principal version api_id apply call)
unfolding mutate_finding
mutate_finding-Keeps id principal version api_id apply call each =
    search work_rules depth 40 fits 5000

pub finding_command-Keeps :
    (id : String) (version : ℕ) (principal : AuthPrincipal) (command : FindingCommand)
    (text : Option String) (call : Call)
    → Keeps IsConsistent (finding_command id version principal command text call)
unfolding finding_command apply_command
finding_command-Keeps id version principal command text call =
    mutate_finding-Keeps id principal version _ _ call λ row. Keeps-bind _ _ (Keeps-require _) λ _.
      Keeps-bind _ _ (Keeps-or_raise _ _) λ step.
        Keeps-bind _ _
          (update_finding-Keeps id version step.from call.now _
            (finding_fields-key command step.to call.now))
          λ updated. Keeps-pure _

pub edit_finding-Keeps :
    (id : String) (principal : AuthPrincipal) (input : FindingUpdateInput) (call : Call)
    → Keeps IsConsistent (edit_finding id principal input call)
unfolding edit_finding apply_edit
edit_finding-Keeps id principal input call = mutate_finding-Keeps id principal _ _ _ call λ row.
    Keeps-bind _ _ (Keeps-require _) λ _. Keeps-bind _ _ (Keeps-or_raise _ _) λ allowed.
      Keeps-bind _ _ (update_finding-Keeps id _ allowed call.now _ (λ f. refl))
        λ updated. Keeps-pure _

-- The id that the database gives a new finding is not in use.
pub create_finding-Ensures :
    (id : String) (principal : AuthPrincipal) (input : FindingCreateInput) (call : Call)
    (db : Database)
    → includes call.new_id (map key_id (map finding_key db.findings)) ≡ false
    → IsConsistent db
    → Ensures (λ created after. IsConsistent after) (create_finding id principal input call) db
unfolding create_finding
create_finding-Ensures id principal input call db fresh h = after _ _ (
    lock_assessment-Ensures id db λ row found. after_require _ _ λ _. after _ _ (
      require_scope-Ensures _ _ db λ _. after_require _ _ λ _. after_or_raise _ _ _ λ step _.
        after_modify _ _ (
          after_modify _ _ (
            on_pure _ (
              subst (λ ks. AreConsistent (map report_key db.reports) ks db.memberships)
                (sym (map-append finding_key db.findings _))
                (AreConsistent-finding _ _ _ _ fresh h))))))
