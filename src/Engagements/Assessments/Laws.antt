-- ===== src/Engagements/Assessments/Laws.antt =====
-- What the commands on an assessment do.
use cyber_hub_api.Engagements.Schema.Writes.{returning-IsWrite, IsWrite, IsGuarded, Columns}
use cyber_hub_api.Engagements.Action.{returned, pure}
use cyber_hub_api.Engagements.Schema.Laws.{returning-Written}
use cyber_hub_api.Workflow.Helper.{require_transition}
use cyber_hub_api.Workflow.Types.{security_assessment, WorkflowTransitionDefinition}
use cyber_hub_api.Authorization.AuthScope.{scope_allowed}
use cyber_hub_api.Prelude.{
  ◌∙◌, ap, refl, inr, arith, inl, if◌then◌else◌, not, ◌&&◌, List, [], ◌∷◌, ◌++◌, false, ◌⊎◌, true,
  none, some, ◌≡◌,
}
use cyber_hub_api.Engagements.Access.Laws.{
  require_scope-Ensures, equal_of_not_differ, lock_assessment-Ensures,
}
use cyber_hub_api.Engagements.Action.Rules.{
  of_returned, on_if, after_gets, on_pure, after_modify, after_or_raise, after_require, after,
  after_raise_if, Ensures,
}
use cyber_hub_api.Engagements.Access.{
  require_scope, assessment_verdict, is_admin, require_assessment_access, find_assessment,
  AssessmentContext,
}
use cyber_hub_api.Engagements.Assessments.{
  start_command, complete_command, cancel_command, command_fields, set_assessment,
  assessment_matches, command_transition, is_cancel, Option, Call, AssessmentCommand, AuthPrincipal,
  ℕ, update_assessment, String, assessment_command,
}
use cyber_hub_api.Engagements.Schema.{
  returning, update_where, AuditLog, SecurityAssessment, Database,
}

abbrev assessment_columns : Columns SecurityAssessment
assessment_columns = record {
  key = λ a. a.id;
  version = λ a. a.state_version;
  status = λ a. a.status;
}

command_fields_lem :
    (command : AssessmentCommand) (to : String) (now : ℕ) (a : SecurityAssessment)
    → ((command_fields command to now a).id ≡ a.id)
      × ((command_fields command to now a).status ≡ to)
command_fields_lem start_command to now a = (refl, refl)
command_fields_lem complete_command to now a = (refl, refl)
command_fields_lem cancel_command to now a = (refl, refl)

command-IsGuarded :
    (id : String) (version : ℕ) (from : List String) (command : AssessmentCommand) (to : String)
    (now : ℕ)
    → IsGuarded assessment_columns id version from
        (assessment_matches id version from)
        (set_assessment now (command_fields command to now))
command-IsGuarded id version from command to now = record {
  tests_key = λ a hit. ground arith;
  tests_version = λ a hit. ground arith;
  tests_state = λ a hit. ground arith;
  keeps_key = λ a. (command_fields_lem command to now a).0;
  counts_version = λ a. refl;
}

-- A command that returned: the row that it read, what it checked, and what it wrote.
pub record IsCommanded (id : String) (version : ℕ) (principal : AuthPrincipal)
    (command : AssessmentCommand) (call : Call) (db : Database) (updated : SecurityAssessment)
    (after : Database) : Type 0 where
  pub context : AssessmentContext
  pub found : find_assessment id db ≡ some context
  pub accessible : require_assessment_access context principal ≡ none
  pub cancelled_or_in_scope :
      ((is_cancel command ≡ true) × (is_admin principal.role ≡ true))
      ⊎ ((is_cancel command ≡ false)
          × (assessment_verdict db call.now context.assessment.id ≡ scope_allowed))
  pub at_version : context.assessment.state_version ≡ version
  pub transition : WorkflowTransitionDefinition
  pub registered :
      require_transition security_assessment (command_transition command context.assessment.status)
      ≡ some transition
  pub entered : updated.status ≡ transition.to
  pub written :
      IsWrite assessment_columns id version transition.from
        (set_assessment call.now (command_fields command transition.to call.now))
        db.assessments
        after.assessments
        updated
  pub event : AuditLog
  pub only_written :
      after ≡ record db { assessments = after.assessments; audits = db.audits ++ event ∷ [] }
  pub event_about : (event.entity_id ≡ updated.id) × (event.actor_user_id ≡ principal.user_id)

update_assessment-Ensures {ℓ} :
    (id : String) (version : ℕ) (from : List String) (now : ℕ)
    (fields : SecurityAssessment → SecurityAssessment) (db : Database)
    {Q : Option SecurityAssessment → Database → Type ℓ}
    → Q
        (returning (assessment_matches id version from) (set_assessment now fields) db.assessments)
        (record db {
          assessments =
              update_where
                (assessment_matches id version from)
                (set_assessment now fields)
                db.assessments;
        })
    → Ensures Q (update_assessment id version from now fields) db
unfolding update_assessment
update_assessment-Ensures id version from now fields db h =
    after_gets _ _ (after_modify _ _ (on_pure _ h))

in_scope_or_cancelled :
    (command : AssessmentCommand) (principal : AuthPrincipal) (now : ℕ) (id : String)
    (db : Database) {Q : Unit {0} → Database → Type 0}
    → is_cancel command && not (is_admin principal.role) ≡ false
    → (((is_cancel command ≡ true) × (is_admin principal.role ≡ true))
          ⊎ ((is_cancel command ≡ false) × (assessment_verdict db now id ≡ scope_allowed))
        → Q tt db)
    → Ensures Q (if is_cancel command then pure tt else require_scope now id) db
in_scope_or_cancelled command principal now id db may_cancel h =
    on_if (is_cancel command) (λ c. on_pure _ (h (inl (c, ground arith))))
      (λ other. require_scope-Ensures now id db λ allowed. h (inr (other, allowed)))

assessment_command-Ensures :
    (id : String) (version : ℕ) (principal : AuthPrincipal) (command : AssessmentCommand)
    (reason : Option String) (call : Call) (db : Database)
    → Ensures
        (IsCommanded id version principal command call db)
        (assessment_command id version principal command reason call)
        db
unfolding assessment_command
assessment_command-Ensures id version principal command reason call db =
    after_raise_if _ _ _ λ may_cancel. after _ _ (
      lock_assessment-Ensures id db λ context found. after_require _ _ λ accessible. after _ _ (
        in_scope_or_cancelled command principal call.now _ db may_cancel λ permitted.
          after_raise_if _ _ _ λ same. after_or_raise _ _ _ λ transition registered. after _ _ (
            update_assessment-Ensures id version transition.from call.now _ db (
              after_or_raise _ _ _ λ updated written. after_modify _ _ (
                on_pure updated (record {
                  context = context;
                  found = found;
                  accessible = accessible;
                  cancelled_or_in_scope = permitted;
                  at_version = equal_of_not_differ _ _ same;
                  transition = transition;
                  registered = registered;
                  entered =
                      let w = returning-Written _ _ db.assessments written in
                      ap (λ (a : SecurityAssessment). a.status) w.changed
                      ∙ (command_fields_lem command transition.to call.now w.old).1;
                  written =
                      returning-IsWrite assessment_columns id version transition.from _ _
                        (command-IsGuarded id version transition.from command transition.to
                          call.now)
                        db.assessments written;
                  event = _;
                  only_written = refl;
                  event_about = (refl, refl);
                }))))))

-- A command that returned was run by someone with access to the assessment, at its version: a
-- cancellation by an admin, any other command under an AUTH_SCOPE that allows it. The registry has
-- its transition; the row with the id at that version, in a state that it leaves, was moved to the
-- state that it enters with the next version. Rows with another id stayed, no other table changed,
-- and one audit row about the assessment, by the caller, was added.
pub assessment_command-IsCommanded :
    (id : String) (version : ℕ) (principal : AuthPrincipal) (command : AssessmentCommand)
    (reason : Option String) (call : Call) (db : Database) {updated : SecurityAssessment}
    {after : Database}
    → assessment_command id version principal command reason call db ≡ returned (updated, after)
    → IsCommanded id version principal command call db updated after
assessment_command-IsCommanded id version principal command reason call db h =
    of_returned (assessment_command-Ensures id version principal command reason call db) h
