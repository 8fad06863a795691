-- ===== src/Engagements/Findings/Laws.antt =====
-- What the operations on a finding do.
use cyber_hub_api.Engagements.Schema.Writes.{returning-IsWrite, Columns, IsGuarded, IsWrite}
use cyber_hub_api.Workflow.Helper.{require_transition}
use cyber_hub_api.Workflow.Operations.{get_workflow_operation_mapping}
use cyber_hub_api.Engagements.Access.Laws.{
  require_scope-Ensures, equal_of_not_differ, lock_assessment-Ensures,
}
use cyber_hub_api.Authorization.AuthScope.{scope_allowed}
use cyber_hub_api.Workflow.Types.{finding, WorkflowTransitionDefinition}
use cyber_hub_api.Engagements.Action.Rules.{
  of_returned, on_if, weaken, after_raise_if, on_pure, after_modify, after, after_gets,
  after_or_raise, after_require, Ensures,
}
use cyber_hub_api.Engagements.Access.{
  require_scope, require_assessment_access, assessment_verdict, find_finding, FindingContext,
}
use cyber_hub_api.Engagements.Schema.{
  update_where, AuditLog, returning, VulnerabilityFinding, Database,
}
use cyber_hub_api.Engagements.Action.{returned, pure, Action, Call, AuthPrincipal}
use cyber_hub_api.Engagements.Findings.{
  start_remediation, resolve, reopen, finding_fields, finding_command_transition, edited_fields,
  guarded_states, finding_audit, set_finding, finding_matches, command_mutation, edit_mutation,
  finding_operation, require_finding_mutation, Applied, mutate_finding, FindingUpdateInput,
  FindingCommand, apply_edit, apply_command, update_finding, finding_command, edit_finding,
}
use cyber_hub_api.Prelude.{
  ◌∙◌, ap, refl, inr, inl, [], if◌then◌else◌, false, ◌∷◌, str_eq, none, ◌++◌, not, some, ◌⊎◌,
  Option, true, ◌≡◌, List, String, Bool, ℕ, arith,
}

-- The finding that an operation read, and what it checked of it.
pub record IsMutable (id : String) (version : ℕ) (principal : AuthPrincipal) (api_id : String)
    (now : ℕ) (db : Database) (row : FindingContext) : Type 0 where
  pub found : find_finding id db ≡ some row
  pub same_employer : not (str_eq row.finding.employer_id row.at.assessment.employer_id) ≡ false
  pub accessible : require_assessment_access row.at principal ≡ none
  pub remediation_or_in_scope :
      (str_eq api_id "API-FND-005" ≡ true)
      ⊎ (assessment_verdict db now row.at.assessment.id ≡ scope_allowed)
  pub at_version : row.finding.state_version ≡ version

abbrev finding_columns : Columns VulnerabilityFinding
finding_columns = record { key = λ f. f.id; version = λ f. f.state_version; status = λ f. f.status }

-- A change of one finding and its event.
pub record IsFindingChange (id : String) (version : ℕ) (from : List String)
    (change : VulnerabilityFinding → VulnerabilityFinding) (db : Database)
    (updated : VulnerabilityFinding) (after : Database) : Type 0 where
  pub written : IsWrite finding_columns id version from change db.findings after.findings updated
  pub event : AuditLog
  pub only_written :
      after ≡ record db { findings = after.findings; audits = db.audits ++ event ∷ [] }
  pub event_about : event.entity_id ≡ updated.id

update_finding-Ensures {ℓ} :
    (id : String) (version : ℕ) (from : List String) (now : ℕ)
    (fields : VulnerabilityFinding → VulnerabilityFinding) (db : Database)
    {Q : Option VulnerabilityFinding → Database → Type ℓ}
    → Q
        (returning (finding_matches id version from) (set_finding now fields) db.findings)
        (record db {
          findings =
              update_where (finding_matches id version from) (set_finding now fields) db.findings;
        })
    → Ensures Q (update_finding id version from now fields) db
unfolding update_finding
update_finding-Ensures id version from now fields db h =
    after_gets _ _ (after_modify _ _ (on_pure _ h))

finding-IsGuarded :
    (id : String) (version : ℕ) (from : List String) (now : ℕ)
    (fields : VulnerabilityFinding → VulnerabilityFinding)
    → ((f : VulnerabilityFinding) → (fields f).id ≡ f.id)
    → IsGuarded finding_columns id version from
        (finding_matches id version from)
        (set_finding now fields)
finding-IsGuarded id version from now fields same = record {
  tests_key = λ f hit. ground arith;
  tests_version = λ f hit. ground arith;
  tests_state = λ f hit. ground arith;
  keeps_key = same;
  counts_version = λ f. refl;
}

finding_fields_lem :
    (command : FindingCommand) (to : String) (now : ℕ) (f : VulnerabilityFinding)
    → ((finding_fields command to now f).id ≡ f.id)
      × ((finding_fields command to now f).status ≡ to)
finding_fields_lem start_remediation to now f = (refl, refl)
finding_fields_lem resolve to now f = (refl, refl)
finding_fields_lem reopen to now f = (refl, refl)

finding_change :
    (id : String) (version : ℕ) (from : List String) (now : ℕ)
    (fields : VulnerabilityFinding → VulnerabilityFinding) (db : Database) (row : AuditLog)
    {updated : VulnerabilityFinding}
    → ((f : VulnerabilityFinding) → (fields f).id ≡ f.id)
    → row.entity_id ≡ updated.id
    → returning (finding_matches id version from) (set_finding now fields) db.findings
      ≡ some updated
    → IsFindingChange id version from (set_finding now fields) db updated (record db {
      findings =
          update_where (finding_matches id version from) (set_finding now fields) db.findings;
      audits = db.audits ++ row ∷ [];
    })
finding_change id version from now fields db row same about e = record {
  written =
      returning-IsWrite finding_columns id version from _ _
        (finding-IsGuarded id version from now fields same) db.findings e;
  event = row;
  only_written = refl;
  event_about = about;
}

in_scope_or_remediation :
    (b : Bool) (now : ℕ) (id : String) (db : Database) {Q : Unit {0} → Database → Type 0}
    → ((b ≡ true) ⊎ (assessment_verdict db now id ≡ scope_allowed) → Q tt db)
    → Ensures Q (if b then pure tt else require_scope now id) db
in_scope_or_remediation b now id db h =
    on_if b (λ start. on_pure _ (h (inl start)))
      (λ other. require_scope-Ensures now id db λ allowed. h (inr allowed))

module _ (id : String) (principal : AuthPrincipal) (version : ℕ) (api_id : String) (call : Call)
    (db : Database) where
  abbrev Finishes : (VulnerabilityFinding → Database → Type 0) → Applied → Database → Type 0
  Finishes Q result between =
      (updated : VulnerabilityFinding)
      → result.0 ≡ some updated
      → Q updated (record between {
        audits = between.audits ++ finding_audit principal call api_id updated result.1 ∷ [];
      })

  mutate_finding-Ensures :
      (apply : FindingContext → Action Applied) (Q : VulnerabilityFinding → Database → Type 0)
      → ((row : FindingContext)
          → IsMutable id version principal api_id call.now db row
          → Ensures (Finishes Q) (apply row) db)
      → Ensures Q (mutate_finding id principal version api_id apply call) db
  unfolding mutate_finding
  mutate_finding-Ensures apply Q h = after_gets _ _ (
      after_or_raise _ _ _ λ initial _. after _ _ (
        lock_assessment-Ensures _ db λ locked _. after_gets _ _ (
          after_or_raise _ _ _ λ row found. after_raise_if _ _ _ λ same_employer.
            after_require _ _ λ accessible. after _ _ (
              in_scope_or_remediation _ call.now _ db λ permitted. after_raise_if _ _ _ λ same.
                after _ _ (
                  weaken
                    (λ result between finish. after_or_raise _ _ _ λ updated written.
                      after_modify _ _ (on_pure updated (finish updated written)))
                    (h row (record {
                      found = found;
                      same_employer = same_employer;
                      accessible = accessible;
                      remediation_or_in_scope = permitted;
                      at_version = equal_of_not_differ _ _ same;
                    })))))))

-- A command that returned: the finding that it read, and what it wrote.
pub record IsFindingCommanded (id : String) (version : ℕ) (principal : AuthPrincipal)
    (command : FindingCommand) (call : Call) (db : Database) (updated : VulnerabilityFinding)
    (after : Database) : Type 0 where
  pub context : FindingContext
  pub checked : IsMutable id version principal (finding_operation command) call.now db context
  pub open_parent : require_finding_mutation context.at.assessment.status command_mutation ≡ none
  pub step : WorkflowTransitionDefinition
  pub registered :
      require_transition finding (finding_command_transition command context.finding.status)
      ≡ some step
  pub entered : updated.status ≡ step.to
  pub change :
      IsFindingChange id version step.from
        (set_finding call.now (finding_fields command step.to call.now))
        db
        updated
        after

finding_command-Ensures :
    (id : String) (version : ℕ) (principal : AuthPrincipal) (command : FindingCommand)
    (text : Option String) (call : Call) (db : Database)
    → Ensures
        (IsFindingCommanded id version principal command call db)
        (finding_command id version principal command text call)
        db
unfolding finding_command apply_command
finding_command-Ensures id version principal command text call db =
    mutate_finding-Ensures id principal version _ call db _ _ λ row checked.
      after_require _ _ λ open_parent. after_or_raise _ _ _ λ step registered. after _ _ (
        update_finding-Ensures id version step.from call.now _ db (
          on_pure _ λ updated written. record {
            context = row;
            checked = checked;
            open_parent = open_parent;
            step = step;
            registered = registered;
            entered =
                let w =
                  returning-IsWrite finding_columns id version step.from _ _
                    (finding-IsGuarded id version step.from call.now
                      (finding_fields command step.to call.now)
                      (λ f. (finding_fields_lem command step.to call.now f).0))
                    db.findings written in
                ap (λ (f : VulnerabilityFinding). f.status) w.changed
                ∙ (finding_fields_lem command step.to call.now w.old).1;
            change =
                finding_change id version step.from call.now
                  (finding_fields command step.to call.now) db _
                  (λ f. (finding_fields_lem command step.to call.now f).0) refl written;
          }))

-- An edit that returned, likewise.
pub record IsEdited (id : String) (principal : AuthPrincipal) (input : FindingUpdateInput)
    (call : Call) (db : Database) (updated : VulnerabilityFinding) (after : Database) : Type 0 where
  pub context : FindingContext
  pub checked :
      IsMutable id input.expected_state_version principal "API-FND-004" call.now db context
  pub open_parent : require_finding_mutation context.at.assessment.status edit_mutation ≡ none
  pub allowed : List String
  pub guarded : guarded_states (get_workflow_operation_mapping "API-FND-004") ≡ some allowed
  pub change :
      IsFindingChange id input.expected_state_version allowed
        (set_finding call.now (edited_fields input))
        db
        updated
        after

edit_finding-Ensures :
    (id : String) (principal : AuthPrincipal) (input : FindingUpdateInput) (call : Call)
    (db : Database)
    → Ensures (IsEdited id principal input call db) (edit_finding id principal input call) db
unfolding edit_finding apply_edit
edit_finding-Ensures id principal input call db =
    mutate_finding-Ensures id principal input.expected_state_version _ call db _ _ λ row checked.
      after_require _ _ λ open_parent. after_or_raise _ _ _ λ allowed guarded. after _ _ (
        update_finding-Ensures id _ allowed call.now _ db (
          on_pure _ λ updated written. record {
            context = row;
            checked = checked;
            open_parent = open_parent;
            allowed = allowed;
            guarded = guarded;
            change =
                finding_change id _ allowed call.now (edited_fields input) db _ (λ f. refl) refl
                  written;
          }))

-- A command on a finding that returned was run by someone with access to its assessment, at the
-- finding's version, under an AUTH_SCOPE that allows it unless it starts the remediation, while
-- the assessment is in progress or completed. The registry has its transition; the row with the id
-- at that version, in a state that it leaves, was moved to the state that it enters with the next
-- version. Rows with another id stayed, no other table changed, and one audit row about the
-- finding was added.
pub finding_command-IsFindingCommanded :
    (id : String) (version : ℕ) (principal : AuthPrincipal) (command : FindingCommand)
    (text : Option String) (call : Call) (db : Database) {updated : VulnerabilityFinding}
    {after : Database}
    → finding_command id version principal command text call db ≡ returned (updated, after)
    → IsFindingCommanded id version principal command call db updated after
finding_command-IsFindingCommanded id version principal command text call db h =
    of_returned (finding_command-Ensures id version principal command text call db) h

-- An edit of a finding that returned was made by someone with access to its assessment, at the
-- finding's version, under an AUTH_SCOPE that allows it, while the assessment is in progress, and
-- in a state that the edit guard of API-FND-004 lists. It wrote the given fields of the row with
-- the next version, kept the rows with another id and the other tables, and added one audit row
-- about the finding.
pub edit_finding-IsEdited :
    (id : String) (principal : AuthPrincipal) (input : FindingUpdateInput) (call : Call)
    (db : Database) {updated : VulnerabilityFinding} {after : Database}
    → edit_finding id principal input call db ≡ returned (updated, after)
    → IsEdited id principal input call db updated after
edit_finding-IsEdited id principal input call db h =
    of_returned (edit_finding-Ensures id principal input call db) h
