-- ===== src/Engagements/Consulting/Completion.antt =====
-- What a transition of a consulting request does, and what its completion needs.
use cyber_hub_api.Engagements.Consulting.Commands.{complete_request, active_work_of}
use cyber_hub_api.Engagements.Schema.Writes.{IsGuarded, returning-IsWrite, Columns, IsWrite}
use cyber_hub_api.Workflow.Helper.{require_transition}
use cyber_hub_api.Workflow.Types.{consulting_request, WorkflowTransitionDefinition}
use cyber_hub_api.Engagements.Schema.Laws.{returning-Written}
use cyber_hub_api.Engagements.Access.{require_request_access, request_by_key}
use cyber_hub_api.Engagements.Action.Rules.{
  weaken, after_require, on_raise, of_returned, on_pure, after_modify, after, after_or_raise,
  after_gets, after_raise_if, Ensures,
}
use cyber_hub_api.Engagements.Schema.{
  returning, update_where, ConsultingRequest, SecurityAssessment, Database,
}
use cyber_hub_api.Engagements.Action.{Action, returned, Call, AuthPrincipal}
use cyber_hub_api.Engagements.Consulting.{
  is_active, work_of, transition_with_extras, completion_guard, set_request, request_matches,
  answer_or, Guard, domain_guard, diagnose_request, request_transition,
}
use cyber_hub_api.Prelude.{
  mem_some_of, str_eq, some_of_mem, eq_iff, ◌∙◌, subst, ap, Bool-cases, ◌&&◌, Memᴰ, Option, List, ℕ,
  String, refl, none, some, true, false, inl, inr, arith, ◌≡◌,
}

abbrev request_columns : Columns ConsultingRequest
request_columns = record { key = λ r. r.id; version = λ r. r.state_version; status = λ r. r.status }

request-IsGuarded :
    (id : String) (version : ℕ) (from : List String) (to : String)
    (extra : ConsultingRequest → ConsultingRequest) (guard : Guard) (now : ℕ) (db : Database)
    → ((r : ConsultingRequest) → (extra r).id ≡ r.id)
    → IsGuarded request_columns id version from
        (request_matches id from version guard now db)
        (set_request to now extra)
request-IsGuarded id version from to extra guard now db same = record {
  tests_key = λ r hit. ground arith;
  tests_version = λ r hit. ground arith;
  tests_state = λ r hit. ground arith;
  keeps_key = same;
  counts_version = λ r. refl;
}

-- A transition of a request that returned: its row met the guard and was moved.
pub record IsMoved (id transition_id : String) (version : ℕ)
    (extra : ConsultingRequest → ConsultingRequest) (guard : Guard) (now : ℕ) (db : Database)
    (updated : ConsultingRequest) (after : Database) : Type 0 where
  pub step : WorkflowTransitionDefinition
  pub registered : require_transition consulting_request transition_id ≡ some step
  pub written :
      IsWrite request_columns id version step.from
        (set_request step.to now extra)
        db.requests
        after.requests
        updated
  pub entered : updated.status ≡ step.to
  pub guarded : (r : ConsultingRequest) × (r.id ≡ id) × (domain_guard guard now db r ≡ true)
  pub only_written : after ≡ record db { requests = after.requests }

IsMoved-by :
    (id transition_id : String) (version : ℕ) (extra : ConsultingRequest → ConsultingRequest)
    (guard : Guard) (now : ℕ) (db : Database) (step : WorkflowTransitionDefinition)
    {updated : ConsultingRequest}
    → ((r : ConsultingRequest) → (extra r).id ≡ r.id)
    → require_transition consulting_request transition_id ≡ some step
    → returning
        (request_matches id step.from version guard now db)
        (set_request step.to now extra)
        db.requests
      ≡ some updated
    → IsMoved id transition_id version extra guard now db updated (record db {
      requests =
          update_where
            (request_matches id step.from version guard now db)
            (set_request step.to now extra)
            db.requests;
    })
IsMoved-by id transition_id version extra guard now db step same registered e =
    let w = returning-Written _ _ db.requests e in
    record {
      step = step;
      registered = registered;
      written =
          returning-IsWrite request_columns id version step.from _ _
            (request-IsGuarded id version step.from step.to extra guard now db same) db.requests e;
      entered = ap (λ (r : ConsultingRequest). r.status) w.changed;
      guarded = (
        w.old,
        (eq_iff w.old.id id).0 (let hit = w.tested in ground arith),
        (let hit = w.tested in ground arith),
      );
      only_written = refl;
    }

diagnose_request-Ensures {ℓ} :
    (id : String) (version : ℕ) (guard : Guard) (now : ℕ) (db : Database)
    {Q : ConsultingRequest → Database → Type ℓ}
    → Ensures Q (diagnose_request id version guard now) db
unfolding diagnose_request
diagnose_request-Ensures id version guard now db =
    after_gets _ _
      (after_or_raise _ _ _ λ current _. after_gets _ _ (after_raise_if _ _ _ λ _. on_raise _))

answer_or-Ensures {ℓ} :
    (o : Option ConsultingRequest) (otherwise : Action ConsultingRequest) (db : Database)
    {Q : ConsultingRequest → Database → Type ℓ}
    → ((r : ConsultingRequest) → o ≡ some r → Q r db)
    → Ensures Q otherwise db
    → Ensures Q (answer_or o otherwise) db
answer_or-Ensures none otherwise db h other = other
answer_or-Ensures (some r) otherwise db h other = on_pure r (h r refl)

request_transition-Ensures :
    (id transition_id : String) (version : ℕ) (extra : ConsultingRequest → ConsultingRequest)
    (guard : Guard) (now : ℕ) (db : Database)
    → ((r : ConsultingRequest) → (extra r).id ≡ r.id)
    → Ensures
        (IsMoved id transition_id version extra guard now db)
        (request_transition id transition_id version extra guard now)
        db
unfolding request_transition transition_with_extras
request_transition-Ensures id transition_id version extra guard now db same =
    after_or_raise _ _ _ λ step registered. after _ _ (
      after_gets _ _ (
        after_modify _ _ (
          on_pure _ (
            answer_or-Ensures _ _ _
              (λ updated written.
                IsMoved-by id transition_id version extra guard now db step same registered written)
              (diagnose_request-Ensures id version guard now _)))))

-- A completion that returned.
pub record IsCompletedRequest (id : String) (version : ℕ) (principal : AuthPrincipal) (call : Call)
    (db : Database) (updated : ConsultingRequest) (after : Database) : Type 0 where
  pub current : ConsultingRequest
  pub found : request_by_key db id ≡ some current
  pub accessible : require_request_access current principal ≡ none
  pub some_completed :
      (a : SecurityAssessment) × Memᴰ a db.assessments
      × (a.consulting_request_id ≡ id)
      × (a.status ≡ "COMPLETED")
  pub none_active : (a : SecurityAssessment) → Memᴰ a db.assessments → active_work_of id a ≡ false
  pub moved :
      IsMoved id "WF-REQ-06" version
        (λ r. record r { completed_at = some call.now })
        completion_guard
        call.now
        db
        updated
        after

completed_work :
    (now : ℕ) (id : String) (db : Database) (r : ConsultingRequest)
    → r.id ≡ id
    → domain_guard completion_guard now db r ≡ true
    → ((a : SecurityAssessment) × Memᴰ a db.assessments
        × (a.consulting_request_id ≡ id)
        × (a.status ≡ "COMPLETED"))
      × ((a : SecurityAssessment) → Memᴰ a db.assessments → active_work_of id a ≡ false)
unfolding domain_guard
completed_work now id db r same guarded =
    let (a, there, hit) =
      some_of_mem (λ (a : SecurityAssessment). work_of r.id a && str_eq a.status "COMPLETED")
        db.assessments (ground arith) in
    (
      (
        a,
        there,
        (eq_iff a.consulting_request_id r.id).0 (ground arith) ∙ same,
        (eq_iff a.status "COMPLETED").0 (ground arith),
      ),
      λ b m. elim (Bool-cases (active_work_of r.id b)) [
        | inr idle ↦ subst (λ id. active_work_of id b ≡ false) same idle
        | inl busy ↦
            let found = mem_some_of (λ a. work_of r.id a && is_active a) db.assessments m busy in
            absurd (ground arith)
      ],
    )

complete_request-Ensures :
    (id : String) (version : ℕ) (principal : AuthPrincipal) (call : Call) (db : Database)
    → Ensures
        (IsCompletedRequest id version principal call db)
        (complete_request id version principal call)
        db
unfolding complete_request
complete_request-Ensures id version principal call db = after_gets _ _ (
    after_or_raise _ _ _ λ current found. after_require _ _ λ accessible. after_gets _ _ (
      after_raise_if _ _ _ λ complete.
        weaken
          (λ updated left moved. record {
            current = current;
            found = found;
            accessible = accessible;
            some_completed =
                (let (r, same, guarded) = moved.guarded in
                  completed_work call.now id db r same guarded).0;
            none_active =
                (let (r, same, guarded) = moved.guarded in
                  completed_work call.now id db r same guarded).1;
            moved = moved;
          })
          (request_transition-Ensures id "WF-REQ-06" version _ completion_guard call.now db
            (λ r. refl))))

-- A completion of a request that returned was run by an admin or the request's consultant while
-- an assessment of the request was completed and none planned or in progress. The registry has its
-- transition; the row with the id at the given version, in a state that it leaves, was moved to
-- the state that it enters with the next version. Rows with another id stayed, and no other table
-- changed.
pub complete_request-IsCompletedRequest :
    (id : String) (version : ℕ) (principal : AuthPrincipal) (call : Call) (db : Database)
    {updated : ConsultingRequest} {after : Database}
    → complete_request id version principal call db ≡ returned (updated, after)
    → IsCompletedRequest id version principal call db updated after
complete_request-IsCompletedRequest id version principal call db h =
    of_returned (complete_request-Ensures id version principal call db) h
