-- ===== src/Engagements/Consulting/Assignment.antt =====
-- What an assignment of a consulting request to a consultant does.
use cyber_hub_api.Engagements.Consulting.Commands.{
  assign_to, hand_over, is_request, propagate_active_assignment, assign, user_is_consultant,
  assign_consultant, active_work_of,
}
use cyber_hub_api.Engagements.Schema.Laws.{written_where, kept_where, returning-Written}
use cyber_hub_api.Engagements.Access.{is_admin}
use cyber_hub_api.Engagements.Action.Rules.{
  of_returned, on_pure, after_modify, after, after_or_raise, after_gets, after_raise_if, Ensures,
}
use cyber_hub_api.Engagements.Schema.{
  returning, update_where, ConsultingRequest, SecurityAssessment, Database,
}
use cyber_hub_api.Engagements.Action.{returned, Call, AuthPrincipal}
use cyber_hub_api.Prelude.{
  eq_iff, ◌∙◌, subst, ap, Bool-cases, ◌&&◌, Memᴰ, Option, List, ℕ, String, [], ◌∷◌, some, true,
  false, inl, inr, arith, ◌≡◌,
}

-- An assignment that returned.
pub record IsAssigned (id user_id : String) (principal : AuthPrincipal) (call : Call)
    (db : Database) (assigned : ConsultingRequest) (after : Database) : Type 0 where
  pub by_admin : is_admin principal.role ≡ true
  pub to_consultant : user_is_consultant db user_id ≡ true
  pub request_row : Memᴰ assigned after.requests
  pub request_assigned : (assigned.id ≡ id) × (assigned.assigned_consultant_id ≡ some user_id)
  pub active_assigned :
      (a : SecurityAssessment)
      → Memᴰ a after.assessments
      → active_work_of id a ≡ true
      → a.assigned_consultant_id ≡ user_id
  pub others_kept :
      (a : SecurityAssessment)
      → Memᴰ a db.assessments
      → active_work_of id a ≡ false
      → Memᴰ a after.assessments

handed_over :
    (id user_id : String) (now : ℕ) (rows : List SecurityAssessment) {a : SecurityAssessment}
    → Memᴰ a (update_where (active_work_of id) (hand_over user_id now) rows)
    → active_work_of id a ≡ true
    → a.assigned_consultant_id ≡ user_id
handed_over id user_id now [] m active = elim m [ ]
handed_over id user_id now (x ∷ rows) {a} (Memᴰ.head same) active =
    elim (Bool-cases (active_work_of id x)) [
      | inl hit ↦
          let it : a ≡ hand_over user_id now x = ground arith in
          ap (λ (a : SecurityAssessment). a.assigned_consultant_id) it
      | inr miss ↦
          let it : a ≡ x = ground arith in
          let other = subst (λ a. active_work_of id a ≡ true) it active in absurd (ground arith)
    ]
handed_over id user_id now (x ∷ rows) (Memᴰ.tail m) active =
    handed_over id user_id now rows m active

assign_consultant-Ensures {ℓ} :
    (id user_id : String) (now : ℕ) (db : Database)
    {Q : Option ConsultingRequest → Database → Type ℓ}
    → let test = λ (r : ConsultingRequest). is_request id r && user_is_consultant db user_id in
      Q
        (returning test (assign_to user_id now) db.requests)
        (record db { requests = update_where test (assign_to user_id now) db.requests })
      → Ensures Q (assign_consultant id user_id now) db
unfolding assign_consultant
assign_consultant-Ensures id user_id now db h = after_gets _ _ (after_modify _ _ (on_pure _ h))

assign-Ensures :
    (id user_id : String) (principal : AuthPrincipal) (call : Call) (db : Database)
    → Ensures (IsAssigned id user_id principal call db) (assign id user_id principal call) db
unfolding assign propagate_active_assignment
assign-Ensures id user_id principal call db = after_raise_if _ _ _ λ admin. after_gets _ _ (
    after_or_raise _ _ _ λ existing _. after _ _ (
      assign_consultant-Ensures id user_id call.now db (
        after_or_raise _ _ _ λ assigned written. after _ _ (
          after_gets _ _ (
            after_modify _ _ (
              on_pure _ (
                after_modify _ _ (
                  on_pure _ (
                    let test =
                      λ (r : ConsultingRequest). is_request id r && user_is_consultant db user_id in
                    let w =
                      returning-Written test (assign_to user_id call.now) db.requests written in
                    record {
                      by_admin = ground arith;
                      to_consultant = (let hit = w.tested in ground arith);
                      request_row =
                          written_where test (assign_to user_id call.now) db.requests written;
                      request_assigned = (
                        ap (λ (r : ConsultingRequest). r.id) w.changed
                            ∙ (eq_iff w.old.id id).0 (let hit = w.tested in ground arith),
                        ap (λ (r : ConsultingRequest). r.assigned_consultant_id) w.changed,
                      );
                      active_assigned =
                          λ a m active. handed_over id user_id call.now db.assessments m active;
                      others_kept = λ a m miss.
                          kept_where _ (hand_over user_id call.now) db.assessments m miss;
                    })))))))))

-- An assignment that returned was made by an admin, to a user who is a consultant. The request has
-- that consultant afterwards, and so has every planned or running assessment of the request; the
-- other assessments stay as they were.
pub assign-IsAssigned :
    (id user_id : String) (principal : AuthPrincipal) (call : Call) (db : Database)
    {assigned : ConsultingRequest} {after : Database}
    → assign id user_id principal call db ≡ returned (assigned, after)
    → IsAssigned id user_id principal call db assigned after
assign-IsAssigned id user_id principal call db h =
    of_returned (assign-Ensures id user_id principal call db) h
