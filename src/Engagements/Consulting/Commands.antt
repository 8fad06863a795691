-- ===== src/Engagements/Consulting/Commands.antt =====
-- The commands that run a transition, the assignment, and the notes
-- (src/modules/consulting/services/consulting.service.ts).
use cyber_hub_api.Workflow.Helper.{workflow_conflict_for_version}
use cyber_hub_api.Engagements.Access.{
  conflict_exception, require_request_access, is_consultant, is_admin, request_by_key,
}
use cyber_hub_api.Engagements.Schema.{
  meta_texts, update_where, meta_text, returning, meta_null, User, AuditLog, ConsultingNote,
  MetaValue, ConsultingRequest, select_where, Database, SecurityAssessment,
}
use cyber_hub_api.Prelude.{
  ◌++◌, ◌==◌, map, length, ltb, List, some_of, ◌&&◌, not, str_eq, String, Bool, Option, ℕ, [], ◌∷◌,
  none, some,
}
use cyber_hub_api.Engagements.Action.{
  require, not_found, permission_denied, modify, pure, raise_if, record_audit, gets, or_raise,
  Action, AuthPrincipal, Call, ◌>>=◌, ◌>>◌,
}
use cyber_hub_api.Engagements.Consulting.{
  is_active, work_of, request_transition, completion_guard, scope_guard, no_guard,
}

unfoldable pub start_review : String → ℕ → Call → Action ConsultingRequest
start_review id version call = request_transition id "WF-REQ-02" version (λ r. r) no_guard call.now

unfoldable pub accept : String → ℕ → Call → Action ConsultingRequest
accept id version call =
    request_transition id "WF-REQ-03" version (λ r. record r { accepted_at = some call.now })
      no_guard call.now

unfoldable pub start_delivery : String → ℕ → Call → Action ConsultingRequest
start_delivery id version call =
    request_transition id "WF-REQ-05" version (λ r. r) scope_guard call.now

abbrev request_audit :
    AuthPrincipal
    → Option String
    → String
    → ConsultingRequest
    → List (String × MetaValue)
    → AuditLog
request_audit principal request_id action r metadata = record {
  actor_user_id = principal.user_id;
  actor_role = principal.role;
  action = action;
  entity_type = "consulting";
  entity_id = r.id;
  employer_id = r.employer_id;
  request_id = request_id;
  metadata = metadata;
}

unfoldable pub decline : String → ℕ → String → AuthPrincipal → Call → Action ConsultingRequest
decline id version reason principal call = do
  result ← request_transition id "WF-REQ-04" version (λ r. r) no_guard call.now
  record_audit (
      request_audit principal none "consulting.request.declined" result
        (("reason", meta_text reason) ∷ []))
  pure result

-- ConsultingRequestsRepository.hasOnlyCompletedLinkedWork
unfoldable pub has_only_completed_linked_work : String → Database → Bool
has_only_completed_linked_work id db =
    let work = select_where (work_of id) db.assessments in
    ltb 0 (length (select_where (λ (a : SecurityAssessment). str_eq a.status "COMPLETED") work))
    && length (select_where is_active work) == 0

-- `complete`
unfoldable pub complete_request : String → ℕ → AuthPrincipal → Call → Action ConsultingRequest
complete_request id version principal call = do
  current ← or_raise (← gets λ db. request_by_key db id) not_found
  require (require_request_access current principal)
  complete ← gets (has_only_completed_linked_work id)
  raise_if (not complete)
      (conflict_exception (workflow_conflict_for_version current.state_version version))
  request_transition id "WF-REQ-06" version (λ r. record r { completed_at = some call.now })
      completion_guard call.now

abbrev pub assign_to : String → ℕ → ConsultingRequest → ConsultingRequest
assign_to user_id now r = record r { assigned_consultant_id = some user_id; updated_at = now }

abbrev pub user_is_consultant : Database → String → Bool
user_is_consultant db user_id =
    some_of (λ (u : User). str_eq u.id user_id && is_consultant u.role) db.users

abbrev pub is_request : String → ConsultingRequest → Bool
is_request id r = str_eq r.id id

-- ConsultingRequestsRepository.assignConsultant
unfoldable pub assign_consultant : String → String → ℕ → Action (Option ConsultingRequest)
assign_consultant id user_id now = do
  written ← gets λ db.
      returning (λ r. is_request id r && user_is_consultant db user_id) (assign_to user_id now)
        db.requests
  modify λ db. record db {
    requests =
        update_where (λ r. is_request id r && user_is_consultant db user_id) (assign_to user_id now)
          db.requests;
  }
  pure written

abbrev pub active_work_of : String → SecurityAssessment → Bool
active_work_of id a = work_of id a && is_active a

abbrev pub hand_over : String → ℕ → SecurityAssessment → SecurityAssessment
hand_over user_id now a = record a { assigned_consultant_id = user_id; updated_at = now }

abbrev assessment_key : SecurityAssessment → String
assessment_key a = a.id

abbrev meta_option : Option String → MetaValue
meta_option none = meta_null
meta_option (some text) = meta_text text

-- ConsultingRequestsRepository.propagateActiveAssignment
unfoldable pub propagate_active_assignment : String → String → ℕ → Action (List String)
propagate_active_assignment id user_id now = do
  affected ← gets λ db. map assessment_key (select_where (active_work_of id) db.assessments)
  modify λ db. record db {
    assessments = update_where (active_work_of id) (hand_over user_id now) db.assessments;
  }
  pure affected

-- `assign`
unfoldable pub assign : String → String → AuthPrincipal → Call → Action ConsultingRequest
assign id user_id principal call = do
  raise_if (not (is_admin principal.role)) permission_denied
  existing ← or_raise (← gets λ db. request_by_key db id) not_found
  assigned ← or_raise (← assign_consultant id user_id call.now) not_found
  affected ← propagate_active_assignment id user_id call.now
  record_audit (
      request_audit principal call.request_id "consulting.request.consultant_assigned" existing (
        ("apiId", meta_text "API-CON-008")
        ∷ ("oldConsultantId", meta_option existing.assigned_consultant_id)
        ∷ ("newConsultantId", meta_text user_id)
        ∷ ("affectedAssessmentIds", meta_texts affected)
        ∷ []))
  pure assigned

-- `createNote`
unfoldable pub create_note : String → String → String → Call → Action ConsultingNote
create_note request_id author_id body call = do
  let note : ConsultingNote = record {
    id = call.new_id;
    consulting_request_id = request_id;
    author_user_id = author_id;
    body = body;
    created_at = call.now;
  }
  modify λ db. record db { notes = db.notes ++ note ∷ [] }
  pure note
