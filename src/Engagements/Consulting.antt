-- ===== src/Engagements/Consulting.antt =====
-- The commands on a consulting request
-- (src/modules/consulting/services/consulting.service.ts and
-- src/modules/consulting/repositories/consulting-requests.repository.ts). The operational view
-- shows the columns that the model keeps, so an answer is the row.
pub mod Commands
pub mod Assignment
pub mod Completion
use cyber_hub_api.Workflow.Helper.{workflow_conflict_for_version}
use cyber_hub_api.Workflow.Types.{consulting_request}
use cyber_hub_api.Engagements.Scopes.{get_current, current_of}
use cyber_hub_api.Engagements.Access.{
  conflict_exception, require_request_access, is_consultant, is_admin, request_by_key,
  registered_transition,
}
use cyber_hub_api.Engagements.Schema.{
  meta_texts, update_where, meta_text, returning, meta_null, User, AuditLog, ConsultingNote,
  MetaValue, ConsultingRequest, select_where, Database, SecurityAssessment, ScopeAuthorization,
}
use cyber_hub_api.Prelude.{
  ◌++◌, ◌==◌, map, is_none, length, suc, includes, ltb, ◌||◌, List, some_of, ◌&&◌, not, str_eq, leb,
  String, Bool, Option, ℕ, [], ◌∷◌, none, some, true, false, refl, inl, inr, arith, ◌≡◌,
}
use cyber_hub_api.Engagements.Action.{
  raise, require, not_found, permission_denied, modify, pure, raise_if, record_audit, gets,
  or_raise, Action, AuthPrincipal, Call, ◌>>=◌, ◌>>◌,
}

pub record ConsultingRequestInput : Type 0 where
  pub company_details : String
  pub business_size : String
  pub security_concern : String
  pub business_impact : Option String
  pub requested_service : String
  pub environment_details : Option String
  pub contact_information : String

abbrev new_request : Call → String → String → ConsultingRequestInput → ConsultingRequest
new_request call employer_id user_id input = record {
  id = call.new_id;
  employer_id = employer_id;
  submitted_by_user_id = user_id;
  company_details = input.company_details;
  business_size = input.business_size;
  security_concern = input.security_concern;
  business_impact = input.business_impact;
  requested_service = input.requested_service;
  environment_details = input.environment_details;
  contact_information = input.contact_information;
  status = "SUBMITTED";
  state_version = 1;
  assigned_consultant_id = none;
  submitted_at = call.now;
  accepted_at = none;
  completed_at = none;
  updated_at = call.now;
}

-- `create`
unfoldable pub create_request :
    String → String → ConsultingRequestInput → Call → Action ConsultingRequest
create_request employer_id user_id input call = do
  step ← registered_transition consulting_request "WF-REQ-01"
  let created = new_request call employer_id user_id input
  modify λ db. record db { requests = db.requests ++ created ∷ [] }
  pure created

pub data Guard : Type 0 where
  no_guard scope_guard completion_guard : Guard

abbrev pub in_window : ℕ → ScopeAuthorization → Bool
in_window now s =
    leb s.valid_from now && elim s.valid_until [ none ↦ true | some until ↦ leb now until ]

abbrev pub is_active : SecurityAssessment → Bool
is_active a = str_eq a.status "PLANNED" || str_eq a.status "IN_PROGRESS"

abbrev pub work_of : String → SecurityAssessment → Bool
work_of request_id a = str_eq a.consulting_request_id request_id

-- The condition that `transitionWithExtras` adds to its UPDATE.
unfoldable pub domain_guard : Guard → ℕ → Database → ConsultingRequest → Bool
domain_guard no_guard now db r = true
domain_guard scope_guard now db r =
    some_of
      (λ (s : ScopeAuthorization).
        current_of r.id s
        && str_eq s.employer_id r.employer_id
        && is_none s.revoked_at
        && in_window now s)
      db.scopes
domain_guard completion_guard now db r =
    some_of (λ (a : SecurityAssessment). work_of r.id a && str_eq a.status "COMPLETED")
      db.assessments
    && not (some_of (λ a. work_of r.id a && is_active a) db.assessments)

abbrev pub request_matches :
    String → List String → ℕ → Guard → ℕ → Database → ConsultingRequest → Bool
request_matches id from version guard now db r =
    str_eq r.id id
    && includes r.status from
    && r.state_version == version
    && domain_guard guard now db r

abbrev pub set_request :
    String → ℕ → (ConsultingRequest → ConsultingRequest) → ConsultingRequest → ConsultingRequest
set_request to now extra r = record (extra r) {
  status = to;
  state_version = suc r.state_version;
  updated_at = now;
}

-- ConsultingRequestsRepository.transitionWithExtras
unfoldable pub transition_with_extras :
    String
    → List String
    → String
    → ℕ
    → (ConsultingRequest → ConsultingRequest)
    → Guard
    → ℕ
    → Action (Option ConsultingRequest)
transition_with_extras id from to version extra guard now = do
  written ← gets λ db.
      returning (request_matches id from version guard now db) (set_request to now extra)
        db.requests
  modify λ db. record db {
    requests =
        update_where (request_matches id from version guard now db) (set_request to now extra)
          db.requests;
  }
  pure written

abbrev expired_or_missing : ℕ → Option ScopeAuthorization → Bool
expired_or_missing now none = true
expired_or_missing now (some s) = not (in_window now s)

abbrev is_scope_guard : Guard → Bool
is_scope_guard scope_guard = true
is_scope_guard no_guard = false
is_scope_guard completion_guard = false

-- What the private method `transition` throws when its UPDATE wrote no row.
unfoldable pub diagnose_request : String → ℕ → Guard → ℕ → Action ConsultingRequest
diagnose_request id version guard now = do
  current ← or_raise (← gets λ db. request_by_key db id) not_found
  scope ← gets (get_current id current.employer_id)
  raise_if (is_scope_guard guard && expired_or_missing now scope) not_found
  raise (conflict_exception (workflow_conflict_for_version current.state_version version))

abbrev pub answer_or :
    Option ConsultingRequest → Action ConsultingRequest → Action ConsultingRequest
answer_or none otherwise = otherwise
answer_or (some r) otherwise = pure r

-- The private method `transition`
unfoldable pub request_transition :
    String
    → String
    → ℕ
    → (ConsultingRequest → ConsultingRequest)
    → Guard
    → ℕ
    → Action ConsultingRequest
request_transition id transition_id version extra guard now = do
  step ← registered_transition consulting_request transition_id
  written ← transition_with_extras id step.from step.to version extra guard now
  answer_or written (diagnose_request id version guard now)
