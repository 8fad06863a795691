-- ===== src/Engagements/Scopes.antt =====
-- The scope authorizations of a consulting request
-- (src/modules/consulting/repositories/scope-authorizations.repository.ts, and createScope and
-- getCurrentScope of src/modules/consulting/services/consulting.service.ts).
pub mod Laws
use cyber_hub_api.Engagements.Findings.{or_else}
use cyber_hub_api.Engagements.Access.{request_by_key, is_user}
use cyber_hub_api.Authorization.Types.{Role}
use cyber_hub_api.Authorization.AuthScope.{json_array, is_set, JsonColumn}
use cyber_hub_api.Engagements.Schema.{
  update_where, select_where, User, Database, ScopeAuthorization,
}
use cyber_hub_api.Authorization.Types.{
  role_business, role_learner, role_mentor, role_consultant, role_admin,
}
use cyber_hub_api.Prelude.{
  ◌++◌, ◌+◌, not, is_none, ◌&&◌, ltb, find, str_eq, Option, if◌then◌else◌, Bool, List, String, ℕ,
  [], ◌∷◌, none, some, true, false, refl, inl, inr, arith, ◌≡◌,
}
use cyber_hub_api.Engagements.Action.{
  pure, modify, raise_if, not_found, or_raise, gets, Action, Call, ◌>>=◌, ◌>>◌,
}

pub record ScopeAuthorizationInput : Type 0 where
  pub authorized_targets : JsonColumn
  pub allowed_activities : JsonColumn
  pub restrictions : Option JsonColumn
  pub valid_from : ℕ
  pub valid_until : Option ℕ

abbrev pub is_business : Role → Bool
is_business role_business = true
is_business role_learner = false
is_business role_mentor = false
is_business role_consultant = false
is_business role_admin = false

-- A user of ROLE_BUSINESS that belongs to the employer.
abbrev pub may_confirm : String → User → Bool
may_confirm employer_id u = is_business u.role && is_user u.employer_id employer_id

abbrev pub scope_of : String → ScopeAuthorization → Bool
scope_of request_id s = str_eq s.consulting_request_id request_id

abbrev pub current_of : String → ScopeAuthorization → Bool
current_of request_id s = scope_of request_id s && s.is_current

abbrev pub latest_version : List ScopeAuthorization → ℕ
latest_version [] = 0
latest_version (s ∷ rows) =
    let rest = latest_version rows in if ltb rest s.version_no then s.version_no else rest

abbrev pub supersede_scope : ℕ → ScopeAuthorization → ScopeAuthorization
supersede_scope now s = record s { is_current = false; superseded_at = some now }

abbrev pub new_scope :
    Call → String → String → String → ℕ → ScopeAuthorizationInput → ScopeAuthorization
new_scope call request_id employer_id user_id version_no input = record {
  id = call.new_id;
  consulting_request_id = request_id;
  employer_id = employer_id;
  version_no = version_no;
  authorized_targets = input.authorized_targets;
  allowed_activities = input.allowed_activities;
  restrictions = or_else input.restrictions (json_array []);
  confirmed_by_user_id = user_id;
  confirmed_at = call.now;
  valid_from = input.valid_from;
  valid_until = input.valid_until;
  is_current = true;
  superseded_at = none;
  revoked_at = none;
  created_at = call.now;
}

abbrev user_by_key : Database → String → Option User
user_by_key db id = find (λ (u : User). str_eq u.id id) db.users

-- `createScope`, whose repository method `createNextVersion` answers `null` where this raises.
unfoldable pub create_scope :
    String → String → String → ScopeAuthorizationInput → Call → Action ScopeAuthorization
create_scope request_id employer_id user_id input call = do
  request ← or_raise (← gets λ db. request_by_key db request_id) not_found
  raise_if (not (str_eq request.employer_id employer_id)) not_found
  confirmer ← or_raise (← gets λ db. user_by_key db user_id) not_found
  raise_if (not (may_confirm employer_id confirmer)) not_found
  latest ← gets λ db. latest_version (select_where (scope_of request_id) db.scopes)
  modify λ db. record db {
    scopes = update_where (current_of request_id) (supersede_scope call.now) db.scopes;
  }
  let created = new_scope call request_id employer_id user_id (latest + 1) input
  modify λ db. record db { scopes = db.scopes ++ created ∷ [] }
  pure created

-- ScopeAuthorizationsRepository.getCurrent
unfoldable pub get_current : String → String → Database → Option ScopeAuthorization
get_current request_id employer_id db =
    find
      (λ (s : ScopeAuthorization).
        current_of request_id s && is_none s.revoked_at && str_eq s.employer_id employer_id)
      db.scopes

-- `getCurrentScope`
unfoldable pub get_current_scope : String → String → Action ScopeAuthorization
get_current_scope request_id employer_id =
    gets (get_current request_id employer_id) >>= λ found. or_raise found not_found
