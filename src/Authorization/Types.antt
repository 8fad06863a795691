-- ===== src/Authorization/Types.antt =====
-- The vocabulary of authorization (src/core/security/authorization: role.types.ts, scope.types.ts,
-- authorization-context.types.ts). A union of literals is a data type with the literal of each
-- constructor in a function to texts.
use cyber_hub_api.Prelude.{String, List, Bool, Option, str_eq}

pub data Role : Type 0 where
  role_learner role_business role_mentor role_consultant role_admin : Role

abbrev pub role_name : Role → String
role_name role_learner = "ROLE_LEARNER"
role_name role_business = "ROLE_BUSINESS"
role_name role_mentor = "ROLE_MENTOR"
role_name role_consultant = "ROLE_CONSULTANT"
role_name role_admin = "ROLE_ADMIN"

abbrev pub same_role : Role → Role → Bool
same_role a b = str_eq (role_name a) (role_name b)

-- OWN, ORG, ASG, PUB, COND, AUTH_SCOPE
pub data ScopeType : Type 0 where
  own org asg public cond auth_scope : ScopeType

pub data RouteClassification : Type 0 where
  public_route authenticated_only permission_protected : RouteClassification

pub data AuthorizationMode : Type 0 where
  direct_permission caller_domain_permission : AuthorizationMode

abbrev pub PermissionKey : Type 0
PermissionKey = String

abbrev pub ApiId : Type 0
ApiId = String

-- Route parameters: the value of each name that the route has.
abbrev pub RouteParams : Type 0
RouteParams = String → Option String

pub record ActorContext : Type 0 where
  pub user_id : String
  pub role : Role
  pub employer_id : Option String

pub record ResourceContext : Type 0 where
  pub resource_type : String
  pub resource_id : String
  pub owner_user_id : Option String
  pub employer_id : Option String
  pub assigned_user_ids : Option (List String)
  pub is_public : Option Bool
  pub condition_facts : Option (List (String × Bool))

pub record OperationContext : Type 0 where
  pub api_id : Option ApiId
  pub permission_key : PermissionKey
  pub scope : List ScopeType
  pub resource_context_required : Bool
  pub assignment_required : Bool
  pub auth_scope_required : Bool
  pub authorization_mode : AuthorizationMode
  pub condition_ids : Option (List String)
