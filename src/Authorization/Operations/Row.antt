-- ===== src/Authorization/Operations/Row.antt =====
-- A row of API_AUTHORIZATION_MAP (src/core/security/authorization/api-authorization-map.ts).
use cyber_hub_api.Prelude.{String, Bool, true, false, Option, none, List, []}
use cyber_hub_api.Authorization.Types.{
  Role, ScopeType, PermissionKey, RouteClassification, permission_protected, AuthorizationMode,
  direct_permission,
}

pub record ApiOperationAuthorization : Type 0 where
  pub api_id : String
  pub method : String
  pub path : String
  pub requires_auth : Bool
  pub classification : RouteClassification
  pub authorization_mode : AuthorizationMode
  pub permission_key : Option PermissionKey
  pub additional_permission_keys : Option (List PermissionKey)
  pub roles : List Role
  pub scope : List ScopeType
  pub resource_context_required : Bool
  pub assignment_required : Bool
  pub auth_scope_required : Bool
  pub workflow_validation_required : Bool
  pub audit_required : Bool
  pub non_disclosure : Option String
  pub verification_mode : Option String
  pub implementation_status : Option String
  pub note : Option String

-- The commonest values of a row; a row of the table writes the others.
abbrev pub operation : String → String → String → ApiOperationAuthorization
operation api_id method path = record {
  api_id = api_id;
  method = method;
  path = path;
  requires_auth = true;
  classification = permission_protected;
  authorization_mode = direct_permission;
  permission_key = none;
  additional_permission_keys = none;
  roles = [];
  scope = [];
  resource_context_required = false;
  assignment_required = false;
  auth_scope_required = false;
  workflow_validation_required = false;
  audit_required = false;
  non_disclosure = none;
  verification_mode = none;
  implementation_status = none;
  note = none;
}
