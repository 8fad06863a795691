-- ===== src/Authorization/Guard.antt =====
-- PermissionGuard (src/core/security/guards/permission.guard.ts): what a request must pass before
-- its handler runs. `evaluate` is two functions here: `admit` (the route's metadata, up to the
-- permission's definition) and `decide` (role, scopes, audit, disclosure), which `can_activate`
-- composes. The audit service is a parameter, the test of whether a write succeeds; a verdict
-- carries the decisions handed to it.
pub mod Laws
pub mod Audit
pub mod Secrecy
use cyber_hub_api.Prelude.{
  ℕ, String, Bool, true, false, not, ◌&&◌, ◌||◌, Option, none, some, List, [], ◌∷◌, str_eq,
  is_empty, some_of, if◌then◌else◌,
}
use cyber_hub_api.Authorization.Types.{
  Role, same_role, ScopeType, own, org, asg, public, cond, auth_scope, PermissionKey, ApiId,
  AuthorizationMode, direct_permission, caller_domain_permission, ActorContext, ResourceContext,
  OperationContext, RouteParams,
}
use cyber_hub_api.Authorization.Permissions.{
  PermissionDefinition, is_permission_key, permission_registry,
}
use cyber_hub_api.Authorization.RolePolicies.{RolePolicy, get_role_policy}
use cyber_hub_api.Authorization.OperationPolicies.{OperationRolePolicy, get_operation_role_policy}
use cyber_hub_api.Authorization.Operations.{is_api_id, api_authorization_by_id}
use cyber_hub_api.Authorization.Operations.Row.{ApiOperationAuthorization}
use cyber_hub_api.Authorization.Disclosure.{
  DisclosurePolicy, disclose_forbidden, conceal_existence, not_applicable,
  resolve_disclosure_policy,
}
use cyber_hub_api.Authorization.Scope.{
  ScopeServices, ScopeEvaluationResult, is_resource_scope, resolve_and_evaluate, AuditReason,
  role_not_allowed, audit_resource_not_found, map_scope_failure_reason,
}

pub data GuardException : Type 0 where
  authorization_misconfigured permission_denied not_found_exception : GuardException
  security_scope_not_authorized database_exception : GuardException

pub data Answer : Type 0 where
  proceeds : Answer
  refused : GuardException → Answer

-- A computation that may throw.
pub data Attempt (A : Type 0) : Type 0 where
  raises : GuardException → Attempt A
  gives : A → Attempt A

-- The metadata that decorators put on a handler and its class.
pub record RouteMetadata : Type 0 where
  pub is_public_route : Bool
  pub is_authenticated_only : Bool
  pub permission_key : Option String
  pub api_id : Option String

pub record Principal : Type 0 where
  pub user_id : Option String
  pub role : Option Role
  pub employer_id : Option String

pub data Decision : Type 0 where
  allowed_decision denied_decision : Decision

pub record SafeAuditResource : Type 0 where
  pub resource_type : String
  pub resource_id : String
  pub owner_user_id : Option String
  pub employer_id : Option String

-- What the guard passes on of a resource: an allowing row is given the whole of it.
pub data AuditedResource : Type 0 where
  safe_resource : SafeAuditResource → AuditedResource
  whole_resource : ResourceContext → AuditedResource

pub record AuthorizationDecision : Type 0 where
  pub decision : Decision
  pub api_id : Option ApiId
  pub permission_key : PermissionKey
  pub actor_user_id : String
  pub actor_role : Role
  pub reason_code : Option AuditReason
  pub evaluated_scopes : List ScopeType
  pub resource : Option AuditedResource
  pub disclosure_policy : DisclosurePolicy
  pub workflow_sensitive : Bool
  pub auth_scope_required : Bool

-- What the guard answers, and the decisions that it handed to the audit service.
pub record Verdict : Type 0 where
  pub answer : Answer
  pub trail : List AuthorizationDecision

abbrev pub to_safe_audit_resource : Option ResourceContext → Option AuditedResource
to_safe_audit_resource none = none
to_safe_audit_resource (some r) = some (
    safe_resource record {
      resource_type = r.resource_type;
      resource_id = r.resource_id;
      owner_user_id = r.owner_user_id;
      employer_id = r.employer_id;
    })

abbrev pub to_whole_resource : Option ResourceContext → Option AuditedResource
to_whole_resource none = none
to_whole_resource (some r) = some (whole_resource r)

-- A text that JavaScript takes for true.
abbrev pub truthy : Option String → Option String
truthy none = none
truthy (some s) = if str_eq s "" then none else some s

abbrev pub is_caller_domain : AuthorizationMode → Bool
is_caller_domain caller_domain_permission = true
is_caller_domain direct_permission = false

abbrev pub keys_differ : Option String → Option String → Bool
keys_differ none declared = false
keys_differ (some key) none = false
keys_differ (some key) (some declared) = not (str_eq key declared)

abbrev check_operation :
    RouteMetadata → ApiOperationAuthorization → Attempt (Option ApiOperationAuthorization)
check_operation route op =
    if is_caller_domain op.authorization_mode
    then raises permission_denied
    else if keys_differ (truthy op.permission_key) (truthy route.permission_key)
    then raises authorization_misconfigured
    else gives (some op)

-- The entry of API_AUTHORIZATION_MAP that the route declares, if it declares one.
unfoldable pub find_operation : RouteMetadata → Attempt (Option ApiOperationAuthorization)
find_operation route = elim route.api_id [
  | none ↦ gives none
  | some api_id ↦
      if is_api_id api_id
      then elim (api_authorization_by_id api_id) [
        | none ↦ raises authorization_misconfigured
        | some op ↦ check_operation route op
      ]
      else raises authorization_misconfigured
]

abbrev pub entry_key : Option ApiOperationAuthorization → Option String
entry_key none = none
entry_key (some op) = op.permission_key

-- `operationEntry?.permissionKey ?? declaredPermissionKey`, where it is not empty.
abbrev pub effective_permission_key :
    RouteMetadata → Option ApiOperationAuthorization → Option String
effective_permission_key route entry = elim (entry_key entry) [
  | some key ↦ truthy (some key)
  | none ↦ truthy route.permission_key
]

-- The definition of a key that a route may ask for.
unfoldable pub usable_definition : PermissionKey → Option PermissionDefinition
usable_definition key =
    if is_permission_key key
    then elim (permission_registry key) [
      | none ↦ none
      | some definition ↦ if definition.system_only then none else some definition
    ]
    else none

-- A request that asks for a permission.
pub record Case : Type 0 where
  pub actor : ActorContext
  pub api_id : Option ApiId
  pub entry : Option ApiOperationAuthorization
  pub key : PermissionKey
  pub definition : PermissionDefinition

pub data Admission : Type 0 where
  open_route : Admission
  asks : Case → Admission

abbrev pub classify :
    RouteMetadata → ActorContext → Option ApiOperationAuthorization → Attempt Admission
classify route actor entry = elim (effective_permission_key route entry) [
  | none ↦
      if route.is_authenticated_only then gives open_route else raises authorization_misconfigured
  | some key ↦ elim (usable_definition key) [
    | none ↦ raises authorization_misconfigured
    | some definition ↦ gives (
        asks (record {
          actor = actor;
          api_id = route.api_id;
          entry = entry;
          key = key;
          definition = definition;
        }))
  ]
]

-- The actor that a principal is, unless it is missing or malformed.
abbrev pub identify : Option Principal → Option ActorContext
identify none = none
identify (some principal) = elim (truthy principal.user_id) [
  | none ↦ none
  | some user_id ↦ elim principal.role [
    | none ↦ none
    | some role ↦
        some (record { user_id = user_id; role = role; employer_id = principal.employer_id })
  ]
]

unfoldable pub admit : RouteMetadata → Option Principal → Attempt Admission
admit route principal =
    if route.is_public_route then gives open_route else elim (identify principal) [
      | none ↦ raises authorization_misconfigured
      | some actor ↦ elim (find_operation route) [
        | raises e ↦ raises e
        | gives entry ↦ classify route actor entry
      ]
    ]

-- The role is granted the permission, and the operation where there is one.
abbrev pub entry_allows : Option ApiOperationAuthorization → Role → Bool
entry_allows none role = true
entry_allows (some op) role = some_of (same_role role) op.roles

unfoldable pub role_allowed : Case → Bool
role_allowed c =
    some_of (same_role c.actor.role) c.definition.allowed_roles && entry_allows c.entry c.actor.role

-- The policy that a request is held to.
pub record EffectivePolicy : Type 0 where
  pub scope : List ScopeType
  pub resource_context_required : Bool
  pub assignment_required : Bool
  pub auth_scope_required : Bool
  pub condition_ids : Option (List String)

abbrev is_asg : ScopeType → Bool
is_asg asg = true
is_asg _ = false

abbrev is_auth_scope : ScopeType → Bool
is_auth_scope auth_scope = true
is_auth_scope _ = false

abbrev role_condition_ids : PermissionKey → Role → Option (List String)
role_condition_ids key role = elim (get_role_policy key role) [
  | none ↦ none
  | some policy ↦ policy.condition_ids
]

abbrev pub of_operation_role : PermissionKey → Role → OperationRolePolicy → EffectivePolicy
of_operation_role key role policy = record {
  scope = policy.scopes;
  resource_context_required = policy.resource_context_required;
  assignment_required = policy.assignment_required;
  auth_scope_required = policy.auth_scope_required;
  condition_ids = elim policy.condition_ids [
    | some ids ↦ some ids
    | none ↦ role_condition_ids key role
  ];
}

abbrev pub of_entry : PermissionKey → Role → ApiOperationAuthorization → EffectivePolicy
of_entry key role op = record {
  scope = op.scope;
  resource_context_required = op.resource_context_required;
  assignment_required = op.assignment_required;
  auth_scope_required = op.auth_scope_required;
  condition_ids = role_condition_ids key role;
}

abbrev pub of_role_policy : RolePolicy → EffectivePolicy
of_role_policy policy = record {
  scope = policy.scopes;
  resource_context_required = some_of is_resource_scope policy.scopes;
  assignment_required = some_of is_asg policy.scopes;
  auth_scope_required = some_of is_auth_scope policy.scopes;
  condition_ids = policy.condition_ids;
}

-- `declaredApiId && isApiId(declaredApiId) ? getOperationRolePolicy(...) : undefined`
abbrev pub operation_override : Option ApiId → Role → Option OperationRolePolicy
operation_override declared role = elim (truthy declared) [
  | none ↦ none
  | some api_id ↦ if is_api_id api_id then get_operation_role_policy api_id role else none
]

-- Exactly one source supplies the policy; `none` is the role without one, which is denied.
unfoldable pub effective_policy : Case → Option EffectivePolicy
effective_policy c = elim (operation_override c.api_id c.actor.role) [
  | some policy ↦ some (of_operation_role c.key c.actor.role policy)
  | none ↦ elim c.entry [
    | some op ↦ some (of_entry c.key c.actor.role op)
    | none ↦ elim (get_role_policy c.key c.actor.role) [
      | none ↦ none
      | some policy ↦ some (of_role_policy policy)
    ]
  ]
]

abbrev entry_mode : Option ApiOperationAuthorization → AuthorizationMode
entry_mode none = direct_permission
entry_mode (some op) = op.authorization_mode

abbrev pub operation_context : Case → EffectivePolicy → OperationContext
operation_context c policy = record {
  api_id = c.api_id;
  permission_key = c.key;
  scope = policy.scope;
  resource_context_required = policy.resource_context_required;
  assignment_required = policy.assignment_required;
  auth_scope_required = policy.auth_scope_required;
  authorization_mode = entry_mode c.entry;
  condition_ids = policy.condition_ids;
}

abbrev pub audit_required : Option ApiOperationAuthorization → Bool
audit_required none = false
audit_required (some op) = op.audit_required

abbrev entry_workflow_sensitive : Option ApiOperationAuthorization → Bool
entry_workflow_sensitive none = false
entry_workflow_sensitive (some op) = op.workflow_validation_required

abbrev entry_auth_scope_required : Option ApiOperationAuthorization → Bool
entry_auth_scope_required none = false
entry_auth_scope_required (some op) = op.auth_scope_required

-- The row for the audit service.
abbrev pub decision_row :
    Case
    → Decision
    → Option AuditReason
    → List ScopeType
    → Option AuditedResource
    → DisclosurePolicy
    → AuthorizationDecision
decision_row c decision reason scopes resource policy = record {
  decision = decision;
  api_id = c.api_id;
  permission_key = c.key;
  actor_user_id = c.actor.user_id;
  actor_role = c.actor.role;
  reason_code = reason;
  evaluated_scopes = scopes;
  resource = resource;
  disclosure_policy = policy;
  workflow_sensitive = entry_workflow_sensitive c.entry;
  auth_scope_required = entry_auth_scope_required c.entry;
}

-- `auditDenyIfRequired`, then the exception: a failed write changes nothing.
unfoldable pub audit_deny :
    Case
    → AuditReason
    → List ScopeType
    → Option ResourceContext
    → DisclosurePolicy
    → GuardException
    → Verdict
audit_deny c reason scopes resource policy e = record {
  answer = refused e;
  trail =
      if audit_required c.entry
      then decision_row c denied_decision (some reason) scopes (to_safe_audit_resource resource)
          policy
        ∷ []
      else [];
}

-- The refusal that the disclosure policy chooses.
unfoldable pub refusal : DisclosurePolicy → Option ScopeType → GuardException
refusal conceal_existence failed_scope = not_found_exception
refusal disclose_forbidden (some auth_scope) = security_scope_not_authorized
refusal not_applicable (some auth_scope) = security_scope_not_authorized
refusal _ _ = permission_denied

module _ (services : ScopeServices) (accepts : AuthorizationDecision → Bool) where
  -- `auditAllowIfRequired`, then `return true`: a failed write is a DatabaseException.
  unfoldable pub audit_allow : Case → List ScopeType → Bool → Option ResourceContext → Verdict
  audit_allow c scopes resource_context_required resource =
      let policy = resolve_disclosure_policy c.key c.api_id resource_context_required in
      let row = decision_row c allowed_decision none scopes (to_whole_resource resource) policy in
      if audit_required c.entry
      then record {
        answer = if accepts row then proceeds else refused database_exception;
        trail = row ∷ [];
      }
      else record { answer = proceeds; trail = [] }

  unfoldable pub conclude : Case → EffectivePolicy → ScopeEvaluationResult → Verdict
  conclude c policy result =
      let disclosure = resolve_disclosure_policy c.key c.api_id policy.resource_context_required in
      if result.allowed
      then audit_allow c policy.scope policy.resource_context_required result.resource
      else if result.is_not_found
      then audit_deny c audit_resource_not_found policy.scope none disclosure not_found_exception
      else audit_deny c (map_scope_failure_reason result.reason) policy.scope result.resource
          disclosure (refusal disclosure result.failed_scope)

  unfoldable pub decide : Case → RouteParams → Verdict
  decide c params =
      if not (role_allowed c)
      then audit_deny c role_not_allowed [] none (resolve_disclosure_policy c.key c.api_id false)
          permission_denied
      else elim (effective_policy c) [
        | none ↦ record { answer = refused permission_denied; trail = [] }
        | some policy ↦
            if is_empty policy.scope
            then audit_allow c [] false none
            else conclude c policy (
                resolve_and_evaluate services c.actor (operation_context c policy)
                  c.definition.domain params)
      ]

  -- `canActivate`
  unfoldable pub can_activate : RouteMetadata → Option Principal → RouteParams → Verdict
  can_activate route principal params = elim (admit route principal) [
    | raises e ↦ record { answer = refused e; trail = [] }
    | gives open_route ↦ record { answer = proceeds; trail = [] }
    | gives (asks c) ↦ decide c params
  ]
