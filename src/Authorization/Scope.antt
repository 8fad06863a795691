-- ===== src/Authorization/Scope.antt =====
-- The evaluation of scopes (src/core/security/authorization/scope-evaluation.service.ts), and the
-- audit code of a failure (authorization-audit-reason.util.ts). A reason is a text in the source;
-- here it is a constructor for each message, with what the message quotes.
pub mod Facts
pub mod Laws
pub mod Absence
use cyber_hub_api.Prelude.{
  ℕ, String, Bool, true, false, not, ◌&&◌, ◌||◌, Option, none, some, List, [], ◌∷◌, str_eq,
  includes, is_empty, some_of, if◌then◌else◌,
}
use cyber_hub_api.Authorization.Types.{
  ScopeType, own, org, asg, public, cond, auth_scope, ActorContext, ResourceContext,
  OperationContext, RouteParams, ApiId,
}
use cyber_hub_api.Authorization.Conditions.{
  ConditionStatus, implemented, deferred, ConditionDefinition, ConditionRegistry, get_condition,
}
use cyber_hub_api.Authorization.Resolver.{ResolverRegistry, found, not_found, resolve_outcome}
use cyber_hub_api.Authorization.AuthScope.{
  AuthScopeTables, AuthScopeReason, no_request_locator, no_assessment_locator, AuthScopeResult,
  scope_allowed, scope_denied, evaluate_assessment, evaluate_consulting_request,
  evaluate_assessment_creation, evaluate_finding, assessment_input,
}

pub data ScopeFailureReason : Type 0 where
  own_mismatch org_mismatch not_assigned not_public : ScopeFailureReason
  cond_no_ids : ScopeFailureReason
  cond_unknown cond_false cond_threw : String → ScopeFailureReason
  cond_unavailable : String → ConditionStatus → ScopeFailureReason
  auth_scope_failed : AuthScopeReason → ScopeFailureReason
  no_resource_resolved resource_not_found : String → ScopeFailureReason
  resource_context_missing : ScopeFailureReason

pub record ScopeEvaluationResult : Type 0 where
  pub allowed : Bool
  pub reason : Option ScopeFailureReason
  pub failed_scope : Option ScopeType
  -- `outcome: "NOT_FOUND"`
  pub is_not_found : Bool
  pub resource : Option ResourceContext

abbrev pub allow : ScopeEvaluationResult
allow = record {
  allowed = true;
  reason = none;
  failed_scope = none;
  is_not_found = false;
  resource = none;
}

abbrev pub refuse : Option ScopeFailureReason → ScopeEvaluationResult
refuse reason = record {
  allowed = false;
  reason = reason;
  failed_scope = none;
  is_not_found = false;
  resource = none;
}

-- `typeof v === "string" && v.length > 0 && v === w`, and `if (!v) return false`
abbrev pub is_text : Option String → String → Bool
is_text none w = false
is_text (some v) w = not (str_eq v "") && str_eq v w

unfoldable pub evaluate_own : ActorContext → Option ResourceContext → Bool
evaluate_own actor none = false
evaluate_own actor (some resource) = is_text resource.owner_user_id actor.user_id

abbrev pub same_tenant : Option String → Option String → Bool
same_tenant none of_resource = false
same_tenant (some employer_id) of_resource =
    if str_eq employer_id "" then false else is_text of_resource employer_id

unfoldable pub evaluate_org : ActorContext → Option ResourceContext → Bool
evaluate_org actor none = false
evaluate_org actor (some resource) = same_tenant actor.employer_id resource.employer_id

abbrev pub is_assigned : Option (List String) → String → Bool
is_assigned none user_id = false
is_assigned (some ids) user_id = if is_empty ids then false else includes user_id ids

unfoldable pub evaluate_asg : ActorContext → Option ResourceContext → Bool
evaluate_asg actor none = false
evaluate_asg actor (some resource) = is_assigned resource.assigned_user_ids actor.user_id

abbrev pub is_true : Option Bool → Bool
is_true none = false
is_true (some b) = b

unfoldable pub evaluate_pub : Option ResourceContext → Bool
evaluate_pub none = false
evaluate_pub (some resource) = is_true resource.is_public

-- `definition.evaluate({ actor, resource })` under `try`
abbrev pub run_condition :
    String → ActorContext → Option ResourceContext → ConditionDefinition → ScopeEvaluationResult
run_condition id actor resource definition = elim definition.status [
  | deferred ↦ refuse (some (cond_unavailable id deferred))
  | implemented ↦ elim definition.evaluate [
    | none ↦ refuse (some (cond_unavailable id implemented))
    | some evaluate ↦ elim (evaluate actor resource) [
      | none ↦ refuse (some (cond_threw id))
      | some passed ↦ if passed then allow else refuse (some (cond_false id))
    ]
  ]
]

abbrev pub evaluate_condition :
    ConditionRegistry → String → ActorContext → Option ResourceContext → ScopeEvaluationResult
evaluate_condition conditions id actor resource = elim (get_condition conditions id) [
  | none ↦ refuse (some (cond_unknown id))
  | some definition ↦ run_condition id actor resource definition
]

-- The loop of `evaluateCond`.
unfoldable pub evaluate_conditions :
    ConditionRegistry → List String → ActorContext → Option ResourceContext → ScopeEvaluationResult
evaluate_conditions conditions [] actor resource = allow
evaluate_conditions conditions (id ∷ ids) actor resource =
    let here = evaluate_condition conditions id actor resource in
    let rest = evaluate_conditions conditions ids actor resource in
    if here.allowed then rest else here

unfoldable pub evaluate_cond :
    ConditionRegistry
    → Option (List String)
    → ActorContext
    → Option ResourceContext
    → ScopeEvaluationResult
evaluate_cond conditions none actor resource = refuse (some cond_no_ids)
evaluate_cond conditions (some []) actor resource = refuse (some cond_no_ids)
evaluate_cond conditions (some (id ∷ ids)) actor resource =
    evaluate_conditions conditions (id ∷ ids) actor resource

-- An AuthScopeEvaluationResult, as the caller returns it.
abbrev pub of_auth_scope : AuthScopeResult → ScopeEvaluationResult
of_auth_scope scope_allowed = allow
of_auth_scope (scope_denied none) = refuse none
of_auth_scope (scope_denied (some reason)) = refuse (some (auth_scope_failed reason))

-- `if (!value)` of a route parameter: absent, or the empty text.
abbrev pub locator : Option String → Option String
locator none = none
locator (some value) = if str_eq value "" then none else some value

abbrev pub is_api : Option ApiId → String → Bool
is_api none id = false
is_api (some api_id) id = str_eq api_id id

unfoldable pub evaluate_auth_scope :
    AuthScopeTables → ℕ → RouteParams → Option ApiId → AuthScopeResult
evaluate_auth_scope db now params api_id =
    if is_api api_id "API-CON-012"
    then elim (locator (params "requestId")) [
      | none ↦ scope_denied (some no_request_locator)
      | some request_id ↦ evaluate_consulting_request db now (some request_id)
    ]
    else if is_api api_id "API-ASM-001"
    then evaluate_assessment_creation db now (params "requestId")
    else elim (locator (params "findingId")) [
      | some finding_id ↦ evaluate_finding db now finding_id
      | none ↦ elim (locator (params "assessmentId")) [
        | none ↦ scope_denied (some no_assessment_locator)
        | some assessment_id ↦ evaluate_assessment db now (assessment_input db now assessment_id)
      ]
    ]

abbrev pub is_resource_scope : ScopeType → Bool
is_resource_scope own = true
is_resource_scope org = true
is_resource_scope asg = true
is_resource_scope public = true
is_resource_scope cond = false
is_resource_scope auth_scope = false

unfoldable pub needs_resource : List ScopeType → Bool → Bool
needs_resource scope resource_context_required =
    some_of is_resource_scope scope || resource_context_required

-- What the service is built from: the condition registry, the resolvers, the tables behind
-- AUTH_SCOPE and the clock.
pub record ScopeServices : Type 0 where
  pub conditions : ConditionRegistry
  pub resolvers : ResolverRegistry
  pub tables : AuthScopeTables
  pub now : ℕ

module _ (services : ScopeServices) where
  open services use {conditions, resolvers, tables, now}

  unfoldable pub evaluate_single :
      ScopeType
      → ActorContext
      → Option ResourceContext
      → Option (List String)
      → RouteParams
      → Option ApiId
      → ScopeEvaluationResult
  evaluate_single own actor resource ids params api_id =
      if evaluate_own actor resource then allow else refuse (some own_mismatch)
  evaluate_single org actor resource ids params api_id =
      if evaluate_org actor resource then allow else refuse (some org_mismatch)
  evaluate_single asg actor resource ids params api_id =
      if evaluate_asg actor resource then allow else refuse (some not_assigned)
  evaluate_single public actor resource ids params api_id =
      if evaluate_pub resource then allow else refuse (some not_public)
  evaluate_single cond actor resource ids params api_id =
      evaluate_cond conditions ids actor resource
  evaluate_single auth_scope actor resource ids params api_id =
      of_auth_scope (evaluate_auth_scope tables now params api_id)

  -- The loop of `evaluate`.
  unfoldable pub evaluate_each :
      List ScopeType
      → OperationContext
      → ActorContext
      → Option ResourceContext
      → RouteParams
      → ScopeEvaluationResult
  evaluate_each [] operation actor resource params = record allow { resource = resource }
  evaluate_each (scope_type ∷ rest) operation actor resource params =
      let result =
        evaluate_single scope_type actor resource operation.condition_ids params operation.api_id in
      let later = evaluate_each rest operation actor resource params in
      if not result.allowed
      then record {
        allowed = result.allowed;
        reason = result.reason;
        failed_scope = some scope_type;
        is_not_found = result.is_not_found;
        resource = resource;
      }
      else later

  abbrev pub is_missing : Option ResourceContext → Bool
  is_missing none = true
  is_missing (some _) = false

  unfoldable pub evaluate_scopes :
      ActorContext → OperationContext → Option ResourceContext → RouteParams → ScopeEvaluationResult
  evaluate_scopes actor operation resource params =
      if is_empty operation.scope
      then allow
      else if needs_resource operation.scope operation.resource_context_required
          && is_missing resource
      then refuse (some resource_context_missing)
      else evaluate_each operation.scope operation actor resource params

  unfoldable pub resolve_and_evaluate :
      ActorContext → OperationContext → String → RouteParams → ScopeEvaluationResult
  resolve_and_evaluate actor operation resource_type params =
      if is_empty operation.scope
      then allow
      else if needs_resource operation.scope operation.resource_context_required
      then elim (resolve_outcome resolvers resource_type actor params) [
        | not_found ↦ record (refuse (some (resource_not_found resource_type))) {
          is_not_found = true;
        }
        | found resource ↦ evaluate_scopes actor operation (some resource) params
        | _ ↦ refuse (some (no_resource_resolved resource_type))
      ]
      else evaluate_scopes actor operation none params

-- AuthorizationAuditReason
pub data AuditReason : Type 0 where
  role_not_allowed audit_resource_not_found own_scope_denied org_scope_denied : AuditReason
  asg_scope_denied pub_scope_denied cond_denied auth_scope_denied : AuditReason
  resolver_failed other_safe_internal_reason : AuditReason

-- The prefix of the reason's text decides.
unfoldable pub map_scope_failure_reason : Option ScopeFailureReason → AuditReason
map_scope_failure_reason none = other_safe_internal_reason
map_scope_failure_reason (some own_mismatch) = own_scope_denied
map_scope_failure_reason (some org_mismatch) = org_scope_denied
map_scope_failure_reason (some not_assigned) = asg_scope_denied
map_scope_failure_reason (some not_public) = pub_scope_denied
map_scope_failure_reason (some cond_no_ids) = cond_denied
map_scope_failure_reason (some (cond_unknown id)) = cond_denied
map_scope_failure_reason (some (cond_false id)) = cond_denied
map_scope_failure_reason (some (cond_threw id)) = cond_denied
map_scope_failure_reason (some (cond_unavailable id status)) = cond_denied
map_scope_failure_reason (some (auth_scope_failed reason)) = auth_scope_denied
map_scope_failure_reason (some (no_resource_resolved resource_type)) = resolver_failed
map_scope_failure_reason (some resource_context_missing) = resolver_failed
map_scope_failure_reason (some (resource_not_found resource_type)) = audit_resource_not_found
