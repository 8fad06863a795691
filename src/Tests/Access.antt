-- ===== src/Tests/Access.antt =====
-- The authorization theorems on a business that confirms the scope of its own consulting request.
use cyber_hub_api.Prelude.{
  ◌≡◌, refl, ◌≢◌, ◌⊎◌, ◌↔◌, String, Bool, true, false, Option, none, some, [], ◌∷◌, Memᴰ, arith,
  some_of, All,
}
use cyber_hub_api.Authorization.Types.{
  same_role, role_business, role_consultant, role_admin, role_learner, org, asg, cond, ActorContext,
  ResourceContext, RouteParams, OperationContext,
}
use cyber_hub_api.Authorization.Permissions.{
  define, PermissionDefinition, is_permission_key, permission_registry,
}
use cyber_hub_api.Authorization.RolePolicies.{get_role_policy}
use cyber_hub_api.Authorization.OperationPolicies.{get_operation_role_policy}
use cyber_hub_api.Authorization.Operations.{is_api_id, api_authorization_by_id}
use cyber_hub_api.Authorization.Operations.Row.{ApiOperationAuthorization, operation}
use cyber_hub_api.Workflow.Operations.{WorkflowOperationMapping, get_workflow_operation_mapping}
use cyber_hub_api.Authorization.Operations.Laws.{
  workflow_validation_iff_mapped, operation_roles_allowed,
}
use cyber_hub_api.Authorization.Conditions.{
  ConditionRegistry, production_conditions, new_condition_registry,
}
use cyber_hub_api.Authorization.Conditions.Laws.{production_cond_denied}
use cyber_hub_api.Authorization.Resolver.{returned, resolve_outcome}
use cyber_hub_api.Authorization.AuthScope.{
  first_row, AuthScopeTables, AssessmentRow, AuthorizationRow, RequestRow, row, json_array, text,
  AuthScopeInput, evaluate_assessment, evaluate_consulting_request,
  load_consulting_request_scope_context, parse_string_array, load_assessment_security_context,
  evaluate_context, evaluate_request_context, AssessmentSecurityContext,
}
use cyber_hub_api.Authorization.AuthScope.Laws.{
  Evidence, Authorizes, InForce, evaluate_assessment_iff, evaluate_consulting_request_iff,
}
use cyber_hub_api.Authorization.Disclosure.{resolve_disclosure_policy}
use cyber_hub_api.Authorization.Scope.{
  ScopeServices, resolve_and_evaluate, evaluate_scopes, evaluate_each, evaluate_single,
  evaluate_org, needs_resource,
}
use cyber_hub_api.Authorization.Scope.Laws.{Against, Satisfied, resolve_and_evaluate_iff}
use cyber_hub_api.Authorization.Scope.Absence.{resolve_and_evaluate_not_found}
use cyber_hub_api.Authorization.Guard.{
  permission_denied, not_found_exception, proceeds, refused, gives, asks, RouteMetadata, Principal,
  AuthorizationDecision, Case, find_operation, usable_definition, admit, role_allowed,
  EffectivePolicy, effective_policy, audit_deny, audit_allow, conclude, decide, can_activate,
  refusal, operation_context,
}
use cyber_hub_api.Authorization.Guard.Laws.{IsCase, IsOpen, IsGranted, can_activate_sound}
use cyber_hub_api.Authorization.Guard.Audit.{
  IsRecorded, decide-IsRecorded, can_activate_same_refusal, can_activate_complete,
}
use cyber_hub_api.Authorization.Guard.Secrecy.{concealed_like_absent}

-- An authorization for a request of employer "e1", in force between 10 and 90.
abbrev authorization : AuthorizationRow
authorization = record {
  id = "auth-1";
  consulting_request_id = "req-1";
  employer_id = "e1";
  is_current = true;
  revoked_at = none;
  valid_from = 10;
  valid_until = some 90;
  authorized_targets = json_array (text "example.org" ∷ []);
  allowed_activities = json_array (text "PENTEST" ∷ []);
}

abbrev assessment : AssessmentRow
assessment = record {
  id = "asm-1";
  employer_id = "e1";
  consulting_request_id = "req-1";
  scope_authorization_id = "auth-1";
  assigned_consultant_id = "u2";
  service = "PENTEST";
}

abbrev request : RequestRow
request = record { id = "req-1"; employer_id = "e1"; requested_service = "PENTEST" }

abbrev tables : AuthScopeTables
tables = record {
  assessment_by_id = λ id. row (some assessment);
  authorization_by_id = λ id. row (some authorization);
  request_by_id = λ id. row (some request);
  current_authorization_of = λ id. row (some authorization);
  assessment_id_of_finding = λ id. row (some "asm-1");
}

abbrev input : AuthScopeInput
input = record {
  assessment_id = "asm-1";
  requested_target = some "example.org";
  requested_activity = none;
}

evaluate_assessment_iff_example :
    (input.assessment_id ≢ "")
    × ((context : AssessmentSecurityContext) × Evidence tables "asm-1" context
        × Authorizes 50 context input)
unfolding evaluate_assessment load_assessment_security_context evaluate_context parse_string_array
evaluate_assessment_iff_example = (evaluate_assessment_iff tables 50 input).0 refl

evaluate_consulting_request_iff_example :
    (r : RequestRow) × (a : AuthorizationRow) × (first_row (tables.request_by_id (some "req-1"))
      ≡ some r)
    × (first_row (tables.current_authorization_of (some "req-1")) ≡ some a)
    × (a.consulting_request_id ≡ r.id)
    × (a.employer_id ≡ r.employer_id)
    × InForce a 90
unfolding evaluate_consulting_request load_consulting_request_scope_context evaluate_request_context
evaluate_consulting_request_iff_example =
    (evaluate_consulting_request_iff tables 90 (some "req-1")).0 refl

-- A resource of an employer.
abbrev belonging_to : String → ResourceContext
belonging_to employer = record {
  resource_type = "consulting";
  resource_id = "req-1";
  owner_user_id = none;
  employer_id = some employer;
  assigned_user_ids = none;
  is_public = none;
  condition_facts = none;
}

-- The services where the resolver of consulting requests gives that answer.
abbrev answering : Option ResourceContext → ScopeServices
answering answer = record {
  conditions = [];
  resolvers =
      (
        "consulting",
        record { resource_type = "consulting"; resolve = λ actor params. returned answer },
      )
      ∷ [];
  tables = tables;
  now = 50;
}

abbrev own_request : ScopeServices
own_request = answering (some (belonging_to "e1"))

abbrev foreign_request : ScopeServices
foreign_request = answering (some (belonging_to "e2"))

abbrev no_request : ScopeServices
no_request = answering none

abbrev no_params : RouteParams
no_params name = none

abbrev always : AuthorizationDecision → Bool
always d = true

abbrev never : AuthorizationDecision → Bool
never d = false

abbrev route : RouteMetadata
route = record {
  is_public_route = false;
  is_authenticated_only = false;
  permission_key = none;
  api_id = some "API-CON-004";
}

abbrev business : Principal
business = record { user_id = some "u1"; role = some role_business; employer_id = some "e1" }

abbrev learner : Principal
learner = record { user_id = some "u3"; role = some role_learner; employer_id = none }

abbrev business_actor : ActorContext
business_actor = record { user_id = "u1"; role = role_business; employer_id = some "e1" }

abbrev confirming : Case
confirming = record {
  actor = business_actor;
  api_id = some "API-CON-004";
  entry = api_authorization_by_id "API-CON-004";
  key = "consulting.scope.confirm_own";
  definition =
      define "consulting.scope.confirm_own" "consulting"
        "Confirm explicit testing scope/authorisation"
        (role_business ∷ role_consultant ∷ role_admin ∷ []) (org ∷ asg ∷ []) false false;
}

abbrev confirming_policy : EffectivePolicy
confirming_policy = record {
  scope = org ∷ [];
  resource_context_required = true;
  assignment_required = false;
  auth_scope_required = false;
  condition_ids = none;
}

confirming_admitted : admit route (some business) ≡ gives (asks confirming)
unfolding admit find_operation is_api_id api_authorization_by_id usable_definition is_permission_key
    permission_registry
confirming_admitted = refl

confirming_listed : role_allowed confirming ≡ true
unfolding role_allowed api_authorization_by_id
confirming_listed = refl

confirming_policy_chosen : effective_policy confirming ≡ some confirming_policy
unfolding effective_policy is_api_id get_operation_role_policy api_authorization_by_id
    get_role_policy
confirming_policy_chosen = refl

evaluated_own :
    (resolve_and_evaluate own_request business_actor
      (operation_context confirming confirming_policy)
      "consulting"
      no_params).allowed
    ≡ true
unfolding resolve_and_evaluate needs_resource resolve_outcome evaluate_scopes evaluate_each
    evaluate_single evaluate_org
evaluated_own = refl

-- The guard lets the business confirm the scope of its own request.
business_passes :
    (can_activate own_request always route (some business) no_params).answer ≡ proceeds
unfolding can_activate decide role_allowed effective_policy conclude audit_allow
    resolve_and_evaluate needs_resource resolve_outcome evaluate_scopes evaluate_each
    evaluate_single evaluate_org resolve_disclosure_policy admit find_operation is_api_id
    api_authorization_by_id usable_definition is_permission_key permission_registry
    get_operation_role_policy get_role_policy
business_passes = refl

can_activate_sound_example :
    IsOpen route (some business)
    ⊎ ((c : Case) × IsCase route (some business) c × IsGranted own_request no_params c)
can_activate_sound_example =
    can_activate_sound own_request no_params always route (some business) business_passes

-- Another employer's request is answered like one that does not exist.
business_refused :
    (decide foreign_request always confirming no_params).answer ≡ refused not_found_exception
unfolding decide role_allowed effective_policy conclude audit_deny refusal resolve_and_evaluate
    needs_resource resolve_outcome evaluate_scopes evaluate_each evaluate_single evaluate_org
    resolve_disclosure_policy is_api_id api_authorization_by_id get_operation_role_policy
    get_role_policy
business_refused = refl

concealed_like_absent_example :
    (decide no_request never confirming no_params).answer
    ≡ (decide foreign_request always confirming no_params).answer
unfolding resolve_disclosure_policy resolve_outcome
concealed_like_absent_example =
    concealed_like_absent confirming confirming_policy confirming_listed confirming_policy_chosen
      (λ e. ground arith) refl foreign_request no_request always never no_params no_params
      not_found_exception business_refused (λ e. ground arith) refl

confirming-IsGranted : IsGranted own_request no_params confirming
confirming-IsGranted = (
  confirming_policy,
  confirming_listed,
  confirming_policy_chosen,
  (resolve_and_evaluate_iff own_request business_actor
        (operation_context confirming confirming_policy) no_params "consulting").0
      evaluated_own,
)

confirming_passes : (decide own_request always confirming no_params).answer ≡ proceeds
unfolding decide role_allowed effective_policy conclude audit_allow resolve_and_evaluate
    needs_resource resolve_outcome evaluate_scopes evaluate_each evaluate_single evaluate_org
    resolve_disclosure_policy is_api_id api_authorization_by_id get_operation_role_policy
    get_role_policy
confirming_passes = refl

decide-IsRecorded_example :
    IsRecorded always confirming (decide own_request always confirming no_params)
unfolding api_authorization_by_id
decide-IsRecorded_example =
    decide-IsRecorded own_request no_params always confirming refl confirming_passes

can_activate_complete_example :
    (can_activate own_request always route (some business) no_params).answer ≡ proceeds
can_activate_complete_example =
    (can_activate_complete own_request no_params always (λ d. refl) route (some business)
        (asks confirming) confirming_admitted).1
      confirming-IsGranted

-- A learner is refused by the role, whether the audit service works or not.
learner_refused :
    (can_activate own_request always route (some learner) no_params).answer
    ≡ refused permission_denied
unfolding can_activate decide role_allowed audit_deny admit find_operation is_api_id
    api_authorization_by_id usable_definition is_permission_key permission_registry
    resolve_disclosure_policy
learner_refused = refl

can_activate_same_refusal_example :
    (can_activate own_request never route (some learner) no_params).answer
    ≡ refused permission_denied
can_activate_same_refusal_example =
    can_activate_same_refusal own_request no_params always never permission_denied
      (λ e. ground arith) route (some learner) learner_refused

-- The contexts of the scope theorems.
abbrev confirming_operation : OperationContext
confirming_operation = operation_context confirming confirming_policy

resolve_and_evaluate_iff_example :
    (confirming_operation.scope ≡ [])
    ⊎ ((r : Option ResourceContext) × Against own_request business_actor confirming_operation
          no_params "consulting" r
        × All
            (Satisfied own_request business_actor confirming_operation no_params r)
            confirming_operation.scope)
resolve_and_evaluate_iff_example =
    (resolve_and_evaluate_iff own_request business_actor confirming_operation no_params
        "consulting").0
      evaluated_own

resolve_and_evaluate_not_found_example :
    (resolve_and_evaluate no_request business_actor confirming_operation "consulting"
      no_params).is_not_found
    ≡ true
unfolding needs_resource resolve_outcome
resolve_and_evaluate_not_found_example =
    (resolve_and_evaluate_not_found no_request business_actor confirming_operation no_params
        "consulting").1
      (λ e. ground arith, refl, refl)

-- The services with the production conditions.
abbrev registry_of : Option ConditionRegistry → ConditionRegistry
registry_of none = []
registry_of (some registry) = registry

abbrev in_production : ScopeServices
in_production = record own_request {
  conditions = registry_of (new_condition_registry production_conditions);
}

abbrev conditional_operation : OperationContext
conditional_operation = record confirming_operation {
  scope = cond ∷ [];
  condition_ids = some ("MONITORING_SUBSCRIPTION_ACTIVE" ∷ []);
}

production_cond_denied_example :
    (resolve_and_evaluate in_production business_actor conditional_operation "monitoring"
      no_params).allowed
    ≡ false
unfolding new_condition_registry production_conditions
production_cond_denied_example =
    production_cond_denied in_production refl business_actor conditional_operation no_params
      "monitoring" (Memᴰ.head refl)

-- An operation of the API map.
abbrev business_view : ApiOperationAuthorization
business_view = record (operation "API-ACC-003" "GET" "/me/business") {
  permission_key = some "account.profile.read_update_own";
  roles = role_business ∷ [];
  scope = org ∷ [];
}

workflow_validation_iff_mapped_example : (business_view.workflow_validation_required ≡ true) ↔ (
    (m : WorkflowOperationMapping) × (get_workflow_operation_mapping business_view.api_id ≡ some m))
workflow_validation_iff_mapped_example =
    workflow_validation_iff_mapped business_view (Memᴰ.tail (Memᴰ.tail (Memᴰ.head refl)))

operation_roles_allowed_example :
    (d : PermissionDefinition) × (permission_registry "account.profile.read_update_own" ≡ some d)
    × (d.system_only ≡ false)
    × (some_of (same_role role_business) d.allowed_roles ≡ true)
operation_roles_allowed_example =
    operation_roles_allowed business_view "account.profile.read_update_own" role_business
      (Memᴰ.tail (Memᴰ.tail (Memᴰ.head refl))) refl (Memᴰ.head refl)
