-- ===== src/Authorization/Scope/Absence.antt =====
-- When the evaluation reports that a resource does not exist.
use cyber_hub_api.Prelude.{
  ◌≡◌, refl, ap, ◌↔◌, ◌≢◌, String, true, false, Option, none, some, List, [], ◌∷◌, arith,
  Bool-cases, Option-cases, inl, inr, is_empty, eq-nil_of_is_empty,
}
use cyber_hub_api.Authorization.Types.{
  ScopeType, own, org, asg, public, cond, auth_scope, ActorContext, ResourceContext,
  OperationContext, RouteParams,
}
use cyber_hub_api.Authorization.Conditions.{ConditionRegistry, get_condition}
use cyber_hub_api.Authorization.Resolver.{
  ResourceResolutionOutcome, found, not_found, no_resolver, resolver_failure, resolve_outcome,
}
use cyber_hub_api.Authorization.AuthScope.{AuthScopeResult, scope_allowed, scope_denied}
use cyber_hub_api.Authorization.Scope.{
  ScopeServices, evaluate_condition, evaluate_conditions, evaluate_cond, of_auth_scope,
  evaluate_auth_scope, needs_resource, evaluate_single, evaluate_each, evaluate_scopes,
  resolve_and_evaluate,
}

module _ (actor : ActorContext) (conditions : ConditionRegistry) (r : Option ResourceContext) where
  condition_quiet : (id : String) → (evaluate_condition conditions id actor r).is_not_found ≡ false
  condition_quiet id = elim (Option-cases (get_condition conditions id)) [
    | inl gone ↦ ground arith
    | inr (c, located) ↦ elim (Option-cases c.evaluate) [
      | inl empty ↦ ground arith
      | inr (f, given) ↦ ground arith
    ]
  ]

  conditions_quiet :
      (ids : List String) → (evaluate_conditions conditions ids actor r).is_not_found ≡ false
  unfolding evaluate_conditions
  conditions_quiet [] = refl
  conditions_quiet (id ∷ ids) =
      let here = condition_quiet id in let rest = conditions_quiet ids in ground arith

  cond_quiet :
      (ids : Option (List String)) → (evaluate_cond conditions ids actor r).is_not_found ≡ false
  unfolding evaluate_cond
  cond_quiet none = refl
  cond_quiet (some []) = refl
  cond_quiet (some (id ∷ ids)) = conditions_quiet (id ∷ ids)

auth_quiet : (a : AuthScopeResult) → (of_auth_scope a).is_not_found ≡ false
auth_quiet scope_allowed = refl
auth_quiet (scope_denied none) = refl
auth_quiet (scope_denied (some x)) = refl

module _ (services : ScopeServices) (actor : ActorContext) (operation : OperationContext)
    (params : RouteParams) where
  open services use {conditions, resolvers, tables, now}

  module _ (r : Option ResourceContext) where
    single_quiet :
        (s : ScopeType)
        → (evaluate_single services s actor r operation.condition_ids params
            operation.api_id).is_not_found
          ≡ false
    unfolding evaluate_single
    single_quiet own = ground arith
    single_quiet org = ground arith
    single_quiet asg = ground arith
    single_quiet public = ground arith
    single_quiet cond = cond_quiet actor conditions r operation.condition_ids
    single_quiet auth_scope = auth_quiet (evaluate_auth_scope tables now params operation.api_id)

    each_quiet :
        (scope : List ScopeType)
        → (evaluate_each services scope operation actor r params).is_not_found ≡ false
    unfolding evaluate_each
    each_quiet [] = refl
    each_quiet (s ∷ rest) = let here = single_quiet s in let later = each_quiet rest in ground arith

    scopes_quiet : (evaluate_scopes services actor operation r params).is_not_found ≡ false
    unfolding evaluate_scopes
    scopes_quiet = let h = each_quiet operation.scope in ground arith

  not_found_of_outcome :
      (resource_type : String) (o : ResourceResolutionOutcome)
      → resolve_outcome resolvers resource_type actor params ≡ o
      → is_empty operation.scope ≡ false
      → needs_resource operation.scope operation.resource_context_required ≡ true
      → ((resolve_and_evaluate services actor operation resource_type params).is_not_found ≡ true)
        ↔ (o ≡ not_found)
  unfolding resolve_and_evaluate
  not_found_of_outcome resource_type (found r) e busy needed =
      let quiet = scopes_quiet (some r) in
      (λ h. absurd (ground arith), λ same. absurd (ground arith))
  not_found_of_outcome resource_type not_found e busy needed = (λ h. refl, λ h. ground arith)
  not_found_of_outcome resource_type no_resolver e busy needed =
      (λ h. absurd (ground arith), λ same. absurd (ground arith))
  not_found_of_outcome resource_type resolver_failure e busy needed =
      (λ h. absurd (ground arith), λ same. absurd (ground arith))

  -- The evaluation reports an absent resource exactly where a scope is asked, a resource is needed
  -- and the resolver of its type says that there is none: never for a missing or failing
  -- resolver, nor for a resource that exists.
  pub resolve_and_evaluate_not_found :
      (resource_type : String)
      → ((resolve_and_evaluate services actor operation resource_type params).is_not_found ≡ true)
        ↔ ((operation.scope ≢ [])
            × (needs_resource operation.scope operation.resource_context_required ≡ true)
            × (resolve_outcome resolvers resource_type actor params ≡ not_found))
  unfolding resolve_and_evaluate
  resolve_and_evaluate_not_found resource_type = elim (Bool-cases (is_empty operation.scope)) [
    | inl bare ↦ (
      λ h. absurd (ground arith),
      λ (filled, _, _). absurd (filled (eq-nil_of_is_empty operation.scope bare)),
    )
    | inr busy ↦
        elim (Bool-cases (needs_resource operation.scope operation.resource_context_required)) [
          | inl needed ↦
              let both =
                not_found_of_outcome resource_type
                  (resolve_outcome resolvers resource_type actor params) refl busy needed in
              (
                λ h. (λ bare. let quiet = ap is_empty bare in ground arith, needed, both.0 h),
                λ (_, _, o). both.1 o,
              )
          | inr free ↦
              let quiet = scopes_quiet none in
              (λ h. absurd (ground arith), λ (_, needed, _). absurd (ground arith))
        ]
  ]
