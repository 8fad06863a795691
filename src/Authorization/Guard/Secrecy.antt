-- ===== src/Authorization/Guard/Secrecy.antt =====
-- What the guard's answers tell a caller of a resource whose existence is concealed.
use cyber_hub_api.Prelude.{
  ◌≡◌, refl, sym, ap, ◌∙◌, subst, ◌≢◌, inl, inr, String, Bool, true, false, Option, none, some,
  List, [], arith, Bool-cases, is_empty, eq-nil_of_is_empty,
}
use cyber_hub_api.Authorization.Types.{RouteParams, ApiId, ScopeType}
use cyber_hub_api.Authorization.Resolver.{not_found, resolve_outcome}
use cyber_hub_api.Authorization.Disclosure.{resolve_disclosure_policy, conceal_existence}
use cyber_hub_api.Authorization.Scope.{ScopeServices, ScopeEvaluationResult}
use cyber_hub_api.Authorization.Scope.Laws.{resolve_and_evaluate_iff}
use cyber_hub_api.Authorization.Guard.{
  GuardException, database_exception, not_found_exception, refusal, refused, AuthorizationDecision,
  Verdict, Case, role_allowed, EffectivePolicy, effective_policy, operation_context, audit_deny,
  audit_allow, conclude, decide,
}
use cyber_hub_api.Authorization.Guard.Laws.{evaluated}
use cyber_hub_api.Authorization.Scope.{needs_resource}

refused-injective : {x y : GuardException} → refused x ≡ refused y → x ≡ y
refused-injective e = cc

-- Existence is only ever concealed where the operation needs a resource.
conceal_needs :
    (key : String) (api_id : Option ApiId) (needed : Bool)
    → resolve_disclosure_policy key api_id needed ≡ conceal_existence
    → needed ≡ true
unfolding resolve_disclosure_policy
conceal_needs key api_id true e = refl
conceal_needs key api_id false e = absurd (ground arith)

needs_of_required : (scope : List ScopeType) → needs_resource scope true ≡ true
unfolding needs_resource
needs_of_required scope = ground arith

module _ (c : Case) (policy : EffectivePolicy) (listed : role_allowed c ≡ true)
    (chosen : effective_policy c ≡ some policy) (filled : policy.scope ≢ [])
    (concealed : resolve_disclosure_policy c.key c.api_id policy.resource_context_required
      ≡ conceal_existence) where
  needed : needs_resource policy.scope policy.resource_context_required ≡ true
  needed =
      let h = conceal_needs c.key c.api_id policy.resource_context_required concealed in
      subst (λ b. needs_resource policy.scope b ≡ true) (sym h) (needs_of_required policy.scope)

  decide-conclude :
      (services : ScopeServices) (accepts : AuthorizationDecision → Bool) (params : RouteParams)
      → decide services accepts c params
        ≡ conclude services accepts c policy (evaluated services params c policy)
  unfolding decide
  decide-conclude services accepts params = elim (Bool-cases (is_empty policy.scope)) [
    | inl bare ↦ absurd (filled (eq-nil_of_is_empty policy.scope bare))
    | inr busy ↦ ground arith
  ]

  conclude-not_found :
      (services : ScopeServices) (accepts : AuthorizationDecision → Bool)
      (result : ScopeEvaluationResult)
      → result.allowed ≡ false
      → (conclude services accepts c policy result).answer ≡ refused not_found_exception
  unfolding conclude audit_deny refusal
  conclude-not_found services accepts result bad = elim (Bool-cases result.is_not_found) [
    | inl gone ↦ ground arith
    | inr there ↦ ground arith
  ]

  absent-denied :
      (services : ScopeServices) (params : RouteParams)
      → resolve_outcome services.resolvers c.definition.domain c.actor params ≡ not_found
      → (evaluated services params c policy).allowed ≡ false
  absent-denied services params absent =
      elim (Bool-cases (evaluated services params c policy).allowed) [
        | inr bad ↦ bad
        | inl ok ↦
            elim ((resolve_and_evaluate_iff services c.actor (operation_context c policy) params
                c.definition.domain).0
              ok) [
                | inl bare ↦ absurd (filled bare)
                | inr (some r, a, ps) ↦ absurd (ground arith)
                | inr (none, free, ps) ↦ let must = needed in absurd (ground arith)
              ]
      ]

  conclude-refused :
      (services : ScopeServices) (accepts : AuthorizationDecision → Bool)
      (result : ScopeEvaluationResult) (e : GuardException)
      → (conclude services accepts c policy result).answer ≡ refused e
      → e ≢ database_exception
      → e ≡ not_found_exception
  unfolding conclude audit_allow audit_deny refusal
  conclude-refused services accepts result e h other = elim (Bool-cases result.allowed) [
    | inr bad ↦
        let gone = conclude-not_found services accepts result bad in
        refused-injective (sym h ∙ gone)
    | inl ok ↦ absurd (other (ground arith))
  ]

  -- A caller whose role is listed learns nothing of a resource whose existence is concealed: where
  -- the guard refuses, other than for a failed audit write, it answers what it answers where the
  -- resource does not exist.
  pub concealed_like_absent :
      (present absent : ScopeServices) (accepts others : AuthorizationDecision → Bool)
      (params route_params : RouteParams) (e : GuardException)
      → (decide present accepts c params).answer ≡ refused e
      → e ≢ database_exception
      → resolve_outcome absent.resolvers c.definition.domain c.actor route_params ≡ not_found
      → (decide absent others c route_params).answer ≡ (decide present accepts c params).answer
  concealed_like_absent present absent accepts others params route_params e refusing other gone =
      let here = decide-conclude present accepts params in
      let there = decide-conclude absent others route_params in
      let hidden =
        conclude-not_found absent others (evaluated absent route_params c policy)
          (absent-denied absent route_params gone) in
      let same =
        conclude-refused present accepts (evaluated present params c policy) e
          (subst (λ v. v.answer ≡ refused e) here refusing) other in
      ap (λ (v : Verdict). v.answer) there ∙ hidden ∙ sym (refusing ∙ ap refused same)
