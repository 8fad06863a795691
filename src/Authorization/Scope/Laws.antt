-- ===== src/Authorization/Scope/Laws.antt =====
-- What the whole evaluation of an operation's scopes decides.
use cyber_hub_api.Prelude.{
  ◌≡◌, refl, ap, subst, ◌↔◌, ◌≢◌, ◌⊎◌, String, true, false, Option, none, some, List, [], ◌∷◌,
  arith, Bool-cases, inl, inr, is_empty, eq-nil_of_is_empty, All,
}
use cyber_hub_api.Authorization.Types.{
  ScopeType, own, org, asg, public, cond, auth_scope, ActorContext, ResourceContext,
  OperationContext, RouteParams,
}
use cyber_hub_api.Authorization.Resolver.{
  ResourceResolutionOutcome, found, not_found, no_resolver, resolver_failure, resolve_outcome,
}
use cyber_hub_api.Authorization.AuthScope.{AuthScopeResult, scope_allowed, scope_denied}
use cyber_hub_api.Authorization.Scope.{
  ScopeServices, of_auth_scope, evaluate_auth_scope, needs_resource, evaluate_single, evaluate_each,
  evaluate_scopes, resolve_and_evaluate,
}
use cyber_hub_api.Authorization.Scope.Facts.{
  Owns, SharesTenant, IsAssigned, IsPublished, Passes, own_iff, org_iff, asg_iff, pub_iff, cond_iff,
}

module _ (services : ScopeServices) (actor : ActorContext) (operation : OperationContext)
    (params : RouteParams) where
  open services use {conditions, resolvers, tables, now}

  -- What each scope asks of the resource, the conditions or the security authorization.
  abbrev pub Satisfied : Option ResourceContext → ScopeType → Type 0
  Satisfied r own = Owns actor r
  Satisfied r org = SharesTenant actor r
  Satisfied r asg = IsAssigned actor r
  Satisfied r public = IsPublished actor r
  Satisfied r cond =
      (ids : List String) × (operation.condition_ids ≡ some ids)
      × (ids ≢ [])
      × All (Passes actor conditions r) ids
  Satisfied r auth_scope = evaluate_auth_scope tables now params operation.api_id ≡ scope_allowed

  of_auth_scope_iff :
      (a : AuthScopeResult) → ((of_auth_scope a).allowed ≡ true) ↔ (a ≡ scope_allowed)
  of_auth_scope_iff scope_allowed = (λ h. refl, λ h. refl)
  of_auth_scope_iff (scope_denied none) = (λ h. ground arith, λ h. absurd (ground arith))
  of_auth_scope_iff (scope_denied (some x)) = (λ h. ground arith, λ h. absurd (ground arith))

  module _ (r : Option ResourceContext) where
    single_iff :
        (s : ScopeType)
        → ((evaluate_single services s actor r operation.condition_ids params
              operation.api_id).allowed
            ≡ true)
          ↔ Satisfied r s
    unfolding evaluate_single
    single_iff own = (
      λ h. (own_iff actor r).0 (ground arith),
      λ p. let h = (own_iff actor r).1 p in ground arith,
    )
    single_iff org = (
      λ h. (org_iff actor r).0 (ground arith),
      λ p. let h = (org_iff actor r).1 p in ground arith,
    )
    single_iff asg = (
      λ h. (asg_iff actor r).0 (ground arith),
      λ p. let h = (asg_iff actor r).1 p in ground arith,
    )
    single_iff public = (
      λ h. (pub_iff actor r).0 (ground arith),
      λ p. let h = (pub_iff actor r).1 p in ground arith,
    )
    single_iff cond = cond_iff actor conditions r operation.condition_ids
    single_iff auth_scope =
        of_auth_scope_iff (evaluate_auth_scope tables now params operation.api_id)

    each_iff :
        (scope : List ScopeType)
        → ((evaluate_each services scope operation actor r params).allowed ≡ true)
          ↔ All (Satisfied r) scope
    unfolding evaluate_each
    each_iff [] = (λ h. tt, λ h. refl)
    each_iff (s ∷ rest) = (
      λ h. ((single_iff s).0 (ground arith), (each_iff rest).0 (ground arith)),
      λ (p, ps). let here = (single_iff s).1 p in let later = (each_iff rest).1 ps in ground arith,
    )

  abbrev pub Needed : Type 0
  Needed = needs_resource operation.scope operation.resource_context_required ≡ true

  -- The resource that the scopes are evaluated against: the resolved one, where a scope or the
  -- operation asks for a resource, and none otherwise.
  abbrev pub Against : String → Option ResourceContext → Type 0
  Against resource_type (some r) =
      Needed × (resolve_outcome resolvers resource_type actor params ≡ found r)
  Against resource_type none =
      needs_resource operation.scope operation.resource_context_required ≡ false

  scopes_iff :
      (r : Option ResourceContext)
      → operation.scope ≢ []
      → (needs_resource operation.scope operation.resource_context_required ≡ true → r ≢ none)
      → ((evaluate_scopes services actor operation r params).allowed ≡ true)
        ↔ All (Satisfied r) operation.scope
  unfolding evaluate_scopes
  scopes_iff none filled ready = elim (Bool-cases (is_empty operation.scope)) [
    | inl bare ↦ absurd (filled (eq-nil_of_is_empty operation.scope bare))
    | inr some_scope ↦
        elim (Bool-cases (needs_resource operation.scope operation.resource_context_required)) [
          | inl needed ↦ absurd (ready needed refl)
          | inr free ↦ (
            λ h. (each_iff none operation.scope).0 (ground arith),
            λ ps. let h = (each_iff none operation.scope).1 ps in ground arith,
          )
        ]
  ]
  scopes_iff (some r) filled ready = elim (Bool-cases (is_empty operation.scope)) [
    | inl bare ↦ absurd (filled (eq-nil_of_is_empty operation.scope bare))
    | inr some_scope ↦ (
      λ h. (each_iff (some r) operation.scope).0 (ground arith),
      λ ps. let h = (each_iff (some r) operation.scope).1 ps in ground arith,
    )
  ]

  needed_iff :
      (resource_type : String) (o : ResourceResolutionOutcome)
      → resolve_outcome resolvers resource_type actor params ≡ o
      → operation.scope ≢ []
      → is_empty operation.scope ≡ false
      → Needed
      → ((resolve_and_evaluate services actor operation resource_type params).allowed ≡ true)
        ↔ ((r : ResourceContext) × (o ≡ found r) × All (Satisfied (some r)) operation.scope)
  unfolding resolve_and_evaluate
  needed_iff resource_type (found r) e filled busy needed = (
    λ h. (r, refl, (scopes_iff (some r) filled (λ n gone. cc)).0 (ground arith)),
    λ (q, same, ps).
        let one : q ≡ r = cc in
        let h =
          (scopes_iff (some r) filled (λ n gone. cc)).1
            (subst (λ x. All (Satisfied (some x)) operation.scope) one ps) in
        ground arith,
  )
  needed_iff resource_type not_found e filled busy needed =
      (λ h. absurd (ground arith), λ (q, same, ps). absurd (ground arith))
  needed_iff resource_type no_resolver e filled busy needed =
      (λ h. absurd (ground arith), λ (q, same, ps). absurd (ground arith))
  needed_iff resource_type resolver_failure e filled busy needed =
      (λ h. absurd (ground arith), λ (q, same, ps). absurd (ground arith))

  needed_allowed :
      (resource_type : String)
      → operation.scope ≢ []
      → is_empty operation.scope ≡ false
      → Needed
      → ((resolve_and_evaluate services actor operation resource_type params).allowed ≡ true) ↔ (
          (r : Option ResourceContext) × Against resource_type r
          × All (Satisfied r) operation.scope)
  needed_allowed resource_type filled busy needed =
      let both =
        needed_iff resource_type (resolve_outcome resolvers resource_type actor params) refl filled
          busy needed in
      (
        λ h. let (r, e, ps) = both.0 h in (some r, (needed, e), ps),
        λ (r, a, ps).
            elim r
                as (λ r.
                  Against resource_type r
                  → All (Satisfied r) operation.scope
                  → (resolve_and_evaluate services actor operation resource_type params).allowed
                    ≡ true) [
                      | none ↦ λ free _. absurd (ground arith)
                      | some q ↦ λ (n, e) qs. both.1 (q, e, qs)
                    ]
              a ps,
      )

  free_allowed :
      (resource_type : String)
      → operation.scope ≢ []
      → is_empty operation.scope ≡ false
      → needs_resource operation.scope operation.resource_context_required ≡ false
      → ((resolve_and_evaluate services actor operation resource_type params).allowed ≡ true) ↔ (
          (r : Option ResourceContext) × Against resource_type r
          × All (Satisfied r) operation.scope)
  unfolding resolve_and_evaluate
  free_allowed resource_type filled busy free =
      let both = scopes_iff none filled (λ n. absurd (ground arith)) in
      (
        λ h. (none, free, both.0 (ground arith)),
        λ (r, a, ps).
            elim r
                as (λ r.
                  Against resource_type r
                  → All (Satisfied r) operation.scope
                  → (resolve_and_evaluate services actor operation resource_type params).allowed
                    ≡ true) [
                      | none ↦ λ _ qs. let h = both.1 qs in ground arith
                      | some q ↦ λ (n, e) qs. absurd (ground arith)
                    ]
              a ps,
      )

  scoped_allowed :
      (resource_type : String)
      → operation.scope ≢ []
      → is_empty operation.scope ≡ false
      → ((resolve_and_evaluate services actor operation resource_type params).allowed ≡ true) ↔ (
          (r : Option ResourceContext) × Against resource_type r
          × All (Satisfied r) operation.scope)
  scoped_allowed resource_type filled busy =
      elim (Bool-cases (needs_resource operation.scope operation.resource_context_required)) [
        | inl needed ↦ needed_allowed resource_type filled busy needed
        | inr free ↦ free_allowed resource_type filled busy free
      ]

  -- The evaluation allows exactly where no scope is asked, or every scope of the list is satisfied
  -- by the resource that a resolver found, or by no resource where neither a scope nor the
  -- operation asks for one.
  pub resolve_and_evaluate_iff :
      (resource_type : String)
      → ((resolve_and_evaluate services actor operation resource_type params).allowed ≡ true) ↔ (
          (operation.scope ≡ [])
          ⊎ ((r : Option ResourceContext) × Against resource_type r
              × All (Satisfied r) operation.scope))
  unfolding resolve_and_evaluate
  resolve_and_evaluate_iff resource_type = elim (Bool-cases (is_empty operation.scope)) [
    | inl bare ↦ (λ h. inl (eq-nil_of_is_empty operation.scope bare), λ h. ground arith)
    | inr busy ↦
        let filled : operation.scope ≢ [] = λ bare. let quiet = ap is_empty bare in ground arith in
        let both = scoped_allowed resource_type filled busy in
        (
          λ h. inr (both.0 h),
          λ h. elim h [ inl bare ↦ absurd (filled bare) | inr good ↦ both.1 good ],
        )
  ]
