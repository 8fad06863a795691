-- ===== src/Authorization/Guard/Laws.antt =====
-- Which requests the guard lets through.
use cyber_hub_api.Prelude.{
  ◌≡◌, refl, sym, subst, ◌⊎◌, inl, inr, String, Bool, true, false, Option, none, some, [], arith,
  Bool-cases, Option-cases, is_empty, eq-nil_of_is_empty, All,
}
use cyber_hub_api.Authorization.Types.{ActorContext, ResourceContext, RouteParams, ApiId}
use cyber_hub_api.Authorization.Permissions.{
  PermissionDefinition, is_permission_key, permission_registry,
}
use cyber_hub_api.Authorization.Operations.{is_api_id, api_authorization_by_id}
use cyber_hub_api.Authorization.Operations.Row.{ApiOperationAuthorization}
use cyber_hub_api.Authorization.Scope.{ScopeServices, ScopeEvaluationResult, resolve_and_evaluate}
use cyber_hub_api.Authorization.Scope.Laws.{Against, Satisfied, resolve_and_evaluate_iff}
use cyber_hub_api.Authorization.Guard.{
  GuardException, proceeds, Attempt, raises, gives, RouteMetadata, Principal, AuthorizationDecision,
  truthy, is_caller_domain, keys_differ, find_operation, effective_permission_key,
  usable_definition, Case, Admission, open_route, asks, classify, identify, admit, role_allowed,
  EffectivePolicy, effective_policy, operation_context, audit_deny, conclude, decide, can_activate,
}

pub Attempt-cases :
    {A : Type 0} (a : Attempt A)
    → ((e : GuardException) × (a ≡ raises e)) ⊎ ((x : A) × (a ≡ gives x))
Attempt-cases (raises e) = inl (e, refl)
Attempt-cases (gives x) = inr (x, refl)

gives-injective : {A : Type 0} {x y : A} → gives x ≡ gives y → x ≡ y
gives-injective e = cc

asks-injective : {c d : Case} → asks c ≡ asks d → c ≡ d
asks-injective e = cc

module _ (route : RouteMetadata) where
  -- The entry of the API map for the route: none where it declares no operation.
  abbrev pub Declares : Option ApiOperationAuthorization → Type 0
  Declares none = route.api_id ≡ none
  Declares (some op) =
      (id : ApiId) × (route.api_id ≡ some id)
      × (is_api_id id ≡ true)
      × (api_authorization_by_id id ≡ some op)
      × (is_caller_domain op.authorization_mode ≡ false)
      × (keys_differ (truthy op.permission_key) (truthy route.permission_key) ≡ false)

  find_operation-Declares :
      (entry : Option ApiOperationAuthorization)
      → find_operation route ≡ gives entry
      → Declares entry
  unfolding find_operation
  find_operation-Declares entry e = elim (Option-cases route.api_id) [
    | inl undeclared ↦
        let same : entry ≡ none = ground arith in subst Declares (sym same) undeclared
    | inr (id, declared) ↦ elim (Bool-cases (is_api_id id)) [
      | inr unknown ↦ absurd (ground arith)
      | inl known ↦ elim (Option-cases (api_authorization_by_id id)) [
        | inl gone ↦ absurd (ground arith)
        | inr (op, located) ↦ elim (Bool-cases (is_caller_domain op.authorization_mode)) [
          | inl foreign ↦ absurd (ground arith)
          | inr direct ↦
              elim (Bool-cases
                (keys_differ (truthy op.permission_key) (truthy route.permission_key))) [
                  | inl differ ↦ absurd (ground arith)
                  | inr agree ↦
                      let same : entry ≡ some op = ground arith in
                      subst Declares (sym same) (id, declared, known, located, direct, agree)
                ]
        ]
      ]
    ]
  ]

  -- The request asks for a registered permission that is not the system's own.
  abbrev pub IsCase : Option Principal → Case → Type 0
  IsCase principal c =
      (route.is_public_route ≡ false)
      × (identify principal ≡ some c.actor)
      × (c.api_id ≡ route.api_id)
      × Declares c.entry
      × (effective_permission_key route c.entry ≡ some c.key)
      × (permission_registry c.key ≡ some c.definition)
      × (c.definition.system_only ≡ false)

  -- A public route, or one for any authenticated caller that names no permission.
  abbrev pub IsOpen : Option Principal → Type 0
  IsOpen principal =
      (route.is_public_route ≡ true)
      ⊎ ((actor : ActorContext) × (entry : Option ApiOperationAuthorization) × (identify principal
            ≡ some actor)
          × (route.is_authenticated_only ≡ true)
          × Declares entry
          × (effective_permission_key route entry ≡ none))

usable_definition_sound :
    (key : String) (d : PermissionDefinition)
    → usable_definition key ≡ some d
    → (permission_registry key ≡ some d) × (d.system_only ≡ false)
unfolding usable_definition
usable_definition_sound key d e = elim (Bool-cases (is_permission_key key)) [
  | inr unknown ↦ absurd (ground arith)
  | inl known ↦ elim (Option-cases (permission_registry key)) [
    | inl gone ↦ absurd (ground arith)
    | inr (f, located) ↦ elim (Bool-cases f.system_only) [
      | inl system ↦ absurd (ground arith)
      | inr free ↦
          let same : f ≡ d = ground arith in
          (ground arith, subst (λ d. d.system_only ≡ false) same free)
    ]
  ]
]

module _ (route : RouteMetadata) (principal : Option Principal) where
  module _ (actor : ActorContext) (entry : Option ApiOperationAuthorization)
      (closed : route.is_public_route ≡ false) (known : identify principal ≡ some actor)
      (declared : Declares route entry) where
    classify-IsCase :
        (c : Case) → classify route actor entry ≡ gives (asks c) → IsCase route principal c
    classify-IsCase c e = elim (Option-cases (effective_permission_key route entry)) [
      | inl keyless ↦ elim (Bool-cases route.is_authenticated_only) [
        | inl any ↦ absurd (ground arith)
        | inr some_key ↦ absurd (ground arith)
      ]
      | inr (key, asked) ↦ elim (Option-cases (usable_definition key)) [
        | inl unusable ↦ absurd (ground arith)
        | inr (d, usable) ↦
            let facts = usable_definition_sound key d usable in
            let same : record {
              actor = actor;
              api_id = route.api_id;
              entry = entry;
              key = key;
              definition = d;
            }
                ≡ c =
              asks-injective (gives-injective (ground arith)) in
            subst (IsCase route principal) same
              (closed, known, refl, declared, asked, facts.0, facts.1)
      ]
    ]

    classify-IsOpen : classify route actor entry ≡ gives open_route → IsOpen route principal
    classify-IsOpen e = elim (Option-cases (effective_permission_key route entry)) [
      | inl keyless ↦ elim (Bool-cases route.is_authenticated_only) [
        | inl any ↦ inr (actor, entry, known, any, declared, keyless)
        | inr some_key ↦ absurd (ground arith)
      ]
      | inr (key, asked) ↦ elim (Option-cases (usable_definition key)) [
        | inl unusable ↦ absurd (ground arith)
        | inr (d, usable) ↦ absurd (ground arith)
      ]
    ]

  -- A request that is not for a public route is classified with its actor and its entry.
  admit-classified :
      (a : Admission)
      → admit route principal ≡ gives a
      → route.is_public_route ≡ false
      → (actor : ActorContext) × (entry : Option ApiOperationAuthorization) × (identify principal
          ≡ some actor)
        × Declares route entry
        × (classify route actor entry ≡ gives a)
  unfolding admit
  admit-classified a e closed = elim (Option-cases (identify principal)) [
    | inl nobody ↦ absurd (ground arith)
    | inr (actor, known) ↦ elim (Attempt-cases (find_operation route)) [
      | inl (x, thrown) ↦ absurd (ground arith)
      | inr (entry, located) ↦
          (actor, entry, known, find_operation-Declares route entry located, ground arith)
    ]
  ]

  admit-IsCase : (c : Case) → admit route principal ≡ gives (asks c) → IsCase route principal c
  unfolding admit
  admit-IsCase c e = elim (Bool-cases route.is_public_route) [
    | inl everyone ↦ absurd (ground arith)
    | inr closed ↦
        let (actor, entry, known, declared, classified) = admit-classified (asks c) e closed in
        classify-IsCase actor entry closed known declared c classified
  ]

  admit-IsOpen : admit route principal ≡ gives open_route → IsOpen route principal
  admit-IsOpen e = elim (Bool-cases route.is_public_route) [
    | inl everyone ↦ inl everyone
    | inr closed ↦
        let (actor, entry, known, declared, classified) = admit-classified open_route e closed in
        classify-IsOpen actor entry closed known declared classified
  ]

module _ (services : ScopeServices) (params : RouteParams) where
  -- Every scope of the policy holds, of the resource that it is evaluated against.
  abbrev pub ScopesHold : Case → EffectivePolicy → Type 0
  ScopesHold c policy =
      (policy.scope ≡ [])
      ⊎ ((r : Option ResourceContext) × Against services c.actor (operation_context c policy) params
            c.definition.domain r
          × All (Satisfied services c.actor (operation_context c policy) params r) policy.scope)

  -- The role is listed by the permission and by the operation, and one source gives a policy for
  -- it whose scopes hold.
  abbrev pub IsGranted : Case → Type 0
  IsGranted c =
      (policy : EffectivePolicy) × (role_allowed c ≡ true)
      × (effective_policy c ≡ some policy)
      × ScopesHold c policy

  abbrev pub evaluated : Case → EffectivePolicy → ScopeEvaluationResult
  evaluated c policy =
      resolve_and_evaluate services c.actor (operation_context c policy) c.definition.domain params

  module _ (accepts : AuthorizationDecision → Bool) where
    conclude_allowed :
        (c : Case) (policy : EffectivePolicy) (result : ScopeEvaluationResult)
        → (conclude services accepts c policy result).answer ≡ proceeds
        → result.allowed ≡ true
    unfolding conclude audit_deny
    conclude_allowed c policy result e = ground arith

    pub decide-IsGranted :
        (c : Case) → (decide services accepts c params).answer ≡ proceeds → IsGranted c
    unfolding decide audit_deny
    decide-IsGranted c e = elim (Bool-cases (role_allowed c)) [
      | inr barred ↦ absurd (ground arith)
      | inl listed ↦ elim (Option-cases (effective_policy c)) [
        | inl gone ↦ absurd (ground arith)
        | inr (policy, chosen) ↦ elim (Bool-cases (is_empty policy.scope)) [
          | inl bare ↦ (policy, listed, chosen, inl (eq-nil_of_is_empty policy.scope bare))
          | inr busy ↦
              let passed = conclude_allowed c policy (evaluated c policy) (ground arith) in
              (
                policy,
                listed,
                chosen,
                (resolve_and_evaluate_iff services c.actor (operation_context c policy) params
                      c.definition.domain).0
                    passed,
              )
        ]
      ]
    ]

    -- The guard lets a request through only on a public route, on a route for any authenticated
    -- caller that names no permission, or where the caller's role is listed by a registered
    -- permission that is not the system's own and by the declared operation, and every scope of
    -- the policy chosen for that role holds. No role is exempt.
    pub can_activate_sound :
        (route : RouteMetadata) (principal : Option Principal)
        → (can_activate services accepts route principal params).answer ≡ proceeds
        → IsOpen route principal ⊎ ((c : Case) × IsCase route principal c × IsGranted c)
    unfolding can_activate
    can_activate_sound route principal e = elim (Attempt-cases (admit route principal)) [
      | inl (x, thrown) ↦ absurd (ground arith)
      | inr (open_route, given) ↦ inl (admit-IsOpen route principal given)
      | inr (asks c, given) ↦
          inr (c, admit-IsCase route principal c given, decide-IsGranted c (ground arith))
    ]
