-- ===== src/Authorization/Guard/Audit.antt =====
-- What the guard's audit trail holds, and what a failing audit service changes.
use cyber_hub_api.Prelude.{
  ◌≡◌, refl, sym, subst, ◌↔◌, ◌≢◌, inl, inr, Bool, true, false, Option, none, List, [], ◌∷◌, arith,
  Bool-cases, Option-cases, is_empty,
}
use cyber_hub_api.Authorization.Types.{ResourceContext, RouteParams, ScopeType}
use cyber_hub_api.Authorization.Disclosure.{resolve_disclosure_policy}
use cyber_hub_api.Authorization.Scope.{ScopeServices, ScopeEvaluationResult}
use cyber_hub_api.Authorization.Scope.Laws.{resolve_and_evaluate_iff}
use cyber_hub_api.Authorization.Guard.{
  GuardException, database_exception, proceeds, refused, gives, RouteMetadata, Principal,
  allowed_decision, AuthorizationDecision, Verdict, Case, Admission, open_route, asks, admit,
  role_allowed, EffectivePolicy, effective_policy, operation_context, audit_required, decision_row,
  to_whole_resource, audit_deny, audit_allow, conclude, decide, can_activate,
}
use cyber_hub_api.Authorization.Guard.Laws.{Attempt-cases, IsGranted, evaluated, decide-IsGranted}

-- The trail is one row for an allowed request, and the write of it succeeded.
abbrev pub IsRecorded : (AuthorizationDecision → Bool) → Case → Verdict → Type 0
IsRecorded accepts c verdict =
    (row : AuthorizationDecision) × (verdict.trail ≡ row ∷ [])
    × (accepts row ≡ true)
    × (row.decision ≡ allowed_decision)
    × (row.permission_key ≡ c.key)
    × (row.actor_user_id ≡ c.actor.user_id)

module _ (services : ScopeServices) (params : RouteParams) where
  module _ (accepts : AuthorizationDecision → Bool) (c : Case)
      (required : audit_required c.entry ≡ true) where
    audit_allow-IsRecorded :
        (scopes : List ScopeType) (needed : Bool) (resource : Option ResourceContext)
        → (audit_allow services accepts c scopes needed resource).answer ≡ proceeds
        → IsRecorded accepts c (audit_allow services accepts c scopes needed resource)
    unfolding audit_allow
    audit_allow-IsRecorded scopes needed resource e =
        let row =
          decision_row c allowed_decision none scopes (to_whole_resource resource)
            (resolve_disclosure_policy c.key c.api_id needed) in
        (row, ground arith, ground arith, refl, refl, refl)

    conclude-IsRecorded :
        (policy : EffectivePolicy) (result : ScopeEvaluationResult)
        → (conclude services accepts c policy result).answer ≡ proceeds
        → IsRecorded accepts c (conclude services accepts c policy result)
    unfolding conclude audit_deny
    conclude-IsRecorded policy result e = elim (Bool-cases result.allowed) [
      | inl ok ↦
          let allowing =
            audit_allow services accepts c policy.scope policy.resource_context_required
              result.resource in
          let same : conclude services accepts c policy result ≡ allowing = ground arith in
          subst (IsRecorded accepts c) (sym same) (
            audit_allow-IsRecorded policy.scope policy.resource_context_required result.resource
              (ground arith))
      | inr bad ↦ absurd (ground arith)
    ]

    -- A request that asks for a permission, of an operation that requires auditing, passes only
    -- after one row that allows it, with the permission and the actor, has been written: where
    -- the write fails, the handler does not run.
    pub decide-IsRecorded :
        (decide services accepts c params).answer ≡ proceeds
        → IsRecorded accepts c (decide services accepts c params)
    unfolding decide audit_deny
    decide-IsRecorded e = elim (Bool-cases (role_allowed c)) [
      | inr barred ↦ absurd (ground arith)
      | inl listed ↦ elim (Option-cases (effective_policy c)) [
        | inl gone ↦ absurd (ground arith)
        | inr (policy, chosen) ↦ elim (Bool-cases (is_empty policy.scope)) [
          | inl bare ↦
              let same : decide services accepts c params
                  ≡ audit_allow services accepts c [] false none =
                ground arith in
              subst (IsRecorded accepts c) (sym same)
                (audit_allow-IsRecorded [] false none (ground arith))
          | inr busy ↦
              let same : decide services accepts c params
                  ≡ conclude services accepts c policy (evaluated services params c policy) =
                ground arith in
              subst (IsRecorded accepts c) (sym same)
                (conclude-IsRecorded policy (evaluated services params c policy) (ground arith))
        ]
      ]
    ]

  module _ (accepts others : AuthorizationDecision → Bool) (e : GuardException)
      (other : e ≢ database_exception) where
    audit_allow_fails :
        (c : Case) (scopes : List ScopeType) (needed : Bool) (resource : Option ResourceContext)
        → (audit_allow services accepts c scopes needed resource).answer ≡ refused e
        → e ≡ database_exception
    unfolding audit_allow
    audit_allow_fails c scopes needed resource h = ground arith

    conclude_same_refusal :
        (c : Case) (policy : EffectivePolicy) (result : ScopeEvaluationResult)
        → (conclude services accepts c policy result).answer ≡ refused e
        → (conclude services others c policy result).answer ≡ refused e
    unfolding conclude
    conclude_same_refusal c policy result h = elim (Bool-cases result.allowed) [
      | inl ok ↦ absurd (
          other (
            audit_allow_fails c policy.scope policy.resource_context_required result.resource
              (ground arith)))
      | inr bad ↦ ground arith
    ]

    decide_same_refusal :
        (c : Case)
        → (decide services accepts c params).answer ≡ refused e
        → (decide services others c params).answer ≡ refused e
    unfolding decide
    decide_same_refusal c h = elim (Bool-cases (role_allowed c)) [
      | inr barred ↦ ground arith
      | inl listed ↦ elim (Option-cases (effective_policy c)) [
        | inl gone ↦ ground arith
        | inr (policy, chosen) ↦ elim (Bool-cases (is_empty policy.scope)) [
          | inl bare ↦ absurd (other (audit_allow_fails c [] false none (ground arith)))
          | inr busy ↦
              let same =
                conclude_same_refusal c policy (evaluated services params c policy)
                  (ground arith) in
              ground arith
        ]
      ]
    ]

    -- A refusal does not depend on the audit service: whatever else the guard answers than a
    -- failed write of an allowing row, it answers the same where other writes fail or succeed.
    pub can_activate_same_refusal :
        (route : RouteMetadata) (principal : Option Principal)
        → (can_activate services accepts route principal params).answer ≡ refused e
        → (can_activate services others route principal params).answer ≡ refused e
    unfolding can_activate
    can_activate_same_refusal route principal h = elim (Attempt-cases (admit route principal)) [
      | inl (x, thrown) ↦ ground arith
      | inr (open_route, given) ↦ absurd (ground arith)
      | inr (asks c, given) ↦ let same = decide_same_refusal c (ground arith) in ground arith
    ]

-- Where every write succeeds, a request that is admitted and granted passes.
module _ (services : ScopeServices) (params : RouteParams) (accepts : AuthorizationDecision → Bool)
    (writes : (row : AuthorizationDecision) → accepts row ≡ true) where
  audit_allow-proceeds :
      (c : Case) (scopes : List ScopeType) (needed : Bool) (resource : Option ResourceContext)
      → (audit_allow services accepts c scopes needed resource).answer ≡ proceeds
  unfolding audit_allow
  audit_allow-proceeds c scopes needed resource =
      let ok = writes (
        decision_row c allowed_decision none scopes (to_whole_resource resource)
          (resolve_disclosure_policy c.key c.api_id needed)) in
      ground arith

  conclude-proceeds :
      (c : Case) (policy : EffectivePolicy) (result : ScopeEvaluationResult)
      → result.allowed ≡ true
      → (conclude services accepts c policy result).answer ≡ proceeds
  unfolding conclude
  conclude-proceeds c policy result ok =
      let h =
        audit_allow-proceeds c policy.scope policy.resource_context_required result.resource in
      ground arith

  decide-proceeds :
      (c : Case)
      → IsGranted services params c
      → (decide services accepts c params).answer ≡ proceeds
  unfolding decide
  decide-proceeds c (policy, listed, chosen, holds) = elim (Bool-cases (is_empty policy.scope)) [
    | inl bare ↦ let h = audit_allow-proceeds c [] false none in ground arith
    | inr busy ↦
        let passed =
          (resolve_and_evaluate_iff services c.actor (operation_context c policy) params
              c.definition.domain).1
            holds in
        let h = conclude-proceeds c policy (evaluated services params c policy) passed in
        ground arith
  ]

  abbrev pub Passing : Admission → Type 0
  Passing open_route = Unit
  Passing (asks c) = IsGranted services params c

  -- Where the audit service writes every row, a request that is admitted passes exactly where it
  -- asks for no permission or is granted the one that it asks for.
  pub can_activate_complete :
      (route : RouteMetadata) (principal : Option Principal) (a : Admission)
      → admit route principal ≡ gives a
      → ((can_activate services accepts route principal params).answer ≡ proceeds) ↔ Passing a
  unfolding can_activate
  can_activate_complete route principal open_route given = (λ h. tt, λ h. ground arith)
  can_activate_complete route principal (asks c) given = (
    λ h. decide-IsGranted services params accepts c (ground arith),
    λ h. let ok = decide-proceeds c h in ground arith,
  )
