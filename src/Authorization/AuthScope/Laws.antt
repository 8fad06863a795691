-- ===== src/Authorization/AuthScope/Laws.antt =====
-- When AUTH_SCOPE allows, in terms of the persisted evidence.
use cyber_hub_api.Prelude.{
  str_eq, subst, inr, inl, Option-cases, Bool-cases, ◌≡◌, refl, ◌↔◌, ◌≢◌, ◌≤◌, ℕ, String, true,
  false, not, Option, none, some, List, [], ◌∷◌, Memᴰ, arith, includes, mem_of_includes,
  includes_of_mem, eq_iff, if◌then◌else◌,
}
use cyber_hub_api.Authorization.AuthScope.{
  load_consulting_request_scope_context, RequestRow, evaluate_assessment, evaluate_request_context,
  evaluate_consulting_request, load_assessment_security_context, AuthorizationRow, AuthScopeTables,
  AssessmentSecurityContext, AuthScopeInput, AuthScopeResult, scope_allowed, first_row,
  parse_string_array, time_checks, target_check, activity_of, is_past, deny, activity_not_covered,
  evaluate_context,
}

abbrev pub NotPast : Option ℕ → ℕ → Type 0
NotPast none now = Unit
NotPast (some valid_until) now = now ≤ valid_until

-- The authorization is current, not revoked, and now lies in its window, both ends included.
abbrev pub InForce : AuthorizationRow → ℕ → Type 0
InForce auth now =
    (auth.is_current ≡ true)
    × (auth.revoked_at ≡ none)
    × (auth.valid_from ≤ now)
    × NotPast auth.valid_until now

-- The named target is covered; where none is named, some target is recorded.
abbrev pub Covers : Option String → List String → Type 0
Covers none targets = targets ≢ []
Covers (some target) targets = Memᴰ target targets

is_past_iff : (u : Option ℕ) (now : ℕ) → (is_past now u ≡ false) ↔ NotPast u now
is_past_iff none now = (λ _. tt, λ _. refl)
is_past_iff (some u) now = (λ h. ground arith, λ h. ground arith)

time_checks_iff :
    (auth : AuthorizationRow) (now : ℕ) (rest : AuthScopeResult)
    → (time_checks auth now rest ≡ scope_allowed) ↔ (InForce auth now × (rest ≡ scope_allowed))
time_checks_iff auth now rest = (
  λ h. (
    (ground arith, ground arith, ground arith, (is_past_iff auth.valid_until now).0 (ground arith)),
    ground arith,
  ),
  λ ((current, live, started, ending), ok).
      let not_over = (is_past_iff auth.valid_until now).1 ending in ground arith,
)

target_check_iff :
    (target : Option String) (targets : List String)
    → (target_check target targets ≡ scope_allowed) ↔ Covers target targets
target_check_iff none [] = (λ h. absurd (ground arith), λ h. absurd (h refl))
target_check_iff none (t ∷ ts) = (λ h e. ground arith, λ h. refl)
target_check_iff (some target) targets =
    (λ h. mem_of_includes target targets (ground arith), λ m. ground (arith, includes_of_mem m))

-- The assessment, the authorization that it names and the parsed columns, as the tables hold them.
pub record Evidence (db : AuthScopeTables) (assessment_id : String)
    (context : AssessmentSecurityContext) : Type 0 where
  pub assessment_found : first_row (db.assessment_by_id assessment_id) ≡ some context.assessment
  pub authorization_found :
      first_row (db.authorization_by_id context.assessment.scope_authorization_id)
      ≡ some context.authorization
  pub targets :
      parse_string_array context.authorization.authorized_targets ≡ some context.authorized_targets
  pub activities :
      parse_string_array context.authorization.allowed_activities ≡ some context.allowed_activities

-- The authorization belongs to the assessment's request and employer, is in force, and covers the
-- activity and the target.
pub record Authorizes (now : ℕ) (context : AssessmentSecurityContext) (input : AuthScopeInput)
    : Type 0 where
  pub same_request :
      context.authorization.consulting_request_id ≡ context.assessment.consulting_request_id
  pub same_employer : context.authorization.employer_id ≡ context.assessment.employer_id
  pub in_force : InForce context.authorization now
  pub activity_covered :
      Memᴰ (activity_of input.requested_activity context.assessment) context.allowed_activities
  pub target_covered : Covers input.requested_target context.authorized_targets

evaluate_context_iff :
    (now : ℕ) (context : AssessmentSecurityContext) (input : AuthScopeInput)
    → (evaluate_context now context input ≡ scope_allowed) ↔ Authorizes now context input
unfolding evaluate_context
evaluate_context_iff now context input = (
  λ h.
      let checks =
        (time_checks_iff context.authorization now (coverage context input)).0 (ground arith) in
      record {
        same_request = (eq_iff _ _).0 (ground arith);
        same_employer = (eq_iff _ _).0 (ground arith);
        in_force = checks.0;
        activity_covered = mem_of_includes _ _ (covered_activity context input checks.1);
        target_covered = (target_check_iff _ _).0 (covered_target context input checks.1);
      },
  λ a.
      let r = (eq_iff _ _).1 a.same_request in
      let e = (eq_iff _ _).1 a.same_employer in
      let act = includes_of_mem a.activity_covered in
      let tgt =
        (target_check_iff input.requested_target context.authorized_targets).1 a.target_covered in
      let all =
        (time_checks_iff context.authorization now (coverage context input)).1
          (a.in_force, ground arith) in
      ground arith,
)
  where
    coverage : AssessmentSecurityContext → AuthScopeInput → AuthScopeResult
    coverage context input =
        if not (
          includes (activity_of input.requested_activity context.assessment)
            context.allowed_activities)
        then deny activity_not_covered
        else target_check input.requested_target context.authorized_targets

    covered_activity :
        (context : AssessmentSecurityContext) (input : AuthScopeInput)
        → coverage context input ≡ scope_allowed
        → includes
            (activity_of input.requested_activity context.assessment)
            context.allowed_activities
          ≡ true
    covered_activity context input h = ground arith

    covered_target :
        (context : AssessmentSecurityContext) (input : AuthScopeInput)
        → coverage context input ≡ scope_allowed
        → target_check input.requested_target context.authorized_targets ≡ scope_allowed
    covered_target context input h = ground arith

module _ (db : AuthScopeTables) (now : ℕ) where
  load-Evidence :
      (id : String) (context : AssessmentSecurityContext)
      → load_assessment_security_context db now id ≡ some context
      → Evidence db id context
  unfolding load_assessment_security_context
  load-Evidence id context h = elim (Option-cases (first_row (db.assessment_by_id id))) [
    | inl gone ↦ absurd (ground arith)
    | inr (a, found_a) ↦
        elim (Option-cases (first_row (db.authorization_by_id a.scope_authorization_id))) [
          | inl gone ↦ absurd (ground arith)
          | inr (s, found_s) ↦ elim (Option-cases (parse_string_array s.authorized_targets)) [
            | inl bad ↦ absurd (ground arith)
            | inr (ts, parsed_t) ↦ elim (Option-cases (parse_string_array s.allowed_activities)) [
              | inl bad ↦ absurd (ground arith)
              | inr (as', parsed_a) ↦
                  let loaded : AssessmentSecurityContext = record {
                    assessment = a;
                    authorization = s;
                    authorized_targets = ts;
                    allowed_activities = as';
                  } in
                  let same : loaded ≡ context = ground arith in
                  subst (Evidence db id) same (record {
                    assessment_found = found_a;
                    authorization_found = found_s;
                    targets = parsed_t;
                    activities = parsed_a;
                  })
            ]
          ]
        ]
  ]

  Evidence-load :
      (id : String) (context : AssessmentSecurityContext)
      → Evidence db id context
      → load_assessment_security_context db now id ≡ some context
  unfolding load_assessment_security_context
  Evidence-load id context e = ground arith

  -- For an assessment, AUTH_SCOPE allows exactly where there is an id, the tables hold the
  -- assessment and the authorization that it names with well-formed targets and activities, and
  -- that authorization belongs to the same request and employer, is current, unrevoked and within
  -- its window, and covers the activity and the target.
  pub evaluate_assessment_iff :
      (input : AuthScopeInput)
      → (evaluate_assessment db now input ≡ scope_allowed) ↔ (
          (input.assessment_id ≢ "")
          × ((context : AssessmentSecurityContext) × Evidence db input.assessment_id context
              × Authorizes now context input))
  unfolding evaluate_assessment
  evaluate_assessment_iff input = (
    λ h. elim (Bool-cases (str_eq input.assessment_id "")) [
      | inl blank ↦ absurd (ground arith)
      | inr named ↦
          elim (Option-cases (load_assessment_security_context db now input.assessment_id)) [
            | inl gone ↦ absurd (ground arith)
            | inr (c, loaded) ↦ (
              λ e. let b = (eq_iff input.assessment_id "").1 e in cc,
              (
                c,
                load-Evidence input.assessment_id c loaded,
                (evaluate_context_iff now c input).0 (ground arith),
              ),
            )
          ]
    ],
    λ (named, (c, e, a)).
        let loaded = Evidence-load input.assessment_id c e in
        let ok = (evaluate_context_iff now c input).1 a in
        ground (arith, eq_iff input.assessment_id ""),
  )

  evaluate_request_context_iff :
      (request : RequestRow) (authorization : AuthorizationRow)
      → (evaluate_request_context now request authorization ≡ scope_allowed) ↔ (
          (authorization.consulting_request_id ≡ request.id)
          × (authorization.employer_id ≡ request.employer_id)
          × InForce authorization now)
  unfolding evaluate_request_context
  evaluate_request_context_iff request authorization = (
    λ h. (
      (eq_iff _ _).0 (ground arith),
      (eq_iff _ _).0 (ground arith),
      ((time_checks_iff authorization now scope_allowed).0 (ground arith)).0,
    ),
    λ (r, e, f).
        let same_r = (eq_iff _ _).1 r in
        let same_e = (eq_iff _ _).1 e in
        let all = (time_checks_iff authorization now scope_allowed).1 (f, refl) in ground arith,
  )

  load-held :
      (request_id : Option String) (request : RequestRow) (authorization : AuthorizationRow)
      → load_consulting_request_scope_context db now request_id ≡ some (request, authorization)
      → (first_row (db.request_by_id request_id) ≡ some request)
        × (first_row (db.current_authorization_of request_id) ≡ some authorization)
  unfolding load_consulting_request_scope_context
  load-held request_id request authorization h =
      elim (Option-cases (first_row (db.request_by_id request_id))) [
        | inl gone ↦ absurd (ground arith)
        | inr (q, held) ↦ elim (Option-cases (first_row (db.current_authorization_of request_id))) [
          | inl gone ↦ absurd (ground arith)
          | inr (a, current) ↦ (ground arith, ground arith)
        ]
      ]

  held-load :
      (request_id : Option String) (request : RequestRow) (authorization : AuthorizationRow)
      → first_row (db.request_by_id request_id) ≡ some request
      → first_row (db.current_authorization_of request_id) ≡ some authorization
      → load_consulting_request_scope_context db now request_id ≡ some (request, authorization)
  unfolding load_consulting_request_scope_context
  held-load request_id request authorization held current = ground arith

  -- For a consulting request, AUTH_SCOPE allows exactly where the table of requests holds one under
  -- the id and the table of authorizations a current one for the id, and that authorization
  -- belongs to the request and to its employer, is marked current, unrevoked and within its window.
  pub evaluate_consulting_request_iff :
      (request_id : Option String)
      → (evaluate_consulting_request db now request_id ≡ scope_allowed) ↔ (
          (request : RequestRow) × (authorization : AuthorizationRow) × (first_row
              (db.request_by_id request_id)
            ≡ some request)
          × (first_row (db.current_authorization_of request_id) ≡ some authorization)
          × (authorization.consulting_request_id ≡ request.id)
          × (authorization.employer_id ≡ request.employer_id)
          × InForce authorization now)
  unfolding evaluate_consulting_request
  evaluate_consulting_request_iff request_id = (
    λ h. elim (Option-cases (load_consulting_request_scope_context db now request_id)) [
      | inl gone ↦ absurd (ground arith)
      | inr ((q, a), loaded) ↦
          let (r, e, f) = (evaluate_request_context_iff q a).0 (ground arith) in
          let (held, current) = load-held request_id q a loaded in (q, a, held, current, r, e, f)
    ],
    λ (q, a, held, current, r, e, f).
        let loaded = held-load request_id q a held current in
        let ok = (evaluate_request_context_iff q a).1 (r, e, f) in ground arith,
  )
