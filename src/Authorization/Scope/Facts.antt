-- ===== src/Authorization/Scope/Facts.antt =====
-- Which facts about a resource satisfy OWN, ORG, ASG, PUB and COND.
use cyber_hub_api.Prelude.{
  ◌≡◌, refl, sym, ap, ◌∙◌, subst, ◌↔◌, ◌≢◌, String, Bool, true, Option, none, some, List, [], ◌∷◌,
  Memᴰ, arith, Bool-cases, Option-cases, inl, inr, mem_of_includes, includes_of_mem,
  not_empty_of_mem, str_eq, eq_iff, All,
}
use cyber_hub_api.Authorization.Types.{ActorContext, ResourceContext}
use cyber_hub_api.Authorization.Conditions.{
  implemented, ConditionDefinition, ConditionRegistry, get_condition,
}
use cyber_hub_api.Authorization.Scope.{
  is_text, evaluate_own, evaluate_org, evaluate_asg, evaluate_pub, evaluate_condition,
  run_condition, evaluate_conditions, evaluate_cond,
}

-- The text is there, is not empty, and is the other.
is_text_iff : (o : Option String) (w : String) → (is_text o w ≡ true) ↔ ((o ≡ some w) × (w ≢ ""))
is_text_iff none w = (λ h. absurd (ground arith), λ h. absurd (ground arith))
is_text_iff (some v) w = (
  λ h.
      let same = (eq_iff v w).0 (ground arith) in
      (ap some same, λ e. let blank = (eq_iff v "").1 (same ∙ e) in ground arith),
  λ (e, filled).
      let same : v ≡ w = cc in
      let hit = (eq_iff v w).1 same in
      elim (Bool-cases (str_eq v "")) [
        | inl blank ↦ absurd (filled (sym same ∙ (eq_iff v "").0 blank))
        | inr ok ↦ ground arith
      ],
)

module _ (actor : ActorContext) where
  -- The resource's owner is the actor.
  abbrev pub Owns : Option ResourceContext → Type 0
  Owns none = ⊥
  Owns (some r) = (r.owner_user_id ≡ some actor.user_id) × (actor.user_id ≢ "")

  -- The resource and the actor have one employer.
  abbrev pub SharesTenant : Option ResourceContext → Type 0
  SharesTenant none = ⊥
  SharesTenant (some r) =
      (employer : String) × (actor.employer_id ≡ some employer)
      × (r.employer_id ≡ some employer)
      × (employer ≢ "")

  -- The actor is among the assigned users.
  abbrev pub IsAssigned : Option ResourceContext → Type 0
  IsAssigned none = ⊥
  IsAssigned (some r) =
      (ids : List String) × (r.assigned_user_ids ≡ some ids) × Memᴰ actor.user_id ids

  abbrev pub IsPublished : Option ResourceContext → Type 0
  IsPublished none = ⊥
  IsPublished (some r) = r.is_public ≡ some true

  pub own_iff : (r : Option ResourceContext) → (evaluate_own actor r ≡ true) ↔ Owns r
  unfolding evaluate_own
  own_iff none = (λ h. ground arith, λ h. absurd h)
  own_iff (some r) = is_text_iff r.owner_user_id actor.user_id

  pub org_iff : (r : Option ResourceContext) → (evaluate_org actor r ≡ true) ↔ SharesTenant r
  unfolding evaluate_org
  org_iff none = (λ h. ground arith, λ h. absurd h)
  org_iff (some r) = (
    λ h. elim (Option-cases actor.employer_id) [
      | inl gone ↦ absurd (ground arith)
      | inr (e, mine) ↦
          let ok = (is_text_iff r.employer_id e).0 (ground arith) in (e, mine, ok.0, ok.1)
    ],
    λ (e, mine, its, filled).
        let ok = (is_text_iff r.employer_id e).1 (its, filled) in
        elim (Bool-cases (str_eq e "")) [
          | inl blank ↦ absurd (filled ((eq_iff e "").0 blank))
          | inr fine ↦ ground arith
        ],
  )

  pub asg_iff : (r : Option ResourceContext) → (evaluate_asg actor r ≡ true) ↔ IsAssigned r
  unfolding evaluate_asg
  asg_iff none = (λ h. ground arith, λ h. absurd h)
  asg_iff (some r) = (
    λ h. elim (Option-cases r.assigned_user_ids) [
      | inl gone ↦ absurd (ground arith)
      | inr (ids, listed) ↦ (ids, listed, mem_of_includes actor.user_id ids (ground arith))
    ],
    λ (ids, listed, m).
        let some_one = not_empty_of_mem ids m in let hit = includes_of_mem m in ground arith,
  )

  pub pub_iff : (r : Option ResourceContext) → (evaluate_pub r ≡ true) ↔ IsPublished r
  unfolding evaluate_pub
  pub_iff none = (λ h. ground arith, λ h. absurd h)
  pub_iff (some r) = (λ h. ground arith, λ h. ground arith)

  -- The condition is in the catalogue, implemented, and its evaluator returns true.
  abbrev pub Passes : ConditionRegistry → Option ResourceContext → String → Type 0
  Passes conditions r id =
      (c : ConditionDefinition) × (evaluate : ActorContext → Option ResourceContext → Option Bool)
      × (get_condition conditions id ≡ some c)
      × (c.status ≡ implemented)
      × (c.evaluate ≡ some evaluate)
      × (evaluate actor r ≡ some true)

  module _ (conditions : ConditionRegistry) (r : Option ResourceContext) where
    run_condition_passes :
        (id : String) (c : ConditionDefinition)
        → (run_condition id actor r c).allowed ≡ true
        → (evaluate : ActorContext → Option ResourceContext → Option Bool) × (c.status
            ≡ implemented)
          × (c.evaluate ≡ some evaluate)
          × (evaluate actor r ≡ some true)
    run_condition_passes id c h = elim (Option-cases c.evaluate) [
      | inl gone ↦ absurd (ground arith)
      | inr (f, given) ↦ elim (Option-cases (f actor r)) [
        | inl thrown ↦ absurd (ground arith)
        | inr (b, answer) ↦ (f, ground arith, given, ground arith)
      ]
    ]

    condition_iff :
        (id : String)
        → ((evaluate_condition conditions id actor r).allowed ≡ true) ↔ Passes conditions r id
    condition_iff id = (
      λ h. elim (Option-cases (get_condition conditions id)) [
        | inl gone ↦ absurd (ground arith)
        | inr (c, located) ↦
            let (f, ready, given, answer) = run_condition_passes id c (ground arith) in
            (c, f, located, ready, given, answer)
      ],
      λ (c, f, located, ready, given, answer). ground arith,
    )

    conditions_iff :
        (ids : List String)
        → ((evaluate_conditions conditions ids actor r).allowed ≡ true)
          ↔ All (Passes conditions r) ids
    unfolding evaluate_conditions
    conditions_iff [] = (λ h. tt, λ h. refl)
    conditions_iff (id ∷ ids) = (
      λ h. ((condition_iff id).0 (ground arith), (conditions_iff ids).0 (ground arith)),
      λ (p, ps).
          let here = (condition_iff id).1 p in let rest = (conditions_iff ids).1 ps in ground arith,
    )

    pub cond_iff :
        (ids : Option (List String))
        → ((evaluate_cond conditions ids actor r).allowed ≡ true) ↔ (
            (some_ids : List String) × (ids ≡ some some_ids)
            × (some_ids ≢ [])
            × All (Passes conditions r) some_ids)
    unfolding evaluate_cond
    cond_iff none = (λ h. absurd (ground arith), λ (xs, e, filled, _). absurd (ground arith))
    cond_iff (some []) = (
      λ h. absurd (ground arith),
      λ (xs, e, filled, _). let same : xs ≡ [] = cc in absurd (filled same),
    )
    cond_iff (some (id ∷ ids)) = (
      λ h. (id ∷ ids, refl, λ e. cc, (conditions_iff (id ∷ ids)).0 h),
      λ (xs, e, _, ps).
          let same : xs ≡ id ∷ ids = cc in
          (conditions_iff (id ∷ ids)).1 (subst (All (Passes conditions r)) same ps),
    )
