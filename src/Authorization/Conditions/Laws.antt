-- ===== src/Authorization/Conditions/Laws.antt =====
-- The production catalogue of conditions.
use cyber_hub_api.Prelude.{
  is_empty, Bool-cases, ◌≡◌, refl, ap, subst, ◌≢◌, inl, inr, String, Bool, true, false, Option,
  none, some, List, [], ◌∷◌, Memᴰ, arith, every, every_mem, All, All_mem, not_empty_of_mem, str_eq,
  last_entry-mem,
}
use cyber_hub_api.Authorization.Types.{
  ActorContext, ResourceContext, RouteParams, OperationContext, cond,
}
use cyber_hub_api.Authorization.Conditions.{
  ConditionStatus, implemented, deferred, ConditionDefinition, ConditionRegistry, get_condition,
  production_conditions, new_condition_registry,
}
use cyber_hub_api.Authorization.Scope.{ScopeServices, resolve_and_evaluate}
use cyber_hub_api.Authorization.Scope.Facts.{Passes}
use cyber_hub_api.Authorization.Scope.Laws.{resolve_and_evaluate_iff, Satisfied}

abbrev is_deferred : ConditionStatus → Bool
is_deferred deferred = true
is_deferred implemented = false

abbrev entry_deferred : String × ConditionDefinition → Bool
entry_deferred (id, c) = is_deferred c.status

abbrev all_deferred : Option ConditionRegistry → Bool
all_deferred none = false
all_deferred (some registry) = every entry_deferred registry

production_deferred : all_deferred (new_condition_registry production_conditions) ≡ true
unfolding new_condition_registry production_conditions
production_deferred = refl

module _ (services : ScopeServices)
    (production : new_condition_registry production_conditions ≡ some services.conditions) where
  condition_deferred :
      (id : String) (c : ConditionDefinition)
      → get_condition services.conditions id ≡ some c
      → c.status ≡ deferred
  condition_deferred id c e =
      let all : every entry_deferred services.conditions ≡ true =
        subst (λ r. all_deferred r ≡ true) production production_deferred in
      let (k, m) = last_entry-mem str_eq id services.conditions e in
      let h = every_mem entry_deferred services.conditions all m in ground arith

  condition_never-Passes :
      (actor : ActorContext) (r : Option ResourceContext) (id : String)
      → ¬ Passes actor services.conditions r id
  condition_never-Passes actor r id (c, f, e, ready, _, _) =
      let waiting = condition_deferred id c e in absurd (ground arith)

  no-Passes :
      (actor : ActorContext) (r : Option ResourceContext) (ids : List String)
      → ids ≢ []
      → ¬ All (Passes actor services.conditions r) ids
  no-Passes actor r [] filled passing = filled refl
  no-Passes actor r (id ∷ ids) filled passing = condition_never-Passes actor r id passing.0

  -- With the catalogue of production conditions, all of which are deferred, an operation whose
  -- scopes include COND is allowed to nobody.
  pub production_cond_denied :
      (actor : ActorContext) (operation : OperationContext) (params : RouteParams)
      (resource_type : String)
      → Memᴰ cond operation.scope
      → (resolve_and_evaluate services actor operation resource_type params).allowed ≡ false
  production_cond_denied actor operation params resource_type m =
      elim (Bool-cases
        (resolve_and_evaluate services actor operation resource_type params).allowed) [
          | inr denied ↦ denied
          | inl ok ↦
              elim ((resolve_and_evaluate_iff services actor operation params resource_type).0 ok) [
                | inl bare ↦
                    let some_scope = not_empty_of_mem operation.scope m in
                    let quiet = ap is_empty bare in absurd (ground arith)
                | inr (r, a, ps) ↦
                    let (ids, given, filled, passing) =
                      All_mem (Satisfied services actor operation params r) operation.scope ps m in
                    absurd (no-Passes actor r ids filled passing)
              ]
        ]
