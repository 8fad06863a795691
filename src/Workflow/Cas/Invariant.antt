-- ===== src/Workflow/Cas/Invariant.antt =====
-- What every call of a transition service keeps: persisted states are states of the registry, and
-- a terminal state is final.
use cyber_hub_api.Prelude.{
  ◌≡◌, refl, sym, ◌∙◌, subst, ◌≢◌, ℕ, String, some, List, Memᴰ, arith, inl, inr, Bool-cases, str_eq,
}
use cyber_hub_api.Workflow.Table.{Row, WorkflowTable}
use cyber_hub_api.Workflow.Types.{
  WorkflowTransitionId, WorkflowDefinition, WorkflowState, WorkflowEntityType,
}
use cyber_hub_api.Workflow.Registry.{get_workflow_definition}
use cyber_hub_api.Workflow.Registry.Laws.{IsWellFormed, get_workflow_definition_total}
use cyber_hub_api.Workflow.Validation.Laws.{validate_iff}
use cyber_hub_api.Workflow.Cas.{
  CasTransitionInput, CasTransitionOutcome, updated, TransitionPlan, refused, run, run_plan,
  plan_candidates, execute_cas_transition, candidates_transition, cas_set,
}
use cyber_hub_api.Workflow.Cas.Laws.{Replaced, SameRows, execute_cas_transition_lem}
use cyber_hub_api.Workflow.Cas.Plans.{Follows, plan_candidates-Follows}
use cyber_hub_api.Workflow.Cas.Services.{candidates_transition-Transitioned}

module _ (db : WorkflowTable) where
  open db use {Table, row}

  -- Every persisted row is in a state of the definition.
  abbrev pub IsLawful : WorkflowDefinition → Table → Type 0
  IsLawful d t = (key : String) (r : Row) → row t key ≡ some r → Memᴰ r.status d.states

  SameRows-IsLawful :
      (d : WorkflowDefinition) (t u : Table) → SameRows db t u → IsLawful d t → IsLawful d u
  SameRows-IsLawful d t u same l key r e = l key r (sym (same key) ∙ e)

  Replaced-IsLawful :
      (d : WorkflowDefinition) (key : String) (r : Row) (t u : Table)
      → Replaced db key r t u
      → Memᴰ r.status d.states
      → IsLawful d t
      → IsLawful d u
  Replaced-IsLawful d key r t u wrote m l j q e = elim (Bool-cases (str_eq key j)) [
    | inl here ↦
        let one : r ≡ q = let w = wrote j in ground arith in
        subst (λ (r : Row). Memᴰ r.status d.states) one m
    | inr there ↦ l j q (let w = wrote j in ground arith)
  ]

  module _ (d : WorkflowDefinition) (w : IsWellFormed d) (now : ℕ) (meanwhile : Table → Table)
      (keeps : (t : Table) → IsLawful d t → IsLawful d (meanwhile t)) where
    execute-IsLawful :
        (input : CasTransitionInput) (key : String) (ids : List WorkflowTransitionId) (expected : ℕ)
        (t : Table)
        → Follows d key ids expected input
        → IsLawful d t
        → IsLawful d (execute_cas_transition db input now meanwhile t).0
    execute-IsLawful input key ids expected t f l =
        elim (execute_cas_transition_lem db input now meanwhile t) [
          | inl (r, (_, (allowed, _), _, wrote)) ↦
              let (_, _, (row_of, listed, _, same_to, _)) = f.rows r.status allowed in
              Replaced-IsLawful d input.resource_id (cas_set input now r) t _ wrote
                (subst (λ s. Memᴰ s d.states) same_to (w.to_listed row_of listed)) l
          | inr (_, (t', same, later), _) ↦
              subst (IsLawful d) (sym later) (keeps t' (SameRows-IsLawful d t t' same l))
        ]

    run_plan-IsLawful :
        (plan : TransitionPlan) (key : String) (ids : List WorkflowTransitionId) (expected : ℕ)
        (t : Table)
        → ((input : CasTransitionInput) → plan ≡ run input → Follows d key ids expected input)
        → IsLawful d t
        → IsLawful d (run_plan db plan now meanwhile t).0
    unfolding run_plan
    run_plan-IsLawful (refused o) key ids expected t f l = l
    run_plan-IsLawful (run input) key ids expected t f l =
        execute-IsLawful input key ids expected t (f input refl) l

  -- Whatever a transition service is asked and whatever it answers, each persisted row is left in
  -- a state of the entity's definition, if each was before and the other clients keep it so.
  pub candidates_transition-IsLawful :
      (e : WorkflowEntityType) (d : WorkflowDefinition) (key : String)
      (ids : List WorkflowTransitionId) (expected now : ℕ) (meanwhile : Table → Table) (t u : Table)
      (o : CasTransitionOutcome)
      → get_workflow_definition e ≡ some d
      → ((t : Table) → IsLawful d t → IsLawful d (meanwhile t))
      → IsLawful d t
      → candidates_transition db e key ids expected now meanwhile t ≡ some (u, o)
      → IsLawful d u
  unfolding candidates_transition
  candidates_transition-IsLawful e d key ids expected now meanwhile t u o g keeps l h =
      let has = get_workflow_definition_total e in
      let same : has.definition ≡ d = ground (arith, has.registered) in
      let done : run_plan db (plan_candidates d key ids expected) now meanwhile t ≡ (u, o) =
        ground arith in
      subst (λ x. IsLawful d x.0) done
        (run_plan-IsLawful d (subst IsWellFormed same has.is_well_formed) now meanwhile keeps
          (plan_candidates d key ids expected) key ids expected t
          (plan_candidates-Follows d key expected ids) l)

  -- A row in a terminal state is never transitioned, by any candidate ids at any version.
  pub candidates_transition_terminal :
      (e : WorkflowEntityType) (d : WorkflowDefinition) (key : String)
      (ids : List WorkflowTransitionId) (expected now : ℕ) (meanwhile : Table → Table) (t u : Table)
      (r : Row) (version : ℕ) (to : WorkflowState)
      → get_workflow_definition e ≡ some d
      → row t key ≡ some r
      → Memᴰ r.status d.terminal_states
      → candidates_transition db e key ids expected now meanwhile t ≢ some (u, updated version to)
  candidates_transition_terminal e d key ids expected now meanwhile t u r version to g found final
        h =
      let step =
        candidates_transition-Transitioned db e key ids expected now meanwhile t u version to h in
      let has = get_workflow_definition_total e in
      let (d', g', (t', listed, _, _, from)) =
        (validate_iff e step.id (some step.before.status) to).0 step.was_valid in
      let same : step.before ≡ r = ground (arith, step.found) in
      let one : d' ≡ d = ground arith in
      let of_has : has.definition ≡ d' = ground (arith, has.registered) in
      (subst IsWellFormed of_has has.is_well_formed).from_open t' step.before.status listed from (
        subst (λ d. Memᴰ step.before.status d.terminal_states) (sym one)
          (subst (λ (r : Row). Memᴰ r.status d.terminal_states) (sym same) final))
