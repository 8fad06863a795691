-- ===== src/Workflow/Cas/Services.antt =====
-- The transition services, against WorkflowValidationService: a transition that they report has
-- been valid from the persisted state, and a valid one at the current version is made.
use mathlib.Core.Path.{ap₂}
use cyber_hub_api.Prelude.{
  ◌≡◌, refl, sym, ap, ◌∙◌, subst, ℕ, suc, String, true, Option, none, some, List, [], ◌∷◌, Memᴰ,
  arith, inl, inr, ◌⊎◌, ◌≢◌,
}
use cyber_hub_api.Workflow.Table.{Row, WorkflowTable}
use cyber_hub_api.Workflow.Types.{
  WorkflowTransitionId, WorkflowDefinition, WorkflowState, WorkflowEntityType, consulting_request,
}
use cyber_hub_api.Workflow.Registry.{get_workflow_definition}
use cyber_hub_api.Workflow.Registry.Laws.{IsWellFormed, get_workflow_definition_total}
use cyber_hub_api.Workflow.Validation.{valid, validate}
use cyber_hub_api.Workflow.Validation.Laws.{HasRow, validate_iff}
use cyber_hub_api.Workflow.Cas.{
  cas_set, CasTransitionInput, CasTransitionOutcome, updated, TransitionPlan, refused, run,
  conflict, plan_candidates, plan_single, run_plan, execute_cas_transition, candidates_transition,
  consulting_request_transition,
}
use cyber_hub_api.Workflow.Cas.Laws.{
  Matches, Replaced, Succeeds, Fails, execute_cas_transition_lem, Diagnosed,
}
use cyber_hub_api.Workflow.Cas.Plans.{
  Follows, Agree, plan_candidates-Follows, plan_single-Follows, plan_candidates-refusal,
  plan_single-refusal, plan_candidates_complete,
}

module _ (db : WorkflowTable) where
  open db use {Table, row}

  -- Row `r` at the key made a transition that one of the ids names, to `to`, in one version step.
  pub record Transitioned (e : WorkflowEntityType) (key : String) (ids : List WorkflowTransitionId)
      (expected now : ℕ) (t u : Table) (version : ℕ) (to : WorkflowState) : Type 0 where
    pub before : Row
    pub found : row t key ≡ some before
    pub at_expected : before.state_version ≡ expected
    pub next_version : version ≡ suc expected
    pub id : WorkflowTransitionId
    pub candidate : Memᴰ id ids
    pub was_valid : validate e id (some before.status) ≡ some (valid to)
    pub wrote :
        Replaced db key (record { status = to; state_version = version; updated_at = now }) t u

  Diagnosed-not_updated :
      (input : CasTransitionInput) (o : Option Row) (x : CasTransitionOutcome) {v : ℕ} {to : String}
      → Diagnosed input o x
      → x ≢ updated v to
  Diagnosed-not_updated input none x h e = ground arith
  Diagnosed-not_updated input (some r) x (b, _, inl (_, same)) e = ground arith
  Diagnosed-not_updated input (some r) x (b, _, inr (_, same)) e = ground arith

  module _ (e : WorkflowEntityType) (d : WorkflowDefinition)
      (registered : get_workflow_definition e ≡ some d) (key : String)
      (ids : List WorkflowTransitionId) (expected now : ℕ) (meanwhile : Table → Table)
      (t : Table) where
    command-Transitioned :
        (input : CasTransitionInput) {u : Table} {version : ℕ} {to : WorkflowState}
        → Follows d key ids expected input
        → execute_cas_transition db input now meanwhile t ≡ (u, updated version to)
        → Transitioned e key ids expected now t u version to
    command-Transitioned input {u} {version} {to} f h =
        elim (subst
          (λ x.
            ((r : Row) × Succeeds db input now meanwhile t r x.0 x.1)
            ⊎ Fails db input now meanwhile t x.0 x.1)
          h (execute_cas_transition_lem db input now meanwhile t)) [
            | inl (r, (found, (allowed, current), o, wrote)) ↦
                let (id, m, row_of) = f.rows r.status allowed in
                let next : version ≡ suc r.state_version = cc in
                let target : to ≡ input.to_state = cc in
                let here : row t key ≡ some r =
                  subst (λ k. row t k ≡ some r) f.same_resource found in
                let written_row : cas_set input now r
                    ≡ record { status = to; state_version = version; updated_at = now } =
                  ground arith in
                record {
                  before = r;
                  found = here;
                  at_expected = current ∙ f.same_version;
                  next_version = next ∙ ap suc (current ∙ f.same_version);
                  id = id;
                  candidate = m;
                  was_valid =
                      (validate_iff e id (some r.status) to).1
                        (d, registered, subst (HasRow d id (some r.status)) (sym target) row_of);
                  wrote =
                      subst
                        (λ k.
                          Replaced db k
                            (record { status = to; state_version = version; updated_at = now }) t u)
                        f.same_resource
                        (subst (λ r. Replaced db input.resource_id r t u) written_row wrote);
                }
            | inr (_, _, dia) ↦ absurd (
                Diagnosed-not_updated input (row u input.resource_id) (updated version to) dia refl)
          ]

    plan-Transitioned :
        (plan : TransitionPlan) {u : Table} {version : ℕ} {to : WorkflowState}
        → ((input : CasTransitionInput) → plan ≡ run input → Follows d key ids expected input)
        → (refusal : (o : CasTransitionOutcome) → plan ≡ refused o → o ≡ conflict true none)
        → run_plan db plan now meanwhile t ≡ (u, updated version to)
        → Transitioned e key ids expected now t u version to
    unfolding run_plan
    plan-Transitioned (refused o) f refusal h = let r = refusal o refl in absurd (ground arith)
    plan-Transitioned (run input) f refusal h = command-Transitioned input (f input refl) h

  -- When a service over several candidate ids (findings, assessments) reports a transition, the row
  -- stood at the expected version, one of the candidates was valid from its persisted state to the
  -- reported one, the reported version is the successor, and that row alone was written.
  pub candidates_transition-Transitioned :
      (e : WorkflowEntityType) (key : String) (ids : List WorkflowTransitionId) (expected now : ℕ)
      (meanwhile : Table → Table) (t u : Table) (version : ℕ) (to : WorkflowState)
      → candidates_transition db e key ids expected now meanwhile t ≡ some (u, updated version to)
      → Transitioned e key ids expected now t u version to
  unfolding candidates_transition
  candidates_transition-Transitioned e key ids expected now meanwhile t u version to h =
      let has = get_workflow_definition_total e in
      let d = has.definition in
      plan-Transitioned e d has.registered key ids expected now meanwhile t
        (plan_candidates d key ids expected) (plan_candidates-Follows d key expected ids)
        (plan_candidates-refusal d key expected ids) (ground (arith, has.registered))

  -- When the consulting request service, which takes one id, reports a transition, the row stood
  -- at the expected version, the id was valid from its persisted state to the reported one, the
  -- reported version is the successor, and that row alone was written.
  pub consulting_request_transition-Transitioned :
      (key : String) (id : WorkflowTransitionId) (expected now : ℕ) (meanwhile : Table → Table)
      (t u : Table) (version : ℕ) (to : WorkflowState)
      → consulting_request_transition db key id expected now meanwhile t
        ≡ some (u, updated version to)
      → Transitioned consulting_request key (id ∷ []) expected now t u version to
  unfolding consulting_request_transition
  consulting_request_transition-Transitioned key id expected now meanwhile t u version to h =
      let has = get_workflow_definition_total consulting_request in
      let d = has.definition in
      plan-Transitioned consulting_request d has.registered key (id ∷ []) expected now meanwhile t
        (plan_single d key id expected) (plan_single-Follows d key expected id)
        (plan_single-refusal d key expected id) (ground (arith, has.registered))

  execute_updates :
      (input : CasTransitionInput) (now : ℕ) (meanwhile : Table → Table) (t : Table) (r : Row)
      → row t input.resource_id ≡ some r
      → Matches input r
      → (execute_cas_transition db input now meanwhile t).1
        ≡ updated (suc r.state_version) input.to_state
  execute_updates input now meanwhile t r found m =
      elim (execute_cas_transition_lem db input now meanwhile t) [
        | inl (s, (found_s, _, o, _)) ↦
            let same : s ≡ r = ground arith in
            o ∙ ap (λ (r : Row). updated (suc r.state_version) input.to_state) same
        | inr (never, _, _) ↦ absurd (never r found m)
      ]

  planned_call :
      (e : WorkflowEntityType) (d : WorkflowDefinition) (key : String)
      (ids : List WorkflowTransitionId) (expected now : ℕ) (meanwhile : Table → Table) (t : Table)
      (input : CasTransitionInput)
      → get_workflow_definition e ≡ some d
      → plan_candidates d key ids expected ≡ run input
      → candidates_transition db e key ids expected now meanwhile t
        ≡ some (execute_cas_transition db input now meanwhile t)
  unfolding candidates_transition run_plan
  planned_call e d key ids expected now meanwhile t input g p = ground arith

  -- A candidate that is valid from the persisted state, at the persisted version, is carried out,
  -- whatever other candidates stand beside it, as long as the candidates agree on the target.
  pub candidates_transition_succeeds :
      (e : WorkflowEntityType) (d : WorkflowDefinition) (key : String)
      (ids : List WorkflowTransitionId) (expected now : ℕ) (meanwhile : Table → Table) (t : Table)
      (r : Row) (id : WorkflowTransitionId) (to : WorkflowState)
      → get_workflow_definition e ≡ some d
      → Agree d ids
      → row t key ≡ some r
      → r.state_version ≡ expected
      → Memᴰ id ids
      → validate e id (some r.status) ≡ some (valid to)
      → (u : Table) × (candidates_transition db e key ids expected now meanwhile t
          ≡ some (u, updated (suc expected) to))
  candidates_transition_succeeds e d key ids expected now meanwhile t r id to g agree found current
        m ok =
      let has = get_workflow_definition_total e in
      let (d', g', row_of') = (validate_iff e id (some r.status) to).0 ok in
      let same : d' ≡ d = ground arith in
      let same_has : has.definition ≡ d = ground (arith, has.registered) in
      let (input, planned, allowed, target) =
        plan_candidates_complete d key expected ids id r.status to
          (subst IsWellFormed same_has has.is_well_formed) agree m
          (subst (λ d. HasRow d id (some r.status) to) same row_of') in
      let f = plan_candidates-Follows d key expected ids input planned in
      let o =
        execute_updates input now meanwhile t r
          (subst (λ k. row t k ≡ some r) (sym f.same_resource) found)
          (allowed, current ∙ sym f.same_version) in
      let reported : updated (suc r.state_version) input.to_state ≡ updated (suc expected) to =
        ap₂ updated (ap suc current) target in
      (
        (execute_cas_transition db input now meanwhile t).0,
        planned_call e d key ids expected now meanwhile t input g planned
            ∙ ap (λ o. some ((execute_cas_transition db input now meanwhile t).0, o))
                (o ∙ reported),
      )
