-- ===== src/Workflow/Registry/Laws.antt =====
-- Every entity type has a well-formed definition in the registry: what workflow-registry.spec.ts
-- asks of the tables, for every row.
use cyber_hub_api.Prelude.{
  ◌≡◌, refl, List, [], ◌∷◌, Bool, true, false, not, ◌&&◌, ◌||◌, some, mem_some_of, Memᴰ, arith,
  Bool-cases, inl, inr, every, every_mem, some_of, some_of_mem, find, includes, mem_of_includes,
  not_mem_of_includes, str_eq, eq_iff,
}
use cyber_hub_api.Workflow.Types.{
  internship_programme, internship_application, submission, certificate, career_listing,
  employer_opportunity, consulting_request, security_assessment, finding, report,
  monitoring_subscription, resource, course, WorkflowEntityType, WorkflowState, WorkflowDefinition,
  WorkflowTransitionDefinition,
}
use cyber_hub_api.Workflow.Registry.{
  find_transition, get_workflow_definition, internship_programme_workflow,
  internship_application_workflow, submission_workflow, certificate_workflow,
  career_listing_workflow, employer_opportunity_workflow, consulting_request_workflow,
  security_assessment_workflow, finding_workflow, report_workflow, monitoring_subscription_workflow,
  resource_workflow, course_workflow,
}

pub record IsWellFormed (d : WorkflowDefinition) : Type 0 where
  pub from_listed :
      (t : WorkflowTransitionDefinition) (s : WorkflowState)
      → Memᴰ t d.transitions
      → Memᴰ s t.from
      → Memᴰ s d.states
  pub from_open :
      (t : WorkflowTransitionDefinition) (s : WorkflowState)
      → Memᴰ t d.transitions
      → Memᴰ s t.from
      → ¬ Memᴰ s d.terminal_states
  pub to_listed : (t : WorkflowTransitionDefinition) → Memᴰ t d.transitions → Memᴰ t.to d.states
  pub terminal_listed : (s : WorkflowState) → Memᴰ s d.terminal_states → Memᴰ s d.states
  pub open_leaves :
      (s : WorkflowState)
      → Memᴰ s d.states
      → ¬ Memᴰ s d.terminal_states
      → (t : WorkflowTransitionDefinition) × Memᴰ t d.transitions × Memᴰ s t.from
  pub found_by_id :
      (t : WorkflowTransitionDefinition) → Memᴰ t d.transitions → find_transition d t.id ≡ some t

-- The same as a test.
row_ok : WorkflowDefinition → WorkflowTransitionDefinition → Bool
row_ok d t =
    every (λ s. includes s d.states && not (includes s d.terminal_states)) t.from
    && includes t.to d.states

leaves : WorkflowDefinition → WorkflowState → Bool
leaves d s = includes s d.terminal_states || some_of (λ t. includes s t.from) d.transitions

distinct_ids : List WorkflowTransitionDefinition → Bool
distinct_ids [] = true
distinct_ids (t ∷ ts) = not (some_of (λ u. str_eq t.id u.id) ts) && distinct_ids ts

well_formed : WorkflowDefinition → Bool
unfolding row_ok leaves distinct_ids
well_formed d =
    every (row_ok d) d.transitions
    && every (λ s. includes s d.states) d.terminal_states
    && every (leaves d) d.states
    && distinct_ids d.transitions

find_distinct :
    (ts : List WorkflowTransitionDefinition) {t : WorkflowTransitionDefinition}
    → distinct_ids ts ≡ true
    → Memᴰ t ts
    → find (λ u. str_eq u.id t.id) ts ≡ some t
unfolding distinct_ids
find_distinct [] h m = elim m [ ]
find_distinct (u ∷ ts) {t} h (Memᴰ.head same) = rw same (ground (arith, (eq_iff u.id u.id).1 refl))
find_distinct (u ∷ ts) {t} h (Memᴰ.tail m) = elim (Bool-cases (str_eq u.id t.id)) [
  | inl clash ↦ let found = mem_some_of (λ v. str_eq u.id v.id) ts m clash in ground arith
  | inr other ↦ let rest = find_distinct ts (ground arith) m in ground arith
]

row_ok-from :
    (d : WorkflowDefinition) (t : WorkflowTransitionDefinition) (s : WorkflowState)
    → row_ok d t ≡ true
    → Memᴰ s t.from
    → (includes s d.states ≡ true) × (includes s d.terminal_states ≡ false)
unfolding row_ok
row_ok-from d t s h m =
    let here =
      every_mem (λ s. includes s d.states && not (includes s d.terminal_states)) t.from
        (ground arith) m in
    ground arith

row_ok-to :
    (d : WorkflowDefinition) (t : WorkflowTransitionDefinition)
    → row_ok d t ≡ true
    → includes t.to d.states ≡ true
unfolding row_ok
row_ok-to d t h = ground arith

leaves-open :
    (d : WorkflowDefinition) (s : WorkflowState)
    → leaves d s ≡ true
    → ¬ Memᴰ s d.terminal_states
    → some_of (λ t. includes s t.from) d.transitions ≡ true
unfolding leaves
leaves-open d s h n = elim (Bool-cases (includes s d.terminal_states)) [
  | inl stop ↦ absurd (n (mem_of_includes s d.terminal_states stop))
  | inr go ↦ ground arith
]

module _ (d : WorkflowDefinition) where
  -- What `well_formed d ≡ true` says of the four lists.
  rows_ok : well_formed d ≡ true → every (row_ok d) d.transitions ≡ true
  unfolding well_formed
  rows_ok h = ground arith

  terminals_ok : well_formed d ≡ true → every (λ s. includes s d.states) d.terminal_states ≡ true
  unfolding well_formed
  terminals_ok h = ground arith

  leaves_ok : well_formed d ≡ true → every (leaves d) d.states ≡ true
  unfolding well_formed
  leaves_ok h = ground arith

  ids_ok : well_formed d ≡ true → distinct_ids d.transitions ≡ true
  unfolding well_formed
  ids_ok h = ground arith

  well_formed_sound : well_formed d ≡ true → IsWellFormed d
  well_formed_sound h = record {
    from_listed = λ t s m n.
        mem_of_includes s d.states (row_ok-from d t s (every_mem (row_ok d) _ (rows_ok h) m) n).0;
    from_open = λ t s m n.
        not_mem_of_includes s d.terminal_states
          (row_ok-from d t s (every_mem (row_ok d) _ (rows_ok h) m) n).1;
    to_listed =
        λ t m. mem_of_includes t.to d.states (row_ok-to d t (every_mem (row_ok d) _ (rows_ok h) m));
    terminal_listed = λ s m.
        mem_of_includes s d.states (every_mem (λ s. includes s d.states) _ (terminals_ok h) m);
    open_leaves = λ s m n.
        let out =
          some_of_mem (λ t. includes s t.from) d.transitions
            (leaves-open d s (every_mem (leaves d) _ (leaves_ok h) m) n) in
        (out.0, out.1, mem_of_includes s _ out.2);
    found_by_id = λ t m. find_distinct d.transitions (ids_ok h) m;
  }

-- Looking up any entity type succeeds, and gives the definition of that entity.
pub record HasDefinition (e : WorkflowEntityType) : Type 0 where
  pub definition : WorkflowDefinition
  pub registered : get_workflow_definition e ≡ some definition
  pub of_entity : definition.entity_type ≡ e
  pub is_well_formed : IsWellFormed definition

registered_as :
    (e : WorkflowEntityType) (d : WorkflowDefinition)
    → get_workflow_definition e ≡ some d
    → d.entity_type ≡ e
    → well_formed d ≡ true
    → HasDefinition e
registered_as e d found same ok = record {
  definition = d;
  registered = found;
  of_entity = same;
  is_well_formed = well_formed_sound d ok;
}

-- Every entity type has a definition in the registry, of that entity, which is well formed: the
-- states that its transitions name and its terminal states are listed, no transition leaves a
-- terminal state, some transition leaves every other one, and each id finds its own transition.
pub get_workflow_definition_total : (e : WorkflowEntityType) → HasDefinition e
unfolding get_workflow_definition well_formed
get_workflow_definition_total internship_programme =
    registered_as internship_programme internship_programme_workflow refl refl refl
get_workflow_definition_total internship_application =
    registered_as internship_application internship_application_workflow refl refl refl
get_workflow_definition_total submission =
    registered_as submission submission_workflow refl refl refl
get_workflow_definition_total certificate =
    registered_as certificate certificate_workflow refl refl refl
get_workflow_definition_total career_listing =
    registered_as career_listing career_listing_workflow refl refl refl
get_workflow_definition_total employer_opportunity =
    registered_as employer_opportunity employer_opportunity_workflow refl refl refl
get_workflow_definition_total consulting_request =
    registered_as consulting_request consulting_request_workflow refl refl refl
get_workflow_definition_total security_assessment =
    registered_as security_assessment security_assessment_workflow refl refl refl
get_workflow_definition_total finding = registered_as finding finding_workflow refl refl refl
get_workflow_definition_total report = registered_as report report_workflow refl refl refl
get_workflow_definition_total monitoring_subscription =
    registered_as monitoring_subscription monitoring_subscription_workflow refl refl refl
get_workflow_definition_total resource = registered_as resource resource_workflow refl refl refl
get_workflow_definition_total course = registered_as course course_workflow refl refl refl
