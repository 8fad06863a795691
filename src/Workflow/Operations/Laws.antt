-- ===== src/Workflow/Operations/Laws.antt =====
-- The operation map, against the registry: what workflow-operation-map.spec.ts asks of the table.
use cyber_hub_api.Prelude.{
  ◌≡◌, refl, sym, ap, ◌∙◌, String, Bool, true, false, not, ◌&&◌, ◌≢◌, none, some, List, [], ◌∷◌,
  Memᴰ, arith, Option-cases, inl, inr, every, every_mem, includes, mem_of_includes,
  not_mem_of_includes, is_empty, str_eq, eq_iff, last_entry-mem,
}
use cyber_hub_api.Workflow.Types.{
  WorkflowTransitionDefinition, WorkflowDefinition, WorkflowTransitionId, WorkflowState,
  WorkflowEntityType,
}
use cyber_hub_api.Workflow.Registry.{get_workflow_definition, find_transition}
use cyber_hub_api.Workflow.Cas.Plans.{Agree}
use cyber_hub_api.Workflow.Operations.{
  WorkflowOperationMapping, transition, edit_guard, delete_guard, workflow_operation_map,
  get_workflow_operation_mapping,
}

-- The ids name rows of the definition, which lead to one state.
abbrev pub NamesCommand : WorkflowDefinition → List WorkflowTransitionId → Type 0
NamesCommand d ids =
    (ids ≢ [])
    × ((id : WorkflowTransitionId)
        → Memᴰ id ids
        → (t : WorkflowTransitionDefinition) × (find_transition d id ≡ some t))
    × Agree d ids

-- The states are open states of the definition.
abbrev pub NamesOpenStates : WorkflowDefinition → List WorkflowState → Type 0
NamesOpenStates d states =
    (states ≢ [])
    × ((s : WorkflowState) → Memᴰ s states → Memᴰ s d.states × (¬ Memᴰ s d.terminal_states))

abbrev pub IsSound : WorkflowOperationMapping → Type 0
IsSound (transition e ids) =
    (d : WorkflowDefinition) × (get_workflow_definition e ≡ some d) × NamesCommand d ids
IsSound (edit_guard e states) =
    (d : WorkflowDefinition) × (get_workflow_definition e ≡ some d) × NamesOpenStates d states
IsSound (delete_guard e states) =
    (d : WorkflowDefinition) × (get_workflow_definition e ≡ some d) × NamesOpenStates d states

-- The same as a test.
leads_to : WorkflowDefinition → WorkflowState → WorkflowTransitionId → Bool
leads_to d to id = elim (find_transition d id) [ none ↦ false | some t ↦ str_eq t.to to ]

command_ok : WorkflowDefinition → List WorkflowTransitionId → Bool
unfolding leads_to
command_ok d [] = false
command_ok d (id ∷ ids) = elim (find_transition d id) [
  | none ↦ false
  | some t ↦ every (leads_to d t.to) (id ∷ ids)
]

states_ok : WorkflowDefinition → List WorkflowState → Bool
states_ok d states =
    not (is_empty states)
    && every (λ s. includes s d.states && not (includes s d.terminal_states)) states

with_definition : WorkflowEntityType → (WorkflowDefinition → Bool) → Bool
with_definition e test = elim (get_workflow_definition e) [ none ↦ false | some d ↦ test d ]

mapping_ok : WorkflowOperationMapping → Bool
unfolding command_ok states_ok with_definition get_workflow_definition
mapping_ok (transition e ids) = with_definition e (λ d. command_ok d ids)
mapping_ok (edit_guard e states) = with_definition e (λ d. states_ok d states)
mapping_ok (delete_guard e states) = with_definition e (λ d. states_ok d states)

leads_to-row :
    (d : WorkflowDefinition) (to : WorkflowState) (id : WorkflowTransitionId)
    → leads_to d to id ≡ true
    → (t : WorkflowTransitionDefinition) × (find_transition d id ≡ some t) × (t.to ≡ to)
unfolding leads_to
leads_to-row d to id h = elim (Option-cases (find_transition d id)) [
  | inl missing ↦ absurd (ground arith)
  | inr (t, found) ↦ (t, found, (eq_iff t.to to).0 (ground arith))
]

command_ok_sound :
    (d : WorkflowDefinition) (ids : List WorkflowTransitionId)
    → command_ok d ids ≡ true
    → NamesCommand d ids
unfolding command_ok
command_ok_sound d [] h = absurd (ground arith)
command_ok_sound d (id ∷ ids) h = elim (Option-cases (find_transition d id)) [
  | inl missing ↦ absurd (ground arith)
  | inr (t, found) ↦
      let all = λ (i : WorkflowTransitionId) (m : Memᴰ i (id ∷ ids)).
        leads_to-row d t.to i (every_mem (leads_to d t.to) (id ∷ ids) (ground arith) m) in
      (
        λ e. cc,
        λ i m. let (u, f, _) = all i m in (u, f),
        λ i j u v mi mj fi fj.
            let (u', fu, tu) = all i mi in
            let (v', fv, tv) = all j mj in
            let su : u' ≡ u = ground arith in
            let sv : v' ≡ v = ground arith in
            ap (λ t. t.to) (sym su) ∙ tu ∙ sym tv ∙ ap (λ t. t.to) sv,
      )
]

states_ok_sound :
    (d : WorkflowDefinition) (states : List WorkflowState)
    → states_ok d states ≡ true
    → NamesOpenStates d states
unfolding states_ok
states_ok_sound d states h = (
  λ e. let n : is_empty states ≡ true = ap is_empty e in ground arith,
  λ s m.
      let ok =
        every_mem (λ s. includes s d.states && not (includes s d.terminal_states)) states
          (ground arith) m in
      (
        mem_of_includes s d.states (ground arith),
        not_mem_of_includes s d.terminal_states (ground arith),
      ),
)

with_definition_sound :
    (e : WorkflowEntityType) (test : WorkflowDefinition → Bool) (P : WorkflowDefinition → Type 0)
    → with_definition e test ≡ true
    → ((d : WorkflowDefinition) → test d ≡ true → P d)
    → (d : WorkflowDefinition) × (get_workflow_definition e ≡ some d) × P d
unfolding with_definition
with_definition_sound e test P h f = elim (Option-cases (get_workflow_definition e)) [
  | inl missing ↦ absurd (ground arith)
  | inr (d, found) ↦ (d, found, f d (ground arith))
]

mapping_ok-IsSound : (m : WorkflowOperationMapping) → mapping_ok m ≡ true → IsSound m
unfolding mapping_ok
mapping_ok-IsSound (transition e ids) h =
    with_definition_sound e (λ d. command_ok d ids) (λ d. NamesCommand d ids) h
      (λ d. command_ok_sound d ids)
mapping_ok-IsSound (edit_guard e states) h =
    with_definition_sound e (λ d. states_ok d states) (λ d. NamesOpenStates d states) h
      (λ d. states_ok_sound d states)
mapping_ok-IsSound (delete_guard e states) h =
    with_definition_sound e (λ d. states_ok d states) (λ d. NamesOpenStates d states) h
      (λ d. states_ok_sound d states)

operation_map_ok :
    every (λ (m : String × WorkflowOperationMapping). mapping_ok m.1) workflow_operation_map ≡ true
unfolding mapping_ok
operation_map_ok = refl

-- Every mapped operation agrees with the registry: a TRANSITION names at least one id, every id
-- names a row of its entity's definition, and the rows lead to one state; an EDIT_GUARD or
-- DELETE_GUARD names at least one state, and its states are states of the entity, none terminal.
pub get_workflow_operation_mapping-IsSound :
    (api_id : String) (m : WorkflowOperationMapping)
    → get_workflow_operation_mapping api_id ≡ some m
    → IsSound m
unfolding get_workflow_operation_mapping
get_workflow_operation_mapping-IsSound api_id m e =
    let (k, listed) = last_entry-mem str_eq api_id workflow_operation_map e in
    mapping_ok-IsSound m (
      every_mem (λ (m : String × WorkflowOperationMapping). mapping_ok m.1) workflow_operation_map
        operation_map_ok listed)
