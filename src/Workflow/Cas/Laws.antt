-- ===== src/Workflow/Cas/Laws.antt =====
-- One compare-and-set transition: what it writes, and what it reports.
use cyber_hub_api.Prelude.{
  ◌≡◌, refl, sym, ap, ◌∙◌, subst, ◌≢◌, ◌↔◌, ◌⊎◌, ℕ, suc, String, Bool, true, false, not, Option,
  none, some, List, [], ◌∷◌, Memᴰ, arith, Bool-cases, Option-cases, inl, inr, includes, str_eq,
  if◌then◌else◌, mem_of_includes, includes_of_mem, not_includes_of_not_mem, eq_iff,
}
use cyber_hub_api.Workflow.Table.{Row, WorkflowTable, listed}
use cyber_hub_api.Workflow.Cas.{
  CasTransitionOutcome, updated, not_found, stale_conflict, conflict, CasTransitionInput,
  cas_matches, cas_set, diagnose, cas_update, execute_cas_transition,
}

-- The persisted row is in a listed state, at the expected version.
abbrev pub Matches : CasTransitionInput → Row → Type 0
Matches input r =
    Memᴰ r.status input.allowed_from_states × (r.state_version ≡ input.expected_state_version)

pub cas_matches_iff :
    (input : CasTransitionInput) (r : Row) → (cas_matches input r ≡ true) ↔ Matches input r
cas_matches_iff input r = (
  λ h. (mem_of_includes r.status input.allowed_from_states (ground arith), ground arith),
  λ (m, e). ground (arith, includes_of_mem m),
)

module _ (db : WorkflowTable) where
  open db use {Table, row, row-update, update_returning, select_by_id, select_lem}

  -- The two tables hold the same rows.
  abbrev pub SameRows : Table → Table → Type 0
  SameRows t u = (j : String) → row u j ≡ row t j

  -- `u` is `t` with the row at the key replaced.
  abbrev pub Replaced : String → Row → Table → Table → Type 0
  Replaced key r t u = (j : String) → row u j ≡ (if str_eq key j then some r else row t j)

  module _ (input : CasTransitionInput) (now : ℕ) (t : Table) where
    pub cas_update-hit :
        (r : Row)
        → row t input.resource_id ≡ some r
        → cas_matches input r ≡ true
        → Replaced input.resource_id (cas_set input now r) t (cas_update db input now t).0
          × ((cas_update db input now t).1 ≡ cas_set input now r ∷ [])
    unfolding cas_update
    cas_update-hit r e h = (
      λ j.
          let at_j = row-update input.resource_id (cas_matches input) (cas_set input now) t j in
          elim (Bool-cases (str_eq input.resource_id j)) [
            | inl same ↦
                let e' : row t j ≡ some r = ap (row t) (sym ((eq_iff _ j).0 same)) ∙ e in
                ground arith
            | inr other ↦ ground arith
          ],
      update_returning input.resource_id (cas_matches input) (cas_set input now) t ∙ ground arith,
    )

    pub cas_update-miss :
        ((r : Row) → row t input.resource_id ≡ some r → cas_matches input r ≡ false)
        → SameRows t (cas_update db input now t).0 × ((cas_update db input now t).1 ≡ [])
    unfolding cas_update
    cas_update-miss h = (
      λ j.
          row-update input.resource_id (cas_matches input) (cas_set input now) t j
          ∙ elim (Bool-cases (str_eq input.resource_id j)) [
            | inl same ↦
                let there : row t input.resource_id ≡ row t j = ap (row t) ((eq_iff _ j).0 same) in
                elim (Option-cases (row t j)) [
                  | inl gone ↦ ground arith
                  | inr (r, e) ↦ let no = h r (there ∙ e) in ground arith
                ]
            | inr other ↦ ground arith
          ],
      update_returning input.resource_id (cas_matches input) (cas_set input now) t
          ∙ elim (Option-cases (row t input.resource_id)) [
            | inl gone ↦ ground arith
            | inr (r, e) ↦ let no = h r e in ground arith
          ],
    )

-- What the diagnostic read reports of the row that it finds.
abbrev pub Diagnosed : CasTransitionInput → Option Row → CasTransitionOutcome → Type 0
Diagnosed input none o = o ≡ not_found
Diagnosed input (some r) o =
    (bad_state : Bool) × ((bad_state ≡ true) ↔ (¬ Memᴰ r.status input.allowed_from_states))
    × (((r.state_version ≢ input.expected_state_version)
          × (o ≡ stale_conflict bad_state r.state_version))
        ⊎ ((r.state_version ≡ input.expected_state_version)
            × (o ≡ conflict bad_state (some r.state_version))))

not-includes_iff : (s : String) (xs : List String) → (not (includes s xs) ≡ true) ↔ (¬ Memᴰ s xs)
not-includes_iff s xs =
    (λ h m. let yes_ = includes_of_mem m in ground arith, λ n. rw (not_includes_of_not_mem s xs n))

diagnose_lem :
    (input : CasTransitionInput) (o : Option Row) → Diagnosed input o (diagnose input (listed o))
unfolding diagnose
diagnose_lem input none = refl
diagnose_lem input (some r) = (
  not (includes r.status input.allowed_from_states),
  not-includes_iff r.status input.allowed_from_states,
  ground arith,
)

module _ (db : WorkflowTable) where
  open db use {Table, row, select_by_id, select_lem}

  module _ (input : CasTransitionInput) (now : ℕ) (meanwhile : Table → Table) (t : Table) where
    -- The row matched: the outcome and the new table.
    abbrev pub Succeeds : Row → Table → CasTransitionOutcome → Type 0
    Succeeds r u o =
        (row t input.resource_id ≡ some r)
        × Matches input r
        × (o ≡ updated (suc r.state_version) input.to_state)
        × Replaced db input.resource_id (cas_set input now r) t u

    -- No row matched: the UPDATE left every row alone, and the outcome tells of a later read.
    abbrev pub Fails : Table → CasTransitionOutcome → Type 0
    Fails u o =
        ((r : Row) → row t input.resource_id ≡ some r → ¬ Matches input r)
        × ((t' : Table) × SameRows db t t' × (u ≡ meanwhile t'))
        × Diagnosed input (row u input.resource_id) o

    -- The two ways the call runs.
    execute_wrote :
        (r : Row) (rest : List Row)
        → (cas_update db input now t).1 ≡ r ∷ rest
        → execute_cas_transition db input now meanwhile t
          ≡ ((cas_update db input now t).0, updated r.state_version r.status)
    unfolding execute_cas_transition
    execute_wrote r rest e = ground arith

    execute_read :
        (cas_update db input now t).1 ≡ []
        → let later = meanwhile (cas_update db input now t).0 in
          execute_cas_transition db input now meanwhile t
          ≡ (later, diagnose input (listed (row later input.resource_id)))
    unfolding execute_cas_transition
    execute_read e =
        let read = select_lem input.resource_id (meanwhile (cas_update db input now t).0) in
        ground arith

    -- A compare-and-set transition either finds its row in an allowed state at the expected
    -- version, reports the successor version and the target state, and writes that row and no
    -- other; or it finds no such row, changes no row itself, and reports what a later read of the
    -- row shows: no row, another version, or the expected version.
    pub execute_cas_transition_lem :
        let (u, o) = execute_cas_transition db input now meanwhile t in
        ((r : Row) × Succeeds r u o) ⊎ Fails u o
    execute_cas_transition_lem = elim (Option-cases (row t input.resource_id)) [
      | inl gone ↦ inr (missed (λ r e. absurd (ground arith)))
      | inr (r, e) ↦ elim (Bool-cases (cas_matches input r)) [
        | inl hit ↦ inl (r, hit_row r e hit)
        | inr miss ↦
            inr (
              missed
                (λ s e'. let same : s ≡ r = ground arith in ap (cas_matches input) same ∙ miss))
      ]
    ]
      where
        hit_row :
            (r : Row)
            → row t input.resource_id ≡ some r
            → cas_matches input r ≡ true
            → let (u, o) = execute_cas_transition db input now meanwhile t in Succeeds r u o
        hit_row r e h =
            let (wrote, rows) = cas_update-hit db input now t r e h in
            subst (λ x. Succeeds r x.0 x.1) (sym (execute_wrote (cas_set input now r) [] rows))
              (e, (cas_matches_iff input r).0 h, refl, wrote)

        missed :
            ((r : Row) → row t input.resource_id ≡ some r → cas_matches input r ≡ false)
            → let (u, o) = execute_cas_transition db input now meanwhile t in Fails u o
        missed never =
            let (same, rows) = cas_update-miss db input now t never in
            let t' = (cas_update db input now t).0 in
            subst (λ x. Fails x.0 x.1) (sym (execute_read rows))
              (
                λ r e m. let hit = (cas_matches_iff input r).1 m in let miss = never r e in cc,
                (t', same, refl),
                diagnose_lem input (row (meanwhile t') input.resource_id),
              )
