-- ===== src/Engagements/Scopes/Laws.antt =====
-- One current scope authorization per request, with the highest version.
use cyber_hub_api.Engagements.Action.Keeps.{Keeps, kept}
use cyber_hub_api.Engagements.Access.{current_scope}
use cyber_hub_api.Engagements.Consistency.Laws.{eq_of_single}
use cyber_hub_api.Engagements.Action.Rules.{
  on_pure, after_modify, after_raise_if, after_or_raise, of_returned, after_gets, Ensures,
}
use cyber_hub_api.Engagements.Schema.Laws.{mem-select_where, update_where-cases}
use cyber_hub_api.Engagements.Action.{returned, Call}
use cyber_hub_api.Engagements.Schema.{select_where, update_where, Database, ScopeAuthorization}
use cyber_hub_api.Engagements.Scopes.{
  latest_version, scope_of, supersede_scope, new_scope, current_of, ScopeAuthorizationInput,
  create_scope,
}
use mathlib.Core.List.Memᴰ as MemD
use cyber_hub_api.Prelude.{
  eq_iff, ◌+◌, ◌<◌, ap, sym, subst, mem_append_cases, Bool-cases, if◌then◌else◌, ◌≤◌, ◌++◌, find,
  Memᴰ, ℕ, Bool, List, String, refl, [], ◌∷◌, some, true, false, inl, inr, arith, ◌≡◌,
}

abbrev pub BothCurrent : ScopeAuthorization → ScopeAuthorization → Type 0
BothCurrent s o =
    (s.is_current ≡ true)
    × (o.is_current ≡ true)
    × (s.consulting_request_id ≡ o.consulting_request_id)

-- No request has two current authorizations.
abbrev pub AreSingle : List ScopeAuthorization → Type 0
AreSingle [] = Unit
AreSingle (s ∷ rows) = ((o : ScopeAuthorization) → Memᴰ o rows → ¬ BothCurrent s o) × AreSingle rows

latest_version-bound :
    (rows : List ScopeAuthorization) {s : ScopeAuthorization}
    → Memᴰ s rows
    → s.version_no ≤ latest_version rows
latest_version-bound [] m = elim m [ ]
latest_version-bound (x ∷ rows) (Memᴰ.head same) =
    let here = ap (λ (s : ScopeAuthorization). s.version_no) same in ground arith
latest_version-bound (x ∷ rows) (Memᴰ.tail m) = ground (arith, latest_version-bound rows m)

module _ (request_id : String) (now : ℕ) where
  abbrev cleared : List ScopeAuthorization → List ScopeAuthorization
  cleared = update_where (current_of request_id) (supersede_scope now)

  -- After the UPDATE the request has no current authorization.
  cleared_not_current :
      (rows : List ScopeAuthorization) {s : ScopeAuthorization}
      → Memᴰ s (cleared rows)
      → current_of request_id s ≡ false
  cleared_not_current [] m = elim m [ ]
  cleared_not_current (x ∷ rows) {s} (Memᴰ.head same) =
      elim (Bool-cases (current_of request_id x)) [
        | inl hit ↦
            let it : s ≡ supersede_scope now x = ground arith in
            subst (λ s. current_of request_id s ≡ false) (sym it) (ground arith)
        | inr miss ↦
            let it : s ≡ x = ground arith in
            subst (λ s. current_of request_id s ≡ false) (sym it) miss
      ]
  cleared_not_current (x ∷ rows) (Memᴰ.tail m) = cleared_not_current rows m

  -- A row that is current after the UPDATE was there before.
  cleared_mem :
      (rows : List ScopeAuthorization) {s : ScopeAuthorization}
      → Memᴰ s (cleared rows)
      → s.is_current ≡ true
      → Memᴰ s rows
  cleared_mem rows {s} m current = elim (update_where-cases _ (supersede_scope now) rows m) [
    | inl before ↦ before
    | inr w ↦
        let not_current = ap (λ (s : ScopeAuthorization). s.is_current) w.changed in
        absurd (ground arith)
  ]

  cleared_head :
      (x : ScopeAuthorization) (rows : List ScopeAuthorization) (o : ScopeAuthorization)
      → ((o : ScopeAuthorization) → Memᴰ o rows → ¬ BothCurrent x o)
      → Memᴰ o (cleared rows)
      → ¬ BothCurrent (if current_of request_id x then supersede_scope now x else x) o
  cleared_head x rows o apart m both = elim (Bool-cases (current_of request_id x)) [
    | inl hit ↦
        let first : (supersede_scope now x).is_current ≡ true =
          subst (λ b. (if b then supersede_scope now x else x).is_current ≡ true) hit both.0 in
        absurd (ground arith)
    | inr miss ↦
        let same = subst (λ b. BothCurrent (if b then supersede_scope now x else x) o) miss both in
        apart o (cleared_mem rows m same.1) same
  ]

  cleared_single : (rows : List ScopeAuthorization) → AreSingle rows → AreSingle (cleared rows)
  cleared_single [] h = tt
  cleared_single (x ∷ rows) h = (λ o m. cleared_head x rows o h.0 m, cleared_single rows h.1)

AreSingle-append :
    (rows : List ScopeAuthorization) (s : ScopeAuthorization)
    → AreSingle rows
    → ((o : ScopeAuthorization) → Memᴰ o rows → ¬ BothCurrent o s)
    → AreSingle (rows ++ s ∷ [])
AreSingle-append [] s h apart = (λ o m. elim m [ ], tt)
AreSingle-append (x ∷ rows) s h apart = (
  λ o m. elim (mem_append_cases rows (s ∷ []) m) [
    | inl old ↦ h.0 o old
    | inr new ↦ subst (λ o. ¬ BothCurrent x o) (sym (eq_of_single new)) (apart x (Memᴰ.head refl))
  ],
  AreSingle-append rows s h.1 (λ o m. apart o (Memᴰ.tail m)),
)

find-append :
    {A : Type 0} (p : A → Bool) (xs : List A) (x : A)
    → ((y : A) → Memᴰ y xs → p y ≡ false)
    → p x ≡ true
    → find p (xs ++ x ∷ []) ≡ some x
find-append p [] x none_before hit = ground arith
find-append p (y ∷ xs) x none_before hit =
    let miss = none_before y (Memᴰ.head refl) in
    ground (arith, find-append p xs x (λ z m. none_before z (Memᴰ.tail m)) hit)

-- What a new authorization leaves.
pub record IsNextScope (request_id employer_id user_id : String) (call : Call) (db : Database)
    (created : ScopeAuthorization) (after : Database) : Type 0 where
  pub for_request :
      (created.consulting_request_id ≡ request_id) × (created.employer_id ≡ employer_id)
  pub later :
      (s : ScopeAuthorization)
      → Memᴰ s db.scopes
      → scope_of request_id s ≡ true
      → s.version_no < created.version_no
  pub now_current : current_scope after request_id ≡ some created
  pub others_kept :
      (s : ScopeAuthorization)
      → Memᴰ s db.scopes
      → current_of request_id s ≡ false
      → Memᴰ s after.scopes
  pub only_scopes : after ≡ record db { scopes = after.scopes }

unchanged_mem :
    (request_id : String) (now : ℕ) (rows : List ScopeAuthorization) {s : ScopeAuthorization}
    → Memᴰ s rows
    → current_of request_id s ≡ false
    → Memᴰ s (cleared request_id now rows)
unchanged_mem request_id now [] m miss = elim m [ ]
unchanged_mem request_id now (x ∷ rows) {s} (Memᴰ.head same) miss =
    let here : current_of request_id x ≡ false =
      subst (λ x. current_of request_id x ≡ false) same miss in
    rw here (Memᴰ.head same)
unchanged_mem request_id now (x ∷ rows) (Memᴰ.tail m) miss =
    Memᴰ.tail (unchanged_mem request_id now rows m miss)

next_scope :
    (request_id employer_id user_id : String) (input : ScopeAuthorizationInput) (call : Call)
    (db : Database)
    → let created =
        new_scope call request_id employer_id user_id
          (latest_version (select_where (scope_of request_id) db.scopes) + 1)
          input in
      IsNextScope request_id employer_id user_id call db created
        (record db { scopes = cleared request_id call.now db.scopes ++ created ∷ [] })
next_scope request_id employer_id user_id input call db = record {
  for_request = (refl, refl);
  later = λ s m own.
      let bound = latest_version-bound _ (mem-select_where (scope_of request_id) db.scopes m own) in
      omega arith;
  now_current =
      find-append (current_of request_id) (cleared request_id call.now db.scopes) _
        (λ s m. cleared_not_current request_id call.now db.scopes m)
        (let own = (eq_iff request_id request_id).1 refl in ground arith);
  others_kept = λ s m miss. MemD.append_left _ (unchanged_mem request_id call.now db.scopes m miss);
  only_scopes = refl;
}

next_scope_single :
    (request_id employer_id user_id : String) (version_no : ℕ) (input : ScopeAuthorizationInput)
    (call : Call) (rows : List ScopeAuthorization)
    → AreSingle rows
    → AreSingle (
        cleared request_id call.now rows
        ++ new_scope call request_id employer_id user_id version_no input ∷ [])
next_scope_single request_id employer_id user_id version_no input call rows h =
    AreSingle-append _ _ (cleared_single request_id call.now rows h) λ o m both.
      let miss = cleared_not_current request_id call.now rows m in
      let own = (eq_iff o.consulting_request_id request_id).1 both.2 in absurd (ground arith)

create_scope-Ensures :
    (request_id employer_id user_id : String) (input : ScopeAuthorizationInput) (call : Call)
    (db : Database)
    → Ensures
        (IsNextScope request_id employer_id user_id call db)
        (create_scope request_id employer_id user_id input call)
        db
unfolding create_scope
create_scope-Ensures request_id employer_id user_id input call db = after_gets _ _ (
    after_or_raise _ _ _ λ request _. after_raise_if _ _ _ λ _. after_gets _ _ (
      after_or_raise _ _ _ λ confirmer _. after_raise_if _ _ _ λ _. after_gets _ _ (
        after_modify _ _ (
          after_modify _ _ (on_pure _ (next_scope request_id employer_id user_id input call db))))))

-- A scope authorization that was created is the one that the request's current scope is read as
-- then, with a version above all earlier ones of the request. The rows that were not
-- current for the request stay as they were, and nothing but the scopes changed.
pub create_scope-IsNextScope :
    (request_id employer_id user_id : String) (input : ScopeAuthorizationInput) (call : Call)
    (db : Database) {created : ScopeAuthorization} {after : Database}
    → create_scope request_id employer_id user_id input call db ≡ returned (created, after)
    → IsNextScope request_id employer_id user_id call db created after
create_scope-IsNextScope request_id employer_id user_id input call db h =
    of_returned (create_scope-Ensures request_id employer_id user_id input call db) h

create_scope-Keeps :
    (request_id employer_id user_id : String) (input : ScopeAuthorizationInput) (call : Call)
    → Keeps (λ db. AreSingle db.scopes) (create_scope request_id employer_id user_id input call)
unfolding create_scope
create_scope-Keeps request_id employer_id user_id input call = record {
  keeps = λ db h. after_gets _ _ (
      after_or_raise _ _ _ λ request _. after_raise_if _ _ _ λ _. after_gets _ _ (
        after_or_raise _ _ _ λ confirmer _. after_raise_if _ _ _ λ _. after_gets _ _ (
          after_modify _ _ (
            after_modify _ _ (
              on_pure _
                (next_scope_single request_id employer_id user_id _ input call db.scopes h))))));
}

-- Where no request has two current authorizations, none has two after one was created.
pub create_scope-AreSingle :
    (request_id employer_id user_id : String) (input : ScopeAuthorizationInput) (call : Call)
    (db : Database) {created : ScopeAuthorization} {after : Database}
    → AreSingle db.scopes
    → create_scope request_id employer_id user_id input call db ≡ returned (created, after)
    → AreSingle after.scopes
create_scope-AreSingle request_id employer_id user_id input call db h e =
    kept (create_scope-Keeps request_id employer_id user_id input call) e h
