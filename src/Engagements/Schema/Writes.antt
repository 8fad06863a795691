-- ===== src/Engagements/Schema/Writes.antt =====
-- The guarded write of one row by its key, its version and its state.
use cyber_hub_api.Engagements.Schema.Laws.{kept_where, written_where, returning-Written}
use cyber_hub_api.Engagements.Schema.{update_where, returning}
use cyber_hub_api.Prelude.{
  Bool-cases, ◌∙◌, ap, mem_of_includes, eq_iff, includes, suc, str_eq, Bool, Memᴰ, List, ℕ, String,
  some, true, false, inl, inr, arith, ◌≡◌,
}

-- Where the key, the version and the state of a row stand.
pub record Columns (A : Type 0) : Type 0 where
  pub key : A → String
  pub version : A → ℕ
  pub status : A → String

-- A row with the key, at the version and in one of the states, was changed into `updated`, with
-- the next version; the rows with another key stayed.
pub record IsWrite {A : Type 0} (columns : Columns A) (id : String) (version : ℕ)
    (from : List String) (change : A → A) (before after : List A) (updated : A) : Type 0 where
  pub old : A
  pub old_row : Memᴰ old before
  pub old_key : columns.key old ≡ id
  pub old_version : columns.version old ≡ version
  pub old_state : Memᴰ (columns.status old) from
  pub changed : updated ≡ change old
  pub updated_row : Memᴰ updated after
  pub same_key : columns.key updated ≡ id
  pub next_version : columns.version updated ≡ suc version
  pub others_kept : (r : A) → Memᴰ r before → str_eq (columns.key r) id ≡ false → Memᴰ r after

-- What a WHERE clause and a SET clause have to be for that.
pub record IsGuarded {A : Type 0} (columns : Columns A) (id : String) (version : ℕ)
    (from : List String) (test : A → Bool) (change : A → A) : Type 0 where
  pub tests_key : (r : A) → test r ≡ true → str_eq (columns.key r) id ≡ true
  pub tests_version : (r : A) → test r ≡ true → columns.version r ≡ version
  pub tests_state : (r : A) → test r ≡ true → includes (columns.status r) from ≡ true
  pub keeps_key : (r : A) → columns.key (change r) ≡ columns.key r
  pub counts_version : (r : A) → columns.version (change r) ≡ suc (columns.version r)

pub returning-IsWrite :
    {A : Type 0} (columns : Columns A) (id : String) (version : ℕ) (from : List String)
    (test : A → Bool) (change : A → A)
    → IsGuarded columns id version from test change
    → (rows : List A) {updated : A} → returning test change rows ≡ some updated
    → IsWrite columns id version from change rows (update_where test change rows) updated
returning-IsWrite columns id version from test change g rows e =
    let w = returning-Written test change rows e in
    let own : columns.key w.old ≡ id =
      (eq_iff (columns.key w.old) id).0 (g.tests_key w.old w.tested) in
    record {
      old = w.old;
      old_row = w.old_row;
      old_key = own;
      old_version = g.tests_version w.old w.tested;
      old_state = mem_of_includes (columns.status w.old) from (g.tests_state w.old w.tested);
      changed = w.changed;
      updated_row = written_where test change rows e;
      same_key = ap columns.key w.changed ∙ g.keeps_key w.old ∙ own;
      next_version =
          ap columns.version w.changed
          ∙ g.counts_version w.old
          ∙ ap suc (g.tests_version w.old w.tested);
      others_kept = λ r m other. kept_where test change rows m (elim (Bool-cases (test r)) [
        | inr miss ↦ miss
        | inl hit ↦ let same = g.tests_key r hit in absurd (ground arith)
      ]);
    }
