-- ===== src/Workflow/Table.antt =====
-- The database table under a workflow entity, as an interface: PostgreSQL and the query builder
-- are not part of the repository. What the code relies on is that a single UPDATE reads and
-- writes a row at once, that its WHERE clause on the primary key meets one row at most, and that
-- RETURNING lists the row it wrote.
use cyber_hub_api.Prelude.{
  ◌≡◌, refl, ℕ, String, Bool, Option, none, some, List, [], ◌∷◌, str_eq, if◌then◌else◌,
}

-- The columns that the compare-and-set reads and writes; the primary key stands outside.
pub record Row : Type 0 where
  pub status : String
  pub state_version : ℕ
  pub updated_at : ℕ

abbrev pub update_row : (Row → Bool) → (Row → Row) → Option Row → Option Row
update_row test change none = none
update_row test change (some r) = if test r then some (change r) else some r

abbrev pub written : (Row → Bool) → (Row → Row) → Option Row → List Row
written test change none = []
written test change (some r) = if test r then change r ∷ [] else []

abbrev pub listed : Option Row → List Row
listed none = []
listed (some r) = r ∷ []

pub record WorkflowTable : Type 1 where
  pub Table : Type 0
  -- The row with that primary key.
  pub row : Table → String → Option Row
  -- UPDATE … SET change WHERE id = key AND test RETURNING …
  pub update_by_id : String → (Row → Bool) → (Row → Row) → Table → Table × List Row
  -- SELECT … WHERE id = key LIMIT 1
  pub select_by_id : String → Table → List Row
  pub row-update :
      (key : String) (test : Row → Bool) (change : Row → Row) (t : Table) (j : String)
      → row (update_by_id key test change t).0 j
        ≡ (if str_eq key j then update_row test change (row t j) else row t j)
  pub update_returning :
      (key : String) (test : Row → Bool) (change : Row → Row) (t : Table)
      → (update_by_id key test change t).1 ≡ written test change (row t key)
  pub select_lem : (key : String) (t : Table) → select_by_id key t ≡ listed (row t key)

-- A table kept as a function of the key.
abbrev pub memory_table : WorkflowTable
memory_table = record {
  Table = String → Option Row;
  row = λ t. t;
  update_by_id = λ key test change t. (
    λ j. if str_eq key j then update_row test change (t j) else t j,
    written test change (t key),
  );
  select_by_id = λ key t. listed (t key);
  row-update = λ key test change t j. refl;
  update_returning = λ key test change t. refl;
  select_lem = λ key t. refl;
}
