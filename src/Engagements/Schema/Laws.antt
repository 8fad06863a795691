-- ===== src/Engagements/Schema/Laws.antt =====
-- What an UPDATE and a SELECT leave of a table.
use cyber_hub_api.Prelude.{
  ◌∙◌, ap, includes, IsDistinct, subst, String, ◌≡◌, refl, ◌⊎◌, inl, inr, Bool, true, some, List,
  [], ◌∷◌, Memᴰ, arith, Bool-cases, Option-cases, find, find_sound, map, false,
}
use cyber_hub_api.Engagements.Schema.{delete_where, select_where, update_where, returning}

mem-cons : {A : Type 0} {x y : A} {ys : List A} → Memᴰ x (y ∷ ys) → (x ≡ y) ⊎ Memᴰ x ys
mem-cons (Memᴰ.head same) = inl same
mem-cons (Memᴰ.tail m) = inr m

-- The row that an UPDATE returns, and the row that it was.
pub record Written {A : Type 0} (test : A → Bool) (change : A → A) (rows : List A) (r : A)
    : Type 0 where
  pub old : A
  pub old_row : Memᴰ old rows
  pub tested : test old ≡ true
  pub changed : r ≡ change old

module _ {A : Type 0} (test : A → Bool) (change : A → A) where
  pub returning-Written :
      (rows : List A) {r : A} → returning test change rows ≡ some r → Written test change rows r
  returning-Written rows {r} e = elim (Option-cases (find test rows)) [
    | inl missing ↦ absurd (ground arith)
    | inr (old, found) ↦
        let (member, hit) = find_sound test rows found in
        record { old = old; old_row = member; tested = hit; changed = ground arith }
  ]

  -- A row after an UPDATE was there before, or is a changed one.
  pub update_where-cases :
      (rows : List A) {r : A}
      → Memᴰ r (update_where test change rows)
      → Memᴰ r rows ⊎ Written test change rows r
  update_where-cases [] m = elim m [ ]
  update_where-cases (x ∷ rows) (Memᴰ.head same) = elim (Bool-cases (test x)) [
    | inl hit ↦
        inr record { old = x; old_row = Memᴰ.head refl; tested = hit; changed = ground arith }
    | inr miss ↦ inl (Memᴰ.head (ground arith))
  ]
  update_where-cases (x ∷ rows) (Memᴰ.tail m) = elim (update_where-cases rows m) [
    | inl before ↦ inl (Memᴰ.tail before)
    | inr w ↦ inr record {
      old = w.old;
      old_row = Memᴰ.tail w.old_row;
      tested = w.tested;
      changed = w.changed;
    }
  ]

  -- A row that an UPDATE does not meet stays, and the row that it returns is there.
  pub kept_where :
      (rows : List A) {r : A}
      → Memᴰ r rows
      → test r ≡ false
      → Memᴰ r (update_where test change rows)
  kept_where [] m miss = elim m [ ]
  kept_where (x ∷ rows) (Memᴰ.head same) miss =
      let here : test x ≡ false = subst (λ x. test x ≡ false) same miss in rw here (Memᴰ.head same)
  kept_where (x ∷ rows) (Memᴰ.tail m) miss = Memᴰ.tail (kept_where rows m miss)

  pub written_where :
      (rows : List A) {r : A}
      → returning test change rows ≡ some r
      → Memᴰ r (update_where test change rows)
  written_where [] e = cc
  written_where (x ∷ rows) {r} e = elim (Bool-cases (test x)) [
    | inl hit ↦ let it : r ≡ change x = ground arith in rw hit (Memᴰ.head it)
    | inr miss ↦ Memᴰ.tail (written_where rows (ground arith))
  ]

  -- A change that keeps a projection of each row keeps the projection of the table.
  pub map-update_where :
      {B : Type 0} (f : A → B)
      → ((r : A) → f (change r) ≡ f r)
      → (rows : List A) → map f (update_where test change rows) ≡ map f rows
  map-update_where f kept [] = refl
  map-update_where f kept (x ∷ rows) = elim (Bool-cases (test x)) [
    | inl hit ↦ let rest = map-update_where f kept rows in let same = kept x in ground arith
    | inr miss ↦ let rest = map-update_where f kept rows in ground arith
  ]

module _ {A : Type 0} (test : A → Bool) where
  pub select_where_mem :
      (rows : List A) {r : A} → Memᴰ r (select_where test rows) → Memᴰ r rows × (test r ≡ true)
  select_where_mem [] m = elim m [ ]
  select_where_mem (x ∷ rows) {r} m = elim (Bool-cases (test x)) [
    | inl hit ↦ elim (mem-cons (subst (Memᴰ r) (chosen x rows hit) m)) [
      | inl same ↦ (Memᴰ.head same, ap test same ∙ hit)
      | inr there ↦ let rest = select_where_mem rows there in (Memᴰ.tail rest.0, rest.1)
    ]
    | inr miss ↦
        let rest = select_where_mem rows (subst (Memᴰ r) (passed x rows miss) m) in
        (Memᴰ.tail rest.0, rest.1)
  ]
    where
      chosen :
          (x : A) (rows : List A)
          → test x ≡ true
          → select_where test (x ∷ rows) ≡ x ∷ select_where test rows
      chosen x rows hit = ground arith

      passed :
          (x : A) (rows : List A)
          → test x ≡ false
          → select_where test (x ∷ rows) ≡ select_where test rows
      passed x rows miss = ground arith

  pub mem-select_where :
      (rows : List A) {r : A} → Memᴰ r rows → test r ≡ true → Memᴰ r (select_where test rows)
  mem-select_where [] m hit = elim m [ ]
  mem-select_where (x ∷ rows) (Memᴰ.head same) hit =
      let here : test x ≡ true = subst (λ x. test x ≡ true) same hit in rw here (Memᴰ.head same)
  mem-select_where (x ∷ rows) (Memᴰ.tail m) hit = elim (Bool-cases (test x)) [
    | inl here ↦ rw here (Memᴰ.tail (mem-select_where rows m hit))
    | inr miss ↦ rw miss (mem-select_where rows m hit)
  ]

  pub delete_where_mem : (rows : List A) {r : A} → Memᴰ r (delete_where test rows) → Memᴰ r rows
  delete_where_mem [] m = m
  delete_where_mem (x ∷ rows) {r} m = elim (Bool-cases (test x)) [
    | inl hit ↦
        let same : delete_where test (x ∷ rows) ≡ delete_where test rows = ground arith in
        Memᴰ.tail (delete_where_mem rows (subst (Memᴰ r) same m))
    | inr miss ↦
        let same : delete_where test (x ∷ rows) ≡ x ∷ delete_where test rows = ground arith in
        elim (mem-cons (subst (Memᴰ r) same m)) [
          | inl here ↦ Memᴰ.head here
          | inr there ↦ Memᴰ.tail (delete_where_mem rows there)
        ]
  ]

module _ {A : Type 0} (f : A → String) (test : A → Bool) where
  includes-select :
      (x : String) (rows : List A)
      → includes x (map f rows) ≡ false
      → includes x (map f (select_where test rows)) ≡ false
  includes-select x [] h = refl
  includes-select x (r ∷ rows) h = elim (Bool-cases (test r)) [
    | inl hit ↦ ground (arith, includes-select x rows (ground arith))
    | inr miss ↦ ground (arith, includes-select x rows (ground arith))
  ]

  pub IsDistinct-select :
      (rows : List A) → IsDistinct (map f rows) → IsDistinct (map f (select_where test rows))
  IsDistinct-select [] d = tt
  IsDistinct-select (r ∷ rows) d = elim (Bool-cases (test r)) [
    | inl hit ↦ rw hit (includes-select (f r) rows d.0, IsDistinct-select rows d.1)
    | inr miss ↦ rw miss (IsDistinct-select rows d.1)
  ]
