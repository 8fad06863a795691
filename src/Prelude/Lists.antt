-- ===== src/Prelude/Lists.antt =====
-- Lists measured and searched.
use Prim.Native.Nat.{ℕ, suc, ◌≤◌}
use mathlib.Core.Path.{◌≡◌, refl, sym, ap, subst}
use mathlib.Core.Bool.{Bool, true, false, ◌&&◌, ◌||◌}
use mathlib.Core.Logic.{◌⊎◌, inl, inr}
use mathlib.Core.Option.{Option, none, some}
use mathlib.Core.List.{List, [], ◌∷◌, ◌++◌, map, Memᴰ}
use mathlib.Core.List.Memᴰ as MemD
use native.Mathlib.Omega.{arith}
use Prim.Native.String.{String}
use text.Mathlib.Text.{◌==◌ as str_eq}
use cyber_hub_api.Prelude.Tests.{if◌then◌else◌, Bool-cases, Option-cases}

module _ {ℓ} {A : Type ℓ} where
  abbrev pub length : List A → ℕ
  length [] = 0
  length (x ∷ xs) = suc (length xs)

  -- `xs.length === 0`
  abbrev pub is_empty : List A → Bool
  is_empty [] = true
  is_empty (x ∷ xs) = false

  pub eq-nil_of_is_empty : (xs : List A) → is_empty xs ≡ true → xs ≡ []
  eq-nil_of_is_empty [] h = refl
  eq-nil_of_is_empty (x ∷ xs) h = cc

  pub not_empty_of_mem : (xs : List A) {x : A} → Memᴰ x xs → is_empty xs ≡ false
  not_empty_of_mem [] m = elim m [ ]
  not_empty_of_mem (x ∷ xs) m = refl

  pub List-cases : (xs : List A) → (xs ≡ []) ⊎ ((y : A) × (ys : List A) × (xs ≡ y ∷ ys))
  List-cases [] = inl refl
  List-cases (y ∷ ys) = inr (y, ys, refl)

  pub nil_of_length : (xs : List A) → length xs ≤ 0 → xs ≡ []
  nil_of_length [] h = refl
  nil_of_length (x ∷ xs) h = absurd (omega arith)

  -- `xs.find(p)`
  abbrev pub find : (A → Bool) → List A → Option A
  find p [] = none
  find p (x ∷ xs) = if p x then some x else find p xs

  -- `xs.every(p)`, `xs.some(p)`, `xs.filter(p)`
  abbrev pub every : (A → Bool) → List A → Bool
  every p [] = true
  every p (x ∷ xs) = p x && every p xs

abbrev pub All {ℓ κ} : {A : Type ℓ} → (A → Type κ) → List A → Type κ
All P [] = Unit
All P (x ∷ xs) = P x × All P xs

module _ {ℓ} {A : Type ℓ} where
  pub find_sound :
      (p : A → Bool) (xs : List A) {x : A} → find p xs ≡ some x → Memᴰ x xs × (p x ≡ true)
  find_sound p [] e = cc
  find_sound p (y ∷ ys) {x} e = elim (Bool-cases (p y)) [
    | inl hit ↦ let same : y ≡ x = ground arith in (Memᴰ.head (sym same), rw (← same) hit)
    | inr miss ↦ let rest = find_sound p ys (ground arith) in (Memᴰ.tail rest.0, rest.1)
  ]

  pub find-none : (p : A → Bool) (xs : List A) {x : A} → find p xs ≡ none → Memᴰ x xs → p x ≡ false
  find-none p [] e m = elim m [ ]
  find-none p (y ∷ ys) e (Memᴰ.head same) = rw same (ground arith)
  find-none p (y ∷ ys) e (Memᴰ.tail m) = find-none p ys (ground arith) m

  pub every_mem : (p : A → Bool) (xs : List A) {x : A} → every p xs ≡ true → Memᴰ x xs → p x ≡ true
  every_mem p [] e m = elim m [ ]
  every_mem p (y ∷ ys) e (Memᴰ.head same) = rw same (ground arith)
  every_mem p (y ∷ ys) e (Memᴰ.tail m) = every_mem p ys (ground arith) m

module _ {ℓ κ} {A : Type ℓ} (P : A → Type κ) where
  pub All_mem : (xs : List A) {x : A} → All P xs → Memᴰ x xs → P x
  All_mem [] h m = elim m [ ]
  All_mem (y ∷ ys) h (Memᴰ.head same) = subst P (sym same) h.0
  All_mem (y ∷ ys) h (Memᴰ.tail m) = All_mem ys h.1 m

-- The `Map` that `new Map(entries)` builds: of two entries with one key the later one counts.
abbrev pub last_entry {ℓ κ} :
    {K : Type ℓ} {V : Type κ} → (K → K → Bool) → K → List (K × V) → Option V
last_entry same key [] = none
last_entry same key ((k, v) ∷ entries) = elim (last_entry same key entries) [
  | some w ↦ some w
  | none ↦ if same k key then some v else none
]

module _ {ℓ} {A : Type ℓ} where
  -- `xs.some(p)`
  abbrev pub some_of : (A → Bool) → List A → Bool
  some_of p [] = false
  some_of p (x ∷ xs) = p x || some_of p xs

  pub some_of_mem :
      (p : A → Bool) (xs : List A) → some_of p xs ≡ true → (x : A) × Memᴰ x xs × (p x ≡ true)
  some_of_mem p [] e = cc
  some_of_mem p (x ∷ xs) e = elim (Bool-cases (p x)) [
    | inl hit ↦ (x, Memᴰ.head refl, hit)
    | inr miss ↦ let rest = some_of_mem p xs (ground arith) in (rest.0, Memᴰ.tail rest.1, rest.2)
  ]

  pub mem_some_of :
      (p : A → Bool) (xs : List A) {x : A} → Memᴰ x xs → p x ≡ true → some_of p xs ≡ true
  mem_some_of p [] m h = elim m [ ]
  mem_some_of p (y ∷ ys) (Memᴰ.head same) h =
      let hit = subst (λ z. p z ≡ true) same h in ground arith
  mem_some_of p (y ∷ ys) (Memᴰ.tail m) h = ground (arith, mem_some_of p ys m h)

pub mem_append_cases {ℓ} :
    {A : Type ℓ} (xs ys : List A) {a : A} → Memᴰ a (xs ++ ys) → Memᴰ a xs ⊎ Memᴰ a ys
mem_append_cases [] ys m = inr m
mem_append_cases (x ∷ xs) ys (Memᴰ.head e) = inl (Memᴰ.head e)
mem_append_cases (x ∷ xs) ys (Memᴰ.tail m) = elim (mem_append_cases xs ys m) [
  | inl here ↦ inl (Memᴰ.tail here)
  | inr there ↦ inr there
]

module _ {ℓ κ} {A : Type ℓ} {B : Type κ} where
  -- `xs.flatMap(f)`
  abbrev pub flat_map : (A → List B) → List A → List B
  flat_map f [] = []
  flat_map f (x ∷ xs) = f x ++ flat_map f xs

  pub mem-flat_map :
      (f : A → List B) (xs : List A) {b : B}
      → Memᴰ b (flat_map f xs)
      → (x : A) × Memᴰ x xs × Memᴰ b (f x)
  mem-flat_map f [] m = elim m [ ]
  mem-flat_map f (x ∷ xs) m = elim (mem_append_cases (f x) (flat_map f xs) m) [
    | inl here ↦ (x, Memᴰ.head refl, here)
    | inr there ↦ let rest = mem-flat_map f xs there in (rest.0, Memᴰ.tail rest.1, rest.2)
  ]

  pub flat_map_mem :
      (f : A → List B) (xs : List A) {x : A} {b : B}
      → Memᴰ x xs
      → Memᴰ b (f x)
      → Memᴰ b (flat_map f xs)
  flat_map_mem f [] m n = elim m [ ]
  flat_map_mem f (y ∷ ys) {b} (Memᴰ.head same) n =
      MemD.append_left _ (subst (λ y. Memᴰ b (f y)) same n)
  flat_map_mem f (y ∷ ys) (Memᴰ.tail m) n = MemD.append_right (f y) (flat_map_mem f ys m n)

  pub mem_map : (f : A → B) (xs : List A) {x : A} → Memᴰ x xs → Memᴰ (f x) (map f xs)
  mem_map f [] m = elim m [ ]
  mem_map f (y ∷ ys) (Memᴰ.head same) = Memᴰ.head (ap f same)
  mem_map f (y ∷ ys) (Memᴰ.tail m) = Memᴰ.tail (mem_map f ys m)

  pub map_mem :
      (f : A → B) (xs : List A) {b : B} → Memᴰ b (map f xs) → (x : A) × Memᴰ x xs × (b ≡ f x)
  map_mem f [] m = elim m [ ]
  map_mem f (y ∷ ys) (Memᴰ.head same) = (y, Memᴰ.head refl, same)
  map_mem f (y ∷ ys) (Memᴰ.tail m) = let (x, n, e) = map_mem f ys m in (x, Memᴰ.tail n, e)

pub last_entry-mem {ℓ κ} :
    {K : Type ℓ} {V : Type κ} (same : K → K → Bool) (key : K) (entries : List (K × V)) {v : V}
    → last_entry same key entries ≡ some v
    → (k : K) × Memᴰ (k, v) entries
last_entry-mem same key [] e = cc
last_entry-mem same key ((k, w) ∷ entries) {v} e =
    elim (Option-cases (last_entry same key entries)) [
      | inl none_later ↦ elim (Bool-cases (same k key)) [
        | inl hit ↦ let one : w ≡ v = ground arith in (k, Memᴰ.head (ap (λ v. (k, v)) (sym one)))
        | inr miss ↦ absurd (ground arith)
      ]
      | inr (u, later) ↦
          let rest = last_entry-mem same key entries (ground arith) in (rest.0, Memᴰ.tail rest.1)
    ]

-- The `Map` that a constructor fills, refusing a second entry for a key (`none`: it throws).
module _ {ℓ} {A : Type ℓ} (key : A → String) where
  unfoldable pub index_from : List (String × A) → List A → Option (List (String × A))
  index_from seen [] = some seen
  index_from seen (x ∷ xs) =
      let rest = index_from ((key x, x) ∷ seen) xs in
      elim (last_entry str_eq (key x) seen) [ some _ ↦ none | none ↦ rest ]

  unfoldable pub index_by : List A → Option (List (String × A))
  unfolding index_from
  index_by xs = index_from [] xs
