-- ===== src/Prelude/Distinct.antt =====
-- Lists of distinct texts, and the pigeonhole principle.
use Prim.Native.Nat.{suc, ◌≤◌}
use mathlib.Core.Path.{◌≡◌, refl, sym, subst}
use mathlib.Core.Logic.{inl, inr}
use mathlib.Core.Bool.{true, false}
use mathlib.Core.List.{List, [], ◌∷◌, ◌++◌, Memᴰ}
use native.Mathlib.Omega.{arith}
use Prim.Native.String.{String}
use text.Mathlib.TextEquality.{eq_iff}
use text.Mathlib.Text.{◌==◌ as str_eq}
use cyber_hub_api.Prelude.Tests.{if◌then◌else◌, Bool-cases}
use cyber_hub_api.Prelude.Lists.{length, nil_of_length}
use cyber_hub_api.Prelude.Texts.{includes, includes_of_mem}

abbrev pub IsDistinct : List String → Type 0
IsDistinct [] = Unit
IsDistinct (x ∷ xs) = (includes x xs ≡ false) × IsDistinct xs

-- All but the first occurrence.
abbrev without : String → List String → List String
without x [] = []
without x (y ∷ ys) = let rest = without x ys in if str_eq x y then ys else y ∷ rest

length-without :
    (x : String) (ys : List String) → Memᴰ x ys → suc (length (without x ys)) ≡ length ys
length-without x [] m = elim m [ ]
length-without x (y ∷ ys) (Memᴰ.head same) = let hit = (eq_iff x y).1 same in ground arith
length-without x (y ∷ ys) (Memᴰ.tail m) = elim (Bool-cases (str_eq x y)) [
  | inl hit ↦ ground arith
  | inr miss ↦ ground (arith, length-without x ys m)
]

mem-without :
    (x z : String) (ys : List String) → str_eq x z ≡ false → Memᴰ z ys → Memᴰ z (without x ys)
mem-without x z [] other m = elim m [ ]
mem-without x z (y ∷ ys) other (Memᴰ.head same) =
    let miss : str_eq x y ≡ false = subst (λ y. str_eq x y ≡ false) same other in
    rw miss (Memᴰ.head same)
mem-without x z (y ∷ ys) other (Memᴰ.tail m) = elim (Bool-cases (str_eq x y)) [
  | inl hit ↦ rw hit m
  | inr miss ↦ rw miss (Memᴰ.tail (mem-without x z ys other m))
]

pub other_sym : (x y : String) → str_eq x y ≡ false → str_eq y x ≡ false
other_sym x y h = elim (Bool-cases (str_eq y x)) [
  | inl hit ↦
      let same : str_eq x y ≡ true = (eq_iff x y).1 (sym ((eq_iff y x).0 hit)) in
      absurd (ground arith)
  | inr other ↦ other
]

apart_of_mem :
    (x w : String) (xs : List String) → includes x xs ≡ false → Memᴰ w xs → str_eq x w ≡ false
apart_of_mem x w xs fresh m = elim (Bool-cases (str_eq x w)) [
  | inl hit ↦
      let there : includes x xs ≡ true =
        includes_of_mem (subst (λ w. Memᴰ w xs) (sym ((eq_iff x w).0 hit)) m) in
      absurd (ground arith)
  | inr other ↦ other
]

-- A list of distinct texts that all stand in a list no longer than it holds them all.
pub covers_of_length :
    (xs ys : List String)
    → IsDistinct xs
    → ((z : String) → Memᴰ z xs → Memᴰ z ys)
    → length ys ≤ length xs
    → (z : String) → Memᴰ z ys
    → Memᴰ z xs
covers_of_length [] ys d inside short z m = subst (Memᴰ z) (nil_of_length ys short) m
covers_of_length (x ∷ xs) ys d inside short z m = elim (Bool-cases (str_eq x z)) [
  | inl hit ↦ Memᴰ.head (sym ((eq_iff x z).0 hit))
  | inr other ↦
      let here = inside x (Memᴰ.head refl) in
      let shorter : length (without x ys) ≤ length xs = ground (arith, length-without x ys here) in
      Memᴰ.tail (
        covers_of_length xs (without x ys) d.1
          (λ w n. mem-without x w ys (apart_of_mem x w xs d.0 n) (inside w (Memᴰ.tail n))) shorter z
          (mem-without x z ys other m))
]

includes-append_self :
    (y x : String) (xs : List String)
    → includes y xs ≡ false
    → str_eq x y ≡ false
    → includes y (xs ++ x ∷ []) ≡ false
includes-append_self y x [] fresh other = ground arith
includes-append_self y x (z ∷ xs) fresh other =
    ground (arith, includes-append_self y x xs (ground arith) other)

pub IsDistinct-append :
    (xs : List String) (x : String)
    → IsDistinct xs
    → includes x xs ≡ false
    → IsDistinct (xs ++ x ∷ [])
IsDistinct-append [] x d fresh = (refl, tt)
IsDistinct-append (y ∷ xs) x d fresh = (
  includes-append_self y x xs d.0 (other_sym y x (ground arith)),
  IsDistinct-append xs x d.1 (ground arith),
)
