-- ===== src/Prelude/Texts.antt =====
-- Texts are compared whole. `str_eq` is the source's `===` on strings.
use Prim.Native.String.{String}
use mathlib.Core.Path.{◌≡◌, refl, sym, ap, ◌∙◌}
use mathlib.Core.Logic.{inl, inr}
use mathlib.Core.Bool.{Bool, true, false, not, ◌&&◌, ◌||◌}
use mathlib.Core.List.{List, [], ◌∷◌, Memᴰ}
use native.Mathlib.Omega.{arith}
use cyber_hub_api.Prelude.Tests.{Bool-cases, ltb, if◌then◌else◌}
use cyber_hub_api.Prelude.Lists.{length, nil_of_length}
pub use text.Mathlib.TextEquality.{eq_iff}
pub use text.Mathlib.TextPositions.{eq_refl}
pub use text.Mathlib.Text.{◌==◌ as str_eq}

-- `xs.includes(s)` on an array of strings.
abbrev pub includes : String → List String → Bool
includes s [] = false
includes s (x ∷ xs) = str_eq x s || includes s xs

pub mem_of_includes : (s : String) (xs : List String) → includes s xs ≡ true → Memᴰ s xs
mem_of_includes s [] h = cc
mem_of_includes s (x ∷ xs) h = elim (Bool-cases (str_eq x s)) [
  | inl here ↦ Memᴰ.head (sym ((eq_iff x s).0 here))
  | inr there ↦ Memᴰ.tail (mem_of_includes s xs (ground arith))
]

pub includes_of_mem : {s : String} {xs : List String} → Memᴰ s xs → includes s xs ≡ true
includes_of_mem {s} (Memᴰ.head {x} e) = ground (arith, (eq_iff x s).1 (sym e))
includes_of_mem {s} (Memᴰ.tail {x} {xs} m) = ground (arith, includes_of_mem m)

pub not_mem_of_includes : (s : String) (xs : List String) → includes s xs ≡ false → ¬ Memᴰ s xs
not_mem_of_includes s xs h m = cc (includes_of_mem m)

pub not_includes_of_not_mem : (s : String) (xs : List String) → ¬ Memᴰ s xs → includes s xs ≡ false
not_includes_of_not_mem s xs n = elim (Bool-cases (includes s xs)) [
  | inl there ↦ absurd (n (mem_of_includes s xs there))
  | inr gone ↦ gone
]

-- `[...new Set(xs)]`: each text once, at its first place.
abbrev pub unique_from : List String → List String → List String
unique_from seen [] = []
unique_from seen (x ∷ xs) =
    let rest = unique_from (x ∷ seen) xs in if includes x seen then rest else x ∷ rest

abbrev pub unique : List String → List String
unique = unique_from []

includes-unique_from :
    (s : String) (seen xs : List String)
    → includes s (unique_from seen xs) ≡ (includes s xs && not (includes s seen))
includes-unique_from s seen [] = refl
includes-unique_from s seen (x ∷ xs) = elim (Bool-cases (str_eq x s)) [
  | inl same ↦
      let e : includes x seen ≡ includes s seen = ap (λ z. includes z seen) ((eq_iff x s).0 same) in
      ground (arith, includes-unique_from s seen xs, includes-unique_from s (x ∷ seen) xs)
  | inr other ↦ ground (arith, includes-unique_from s seen xs, includes-unique_from s (x ∷ seen) xs)
]

pub includes-unique : (s : String) (xs : List String) → includes s (unique xs) ≡ includes s xs
includes-unique s xs = ground (arith, includes-unique_from s [] xs)

-- One distinct text: all are the first.
unique_from-nil :
    (x : String) (xs : List String)
    → unique_from (x ∷ []) xs ≡ []
    → (y : String) → Memᴰ y xs
    → y ≡ x
unique_from-nil x xs h y m =
    let at_y = includes-unique_from y (x ∷ []) xs in
    let none_left : includes y (unique_from (x ∷ []) xs) ≡ false = ap (includes y) h in
    let here : str_eq x y ≡ true = ground (arith, includes_of_mem m) in sym ((eq_iff x y).0 here)

pub same_of_unique :
    (x : String) (xs : List String)
    → ltb 1 (length (unique (x ∷ xs))) ≡ false
    → (y : String) → Memᴰ y xs
    → y ≡ x
same_of_unique x xs h =
    unique_from-nil x xs (nil_of_length (unique_from (x ∷ []) xs) (ground arith))

unique_from_seen :
    (x : String) (seen ys : List String)
    → includes x seen ≡ true
    → ((y : String) → Memᴰ y ys → y ≡ x)
    → unique_from seen ys ≡ []
unique_from_seen x seen [] old h = refl
unique_from_seen x seen (y ∷ ys) old h =
    let old_y : includes y seen ≡ true = ap (λ z. includes z seen) (h y (Memᴰ.head refl)) ∙ old in
    let rest = unique_from_seen x (y ∷ seen) ys (ground arith) (λ z m. h z (Memᴰ.tail m)) in
    ground arith

pub unique_of_same :
    (x : String) (xs : List String) → ((y : String) → Memᴰ y xs → y ≡ x) → unique (x ∷ xs) ≡ x ∷ []
unique_of_same x xs all =
    ap (λ ys. x ∷ ys)
      (unique_from_seen x (x ∷ []) xs (includes_of_mem {s = x} {xs = x ∷ []} (Memᴰ.head refl)) all)
