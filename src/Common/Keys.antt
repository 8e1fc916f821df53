-- ===== src/Common/Keys.antt =====
-- Lists of texts without repetition: the keys of a map, the elements of a linked list.
use Prim.Native.Nat.{suc, ◌≤◌}
use mathlib.Core.Path.{◌≡◌, refl}
use mathlib.Core.Bool.{Bool, true, false, ◌||◌}
use mathlib.Core.Logic.{inl, inr}
use mathlib.Core.List.{List, [], ◌∷◌, ◌++◌}
use native.Mathlib.Omega.{arith}
use arxsentinel.Common.Tests.{if◌then◌else◌, Bool-cases}
use arxsentinel.Common.Lists.{length}
use arxsentinel.Common.Texts.{Text, text_eq, text_eq_iff}

unfoldable pub mem : Text → List Text → Bool
mem k [] = false
mem k (x ∷ xs) = text_eq x k || mem k xs

unfoldable pub erase : Text → List Text → List Text
erase k [] = []
erase k (x ∷ xs) = let rest = erase k xs in if text_eq x k then rest else x ∷ rest

abbrev pub Distinct : List Text → Type 0
Distinct [] = Unit
Distinct (x ∷ xs) = (mem x xs ≡ false) × Distinct xs

pub mem-erase :
    (k j : Text) (xs : List Text) → mem j (erase k xs) ≡ (if text_eq k j then false else mem j xs)
unfolding mem erase
mem-erase k j [] = ground arith
mem-erase k j (x ∷ xs) =
    ground (arith, mem-erase k j xs, text_eq_iff x k, text_eq_iff x j, text_eq_iff k j)

pub erase_absent : (k : Text) (xs : List Text) → mem k xs ≡ false → erase k xs ≡ xs
unfolding mem erase
erase_absent k [] h = refl
erase_absent k (x ∷ xs) h = ground (arith, erase_absent k xs)

pub erase-Distinct : (k : Text) (xs : List Text) → Distinct xs → Distinct (erase k xs)
unfolding mem erase
erase-Distinct k [] h = tt
erase-Distinct k (x ∷ xs) h = elim (Bool-cases (text_eq x k)) [
  | inl e ↦ rw e (erase-Distinct k xs h.1)
  | inr e ↦ rw e (ground (arith, mem-erase k x xs), erase-Distinct k xs h.1)
]

pub length-erase-mem :
    (k : Text) (xs : List Text)
    → Distinct xs
    → mem k xs ≡ true
    → suc (length (erase k xs)) ≡ length xs
unfolding mem erase
length-erase-mem k [] h m = absurd (ground arith)
length-erase-mem k (x ∷ xs) h m = elim (Bool-cases (text_eq x k)) [
  | inl e ↦ rw e (ground (arith, erase_absent k xs, text_eq_iff x k))
  | inr e ↦ rw e (ground (arith, length-erase-mem k xs h.1))
]

pub length-erase-le : (k : Text) (xs : List Text) → length (erase k xs) ≤ length xs
unfolding erase
length-erase-le k [] = omega arith
length-erase-le k (x ∷ xs) = ground (arith, length-erase-le k xs)

pub mem-append : (k : Text) (xs ys : List Text) → mem k (xs ++ ys) ≡ (mem k xs || mem k ys)
unfolding mem
mem-append k [] ys = refl
mem-append k (x ∷ xs) ys = ground (arith, mem-append k xs ys)
