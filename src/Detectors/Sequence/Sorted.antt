-- ===== src/Detectors/Sequence/Sorted.antt =====
-- Sorting and dropping repetitions in pkg/detectorplugins/crawler/crawler.go: the numbers stay the
-- same, and come in strictly ascending order.
use mathlib.Core.Path.{subst}
use arxsentinel.Common.{
  ℕ, ◌≤◌, ◌<◌, ◌≡◌, refl, inl, inr, ◌||◌, List, [], ◌∷◌, arith, leb, ◌==◌, Bool-cases,
}
use arxsentinel.Detectors.Sequence.{holds, insert_sorted, sort_ints, dedup_after, dedup}

-- Each number is above the one before it.
abbrev pub Strict : ℕ → List ℕ → Type 0
Strict lo [] = Unit
Strict lo (n ∷ ns) = (lo < n) × Strict n ns

abbrev pub Ascends : ℕ → List ℕ → Type 0
Ascends lo [] = Unit
Ascends lo (n ∷ ns) = (lo ≤ n) × Ascends n ns

holds-insert_sorted :
    (k n : ℕ) (xs : List ℕ) → holds k (insert_sorted n xs) ≡ (n == k || holds k xs)
unfolding holds insert_sorted
holds-insert_sorted k n [] = refl
holds-insert_sorted k n (x ∷ xs) = ground (arith, holds-insert_sorted k n xs)

pub holds-sort_ints : (k : ℕ) (xs : List ℕ) → holds k (sort_ints xs) ≡ holds k xs
unfolding holds sort_ints
holds-sort_ints k [] = refl
holds-sort_ints k (x ∷ xs) =
    ground (arith, holds-insert_sorted k x (sort_ints xs), holds-sort_ints k xs)

insert_sorted-Ascends :
    (lo n : ℕ) (xs : List ℕ) → lo ≤ n → Ascends lo xs → Ascends lo (insert_sorted n xs)
unfolding insert_sorted
insert_sorted-Ascends lo n [] h a = (h, tt)
insert_sorted-Ascends lo n (x ∷ xs) h a = elim (Bool-cases (leb n x)) [
  | inl small ↦ rw small (h, (ground arith, a.1))
  | inr big ↦ rw big (a.0, insert_sorted-Ascends x n xs (ground arith) a.1)
]

pub sort_ints-Ascends : (xs : List ℕ) → Ascends 0 (sort_ints xs)
unfolding sort_ints
sort_ints-Ascends [] = tt
sort_ints-Ascends (x ∷ xs) =
    insert_sorted-Ascends 0 x (sort_ints xs) (omega arith) (sort_ints-Ascends xs)

pub dedup_after-Strict :
    (last : ℕ) (xs : List ℕ) → Ascends last xs → Strict last (dedup_after last xs)
unfolding dedup_after
dedup_after-Strict last [] a = tt
dedup_after-Strict last (x ∷ xs) a = elim (Bool-cases (x == last)) [
  | inl same ↦
      let e : x ≡ last = ground arith in
      rw same (dedup_after-Strict last xs (subst (λ y. Ascends y xs) e a.1))
  | inr next ↦ rw next (ground arith, dedup_after-Strict x xs a.1)
]

holds-dedup_after :
    (k last : ℕ) (xs : List ℕ)
    → (last == k || holds k (dedup_after last xs)) ≡ (last == k || holds k xs)
unfolding holds dedup_after
holds-dedup_after k last [] = refl
holds-dedup_after k last (x ∷ xs) =
    ground (arith, holds-dedup_after k last xs, holds-dedup_after k x xs)

pub holds-dedup : (k : ℕ) (xs : List ℕ) → holds k (dedup xs) ≡ holds k xs
unfolding dedup
holds-dedup k [] = refl
holds-dedup k (x ∷ xs) = unfold holds in holds-dedup_after k x xs
