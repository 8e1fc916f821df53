-- ===== src/Detectors/Sequence.antt =====
-- hasConsecutiveSequence of pkg/detectorplugins/crawler/crawler.go, against its meaning in the modules
-- below.
pub mod Sorted
pub mod Runs
use mathlib.Core.Path.{subst, ap₂}
use mathlib.Core.Bool.{false≢true}
use Prim.Native.Nat.{max}
use mathlib.Core.List.{reverse, append-nil, append_assoc}
use arxsentinel.Common.{
  ℕ, zero, suc, ◌+◌, ◌-◌, ◌*◌, ◌/◌, ◌%◌, ◌^◌, ◌≤◌, ◌<◌, ◌≡◌, refl, sym, ap, ◌∙◌, ◌≢◌, ◌↔◌, ◌⊎◌, inl,
  inr, Bool, true, false, not, ◌&&◌, ◌||◌, Option, none, some, List, [], ◌∷◌, ◌++◌, map, arith, ltb,
  leb, ◌==◌, if◌then◌else◌, Bool-cases, Option-cases, is_some, is_none, tests, length, take, drop,
  set, replicate, keep, some_of, first_of_list, is_empty, length-append, All, Text, codes, text_eq,
  text_eq_iff, text_eq_refl, has_prefix, has_suffix, contains, to_lower, join, trim_space, mem,
  erase, Distinct, mem-erase, erase-Distinct, length-erase-mem, erase_absent, mem-append,
}
use arxsentinel.Common.Dict.{
  Dict, get, put, remove, keys, get-put, get-remove, mem-keys, length-keys, keys-remove, keys-put,
  Distinct-snoc, length-put, length-remove, put-Distinct,
}
use arxsentinel.Common.Int.{
  sub_ℕ, ℤ, pos, negsuc, ◌+ℤ◌, ◌≤ℤ◌, leb_ℤ, int_laws, pos_part, neg_part, +ℤ_parts, eq_of_parts,
  +ℤ_assoc,
}

unfoldable pub holds : ℕ → List ℕ → Bool
holds k [] = false
holds k (x ∷ xs) = x == k || holds k xs

-- sort.Ints: the ascending rearrangement of the numbers, here by insertion.
unfoldable pub insert_sorted : ℕ → List ℕ → List ℕ
insert_sorted n [] = n ∷ []
insert_sorted n (x ∷ xs) =
    let rest = x ∷ insert_sorted n xs in if leb n x then n ∷ (x ∷ xs) else rest

unfoldable pub sort_ints : List ℕ → List ℕ
unfolding insert_sorted
sort_ints [] = []
sort_ints (n ∷ ns) = insert_sorted n (sort_ints ns)

-- The loop that fills uniq; `last` is its last element.
unfoldable pub dedup_after : ℕ → List ℕ → List ℕ
dedup_after last [] = []
dedup_after last (n ∷ ns) =
    let same = dedup_after last ns in
    let next = n ∷ dedup_after n ns in if n == last then same else next

unfoldable pub dedup : List ℕ → List ℕ
unfolding dedup_after
dedup [] = []
dedup (n ∷ ns) = n ∷ dedup_after n ns

-- The loop that counts; `prev` is the element before the rest.
unfoldable pub scan_runs : ℕ → ℕ → ℕ → List ℕ → Bool
scan_runs min_len prev consec [] = leb min_len consec
scan_runs min_len prev consec (n ∷ ns) =
    let longer = scan_runs min_len n (consec + 1) ns in
    let again = scan_runs min_len n 1 ns in
    if n == prev + 1 then (if leb min_len (consec + 1) then true else longer) else again

unfoldable pub scan_uniq : ℕ → List ℕ → Bool
unfolding scan_runs
scan_uniq min_len [] = false
scan_uniq min_len (n ∷ ns) = scan_runs min_len n 1 ns

-- minLen is configured, so it may be negative.
unfoldable pub has_consecutive_sequence : List ℕ → ℤ → Bool
unfolding sort_ints dedup scan_uniq
has_consecutive_sequence nums min_len =
    let m = pos_part min_len in
    let uniq = dedup (sort_ints nums) in
    if is_empty nums || leb_ℤ min_len (pos 0)
    then false
    else if ltb (length nums) m
    then false
    else if ltb (length uniq) m
    then false
    else scan_uniq m uniq
