-- ===== src/Detectors/Sequence/Runs.antt =====
-- The counting loop of pkg/detectorplugins/crawler/crawler.go finds the runs of consecutive numbers.
use mathlib.Core.Path.{subst}
use arxsentinel.Common.{
  ℕ, suc, ◌+◌, ◌-◌, ◌≤◌, ◌<◌, ◌≡◌, refl, sym, ◌∙◌, ◌↔◌, ◌⊎◌, inl, inr, true, false, List, [], ◌∷◌,
  arith, ltb, leb, ◌==◌, Bool-cases, length, is_empty,
}
use arxsentinel.Common.Int.{pos}
use arxsentinel.Detectors.Sequence.{
  holds, insert_sorted, sort_ints, dedup_after, dedup, scan_runs, scan_uniq,
  has_consecutive_sequence,
}
use arxsentinel.Detectors.Sequence.Sorted.{
  Ascends, Strict, holds-sort_ints, sort_ints-Ascends, dedup_after-Strict, holds-dedup,
}

-- m consecutive numbers, from a on, all in the list.
abbrev pub RunIn : ℕ → List ℕ → Type 0
RunIn m xs = (a : ℕ) × ((i : ℕ) → i < m → holds (a + i) xs ≡ true)

Strict-holds : (lo v : ℕ) (xs : List ℕ) → Strict lo xs → holds v xs ≡ true → lo < v
unfolding holds
Strict-holds lo v [] s h = absurd (ground arith)
Strict-holds lo v (x ∷ xs) s h = elim (Bool-cases (x == v)) [
  | inl e ↦ ground arith
  | inr n ↦ let above = Strict-holds x v xs s.1 (ground arith) in omega (arith, above)
]

-- Soundness: the numbers of the current run and those of the rest satisfy P.
module _ (P : ℕ → Type 0) (m : ℕ) (some_len : 0 < m) where
  scan_runs_sound :
      (start prev consec : ℕ) (xs : List ℕ)
      → start + consec ≡ prev + 1
      → ((i : ℕ) → i < consec → P (start + i))
      → ((v : ℕ) → holds v xs ≡ true → P v)
      → scan_runs m prev consec xs ≡ true
      → (a : ℕ) × ((i : ℕ) → i < m → P (a + i))
  unfolding scan_runs holds
  scan_runs_sound start prev consec [] e old all h = (start, λ i lt. old i (ground arith))
  scan_runs_sound start prev consec (x ∷ xs) e old all h = elim (Bool-cases (x == prev + 1)) [
    | inl next ↦
        let more : (i : ℕ) → i < consec + 1 → P (start + i) = λ i lt.
          elim (Bool-cases (ltb i consec)) [
            | inl below ↦ old i (ground arith)
            | inr last ↦
                let same : x ≡ start + i = ground arith in subst P same (all x (ground arith))
          ] in
        elim (Bool-cases (leb m (consec + 1))) [
          | inl enough ↦ (start, λ i lt. more i (ground arith))
          | inr few ↦
              scan_runs_sound start x (consec + 1) xs (ground arith) more
                (λ v hv. all v (ground arith)) (ground arith)
        ]
    | inr gap ↦
        scan_runs_sound x x 1 xs refl
          (λ i lt. let same : x ≡ x + i = omega arith in subst P same (all x (ground arith)))
          (λ v hv. all v (ground arith)) (ground arith)
  ]

scan_runs_one : (prev : ℕ) (xs : List ℕ) → scan_runs 1 prev 1 xs ≡ true
unfolding scan_runs
scan_runs_one prev [] = refl
scan_runs_one prev (x ∷ xs) = ground (arith, scan_runs_one x xs)

-- Whether a number is in the current run, which ends at prev and has consec numbers, or in the rest.
abbrev Have : ℕ → ℕ → List ℕ → ℕ → Type 0
Have prev consec xs v = ((prev < v + consec) × (v ≤ prev)) ⊎ (holds v xs ≡ true)

Have-next :
    (prev consec x v : ℕ) (xs : List ℕ)
    → x ≡ prev + 1
    → Have prev consec (x ∷ xs) v
    → Have x (consec + 1) xs v
unfolding holds
Have-next prev consec x v xs e (inl old) = inl (omega arith, omega arith)
Have-next prev consec x v xs e (inr new) = elim (Bool-cases (x == v)) [
  | inl here ↦ inl (ground arith, ground arith)
  | inr later ↦ inr (ground arith)
]

Have-gap :
    (prev consec x v : ℕ) (xs : List ℕ) → prev < v → Have prev consec (x ∷ xs) v → Have x 1 xs v
unfolding holds
Have-gap prev consec x v xs e (inl old) = absurd (omega arith)
Have-gap prev consec x v xs e (inr new) = elim (Bool-cases (x == v)) [
  | inl here ↦ inl (ground arith, ground arith)
  | inr later ↦ inr (ground arith)
]

-- A number up to prev is in the current run, if it is there at all.
Have-old :
    (prev consec v : ℕ) (xs : List ℕ)
    → Strict prev xs
    → Have prev consec xs v
    → v ≤ prev
    → prev < v + consec
Have-old prev consec v xs s (inl old) le = old.0
Have-old prev consec v xs s (inr new) le =
    let above = Strict-holds prev v xs s new in omega (arith, above)

-- With a gap behind prev, a run longer than the current one starts behind it.
run_behind :
    (m prev consec a x : ℕ) (xs : List ℕ)
    → Strict prev (x ∷ xs)
    → consec < m
    → (x == prev + 1) ≡ false
    → ((i : ℕ) → i < m → Have prev consec (x ∷ xs) (a + i))
    → prev < a
unfolding holds
run_behind m prev consec a x xs s lt gap run = elim (Bool-cases (ltb prev a)) [
  | inl above ↦ ground arith
  | inr low ↦
      let le : a ≤ prev = ground arith in
      let first : prev < a + 0 + consec =
        Have-old prev consec (a + 0) (x ∷ xs) s (run 0 (omega arith)) (omega arith) in
      let reach : a + (prev + 1 - a) ≡ prev + 1 = omega arith in
      let hole : Have prev consec (x ∷ xs) (prev + 1) =
        subst (Have prev consec (x ∷ xs)) reach (run (prev + 1 - a) (omega arith)) in
      absurd (elim hole [
        | inl old ↦ omega arith
        | inr new ↦
            let above = Strict-holds x (prev + 1) xs s.1 (ground arith) in omega (arith, above, s.0)
      ])
]

scan_runs_complete :
    (m prev consec a : ℕ) (xs : List ℕ)
    → Strict prev xs
    → 0 < consec
    → consec < m
    → ((i : ℕ) → i < m → Have prev consec xs (a + i))
    → scan_runs m prev consec xs ≡ true
unfolding scan_runs
scan_runs_complete m prev consec a [] s c lt run =
    let low = Have-old prev consec (a + 0) [] s (run 0 (omega arith)) in
    absurd (elim (run (m - 1) (omega arith)) [
      | inl (g, h) ↦ omega (arith, low (omega arith))
      | inr h ↦ unfold holds in ground arith
    ])
scan_runs_complete m prev consec a (x ∷ xs) s c lt run = elim (Bool-cases (x == prev + 1)) [
  | inl next ↦ elim (Bool-cases (leb m (consec + 1))) [
    | inl enough ↦ ground arith
    | inr few ↦
        rw (next, few)
          (scan_runs_complete m x (consec + 1) a xs s.1 (omega arith) (ground arith)
            (λ i h. Have-next prev consec x (a + i) xs (ground arith) (run i h)))
  ]
  | inr gap ↦
      let above = run_behind m prev consec a x xs s lt gap run in
      rw gap (
        scan_runs_complete m x 1 a xs s.1 (omega arith) (omega arith)
          (λ i h. Have-gap prev consec x (a + i) xs (omega arith) (run i h)))
]

-- The loop needs as many numbers as the run has.
scan_runs-length :
    (m prev consec : ℕ) (xs : List ℕ)
    → scan_runs m prev consec xs ≡ true
    → 0 < consec
    → m ≤ consec + length xs
unfolding scan_runs
scan_runs-length m prev consec [] h c = ground arith
scan_runs-length m prev consec (x ∷ xs) h c =
    ground (arith, scan_runs-length m x (consec + 1) xs, scan_runs-length m x 1 xs)

length-dedup_after : (last : ℕ) (xs : List ℕ) → length (dedup_after last xs) ≤ length xs
unfolding dedup_after
length-dedup_after last [] = omega arith
length-dedup_after last (x ∷ xs) =
    ground (arith, length-dedup_after last xs, length-dedup_after x xs)

length-insert_sorted : (n : ℕ) (xs : List ℕ) → length (insert_sorted n xs) ≡ suc (length xs)
unfolding insert_sorted
length-insert_sorted n [] = refl
length-insert_sorted n (x ∷ xs) = ground (arith, length-insert_sorted n xs)

length-sort_ints : (xs : List ℕ) → length (sort_ints xs) ≡ length xs
unfolding sort_ints
length-sort_ints [] = refl
length-sort_ints (x ∷ xs) =
    omega (arith, length-insert_sorted x (sort_ints xs), length-sort_ints xs)

module _ (m : ℕ) (some_len : 0 < m) where
  run_of_scan : (l : List ℕ) → scan_uniq m (dedup l) ≡ true → RunIn m l
  unfolding scan_uniq dedup
  run_of_scan [] h = absurd (ground arith)
  run_of_scan (y ∷ ys) h =
      scan_runs_sound (λ v. holds v (y ∷ ys) ≡ true) m some_len y y 1 (dedup_after y ys) refl
        (λ i lt. unfold holds in ground arith)
        (λ v hv. sym (holds-dedup v (y ∷ ys)) ∙ (unfold holds in ground (arith, hv))) h

  scan_of_run : (l : List ℕ) → Ascends 0 l → RunIn m l → scan_uniq m (dedup l) ≡ true
  unfolding scan_uniq dedup
  scan_of_run [] s (a, run) = absurd (unfold holds in ground (arith, run 0 some_len))
  scan_of_run (y ∷ ys) s (a, run) = elim (Bool-cases (m == 1)) [
    | inl one ↦
        let e : m ≡ 1 = ground arith in
        subst (λ k. scan_runs k y 1 (dedup_after y ys) ≡ true) (sym e)
          (scan_runs_one y (dedup_after y ys))
    | inr many ↦
        scan_runs_complete m y 1 a (dedup_after y ys) (dedup_after-Strict y ys s.1) (omega arith)
          (ground arith) (λ i lt. have i (holds-dedup (a + i) (y ∷ ys) ∙ run i lt))
  ]
    where
      have : (i : ℕ) → holds (a + i) (dedup (y ∷ ys)) ≡ true → Have y 1 (dedup_after y ys) (a + i)
      have i h = elim (Bool-cases (y == a + i)) [
        | inl here ↦ inl (ground arith, ground arith)
        | inr later ↦ inr (unfold holds in ground arith)
      ]

  uniq_long : (l : List ℕ) → scan_uniq m (dedup l) ≡ true → m ≤ length (dedup l)
  unfolding scan_uniq dedup
  uniq_long [] h = absurd (ground arith)
  uniq_long (y ∷ ys) h = omega (arith, scan_runs-length m y 1 (dedup_after y ys) h (omega arith))

  uniq_short : (l : List ℕ) → length (dedup l) ≤ length l
  unfolding dedup
  uniq_short [] = omega arith
  uniq_short (y ∷ ys) = omega (arith, length-dedup_after y ys)

is_empty_short : (xs : List ℕ) → is_empty xs ≡ true → length xs ≡ 0
is_empty_short [] h = refl
is_empty_short (x ∷ xs) h = absurd (ground arith)

-- For a positive length m, hasConsecutiveSequence holds of exactly the lists that contain m
-- consecutive numbers, in any order and with any repetition.
pub has_consecutive_sequence_iff :
    (nums : List ℕ) (m : ℕ) → 0 < m → (has_consecutive_sequence nums (pos m) ≡ true) ↔ RunIn m nums
unfolding has_consecutive_sequence
has_consecutive_sequence_iff nums m h =
    (λ found. run_of_scanned (ground arith), λ run. found_of_scan (scan_of run))
  where
    uniq : List ℕ
    uniq = dedup (sort_ints nums)

    run_of_scanned : scan_uniq m uniq ≡ true → RunIn m nums
    run_of_scanned s =
        let (a, run) = run_of_scan m h (sort_ints nums) s in
        (a, λ i lt. sym (holds-sort_ints (a + i) nums) ∙ run i lt)

    scan_of : RunIn m nums → scan_uniq m uniq ≡ true
    scan_of (a, run) =
        scan_of_run m h (sort_ints nums) (sort_ints-Ascends nums)
          (a, λ i lt. holds-sort_ints (a + i) nums ∙ run i lt)

    found_of_scan : scan_uniq m uniq ≡ true → has_consecutive_sequence nums (pos m) ≡ true
    found_of_scan s = ground (
      arith,
      s,
      uniq_long m h (sort_ints nums) s,
      uniq_short m h (sort_ints nums),
      length-sort_ints nums,
      is_empty_short nums,
    )

pub RunIn-length : (nums : List ℕ) (m : ℕ) → 0 < m → RunIn m nums → m ≤ length nums
unfolding has_consecutive_sequence
RunIn-length nums m h run =
    let found = (has_consecutive_sequence_iff nums m h).1 run in ground (arith, found)
