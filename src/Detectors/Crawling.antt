-- ===== src/Detectors/Crawling.antt =====
-- A hit of a crawler: detect_crawler of Detectors/Crawler against the paths that it reads.

use mathlib.Core.List.{append-nil, append_assoc}
use arxsentinel.Common.{
  ℕ, ◌≤◌, ◌<◌, ◌≡◌, refl, sym, ◌∙◌, ◌⊎◌, inl, inr, true, false, Option, none, some, List, [], ◌∷◌,
  ◌++◌, arith, leb, if◌then◌else◌, Bool-cases, Option-cases, length, Text, codes, text_eq,
  text_eq_iff, mem, Distinct,
}
use arxsentinel.Common.Dict.{Dict, get, keys, get-put, put-Distinct}
use arxsentinel.Common.Int.{ℤ, pos}
use arxsentinel.Common.{show_int}
use arxsentinel.State.{IpState, recent_paths}
use arxsentinel.Scorer.{DetectResult, no_result}
use arxsentinel.Detectors.Sequence.{has_consecutive_sequence}
use arxsentinel.Detectors.Sequence.Runs.{RunIn, RunIn-length, has_consecutive_sequence_iff}
use arxsentinel.Detectors.Crawler.{
  CrawlerDetector, parse_numeric_path, add_number, add_path, group_paths, first_sequence,
  detect_crawler,
}

-- The numbers of the paths that have this prefix, in order.
unfoldable pub numbers_under : Text → List Text → List ℕ
numbers_under prefix [] = []
numbers_under prefix (p ∷ ps) =
    let rest = numbers_under prefix ps in
    elim (parse_numeric_path p) [
      | none ↦ rest
      | some (q, n) ↦ if text_eq q prefix then n ∷ rest else rest
    ]

abbrev in_group : Option (List ℕ) → List ℕ
in_group none = []
in_group (some ns) = ns

group-add_number :
    (q prefix : Text) (n : ℕ) (groups : Dict (List ℕ))
    → in_group (get (add_number q n groups) prefix) ≡ (
        if text_eq q prefix
        then in_group (get groups prefix) ++ (n ∷ [])
        else in_group (get groups prefix))
unfolding add_number
group-add_number q prefix n groups = elim (Option-cases (get groups q)) [
  | inl new ↦ ground (arith, new, get-put groups q (n ∷ []) prefix, text_eq_iff q prefix)
  | inr (ns, old) ↦
      ground (arith, old, get-put groups q (ns ++ (n ∷ [])) prefix, text_eq_iff q prefix)
]

group-group_paths :
    (prefix : Text) (ps : List Text) (groups : Dict (List ℕ))
    → in_group (get (group_paths ps groups) prefix)
      ≡ in_group (get groups prefix) ++ numbers_under prefix ps
unfolding group_paths numbers_under
group-group_paths prefix [] groups = sym (append-nil _)
group-group_paths prefix (p ∷ ps) groups = elim (Option-cases (parse_numeric_path p)) [
  | inl plain ↦ rw (plain, add_path, numbers_under) (group-group_paths prefix ps groups)
  | inr ((q, n), numbered) ↦
      rw (numbered, add_path, numbers_under)
        (ground (
          arith,
          group-group_paths prefix ps (add_number q n groups),
          group-add_number q prefix n groups,
          append_assoc (in_group (get groups prefix)) (n ∷ []) (numbers_under prefix ps),
        ))
]

group_paths-Distinct :
    (ps : List Text) (groups : Dict (List ℕ))
    → Distinct (keys groups)
    → Distinct (keys (group_paths ps groups))
unfolding group_paths
group_paths-Distinct [] groups h = h
group_paths-Distinct (p ∷ ps) groups h = elim (Option-cases (parse_numeric_path p)) [
  | inl plain ↦ rw (plain, add_path) (group_paths-Distinct ps groups h)
  | inr ((q, n), numbered) ↦
      rw (numbered, add_path)
        (group_paths-Distinct ps (add_number q n groups) (add_number-Distinct q n groups h))
]
  where
    add_number-Distinct :
        (q : Text) (n : ℕ) (g : Dict (List ℕ))
        → Distinct (keys g)
        → Distinct (keys (add_number q n g))
    add_number-Distinct q n g d = unfold add_number in put-Distinct g q _ d

first_sequence-some :
    (m : ℤ) (groups : Dict (List ℕ)) (p : Text)
    → Distinct (keys groups)
    → first_sequence m groups ≡ some p
    → (mem p (keys groups) ≡ true) × (has_consecutive_sequence (in_group (get groups p)) m ≡ true)
unfolding first_sequence keys get mem
first_sequence-some m [] p d h = absurd (ground arith)
first_sequence-some m ((q, ns) ∷ groups) p d h = elim (Bool-cases (has_consecutive_sequence ns m)) [
  | inl here ↦ ground (arith, here, text_eq_iff q p)
  | inr later ↦
      let (inside, found) = first_sequence-some m groups p d.1 (ground (arith, later)) in
      ground (arith, inside, found, d.0, text_eq_iff q p)
]

first_sequence-none :
    (m : ℤ) (groups : Dict (List ℕ)) (p : Text)
    → first_sequence m groups ≡ none
    → (ns : List ℕ) → get groups p ≡ some ns
    → has_consecutive_sequence ns m ≡ false
unfolding first_sequence get
first_sequence-none m [] p h ns g = absurd (ground arith)
first_sequence-none m ((q, ms) ∷ groups) p h ns g =
    ground
      (arith, g, first_sequence-none m groups p, first_sequence-none m groups p (ground arith) ns)

first_sequence_silent :
    (m : ℤ) (groups : Dict (List ℕ)) (p : Text)
    → first_sequence m groups ≡ none
    → has_consecutive_sequence (in_group (get groups p)) m ≡ false
first_sequence_silent m groups p h = elim (Option-cases (get groups p)) [
  | inl new ↦ rw new (unfold has_consecutive_sequence in refl)
  | inr (ns, old) ↦ rw old (first_sequence-none m groups p h ns old)
]

length-numbers_under :
    (prefix : Text) (ps : List Text) → length (numbers_under prefix ps) ≤ length ps
unfolding numbers_under
length-numbers_under prefix [] = omega arith
length-numbers_under prefix (p ∷ ps) = ground (arith, length-numbers_under prefix ps)

-- The result for a prefix.
unfoldable pub crawler_hit : CrawlerDetector → Text → DetectResult
crawler_hit d prefix = record {
  score = d.score;
  module_name = codes "crawler";
  reason = codes "crawler:seq=" ++ (prefix ++ (codes "*" ++ show_int d.min_sequential));
}

module _ (d : CrawlerDetector) (s : IpState) (m : ℕ) (min : d.min_sequential ≡ pos m)
    (some_len : 0 < m) where
  abbrev pub paths : List Text
  paths = (recent_paths s).0

  found : Option Text
  found = first_sequence d.min_sequential (group_paths paths [])

  grouped : (p : Text) → in_group (get (group_paths paths []) p) ≡ numbers_under p paths
  grouped p = group-group_paths p paths [] ∙ (unfold get in refl)

  found_run : (p : Text) → found ≡ some p → RunIn m (numbers_under p paths)
  unfolding found
  found_run p h =
      let distinct : Distinct (keys (group_paths paths [])) =
        group_paths-Distinct paths [] (unfold keys in tt) in
      let (_, hit) = first_sequence-some d.min_sequential (group_paths paths []) p distinct h in
      (has_consecutive_sequence_iff (numbers_under p paths) m some_len).0
        (rw (grouped p, min) at hit)

  no_run : found ≡ none → (p : Text) → ¬ RunIn m (numbers_under p paths)
  unfolding found
  no_run h p run =
      let hit = (has_consecutive_sequence_iff (numbers_under p paths) m some_len).1 run in
      let silent = first_sequence_silent d.min_sequential (group_paths paths []) p h in
      let missed = rw (grouped p, min) at silent in ground (arith, hit, missed)

  detect_by_found : (detect_crawler d s).0 ≡ (
      if leb m (length paths)
      then (elim found [ none ↦ no_result | some p ↦ crawler_hit d p ])
      else no_result)
  unfolding detect_crawler found crawler_hit
  detect_by_found = ground (arith, min)

  -- With a positive minimum m, the crawler detector hits exactly where some prefix has m
  -- consecutive numbers among the recent paths, in any order: either it reports such a prefix, or
  -- it returns the empty result and no prefix has them.
  pub detect_crawler_lem :
      ((p : Text) × ((detect_crawler d s).0 ≡ crawler_hit d p) × RunIn m (numbers_under p paths))
      ⊎ (((detect_crawler d s).0 ≡ no_result) × ((p : Text) → ¬ RunIn m (numbers_under p paths)))
  detect_crawler_lem = elim (Bool-cases (leb m (length paths))) [
    | inl enough ↦ elim (Option-cases found) [
      | inl silent ↦ inr (rw (detect_by_found, enough, silent) refl, no_run silent)
      | inr (p, hit) ↦ inl (p, rw (detect_by_found, enough, hit) refl, found_run p hit)
    ]
    | inr few ↦ inr (
      rw (detect_by_found, few) refl,
      λ p run.
          let long = RunIn-length (numbers_under p paths) m some_len run in
          ground (arith, long, length-numbers_under p paths),
    )
  ]
