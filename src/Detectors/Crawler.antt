-- ===== src/Detectors/Crawler.antt =====
-- pkg/detectorplugins/crawler/crawler.go. A path with a number as its last segment is read as the
-- regular expression of the source reads it: an optional slash at the end, digits, a slash before
-- them, and no line break in what stands before.

use mathlib.Core.List.{reverse}
use arxsentinel.Common.{
  ℕ, ◌-◌, ◌^◌, Bool, false, not, ◌||◌, Option, none, some, List, [], ◌∷◌, ◌++◌, ltb, ◌==◌,
  if◌then◌else◌, length, some_of, is_empty, Text, codes,
}
use arxsentinel.Common.Dict.{Dict, get, put}
use arxsentinel.Common.Int.{ℤ, pos, leb_ℤ}
use arxsentinel.Common.{show_int, is_digit, read_digits}
use arxsentinel.Common.Doubles.{Doubles}
use arxsentinel.State.{IpState, recent_paths}
use arxsentinel.Scorer.{DetectResult, no_result, Detector}
use arxsentinel.Detectors.{Params}
use arxsentinel.Detectors.Sequence.{has_consecutive_sequence}

-- The digits at the start of a text, and the rest.
unfoldable pub span_digits : Text → Text × Text
span_digits [] = ([], [])
span_digits (c ∷ s) =
    let (digits, rest) = span_digits s in if is_digit c then (c ∷ digits, rest) else ([], c ∷ s)

unfoldable pub drop_slash : Text → Text
drop_slash [] = []
drop_slash (c ∷ s) = if c == b'/' then s else c ∷ s

abbrev pub starts_with_slash : Text → Bool
starts_with_slash [] = false
starts_with_slash (c ∷ s) = c == b'/'

-- strconv.Atoi fails above the greatest int64.
abbrev pub max_int : ℕ
max_int = 2 ^ 63 - 1

unfoldable pub parse_numeric_path : Text → Option (Text × ℕ)
unfolding span_digits drop_slash is_digit read_digits
parse_numeric_path path =
    let (digits, rest) = span_digits (drop_slash (reverse path)) in
    let n = read_digits 0 (reverse digits) in
    if is_empty digits || (not (starts_with_slash rest) || some_of (λ c. c == 10) rest)
    then none
    else if ltb max_int n
    then none
    else some (reverse rest, n)

-- groups[prefix] = append(groups[prefix], num)
unfoldable pub add_number : Text → ℕ → Dict (List ℕ) → Dict (List ℕ)
add_number prefix n groups =
    put groups prefix (elim (get groups prefix) [ none ↦ n ∷ [] | some ns ↦ ns ++ (n ∷ []) ])

unfoldable pub add_path : Dict (List ℕ) → Text → Dict (List ℕ)
unfolding add_number
add_path groups p = elim (parse_numeric_path p) [
  | none ↦ groups
  | some (prefix, n) ↦ add_number prefix n groups
]

unfoldable pub group_paths : List Text → Dict (List ℕ) → Dict (List ℕ)
unfolding add_path
group_paths [] groups = groups
group_paths (p ∷ ps) groups = group_paths ps (add_path groups p)

-- The loop over the groups. A Go map has no order, so which of several prefixes is reported is open
-- there; here it is the first.
unfoldable pub first_sequence : ℤ → Dict (List ℕ) → Option Text
first_sequence min_len [] = none
first_sequence min_len ((prefix, nums) ∷ groups) =
    let rest = first_sequence min_len groups in
    if has_consecutive_sequence nums min_len then some prefix else rest

pub record CrawlerDetector : Type 0 where
  pub min_sequential : ℤ
  pub score : ℤ

unfoldable pub new_crawler : (f : Doubles) → Params f → CrawlerDetector
new_crawler f p = record {
  min_sequential = p.get_int (codes "min_sequential") (pos 5);
  score = p.get_int (codes "score") (pos 20);
}

unfoldable pub detect_crawler : CrawlerDetector → IpState → DetectResult × IpState
unfolding group_paths first_sequence
detect_crawler d s =
    let (paths, s') = recent_paths s in
    if not (leb_ℤ d.min_sequential (pos (length paths)))
    then (no_result, s')
    else elim (first_sequence d.min_sequential (group_paths paths [])) [
      | none ↦ (no_result, s')
      | some prefix ↦ (
        record {
          score = d.score;
          module_name = codes "crawler";
          reason = codes "crawler:seq=" ++ (prefix ++ (codes "*" ++ show_int d.min_sequential));
        },
        s',
      )
    ]

abbrev pub crawler : CrawlerDetector → Detector
crawler d = record { name = codes "crawler"; detect = λ clock e s. detect_crawler d s }
