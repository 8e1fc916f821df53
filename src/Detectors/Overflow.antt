-- ===== src/Detectors/Overflow.antt =====
-- pkg/detectorplugins/overflow/overflow.go. `other` is the lower case of texts outside ASCII.

use arxsentinel.Common.{
  not, none, some, List, [], ◌∷◌, ◌++◌, map, if◌then◌else◌, length, first_of_list, is_empty, Text,
  codes, contains, to_lower,
}
use arxsentinel.Common.Int.{ℤ, pos, leb_ℤ}
use arxsentinel.Common.{show_nat}
use arxsentinel.Common.Doubles.{Doubles}
use arxsentinel.Event.{LogEntry}
use arxsentinel.Scorer.{DetectResult, no_result, Detector}
use arxsentinel.Detectors.{Params}

abbrev pub default_suspicious_params : List Text
default_suspicious_params =
    codes "bypass"
    ∷ codes "shell"
    ∷ codes "cmd"
    ∷ codes "exec"
    ∷ codes "eval"
    ∷ codes "system"
    ∷ codes "passthru"
    ∷ []

pub record OverflowDetector : Type 0 where
  pub max_url_length : ℤ
  pub suspicious_params : List Text
  pub score : ℤ

unfoldable pub new_overflow : (f : Doubles) → (Text → Text) → Params f → OverflowDetector
new_overflow f other p = record {
  max_url_length = p.get_int (codes "max_url_length") (pos 2048);
  suspicious_params =
      map (to_lower other) (p.get_strings (codes "suspicious_params") default_suspicious_params);
  score = p.get_int (codes "score") (pos 30);
}

unfoldable pub full_url : LogEntry → Text
full_url e = if is_empty e.query then e.path else e.path ++ (codes "?" ++ e.query)

unfoldable pub detect_overflow : (Text → Text) → OverflowDetector → LogEntry → DetectResult
unfolding full_url
detect_overflow other d e =
    let url = full_url e in
    if not (leb_ℤ (pos (length url)) d.max_url_length)
    then record {
      score = d.score;
      module_name = codes "overflow";
      reason = codes "overflow:url_len=" ++ show_nat (length url);
    }
    else elim (first_of_list (contains (to_lower other url)) d.suspicious_params) [
      | none ↦ no_result
      | some param ↦ record {
        score = d.score;
        module_name = codes "overflow";
        reason = codes "overflow:waf_bypass=" ++ param;
      }
    ]

abbrev pub overflow : (Text → Text) → OverflowDetector → Detector
overflow other d = record {
  name = codes "overflow";
  detect = λ clock e s. (detect_overflow other d e, s);
}
