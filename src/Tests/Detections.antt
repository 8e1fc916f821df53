-- ===== src/Tests/Detections.antt =====
-- The detectors at concrete inputs.

use arxsentinel.Common.{
  ◌≡◌, refl, ◌↔◌, ◌⊎◌, true, false, none, some, [], ◌∷◌, arith, some_of, Text, codes, text_eq,
  has_suffix,
}
use arxsentinel.Common.Dict.{get, put}
use arxsentinel.Common.Int.{pos}
use arxsentinel.Common.Doubles.{thousandths}
use arxsentinel.Event.{LogEntry}
use arxsentinel.State.{IpState, new_state, recent_paths}
use arxsentinel.Scorer.{no_result}
use arxsentinel.Detectors.{Params}
use arxsentinel.Detectors.Probe.{matches_entry, default_probe_paths}
use arxsentinel.Detectors.Sequence.{has_consecutive_sequence}
use arxsentinel.Detectors.Sequence.Runs.{RunIn, has_consecutive_sequence_iff}
use arxsentinel.Detectors.Crawler.{CrawlerDetector, parse_numeric_path, detect_crawler}
use arxsentinel.Detectors.Crawling.{numbers_under, crawler_hit, paths, detect_crawler_lem}
use arxsentinel.Tests.Inputs.{ip_a, request, fresh}

-- Every parameter at its default.
abbrev defaults : Params thousandths
defaults = record {
  get_int = λ key d. d;
  get_float = λ key d. d;
  get_bool = λ key d. d;
  get_strings = λ key d. d;
  get_duration = λ key d. d;
}

abbrev probing : LogEntry
probing = request ip_a (codes "/wp-admin/options.php") 1000

probe_hits : some_of (matches_entry probing.path) default_probe_paths ≡ true
unfolding has_suffix text_eq
probe_hits = refl

shuffled : has_consecutive_sequence (7 ∷ 5 ∷ 6 ∷ 5 ∷ []) (pos 3) ≡ true
unfolding has_consecutive_sequence
shuffled = refl

has_consecutive_sequence_iff_example :
    (has_consecutive_sequence (7 ∷ 5 ∷ 6 ∷ 5 ∷ []) (pos 3) ≡ true) ↔ RunIn 3 (7 ∷ 5 ∷ 6 ∷ 5 ∷ [])
has_consecutive_sequence_iff_example =
    has_consecutive_sequence_iff (7 ∷ 5 ∷ 6 ∷ 5 ∷ []) 3 (omega arith)

numeric_paths :
    (parse_numeric_path (codes "/page/5/") ≡ some (codes "/page/", 5))
    × (parse_numeric_path (codes "/api/v2") ≡ none)
unfolding parse_numeric_path
numeric_paths = (refl, refl)

abbrev crawled : IpState
crawled = record fresh {
  path_cache = codes "/p/3" ∷ codes "/q" ∷ codes "/p/1" ∷ codes "/p/2/" ∷ [];
  path_dirty = false;
}

abbrev of_three : CrawlerDetector
of_three = record { min_sequential = pos 3; score = pos 20 }

crawler_reports : (detect_crawler of_three crawled).0 ≡ crawler_hit of_three (codes "/p/")
unfolding detect_crawler recent_paths parse_numeric_path new_state get put text_eq
    has_consecutive_sequence crawler_hit
crawler_reports = refl

detect_crawler_lem_example :
    ((p : Text) × ((detect_crawler of_three crawled).0 ≡ crawler_hit of_three p)
      × RunIn 3 (numbers_under p (paths of_three crawled 3 refl (omega arith))))
    ⊎ (((detect_crawler of_three crawled).0 ≡ no_result)
        × ((p : Text) → ¬ RunIn 3 (numbers_under p (paths of_three crawled 3 refl (omega arith)))))
detect_crawler_lem_example = detect_crawler_lem of_three crawled 3 refl (omega arith)
