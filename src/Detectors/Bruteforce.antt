-- ===== src/Detectors/Bruteforce.antt =====
-- pkg/detectorplugins/bruteforce/bruteforce.go

use arxsentinel.Common.{not, ◌++◌, if◌then◌else◌, codes}
use arxsentinel.Common.Int.{ℤ, pos, leb_ℤ}
use arxsentinel.Common.{show_nat}
use arxsentinel.Common.Doubles.{Doubles}
use arxsentinel.State.{IpState}
use arxsentinel.Scorer.{DetectResult, no_result, Detector}
use arxsentinel.Detectors.{Params}

module _ (f : Doubles) where
  pub record BruteforceDetector : Type 0 where
    pub min_requests : ℤ
    pub ratio_threshold : f.Double
    pub score : ℤ

  unfoldable pub new_bruteforce : Params f → BruteforceDetector
  new_bruteforce p = record {
    min_requests = p.get_int (codes "min_requests") (pos 10);
    ratio_threshold =
        p.get_float (codes "ratio_threshold") (f.div (f.of_int (pos 6)) (f.of_int (pos 10)));
    score = p.get_int (codes "score") (pos 30);
  }

  unfoldable pub detect_bruteforce : BruteforceDetector → IpState → DetectResult
  detect_bruteforce d s =
      let ratio = f.div (f.of_int (pos s.requests_404)) (f.of_int (pos s.total_requests)) in
      if not (leb_ℤ d.min_requests (pos s.total_requests))
      then no_result
      else if f.lt ratio d.ratio_threshold
      then no_result
      else record {
        score = d.score;
        module_name = codes "bruteforce";
        reason =
            codes "bruteforce:404="
            ++ (f.show_rounded (f.mul ratio (f.of_int (pos 100)))
                ++ (codes "%("
                    ++ (show_nat s.requests_404
                        ++ (codes "/" ++ (show_nat s.total_requests ++ codes ")")))));
      }

  abbrev pub bruteforce : BruteforceDetector → Detector
  bruteforce d = record {
    name = codes "bruteforce";
    detect = λ clock e s. (detect_bruteforce d s, s);
  }
