-- ===== src/Detectors/Rate.antt =====
-- pkg/detectorplugins/rate/rate.go

use arxsentinel.Common.{ℕ, if◌then◌else◌, codes}
use arxsentinel.Common.Int.{ℤ, pos, leb_ℤ, pos_part}
use arxsentinel.Common.Doubles.{Doubles}
use arxsentinel.State.{IpState}
use arxsentinel.Scorer.{DetectResult, no_result, Detector}
use arxsentinel.Detectors.{Params}
use arxsentinel.State.ApproxRate.{approx_rate, seconds}

module _ (f : Doubles) where
  pub record RateDetector : Type 0 where
    pub threshold_rps : f.Double
    pub window : ℤ
    pub score : ℤ

  -- The errors of the factory.
  pub data RateError : Type 0 where
    bad_window bad_threshold : RateError

  pub data Built : Type 0 where
    built : RateDetector → Built
    refused : RateError → Built

  unfoldable pub new_rate : Params f → Built
  unfolding seconds
  new_rate p =
      let threshold = p.get_int (codes "threshold") (pos 100) in
      let window = p.get_duration (codes "window") (pos 60000000000) in
      let score = p.get_int (codes "score") (pos 25) in
      if leb_ℤ window (pos 0)
      then refused bad_window
      else if leb_ℤ threshold (pos 0)
      then refused bad_threshold
      else built (record {
        threshold_rps = f.div (f.of_int threshold) (seconds f (pos_part window));
        window = window;
        score = score;
      })

  unfoldable pub detect_rate : RateDetector → ℕ → IpState → DetectResult
  unfolding approx_rate
  detect_rate d clock s =
      if f.le (approx_rate f clock d.window s) d.threshold_rps then no_result else record {
        score = d.score;
        module_name = codes "rate";
        reason = codes "rate:threshold_exceeded";
      }

  abbrev pub rate : RateDetector → Detector
  rate d = record { name = codes "rate"; detect = λ clock e s. (detect_rate d clock s, s) }
