-- ===== src/Detectors/Badbot.antt =====
-- pkg/detectorplugins/badbot/badbot.go. The matcher is the plugin interface's MatchResult: the
-- name of a list and a text give the pattern that matched.

use arxsentinel.Common.{
  Bool, true, false, not, ◌&&◌, Option, none, some, ◌++◌, if◌then◌else◌, is_empty, Text, codes,
  text_eq, to_lower,
}
use arxsentinel.Common.Int.{ℤ, pos}
use arxsentinel.Common.Doubles.{Doubles}
use arxsentinel.Event.{LogEntry}
use arxsentinel.Scorer.{DetectResult, no_result, Detector}
use arxsentinel.Detectors.{Params}

abbrev pub Matcher : Type 0
Matcher = Text → Text → Option Text

abbrev pub noop_matcher : Matcher
noop_matcher list text = none

pub record BadbotDetector : Type 0 where
  pub mgr : Matcher
  pub score : ℤ
  pub check_ua : Bool
  pub check_referrer : Bool

-- The shared resources' blocklist, absent if there is none.
unfoldable pub new_badbot : (f : Doubles) → Params f → Option Matcher → BadbotDetector
new_badbot f p blocklist = record {
  mgr = elim blocklist [ none ↦ noop_matcher | some m ↦ m ];
  score = p.get_int (codes "score") (pos 60);
  check_ua = p.get_bool (codes "check_ua") true;
  check_referrer = p.get_bool (codes "check_referrer") false;
}

-- A field of the entry in lower case, if it is not missing.
unfoldable pub present : Text → Bool
present t = not (is_empty t) && not (text_eq t (codes "-"))

unfoldable pub lookup_in : BadbotDetector → Bool → Text → Text → Option Text
lookup_in d checked list text = if checked && present text then d.mgr list text else none

unfoldable pub detect_badbot : (Text → Text) → BadbotDetector → LogEntry → DetectResult
unfolding present lookup_in
detect_badbot other d e =
    elim (lookup_in d d.check_ua (codes "badbot-ua") (to_lower other e.user_agent)) [
      | some p ↦ record { score = d.score; module_name = codes "badbot"; reason = codes "ua=" ++ p }
      | none ↦ elim (lookup_in d d.check_referrer (codes "badbot-ref") (to_lower other e.referer)) [
        | some p ↦ record {
          score = d.score;
          module_name = codes "badbot";
          reason = codes "ref=" ++ p;
        }
        | none ↦ no_result
      ]
    ]

abbrev pub badbot : (Text → Text) → BadbotDetector → Detector
badbot other d = record {
  name = codes "badbot";
  detect = λ clock e s. (detect_badbot other d e, s);
}
