-- ===== src/Tests/Lines.antt =====
-- Lines through the pipeline at concrete inputs.

use arxsentinel.Common.{◌≡◌, refl, false, none, [], ◌∷◌, codes, text_eq, has_prefix, join, mem}
use arxsentinel.Common.Dict.{get, put}
use arxsentinel.Common.Int.{pos, ◌+ℤ◌}
use arxsentinel.Event.{LogEntry}
use arxsentinel.Common.Doubles.{thousandths}
use arxsentinel.State.{update, new_tracker}
use arxsentinel.State.Tracked.{IsConsistent}
use arxsentinel.Scorer.{threat, evaluate, run_one}
use arxsentinel.Pipeline.{Security, Moment, PipelineState, ThreatEvent, threat_found, process}
use arxsentinel.Pipeline.Kept.{process-IsConsistent}
use arxsentinel.Pipeline.Recorded.{Told, process-Told}
use arxsentinel.Whitelist.{is_whitelisted_ip, is_whitelisted_ua, is_whitelisted_path, match_bot}
use arxsentinel.Tests.Inputs.{ip_a, request, two_addresses, two_detectors}
use arxsentinel.Tests.States.{two-IsConsistent}
use arxsentinel.Tests.Guards.{few, matcher, genuine, no_answers}

abbrev security : Security
security = record {
  raw_forward = false;
  chain = none;
  matcher = matcher;
  resolver = genuine;
  scorer = record two_detectors { ban_threshold = pos 60 };
  waf = none;
  fake_bot_score = pos 50;
}

abbrev moment : Moment
moment = record {
  waf_scored_at = 1020;
  cache_read_at = 1020;
  cache_set_at = 1021;
  penalty_at = 1021;
  scored_at = 1022;
  detected_at = 1022;
  stamped_at = 1023;
  cancelled = false;
}

abbrev start : PipelineState
start = record { tracker = two_addresses; cache = no_answers; warnings = [] }

abbrev entry : LogEntry
entry = request ip_a (codes "/x") 1020

abbrev banned : ThreatEvent
banned = record {
  timestamp = 1023;
  level = threat;
  ip = ip_a;
  score = pos 65;
  modules = codes "ua" ∷ codes "rate" ∷ [];
  reason = codes "ua:why,rate:why";
}

emits : (process few thousandths security moment entry start).0 ≡ threat_found banned
unfolding process is_whitelisted_ip mem is_whitelisted_ua is_whitelisted_path text_eq has_prefix
    match_bot evaluate ◌+ℤ◌ update get put new_tracker run_one join
emits = refl

process-Told_example :
    Told few security entry banned (process few thousandths security moment entry start).1.tracker
process-Told_example = process-Told few thousandths security moment entry start banned emits

process-IsConsistent_example :
    IsConsistent (process few thousandths security moment entry start).1.tracker
process-IsConsistent_example =
    process-IsConsistent few thousandths security moment entry start two-IsConsistent
