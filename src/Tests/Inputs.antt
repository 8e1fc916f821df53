-- ===== src/Tests/Inputs.antt =====
-- Inputs that the tests share.

use arxsentinel.Common.{ℕ, [], ◌∷◌, Text, codes}
use arxsentinel.Common.Int.{ℤ, pos}
use arxsentinel.Event.{LogEntry}
use arxsentinel.State.{IpState, Tracker, new_state, new_tracker, update}
use arxsentinel.Scorer.{DetectResult, Detector, Scorer, no_result}

abbrev pub ip_a : Text
ip_a = codes "10.0.0.1"

abbrev pub ip_b : Text
ip_b = codes "10.0.0.2"

abbrev pub ip_c : Text
ip_c = codes "10.0.0.3"

abbrev pub request : Text → Text → ℕ → LogEntry
request ip path at = record {
  real_ip = ip;
  remote_addr = ip;
  time = at;
  method = codes "GET";
  path = path;
  query = [];
  raw_uri = path;
  protocol = codes "HTTP/1.1";
  status = 404;
  bytes_sent = 0;
  referer = [];
  user_agent = codes "curl/8";
  remote_user = [];
  chain_issue = [];
}

-- A tracker for two addresses, with a window of 60 and a retention of 100.
abbrev pub empty_tracker : Tracker
empty_tracker = new_tracker 2 (pos 60) 100

abbrev pub one_address : Tracker
one_address = (update (request ip_a (codes "/x") 1000) empty_tracker).0

abbrev pub two_addresses : Tracker
two_addresses = (update (request ip_b (codes "/y") 1010) one_address).0

abbrev pub fresh : IpState
fresh = new_state ip_a 1000

abbrev pub scored_state : IpState
scored_state = record fresh { score = pos 40; score_updated_at = 1000 }

-- A detector that always gives the same result.
abbrev pub always : Text → DetectResult → Detector
always name r = record { name = name; detect = λ clock e s. (r, s) }

abbrev pub hit_of : Text → ℤ → DetectResult
hit_of name score = record { score = score; module_name = name; reason = codes "why" }

abbrev pub two_detectors : Scorer
two_detectors = record {
  alert_threshold = pos 50;
  ban_threshold = pos 80;
  window = 300;
  detectors =
      always (codes "ua") (hit_of (codes "ua") (pos 40))
      ∷ always (codes "rate") (hit_of (codes "rate") (pos 25))
      ∷ [];
}

abbrev pub silent_scorer : Scorer
silent_scorer = record two_detectors { detectors = always (codes "ua") no_result ∷ [] }
