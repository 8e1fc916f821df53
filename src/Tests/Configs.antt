-- ===== src/Tests/Configs.antt =====
-- The validation of the configuration at concrete inputs.

use arxsentinel.Common.{
  ◌≡◌, refl, ◌↔◌, Bool, true, false, none, some, [], ◌∷◌, ◌++◌, if◌then◌else◌, Text, codes, text_eq,
  mem,
}
use arxsentinel.Common.Int.{pos}
use arxsentinel.Common.{show_nat}
use arxsentinel.Config.{Queues, TransportConfig, InputConfig, SinkConfig, DetectorsConfig, Config}
use arxsentinel.Config.Inputs.{input_key}
use arxsentinel.Config.Sinks.{validate_sinks}
use arxsentinel.Config.Transport.{validate_transport_wiring}
use arxsentinel.Config.Checks.{validate_config}
use arxsentinel.Config.Wired.{IsWiredConfig, validate_transport_wiring_iff}
use arxsentinel.Config.Sane.{IsSane, validate_config-IsSane}

-- A queue is whether it is a transport queue, and its peer.
abbrev queues : Queues
queues = record {
  Queue = Bool × Text;
  queue_type = λ (b, p). if b then codes "transport" else codes "memory";
  peer = λ (b, p). p;
  effective_mode = λ x. codes "both";
  transport_type = codes "transport";
}

-- The verb %q on texts that need no escape.
abbrev quotes : Text → Text
quotes s = codes "\"" ++ (s ++ codes "\"")

abbrev no_ip : Text → Bool
no_ip s = false

abbrev log_file : InputConfig queues
log_file = record {
  input_type = codes "file";
  path = codes "/a.log";
  addr = [];
  mode = [];
  url = [];
  tls_cert = [];
  tls_key = [];
  protocol = [];
  envelope_field = [];
  pull_interval = [];
  input_queue = none;
}

abbrev console : SinkConfig queues
console = record {
  sink_type = codes "stdout";
  name = [];
  path = [];
  format = codes "json";
  sink_queue = none;
  loki_url = [];
  loki_labels = [];
  splunk_url = [];
  splunk_token = [];
  datadog_url = [];
  datadog_api_key = [];
}

abbrev channel : Text → SinkConfig queues
channel name = record console {
  sink_type = codes "sentinel-threat";
  name = name;
  sink_queue = some (true, codes "peer:1");
}

abbrev node : TransportConfig
node = record {
  enabled = true;
  identity_path = codes "id";
  known_nodes_path = codes "known";
  listen = codes ":1";
  peers = record { host = codes "peer:1"; fingerprint = [] } ∷ [];
  pairing_secret = codes "s";
}

abbrev detectors : DetectorsConfig
detectors = record {
  probe = record { enabled = true; score = pos 25 };
  bruteforce = record { enabled = true; min_requests = pos 10; score = pos 30 };
  crawler = record { enabled = true; min_sequential = pos 5; score = pos 20 };
  noasset = record { enabled = false; min_page_requests = pos 0; score = pos 0 };
  rate = record { enabled = true; window = pos 60; threshold = pos 100; score = pos 25 };
  useragent = record {
    enabled = true;
    scanner_score = pos 40;
    grabber_score = pos 20;
    automation_score = pos 15;
    empty_ua_score = pos 30;
  };
  overflow = record { enabled = true; max_url_length = pos 2048; score = pos 30 };
  badbot = record { enabled = true; score = pos 60 };
}

abbrev good : Config queues
good = record {
  scoring = record {
    alert_threshold = pos 50;
    ban_threshold = pos 80;
    observation_window = pos 300;
  };
  max_tracked_ips = pos 1000;
  detectors = detectors;
  blocklist_lists = [];
  chain_guard = record {
    enabled = false;
    warnings_log = [];
    cloudflare_enabled = false;
    cloudflare_sources = [];
  };
  metrics_username = [];
  metrics_password_hash = [];
  streams =
      record {
        pipelines =
            record {
              name = codes "p";
              inputs = log_file ∷ [];
              outputs = console ∷ channel (codes "bans") ∷ [];
            }
            ∷ [];
        inputs = [];
        outputs = [];
      }
      ∷ [];
  inputs = [];
  outputs = [];
  executors = record { name = codes "e"; sources = some (true, codes "peer:1") ∷ [] } ∷ [];
  buffer_size = pos 8192;
  shutdown_timeout = pos 15;
  transport = node;
}

accepts : validate_config no_ip quotes queues good ≡ none
unfolding validate_config input_key text_eq mem
accepts = refl

-- Two named channels have the same type and no path, so that the second counts as a repetition.
refuses :
    validate_sinks quotes queues (channel (codes "a") ∷ channel (codes "b") ∷ [])
    ≡ some (codes "outputs[1]: duplicate sink \"sentinel-threat:\"")
unfolding validate_sinks show_nat mem text_eq
refuses = refl

validate_config-IsSane_example : IsSane no_ip quotes queues good
validate_config-IsSane_example = validate_config-IsSane no_ip quotes queues good accepts

validate_transport_wiring_iff_example :
    (validate_transport_wiring quotes queues good ≡ none) ↔ IsWiredConfig quotes queues good
validate_transport_wiring_iff_example = validate_transport_wiring_iff quotes queues good
