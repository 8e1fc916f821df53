-- ===== src/Config/Outputs.antt =====
-- internal/sys/config/config.go: what validateSinks lets through.

use arxsentinel.Common.{◌≡◌, ◌≢◌, ◌⊎◌, true, false, List, [], ◌∷◌, is_empty, Text, codes, mem}
use arxsentinel.Config.{Queues, SinkConfig}

module _ (quote : Text → Text) (q : Queues) where
  -- What each type of sink asks for.
  abbrev pub HasFields : SinkConfig q → Type 0
  HasFields s =
      ((s.sink_type ≢ codes "file") ⊎ (is_empty s.path ≡ false))
      × ((s.sink_type ≢ codes "loki")
          ⊎ ((is_empty s.loki_url ≡ false) × (is_empty s.loki_labels ≡ false)))
      × ((s.sink_type ≢ codes "splunk")
          ⊎ ((is_empty s.splunk_url ≡ false) × (is_empty s.splunk_token ≡ false)))
      × ((s.sink_type ≢ codes "datadog")
          ⊎ ((is_empty s.datadog_url ≡ false) × (is_empty s.datadog_api_key ≡ false)))

  -- The formats, the empty one being the default.
  abbrev pub formats : List Text
  formats = [] ∷ codes "fail2ban" ∷ codes "json" ∷ codes "sentinel-threat" ∷ codes "raw-line" ∷ []

  -- An entry has the fields that its type needs and a known format, and raw lines go to a sink of
  -- the type sentinel-threat only.
  abbrev pub IsValidSink : SinkConfig q → Type 0
  IsValidSink s =
      HasFields s
      × (mem s.format formats ≡ true)
      × ((s.format ≢ codes "raw-line") ⊎ (s.sink_type ≡ codes "sentinel-threat"))
