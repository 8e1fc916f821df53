-- ===== src/Config/Sinks.antt =====
-- internal/sys/config/config.go: validateSinks. quote is the verb %q.

use arxsentinel.Common.{
  ℕ, Bool, not, ◌&&◌, ◌||◌, Option, none, some, List, [], ◌∷◌, ◌++◌, is_empty, Text, codes, text_eq,
}
use arxsentinel.Config.{Queues, SinkConfig, first_failure, first_error_keyed, at}

module _ (quote : Text → Text) (q : Queues) where
  unfoldable pub sink_key : SinkConfig q → Text
  sink_key s = s.sink_type ++ (codes ":" ++ s.path)

  abbrev is_type : SinkConfig q → Text → Bool
  is_type s t = text_eq s.sink_type t

  abbrev is_format : SinkConfig q → Text → Bool
  is_format s t = text_eq s.format t

  -- The conditions under which an entry is refused, whatever the other entries are.
  unfoldable pub misses_path : SinkConfig q → Bool
  misses_path s = is_type s (codes "file") && is_empty s.path

  unfoldable pub misses_loki : SinkConfig q → Bool
  misses_loki s = is_type s (codes "loki") && (is_empty s.loki_url || is_empty s.loki_labels)

  unfoldable pub misses_splunk : SinkConfig q → Bool
  misses_splunk s = is_type s (codes "splunk") && (is_empty s.splunk_url || is_empty s.splunk_token)

  unfoldable pub misses_datadog : SinkConfig q → Bool
  misses_datadog s =
      is_type s (codes "datadog") && (is_empty s.datadog_url || is_empty s.datadog_api_key)

  unfoldable pub unknown_format : SinkConfig q → Bool
  unknown_format s =
      not (is_empty s.format)
      && not (is_format s (codes "fail2ban"))
      && not (is_format s (codes "json"))
      && not (is_format s (codes "sentinel-threat"))
      && not (is_format s (codes "raw-line"))

  unfoldable pub misplaced_raw_line : SinkConfig q → Bool
  misplaced_raw_line s = is_format s (codes "raw-line") && not (is_type s (codes "sentinel-threat"))

  abbrev of_output : ℕ → Text → Text
  of_output i message = at (codes "outputs") i ++ (codes ": " ++ message)

  abbrev no_check : ℕ → SinkConfig q → Option Text
  no_check i s = none

  unfoldable pub repeated_sink : ℕ → SinkConfig q → Option Text
  unfolding sink_key
  repeated_sink i s = some (of_output i (codes "duplicate sink " ++ quote (sink_key s)))

  abbrev pub sink_tests : ℕ → SinkConfig q → List (Bool × Text)
  sink_tests i s =
      (misses_path s, of_output i (codes "type=file requires path"))
      ∷ (misses_loki s, of_output i (codes "type=loki requires loki_url and loki_labels"))
      ∷ (misses_splunk s, of_output i (codes "type=splunk requires splunk_url and splunk_token"))
      ∷ (
        misses_datadog s,
        of_output i (codes "type=datadog requires datadog_url and datadog_api_key"),
      )
      ∷ (
        unknown_format s,
        of_output i (
            codes "unknown format "
            ++ (quote s.format ++ codes " (want fail2ban, json, sentinel-threat, or raw-line)")),
      )
      ∷ (
        misplaced_raw_line s,
        of_output i (codes "format=raw-line is only valid for type=sentinel-threat"),
      )
      ∷ []

  unfoldable pub sink_error : ℕ → SinkConfig q → Option Text
  unfolding misses_path misses_loki misses_splunk misses_datadog unknown_format misplaced_raw_line
  sink_error i s = first_failure (sink_tests i s)

  -- The key is tested first in the loop, and then the fields.
  unfoldable pub validate_sinks : List (SinkConfig q) → Option Text
  unfolding sink_key repeated_sink sink_error
  validate_sinks sinks = first_error_keyed sink_key no_check sink_error repeated_sink 0 [] sinks
