-- ===== src/Config/Checks.antt =====
-- internal/sys/config/config.go: validateConfig.

use arxsentinel.Common.{
  ℕ, ◌+◌, Bool, not, ◌&&◌, Option, none, some, List, [], ◌∷◌, ◌++◌, if◌then◌else◌, tests, is_empty,
  Text, codes, mem,
}
use arxsentinel.Common.Int.{pos, leb_ℤ}
use arxsentinel.Common.{show_int}
use arxsentinel.Config.{
  Queues, SinkConfig, PipelineConfig, StreamConfig, ExecutorTopConfig, ScoringConfig,
  DetectorsConfig, ListConfig, ChainGuardConfig, Config, fail_if, first_error, first_failure,
  first_error_at, first_error_keyed, at, not_positive,
}
use arxsentinel.Config.Inputs.{validate_inputs}
use arxsentinel.Config.Sinks.{validate_sinks}
use arxsentinel.Config.Transport.{validate_transport_config, validate_transport_wiring}

abbrev pub scoring_tests : ScoringConfig → List (Bool × Text)
scoring_tests s =
    not_positive (codes "scoring.alert_threshold") s.alert_threshold
    ∷ not_positive (codes "scoring.ban_threshold") s.ban_threshold
    ∷ (
      leb_ℤ s.ban_threshold s.alert_threshold,
      codes "scoring.ban_threshold ("
          ++ (show_int s.ban_threshold
              ++ (codes ") must be > alert_threshold ("
                  ++ (show_int s.alert_threshold ++ codes ")"))),
    )
    ∷ (leb_ℤ s.observation_window (pos 0), codes "scoring.observation_window must be > 0")
    ∷ []

unfoldable pub check_scoring : ScoringConfig → Option Text
check_scoring s = first_failure (scoring_tests s)

-- Of each detector, whether it is enabled, and what is tested then.
abbrev pub detector_tests : DetectorsConfig → List (Bool × List (Bool × Text))
detector_tests d =
    (d.probe.enabled, not_positive (codes "detectors.probe.score") d.probe.score ∷ [])
    ∷ (
      d.bruteforce.enabled,
      not_positive (codes "detectors.bruteforce.min_requests") d.bruteforce.min_requests
          ∷ not_positive (codes "detectors.bruteforce.score") d.bruteforce.score
          ∷ [],
    )
    ∷ (
      d.crawler.enabled,
      not_positive (codes "detectors.crawler.min_sequential") d.crawler.min_sequential
          ∷ not_positive (codes "detectors.crawler.score") d.crawler.score
          ∷ [],
    )
    ∷ (
      d.noasset.enabled,
      not_positive (codes "detectors.noasset.min_page_requests") d.noasset.min_page_requests
          ∷ not_positive (codes "detectors.noasset.score") d.noasset.score
          ∷ [],
    )
    ∷ (
      d.rate.enabled,
      not_positive (codes "detectors.rate.threshold") d.rate.threshold
          ∷ not_positive (codes "detectors.rate.window") d.rate.window
          ∷ not_positive (codes "detectors.rate.score") d.rate.score
          ∷ [],
    )
    ∷ (
      d.useragent.enabled,
      not_positive (codes "detectors.useragent.scanner_score") d.useragent.scanner_score
          ∷ not_positive (codes "detectors.useragent.grabber_score") d.useragent.grabber_score
          ∷ not_positive (codes "detectors.useragent.automation_score") d.useragent.automation_score
          ∷ not_positive (codes "detectors.useragent.empty_ua_score") d.useragent.empty_ua_score
          ∷ [],
    )
    ∷ (
      d.overflow.enabled,
      not_positive (codes "detectors.overflow.max_url_length") d.overflow.max_url_length
          ∷ not_positive (codes "detectors.overflow.score") d.overflow.score
          ∷ [],
    )
    ∷ (d.badbot.enabled, not_positive (codes "detectors.badbot.score") d.badbot.score ∷ [])
    ∷ []

abbrev pub first_enabled : List (Bool × List (Bool × Text)) → Option Text
first_enabled [] = none
first_enabled ((enabled, tests) ∷ rest) =
    first_error ((if enabled then first_failure tests else none) ∷ first_enabled rest ∷ [])

unfoldable pub check_detectors : DetectorsConfig → Option Text
check_detectors d = first_enabled (detector_tests d)

unfoldable pub check_chain_guard : ChainGuardConfig → Option Text
check_chain_guard c = first_failure (
    (
      c.enabled && is_empty c.warnings_log,
      codes "chain_guard.warnings_log must be set when chain_guard is enabled",
    )
    ∷ (
      c.cloudflare_enabled && is_empty c.cloudflare_sources,
      codes "chain_guard.cloudflare.sources must not be empty when cloudflare check is enabled",
    )
    ∷ [])

-- An error, under the text of the place.
abbrev pub within : Text → Option Text → Option Text
within place none = none
within place (some e) = some (place ++ e)

-- parses_ip holds of the texts that net.ParseIP reads; quote is the verb %q.
module _ (parses_ip : Text → Bool) (quote : Text → Text) (q : Queues) where
  -- The dash of the message is three bytes.
  unfoldable pub check_sink_name : ℕ → SinkConfig q → Option Text
  check_sink_name i sink = fail_if (not (is_empty sink.name) && parses_ip sink.name) (
      codes "outputs: sink name "
      ++ (quote sink.name
          ++ (codes " looks like an IP address "
              ++ ((226 ∷ 128 ∷ 148 ∷ []) ++ codes " use a descriptive name"))))

  abbrev no_check : ℕ → ExecutorTopConfig q → Option Text
  no_check i ex = none

  unfoldable pub check_executor_names : List (ExecutorTopConfig q) → Option Text
  check_executor_names executors =
      first_error_keyed (λ (ex : ExecutorTopConfig q). ex.name) no_check no_check
        (λ i (ex : ExecutorTopConfig q).
          some (codes "executors: duplicate executor name " ++ quote ex.name))
        0 [] executors

  abbrev named_list : ℕ → ListConfig → Text
  named_list i l = at (codes "blocklist.lists") i ++ (codes " (" ++ (quote l.name ++ codes ")"))

  unfoldable pub check_list : ℕ → ListConfig → Option Text
  check_list i l = first_error (
      fail_if (is_empty l.name) (at (codes "blocklist.lists") i ++ codes ".name must not be empty")
      ∷ fail_if (leb_ℤ l.refresh_interval (pos 0))
          (named_list i l ++ codes ": refresh_interval must be > 0")
      ∷ fail_if (is_empty l.source_urls) (named_list i l ++ codes ": must have at least one source")
      ∷ first_error_at
          (λ j (url : Text).
            fail_if (is_empty url)
              (named_list i l ++ (at (codes " sources") j ++ codes ": url must not be empty")))
          0 l.source_urls
      ∷ [])

  -- The checks of a pipeline but for that of its name.
  abbrev pub pipeline_checks : ℕ → ℕ → PipelineConfig q → List (Option Text)
  pipeline_checks i j p =
      let place : Text = at (codes "streams") i ++ at (codes ".pipelines") j in
      fail_if (is_empty p.inputs) (place ++ codes ": must have at least one input")
      ∷ fail_if (is_empty p.outputs) (place ++ codes ": must have at least one output")
      ∷ within (place ++ codes ".inputs: ") (validate_inputs quote q p.inputs)
      ∷ within (place ++ codes ".outputs: ") (validate_sinks quote q p.outputs)
      ∷ []

  unfoldable pub check_pipeline_io : ℕ → ℕ → PipelineConfig q → Option Text
  unfolding validate_inputs validate_sinks
  check_pipeline_io i j p = first_error (pipeline_checks i j p)

  -- The loop over the pipelines of a stream; names holds those seen, the empty name is none.
  unfoldable pub check_pipelines : ℕ → ℕ → List Text → List (PipelineConfig q) → Option Text
  unfolding check_pipeline_io
  check_pipelines i j names [] = none
  check_pipelines i j names (p ∷ rest) =
      let seen : List Text = if is_empty p.name then names else p.name ∷ names in
      first_error (
        fail_if (not (is_empty p.name) && mem p.name names)
          (at (codes "streams") i ++ (codes ": duplicate pipeline name " ++ quote p.name))
        ∷ check_pipeline_io i j p
        ∷ check_pipelines i (j + 1) seen rest
        ∷ [])

  unfoldable pub check_stream : ℕ → StreamConfig q → Option Text
  unfolding check_pipelines
  check_stream i s = first_error (
      fail_if (is_empty s.pipelines) (
        at (codes "streams") i
        ++ codes
            ": must have at least one pipeline (Migrate() should have auto-wrapped inputs/outputs)")
      ∷ check_pipelines i 0 [] s.pipelines
      ∷ [])

  abbrev pub config_checks : Config q → List (Option Text)
  config_checks cfg =
      first_error_at check_sink_name 0 cfg.outputs
      ∷ check_executor_names cfg.executors
      ∷ check_scoring cfg.scoring
      ∷ first_failure (not_positive (codes "state.max_tracked_ips") cfg.max_tracked_ips ∷ [])
      ∷ check_detectors cfg.detectors
      ∷ first_error_at check_list 0 cfg.blocklist_lists
      ∷ check_chain_guard cfg.chain_guard
      ∷ fail_if (not (is_empty cfg.metrics_username) && is_empty cfg.metrics_password_hash)
          (codes "metrics.password_hash must be set when metrics.username is configured")
      ∷ first_error_at check_stream 0 cfg.streams
      ∷ validate_inputs quote q cfg.inputs
      ∷ validate_sinks quote q cfg.outputs
      ∷ fail_if (not (leb_ℤ (pos 0) cfg.buffer_size))
          (codes "pipeline.buffer_size must be >= 0, got " ++ show_int cfg.buffer_size)
      ∷ fail_if (not (leb_ℤ (pos 0) cfg.shutdown_timeout))
          (codes "pipeline.shutdown_timeout must be >= 0")
      ∷ validate_transport_config cfg.transport
      ∷ validate_transport_wiring quote q cfg
      ∷ []

  unfoldable pub validate_config : Config q → Option Text
  unfolding check_scoring check_detectors check_chain_guard check_sink_name check_executor_names
      check_list check_stream validate_inputs validate_sinks validate_transport_config
      validate_transport_wiring
  validate_config cfg = first_error (config_checks cfg)
