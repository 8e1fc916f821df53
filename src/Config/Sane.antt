-- ===== src/Config/Sane.antt =====
-- internal/sys/config/config.go: what validateConfig lets through.

use arxsentinel.Common.{
  ℕ, ◌+◌, ◌<◌, ◌≡◌, refl, Bool, true, false, not, ◌&&◌, Option, none, some, List, [], ◌∷◌, ◌++◌,
  map, arith, if◌then◌else◌, tests, is_empty, All, Text, codes, mem, Distinct,
}
use arxsentinel.Common.Int.{ℤ, pos, pos_part, neg_part}
use arxsentinel.Config.{
  Queues, PipelineConfig, StreamConfig, ScoringConfig, DetectorsConfig, ExecutorTopConfig, Config,
  first_failure, first_failure_iff, first_error_iff, fail_if, fail_if_iff, at, first_error_at,
  not_positive,
}
use arxsentinel.Config.Keyed.{first_error_keyed_iff}
use arxsentinel.Config.Wired.{IsWiredConfig, validate_transport_wiring_iff}
use arxsentinel.Config.Inputs.{validate_inputs}
use arxsentinel.Config.Sinks.{validate_sinks}
use arxsentinel.Config.Checks.{
  scoring_tests, check_scoring, detector_tests, first_enabled, within, check_executor_names,
  check_detectors, pipeline_checks, check_pipeline_io, check_pipelines, check_stream, config_checks,
  validate_config,
}

infix 50 ◌<ℤ◌
abbrev pub ◌<ℤ◌ : ℤ → ℤ → Type 0
a <ℤ b = pos_part a + neg_part b < pos_part b + neg_part a

passed :
    (tests : List (Bool × Text))
    → first_failure tests ≡ none
    → All (λ (t : Bool × Text). t.0 ≡ false) tests
passed tests h = (first_failure_iff tests).0 h

all_enabled :
    (ds : List (Bool × List (Bool × Text)))
    → first_enabled ds ≡ none
    → All
        (λ (d : Bool × List (Bool × Text)). d.0 ≡ true → All (λ (t : Bool × Text). t.0 ≡ false) d.1)
        ds
all_enabled [] h = tt
all_enabled ((enabled, tests) ∷ rest) h =
    let first : Option Text = if enabled then first_failure tests else none in
    let (one, (others, _)) = (first_error_iff (first ∷ first_enabled rest ∷ [])).0 h in
    (λ e. passed tests (rw e at one), all_enabled rest others)

-- The thresholds are ordered and the window is positive.
abbrev pub IsSaneScoring : ScoringConfig → Type 0
IsSaneScoring s =
    (pos 0 <ℤ s.alert_threshold)
    × (s.alert_threshold <ℤ s.ban_threshold)
    × (pos 0 <ℤ s.observation_window)

-- What the detectors divide by or count up to is positive where they are enabled.
abbrev pub AreSaneDetectors : DetectorsConfig → Type 0
AreSaneDetectors d =
    (d.bruteforce.enabled ≡ true → pos 0 <ℤ d.bruteforce.min_requests)
    × (d.crawler.enabled ≡ true → pos 0 <ℤ d.crawler.min_sequential)
    × (d.noasset.enabled ≡ true → pos 0 <ℤ d.noasset.min_page_requests)
    × (d.rate.enabled ≡ true → (pos 0 <ℤ d.rate.threshold) × (pos 0 <ℤ d.rate.window))
    × (d.overflow.enabled ≡ true → pos 0 <ℤ d.overflow.max_url_length)

check_scoring-IsSaneScoring : (s : ScoringConfig) → check_scoring s ≡ none → IsSaneScoring s
unfolding check_scoring
check_scoring-IsSaneScoring s h =
    let (alert, (ban, (order, (window, _)))) = passed (scoring_tests s) h in
    (ground arith, ground arith, ground arith)

check_detectors-AreSaneDetectors :
    (d : DetectorsConfig) → check_detectors d ≡ none → AreSaneDetectors d
unfolding check_detectors
check_detectors-AreSaneDetectors d h =
    let (probe, (brute, (crawl, (asset, (rate, (agent, (flow, _))))))) =
      all_enabled (detector_tests d) h in
    (
      λ e. let test = (brute e).0 in ground arith,
      λ e. let test = (crawl e).0 in ground arith,
      λ e. let test = (asset e).0 in ground arith,
      λ e. let count = (rate e).0 in let window = (rate e).1.0 in (ground arith, ground arith),
      λ e. let test = (flow e).0 in ground arith,
    )

within-none : (place : Text) (o : Option Text) → within place o ≡ none → o ≡ none
within-none place none h = refl
within-none place (some e) h = absurd (ground arith)

module _ (parses_ip : Text → Bool) (quote : Text → Text) (q : Queues) where
  -- It has inputs and outputs, which are valid.
  abbrev pub IsConnected : PipelineConfig q → Type 0
  IsConnected p =
      (is_empty p.inputs ≡ false)
      × (is_empty p.outputs ≡ false)
      × (validate_inputs quote q p.inputs ≡ none)
      × (validate_sinks quote q p.outputs ≡ none)

  abbrev pub IsConnectedStream : StreamConfig q → Type 0
  IsConnectedStream s = (is_empty s.pipelines ≡ false) × All IsConnected s.pipelines

  check_pipelines-IsConnected :
      (i j : ℕ) (names : List Text) (pipes : List (PipelineConfig q))
      → check_pipelines parses_ip quote q i j names pipes ≡ none
      → All IsConnected pipes
  unfolding check_pipelines check_pipeline_io
  check_pipelines-IsConnected i j names [] h = tt
  check_pipelines-IsConnected i j names (p ∷ rest) h =
      let (name, (one, (others, _))) =
        (first_error_iff (
            fail_if (not (is_empty p.name) && mem p.name names)
              (at (codes "streams") i ++ (codes ": duplicate pipeline name " ++ quote p.name))
            ∷ check_pipeline_io parses_ip quote q i j p
            ∷ check_pipelines parses_ip quote q i (j + 1)
                (if is_empty p.name then names else p.name ∷ names) rest
            ∷ [])).0
          h in
      let place : Text = at (codes "streams") i ++ at (codes ".pipelines") j in
      let (ins, (outs, (in_error, (out_error, _)))) =
        (first_error_iff (pipeline_checks parses_ip quote q i j p)).0 one in
      (
        (
          (fail_if_iff (is_empty p.inputs) _).0 ins,
          (fail_if_iff (is_empty p.outputs) _).0 outs,
          within-none (place ++ codes ".inputs: ") (validate_inputs quote q p.inputs) in_error,
          within-none (place ++ codes ".outputs: ") (validate_sinks quote q p.outputs) out_error,
        ),
        check_pipelines-IsConnected i (j + 1) (if is_empty p.name then names else p.name ∷ names)
            rest others,
      )

  all_streams :
      (i : ℕ) (streams : List (StreamConfig q))
      → first_error_at (check_stream parses_ip quote q) i streams ≡ none
      → All IsConnectedStream streams
  unfolding check_stream
  all_streams i [] h = tt
  all_streams i (s ∷ rest) h =
      let (one, (others, _)) =
        (first_error_iff (
            check_stream parses_ip quote q i s
            ∷ first_error_at (check_stream parses_ip quote q) (i + 1) rest
            ∷ [])).0
          h in
      let (some_pipes, (pipes, _)) =
        (first_error_iff (
            fail_if (is_empty s.pipelines) (
              at (codes "streams") i
              ++ codes
                  ": must have at least one pipeline (Migrate() should have auto-wrapped inputs/outputs)")
            ∷ check_pipelines parses_ip quote q i 0 [] s.pipelines
            ∷ [])).0
          one in
      (
        (
          (fail_if_iff (is_empty s.pipelines) _).0 some_pipes,
          check_pipelines-IsConnected i 0 [] s.pipelines pipes,
        ),
        all_streams (i + 1) rest others,
      )

  abbrev pub IsSane : Config q → Type 0
  IsSane cfg =
      IsSaneScoring cfg.scoring
      × (pos 0 <ℤ cfg.max_tracked_ips)
      × AreSaneDetectors cfg.detectors
      × Distinct (map (λ (ex : ExecutorTopConfig q). ex.name) cfg.executors)
      × All IsConnectedStream cfg.streams
      × IsWiredConfig quote q cfg

  executor_names :
      (executors : List (ExecutorTopConfig q))
      → check_executor_names parses_ip quote q executors ≡ none
      → Distinct (map (λ (ex : ExecutorTopConfig q). ex.name) executors)
  unfolding check_executor_names
  executor_names executors h =
      ((first_error_keyed_iff _ _ _ _ (λ (ex : ExecutorTopConfig q). Unit)
          (λ i ex. (λ e. tt, λ u. (refl, refl)), λ i ex. refl) executors).0
        h).1

  -- A configuration that validateConfig accepts has positive and ordered thresholds, a positive
  -- window and room for an address; what the detectors that are enabled count up to is positive;
  -- no two executors share a name; every stream has a pipeline, and every pipeline has inputs and
  -- outputs, which validateInputs and validateSinks accept; and every transport queue is wired.
  pub validate_config-IsSane :
      (cfg : Config q) → validate_config parses_ip quote q cfg ≡ none → IsSane cfg
  unfolding validate_config
  validate_config-IsSane cfg h =
      let (
        _,
        (
          names,
          (scores, (room, (found, (_, (_, (_, (streams, (_, (_, (_, (_, (_, (wired, _))))))))))))),
        ),
      ) =
        (first_error_iff (config_checks parses_ip quote q cfg)).0 h in
      let some_room =
        (passed (not_positive (codes "state.max_tracked_ips") cfg.max_tracked_ips ∷ []) room).0 in
      (
        check_scoring-IsSaneScoring cfg.scoring scores,
        ground arith,
        check_detectors-AreSaneDetectors cfg.detectors found,
        executor_names cfg.executors names,
        all_streams 0 cfg.streams streams,
        (validate_transport_wiring_iff quote q cfg).0 wired,
      )
