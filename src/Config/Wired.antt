-- ===== src/Config/Wired.antt =====
-- internal/sys/config/config.go: what validateTransportWiring lets through.

use arxsentinel.Common.{
  ℕ, ◌≡◌, refl, ◌↔◌, ◌⊎◌, Bool, true, false, not, Option, none, some, List, [], ◌∷◌, ◌++◌, map,
  arith, if◌then◌else◌, is_empty, All, Text, codes, text_eq, mem,
}
use arxsentinel.Config.{
  Queues, InputConfig, SinkConfig, PipelineConfig, StreamConfig, ExecutorTopConfig, TransportPeer,
  TransportConfig, Config, fail_if, first_error, first_error_iff, first_failure, first_error_at,
  first_error_at_iff, at,
}
use arxsentinel.Config.Transport.{
  check_queue, check_outputs, check_inputs, check_pipeline, check_stream, check_executor,
  validate_transport_wiring,
}

tests_iff :
    (same enabled receives unnamed known : Bool) (first second third : Text)
    → ((if not same
          then none
          else first_error (
              fail_if (not enabled) first
              ∷ (if receives
                  then none
                  else first_failure ((unnamed, second) ∷ (not known, third) ∷ []))
              ∷ []))
        ≡ none)
      ↔ (same ≡ true
          → (enabled ≡ true) × ((receives ≡ true) ⊎ ((unnamed ≡ false) × (known ≡ true))))
tests_iff same enabled receives unnamed known first second third = ground arith

both_iff :
    {a b : Option Text} {P Q : Type 0}
    → ((a ≡ none) ↔ P)
    → ((b ≡ none) ↔ Q)
    → (first_error (a ∷ b ∷ []) ≡ none) ↔ (P × Q)
both_iff {a} {b} (of_a, a_of) (of_b, b_of) =
    let (there, back) = first_error_iff (a ∷ b ∷ []) in
    (λ h. (of_a (there h).0, of_b (there h).1.0), λ (p, r). back (a_of p, (b_of r, tt)))

last_iff : {a : Option Text} {P : Type 0} → ((a ≡ none) ↔ P) → (first_error (a ∷ []) ≡ none) ↔ P
last_iff {a} (of_a, a_of) =
    let (there, back) = first_error_iff (a ∷ []) in (λ h. of_a (there h).0, λ p. back (a_of p, tt))

rest_iff :
    (rest : List (Option Text)) {a b : Option Text} {P Q R : Type 0}
    → ((a ≡ none) ↔ P)
    → ((b ≡ none) ↔ Q)
    → ((first_error rest ≡ none) ↔ R)
    → (first_error (a ∷ b ∷ rest) ≡ none) ↔ ((P × Q) × R)
rest_iff rest {a} {b} (of_a, a_of) (of_b, b_of) (of_rest, rest_of) =
    let (there, back) = first_error_iff (a ∷ b ∷ rest) in
    let (there_rest, back_rest) = first_error_iff rest in
    (
      λ h. let (x, (y, z)) = there h in ((of_a x, of_b y), of_rest (back_rest z)),
      λ ((p, r), z). back (a_of p, (b_of r, there_rest (rest_of z))),
    )

module _ (quote : Text → Text) (q : Queues) where
  -- A transport queue is used with the transport enabled, and receives or names a known peer.
  abbrev pub IsWired : TransportConfig → Option q.Queue → Type 0
  IsWired t none = Unit
  IsWired t (some queue) =
      text_eq (q.queue_type queue) q.transport_type ≡ true
      → (t.enabled ≡ true)
        × ((text_eq (q.effective_mode queue) (codes "recv") ≡ true)
            ⊎ ((is_empty (q.peer queue) ≡ false)
                × (mem (q.peer queue) (map (λ (p : TransportPeer). p.host) t.peers) ≡ true)))

  abbrev pub AreWired : TransportConfig → List (SinkConfig q) → List (InputConfig q) → Type 0
  AreWired t outs ins =
      All (λ (o : SinkConfig q). IsWired t o.sink_queue) outs
      × All (λ (o : InputConfig q). IsWired t o.input_queue) ins

  abbrev pub IsWiredStream : TransportConfig → StreamConfig q → Type 0
  IsWiredStream t s =
      AreWired t s.outputs s.inputs
      × All (λ (p : PipelineConfig q). AreWired t p.outputs p.inputs) s.pipelines

  abbrev pub IsWiredConfig : Config q → Type 0
  IsWiredConfig cfg =
      AreWired cfg.transport cfg.outputs cfg.inputs
      × (All (IsWiredStream cfg.transport) cfg.streams
          × All (λ (ex : ExecutorTopConfig q). All (IsWired cfg.transport) ex.sources)
              cfg.executors)

  check_queue_iff :
      (t : TransportConfig) (place : Text) (o : Option q.Queue)
      → (check_queue quote q t place o ≡ none) ↔ IsWired t o
  unfolding check_queue
  check_queue_iff t place none = (λ h. tt, λ h. refl)
  check_queue_iff t place (some queue) =
      tests_iff (text_eq (q.queue_type queue) q.transport_type) t.enabled
        (text_eq (q.effective_mode queue) (codes "recv")) (is_empty (q.peer queue))
        (mem (q.peer queue) (map (λ (p : TransportPeer). p.host) t.peers)) _ _ _

  check_outputs_iff :
      (t : TransportConfig) (prefix : Text) (outs : List (SinkConfig q))
      → (check_outputs quote q t prefix outs ≡ none)
        ↔ All (λ (o : SinkConfig q). IsWired t o.sink_queue) outs
  unfolding check_outputs
  check_outputs_iff t prefix outs =
      first_error_at_iff _ (λ (o : SinkConfig q). IsWired t o.sink_queue)
        (λ i o. check_queue_iff t (at prefix i) o.sink_queue) 0 outs

  check_inputs_iff :
      (t : TransportConfig) (prefix : Text) (ins : List (InputConfig q))
      → (check_inputs quote q t prefix ins ≡ none)
        ↔ All (λ (o : InputConfig q). IsWired t o.input_queue) ins
  unfolding check_inputs
  check_inputs_iff t prefix ins =
      first_error_at_iff _ (λ (o : InputConfig q). IsWired t o.input_queue)
        (λ i o. check_queue_iff t (at prefix i) o.input_queue) 0 ins

  check_pipeline_iff :
      (t : TransportConfig) (i j : ℕ) (p : PipelineConfig q)
      → (check_pipeline quote q t i j p ≡ none) ↔ AreWired t p.outputs p.inputs
  unfolding check_pipeline
  check_pipeline_iff t i j p =
      let place : Text = at (codes "streams") i ++ at (codes ".pipelines") j in
      both_iff (check_outputs_iff t (place ++ codes ".outputs") p.outputs)
        (check_inputs_iff t (place ++ codes ".inputs") p.inputs)

  check_stream_iff :
      (t : TransportConfig) (i : ℕ) (s : StreamConfig q)
      → (check_stream quote q t i s ≡ none) ↔ IsWiredStream t s
  unfolding check_stream
  check_stream_iff t i s =
      rest_iff
        (first_error_at (λ j (p : PipelineConfig q). check_pipeline quote q t i j p) 0 s.pipelines
          ∷ [])
        (check_outputs_iff t (at (codes "streams") i ++ codes ".outputs") s.outputs)
        (check_inputs_iff t (at (codes "streams") i ++ codes ".inputs") s.inputs)
        (last_iff (
          first_error_at_iff (λ j (p : PipelineConfig q). check_pipeline quote q t i j p)
            (λ (p : PipelineConfig q). AreWired t p.outputs p.inputs)
            (λ j p. check_pipeline_iff t i j p) 0 s.pipelines))

  check_executor_iff :
      (t : TransportConfig) (i : ℕ) (ex : ExecutorTopConfig q)
      → (check_executor quote q t i ex ≡ none) ↔ All (IsWired t) ex.sources
  unfolding check_executor
  check_executor_iff t i ex =
      first_error_at_iff _ (IsWired t)
        (λ j source. check_queue_iff t (at (codes "executors") i ++ at (codes ".sources") j) source)
        0 ex.sources

  -- validateTransportWiring finds no error exactly if every queue of the configuration, of its
  -- outputs and inputs at each level and of the sources of its executors, that has the type
  -- transport is used with the transport enabled and either receives or names a known peer.
  pub validate_transport_wiring_iff :
      (cfg : Config q) → (validate_transport_wiring quote q cfg ≡ none) ↔ IsWiredConfig cfg
  unfolding validate_transport_wiring
  validate_transport_wiring_iff cfg =
      let t = cfg.transport in
      rest_iff
        (first_error_at (λ i (s : StreamConfig q). check_stream quote q t i s) 0 cfg.streams
          ∷ first_error_at (λ i (ex : ExecutorTopConfig q). check_executor quote q t i ex) 0
              cfg.executors
          ∷ [])
        (check_outputs_iff t (codes "outputs") cfg.outputs)
        (check_inputs_iff t (codes "inputs") cfg.inputs)
        (both_iff
          (first_error_at_iff (λ i (s : StreamConfig q). check_stream quote q t i s)
            (IsWiredStream t) (λ i s. check_stream_iff t i s) 0 cfg.streams)
          (first_error_at_iff (λ i (ex : ExecutorTopConfig q). check_executor quote q t i ex)
            (λ (ex : ExecutorTopConfig q). All (IsWired t) ex.sources)
            (λ i ex. check_executor_iff t i ex) 0 cfg.executors))
