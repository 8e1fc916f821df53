-- ===== src/Config/Transport.antt =====
-- internal/sys/config/config.go: validateTransportConfig and validateTransportWiring. quote is the
-- verb %q.

use arxsentinel.Common.{
  ℕ, not, ◌&&◌, Option, none, some, List, [], ◌∷◌, ◌++◌, map, if◌then◌else◌, is_empty, Text, codes,
  text_eq, mem,
}
use arxsentinel.Config.{
  Queues, InputConfig, SinkConfig, PipelineConfig, StreamConfig, ExecutorTopConfig, TransportPeer,
  TransportConfig, Config, fail_if, first_error, first_failure, first_error_at, at,
}

unfoldable pub validate_transport_config : TransportConfig → Option Text
validate_transport_config t =
    if not t.enabled
    then none
    else first_error (
        fail_if (is_empty t.identity_path)
          (codes "transport.identity must be set when transport.enabled is true")
        ∷ fail_if (is_empty t.known_nodes_path)
            (codes "transport.known_nodes must be set when transport.enabled is true")
        ∷ fail_if (is_empty t.listen)
            (codes "transport.listen must be set when transport.enabled is true")
        ∷ first_error_at
            (λ i (p : TransportPeer).
              fail_if (is_empty p.host)
                (at (codes "transport.peers") i ++ codes ".host must not be empty"))
            0 t.peers
        ∷ fail_if (not (is_empty t.peers) && is_empty t.pairing_secret)
            (codes "transport.pairing_secret must be set when transport.peers is non-empty")
        ∷ [])

module _ (quote : Text → Text) (q : Queues) where
  -- checkQueue, with the configuration and the place of the queue.
  unfoldable pub check_queue : TransportConfig → Text → Option q.Queue → Option Text
  check_queue t location none = none
  check_queue t location (some queue) =
      if not (text_eq (q.queue_type queue) q.transport_type)
      then none
      else first_error (
          fail_if (not t.enabled)
            (location ++ codes ": queue.type=transport requires transport.enabled: true")
          ∷ (if text_eq (q.effective_mode queue) (codes "recv")
              then none
              else first_failure (
                  (
                    is_empty (q.peer queue),
                    location
                        ++ (codes ": queue.peer is required for queue.type=transport (mode="
                            ++ (quote (q.effective_mode queue) ++ codes ")")),
                  )
                  ∷ (
                    not (mem (q.peer queue) (map (λ (p : TransportPeer). p.host) t.peers)),
                    location
                        ++ (codes ": queue.peer "
                            ++ (quote (q.peer queue)
                                ++ codes " does not match any transport.peers[].host")),
                  )
                  ∷ []))
          ∷ [])

  unfoldable pub check_outputs : TransportConfig → Text → List (SinkConfig q) → Option Text
  unfolding check_queue
  check_outputs t prefix outs =
      first_error_at (λ i (o : SinkConfig q). check_queue t (at prefix i) o.sink_queue) 0 outs

  unfoldable pub check_inputs : TransportConfig → Text → List (InputConfig q) → Option Text
  unfolding check_queue
  check_inputs t prefix ins =
      first_error_at (λ i (o : InputConfig q). check_queue t (at prefix i) o.input_queue) 0 ins

  unfoldable pub check_pipeline : TransportConfig → ℕ → ℕ → PipelineConfig q → Option Text
  unfolding check_outputs check_inputs
  check_pipeline t i j p =
      let place : Text = at (codes "streams") i ++ at (codes ".pipelines") j in
      first_error (
        check_outputs t (place ++ codes ".outputs") p.outputs
        ∷ check_inputs t (place ++ codes ".inputs") p.inputs
        ∷ [])

  unfoldable pub check_stream : TransportConfig → ℕ → StreamConfig q → Option Text
  unfolding check_pipeline
  check_stream t i s = first_error (
      check_outputs t (at (codes "streams") i ++ codes ".outputs") s.outputs
      ∷ check_inputs t (at (codes "streams") i ++ codes ".inputs") s.inputs
      ∷ first_error_at (λ j (p : PipelineConfig q). check_pipeline t i j p) 0 s.pipelines
      ∷ [])

  unfoldable pub check_executor : TransportConfig → ℕ → ExecutorTopConfig q → Option Text
  unfolding check_queue
  check_executor t i ex =
      first_error_at
        (λ j (source : Option q.Queue).
          check_queue t (at (codes "executors") i ++ at (codes ".sources") j) source)
        0 ex.sources

  unfoldable pub validate_transport_wiring : Config q → Option Text
  unfolding check_outputs check_inputs check_stream check_executor
  validate_transport_wiring cfg =
      let t : TransportConfig = cfg.transport in
      first_error (
        check_outputs t (codes "outputs") cfg.outputs
        ∷ check_inputs t (codes "inputs") cfg.inputs
        ∷ first_error_at (λ i (s : StreamConfig q). check_stream t i s) 0 cfg.streams
        ∷ first_error_at (λ i (ex : ExecutorTopConfig q). check_executor t i ex) 0 cfg.executors
        ∷ [])
