-- ===== src/Mikrotik/Counted.antt =====
-- pkg/executorplugins/mikrotik/executor.go: the counters over a whole run.

use arxsentinel.Common.{
  ℕ, suc, ◌+◌, ◌≡◌, refl, ap, ◌∙◌, inl, inr, not, ◌||◌, List, [], ◌∷◌, ◌++◌, arith, Option-cases,
  length, if_elim, is_empty, length-append, Text,
}
use arxsentinel.Common.Int.{ℤ, pos, leb_ℤ}
use arxsentinel.Bans.{Window, ThreatEvent}
use arxsentinel.Mikrotik.{
  Router, Config, Executor, flush, sweep, take_event, flush_tick, shut_down, Step, event,
  flush_timer, sweep_timer, step, run_steps, run, sync_existing, meets_min_level, is_duplicate,
}
use arxsentinel.Mikrotik.Flushed.{flush_lem}

module _ {D W : Type 0} (router : Router D) (win : Window W) (show_timeout : ℤ → Text)
    (cfg : Config) where
  -- The events that the counters know of, and with those in the buffer.
  abbrev pub counted : Executor D W → ℕ
  counted x = x.executed + (x.skipped + x.errors)

  abbrev pub known : Executor D W → ℕ
  known x = counted x + length x.buffer

  flush-counted :
      (now : ℕ) (evs : List ThreatEvent) (x : Executor D W)
      → counted (flush router win show_timeout cfg now evs x) ≡ counted x + length evs
  flush-counted now evs x =
      let (_, _, _, executed, errors, skipped) = flush_lem router win show_timeout cfg now evs x in
      omega (arith, executed, errors, skipped)

  permanent :
      (now : ℕ) (x : Executor D W) → cfg.ttl ≡ pos 0 → sweep router win show_timeout cfg now x ≡ x
  unfolding sweep
  permanent now x z = rw z refl

  take_event-known :
      (now : ℕ) (ev : ThreatEvent) (x : Executor D W)
      → known (take_event router win show_timeout cfg now ev x) ≡ suc (known x)
  unfolding take_event
  take_event-known now ev x =
      let buffered : Executor D W = record x { buffer = x.buffer ++ (ev ∷ []) } in
      let sum = flush-counted now buffered.buffer buffered in
      let long = length-append x.buffer (ev ∷ []) in
      if_elim (λ y. known y ≡ suc (known x))
        (not (meets_min_level cfg ev.level) || is_duplicate router win show_timeout cfg now ev.ip x)
        (λ a. omega arith)
        (λ a.
          if_elim (λ y. known y ≡ suc (known x))
            (leb_ℤ cfg.batch_size (pos (length buffered.buffer))) (λ b. omega (arith, sum, long))
            (λ b. omega (arith, long)))

  flush_tick-known :
      (now : ℕ) (x : Executor D W) → known (flush_tick router win show_timeout cfg now x) ≡ known x
  unfolding flush_tick
  flush_tick-known now x =
      if_elim (λ y. known y ≡ known x) (is_empty x.buffer) (λ a. refl)
        (λ a. omega (arith, flush-counted now x.buffer x))

  -- The events among the passes of the loop.
  abbrev pub events_in : List Step → ℕ
  events_in [] = 0
  events_in (event now ev ∷ ps) = suc (events_in ps)
  events_in (flush_timer now ∷ ps) = events_in ps
  events_in (sweep_timer now ∷ ps) = events_in ps

  run_steps-known :
      (ps : List Step) (x : Executor D W)
      → cfg.ttl ≡ pos 0
      → known (run_steps router win show_timeout cfg ps x) ≡ known x + events_in ps
  unfolding run_steps step
  run_steps-known [] x z = omega arith
  run_steps-known (event now ev ∷ ps) x z = omega (
    arith,
    run_steps-known ps (take_event router win show_timeout cfg now ev x) z,
    take_event-known now ev x,
  )
  run_steps-known (flush_timer now ∷ ps) x z = omega (
    arith,
    run_steps-known ps (flush_tick router win show_timeout cfg now x) z,
    flush_tick-known now x,
  )
  run_steps-known (sweep_timer now ∷ ps) x z =
      run_steps-known ps _ z ∙ ap (λ y. known y + events_in ps) (permanent now x z)

  sync-known :
      (now : ℕ) (x : Executor D W)
      → known (sync_existing router win show_timeout cfg now x).1 ≡ known x
  unfolding sync_existing
  sync-known now x = elim (Option-cases (router.list_entries cfg.list_name x.device).0) [
    | inl e ↦ rw (e, sync_existing) refl
    | inr (entries, e) ↦ rw (e, sync_existing) refl
  ]

  -- With permanent bans, a TTL of 0, every event that Run takes is counted by its end exactly once,
  -- as executed, skipped or failed, whatever the device answers and however the timers fall.
  pub run-counted :
      (start : ℕ) (ps : List Step) (stop : ℕ) (x : Executor D W)
      → cfg.ttl ≡ pos 0
      → counted (run router win show_timeout cfg start ps stop x) ≡ known x + events_in ps
  unfolding run shut_down
  run-counted start ps stop x z =
      let synced = (sync_existing router win show_timeout cfg start x).1 in
      let last = run_steps router win show_timeout cfg ps synced in
      ap counted (permanent stop (flush router win show_timeout cfg stop last.buffer last) z)
      ∙ flush-counted stop last.buffer last
      ∙ run_steps-known ps synced z
      ∙ ap (λ n. n + events_in ps) (sync-known start x)
