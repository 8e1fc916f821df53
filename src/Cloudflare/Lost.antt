-- ===== src/Cloudflare/Lost.antt =====
-- pkg/executorplugins/cloudflare/executor.go: a ban that the API refuses is lost.
use arxsentinel.Common.{
  ◌+◌, ◌≤◌, arith, ◌≡◌, refl, ap, ◌∙◌, true, false, List, [], ◌∷◌, ◌++◌, length, is_empty, Text,
  Distinct,
}
use arxsentinel.Common.Dict.{put, keys}
use arxsentinel.Common.Int.{pos, leb_ℤ}
use arxsentinel.Bans.{Window, ThreatEvent}
use arxsentinel.Cloudflare.{
  failed, CfClient, Config, Executor, wait_for_pending_op, is_duplicate, meets_min_level,
}
use arxsentinel.Cloudflare.Runs.{own_ban, flush, take_event, Step, run_steps}
use arxsentinel.Cloudflare.Flushed.{add_answer, Untouched, FlushOutcome, flush-FlushOutcome}
use mathlib.Core.Path.{subst}
use arxsentinel.Cloudflare.Held.{take_event-run_steps}

module _ {D W : Type 0} (client : CfClient D) (win : Window W) (cfg : Config) where
  -- The executor with an event taken up.
  abbrev pub buffered : ThreatEvent → Executor D W → Executor D W
  buffered ev x = record x {
    banned = put x.banned ev.ip (own_ban (client.now x.device));
    buffer = x.buffer ++ (ev ∷ []);
  }

  take_event_full :
      (ev : ThreatEvent) (x : Executor D W)
      → meets_min_level cfg ev.level ≡ true
      → is_duplicate client win ev.ip x ≡ false
      → leb_ℤ cfg.batch_size (pos (length (x.buffer ++ (ev ∷ [])))) ≡ true
      → take_event client win cfg ev x
        ≡ record (flush client win cfg (x.buffer ++ (ev ∷ [])) (buffered ev x)) { buffer = [] }
  unfolding take_event
  take_event_full ev x high new full = rw (high, new, full) refl

  take_event_known :
      (ev : ThreatEvent) (x : Executor D W)
      → meets_min_level cfg ev.level ≡ true
      → is_duplicate client win ev.ip x ≡ true
      → take_event client win cfg ev x ≡ record x { skipped = x.skipped + 1 }
  unfolding take_event
  take_event_known ev x high known = rw (high, known) refl

  snoc_not_empty : (l : List ThreatEvent) (ev : ThreatEvent) → is_empty (l ++ (ev ∷ [])) ≡ false
  snoc_not_empty [] ev = refl
  snoc_not_empty (e ∷ l) ev = refl

  refused :
      (events : List ThreatEvent) (x : Executor D W) (err : Text)
      → is_empty events ≡ false
      → (wait_for_pending_op client win x).0 ≡ true
      → add_answer client win cfg events x ≡ failed err
      → Untouched client win cfg
          (length events)
          (length events + 1)
          x
          (flush client win cfg events x)
  refused events x err some_left ready answer =
      let outcome = flush-FlushOutcome client win cfg events x some_left in
      let y : Executor D W = flush client win cfg events x in
      subst (λ a. FlushOutcome client win cfg true a events x y) answer
        (subst (λ b. FlushOutcome client win cfg b (add_answer client win cfg events x) events x y)
          ready outcome)

  -- A ban that the API refuses is lost. When a new event of a level that counts fills the batch, the
  -- wait for the operation before is not cancelled, and the API refuses the batch: the window and
  -- the number of executed bans are as before, each event of the batch is counted as failed, and
  -- the buffer is empty; and still, after any further passes of the loop, a later event of the
  -- address, of a level that counts, is only counted as skipped. The map of bans has each address
  -- once before.
  pub take_event_refused :
      (ev again : ThreatEvent) (x : Executor D W) (ps : List Step) (err : Text)
      → Distinct (keys x.banned)
      → meets_min_level cfg ev.level ≡ true
      → is_duplicate client win ev.ip x ≡ false
      → leb_ℤ cfg.batch_size (pos (length (x.buffer ++ (ev ∷ [])))) ≡ true
      → (wait_for_pending_op client win (buffered ev x)).0 ≡ true
      → add_answer client win cfg (x.buffer ++ (ev ∷ [])) (buffered ev x) ≡ failed err
      → again.ip ≡ ev.ip
      → meets_min_level cfg again.level ≡ true
      → let y = take_event client win cfg ev x in
        let z = run_steps client win cfg ps y in
        (y.window ≡ x.window)
        × (y.executed ≡ x.executed)
        × (x.errors + length (x.buffer ++ (ev ∷ [])) ≤ y.errors)
        × (y.buffer ≡ [])
        × (take_event client win cfg again z ≡ record z { skipped = z.skipped + 1 })
  take_event_refused ev again x ps err once high new full ready answer same high_again =
      let z : Executor D W = run_steps client win cfg ps (take_event client win cfg ev x) in
      let (banned, window, executed, swept, errors, _) =
        refused (x.buffer ++ (ev ∷ [])) (buffered ev x) err (snoc_not_empty x.buffer ev) ready
          answer in
      let held : is_duplicate client win again.ip z ≡ true =
        ap (λ ip. is_duplicate client win ip z) same
        ∙ take_event-run_steps client win cfg ev x ps once high new in
      let taken = take_event_full ev x high new full in
      (
        ap (λ (y : Executor D W). y.window) taken ∙ window,
        ap (λ (y : Executor D W). y.executed) taken ∙ executed,
        omega (arith, errors, ap (λ (y : Executor D W). y.errors) taken),
        ap (λ (y : Executor D W). y.buffer) taken,
        take_event_known again z high_again held,
      )
