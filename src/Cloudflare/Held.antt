-- ===== src/Cloudflare/Held.antt =====
-- pkg/executorplugins/cloudflare/executor.go: an address that the executor has taken up is kept.

use arxsentinel.Common.{
  ℕ, ◌≡◌, refl, ap, ◌∙◌, inl, inr, true, false, not, none, some, List, [], ◌∷◌, ◌++◌, map,
  if◌then◌else◌, Bool-cases, is_some, length, if_elim, is_empty, Text, text_eq, text_eq_refl, mem,
  Distinct,
}
use arxsentinel.Common.Dict.{Dict, get, put, keys, get-put, put-Distinct}
use arxsentinel.Common.Int.{pos, leb_ℤ}
use arxsentinel.Bans.{Window, ThreatEvent}
use arxsentinel.Bans.Removed.{keeps, get-dropped}
use arxsentinel.Cloudflare.{
  Answer, done, failed, CfClient, Config, BanRecord, Executor, wait_for_pending_op, is_duplicate,
  meets_min_level,
}
use arxsentinel.Cloudflare.Runs.{
  ExpiredEntry, ips_of, own_ban, ban_all, remove_all, added, flush, is_expired, collect_expired,
  swept_out, sweep, take_event, flush_tick, Step, event, flush_timer, sweep_timer, step, run_steps,
}
use arxsentinel.Cloudflare.Attempts.{wait_for_pending_op-Settled}
use arxsentinel.Cloudflare.Flushed.{get-remove_all, remove_all-Distinct}
use arxsentinel.Cloudflare.Swept.{expired_ips}

module _ {D W : Type 0} (client : CfClient D) (win : Window W) (cfg : Config) where
  -- The map has each address once, and this one without an item of the list.
  abbrev pub Held : Text → Dict BanRecord → Type 0
  Held ip banned =
      Distinct (keys banned)
      × ((rec : BanRecord) × (get banned ip ≡ some rec) × (rec.cf_item_id ≡ []))

  put-Held :
      (now : ℕ) (j ip : Text) (d : Dict BanRecord) → Held ip d → Held ip (put d j (own_ban now))
  put-Held now j ip d (once, (rec, g, e)) = (
    put-Distinct d j (own_ban now) once,
    elim (Bool-cases (text_eq j ip)) [
      | inl same ↦ (own_ban now, rw (get-put d j (own_ban now) ip, same) refl, refl)
      | inr other ↦ (rec, rw (get-put d j (own_ban now) ip, other) g, e)
    ],
  )

  ban_all-Held :
      (now : ℕ) (ips : List Text) (ip : Text) (d : Dict BanRecord)
      → Held ip d
      → Held ip (ban_all now ips d)
  unfolding ban_all
  ban_all-Held now [] ip d h = h
  ban_all-Held now (j ∷ ips) ip d h =
      ban_all-Held now ips ip (put d j (own_ban now)) (put-Held now j ip d h)

  -- A record without an item is never expired.
  not_expired :
      (now : ℕ) (rec : BanRecord) → rec.cf_item_id ≡ [] → is_expired client win cfg now rec ≡ false
  unfolding is_expired
  not_expired now rec e = rw e refl

  remove_expired-Held :
      (now : ℕ) (ip : Text) (d : Dict BanRecord)
      → Held ip d
      → Held ip
          (remove_all (map (λ (e : ExpiredEntry). e.ip) (collect_expired client win cfg now d)) d)
  remove_expired-Held now ip d (once, (rec, g, e)) =
      let ips : List Text =
        map (λ (e : ExpiredEntry). e.ip) (collect_expired client win cfg now d) in
      let kept : keeps (is_expired client win cfg now) (get d ip) ≡ some rec =
        rw (g, not_expired now rec e) refl in
      (
        remove_all-Distinct ips d once,
        (
          rec,
          get-remove_all ips d ip
              ∙ ap (λ l. if mem ip l then none else get d ip) (expired_ips client win cfg now d)
              ∙ get-dropped (is_expired client win cfg now) d ip once
              ∙ kept,
          e,
        ),
      )

  added-Held :
      (ip : Text) (events : List ThreatEvent) (answer : Answer) (y : Executor D W)
      → Held ip y.banned
      → Held ip (added client win cfg events answer y).banned
  unfolding added
  added-Held ip events (failed err) y h = h
  added-Held ip events (done op) y h =
      ban_all-Held (client.now y.device) (ips_of events) ip y.banned h

  flush-Held :
      (ip : Text) (events : List ThreatEvent) (x : Executor D W)
      → Held ip x.banned
      → Held ip (flush client win cfg events x).banned
  unfolding flush
  flush-Held ip events x h =
      let waited : Held ip (wait_for_pending_op client win x).1.banned =
        rw (wait_for_pending_op-Settled client win x).banned h in
      if_elim (λ (r : Executor D W). Held ip r.banned) (is_empty events) (λ e. h)
        (λ e.
          if_elim (λ (r : Executor D W). Held ip r.banned) (wait_for_pending_op client win x).0
            (λ go. added-Held ip events _ _ waited) (λ stop. waited))

  swept_out-Held :
      (ip : Text) (now : ℕ) (answer : Answer) (y : Executor D W) (d : Dict BanRecord)
      → y.banned ≡ d
      → Held ip d
      → Held ip (swept_out client win cfg (collect_expired client win cfg now d) answer y).banned
  unfolding swept_out
  swept_out-Held ip now (failed err) y d same h = rw same h
  swept_out-Held ip now (done op) y d same h = rw same (remove_expired-Held now ip d h)

  sweep-Held :
      (ip : Text) (x : Executor D W) → Held ip x.banned → Held ip (sweep client win cfg x).banned
  unfolding sweep
  sweep-Held ip x h =
      let settled = wait_for_pending_op-Settled client win x in
      let expired = collect_expired client win cfg (client.now x.device) x.banned in
      if_elim (λ (r : Executor D W). Held ip r.banned) (is_empty expired) (λ e. h)
        (λ e.
          if_elim (λ (r : Executor D W). Held ip r.banned) (wait_for_pending_op client win x).0
            (λ go. swept_out-Held ip (client.now x.device) _ _ x.banned settled.banned h)
            (λ stop. rw settled.banned h))

  take_event-Held :
      (ip : Text) (ev : ThreatEvent) (x : Executor D W)
      → Held ip x.banned
      → Held ip (take_event client win cfg ev x).banned
  unfolding take_event
  take_event-Held ip ev x h =
      let buffered : Executor D W = record x {
        banned = put x.banned ev.ip (own_ban (client.now x.device));
        buffer = x.buffer ++ (ev ∷ []);
      } in
      let written = put-Held (client.now x.device) ev.ip ip x.banned h in
      if_elim (λ (r : Executor D W). Held ip r.banned) (not (meets_min_level cfg ev.level))
        (λ low. h)
        (λ high.
          if_elim (λ (r : Executor D W). Held ip r.banned) (is_duplicate client win ev.ip x)
            (λ known. h)
            (λ new.
              if_elim (λ (r : Executor D W). Held ip r.banned)
                (leb_ℤ cfg.batch_size (pos (length buffered.buffer)))
                (λ full. flush-Held ip buffered.buffer buffered written) (λ room. written)))

  run_steps-Held :
      (ip : Text) (ps : List Step) (x : Executor D W)
      → Held ip x.banned
      → Held ip (run_steps client win cfg ps x).banned
  unfolding run_steps step flush_tick
  run_steps-Held ip [] x h = h
  run_steps-Held ip (event ev ∷ ps) x h = run_steps-Held ip ps _ (take_event-Held ip ev x h)
  run_steps-Held ip (flush_timer ∷ ps) x h = run_steps-Held ip ps _ (
      if_elim (λ (r : Executor D W). Held ip r.banned) (is_empty x.buffer) (λ e. h)
        (λ e. flush-Held ip x.buffer x h))
  run_steps-Held ip (sweep_timer ∷ ps) x h = run_steps-Held ip ps _ (sweep-Held ip x h)

  taken-Held :
      (ev : ThreatEvent) (x : Executor D W)
      → Distinct (keys x.banned)
      → meets_min_level cfg ev.level ≡ true
      → is_duplicate client win ev.ip x ≡ false
      → Held ev.ip (take_event client win cfg ev x).banned
  unfolding take_event
  taken-Held ev x once high new =
      let now : ℕ = client.now x.device in
      let written : Held ev.ip (put x.banned ev.ip (own_ban now)) = (
        put-Distinct x.banned ev.ip (own_ban now) once,
        (
          own_ban now,
          rw (get-put x.banned ev.ip (own_ban now) ev.ip, text_eq_refl ev.ip) refl,
          refl,
        ),
      ) in
      let buffered : Executor D W = record x {
        banned = put x.banned ev.ip (own_ban (client.now x.device));
        buffer = x.buffer ++ (ev ∷ []);
      } in
      rw (high, new)
        (if_elim (λ (r : Executor D W). Held ev.ip r.banned)
          (leb_ℤ cfg.batch_size (pos (length buffered.buffer)))
          (λ full. flush-Held ev.ip buffered.buffer buffered written) (λ room. written))

  -- An address that was taken up is a duplicate after any further passes of the loop.
  pub take_event-run_steps :
      (ev : ThreatEvent) (x : Executor D W) (ps : List Step)
      → Distinct (keys x.banned)
      → meets_min_level cfg ev.level ≡ true
      → is_duplicate client win ev.ip x ≡ false
      → is_duplicate client win ev.ip (run_steps client win cfg ps (take_event client win cfg ev x))
        ≡ true
  unfolding is_duplicate
  take_event-run_steps ev x ps once high new =
      let last : Executor D W = run_steps client win cfg ps (take_event client win cfg ev x) in
      let (_, (rec, g, e)) =
        run_steps-Held ev.ip ps (take_event client win cfg ev x) (taken-Held ev x once high new) in
      let found : is_some (get last.banned ev.ip) ≡ true = rw g refl in
      if_elim (λ b. b ≡ true) (win.contains_ip (client.now last.device) ev.ip last.window)
        (λ marked. refl) (λ unmarked. found)
