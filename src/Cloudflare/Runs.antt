-- ===== src/Cloudflare/Runs.antt =====
-- pkg/executorplugins/cloudflare/executor.go: flush, sweep, and Run with the cases of its loop. A
-- pass of the select loop is one Step.

use arxsentinel.Common.{
  ℕ, ◌+◌, Bool, true, false, not, ◌&&◌, none, some, List, [], ◌∷◌, ◌++◌, map, if◌then◌else◌, length,
  is_empty, Text, codes,
}
use arxsentinel.Common.Dict.{Dict, put, remove}
use arxsentinel.Common.Int.{sub_ℕ, pos, leb_ℤ}
use arxsentinel.Bans.{Window, ThreatEvent}
use arxsentinel.Cloudflare.{
  CfBatchItem, Answer, done, failed, CfClient, Config, BanRecord, Executor, meets_min_level,
  sync_existing, is_duplicate, wait_for_pending_op, do_with_retry,
}

pub record ExpiredEntry : Type 0 where
  pub item_id : Text
  pub ip : Text

abbrev pub ips_of : List ThreatEvent → List Text
ips_of events = map (λ (ev : ThreatEvent). ev.ip) events

unfoldable pub build_comment : Config → Text → Text
build_comment cfg instance_id =
    let base : Text = codes "sentinel-" ++ instance_id in
    if is_empty cfg.comment_extra then base else base ++ (codes " " ++ cfg.comment_extra)

-- The entry that flush and Run write for an address they take up.
abbrev pub own_ban : ℕ → BanRecord
own_ban now = record { cf_item_id = []; added_at = now; added_by_executor = true }

unfoldable pub ban_all : ℕ → List Text → Dict BanRecord → Dict BanRecord
ban_all now [] d = d
ban_all now (ip ∷ ips) d = ban_all now ips (put d ip (own_ban now))

unfoldable pub remove_all : List Text → Dict BanRecord → Dict BanRecord
remove_all [] d = d
remove_all (ip ∷ ips) d = remove_all ips (remove d ip)

module _ {D W : Type 0} (client : CfClient D) (win : Window W) (cfg : Config) where
  -- The operation that the API has begun, if it names one.
  unfoldable pub note_pending : Text → Executor D W → Executor D W
  note_pending op x =
      if is_empty op
      then x
      else record x { pending_op_id = op; pending_op_at = client.now x.device }

  abbrev pub batch_items : List ThreatEvent → Executor D W → List CfBatchItem
  batch_items events x =
      map (λ (ev : ThreatEvent). record { ip = ev.ip; comment = build_comment cfg x.instance_id })
        events

  -- What flush does with the answer of AddItems.
  unfoldable pub added : List ThreatEvent → Answer → Executor D W → Executor D W
  unfolding note_pending ban_all
  added events (failed err) x = record x { errors = x.errors + length events }
  added events (done op) x =
      let y = note_pending op x in
      let now : ℕ = client.now x.device in
      record y {
        executed = x.executed + length events;
        banned = ban_all now (ips_of events) x.banned;
        window = win.mark_batch now (ips_of events) x.window;
      }

  unfoldable pub flush : List ThreatEvent → Executor D W → Executor D W
  unfolding wait_for_pending_op do_with_retry added build_comment
  flush events x =
      let (ready, y) = wait_for_pending_op client win x in
      let items : List CfBatchItem = batch_items events y in
      let (answer, d) = do_with_retry client win (client.add_items y.list_id items) y.device in
      if is_empty events
      then x
      else if ready
      then added events answer (record y { device = d })
      else y

  -- Phase 1 of sweep, over the map.
  unfoldable pub is_expired : ℕ → BanRecord → Bool
  is_expired now rec = not (is_empty rec.cf_item_id) && not (leb_ℤ (sub_ℕ now rec.added_at) cfg.ttl)

  unfoldable pub collect_expired : ℕ → Dict BanRecord → List ExpiredEntry
  unfolding is_expired
  collect_expired now [] = []
  collect_expired now ((ip, rec) ∷ d) =
      let rest = collect_expired now d in
      if is_expired now rec then record { item_id = rec.cf_item_id; ip = ip } ∷ rest else rest

  -- What sweep does with the answer of RemoveItems.
  unfoldable pub swept_out : List ExpiredEntry → Answer → Executor D W → Executor D W
  unfolding note_pending remove_all
  swept_out expired (failed err) x = record x { errors = x.errors + length expired }
  swept_out expired (done op) x =
      let y = note_pending op x in
      record y {
        banned = remove_all (map (λ (e : ExpiredEntry). e.ip) expired) x.banned;
        swept = x.swept + length expired;
      }

  unfoldable pub sweep : Executor D W → Executor D W
  unfolding wait_for_pending_op do_with_retry swept_out collect_expired
  sweep x =
      let expired = collect_expired (client.now x.device) x.banned in
      let item_ids : List Text = map (λ (e : ExpiredEntry). e.item_id) expired in
      let (ready, y) = wait_for_pending_op client win x in
      let (answer, d) =
        do_with_retry client win (client.remove_items y.list_id item_ids) y.device in
      if is_empty expired
      then x
      else if ready
      then swept_out expired answer (record y { device = d })
      else y

  -- The case of Run for one event from the source.
  unfoldable pub take_event : ThreatEvent → Executor D W → Executor D W
  unfolding meets_min_level is_duplicate flush
  take_event ev x =
      let buffered = record x {
        banned = put x.banned ev.ip (own_ban (client.now x.device));
        buffer = x.buffer ++ (ev ∷ []);
      } in
      let flushed = record (flush buffered.buffer buffered) { buffer = [] } in
      if not (meets_min_level cfg ev.level)
      then record x { skipped = x.skipped + 1 }
      else if is_duplicate client win ev.ip x
      then record x { skipped = x.skipped + 1 }
      else if leb_ℤ cfg.batch_size (pos (length buffered.buffer))
      then flushed
      else buffered

  -- The tick of the flush timer, and the end of Run on a cancelled context or a closed source.
  unfoldable pub flush_tick : Executor D W → Executor D W
  unfolding flush
  flush_tick x =
      let flushed = record (flush x.buffer x) { buffer = [] } in
      if is_empty x.buffer then x else flushed

  unfoldable pub shut_down : Executor D W → Executor D W
  unfolding flush sweep
  shut_down x = sweep (flush x.buffer x)

-- A pass of the select loop.
pub data Step : Type 0 where
  event : ThreatEvent → Step
  flush_timer sweep_timer : Step

module _ {D W : Type 0} (client : CfClient D) (win : Window W) (cfg : Config) where
  unfoldable pub step : Step → Executor D W → Executor D W
  unfolding take_event flush_tick sweep
  step (event ev) x = take_event client win cfg ev x
  step flush_timer x = flush_tick client win cfg x
  step sweep_timer x = sweep client win cfg x

  unfoldable pub run_steps : List Step → Executor D W → Executor D W
  run_steps [] x = x
  run_steps (p ∷ ps) x = run_steps ps (step p x)

  -- Run over the passes of its loop; false is the error of FindOrCreateList.
  unfoldable pub run : List Step → Executor D W → Bool × Executor D W
  unfolding sync_existing run_steps shut_down
  run ps x =
      let (found, d) = client.find_or_create_list cfg.list_name x.device in
      elim found [
        | none ↦ (false, record x { device = d })
        | some id ↦
            let (ok, synced) = sync_existing client win (record x { device = d; list_id = id }) in
            (true, shut_down client win cfg (run_steps ps synced))
      ]
