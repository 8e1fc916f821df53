-- ===== src/Mikrotik.antt =====
-- pkg/executorplugins/mikrotik/executor.go, with the types of config.go, client.go and manifest.go.
-- The device is the parameter Router: what each call of its API answers, with the state of the
-- device threaded through. The deduplication window of arx-core is the parameter Window. A pass of
-- the select loop is one event of Run; logging is left out.
pub mod Swept
pub mod Flushed
pub mod Counted
use mathlib.Core.Path.{subst, ap₂}
use mathlib.Core.Bool.{false≢true}
use Prim.Native.Nat.{max}
use mathlib.Core.List.{reverse, append-nil, append_assoc}
use arxsentinel.Common.{
  ℕ, zero, suc, ◌+◌, ◌-◌, ◌*◌, ◌/◌, ◌%◌, ◌^◌, ◌≤◌, ◌<◌, ◌≡◌, refl, sym, ap, ◌∙◌, ◌≢◌, ◌↔◌, ◌⊎◌, inl,
  inr, Bool, true, false, not, ◌&&◌, ◌||◌, Option, none, some, List, [], ◌∷◌, ◌++◌, map, arith, ltb,
  leb, ◌==◌, if◌then◌else◌, Bool-cases, Option-cases, is_some, is_none, tests, length, take, drop,
  set, ◌>>=◌, if_elim, replicate, keep, some_of, first_of_list, is_empty, length-append, All, Text,
  codes, text_eq, text_eq_iff, text_eq_refl, has_prefix, has_suffix, contains, to_lower, join,
  trim_space, mem, erase, Distinct, mem-erase, erase-Distinct, length-erase-mem, erase_absent,
  mem-append,
}
use arxsentinel.Common.Dict.{
  Dict, get, put, remove, keys, get-put, get-remove, mem-keys, length-keys, keys-remove, keys-put,
  Distinct-snoc, length-put, length-remove, put-Distinct,
}
use arxsentinel.Common.Int.{
  sub_ℕ, ℤ, pos, negsuc, ◌+ℤ◌, ◌≤ℤ◌, leb_ℤ, int_laws, pos_part, neg_part, +ℤ_parts, eq_of_parts,
  +ℤ_assoc,
}
use arxsentinel.Bans.{Window, ThreatEvent, level_order}

-- client.AddressListEntry, the fields that the executor reads or writes.
pub record AddressListEntry : Type 0 where
  pub id : Text
  pub address : Text
  pub list : Text
  pub timeout : Text
  pub comment : Text

-- The Client interface over the state D of the device; none is an error.
pub record Router (D : Type 0) : Type 0 where
  pub add : AddressListEntry → D → Option Text × D
  pub list_entries : Text → D → Option (List AddressListEntry) × D
  pub delete : Text → D → Bool × D

pub record Config : Type 0 where
  pub list_name : Text
  pub ttl : ℤ
  pub sentinel_id : Text
  pub batch_size : ℤ
  pub min_level : Text

pub record BanRecord : Type 0 where
  pub id : Text
  pub added_at : ℕ

pub record ExpiredEntry : Type 0 where
  pub id : Text
  pub ip : Text

-- The executor, with the device and the window that it calls, and the buffer of Run.
pub record Executor (D W : Type 0) : Type 0 where
  pub banned : Dict BanRecord
  pub executed : ℕ
  pub skipped : ℕ
  pub errors : ℕ
  pub swept : ℕ
  pub buffer : List ThreatEvent
  pub device : D
  pub window : W

-- A level that the map does not have reads as 0 there.
unfoldable pub meets_min_level : Config → Text → Bool
unfolding level_order
meets_min_level cfg level =
    let min : ℕ = elim (level_order cfg.min_level) [ none ↦ 0 | some n ↦ n ] in
    elim (level_order level) [ none ↦ false | some n ↦ leb min n ]

unfoldable pub comment_of : Config → Text
comment_of cfg = codes "sentinel-" ++ cfg.sentinel_id

module _ {D W : Type 0} (router : Router D) (win : Window W) (show_timeout : ℤ → Text)
    (cfg : Config) where
  -- One round of the loop of syncExisting.
  unfoldable pub sync_entry : ℕ → AddressListEntry → Dict BanRecord → Dict BanRecord
  unfolding comment_of
  sync_entry now a banned =
      if text_eq a.comment (comment_of cfg)
      then put banned a.address (record { id = a.id; added_at = now })
      else banned

  unfoldable pub sync_entries : ℕ → List AddressListEntry → Dict BanRecord → Dict BanRecord
  sync_entries now [] banned = banned
  sync_entries now (a ∷ rest) banned = sync_entries now rest (sync_entry now a banned)

  -- false is the error that Run logs.
  unfoldable pub sync_existing : ℕ → Executor D W → Bool × Executor D W
  unfolding sync_entry sync_entries
  sync_existing now x =
      let (found, d) = router.list_entries cfg.list_name x.device in
      elim found [
        | none ↦ (false, record x { device = d })
        | some entries ↦ (true, record x { device = d; banned = sync_entries now entries x.banned })
      ]

  unfoldable pub is_duplicate : ℕ → Text → Executor D W → Bool
  is_duplicate now ip x =
      if win.contains_ip now ip x.window then true else is_some (get x.banned ip)

  -- The first loop of flush keeps the events whose address is not banned yet.
  unfoldable pub not_banned : Executor D W → List ThreatEvent → List ThreatEvent
  not_banned x events = keep (λ (ev : ThreatEvent). is_none (get x.banned ev.ip)) events

  -- One round of the second loop, and the loop, with the addresses added so far.
  unfoldable pub add_event : ℕ → ThreatEvent → List Text × Executor D W → List Text × Executor D W
  unfolding comment_of
  add_event now ev (added, x) =
      let (answer, d) =
        router.add
          (record {
            id = [];
            address = ev.ip;
            list = cfg.list_name;
            timeout = show_timeout cfg.ttl;
            comment = comment_of cfg;
          })
          x.device in
      elim answer [
        | none ↦ (added, record x { device = d; errors = x.errors + 1 })
        | some id ↦ (
          added ++ (ev.ip ∷ []),
          record x {
            device = d;
            banned = put x.banned ev.ip (record { id = id; added_at = now });
            executed = x.executed + 1;
          },
        )
      ]

  unfoldable pub add_events :
      ℕ → List ThreatEvent → List Text × Executor D W → List Text × Executor D W
  add_events now [] r = r
  add_events now (ev ∷ evs) r = add_events now evs (add_event now ev r)

  unfoldable pub flush : ℕ → List ThreatEvent → Executor D W → Executor D W
  unfolding not_banned add_events
  flush now events x =
      let unique = not_banned x events in
      let counted = record x { skipped = x.skipped + (length events - length unique) } in
      let (added, y) = add_events now unique ([], counted) in
      if is_empty events
      then x
      else if is_empty unique
      then counted
      else if is_empty added
      then y
      else record y { window = win.mark_batch now added y.window }

  -- Phase 1 of sweep, over the map.
  unfoldable pub is_expired : ℕ → BanRecord → Bool
  is_expired now rec = not (is_empty rec.id) && not (leb_ℤ (sub_ℕ now rec.added_at) cfg.ttl)

  unfoldable pub collect_expired : ℕ → Dict BanRecord → List ExpiredEntry
  unfolding is_expired
  collect_expired now [] = []
  collect_expired now ((ip, rec) ∷ d) =
      let rest = collect_expired now d in
      if is_expired now rec then record { id = rec.id; ip = ip } ∷ rest else rest

  -- Phase 2: the addresses whose entry the device deleted.
  unfoldable pub delete_one : ExpiredEntry → List Text × Executor D W → List Text × Executor D W
  delete_one entry (done, x) =
      let (ok, d) = router.delete entry.id x.device in
      if ok
      then (done ++ (entry.ip ∷ []), record x { device = d })
      else (done, record x { device = d; errors = x.errors + 1 })

  unfoldable pub delete_expired :
      List ExpiredEntry → List Text × Executor D W → List Text × Executor D W
  delete_expired [] r = r
  delete_expired (entry ∷ entries) r = delete_expired entries (delete_one entry r)

  unfoldable pub remove_all : List Text → Dict BanRecord → Dict BanRecord
  remove_all [] d = d
  remove_all (ip ∷ ips) d = remove_all ips (remove d ip)

  unfoldable pub sweep : ℕ → Executor D W → Executor D W
  unfolding collect_expired delete_expired remove_all
  sweep now x =
      let (done, y) = delete_expired (collect_expired now x.banned) ([], x) in
      if leb_ℤ cfg.ttl (pos 0) && leb_ℤ (pos 0) cfg.ttl
      then x
      else record y { banned = remove_all done y.banned; swept = y.swept + length done }

  -- The case of Run for one event from the source.
  unfoldable pub take_event : ℕ → ThreatEvent → Executor D W → Executor D W
  unfolding meets_min_level is_duplicate flush
  take_event now ev x =
      let buffered = record x { buffer = x.buffer ++ (ev ∷ []) } in
      let flushed = record (flush now buffered.buffer buffered) { buffer = [] } in
      if not (meets_min_level cfg ev.level) || is_duplicate now ev.ip x
      then record x { skipped = x.skipped + 1 }
      else if leb_ℤ cfg.batch_size (pos (length buffered.buffer))
      then flushed
      else buffered

  -- The tick of the flush timer, and the end of Run on a cancelled context or a closed source.
  unfoldable pub flush_tick : ℕ → Executor D W → Executor D W
  unfolding flush
  flush_tick now x =
      let flushed = record (flush now x.buffer x) { buffer = [] } in
      if is_empty x.buffer then x else flushed

  unfoldable pub shut_down : ℕ → Executor D W → Executor D W
  unfolding flush sweep
  shut_down now x = sweep now (flush now x.buffer x)

-- A pass of the select loop.
pub data Step : Type 0 where
  event : ℕ → ThreatEvent → Step
  flush_timer sweep_timer : ℕ → Step

module _ {D W : Type 0} (router : Router D) (win : Window W) (show_timeout : ℤ → Text)
    (cfg : Config) where
  unfoldable pub step : Step → Executor D W → Executor D W
  unfolding take_event flush_tick sweep
  step (event now ev) x = take_event router win show_timeout cfg now ev x
  step (flush_timer now) x = flush_tick router win show_timeout cfg now x
  step (sweep_timer now) x = sweep router win show_timeout cfg now x

  -- Run, over the passes of its loop up to the end at the given time.
  unfoldable pub run_steps : List Step → Executor D W → Executor D W
  run_steps [] x = x
  run_steps (p ∷ ps) x = run_steps ps (step p x)

  unfoldable pub run : ℕ → List Step → ℕ → Executor D W → Executor D W
  unfolding sync_existing run_steps shut_down
  run start ps stop x =
      let (ok, synced) = sync_existing router win show_timeout cfg start x in
      shut_down router win show_timeout cfg stop (run_steps ps synced)
