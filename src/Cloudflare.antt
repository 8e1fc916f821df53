-- ===== src/Cloudflare.antt =====
-- pkg/executorplugins/cloudflare/executor.go up to doWithRetry, with the CFClient interface of
-- client.go and the type of config.go. The API, the clock and the waits
-- are the parameter CfClient over the state D of what is outside; the deduplication window is the
-- parameter Window. Locks, atomics and logging are left out.
pub mod Runs
pub mod Settings
pub mod Attempts
pub mod Flushed
pub mod Held
pub mod Lost
pub mod Swept
use mathlib.Core.Path.{subst, ap₂}
use mathlib.Core.Bool.{false≢true}
use Prim.Native.Nat.{max}
use mathlib.Core.List.{reverse, append-nil, append_assoc}
use arxsentinel.Common.{
  ℕ, zero, suc, ◌+◌, ◌-◌, ◌*◌, ◌/◌, ◌%◌, ◌^◌, ◌≤◌, ◌<◌, ◌≡◌, refl, sym, ap, ◌∙◌, ◌≢◌, ◌↔◌, ◌⊎◌, inl,
  inr, Bool, true, false, not, ◌&&◌, ◌||◌, Option, none, some, List, [], ◌∷◌, ◌++◌, map, arith, ltb,
  leb, ◌==◌, if◌then◌else◌, Bool-cases, Option-cases, is_some, is_none, tests, length, take, drop,
  set, ◌>>=◌, if_elim, replicate, keep, some_of, first_of_list, is_empty, length-append, All, Text,
  codes, text_eq, text_eq_iff, text_eq_refl, has_prefix, has_suffix, contains, to_lower, join,
  trim_space, mem, erase, Distinct, mem-erase, erase-Distinct, length-erase-mem, erase_absent,
  mem-append,
}
use arxsentinel.Common.Dict.{
  Dict, get, put, remove, keys, get-put, get-remove, mem-keys, length-keys, keys-remove, keys-put,
  Distinct-snoc, length-put, length-remove, put-Distinct,
}
use arxsentinel.Common.Int.{
  sub_ℕ, ℤ, pos, negsuc, ◌+ℤ◌, ◌≤ℤ◌, leb_ℤ, int_laws, pos_part, neg_part, +ℤ_parts, eq_of_parts,
  +ℤ_assoc,
}
use arxsentinel.Bans.{Window, ThreatEvent, level_order}

pub record CfItem : Type 0 where
  pub id : Text
  pub ip : Text

pub record CfBatchItem : Type 0 where
  pub ip : Text
  pub comment : Text

-- What a call answers: the operation id, or the text of its error.
pub data Answer : Type 0 where
  done : Text → Answer
  failed : Text → Answer

-- The CFClient interface, none or failed being its error, and the time: `now` reads the clock,
-- `wait` sleeps for a delay and is false when the context is cancelled first, for the reason
-- ctx_error.
pub record CfClient (D : Type 0) : Type 0 where
  pub find_or_create_list : Text → D → Option Text × D
  pub list_items : Text → D → Option (List CfItem) × D
  pub add_items : Text → List CfBatchItem → D → Answer × D
  pub remove_items : Text → List Text → D → Answer × D
  pub poll_bulk_operation : Text → D → Option Text × D
  pub now : D → ℕ
  pub wait : ℕ → D → Bool × D
  pub ctx_error : Text

pub record Config : Type 0 where
  pub api_token : Text
  pub account_id : Text
  pub list_name : Text
  pub min_level : Text
  pub ttl : ℤ
  pub max_items : ℤ
  pub dedup_window : ℤ
  pub batch_size : ℤ
  pub flush_interval : ℤ
  pub instance_id : Text
  pub comment_extra : Text
  pub api_base_url : Text

pub record BanRecord : Type 0 where
  pub cf_item_id : Text
  pub added_at : ℕ
  pub added_by_executor : Bool

-- The executor, with what is outside, the window it calls, and the buffer of Run.
pub record Executor (D W : Type 0) : Type 0 where
  pub list_id : Text
  pub instance_id : Text
  pub banned : Dict BanRecord
  pub executed : ℕ
  pub skipped : ℕ
  pub errors : ℕ
  pub swept : ℕ
  pub pending_op_id : Text
  pub pending_op_at : ℕ
  pub buffer : List ThreatEvent
  pub device : D
  pub window : W

-- A level that the map does not have reads as 0 there.
unfoldable pub meets_min_level : Config → Text → Bool
unfolding level_order
meets_min_level cfg level =
    let min : ℕ = elim (level_order cfg.min_level) [ none ↦ 0 | some n ↦ n ] in
    elim (level_order level) [ none ↦ false | some n ↦ leb min n ]

-- Nanoseconds.
abbrev pub millisecond : ℕ
millisecond = 1000000

abbrev pub poll_delays : List ℕ
poll_delays =
    500 * millisecond
    ∷ 1000 * millisecond
    ∷ 2000 * millisecond
    ∷ 4000 * millisecond
    ∷ 8000 * millisecond
    ∷ 16000 * millisecond
    ∷ []

abbrev pub max_429_retries : ℕ
max_429_retries = 3

abbrev pub default_429_backoff : ℕ
default_429_backoff = 5000 * millisecond

module _ {D W : Type 0} (client : CfClient D) (win : Window W) where
  -- One round of the loop of syncExisting, and the loop.
  unfoldable pub sync_item : ℕ → CfItem → Dict BanRecord → Dict BanRecord
  sync_item now item banned =
      put banned item.ip
        (record { cf_item_id = item.id; added_at = now; added_by_executor = false })

  unfoldable pub sync_items : ℕ → List CfItem → Dict BanRecord → Dict BanRecord
  sync_items now [] banned = banned
  sync_items now (item ∷ rest) banned = sync_items now rest (sync_item now item banned)

  -- false is the error that Run logs.
  unfoldable pub sync_existing : Executor D W → Bool × Executor D W
  unfolding sync_item sync_items
  sync_existing x =
      let (found, d) = client.list_items x.list_id x.device in
      elim found [
        | none ↦ (false, record x { device = d })
        | some items ↦
            (true, record x { device = d; banned = sync_items (client.now d) items x.banned })
      ]

  unfoldable pub is_duplicate : Text → Executor D W → Bool
  is_duplicate ip x =
      if win.contains_ip (client.now x.device) ip x.window then true else is_some (get x.banned ip)

  -- The loop of waitForPendingOp over the delays that are left, with what follows it.
  unfoldable pub poll_rounds : Text → List ℕ → Executor D W → Bool × Executor D W
  poll_rounds op [] x = (true, record x { pending_op_id = [] })
  poll_rounds op (delay ∷ delays) x =
      let (go, d) = client.wait delay x.device in
      let (status, e) = client.poll_bulk_operation op d in
      let next : Bool × Executor D W = poll_rounds op delays (record x { device = e }) in
      let polled : Bool × Executor D W = elim status [
        | none ↦ next
        | some s ↦
            if text_eq s (codes "completed")
            then (true, record x { device = e; pending_op_id = [] })
            else if text_eq s (codes "failed")
            then (true, record x { device = e; pending_op_id = []; errors = x.errors + 1 })
            else next
      ] in
      if go then polled else (false, record x { device = d; pending_op_id = [] })

  unfoldable pub wait_for_pending_op : Executor D W → Bool × Executor D W
  unfolding poll_rounds
  wait_for_pending_op x =
      if is_empty x.pending_op_id then (true, x) else poll_rounds x.pending_op_id poll_delays x

  -- The loop of doWithRetry with the retries that are left.
  unfoldable pub retry_rounds : (D → Answer × D) → ℕ → D → Answer × D
  retry_rounds call zero d = call d
  retry_rounds call (suc retries) d =
      let (answer, e) = call d in
      elim answer [
        | done op ↦ (done op, e)
        | failed err ↦
            let (go, f) = client.wait default_429_backoff e in
            let again : Answer × D = retry_rounds call retries f in
            if contains err (codes "429")
            then if go then again else (failed client.ctx_error, f)
            else (failed err, e)
      ]

  unfoldable pub do_with_retry : (D → Answer × D) → D → Answer × D
  unfolding retry_rounds
  do_with_retry call d = retry_rounds call max_429_retries d
