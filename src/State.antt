-- ===== src/State.antt =====
-- internal/core/state/tracker.go: the state of one IP address, and the tracker of all of them.
-- A pointer *IPState is the address's entry in the map: the tracker holds one for each address.
-- The linked list holds the same pointers; the program reads only their addresses, so its
-- elements are the addresses, front first.
pub mod Paths
pub mod Rate
pub mod Tracked
pub mod Lru
pub mod Updated
pub mod Gc
pub mod ApproxRate
use mathlib.Core.Path.{subst, ap₂}
use mathlib.Core.Bool.{false≢true}
use Prim.Native.Nat.{max}
use mathlib.Core.List.{reverse, append-nil, append_assoc}
use arxsentinel.Common.{
  ℕ, zero, suc, ◌+◌, ◌-◌, ◌*◌, ◌/◌, ◌%◌, ◌^◌, ◌≤◌, ◌<◌, ◌≡◌, refl, sym, ap, ◌∙◌, ◌≢◌, ◌↔◌, ◌⊎◌, inl,
  inr, Bool, true, false, not, ◌&&◌, ◌||◌, Option, none, some, List, [], ◌∷◌, ◌++◌, map, arith, ltb,
  leb, ◌==◌, if◌then◌else◌, Bool-cases, Option-cases, is_some, is_none, tests, length, take, drop,
  set, replicate, keep, some_of, first_of_list, is_empty, length-append, All, Text, codes, text_eq,
  text_eq_iff, text_eq_refl, has_prefix, has_suffix, contains, to_lower, join, trim_space, mem,
  erase, Distinct, mem-erase, erase-Distinct, length-erase-mem, erase_absent, mem-append,
}
use arxsentinel.Common.Dict.{
  Dict, get, put, remove, keys, get-put, get-remove, mem-keys, length-keys, keys-remove, keys-put,
  Distinct-snoc,
}
use arxsentinel.Common.Int.{
  ℤ, pos, negsuc, ◌+ℤ◌, ◌≤ℤ◌, leb_ℤ, int_laws, pos_part, neg_part, +ℤ_parts, eq_of_parts, +ℤ_assoc,
}
use arxsentinel.Event.{LogEntry}

abbrev pub path_buf_size : ℕ
path_buf_size = 64

pub record IpState : Type 0 where
  pub ip : Text
  pub first_seen : ℕ
  pub last_seen : ℕ
  pub total_requests : ℕ
  pub requests_404 : ℕ
  pub path_buf : List Text
  pub path_pos : ℕ
  pub path_full : Bool
  pub path_cache : List Text
  pub path_dirty : Bool
  pub rate_window_start : ℕ
  pub rate_curr_count : ℕ
  pub rate_prev_count : ℕ
  pub score : ℤ
  pub score_updated_at : ℕ

-- &IPState{IP: ip, FirstSeen: at}
unfoldable pub new_state : Text → ℕ → IpState
new_state ip at = record {
  ip = ip;
  first_seen = at;
  last_seen = 0;
  total_requests = 0;
  requests_404 = 0;
  path_buf = replicate path_buf_size [];
  path_pos = 0;
  path_full = false;
  path_cache = [];
  path_dirty = false;
  rate_window_start = 0;
  rate_curr_count = 0;
  rate_prev_count = 0;
  score = pos 0;
  score_updated_at = 0;
}

-- The copy of the ring buffer that RecentPaths makes, oldest first.
unfoldable pub rebuild : IpState → List Text
rebuild s =
    if s.path_full
    then drop s.path_pos s.path_buf ++ take s.path_pos s.path_buf
    else take s.path_pos s.path_buf

unfoldable pub recent_paths : IpState → List Text × IpState
unfolding rebuild
recent_paths s =
    if not s.path_dirty
    then (s.path_cache, s)
    else (rebuild s, record s { path_cache = rebuild s; path_dirty = false })

unfoldable pub set_score : ℤ → ℕ → IpState → IpState
set_score v at s = record s { score = v; score_updated_at = at }

-- The part of Update that writes the ring buffer.
unfoldable pub write_path : Text → IpState → IpState
write_path p s =
    let next = (s.path_pos + 1) % path_buf_size in
    record s {
      path_buf = set s.path_buf s.path_pos p;
      path_pos = next;
      path_full = if not s.path_full && next == 0 then true else s.path_full;
      path_dirty = true;
    }

-- updateRateLocked. `req - start` stands for Sub, which is negative where the entry's time lies
-- before the window: both tests fail there, as they do at 0, since the window is positive. A
-- difference beyond 292 years, where Sub saturates, and a window beyond 146, where 2*w overflows,
-- are left out.
unfoldable pub update_rate : ℕ → ℕ → IpState → IpState
update_rate w req s =
    let elapsed = req - s.rate_window_start in
    if s.rate_window_start == 0
    then record s { rate_window_start = req; rate_curr_count = 1 }
    else if leb (2 * w) elapsed
    then record s { rate_window_start = req; rate_curr_count = 1; rate_prev_count = 0 }
    else if leb w elapsed
    then record s {
      rate_prev_count = s.rate_curr_count;
      rate_curr_count = 1;
      rate_window_start = s.rate_window_start + w;
    }
    else record s { rate_curr_count = s.rate_curr_count + 1 }

-- The counters that Update writes first.
unfoldable pub count_request : LogEntry → IpState → IpState
count_request e s = record s {
  last_seen = e.time;
  total_requests = s.total_requests + 1;
  requests_404 = if e.status == 404 then s.requests_404 + 1 else s.requests_404;
}

-- All that Update writes to the state of the entry's address.
unfoldable pub observe : ℕ → LogEntry → IpState → IpState
unfolding count_request write_path update_rate
observe w e s = update_rate w e.time (write_path e.path (count_request e s))

pub record Tracker : Type 0 where
  pub states : Dict IpState
  pub lru : List Text
  pub max_ips : ℕ
  pub rate_window : ℕ
  pub retention : ℕ

-- The fallback of 60 s for a window that is not positive.
unfoldable pub window_or_default : ℤ → ℕ
window_or_default w = if leb_ℤ w (pos 0) then 60000000000 else pos_part w

unfoldable pub new_tracker : ℕ → ℤ → ℕ → Tracker
unfolding window_or_default
new_tracker max_ips window retention = record {
  states = [];
  lru = [];
  max_ips = max_ips;
  rate_window = window_or_default window;
  retention = retention;
}

unfoldable pub reconfigure : ℤ → ℕ → Tracker → Tracker
unfolding window_or_default
reconfigure window retention t = record t {
  retention = retention;
  rate_window = window_or_default window;
}

-- lru.Back()
unfoldable pub back : List Text → Option Text
back [] = none
back (x ∷ []) = some x
back (x ∷ y ∷ xs) = back (y ∷ xs)

unfoldable pub evict_lru : Tracker → Tracker
unfolding back
evict_lru t = elim (back t.lru) [
  | none ↦ t
  | some oldest ↦ record t { states = remove t.states oldest; lru = erase oldest t.lru }
]

-- The lookup of Update, with the eviction and the insertion of a new address.
unfoldable pub admit : LogEntry → Tracker → Tracker × IpState
unfolding evict_lru new_state
admit e t = elim (get t.states e.real_ip) [
  | none ↦
      let room = if leb t.max_ips (length t.states) then evict_lru t else t in
      let st = new_state e.real_ip e.time in
      (record room { states = put room.states e.real_ip st; lru = e.real_ip ∷ room.lru }, st)
  | some st ↦ (record t { lru = e.real_ip ∷ erase e.real_ip t.lru }, st)
]

-- The writes go through the pointer, so they show in the map.
unfoldable pub store : Text → IpState → Tracker → Tracker
store ip st t = record t { states = put t.states ip st }

unfoldable pub update : LogEntry → Tracker → Tracker × IpState
unfolding admit observe store
update e t =
    let (t', st) = admit e t in
    let st' = observe t.rate_window e st in (store e.real_ip st' t', st')

unfoldable pub get_state : Text → Tracker → Option IpState
get_state ip t = get t.states ip

unfoldable pub has : Text → Tracker → Bool
has ip t = is_some (get t.states ip)

unfoldable pub len : Tracker → ℕ
len t = length t.states

pub record Stats : Type 0 where
  pub tracked_ips : ℕ
  pub total_requests : ℕ
  pub suspicious : ℕ

unfoldable pub add_stats : Dict IpState → Stats → Stats
add_stats [] s = s
add_stats ((ip, st) ∷ d) s = add_stats d (record s {
  total_requests = s.total_requests + st.total_requests;
  suspicious = if leb_ℤ st.score (pos 0) then s.suspicious else s.suspicious + 1;
})

unfoldable pub get_stats : Tracker → Stats
unfolding add_stats
get_stats t =
    add_stats t.states
      (record { tracked_ips = length t.states; total_requests = 0; suspicious = 0 })

-- The loop of runGC over a copy of the map, with the number deleted. A state's list element is
-- never nil: PushFront sets it where the state is made.
unfoldable pub sweep_stale : ℕ → Dict IpState → Tracker → ℕ → Tracker × ℕ
sweep_stale threshold [] t deleted = (t, deleted)
sweep_stale threshold ((ip, st) ∷ d) t deleted =
    let gone = record t { states = remove t.states ip; lru = erase ip t.lru } in
    let stale = ltb st.last_seen threshold in
    sweep_stale threshold d (if stale then gone else t) (if stale then deleted + 1 else deleted)

-- runGC: the new tracker, the number deleted and the number left.
unfoldable pub run_gc : ℕ → Tracker → Tracker × ℕ × ℕ
unfolding sweep_stale
run_gc now t =
    let (t', deleted) = sweep_stale (now - t.retention) t.states t 0 in
    (t', deleted, length t'.states)
