-- ===== src/State/Updated.antt =====
-- Update of internal/core/state/tracker.go: what it leaves of each address.

use arxsentinel.Common.{
  ℕ, ◌+◌, ◌*◌, ◌%◌, ◌<◌, ◌≡◌, refl, ap, ◌∙◌, inl, inr, Bool, true, false, not, ◌&&◌, ◌||◌, Option,
  none, some, List, [], ◌∷◌, length, arith, ltb, leb, ◌==◌, if◌then◌else◌, Option-cases, Text,
  text_eq, text_eq_iff, mem, mem-erase, set, replicate,
}
use arxsentinel.Common.Dict.{get-remove}
use arxsentinel.Common.Int.{pos}
use arxsentinel.Event.{LogEntry}
use arxsentinel.State.{
  IpState, Tracker, new_state, observe, count_request, write_path, update_rate, back, evict_lru,
  update, get_state, has, len,
}
use arxsentinel.State.Tracked.{IsConsistent, back-mem, back-none}
use arxsentinel.State.Lru.{room_for_new, base_state, states_after, but_last, erase-back}

-- The state of an address before its first request.
abbrev pub unseen : LogEntry → IpState
unseen e = record {
  ip = e.real_ip;
  first_seen = e.time;
  last_seen = 0;
  total_requests = 0;
  requests_404 = 0;
  path_buf = replicate 64 [];
  path_pos = 0;
  path_full = false;
  path_cache = [];
  path_dirty = false;
  rate_window_start = 0;
  rate_curr_count = 0;
  rate_prev_count = 0;
  score = pos 0;
  score_updated_at = 0;
}

-- The window's start and its two counters after a request: a first one opens the window, one in it
-- counts, one in the next shifts it by its length, and a later one opens it anew.
abbrev pub rate_after : ℕ → ℕ → ℕ × ℕ × ℕ → ℕ × ℕ × ℕ
rate_after w at (start, current, previous) =
    if start == 0
    then (at, 1, previous)
    else if ltb at (start + w)
    then (start, current + 1, previous)
    else if ltb at (start + 2 * w)
    then (start + w, 1, current)
    else (at, 1, 0)

-- The state of an address after a request: the score and its time are as they were.
abbrev pub seen : ℕ → LogEntry → IpState → IpState
seen w e s =
    let (start, current, previous) =
      rate_after w e.time (s.rate_window_start, s.rate_curr_count, s.rate_prev_count) in
    record {
      ip = s.ip;
      first_seen = s.first_seen;
      last_seen = e.time;
      total_requests = s.total_requests + 1;
      requests_404 = if e.status == 404 then s.requests_404 + 1 else s.requests_404;
      path_buf = set s.path_buf s.path_pos e.path;
      path_pos = (s.path_pos + 1) % 64;
      path_full = s.path_full || (s.path_pos + 1) % 64 == 0;
      path_cache = s.path_cache;
      path_dirty = true;
      rate_window_start = start;
      rate_curr_count = current;
      rate_prev_count = previous;
      score = s.score;
      score_updated_at = s.score_updated_at;
    }

observe-seen : (w : ℕ) (e : LogEntry) (s : IpState) → 0 < w → observe w e s ≡ seen w e s
unfolding observe count_request write_path update_rate
observe-seen w e s h = ground arith

-- The last of a list that has each address once.
abbrev pub is_oldest : Text → List Text → Bool
is_oldest j xs = mem j xs && not (mem j (but_last xs))

mem_none : (j : Text) (xs : List Text) → length xs ≡ 0 → mem j xs ≡ false
unfolding mem
mem_none j [] h = refl
mem_none j (x ∷ xs) h = absurd (omega arith)

module _ (e : LogEntry) (t : Tracker) where
  get_state-room :
      (j : Text)
      → IsConsistent t
      → get_state j (room_for_new t)
        ≡ (if leb t.max_ips (len t) && is_oldest j t.lru then none else get_state j t)
  unfolding room_for_new evict_lru get_state
  get_state-room j v = elim (Option-cases (back t.lru)) [
    | inl empty ↦ ground (arith, back-none t.lru empty, mem_none j t.lru)
    | inr (k, last) ↦ ground (
      arith,
      get-remove t.states k j,
      ap (mem j) (erase-back t.lru k v.lru_distinct last),
      mem-erase k j t.lru,
      back-mem t.lru k last,
      text_eq_iff k j,
    )
  ]

  -- What Update leaves of each address, with a positive window, in a consistent tracker. The state
  -- of the entry's address, or a new one, has the entry's time, one request more, one 404 more if
  -- that is its status, its path written at the position of the ring buffer, and the window moved
  -- on; its score is as it was. Every other address keeps its state, but for the least recently
  -- used one, which loses it if the entry's address is new and the tracker full.
  pub get_state-update :
      (j : Text)
      → IsConsistent t
      → 0 < t.rate_window
      → get_state j (update e t).0 ≡ (
          if text_eq e.real_ip j
          then some
              (seen t.rate_window e (elim (get_state e.real_ip t) [ none ↦ unseen e | some s ↦ s ]))
          else if not (has e.real_ip t) && leb t.max_ips (len t) && is_oldest j t.lru
          then none
          else get_state j t)
  get_state-update j v w =
      let before : IpState = elim (get_state e.real_ip t) [ none ↦ unseen e | some s ↦ s ] in
      let base : base_state e t ≡ before = unfold base_state new_state in refl in
      let written : observe t.rate_window e (base_state e t) ≡ seen t.rate_window e before =
        observe-seen t.rate_window e (base_state e t) w ∙ ap (seen t.rate_window e) base in
      let others : Option IpState = get_state j (if has e.real_ip t then t else room_for_new t) in
      states_after e t j
      ∙ ap (λ s. if text_eq e.real_ip j then some s else others) written
      ∙ ground (arith, get_state-room j v)
