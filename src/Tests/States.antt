-- ===== src/Tests/States.antt =====
-- The tracker at concrete inputs.

use arxsentinel.Common.{
  ◌+◌, ◌-◌, ◌≤◌, ◌<◌, ◌≡◌, refl, none, List, [], ◌∷◌, arith, if◌then◌else◌, All, Text, codes,
  text_eq, mem, erase,
}
use arxsentinel.Common.Dict.{get, put, remove, keys}
use arxsentinel.Common.Int.{pos}
use arxsentinel.Event.{LogEntry}
use arxsentinel.State.{
  IpState, new_state, new_tracker, update, get_state, has, len, update_rate, run_gc, recent_paths,
}
use arxsentinel.State.Paths.{Use, line, read, scored, apply_uses, paths_of, recent_paths-last_n}
use arxsentinel.State.Rate.{run_rate, count_before, counters_exact}
use arxsentinel.State.Tracked.{IsConsistent}
use arxsentinel.State.Updated.{get_state-update}
use arxsentinel.State.Lru.{update-IsConsistent, update_bounded, update-lru, but_last}
use arxsentinel.State.Gc.{is_stale, run_gc_lem}
use arxsentinel.Tests.Inputs.{
  ip_a, ip_b, ip_c, request, empty_tracker, one_address, two_addresses, fresh,
}

empty-IsConsistent : IsConsistent empty_tracker
unfolding new_tracker keys mem get
empty-IsConsistent = record {
  lru_distinct = tt;
  keys_distinct = tt;
  same = λ k. refl;
  sizes = refl;
}

update-IsConsistent_example : IsConsistent one_address
update-IsConsistent_example =
    update-IsConsistent (request ip_a (codes "/x") 1000) empty_tracker empty-IsConsistent

pub two-IsConsistent : IsConsistent two_addresses
two-IsConsistent =
    update-IsConsistent (request ip_b (codes "/y") 1010) one_address
      (update-IsConsistent (request ip_a (codes "/x") 1000) empty_tracker empty-IsConsistent)

-- What the runs below compute with.
runs : Unit {0}
unfolding update new_tracker get put remove keys erase mem has len text_eq run_gc get_state
    recent_paths
runs = tt

-- A third address in a tracker for two.
abbrev third : LogEntry
third = request ip_c (codes "/z") 1020

three_lru : (update third two_addresses).0.lru ≡ ip_c ∷ ip_b ∷ []
unfolding runs
three_lru = refl

update_bounded_example : len (update third two_addresses).0 ≤ 2
unfolding runs
update_bounded_example = update_bounded third two_addresses two-IsConsistent (omega arith)

update-lru_example : (update third two_addresses).0.lru ≡ ip_c ∷ but_last two_addresses.lru
unfolding runs
update-lru_example = update-lru third two_addresses two-IsConsistent

-- The tracker is full, and the first of the two addresses makes room.
get_state-update_example : get_state ip_a (update third two_addresses).0 ≡ none
unfolding runs but_last
get_state-update_example = get_state-update third two_addresses ip_a two-IsConsistent (omega arith)

run_gc_example :
    IsConsistent (run_gc 1105 two_addresses).0
    × ((k : Text)
        → get_state k (run_gc 1105 two_addresses).0 ≡ (
            if is_stale (1105 - 100) (get_state k two_addresses)
            then none
            else get_state k two_addresses))
    × ((run_gc 1105 two_addresses).1 + (run_gc 1105 two_addresses).2 ≡ 2)
    × ((run_gc 1105 two_addresses).2 ≡ len (run_gc 1105 two_addresses).0)
unfolding runs
run_gc_example = run_gc_lem 1105 two_addresses two-IsConsistent

-- The first address was last seen at 1000, before 1005.
gc_removes : (run_gc 1105 two_addresses).0.lru ≡ ip_b ∷ []
unfolding runs
gc_removes = refl

abbrev some_uses : List Use
some_uses =
    line (request ip_a (codes "/1") 1000)
    ∷ read
    ∷ scored (pos 5) 1001
    ∷ line (request ip_a (codes "/2") 1001)
    ∷ []

recent_paths-last_n_example :
    (recent_paths (apply_uses 60 some_uses fresh)).0 ≡ codes "/1" ∷ codes "/2" ∷ []
unfolding runs paths_of
recent_paths-last_n_example = recent_paths-last_n 60 some_uses ip_a 1000

counters_exact_example :
    let s = run_rate 60 (1000 ∷ 1010 ∷ 1070 ∷ []) fresh in
    (s.rate_curr_count ≡ count_before 60 (s.rate_window_start + 60) (1000 ∷ 1010 ∷ 1070 ∷ []))
    × (s.rate_prev_count ≡ count_before 60 s.rate_window_start (1000 ∷ 1010 ∷ 1070 ∷ []))
    × All (λ u. u < s.rate_window_start + 60) (1000 ∷ 1010 ∷ 1070 ∷ [])
counters_exact_example =
    counters_exact 60 1000 (1010 ∷ 1070 ∷ []) ip_a 1000 (omega arith) (omega arith) (omega arith)

abbrev counted : IpState
counted = run_rate 60 (1000 ∷ 1010 ∷ 1070 ∷ []) fresh

counts : (counted.rate_curr_count ≡ 1) × (counted.rate_prev_count ≡ 2)
unfolding run_rate update_rate new_state
counts = (refl, refl)
