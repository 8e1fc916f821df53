-- ===== src/State/Rate.antt =====
-- The two counters of updateRateLocked in internal/core/state/tracker.go.

use mathlib.Core.List.{append-nil, append_assoc}
use arxsentinel.Common.{
  ℕ, ◌+◌, ◌-◌, ◌*◌, ◌≤◌, ◌<◌, ◌≡◌, refl, ◌∙◌, inl, inr, ◌&&◌, List, [], ◌∷◌, ◌++◌, arith, ltb, leb,
  if◌then◌else◌, Bool-cases, All, Text,
}
use arxsentinel.State.{IpState, new_state, update_rate}

-- The requests of an address, by their times, oldest first.
unfoldable pub run_rate : ℕ → List ℕ → IpState → IpState
run_rate w [] s = s
run_rate w (t ∷ ts) s = run_rate w ts (update_rate w t s)

abbrev pub Ascending : ℕ → List ℕ → Type 0
Ascending lo [] = Unit
Ascending lo (t ∷ ts) = (lo ≤ t) × Ascending t ts

-- How many of the times lie in the window of length w that ends before `a`.
unfoldable pub count_before : ℕ → ℕ → List ℕ → ℕ
count_before w a [] = 0
count_before w a (t ∷ ts) = (if leb a (t + w) && ltb t a then 1 else 0) + count_before w a ts

count_before-append :
    (w a : ℕ) (xs ys : List ℕ)
    → count_before w a (xs ++ ys) ≡ count_before w a xs + count_before w a ys
unfolding count_before
count_before-append w a [] ys = omega arith
count_before-append w a (x ∷ xs) ys = omega (arith, count_before-append w a xs ys)

-- No time lies in a window that starts after all of them.
count_before_none :
    (w a b : ℕ) (ts : List ℕ) → All (λ t. t < b) ts → b + w ≤ a → count_before w a ts ≡ 0
unfolding count_before
count_before_none w a b [] h le = refl
count_before_none w a b (t ∷ ts) h le = ground (arith, count_before_none w a b ts h.1)

All-lt_weaken : (b c : ℕ) (ts : List ℕ) → b ≤ c → All (λ t. t < b) ts → All (λ t. t < c) ts
All-lt_weaken b c [] le h = tt
All-lt_weaken b c (t ∷ ts) le h = (omega arith, All-lt_weaken b c ts le h.1)

All-snoc :
    (b : ℕ) (ts : List ℕ) (t : ℕ) → All (λ u. u < b) ts → t < b → All (λ u. u < b) (ts ++ (t ∷ []))
All-snoc b [] t h l = (l, tt)
All-snoc b (x ∷ ts) t h l = (h.0, All-snoc b ts t h.1 l)

record Exact (w last : ℕ) (ts : List ℕ) (s : IpState) : Type 0 where
  started : 0 < s.rate_window_start
  opened : s.rate_window_start ≤ last
  current : last < s.rate_window_start + w
  all_before : All (λ t. t < s.rate_window_start + w) ts
  curr : s.rate_curr_count ≡ count_before w (s.rate_window_start + w) ts
  prev : s.rate_prev_count ≡ count_before w s.rate_window_start ts

module _ (w t : ℕ) (s : IpState) (started : 0 < s.rate_window_start) where
  rate_stale :
      2 * w ≤ t - s.rate_window_start
      → update_rate w t s
        ≡ record s { rate_window_start = t; rate_curr_count = 1; rate_prev_count = 0 }
  unfolding update_rate
  rate_stale h = ground arith

  rate_shift :
      t - s.rate_window_start < 2 * w
      → w ≤ t - s.rate_window_start
      → update_rate w t s ≡ record s {
        rate_prev_count = s.rate_curr_count;
        rate_curr_count = 1;
        rate_window_start = s.rate_window_start + w;
      }
  unfolding update_rate
  rate_shift g h = ground arith

  rate_inside :
      t - s.rate_window_start < w
      → update_rate w t s ≡ record s { rate_curr_count = s.rate_curr_count + 1 }
  unfolding update_rate
  rate_inside h = ground arith

-- How the counts of two windows change by one more time.
count_before_in :
    (w a t : ℕ) (ts : List ℕ)
    → a ≤ t + w
    → t < a
    → count_before w a (ts ++ (t ∷ [])) ≡ count_before w a ts + 1
count_before_in w a t ts g h =
    count_before-append w a ts (t ∷ []) ∙ (unfold count_before in ground arith)

count_before_late :
    (w a t : ℕ) (ts : List ℕ) → a ≤ t → count_before w a (ts ++ (t ∷ [])) ≡ count_before w a ts
count_before_late w a t ts g =
    count_before-append w a ts (t ∷ []) ∙ (unfold count_before in ground arith)

module _ (w last t : ℕ) (pos_w : 0 < w) (later : last ≤ t) where
  Exact-step :
      (ts : List ℕ) (s : IpState)
      → Exact w last ts s
      → Exact w t (ts ++ (t ∷ [])) (update_rate w t s)
  Exact-step ts s v = elim (Bool-cases (ltb (t - s.rate_window_start) w)) [
    | inl inside ↦ rw (rate_inside w t s v.started (ground arith)) (record {
      started = v.started;
      opened = omega arith;
      current = ground arith;
      all_before = All-snoc (s.rate_window_start + w) ts t v.all_before (ground arith);
      curr = ground (arith, count_before_in w (s.rate_window_start + w) t ts);
      prev = ground (arith, count_before_late w s.rate_window_start t ts);
    })
    | inr out ↦ elim (Bool-cases (ltb (t - s.rate_window_start) (2 * w))) [
      | inl next ↦ rw (rate_shift w t s v.started (ground arith) (ground arith)) (record {
        started = omega arith;
        opened = ground arith;
        current = ground arith;
        all_before =
            All-snoc _ ts t
              (All-lt_weaken (s.rate_window_start + w) _ ts (omega arith) v.all_before)
              (ground arith);
        curr = ground (
          arith,
          count_before_in w (s.rate_window_start + w + w) t ts,
          count_before_none w (s.rate_window_start + w + w) (s.rate_window_start + w) ts
              v.all_before,
        );
        prev = ground (arith, count_before_late w (s.rate_window_start + w) t ts);
      })
      | inr gone ↦ rw (rate_stale w t s v.started (ground arith)) (record {
        started = ground arith;
        opened = omega arith;
        current = omega arith;
        all_before =
            All-snoc _ ts t
              (All-lt_weaken (s.rate_window_start + w) _ ts (ground arith) v.all_before)
              (omega arith);
        curr = ground (
          arith,
          count_before_in w (t + w) t ts,
          count_before_none w (t + w) (s.rate_window_start + w) ts v.all_before,
        );
        prev = ground (
          arith,
          count_before_late w t t ts,
          count_before_none w t (s.rate_window_start + w) ts v.all_before,
        );
      })
    ]
  ]

Exact-run :
    (w last : ℕ) (ts later : List ℕ) (s : IpState)
    → 0 < w
    → Ascending last later
    → Exact w last ts s
    → (end : ℕ) × Exact w end (ts ++ later) (run_rate w later s)
unfolding run_rate
Exact-run w last ts [] s p h v = (last, rw append-nil v)
Exact-run w last ts (t ∷ later) s p h v =
    let (end, done) =
      Exact-run w t (ts ++ (t ∷ [])) later (update_rate w t s) p h.1
        (Exact-step w last t p h.0 ts s v) in
    (end, rw append_assoc at done)

Exact-first :
    (w t : ℕ) (ip : Text) (at : ℕ)
    → 0 < w
    → 0 < t
    → Exact w t (t ∷ []) (update_rate w t (new_state ip at))
unfolding update_rate new_state count_before
Exact-first w t ip at p h = record {
  started = h;
  opened = omega arith;
  current = omega arith;
  all_before = (omega arith, tt);
  curr = ground arith;
  prev = ground arith;
}

-- For requests of one address in the order of their times, the first after the zero time, and a
-- positive window w: the current counter is the number of requests in the window that starts at
-- rateWindowStart, the previous counter the number in the window of length w before it, and every
-- request lies before the end of the current window.
pub counters_exact :
    (w t : ℕ) (ts : List ℕ) (ip : Text) (at : ℕ)
    → 0 < w
    → 0 < t
    → Ascending t ts
    → let s = run_rate w (t ∷ ts) (new_state ip at) in
      (s.rate_curr_count ≡ count_before w (s.rate_window_start + w) (t ∷ ts))
      × (s.rate_prev_count ≡ count_before w s.rate_window_start (t ∷ ts))
      × All (λ u. u < s.rate_window_start + w) (t ∷ ts)
unfolding run_rate
counters_exact w t ts ip at p h asc =
    let (end, v) = Exact-run w t (t ∷ []) ts _ p asc (Exact-first w t ip at p h) in
    (v.curr, v.prev, v.all_before)
