-- ===== src/State/ApproxRate.antt =====
-- ApproxRate of internal/core/state/tracker.go.

use arxsentinel.Common.{ℕ, ◌+◌, ◌*◌, ◌/◌, ◌%◌, ◌||◌, ◌==◌, if◌then◌else◌}
use arxsentinel.Common.Int.{sub_ℕ, ℤ, pos, leb_ℤ, pos_part, neg_part}
use arxsentinel.Common.Doubles.{Doubles}
use arxsentinel.State.{IpState}

-- Duration.Seconds()
unfoldable pub seconds : (f : Doubles) → ℕ → f.Double
seconds f d =
    f.add (f.of_int (pos (d / 1000000000)))
      (f.div (f.of_int (pos (d % 1000000000))) (f.of_int (pos 1000000000)))

-- The window is a configured duration, so it may be negative; the time elapsed since the start of
-- the counting window may be too.
unfoldable pub approx_rate : (f : Doubles) → ℕ → ℤ → IpState → f.Double
unfolding seconds
approx_rate f now window s =
    let w = pos_part window in
    let elapsed = sub_ℕ now s.rate_window_start in
    let overshot = sub_ℕ (pos_part elapsed) (w + neg_part elapsed) in
    let one = f.of_int (pos 1) in
    let share = λ (d : ℤ). f.sub one (f.div (f.of_int d) (f.of_int (pos w))) in
    let curr = f.of_int (pos s.rate_curr_count) in
    let prev = f.of_int (pos s.rate_prev_count) in
    if leb_ℤ window (pos 0) || s.rate_window_start == 0
    then f.of_int (pos 0)
    else if leb_ℤ (pos (2 * w)) elapsed
    then f.of_int (pos 0)
    else if leb_ℤ (pos w) elapsed
    then f.div (f.mul curr (share overshot)) (seconds f w)
    else f.div (f.add (f.mul prev (share elapsed)) curr) (seconds f w)
