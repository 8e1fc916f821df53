-- ===== src/Scorer/Decay.antt =====
-- The decay of a score, applyDecay of internal/core/scorer/scorer.go.

use arxsentinel.Common.{ℕ, ◌+◌, ◌-◌, ◌^◌, ◌≤◌, ◌<◌, ◌≡◌, ◌⊎◌, inl, inr, arith}
use arxsentinel.Common.Int.{ℤ, pos, ◌≤ℤ◌}
use arxsentinel.Common.Doubles.{Doubles, IsFraction, IsRounded}
use arxsentinel.Scorer.{apply_decay}

gone_or_live :
    (n last window now : ℕ)
    → ((pos n ≤ℤ pos 0) ⊎ ((last ≡ 0) ⊎ ((window ≡ 0) ⊎ (last + window ≤ now))))
      ⊎ ((0 < n) × (0 < last) × (0 < window) × (now < last + window))
gone_or_live n last window now = grind arith

module _ (f : Doubles) where
  -- The score is gone where it was not positive, was never set, the window is 0, or a whole window
  -- has passed.
  pub decay_gone :
      (current : ℤ) (last window now : ℕ)
      → (current ≤ℤ pos 0) ⊎ ((last ≡ 0) ⊎ ((window ≡ 0) ⊎ (last + window ≤ now)))
      → apply_decay f current last window now ≡ pos 0
  unfolding apply_decay
  decay_gone current last window now h = ground arith

  -- A score that is set and whose window has not passed is scaled.
  decay_live :
      (n last window now : ℕ)
      → 0 < n
      → 0 < last
      → 0 < window
      → last ≤ now
      → now < last + window
      → apply_decay f (pos n) last window now
        ≡ f.trunc (
            f.mul (f.of_int (pos n)) (
              f.sub
                (f.of_int (pos 1))
                (f.div (f.of_int (pos (now - last))) (f.of_int (pos window)))))
  unfolding apply_decay
  decay_live n last window now hn hl hw le lt = ground arith

  module _ (r : IsRounded f) where
    IsFraction-left :
        (last window now : ℕ)
        → last ≤ now
        → now < last + window
        → IsFraction f
            (f.sub (f.of_int (pos 1)) (f.div (f.of_int (pos (now - last))) (f.of_int (pos window))))
    IsFraction-left last window now le lt =
        r.complement _ (r.ratio (now - last) window (omega arith))

    -- Whatever the times, as long as the clock does not run back, the decayed score lies between 0
    -- and the score, for scores that a double holds exactly.
    pub decay_bounds :
        (n last window now : ℕ)
        → n ≤ 2 ^ 53
        → last ≤ now
        → (pos 0 ≤ℤ apply_decay f (pos n) last window now)
          × (apply_decay f (pos n) last window now ≤ℤ pos n)
    decay_bounds n last window now small le = elim (gone_or_live n last window now) [
      | inl gone ↦ rw (decay_gone (pos n) last window now gone) (omega arith, omega arith)
      | inr (hn, hl, hw, lt) ↦
          let left = r.scaled n _ (IsFraction-left last window now le lt) in
          rw (decay_live n last window now hn hl hw le lt) (r.truncated n _ small left.0 left.1)
    ]
