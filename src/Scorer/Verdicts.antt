-- ===== src/Scorer/Verdicts.antt =====
-- What Evaluate of internal/core/scorer/scorer.go returns and stores.

use arxsentinel.Common.{
  ℕ, ◌^◌, ◌≤◌, ◌≡◌, refl, ap, ◌∙◌, not, List, [], arith, keep, Text, codes, join, mem,
}
use arxsentinel.Common.Int.{ℤ, pos, ◌+ℤ◌, ◌≤ℤ◌, int_laws}
use arxsentinel.Common.Doubles.{Doubles, IsRounded}
use arxsentinel.Event.{LogEntry}
use arxsentinel.State.{IpState, set_score}
use arxsentinel.Scorer.{
  Detector, Scorer, Level, normal, warn, threat, nothing_collected, level_for, apply_decay,
  evaluate,
}
use arxsentinel.Scorer.Decay.{decay_bounds}
use arxsentinel.Scorer.Hits.{
  results, hits, total, modules_of, reasons_of, collect-Sums, collect_exempt,
}

pub rank : Level → ℕ
rank normal = 0
rank warn = 1
rank threat = 2

-- With the alert threshold below the ban threshold, a higher score has no lower level.
level_for_mono :
    (sc : Scorer) (a b : ℤ)
    → sc.alert_threshold ≤ℤ sc.ban_threshold
    → a ≤ℤ b
    → rank (level_for sc a) ≤ rank (level_for sc b)
unfolding level_for rank
level_for_mono sc a b t h = ground arith

zero_+ℤ : (a : ℤ) → pos 0 +ℤ a ≡ a
zero_+ℤ a = omega int_laws

+ℤ_zero : (a : ℤ) → a +ℤ pos 0 ≡ a
+ℤ_zero a = omega int_laws

module _ (f : Doubles) (sc : Scorer) (now clock : ℕ) (exempt : List Text) (e : LogEntry)
    (s : IpState) where
  -- Evaluate's score is the decayed score plus the scores of the hits, the results with a positive
  -- score of the detectors that are not exempt. Its modules are theirs, in order, its reason joins
  -- the reasons that they give, its level is that of the score, and the score and the time that
  -- it decayed to are what the state keeps.
  pub evaluate_lem :
      let found = hits (results clock exempt e sc.detectors s) in
      let v = (evaluate f sc now clock exempt e s).0 in
      let s' = (evaluate f sc now clock exempt e s).1 in
      (v.score ≡ apply_decay f s.score s.score_updated_at sc.window now +ℤ total found)
      × (v.modules ≡ modules_of found)
      × (v.reason ≡ join (codes ",") (reasons_of found))
      × (v.level ≡ level_for sc v.score)
      × (s'.score ≡ v.score)
      × (s'.score_updated_at ≡ now)
  unfolding evaluate set_score
  evaluate_lem =
      let sums = collect-Sums clock exempt e sc.detectors nothing_collected s in
      (
        ap (λ d. apply_decay f s.score s.score_updated_at sc.window now +ℤ d)
            (sums.delta ∙ zero_+ℤ _),
        sums.modules,
        ap (λ l. join (codes ",") l) sums.reasons,
        refl,
        refl,
        refl,
      )

  -- Evaluate with exempt detectors is Evaluate of the scorer without them.
  pub evaluate_exempt :
      evaluate f sc now clock exempt e s
      ≡ evaluate f
          (record sc { detectors = keep (λ (d : Detector). not (mem d.name exempt)) sc.detectors })
          now
          clock
          []
          e
          s
  unfolding evaluate
  evaluate_exempt = rw (collect_exempt clock exempt e sc.detectors nothing_collected s)

  -- A line that no active detector hits lowers no threshold: with scores of at most 2^53 and a
  -- clock that does not run back, neither the score nor the level that the score had rises.
  pub evaluate_quiet :
      (n : ℕ)
      → IsRounded f
      → sc.alert_threshold ≤ℤ sc.ban_threshold
      → s.score ≡ pos n
      → n ≤ 2 ^ 53
      → s.score_updated_at ≤ now
      → hits (results clock exempt e sc.detectors s) ≡ []
      → let v = (evaluate f sc now clock exempt e s).0 in
        (v.score ≤ℤ s.score) × (rank v.level ≤ rank (level_for sc s.score))
  evaluate_quiet n r t sn small le quiet =
      let left = decay_bounds f r n s.score_updated_at sc.window now small le in
      let none_found : total (hits (results clock exempt e sc.detectors s)) ≡ pos 0 =
        rw quiet (unfold total in refl) in
      let sum = evaluate_lem.0 in
      let score : (evaluate f sc now clock exempt e s).0.score
          ≡ apply_decay f (pos n) s.score_updated_at sc.window now =
        sum
        ∙ ap (λ d. apply_decay f s.score s.score_updated_at sc.window now +ℤ d) none_found
        ∙ +ℤ_zero _
        ∙ ap (λ a. apply_decay f a s.score_updated_at sc.window now) sn in
      let falls : (evaluate f sc now clock exempt e s).0.score ≤ℤ s.score = rw (score, sn) left.1 in
      (falls, rw (evaluate_lem.3) (level_for_mono sc _ s.score t falls))
