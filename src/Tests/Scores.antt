-- ===== src/Tests/Scores.antt =====
-- The scorer at concrete inputs, with thousandths for the floating-point numbers.

use arxsentinel.Common.{◌≤◌, ◌≡◌, refl, not, [], ◌∷◌, arith, keep, codes, join, mem}
use arxsentinel.Common.Int.{pos, ◌+ℤ◌, ◌≤ℤ◌}
use arxsentinel.Common.Doubles.{thousandths, thousandths-IsRounded}
use arxsentinel.Event.{LogEntry}
use arxsentinel.State.{new_state}
use arxsentinel.Scorer.{run_one, Detector, apply_decay, evaluate, level_for}
use arxsentinel.Scorer.Decay.{decay_bounds}
use arxsentinel.Scorer.Hits.{results, hits, total, modules_of, reasons_of}
use arxsentinel.Scorer.Verdicts.{rank, evaluate_lem, evaluate_exempt, evaluate_quiet}
use arxsentinel.Tests.Inputs.{ip_a, request, scored_state, two_detectors, silent_scorer}

abbrev a_request : LogEntry
a_request = request ip_a (codes "/x") 1150

-- Half of the window has passed: 40 decays to 20, and two hits add 65.
half_decayed :
    (evaluate thousandths two_detectors 1150 1150 [] a_request scored_state).0.score ≡ pos 85
unfolding evaluate run_one new_state ◌+ℤ◌ mem join
half_decayed = refl

decay_bounds_example :
    (pos 0 ≤ℤ apply_decay thousandths (pos 40) 1000 300 1150)
    × (apply_decay thousandths (pos 40) 1000 300 1150 ≤ℤ pos 40)
decay_bounds_example =
    decay_bounds thousandths thousandths-IsRounded 40 1000 300 1150 (omega arith) (omega arith)

evaluate_lem_example :
    let found = hits (results 1150 [] a_request two_detectors.detectors scored_state) in
    let v = (evaluate thousandths two_detectors 1150 1150 [] a_request scored_state).0 in
    let s' = (evaluate thousandths two_detectors 1150 1150 [] a_request scored_state).1 in
    (v.score
      ≡ apply_decay thousandths scored_state.score scored_state.score_updated_at 300 1150
        +ℤ total found)
    × (v.modules ≡ modules_of found)
    × (v.reason ≡ join (codes ",") (reasons_of found))
    × (v.level ≡ level_for two_detectors v.score)
    × (s'.score ≡ v.score)
    × (s'.score_updated_at ≡ 1150)
evaluate_lem_example = evaluate_lem thousandths two_detectors 1150 1150 [] a_request scored_state

evaluate_exempt_example :
    evaluate thousandths two_detectors 1150 1150 (codes "ua" ∷ []) a_request scored_state
    ≡ evaluate thousandths
        (record two_detectors {
          detectors =
              keep (λ (d : Detector). not (mem d.name (codes "ua" ∷ []))) two_detectors.detectors;
        })
        1150
        1150
        []
        a_request
        scored_state
evaluate_exempt_example =
    evaluate_exempt thousandths two_detectors 1150 1150 (codes "ua" ∷ []) a_request scored_state

nothing_found : hits (results 1150 [] a_request silent_scorer.detectors scored_state) ≡ []
unfolding results mem
nothing_found = refl

evaluate_quiet_example :
    let v = (evaluate thousandths silent_scorer 1150 1150 [] a_request scored_state).0 in
    (v.score ≤ℤ pos 40) × (rank v.level ≤ rank (level_for silent_scorer (pos 40)))
evaluate_quiet_example =
    evaluate_quiet thousandths silent_scorer 1150 1150 [] a_request scored_state 40
      thousandths-IsRounded (omega arith) refl (omega arith) (unfold new_state in omega arith)
      nothing_found
