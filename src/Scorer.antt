-- ===== src/Scorer.antt =====
-- internal/core/scorer/scorer.go. A detector is what the plugin interface of arx-core asks for: a
-- name, and a function of the address's state, the event and the time that it reads. It returns
-- the state too, since RecentPaths rebuilds its cache. Logging is not modelled.
pub mod Decay
pub mod Hits
pub mod Verdicts
use mathlib.Core.Path.{subst, ap₂}
use mathlib.Core.Bool.{false≢true}
use Prim.Native.Nat.{max}
use mathlib.Core.List.{reverse, append-nil, append_assoc}
use arxsentinel.Common.{
  ℕ, zero, suc, ◌+◌, ◌-◌, ◌*◌, ◌/◌, ◌%◌, ◌^◌, ◌≤◌, ◌<◌, ◌≡◌, refl, sym, ap, ◌∙◌, ◌≢◌, ◌↔◌, ◌⊎◌, inl,
  inr, Bool, true, false, not, ◌&&◌, ◌||◌, Option, none, some, List, [], ◌∷◌, ◌++◌, map, arith, ltb,
  leb, ◌==◌, if◌then◌else◌, Bool-cases, Option-cases, is_some, is_none, tests, length, take, drop,
  set, replicate, keep, some_of, first_of_list, is_empty, length-append, All, Text, codes, text_eq,
  text_eq_iff, text_eq_refl, has_prefix, has_suffix, contains, to_lower, join, trim_space, mem,
  erase, Distinct, mem-erase, erase-Distinct, length-erase-mem, erase_absent, mem-append,
}
use arxsentinel.Common.Dict.{
  Dict, get, put, remove, keys, get-put, get-remove, mem-keys, length-keys, keys-remove, keys-put,
  Distinct-snoc, length-put, length-remove, put-Distinct,
}
use arxsentinel.Common.Int.{
  sub_ℕ, ℤ, pos, negsuc, ◌+ℤ◌, ◌≤ℤ◌, leb_ℤ, int_laws, pos_part, neg_part, +ℤ_parts, eq_of_parts,
  +ℤ_assoc,
}
use arxsentinel.Common.Doubles.{Doubles}
use arxsentinel.Event.{LogEntry}
use arxsentinel.State.{IpState, set_score}

-- plugin.DetectResult
pub record DetectResult : Type 0 where
  pub score : ℤ
  pub module_name : Text
  pub reason : Text

abbrev pub no_result : DetectResult
no_result = record { score = pos 0; module_name = []; reason = [] }

pub record Detector : Type 0 where
  pub name : Text
  pub detect : ℕ → LogEntry → IpState → DetectResult × IpState

-- "", "WARN", "THREAT"
pub data Level : Type 0 where
  normal warn threat : Level

pub record Scorer : Type 0 where
  pub alert_threshold : ℤ
  pub ban_threshold : ℤ
  pub window : ℕ
  pub detectors : List Detector

unfoldable pub level_for : Scorer → ℤ → Level
level_for sc score =
    if leb_ℤ sc.ban_threshold score
    then threat
    else if leb_ℤ sc.alert_threshold score
    then warn
    else normal

module _ (f : Doubles) where
  -- `elapsed` is the difference of two times, and may be negative.
  unfoldable pub apply_decay : ℤ → ℕ → ℕ → ℕ → ℤ
  apply_decay current last window now =
      let elapsed = sub_ℕ now last in
      let fraction = f.div (f.of_int elapsed) (f.of_int (pos window)) in
      let decayed = f.mul (f.of_int current) (f.sub (f.of_int (pos 1)) fraction) in
      if leb_ℤ current (pos 0) || (last == 0 || window == 0)
      then pos 0
      else if leb_ℤ (pos window) elapsed
      then pos 0
      else f.trunc decayed

-- delta, modulesHit and reasons.
pub record Collected : Type 0 where
  pub delta : ℤ
  pub modules : List Text
  pub reasons : List Text

-- What the loop does with one result.
unfoldable pub add_result : DetectResult → Collected → Collected
add_result res acc = if leb_ℤ res.score (pos 0) then acc else record {
  delta = acc.delta +ℤ res.score;
  modules = acc.modules ++ (res.module_name ∷ []);
  reasons =
      if is_empty res.reason
      then acc.reasons
      else acc.reasons ++ ((res.module_name ++ (codes ":" ++ res.reason)) ∷ []);
}

-- One round of the loop, with the detector exempt or not.
unfoldable pub run_one :
    ℕ → List Text → LogEntry → Detector → Collected × IpState → Collected × IpState
unfolding add_result
run_one clock exempt e d (acc, s) =
    let (res, s') = d.detect clock e s in
    if mem d.name exempt then (acc, s) else (add_result res acc, s')

unfoldable pub collect :
    ℕ → List Text → LogEntry → List Detector → Collected × IpState → Collected × IpState
collect clock exempt e [] r = r
collect clock exempt e (d ∷ ds) r = collect clock exempt e ds (run_one clock exempt e d r)

pub record Verdict : Type 0 where
  pub level : Level
  pub score : ℤ
  pub modules : List Text
  pub reason : Text

abbrev pub nothing_collected : Collected
nothing_collected = record { delta = pos 0; modules = []; reasons = [] }

-- `now` is the time that Evaluate reads, `clock` the one that the detectors read. The set of
-- exempt detectors is the list of its names, empty for nil.
unfoldable pub evaluate :
    (f : Doubles) → Scorer → ℕ → ℕ → List Text → LogEntry → IpState → Verdict × IpState
unfolding apply_decay collect level_for
evaluate f sc now clock exempt e s =
    let decayed = apply_decay f s.score s.score_updated_at sc.window now in
    let (acc, s') = collect clock exempt e sc.detectors (nothing_collected, s) in
    let new_score = decayed +ℤ acc.delta in
    (
      record {
        level = level_for sc new_score;
        score = new_score;
        modules = acc.modules;
        reason = join (codes ",") acc.reasons;
      },
      set_score new_score now s',
    )
