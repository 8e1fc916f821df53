-- ===== src/Scorer/Hits.antt =====
-- The loop over the detectors in Evaluate of internal/core/scorer/scorer.go.
use mathlib.Core.Path.{subst}
use mathlib.Core.List.{append-nil, append_assoc}
use arxsentinel.Common.{
  ℕ, ◌≡◌, refl, sym, inl, inr, Bool, true, false, not, List, [], ◌∷◌, ◌++◌, map, arith,
  if◌then◌else◌, Bool-cases, keep, is_empty, Text, codes, mem,
}
use arxsentinel.Common.Int.{ℤ, pos, ◌+ℤ◌, ◌≤ℤ◌, leb_ℤ, int_laws, +ℤ_parts, +ℤ_assoc}
use arxsentinel.Event.{LogEntry}
use arxsentinel.State.{IpState}
use arxsentinel.Scorer.{DetectResult, Detector, Collected, add_result, run_one, collect}

-- The results of the detectors that are not exempt, in their order, and the state they leave.
unfoldable pub results : ℕ → List Text → LogEntry → List Detector → IpState → List DetectResult
results clock exempt e [] s = []
results clock exempt e (d ∷ ds) s =
    let (res, s') = d.detect clock e s in
    let here = results clock exempt e ds s' in
    let skipped = results clock exempt e ds s in if mem d.name exempt then skipped else res ∷ here

abbrev pub is_hit : DetectResult → Bool
is_hit r = not (leb_ℤ r.score (pos 0))

abbrev pub hits : List DetectResult → List DetectResult
hits = keep is_hit

unfoldable pub total : List DetectResult → ℤ
total [] = pos 0
total (r ∷ rs) = r.score +ℤ total rs

abbrev pub modules_of : List DetectResult → List Text
modules_of = map (λ (r : DetectResult). r.module_name)

-- "module:reason", of the hits that give a reason.
abbrev pub reasons_of : List DetectResult → List Text
reasons_of rs =
    map (λ (r : DetectResult). r.module_name ++ (codes ":" ++ r.reason))
      (keep (λ (r : DetectResult). not (is_empty r.reason)) rs)

pub record Sums (acc : Collected) (rs : List DetectResult) (out : Collected) : Type 0 where
  pub delta : out.delta ≡ acc.delta +ℤ total (hits rs)
  pub modules : out.modules ≡ acc.modules ++ modules_of (hits rs)
  pub reasons : out.reasons ≡ acc.reasons ++ reasons_of (hits rs)

+ℤ_zero : (a : ℤ) → a +ℤ pos 0 ≡ a
+ℤ_zero a = omega int_laws

Sums-nil : (acc : Collected) → Sums acc [] acc
unfolding total
Sums-nil acc = record {
  delta = sym (+ℤ_zero acc.delta);
  modules = sym (append-nil acc.modules);
  reasons = sym (append-nil acc.reasons);
}

Sums-cons :
    (r : DetectResult) (acc : Collected) (rs : List DetectResult) (out : Collected)
    → Sums (add_result r acc) rs out
    → Sums acc (r ∷ rs) out
unfolding add_result total
Sums-cons r acc rs out v = elim (Bool-cases (leb_ℤ r.score (pos 0))) [
  | inl miss ↦ record {
    delta = ground (arith, v.delta);
    modules = ground (arith, v.modules);
    reasons = ground (arith, v.reasons);
  }
  | inr hit ↦ record {
    delta = ground (arith, v.delta, +ℤ_assoc acc.delta r.score (total (hits rs)));
    modules =
        ground
          (arith, v.modules, append_assoc acc.modules (r.module_name ∷ []) (modules_of (hits rs)));
    reasons = ground (
      arith,
      v.reasons,
      append_assoc acc.reasons ((r.module_name ++ (codes ":" ++ r.reason)) ∷ [])
          (reasons_of (hits rs)),
    );
  }
]

module _ (clock : ℕ) (exempt : List Text) (e : LogEntry) (d : Detector) (acc : Collected)
    (s : IpState) where
  run_one_exempt : mem d.name exempt ≡ true → run_one clock exempt e d (acc, s) ≡ (acc, s)
  unfolding run_one
  run_one_exempt h = rw h

  run_one_active :
      mem d.name exempt ≡ false
      → run_one clock exempt e d (acc, s)
        ≡ (add_result (d.detect clock e s).0 acc, (d.detect clock e s).1)
  unfolding run_one
  run_one_active h = rw h

pub collect-Sums :
    (clock : ℕ) (exempt : List Text) (e : LogEntry) (ds : List Detector) (acc : Collected)
    (s : IpState)
    → Sums acc (results clock exempt e ds s) (collect clock exempt e ds (acc, s)).0
unfolding collect results
collect-Sums clock exempt e [] acc s = Sums-nil acc
collect-Sums clock exempt e (d ∷ ds) acc s = elim (Bool-cases (mem d.name exempt)) [
  | inl out ↦ rw out (
      subst (λ r. Sums acc (results clock exempt e ds s) (collect clock exempt e ds r).0)
        (sym (run_one_exempt clock exempt e d acc s out)) (collect-Sums clock exempt e ds acc s))
  | inr run ↦ rw run (
      subst
        (λ r.
          Sums acc ((d.detect clock e s).0 ∷ results clock exempt e ds (d.detect clock e s).1)
            (collect clock exempt e ds r).0)
        (sym (run_one_active clock exempt e d acc s run))
        (Sums-cons (d.detect clock e s).0 acc _ _ (
          collect-Sums clock exempt e ds (add_result (d.detect clock e s).0 acc)
            (d.detect clock e s).1)))
]

-- Exempting detectors by name is the same as running the others alone.
pub collect_exempt :
    (clock : ℕ) (exempt : List Text) (e : LogEntry) (ds : List Detector) (acc : Collected)
    (s : IpState)
    → collect clock exempt e ds (acc, s)
      ≡ collect clock [] e (keep (λ (d : Detector). not (mem d.name exempt)) ds) (acc, s)
unfolding collect
collect_exempt clock exempt e [] acc s = refl
collect_exempt clock exempt e (d ∷ ds) acc s = elim (Bool-cases (mem d.name exempt)) [
  | inl out ↦
      rw (run_one_exempt clock exempt e d acc s out, out) (collect_exempt clock exempt e ds acc s)
  | inr run ↦
      rw
        (
          run_one_active clock exempt e d acc s run,
          run,
          run_one_active clock [] e d acc s (unfold mem in refl),
        )
        (collect_exempt clock exempt e ds (add_result (d.detect clock e s).0 acc)
          (d.detect clock e s).1)
]

pub total_nonneg : (rs : List DetectResult) → pos 0 ≤ℤ total (hits rs)
unfolding total
total_nonneg [] = omega arith
total_nonneg (r ∷ rs) = ground (arith, total_nonneg rs, +ℤ_parts r.score (total (hits rs)))
