-- ===== src/Bans/Removed.antt =====
-- The removal of the expired bans from the map of an executor.

use arxsentinel.Common.{
  ◌≡◌, refl, sym, inl, inr, Bool, false, ◌&&◌, ◌||◌, Option, none, some, List, [], ◌∷◌, arith,
  if◌then◌else◌, Bool-cases, Text, text_eq, text_eq_iff, mem, Distinct,
}
use arxsentinel.Common.Dict.{Dict, get, keys}

module _ {ℓ} {V : Type ℓ} (p : V → Bool) where
  -- The keys whose value passes the test.
  abbrev pub dropped : Dict V → List Text
  dropped [] = []
  dropped ((j, v) ∷ d) = let rest = dropped d in if p v then j ∷ rest else rest

  abbrev pub keeps : Option V → Option V
  keeps none = none
  keeps (some v) = if p v then none else some v

  dropped_cons :
      (j : Text) (v : V) (d : Dict V) (k : Text)
      → mem k (dropped ((j, v) ∷ d)) ≡ ((p v && text_eq j k) || mem k (dropped d))
  unfolding mem
  dropped_cons j v d k = ground arith

  dropped_absent : (d : Dict V) (k : Text) → mem k (keys d) ≡ false → mem k (dropped d) ≡ false
  unfolding keys mem
  dropped_absent [] k h = refl
  dropped_absent ((j, v) ∷ d) k h = ground (arith, dropped_absent d k, dropped_cons j v d k)

  -- What is left when these keys are removed.
  pub get-dropped :
      (d : Dict V) (k : Text)
      → Distinct (keys d)
      → (if mem k (dropped d) then none else get d k) ≡ keeps (get d k)
  unfolding keys get
  get-dropped [] k h = unfold mem in refl
  get-dropped ((j, v) ∷ d) k (a, h) = elim (Bool-cases (text_eq j k)) [
    | inl e ↦
        let same : j ≡ k = (text_eq_iff j k).0 e in
        let none_left : mem k (dropped d) ≡ false = dropped_absent d k (rw (sym same) a) in
        rw (dropped_cons j v d k, e, none_left) (ground arith)
    | inr e ↦ rw (dropped_cons j v d k, e) (ground (arith, get-dropped d k h))
  ]
