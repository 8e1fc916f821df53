-- ===== src/Blocklist/Wildcards.antt =====
-- internal/core/blocklist/parser.go: what is left of the wildcards of a pattern.
use mathlib.Core.Path.{subst}
use arxsentinel.Common.{
  ℕ, zero, suc, ◌≤◌, ◌<◌, ◌≡◌, refl, ap, ◌∙◌, ◌≢◌, inl, inr, Bool, true, false, [], ◌∷◌, arith, leb,
  ◌==◌, if◌then◌else◌, Bool-cases, length, Text, codes, text_eq, text_eq_iff, has_prefix, contains,
  trim_space,
}
use arxsentinel.Common.{trim_left, trim_right, leb→le, is_space}
use arxsentinel.Blocklist.{
  unescape, unanchored, is_anchor, drop_pair, strip_wildcards, normalize_pattern,
}

abbrev dotted_if : Bool → Text → Text
dotted_if b p = if b then 46 ∷ p else p

-- ReplaceAll gives no longer text, and the same text only if there is no occurrence.
drop_pair-le : (x : ℕ) (b : Bool) (p : Text) → length (drop_pair x b p) ≤ length (dotted_if b p)
unfolding drop_pair
drop_pair-le x false [] = omega arith
drop_pair-le x true [] = omega arith
drop_pair-le x false (c ∷ t) = ground (arith, drop_pair-le x (c == 46) t)
drop_pair-le x true (c ∷ t) = ground (arith, drop_pair-le x (c == 46) t)

drop_pair_same :
    (x : ℕ) (b : Bool) (p : Text)
    → x ≢ 46
    → length (dotted_if b p) ≤ length (drop_pair x b p)
    → (drop_pair x b p ≡ dotted_if b p) × (contains (dotted_if b p) (46 ∷ x ∷ []) ≡ false)
unfolding drop_pair contains has_prefix
drop_pair_same x false [] n h = (refl, refl)
drop_pair_same x true [] n h = (refl, refl)
drop_pair_same x false (c ∷ t) n h = elim (Bool-cases (c == 46)) [
  | inl e ↦
      let same : 46 ≡ c = ground arith in
      rw e (
        let (i, j) = drop_pair_same x true t n (ground arith) in
        (i ∙ ap (λ d. d ∷ t) same, ground (arith, j)))
  | inr e ↦ rw e (let (i, j) = drop_pair_same x false t n (ground arith) in (ap (λ u. c ∷ u) i, j))
]
drop_pair_same x true (c ∷ t) n h = elim (Bool-cases (c == x)) [
  | inl d ↦ absurd (ground (arith, drop_pair-le x (c == 46) t))
  | inr d ↦ elim (Bool-cases (c == 46)) [
    | inl e ↦
        let same : 46 ≡ c = ground arith in
        let (i, j) = drop_pair_same x true t n (ground arith) in
        rw (d, e) (ap (λ u. 46 ∷ u) (i ∙ ap (λ d. d ∷ t) same), ground (arith, j))
    | inr e ↦
        let (i, j) = drop_pair_same x false t n (ground arith) in
        rw (d, e) (ap (λ u. 46 ∷ c ∷ u) i, j)
  ]
]

abbrev pub NoWildcard : Text → Type 0
NoWildcard p = (contains p (codes ".*") ≡ false) × (contains p (codes ".+") ≡ false)

both_same :
    (p : Text)
    → length p ≤ length (drop_pair 43 false (drop_pair 42 false p))
    → (drop_pair 43 false (drop_pair 42 false p) ≡ p) × NoWildcard p
both_same p h =
    let a = drop_pair-le 42 false p in
    let b = drop_pair-le 43 false (drop_pair 42 false p) in
    let (i, j) = drop_pair_same 42 false p (ground arith) (omega (arith, b)) in
    let (k, l) = drop_pair_same 43 false (drop_pair 42 false p) (ground arith) (omega (arith, a)) in
    (k ∙ i, (j, subst (λ u. contains u (codes ".+") ≡ false) i l))

shorter :
    (p : Text)
    → text_eq (drop_pair 43 false (drop_pair 42 false p)) p ≡ false
    → length (drop_pair 43 false (drop_pair 42 false p)) < length p
shorter p e =
    let q = drop_pair 43 false (drop_pair 42 false p) in
    elim (Bool-cases (leb (length p) (length q))) [
      | inl l ↦
          let (k, clean) = both_same p (leb→le (length p) (length q) l) in
          absurd (ground (arith, (text_eq_iff q p).1 k))
      | inr l ↦ ground arith
    ]

strip_wildcards-NoWildcard :
    (fuel : ℕ) (p : Text) → length p < fuel → NoWildcard (strip_wildcards fuel p)
unfolding strip_wildcards
strip_wildcards-NoWildcard zero p h = absurd (omega arith)
strip_wildcards-NoWildcard (suc fuel) p h =
    let q = drop_pair 43 false (drop_pair 42 false p) in
    elim (Bool-cases (text_eq q p)) [
      | inl e ↦
          let same : q ≡ p = (text_eq_iff q p).0 e in
          let longer : length p ≤ length q = omega (arith, ap length same) in
          rw (e, same) ((both_same p longer).1)
      | inr e ↦ rw e (strip_wildcards-NoWildcard fuel q (omega (arith, shorter p e, h)))
    ]

-- Trimming makes no new occurrence of two bytes.
module _ (q : ℕ → Bool) (a b : ℕ) where
  trim_left_pair :
      (s : Text) → contains s (a ∷ b ∷ []) ≡ false → contains (trim_left q s) (a ∷ b ∷ []) ≡ false
  unfolding trim_left contains has_prefix
  trim_left_pair [] h = h
  trim_left_pair (c ∷ s) h = ground (arith, trim_left_pair s)

  trim_right_head :
      (s : Text) → has_prefix (trim_right q s) (b ∷ []) ≡ true → has_prefix s (b ∷ []) ≡ true
  unfolding trim_right has_prefix
  trim_right_head [] h = h
  trim_right_head (c ∷ s) h = ground arith

  trim_right_pair :
      (s : Text) → contains s (a ∷ b ∷ []) ≡ false → contains (trim_right q s) (a ∷ b ∷ []) ≡ false
  unfolding trim_right contains has_prefix
  trim_right_pair [] h = h
  trim_right_pair (c ∷ s) h = ground (arith, trim_right_pair s, trim_right_head s)

trims_pair :
    (b : ℕ) (p : ℕ → Bool) (s : Text)
    → contains s (46 ∷ b ∷ []) ≡ false
    → contains (trim_left p (trim_right p (trim_space s))) (46 ∷ b ∷ []) ≡ false
unfolding trim_space
trims_pair b p s h =
    trim_left_pair p 46 b _ (
      trim_right_pair p 46 b _ (trim_left_pair is_space 46 b _ (trim_right_pair is_space 46 b s h)))

-- A normalised pattern has neither of the wildcards ".*" and ".+" left, those included that the
-- removal of others brings together.
pub normalize_pattern-NoWildcard : (p : Text) → NoWildcard (normalize_pattern p)
unfolding normalize_pattern
normalize_pattern-NoWildcard p =
    let b = unanchored (unescape false p) in
    let (x, y) = strip_wildcards-NoWildcard (suc (length b)) b (omega arith) in
    (trims_pair 42 is_anchor _ x, trims_pair 43 is_anchor _ y)
