-- ===== src/Common/Dict.antt =====
-- Go maps with string keys, as association lists. The program never depends on their order.
use Prim.Native.Nat.{suc}
use mathlib.Core.Path.{◌≡◌, refl, ap, ◌∙◌}
use mathlib.Core.Bool.{true, false}
use mathlib.Core.Logic.{inl, inr}
use mathlib.Core.Option.{Option, none, some}
use mathlib.Core.List.{List, [], ◌∷◌, ◌++◌}
use native.Mathlib.Omega.{arith}
use arxsentinel.Common.Tests.{Bool-cases, if◌then◌else◌, is_some}
use arxsentinel.Common.Lists.{length}
use arxsentinel.Common.Texts.{Text, text_eq, text_eq_iff, text_eq_refl}
use arxsentinel.Common.Keys.{length-erase-mem, mem, erase, Distinct, mem-append}

abbrev pub Dict {ℓ} : Type ℓ → Type ℓ
Dict V = List (Text × V)

module _ {ℓ} {V : Type ℓ} where
  -- m[k]
  unfoldable pub get : Dict V → Text → Option V
  get [] k = none
  get ((j, v) ∷ d) k = if text_eq j k then some v else get d k

  -- m[k] = v
  unfoldable pub put : Dict V → Text → V → Dict V
  put [] k v = (k, v) ∷ []
  put ((j, w) ∷ d) k v = let rest = put d k v in if text_eq j k then (j, v) ∷ d else (j, w) ∷ rest

  -- delete(m, k)
  unfoldable pub remove : Dict V → Text → Dict V
  remove [] k = []
  remove ((j, w) ∷ d) k = let rest = remove d k in if text_eq j k then rest else (j, w) ∷ rest

  unfoldable pub keys : Dict V → List Text
  keys [] = []
  keys ((j, w) ∷ d) = j ∷ keys d

  pub get-put :
      (d : Dict V) (k : Text) (v : V) (j : Text)
      → get (put d k v) j ≡ (if text_eq k j then some v else get d j)
  unfolding get put
  get-put [] k v j = refl
  get-put ((i, w) ∷ d) k v j =
      ground (arith, get-put d k v j, text_eq_iff i k, text_eq_iff i j, text_eq_iff k j)

  pub get-remove :
      (d : Dict V) (k j : Text) → get (remove d k) j ≡ (if text_eq k j then none else get d j)
  unfolding get remove
  get-remove [] k j = ground arith
  get-remove ((i, w) ∷ d) k j =
      ground (arith, get-remove d k j, text_eq_iff i k, text_eq_iff i j, text_eq_iff k j)

  pub mem-keys : (d : Dict V) (k : Text) → mem k (keys d) ≡ is_some (get d k)
  unfolding mem keys get
  mem-keys [] k = refl
  mem-keys ((j, w) ∷ d) k = ground (arith, mem-keys d k)

  pub length-keys : (d : Dict V) → length (keys d) ≡ length d
  unfolding keys
  length-keys [] = refl
  length-keys ((j, w) ∷ d) = ap suc (length-keys d)

  pub keys-remove : (d : Dict V) (k : Text) → keys (remove d k) ≡ erase k (keys d)
  unfolding keys remove erase
  keys-remove [] k = refl
  keys-remove ((j, w) ∷ d) k = ground (arith, keys-remove d k)

  -- A write to a new key adds it at the end, one to a present key leaves the keys.
  pub keys-put :
      (d : Dict V) (k : Text) (v : V)
      → keys (put d k v) ≡ (if is_some (get d k) then keys d else keys d ++ (k ∷ []))
  unfolding keys put get
  keys-put [] k v = refl
  keys-put ((j, w) ∷ d) k v = ground (arith, keys-put d k v)

  pub length-put :
      (d : Dict V) (k : Text) (v : V)
      → length (put d k v) ≡ (if is_some (get d k) then length d else suc (length d))
  unfolding put get
  length-put [] k v = refl
  length-put ((j, w) ∷ d) k v = ground (arith, length-put d k v)

  pub length-remove :
      (d : Dict V) (k : Text)
      → Distinct (keys d)
      → is_some (get d k) ≡ true
      → suc (length (remove d k)) ≡ length d
  length-remove d k h m =
      let kept : length (keys (remove d k)) ≡ length (erase k (keys d)) =
        ap (λ l. length l) (keys-remove d k) in
      omega (
        arith,
        kept,
        length-keys d,
        length-keys (remove d k),
        length-erase-mem k (keys d) h (mem-keys d k ∙ m),
      )

pub Distinct-snoc :
    (k : Text) (xs : List Text) → Distinct xs → mem k xs ≡ false → Distinct (xs ++ (k ∷ []))
unfolding mem
Distinct-snoc k [] h m = (refl, tt)
Distinct-snoc k (x ∷ xs) h m = (
  ground (arith, mem-append x xs (k ∷ []), text_eq_iff k x, text_eq_iff x k, text_eq_refl x),
  Distinct-snoc k xs h.1 (ground arith),
)

pub put-Distinct {ℓ} :
    {V : Type ℓ} (d : Dict V) (k : Text) (v : V) → Distinct (keys d) → Distinct (keys (put d k v))
put-Distinct d k v h = elim (Bool-cases (is_some (get d k))) [
  | inl old ↦ rw (keys-put d k v, old) h
  | inr new ↦ rw (keys-put d k v, new) (Distinct-snoc k (keys d) h (mem-keys d k ∙ new))
]
