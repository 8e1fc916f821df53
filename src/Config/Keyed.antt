-- ===== src/Config/Keyed.antt =====
-- internal/sys/config/config.go: the loops that refuse a repeated key.

use arxsentinel.Common.{
  ℕ, ◌+◌, ◌≡◌, refl, ◌↔◌, Bool, true, false, Option, none, some, List, [], ◌∷◌, map, arith,
  if◌then◌else◌, is_some, All, Text, text_eq_iff, mem, Distinct,
}
use arxsentinel.Config.{first_error_iff, first_error_keyed}

-- Each of the keys is neither among those seen before nor among those after it.
abbrev Fresh : List Text → List Text → Type 0
Fresh seen [] = Unit
Fresh seen (k ∷ ks) = (mem k seen ≡ false) × Fresh (k ∷ seen) ks

abbrev Apart : List Text → List Text → Type 0
Apart seen [] = Unit
Apart seen (k ∷ ks) = (mem k seen ≡ false) × Apart seen ks

Apart-cons :
    (j : Text) (seen ks : List Text) → Apart (j ∷ seen) ks ↔ ((mem j ks ≡ false) × Apart seen ks)
unfolding mem
Apart-cons j seen [] = (λ h. (refl, tt), λ h. tt)
Apart-cons j seen (k ∷ ks) =
    let (there, back) = Apart-cons j seen ks in
    (
      λ (a, h). (
        ground (arith, (there h).0, text_eq_iff j k, text_eq_iff k j),
        (ground arith, (there h).1),
      ),
      λ (m, (a, h)). (ground (arith, text_eq_iff j k, text_eq_iff k j), back (ground arith, h)),
    )

Fresh-Distinct : (seen ks : List Text) → Fresh seen ks ↔ (Distinct ks × Apart seen ks)
Fresh-Distinct seen [] = (λ h. (tt, tt), λ h. tt)
Fresh-Distinct seen (k ∷ ks) =
    let (there, back) = Fresh-Distinct (k ∷ seen) ks in
    let (split, join_up) = Apart-cons k seen ks in
    (
      λ (a, h). let (m, apart) = split (there h).1 in ((m, (there h).0), (a, apart)),
      λ ((m, d), (a, apart)). (a, back (d, join_up (m, apart))),
    )

Apart-nil : (ks : List Text) → Apart [] ks
unfolding mem
Apart-nil [] = tt
Apart-nil (k ∷ ks) = (refl, Apart-nil ks)

if_none :
    {A : Type 0} (b : Bool) (o : Option A)
    → is_some o ≡ true
    → ((if b then o else none) ≡ none) ↔ (b ≡ false)
if_none true none h = absurd (ground arith)
if_none true (some a) h = ground arith
if_none false o h = (λ e. refl, λ e. refl)

module _ {ℓ} {A : Type ℓ} (key : A → Text) (before after repeated : ℕ → A → Option Text)
    (P : A → Type 0) where
  -- The checks of an element alone say that P holds of it, and a repetition is an error.
  abbrev pub IsChecked : Type ℓ
  IsChecked =
      ((i : ℕ) (a : A) → ((before i a ≡ none) × (after i a ≡ none)) ↔ P a)
      × ((i : ℕ) (a : A) → is_some (repeated i a) ≡ true)

  keyed_iff :
      IsChecked
      → (i : ℕ) (seen : List Text) (l : List A)
      → (first_error_keyed key before after repeated i seen l ≡ none)
        ↔ (All P l × Fresh seen (map key l))
  keyed_iff c i seen [] = (λ h. (tt, tt), λ h. refl)
  keyed_iff (each, again) i seen (a ∷ rest) =
      let (there, back) = first_error_iff (
        before i a
        ∷ (if mem (key a) seen then repeated i a else none)
        ∷ after i a
        ∷ first_error_keyed key before after repeated (i + 1) (key a ∷ seen) rest
        ∷ []) in
      let (in_rest, of_rest) = keyed_iff (each, again) (i + 1) (key a ∷ seen) rest in
      let (test, pass) = if_none (mem (key a) seen) (repeated i a) (again i a) in
      (
        λ h.
            let (b, (k, (f, (r, _)))) = there h in
            let (all, fresh) = in_rest r in (((each i a).0 (b, f), all), (test k, fresh)),
        λ ((p, all), (k, fresh)).
            let (b, f) = (each i a).1 p in back (b, (pass k, (f, (of_rest (all, fresh), tt)))),
      )

  -- The loop finds no error exactly if each element passes its checks and no key is repeated.
  pub first_error_keyed_iff :
      IsChecked
      → (l : List A)
      → (first_error_keyed key before after repeated 0 [] l ≡ none)
        ↔ (All P l × Distinct (map key l))
  first_error_keyed_iff c l =
      let (there, back) = keyed_iff c 0 [] l in
      let (split, join_up) = Fresh-Distinct [] (map key l) in
      (
        λ h. ((there h).0, (split (there h).1).0),
        λ (all, d). back (all, join_up (d, Apart-nil (map key l))),
      )
