-- ===== src/Detectors.antt =====
-- pkg/detectorplugins: the built-in detectors. Each has its configuration as a record, its factory,
-- and its Detect as a detector of the scorer.
pub mod Bruteforce
pub mod Rate
pub mod Overflow
pub mod Probe
pub mod NoAsset
pub mod UserAgent
pub mod Badbot
pub mod Sequence
pub mod Crawler
pub mod Crawling
use mathlib.Core.Path.{subst, ap₂}
use mathlib.Core.Bool.{false≢true}
use Prim.Native.Nat.{max}
use mathlib.Core.List.{reverse, append-nil, append_assoc}
use arxsentinel.Common.{
  ℕ, zero, suc, ◌+◌, ◌-◌, ◌*◌, ◌/◌, ◌%◌, ◌^◌, ◌≤◌, ◌<◌, ◌≡◌, refl, sym, ap, ◌∙◌, ◌≢◌, ◌↔◌, ◌⊎◌, inl,
  inr, Bool, true, false, not, ◌&&◌, ◌||◌, Option, none, some, List, [], ◌∷◌, ◌++◌, map, arith, ltb,
  leb, ◌==◌, if◌then◌else◌, Bool-cases, Option-cases, is_some, is_none, tests, length, take, drop,
  set, replicate, keep, some_of, first_of_list, is_empty, length-append, All, Text, codes, text_eq,
  text_eq_iff, text_eq_refl, has_prefix, has_suffix, contains, to_lower, join, trim_space, mem,
  erase, Distinct, mem-erase, erase-Distinct, length-erase-mem, erase_absent, mem-append,
}
use arxsentinel.Common.Dict.{
  Dict, get, put, remove, keys, get-put, get-remove, mem-keys, length-keys, keys-remove, keys-put,
  Distinct-snoc, length-put, length-remove, put-Distinct,
}
use arxsentinel.Common.Int.{
  sub_ℕ, ℤ, pos, negsuc, ◌+ℤ◌, ◌≤ℤ◌, leb_ℤ, int_laws, pos_part, neg_part, +ℤ_parts, eq_of_parts,
  +ℤ_assoc,
}
use arxsentinel.Common.Doubles.{Doubles}

-- The getters of arx-core's detector package, applied to the Params of one detector: each takes
-- the key and the default.
pub record Params (f : Doubles) : Type 0 where
  pub get_int : Text → ℤ → ℤ
  pub get_float : Text → f.Double → f.Double
  pub get_bool : Text → Bool → Bool
  pub get_strings : Text → List Text → List Text
  pub get_duration : Text → ℤ → ℤ
