-- ===== src/Blocklist.antt =====
-- internal/core/blocklist/parser.go: the normalisation of a pattern.
pub mod Wildcards
pub mod Parsers
pub mod Lists
pub mod Lines
pub mod Stored
pub mod Merged
use mathlib.Core.Path.{subst, ap₂}
use mathlib.Core.Bool.{false≢true}
use Prim.Native.Nat.{max}
use mathlib.Core.List.{reverse, append-nil, append_assoc}
use arxsentinel.Common.{
  ℕ, zero, suc, ◌+◌, ◌-◌, ◌*◌, ◌/◌, ◌%◌, ◌^◌, ◌≤◌, ◌<◌, ◌≡◌, refl, sym, ap, ◌∙◌, ◌≢◌, ◌↔◌, ◌⊎◌, inl,
  inr, Bool, true, false, not, ◌&&◌, ◌||◌, Option, none, some, List, [], ◌∷◌, ◌++◌, map, arith, ltb,
  leb, ◌==◌, if◌then◌else◌, Bool-cases, Option-cases, is_some, is_none, tests, length, take, drop,
  set, ◌>>=◌, if_elim, replicate, keep, some_of, first_of_list, is_empty, length-append, All, Text,
  codes, text_eq, text_eq_iff, text_eq_refl, has_prefix, has_suffix, contains, to_lower, join,
  trim_space, mem, erase, Distinct, mem-erase, erase-Distinct, length-erase-mem, erase_absent,
  mem-append,
}
use arxsentinel.Common.Dict.{
  Dict, get, put, remove, keys, get-put, get-remove, mem-keys, length-keys, keys-remove, keys-put,
  Distinct-snoc, length-put, length-remove, put-Distinct,
}
use arxsentinel.Common.Int.{
  sub_ℕ, ℤ, pos, negsuc, ◌+ℤ◌, ◌≤ℤ◌, leb_ℤ, int_laws, pos_part, neg_part, +ℤ_parts, eq_of_parts,
  +ℤ_assoc,
}
use arxsentinel.Common.{is_digit, trim_left, trim_right}

abbrev is_alnum : ℕ → Bool
is_alnum c = (leb 48 c && leb c 57) || ((leb 65 c && leb c 90) || (leb 97 c && leb c 122))

-- unescapeRegexRe.ReplaceAllString(p, "$1"); the flag says that a backslash stands before the text.
unfoldable pub unescape : Bool → Text → Text
unescape false [] = []
unescape true [] = 92 ∷ []
unescape false (c ∷ t) = let rest = unescape (c == 92) t in if c == 92 then rest else c ∷ rest
unescape true (c ∷ t) =
    let rest = unescape false t in if is_alnum c then 92 ∷ c ∷ rest else c ∷ rest

-- strings.ReplaceAll(p, "." + x, ""), for another byte x than the dot; the flag says that a dot
-- stands before the text.
unfoldable pub drop_pair : ℕ → Bool → Text → Text
drop_pair x false [] = []
drop_pair x true [] = 46 ∷ []
drop_pair x false (c ∷ t) = let rest = drop_pair x (c == 46) t in if c == 46 then rest else c ∷ rest
drop_pair x true (c ∷ t) =
    let rest = drop_pair x (c == 46) t in
    if c == x then rest else if c == 46 then 46 ∷ rest else 46 ∷ c ∷ rest

-- The loop of step 3. A pass that changes the text makes it shorter.
unfoldable pub strip_wildcards : ℕ → Text → Text
unfolding drop_pair
strip_wildcards zero p = p
strip_wildcards (suc fuel) p =
    let q = drop_pair 43 false (drop_pair 42 false p) in
    let rest = strip_wildcards fuel q in if text_eq q p then q else rest

abbrev pub is_anchor : ℕ → Bool
is_anchor c = c == 94 || c == 36

-- Step 2: TrimLeft(p, "^"), then TrimRight(p, "$").
unfoldable pub unanchored : Text → Text
unfolding trim_left trim_right
unanchored p = trim_right (λ c. c == 36) (trim_left (λ c. c == 94) p)

unfoldable pub normalize_pattern : Text → Text
unfolding unescape unanchored strip_wildcards trim_left trim_right trim_space
normalize_pattern p =
    let b = unanchored (unescape false p) in
    trim_left is_anchor (trim_right is_anchor (trim_space (strip_wildcards (suc (length b)) b)))
