-- ===== src/Blocklist/Lines.antt =====
-- internal/core/blocklist/parser.go: the patterns that the parsers give are lines, none empty.
use mathlib.Core.Path.{subst}
use arxsentinel.Common.{
  ℕ, zero, suc, ◌≡◌, refl, sym, ap, ◌∙◌, inl, inr, Bool, true, false, ◌||◌, Option, none, some,
  List, [], ◌∷◌, ◌++◌, map, arith, ◌==◌, if◌then◌else◌, Bool-cases, Option-cases, length, drop,
  if_elim, is_empty, All, Text, codes, text_eq, has_prefix, to_lower, trim_space,
}
use arxsentinel.Common.{guard_some, some_eq}
use arxsentinel.Common.{is_space, lower_byte, is_ascii, trim_left, trim_right}
use arxsentinel.Blocklist.{
  unescape, drop_pair, strip_wildcards, is_anchor, unanchored, normalize_pattern,
}
use arxsentinel.Blocklist.Parsers.{
  cut_line, split_lines, word_mark, lazy_name, find_names, parse_line, parse_name, parse_each,
  parse_plain_text, parse_nginx_map, new_parser,
}

-- A text has a line end.
unfoldable pub has_line_end : Text → Bool
has_line_end [] = false
has_line_end (c ∷ s) = (c == 10) || has_line_end s

has_line_end-append : (s t : Text) → has_line_end (s ++ t) ≡ (has_line_end s || has_line_end t)
unfolding has_line_end
has_line_end-append [] t = refl
has_line_end-append (c ∷ s) t = ground (arith, has_line_end-append s t)

-- Texts without a line end, one after the other.
pub beside :
    (s t : Text) → has_line_end s ≡ false → has_line_end t ≡ false → has_line_end (s ++ t) ≡ false
beside s t h g = has_line_end-append s t ∙ rw (h, g) refl

-- One line, and not an empty one.
abbrev pub IsLine : Text → Type 0
IsLine s = (has_line_end s ≡ false) × (is_empty s ≡ false)

-- What the steps of the parsers do to a text without a line end.
unescape-has_line_end :
    (b : Bool) (s : Text) → has_line_end s ≡ false → has_line_end (unescape b s) ≡ false
unfolding has_line_end unescape
unescape-has_line_end false [] h = refl
unescape-has_line_end true [] h = refl
unescape-has_line_end false (c ∷ s) h = ground (arith, unescape-has_line_end (c == 92) s)
unescape-has_line_end true (c ∷ s) h = ground (arith, unescape-has_line_end false s)

drop_pair-has_line_end :
    (x : ℕ) (b : Bool) (s : Text) → has_line_end s ≡ false → has_line_end (drop_pair x b s) ≡ false
unfolding has_line_end drop_pair
drop_pair-has_line_end x false [] h = refl
drop_pair-has_line_end x true [] h = refl
drop_pair-has_line_end x false (c ∷ s) h = ground (arith, drop_pair-has_line_end x (c == 46) s)
drop_pair-has_line_end x true (c ∷ s) h = ground (arith, drop_pair-has_line_end x (c == 46) s)

strip_wildcards-has_line_end :
    (fuel : ℕ) (s : Text) → has_line_end s ≡ false → has_line_end (strip_wildcards fuel s) ≡ false
unfolding strip_wildcards
strip_wildcards-has_line_end zero s h = h
strip_wildcards-has_line_end (suc fuel) s h =
    let q : Text = drop_pair 43 false (drop_pair 42 false s) in
    let one : has_line_end q ≡ false =
      drop_pair-has_line_end 43 false (drop_pair 42 false s)
        (drop_pair-has_line_end 42 false s h) in
    if_elim (λ (t : Text). has_line_end t ≡ false) (text_eq q s) (λ same. one)
      (λ other. strip_wildcards-has_line_end fuel q one)

trim_left-has_line_end :
    (p : ℕ → Bool) (s : Text) → has_line_end s ≡ false → has_line_end (trim_left p s) ≡ false
unfolding has_line_end trim_left
trim_left-has_line_end p [] h = refl
trim_left-has_line_end p (c ∷ s) h = ground (arith, trim_left-has_line_end p s)

trim_right-has_line_end :
    (p : ℕ → Bool) (s : Text) → has_line_end s ≡ false → has_line_end (trim_right p s) ≡ false
unfolding has_line_end trim_right
trim_right-has_line_end p [] h = refl
trim_right-has_line_end p (c ∷ s) h = ground (arith, trim_right-has_line_end p s)

trim_space-has_line_end : (s : Text) → has_line_end s ≡ false → has_line_end (trim_space s) ≡ false
unfolding trim_space
trim_space-has_line_end s h =
    trim_left-has_line_end is_space (trim_right is_space s) (trim_right-has_line_end is_space s h)

normalize_pattern-has_line_end :
    (s : Text) → has_line_end s ≡ false → has_line_end (normalize_pattern s) ≡ false
unfolding normalize_pattern unanchored
normalize_pattern-has_line_end s h = trim_left-has_line_end is_anchor _ (
    trim_right-has_line_end is_anchor _ (
      trim_space-has_line_end _ (
        strip_wildcards-has_line_end (suc (length (unanchored (unescape false s)))) _ (
          trim_right-has_line_end (λ c. c == 36) _
            (trim_left-has_line_end (λ c. c == 94) _ (unescape-has_line_end false s h))))))

lowered :
    (s : Text)
    → (has_line_end (map lower_byte s) ≡ has_line_end s)
      × (is_empty (map lower_byte s) ≡ is_empty s)
unfolding has_line_end lower_byte
lowered [] = (refl, refl)
lowered (c ∷ s) = (ground (arith, (lowered s).0), refl)

cut_line-has_line_end :
    (s : Text)
    → (has_line_end (cut_line s).0 ≡ false) × All (λ l. has_line_end l ≡ false) (cut_line s).1
unfolding has_line_end
cut_line-has_line_end [] = (refl, tt)
cut_line-has_line_end (c ∷ s) =
    let (first, rest) = cut_line-has_line_end s in
    elim (Bool-cases (c == 10)) [
      | inl e ↦ rw e (refl, (first, rest))
      | inr e ↦ rw e (ground arith, rest)
    ]

snoc-has_line_end :
    (s : Text) (c : ℕ)
    → has_line_end s ≡ false
    → (c == 10) ≡ false
    → has_line_end (s ++ (c ∷ [])) ≡ false
unfolding has_line_end
snoc-has_line_end [] c h e = ground arith
snoc-has_line_end (d ∷ s) c h e = ground (arith, snoc-has_line_end s c)

lazy_name-has_line_end :
    (taken s name rest : Text)
    → has_line_end taken ≡ false
    → lazy_name taken s ≡ some (name, rest)
    → has_line_end name ≡ false
unfolding lazy_name
lazy_name-has_line_end taken [] name rest h e = absurd (ground arith)
lazy_name-has_line_end taken (c ∷ s) name rest h e =
    let longer : Text = taken ++ (c ∷ []) in
    let found : Option (Text × Text) =
      if has_prefix s word_mark
      then some (longer, drop (length word_mark) s)
      else lazy_name longer s in
    let (inside, same) = guard_some (c == 10) found (name, rest) e in
    let one : has_line_end longer ≡ false = snoc-has_line_end taken c h inside in
    elim (Bool-cases (has_prefix s word_mark)) [
      | inl m ↦
          let pair : some (longer, drop (length word_mark) s) ≡ some (name, rest) = rw m at same in
          rw (sym (ap (λ (r : Text × Text). r.0) (some_eq _ _ pair))) one
      | inr m ↦
          let later : lazy_name longer s ≡ some (name, rest) = rw m at same in
          lazy_name-has_line_end longer s name rest one later
    ]

find_names-has_line_end :
    (fuel : ℕ) (s : Text) → All (λ l. has_line_end l ≡ false) (find_names fuel s)
unfolding find_names
find_names-has_line_end zero s = tt
find_names-has_line_end (suc fuel) [] = tt
find_names-has_line_end (suc fuel) (c ∷ s) =
    let later = find_names-has_line_end fuel s in
    if_elim (λ (l : List Text). All (λ t. has_line_end t ≡ false) l) (has_prefix (c ∷ s) word_mark)
      (λ m. elim (Option-cases (lazy_name [] (drop (length word_mark) (c ∷ s)))) [
        | inl e ↦ rw (e, All) later
        | inr ((name, rest), e) ↦
            rw (e, All)
              (
                lazy_name-has_line_end [] (drop (length word_mark) (c ∷ s)) name rest
                    (unfold has_line_end in refl) e,
                find_names-has_line_end fuel rest,
              )
      ])
      (λ m. later)

-- The lower case of a line is a line.
abbrev pub KeepsLines : (Text → Text) → Type 0
KeepsLines other = (s : Text) → IsLine s → IsLine (other s)

module _ (other : Text → Text) (k : KeepsLines other) where
  to_lower-IsLine : (s : Text) → IsLine s → IsLine (to_lower other s)
  unfolding to_lower
  to_lower-IsLine s (h, e) =
      if_elim (λ (t : Text). IsLine t) (is_ascii s)
        (λ ascii. ((lowered s).0 ∙ h, (lowered s).1 ∙ e)) (λ wide. k s (h, e))

  abbrev Parses : (Text → Option Text) → Type 0
  Parses parse = (s p : Text) → has_line_end s ≡ false → parse s ≡ some p → IsLine p

  checked-IsLine :
      (p out : Text)
      → has_line_end p ≡ false
      → (if is_empty p then none else some (to_lower other p)) ≡ some out
      → IsLine out
  checked-IsLine p out h e =
      let (full, same) = guard_some (is_empty p) (some (to_lower other p)) out e in
      subst IsLine (some_eq (to_lower other p) out same) (to_lower-IsLine p (h, full))

  parse_line-IsLine : Parses (parse_line other)
  unfolding parse_line
  parse_line-IsLine s out h e =
      let t : Text = trim_space s in
      let (used, rest) =
        guard_some (is_empty t || has_prefix t (codes "#"))
          (if is_empty (normalize_pattern t)
            then none
            else some (to_lower other (normalize_pattern t)))
          out e in
      checked-IsLine (normalize_pattern t) out
        (normalize_pattern-has_line_end t (trim_space-has_line_end s h)) rest

  parse_name-IsLine : Parses (parse_name other)
  unfolding parse_name
  parse_name-IsLine s out h e =
      checked-IsLine (normalize_pattern s) out (normalize_pattern-has_line_end s h) e

  parse_each-IsLine :
      (parse : Text → Option Text)
      → Parses parse
      → (l : List Text) → All (λ s. has_line_end s ≡ false) l
      → All IsLine (parse_each other parse l)
  unfolding parse_each
  parse_each-IsLine parse ok [] h = tt
  parse_each-IsLine parse ok (s ∷ rest) (h, all) =
      let more = parse_each-IsLine parse ok rest all in
      elim (Option-cases (parse s)) [
        | inl e ↦ rw (e, All) more
        | inr (p, e) ↦ rw (e, All) (ok s p h e, more)
      ]

  parse_plain_text-IsLine : (content : Text) → All IsLine (parse_plain_text other content)
  unfolding parse_plain_text split_lines
  parse_plain_text-IsLine content =
      parse_each-IsLine (parse_line other) parse_line-IsLine (split_lines content)
        (cut_line-has_line_end content)

  pub parse_nginx_map-IsLine : (content : Text) → All IsLine (parse_nginx_map other content)
  unfolding parse_nginx_map
  parse_nginx_map-IsLine content =
      parse_each-IsLine (parse_name other) parse_name-IsLine
        (find_names (suc (length content)) content)
        (find_names-has_line_end (suc (length content)) content)

  -- The parser, if there is one, gives lines.
  abbrev pub GivesLines : Option (Text → List Text) → Type 0
  GivesLines none = Unit
  GivesLines (some parse) = (content : Text) → All IsLine (parse content)

  pub new_parser-GivesLines : (format : Text) → GivesLines (new_parser other format)
  unfolding new_parser
  new_parser-GivesLines format =
      if_elim GivesLines (text_eq format (codes "plain_text")) (λ plain. parse_plain_text-IsLine)
        (λ e.
          if_elim GivesLines (text_eq format (codes "nginx_map")) (λ nginx. parse_nginx_map-IsLine)
            (λ unknown. tt))
