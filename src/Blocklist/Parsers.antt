-- ===== src/Blocklist/Parsers.antt =====
-- internal/core/blocklist/parser.go: the parsers of whole lists.

use arxsentinel.Common.{
  ℕ, zero, suc, ◌||◌, Option, none, some, List, [], ◌∷◌, ◌++◌, ◌==◌, if◌then◌else◌, length, drop,
  is_empty, Text, codes, text_eq, has_prefix, to_lower, trim_space,
}
use arxsentinel.Blocklist.{normalize_pattern}

-- bytes.Split(data, "\n"): the text up to the first line end, and the lines after it.
abbrev pub cut_line : Text → Text × List Text
cut_line [] = ([], [])
cut_line (c ∷ s) =
    let (line, lines) = cut_line s in if c == 10 then ([], line ∷ lines) else (c ∷ line, lines)

unfoldable pub split_lines : Text → List Text
split_lines s = let (line, lines) = cut_line s in line ∷ lines

-- The literal of the expression nginxPatternRe, before and after the name.
abbrev pub word_mark : Text
word_mark = codes "(?:\\b)"

-- The shortest text of one byte or more, without a line end, that the mark follows, with the text
-- after the mark; `.+?` and the mark. The first argument holds the bytes taken so far.
unfoldable pub lazy_name : Text → Text → Option (Text × Text)
lazy_name taken [] = none
lazy_name taken (c ∷ s) =
    let longer = lazy_name (taken ++ (c ∷ [])) s in
    let found : Option (Text × Text) =
      if has_prefix s word_mark
      then some (taken ++ (c ∷ []), drop (length word_mark) s)
      else longer in
    if c == 10 then none else found

-- FindAllSubmatch: the names that are found from left to right, on fuel for the bytes.
unfoldable pub find_names : ℕ → Text → List Text
unfolding lazy_name
find_names zero s = []
find_names (suc fuel) [] = []
find_names (suc fuel) (c ∷ s) =
    let later = find_names fuel s in
    let at_mark : List Text = elim (lazy_name [] (drop (length word_mark) (c ∷ s))) [
      | none ↦ later
      | some (name, rest) ↦ name ∷ find_names fuel rest
    ] in
    if has_prefix (c ∷ s) word_mark then at_mark else later

-- other is the lower case of a text that is not ASCII.
module _ (other : Text → Text) where
  -- One line of PlainTextParser: none is a line that is skipped.
  unfoldable pub parse_line : Text → Option Text
  unfolding trim_space normalize_pattern to_lower
  parse_line line =
      let s : Text = trim_space line in
      let p : Text = normalize_pattern s in
      if is_empty s || has_prefix s (codes "#")
      then none
      else if is_empty p
      then none
      else some (to_lower other p)

  unfoldable pub parse_name : Text → Option Text
  unfolding normalize_pattern to_lower
  parse_name name =
      let p : Text = normalize_pattern name in if is_empty p then none else some (to_lower other p)

  -- The loops of both parsers append the patterns that are not skipped.
  unfoldable pub parse_each : (Text → Option Text) → List Text → List Text
  parse_each parse [] = []
  parse_each parse (s ∷ rest) =
      let more = parse_each parse rest in elim (parse s) [ none ↦ more | some p ↦ p ∷ more ]

  unfoldable pub parse_plain_text : Text → List Text
  unfolding split_lines parse_line parse_each
  parse_plain_text content = parse_each parse_line (split_lines content)

  unfoldable pub parse_nginx_map : Text → List Text
  unfolding find_names parse_name parse_each
  parse_nginx_map content = parse_each parse_name (find_names (suc (length content)) content)

  -- NewParser; none is its error. Neither parser fails.
  unfoldable pub new_parser : Text → Option (Text → List Text)
  unfolding parse_plain_text parse_nginx_map
  new_parser format =
      if text_eq format (codes "plain_text")
      then some parse_plain_text
      else if text_eq format (codes "nginx_map")
      then some parse_nginx_map
      else none
