-- ===== src/Blocklist/Stored.antt =====
-- internal/core/blocklist: the patterns that are stored are read back.
use mathlib.Core.Path.{subst}
use arxsentinel.Common.{
  ◌≡◌, refl, sym, ap, ◌∙◌, inl, inr, true, false, not, Option, none, some, List, [], ◌∷◌, ◌++◌,
  arith, Bool-cases, if_elim, keep, is_empty, All, Text, codes, text_eq, text_eq_iff, text_eq_refl,
  join, mem,
}
use arxsentinel.Common.Dict.{get, put, get-put}
use arxsentinel.Blocklist.Parsers.{cut_line, split_lines, new_parser}
use arxsentinel.Blocklist.Lines.{
  has_line_end, IsLine, KeepsLines, GivesLines, new_parser-GivesLines, parse_nginx_map-IsLine,
}
use arxsentinel.Blocklist.Lists.{
  SourceConfig, ListConfig, Automata, Bolt, Fetch, Manager, patterns_of, fetch_source,
  source_patterns, save_to_bolt, load_from_bolt, set_matcher, fetch_and_update, start_list,
}
use arxsentinel.Blocklist.Merged.{given, with_rest, fetch_and_update-Refreshed, not_empty}

cut_line-whole : (s : Text) → has_line_end s ≡ false → cut_line s ≡ (s, [])
unfolding has_line_end
cut_line-whole [] h = refl
cut_line-whole (c ∷ s) h = rw (cut_line-whole s (ground arith)) (ground arith)

pub cut_line-append :
    (s t : Text)
    → has_line_end s ≡ false
    → cut_line (s ++ (10 ∷ t)) ≡ (s, (cut_line t).0 ∷ (cut_line t).1)
unfolding has_line_end
cut_line-append [] t h = refl
cut_line-append (c ∷ s) t h = rw (cut_line-append s t (ground arith)) (ground arith)

-- The lines of joined lines are these lines.
pub split_lines-join :
    (lines : List Text)
    → All IsLine lines
    → is_empty lines ≡ false
    → split_lines (join (codes "\n") lines) ≡ lines
unfolding split_lines join
split_lines-join [] h e = absurd (ground arith)
split_lines-join (s ∷ []) (h, _) e = rw (cut_line-whole s h.0) refl
split_lines-join (s ∷ t ∷ rest) (h, all) e =
    rw (cut_line-append s (join (codes "\n") (t ∷ rest)) h.0)
      (ap (λ l. s ∷ l) (split_lines-join (t ∷ rest) all refl))

keep_lines : (lines : List Text) → All IsLine lines → keep (λ s. not (is_empty s)) lines ≡ lines
keep_lines [] h = refl
keep_lines (s ∷ rest) (h, all) = rw (h.1, keep_lines rest all) refl

-- A test of the members is one of all elements.
members : (xs : List Text) → ((p : Text) → mem p xs ≡ true → IsLine p) → All IsLine xs
unfolding mem
members [] h = tt
members (x ∷ xs) h = (h x (ground (arith, text_eq_refl x)), members xs (λ p m. h p (ground arith)))

found-IsLine : (p : Text) (ys : List Text) → All IsLine ys → mem p ys ≡ true → IsLine p
unfolding mem
found-IsLine p [] h e = absurd (ground arith)
found-IsLine p (y ∷ ys) (h, rest) e = elim (Bool-cases (text_eq y p)) [
  | inl same ↦ subst IsLine ((text_eq_iff y p).0 same) h
  | inr other ↦ found-IsLine p ys rest (ground arith)
]

same-IsLine :
    (xs ys : List Text) → ((p : Text) → mem p xs ≡ mem p ys) → All IsLine ys → All IsLine xs
same-IsLine xs ys same h = members xs (λ p m. found-IsLine p ys h (sym (same p) ∙ m))

module _ {M S N : Type 0} (other : Text → Text) (automata : Automata M) (bolt : Bolt S)
    (fetch : Fetch N) where
  -- A value that is put, and is not empty, is written without an error and read back.
  abbrev pub IsDurable : Type 0
  IsDurable =
      (db : S) (name v : Text)
      → is_empty v ≡ false
      → (db' : S) × (bolt.put_patterns db name v ≡ some db') × (bolt.get_patterns db' name ≡ some v)

  All-append : (xs ys : List Text) → All IsLine xs → All IsLine ys → All IsLine (xs ++ ys)
  All-append [] ys h g = g
  All-append (x ∷ xs) ys (h, rest) g = (h, All-append xs ys rest g)

  -- The patterns of one source are lines, if there are any.
  abbrev AreLines : Option (List Text) → Type 0
  AreLines none = Unit
  AreLines (some ps) = All IsLine ps

  patterns_of-IsLine :
      KeepsLines other
      → (parse : Text → List Text) (content : Text) → All IsLine (parse content)
      → All IsLine (patterns_of other automata bolt fetch parse content)
  unfolding patterns_of
  patterns_of-IsLine k parse content h =
      if_elim (All IsLine) (is_empty (parse content))
        (λ nothing. parse_nginx_map-IsLine other k content) (λ something. h)

  fetch_source-AreLines :
      (k : KeepsLines other) (src : SourceConfig) (o : Option (Text → List Text)) (n : N)
      → GivesLines other k o
      → AreLines (fetch_source other automata bolt fetch src o n).0
  unfolding fetch_source
  fetch_source-AreLines k src none n h = tt
  fetch_source-AreLines k src (some parse) n h =
      if_elim (λ (r : Option (List Text) × N). AreLines r.0) (is_empty src.url) (λ no_url. tt)
        (λ url.
          elim (fetch src.url n).0
            as (λ o.
              AreLines
                (elim o as (λ _. Option (List Text) × N) [
                  | none ↦ (none, (fetch src.url n).1)
                  | some content ↦ (
                    some (patterns_of other automata bolt fetch parse content),
                    (fetch src.url n).1,
                  )
                ]).0) [ none ↦ tt | some content ↦ patterns_of-IsLine k parse content (h content) ])

  source_patterns-AreLines :
      (k : KeepsLines other) (src : SourceConfig) (n : N)
      → AreLines (source_patterns other automata bolt fetch src n).0
  unfolding source_patterns
  source_patterns-AreLines k src n =
      fetch_source-AreLines k src (new_parser other src.format) n
        (new_parser-GivesLines other k src.format)

  with_rest-IsLine :
      (o : Option (List Text)) (more : List Text)
      → AreLines o
      → All IsLine more
      → All IsLine (with_rest other automata bolt fetch o more)
  with_rest-IsLine none more h g = g
  with_rest-IsLine (some ps) more h g = All-append ps more h g

  given-IsLine :
      KeepsLines other
      → (sources : List SourceConfig) (n : N)
      → All IsLine (given other automata bolt fetch sources n)
  given-IsLine k [] n = tt
  given-IsLine k (src ∷ rest) n =
      with_rest-IsLine (source_patterns other automata bolt fetch src n).0 _
        (source_patterns-AreLines k src n)
        (given-IsLine k rest (source_patterns other automata bolt fetch src n).1)

  join-is_empty :
      (l : List Text) → All IsLine l → is_empty l ≡ false → is_empty (join (codes "\n") l) ≡ false
  unfolding join
  join-is_empty [] h e = e
  join-is_empty (s ∷ []) (h, _) e = h.1
  join-is_empty ([] ∷ t ∷ rest) (h, _) e = absurd (ground (arith, h.1))
  join-is_empty ((c ∷ s) ∷ t ∷ rest) h e = refl

  load_stored :
      (db : S) (name : Text) (l : List Text)
      → bolt.get_patterns db name ≡ some (join (codes "\n") l)
      → All IsLine l
      → is_empty l ≡ false
      → load_from_bolt other automata bolt fetch name (some db) ≡ l
  unfolding load_from_bolt
  load_stored db name l read h e =
      rw (read, load_from_bolt)
        (rw (join-is_empty l h e)
          (ap (λ x. keep (λ s. not (is_empty s)) x) (split_lines-join l h e) ∙ keep_lines l h))

  -- What is saved is loaded.
  load_from_bolt-save_to_bolt :
      IsDurable
      → (name : Text) (l : List Text) (db : S) → All IsLine l
      → is_empty l ≡ false
      → load_from_bolt other automata bolt fetch name
          (save_to_bolt other automata bolt fetch name l (some db))
        ≡ l
  unfolding save_to_bolt
  load_from_bolt-save_to_bolt durable name l db h e =
      let (db', written, read) = durable db name (join (codes "\n") l) (join-is_empty l h e) in
      let saved : save_to_bolt other automata bolt fetch name l (some db) ≡ some db' =
        rw (e, written) refl in
      ap (λ d. load_from_bolt other automata bolt fetch name d) saved
      ∙ load_stored db' name l read h e

  start_list_loaded :
      (cfg : ListConfig) (m : Manager M S) (l : List Text)
      → load_from_bolt other automata bolt fetch cfg.name m.db ≡ l
      → is_empty l ≡ false
      → get (start_list other automata bolt fetch cfg m).lists cfg.name
        ≡ some (some (automata.compile_strings l))
  unfolding start_list set_matcher
  start_list_loaded cfg m l read e =
      rw (read, e)
        (get-put (put m.lists cfg.name none) cfg.name (some (automata.compile_strings l)) cfg.name
          ∙ rw (text_eq_refl cfg.name) refl)

  -- The manager of a program that starts with a database.
  abbrev pub started_on : Option S → Manager M S
  started_on db = record { lists = []; db = db }

  -- With a database that keeps what is put, and a lower case that keeps a line a line: the list
  -- that is started on the database that a refresh has left has the automaton of that refresh, if
  -- its sources gave any pattern.
  pub start_list-fetch_and_update :
      KeepsLines other
      → IsDurable
      → (cfg : ListConfig) (m : Manager M S) (db : S) (n : N) → m.db ≡ some db
      → is_empty (given other automata bolt fetch cfg.sources n) ≡ false
      → get
          (start_list other automata bolt fetch cfg
            (started_on (fetch_and_update other automata bolt fetch cfg m n).0.db)).lists
          cfg.name
        ≡ get (fetch_and_update other automata bolt fetch cfg m n).0.lists cfg.name
  start_list-fetch_and_update k durable cfg m db n at_db some_given =
      let m' : Manager M S = (fetch_and_update other automata bolt fetch cfg m n).0 in
      let (all, once, same, automaton, stored, others) =
        (fetch_and_update-Refreshed other automata bolt fetch cfg m n).1 some_given in
      let lines = same-IsLine all _ same (given-IsLine k cfg.sources n) in
      let full = not_empty all _ same some_given in
      let loaded : load_from_bolt other automata bolt fetch cfg.name m'.db ≡ all =
        ap (λ d. load_from_bolt other automata bolt fetch cfg.name d)
          (stored ∙ ap (λ d. save_to_bolt other automata bolt fetch cfg.name all d) at_db)
        ∙ load_from_bolt-save_to_bolt durable cfg.name all db lines full in
      start_list_loaded cfg (started_on m'.db) all loaded full ∙ sym automaton
