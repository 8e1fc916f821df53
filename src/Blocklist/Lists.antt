-- ===== src/Blocklist/Lists.antt =====
-- internal/core/blocklist/manager.go: the lists, their refresh and their store. The automata, the
-- database and the fetch of a URL are parameters. The goroutine of a list is start_list, then any
-- calls of fetch_and_update; logging and metrics are left out.

use arxsentinel.Common.{
  Bool, true, false, not, Option, none, some, List, [], ◌∷◌, ◌++◌, if◌then◌else◌, keep, is_empty,
  Text, codes, text_eq, join, mem,
}
use arxsentinel.Common.Dict.{Dict, get, put}
use arxsentinel.Blocklist.Parsers.{split_lines, parse_nginx_map, new_parser}

pub record SourceConfig : Type 0 where
  pub url : Text
  pub format : Text

pub record ListConfig : Type 0 where
  pub name : Text
  pub enabled : Option Bool
  pub sources : List SourceConfig

pub record Config : Type 0 where
  pub storage : Text
  pub lists : List ListConfig

-- The package ahocorasick: the automaton of some patterns, and the patterns that it finds in a
-- text, in its order.
pub record Automata (M : Type 0) : Type 0 where
  pub compile_strings : List Text → M
  pub find_all : M → Text → List Text

-- A database of bbolt: none of open_store and of put is an error. A bucket holds one value here, that of
-- the key of the patterns; none of get is a missing or an empty one.
pub record Bolt (S : Type 0) : Type 0 where
  pub open_store : Text → Option S
  pub path_of : S → Text
  pub get_patterns : S → Text → Option Text
  pub put_patterns : S → Text → Text → Option S

-- What a fetch gives, none being any of its errors, over the state N of the network.
abbrev pub Fetch : Type 0 → Type 0
Fetch N = Text → N → Option Text × N

-- The lists with their automata, none before the first load.
pub record Manager (M S : Type 0) : Type 0 where
  pub lists : Dict (Option M)
  pub db : Option S

-- One round of the loop over the sources: the patterns merged so far, and whether any were loaded.
abbrev pub Merge : Type 0
Merge = List Text × Bool

unfoldable pub add_patterns : List Text → List Text → List Text
add_patterns all [] = all
add_patterns all (p ∷ ps) = add_patterns (if mem p all then all else all ++ (p ∷ [])) ps

unfoldable pub list_enabled : ListConfig → Bool
list_enabled lc = elim lc.enabled [ none ↦ true | some b ↦ b ]

module _ {M S N : Type 0} (other : Text → Text) (automata : Automata M) (bolt : Bolt S)
    (fetch : Fetch N) where
  -- The patterns of a body that was fetched, with the second parser for a body without any.
  unfoldable pub patterns_of : (Text → List Text) → Text → List Text
  unfolding parse_nginx_map
  patterns_of parse content =
      let patterns = parse content in
      if is_empty patterns then parse_nginx_map other content else patterns

  -- The patterns that a source gives with the parser of its format; none is a source that is
  -- skipped.
  unfoldable pub fetch_source :
      SourceConfig → Option (Text → List Text) → N → Option (List Text) × N
  unfolding patterns_of
  fetch_source src none n = (none, n)
  fetch_source src (some parse) n =
      let (answer, n') = fetch src.url n in
      let result : Option (List Text) × N = elim answer [
        | none ↦ (none, n')
        | some content ↦ (some (patterns_of parse content), n')
      ] in
      if is_empty src.url then (none, n) else result

  unfoldable pub source_patterns : SourceConfig → N → Option (List Text) × N
  unfolding new_parser fetch_source
  source_patterns src n = fetch_source src (new_parser other src.format) n

  unfoldable pub merge_source : Option (List Text) → Merge → Merge
  unfolding add_patterns
  merge_source none (all, loaded) = (all, loaded)
  merge_source (some patterns) (all, loaded) =
      (add_patterns all patterns, if is_empty patterns then loaded else true)

  unfoldable pub merge_sources : List SourceConfig → Merge → N → Merge × N
  unfolding source_patterns merge_source
  merge_sources [] r n = (r, n)
  merge_sources (src ∷ rest) r n =
      let (patterns, n') = source_patterns src n in merge_sources rest (merge_source patterns r) n'

  unfoldable pub save_to_bolt : Text → List Text → Option S → Option S
  save_to_bolt name patterns none = none
  save_to_bolt name patterns (some db) =
      let saved = bolt.put_patterns db name (join (codes "\n") patterns) in
      if is_empty patterns then some db else elim saved [ none ↦ some db | some db' ↦ some db' ]

  unfoldable pub load_from_bolt : Text → Option S → List Text
  unfolding split_lines
  load_from_bolt name none = []
  load_from_bolt name (some db) = elim (bolt.get_patterns db name) [
    | none ↦ []
    | some raw ↦ if is_empty raw then [] else keep (λ s. not (is_empty s)) (split_lines raw)
  ]

  -- A write of the automaton to the state of a list that is registered.
  unfoldable pub set_matcher : Text → Option M → Manager M S → Manager M S
  set_matcher name matcher m = record m { lists = put m.lists name matcher }

  unfoldable pub fetch_and_update : ListConfig → Manager M S → N → Manager M S × N
  unfolding merge_sources save_to_bolt set_matcher
  fetch_and_update cfg m n =
      let ((all, loaded), n') = merge_sources cfg.sources ([], false) n in
      let saved = record m { db = save_to_bolt cfg.name all m.db } in
      let matcher : Option M = if is_empty all then none else some (automata.compile_strings all) in
      if not loaded then (m, n') else (set_matcher cfg.name matcher saved, n')

  -- startList with the start of its goroutine, up to the first fetch.
  unfoldable pub start_list : ListConfig → Manager M S → Manager M S
  unfolding load_from_bolt set_matcher
  start_list cfg m =
      let registered = set_matcher cfg.name none m in
      let patterns = load_from_bolt cfg.name m.db in
      if is_empty patterns
      then registered
      else set_matcher cfg.name (some (automata.compile_strings patterns)) registered

  unfoldable pub start_lists : List ListConfig → Manager M S → Manager M S
  unfolding start_list list_enabled
  start_lists [] m = m
  start_lists (lc ∷ rest) m = start_lists rest (if list_enabled lc then start_list lc m else m)

  unfoldable pub new_manager : Config → Manager M S
  unfolding start_lists
  new_manager cfg =
      let db : Option S = if is_empty cfg.storage then none else bolt.open_store cfg.storage in
      start_lists cfg.lists (record { lists = []; db = db })

  -- The database of a new configuration.
  unfoldable pub reopen : Text → Option S → Option S
  reopen storage none = if is_empty storage then none else bolt.open_store storage
  reopen storage (some db) =
      if is_empty storage
      then none
      else if text_eq (bolt.path_of db) storage
      then some db
      else bolt.open_store storage

  unfoldable pub update_manager : Config → Manager M S → Manager M S
  unfolding reopen start_lists
  update_manager cfg m = start_lists cfg.lists (record { lists = []; db = reopen cfg.storage m.db })

  unfoldable pub close : Manager M S → Manager M S
  close m = record { lists = []; db = none }

  -- The words found in a text by a list, none where the list is unknown or not loaded.
  unfoldable pub words_found : Manager M S → Text → Text → List Text
  words_found m list text = elim (get m.lists list) [
    | none ↦ []
    | some matcher ↦ elim matcher [ none ↦ [] | some a ↦ automata.find_all a text ]
  ]

  unfoldable pub match_list : Manager M S → Text → Text → Bool
  unfolding words_found
  match_list m list text = not (is_empty (words_found m list text))

  unfoldable pub match_result : Manager M S → Text → Text → Option Text
  unfolding words_found
  match_result m list text = elim (words_found m list text) [ [] ↦ none | word ∷ rest ↦ some word ]
