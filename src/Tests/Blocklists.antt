-- ===== src/Tests/Blocklists.antt =====
-- The parsers and the refresh of blocklists at concrete inputs.

use arxsentinel.Common.{
  ℕ, ◌+◌, ◌≡◌, refl, ◌∙◌, none, some, List, [], ◌∷◌, if◌then◌else◌, keep, Text, codes, text_eq,
  text_eq_refl, has_prefix, contains, mem,
}
use arxsentinel.Common.Dict.{Dict, get, put, get-put}
use arxsentinel.Common.{trim_left, trim_right, is_space, lower_byte, is_ascii}
use arxsentinel.Blocklist.Parsers.{parse_plain_text, parse_nginx_map}
use arxsentinel.Blocklist.Lists.{
  ListConfig, Automata, Bolt, Fetch, Manager, fetch_and_update, start_list, source_patterns,
}
use arxsentinel.Blocklist.Lines.{KeepsLines}
use arxsentinel.Blocklist.Merged.{Refreshed, given, fetch_and_update-Refreshed}
use arxsentinel.Blocklist.Stored.{IsDurable, started_on, start_list-fetch_and_update}

-- An automaton is its patterns.
abbrev automata : Automata (List Text)
automata = record {
  compile_strings = λ patterns. patterns;
  find_all = λ a text. keep (λ p. contains text p) a;
}

-- A database is its buckets.
abbrev bolt : Bolt (Dict Text)
bolt = record {
  open_store = λ path. some [];
  path_of = λ db. codes "/db";
  get_patterns = λ db name. get db name;
  put_patterns = λ db name v. some (put db name v);
}

abbrev same_text : Text → Text
same_text s = s

-- The network counts the fetches.
abbrev fetch : Fetch ℕ
fetch url n = (
  if text_eq url (codes "/a")
      then some (codes "# bots\nBad\\.Bot\n\nevil.*\n")
      else if text_eq url (codes "/b")
      then some (codes "~*(?:\\b)Evil(?:\\b) 3;\n~*(?:\\b)x(?:\\b)")
      else none,
  n + 1,
)

plain :
    parse_plain_text same_text (codes "# bots\nBad\\.Bot\n\nevil.*\n")
    ≡ codes "bad.bot" ∷ codes "evil" ∷ []
unfolding parse_plain_text trim_left trim_right is_space lower_byte is_ascii has_prefix text_eq
plain = refl

nginx :
    parse_nginx_map same_text (codes "~*(?:\\b)Evil(?:\\b) 3;\n~*(?:\\b)x(?:\\b)")
    ≡ codes "evil" ∷ codes "x" ∷ []
unfolding parse_nginx_map has_prefix text_eq
nginx = refl

abbrev bots : ListConfig
bots = record {
  name = codes "badbot-ua";
  enabled = none;
  sources =
      record { url = codes "/a"; format = codes "plain_text" }
      ∷ record { url = codes "/c"; format = codes "plain_text" }
      ∷ record { url = codes "/b"; format = codes "nginx_map" }
      ∷ [];
}

abbrev empty_manager : Manager (List Text) (Dict Text)
empty_manager = record { lists = []; db = some [] }

refreshes :
    get
      (fetch_and_update same_text automata bolt fetch bots empty_manager 0).0.lists
      (codes "badbot-ua")
    ≡ some (some (codes "bad.bot" ∷ codes "evil" ∷ codes "x" ∷ []))
unfolding fetch_and_update has_prefix get put text_eq mem source_patterns
refreshes = refl

fetch_and_update-Refreshed_example :
    Refreshed same_text automata bolt fetch bots
      (given same_text automata bolt fetch bots.sources 0)
      empty_manager
      (fetch_and_update same_text automata bolt fetch bots empty_manager 0).0
fetch_and_update-Refreshed_example =
    fetch_and_update-Refreshed same_text automata bolt fetch bots empty_manager 0

keeps_lines : KeepsLines same_text
keeps_lines s h = h

durable : IsDurable same_text automata bolt fetch
durable db name v e = (put db name v, refl, get-put db name v name ∙ rw (text_eq_refl name) refl)

start_list-fetch_and_update_example :
    get
      (start_list same_text automata bolt fetch bots (
        started_on same_text automata bolt fetch
          (fetch_and_update same_text automata bolt fetch bots empty_manager 0).0.db)).lists
      (codes "badbot-ua")
    ≡ get
        (fetch_and_update same_text automata bolt fetch bots empty_manager 0).0.lists
        (codes "badbot-ua")
unfolding source_patterns text_eq has_prefix
start_list-fetch_and_update_example =
    start_list-fetch_and_update same_text automata bolt fetch keeps_lines durable bots empty_manager
      [] 0 refl refl
