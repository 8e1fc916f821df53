-- ===== src/Tests/Formats.antt =====
-- The line of an event at a concrete input.

use arxsentinel.Common.{◌≡◌, refl, false, some, [], ◌∷◌, ◌++◌, Text, codes, join}
use arxsentinel.Common.Int.{pos}
use arxsentinel.Common.{show_int, is_ascii}
use arxsentinel.Blocklist.Lines.{has_line_end}
use arxsentinel.Formats.{ThreatLine, line_head, format_failban}
use arxsentinel.Formats.Quoted.{plain, read_quoted}
use arxsentinel.Formats.Lines.{format_failban_lem}

-- A request whose path tries to begin a line of its own.
abbrev forged : ThreatLine
forged = record {
  timestamp = codes "2026-05-09T08:15:42Z";
  level = codes "THREAT";
  ip = codes "192.0.2.1";
  score = pos 85;
  modules = codes "probe" ∷ codes "rate" ∷ [];
  reason = codes "probe: /\"\nTHREAT 198.51.100.1";
}

abbrev same_text : Text → Text
same_text s = s

one_line :
    format_failban same_text forged
    ≡ codes
        "2026-05-09T08:15:42Z THREAT 192.0.2.1 score=85 modules=probe,rate reason=\"probe: /\\\"\\nTHREAT 198.51.100.1\""
unfolding format_failban show_int join
one_line = refl

format_failban_lem_example :
    (has_line_end (format_failban same_text forged) ≡ false)
    × ((body : Text) × (format_failban same_text forged ≡ line_head forged ++ (34 ∷ body))
        × (read_quoted plain body ≡ some (forged.reason, [])))
unfolding has_line_end is_ascii
format_failban_lem_example =
    format_failban_lem same_text forged (refl, refl, refl, (refl, (refl, tt))) refl
