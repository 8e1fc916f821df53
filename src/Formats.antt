-- ===== src/Formats.antt =====
-- internal/threat/format/format.go: FormatFailban; internal/core/output/warnings.go: the line of a
-- chain warning.
pub mod Quoted
pub mod Lines
use mathlib.Core.Path.{subst, ap₂}
use mathlib.Core.Bool.{false≢true}
use Prim.Native.Nat.{max}
use mathlib.Core.List.{reverse, append-nil, append_assoc}
use arxsentinel.Common.{
  ℕ, zero, suc, ◌+◌, ◌-◌, ◌*◌, ◌/◌, ◌%◌, ◌^◌, ◌≤◌, ◌<◌, ◌≡◌, refl, sym, ap, ◌∙◌, ◌≢◌, ◌↔◌, ◌⊎◌, inl,
  inr, Bool, true, false, not, ◌&&◌, ◌||◌, Option, none, some, List, [], ◌∷◌, ◌++◌, map, arith, ltb,
  leb, ◌==◌, if◌then◌else◌, Bool-cases, Option-cases, is_some, is_none, tests, length, take, drop,
  set, ◌>>=◌, if_elim, replicate, keep, some_of, first_of_list, is_empty, length-append, All, Text,
  codes, text_eq, text_eq_iff, text_eq_refl, has_prefix, has_suffix, contains, to_lower, join,
  trim_space, mem, erase, Distinct, mem-erase, erase-Distinct, length-erase-mem, erase_absent,
  mem-append,
}
use arxsentinel.Common.Dict.{
  Dict, get, put, remove, keys, get-put, get-remove, mem-keys, length-keys, keys-remove, keys-put,
  Distinct-snoc, length-put, length-remove, put-Distinct,
}
use arxsentinel.Common.Int.{
  sub_ℕ, ℤ, pos, negsuc, ◌+ℤ◌, ◌≤ℤ◌, leb_ℤ, int_laws, pos_part, neg_part, +ℤ_parts, eq_of_parts,
  +ℤ_assoc,
}
use arxsentinel.Common.{show_int, is_ascii}
use arxsentinel.Common.{hex_digit}
use arxsentinel.Chaincheck.{CheckResult}

-- strconv.Quote, the verb %q. The letter of an escape with a name.
unfoldable pub escape_letter : ℕ → Option ℕ
escape_letter c =
    if c == 34
    then some 34
    else if c == 92
    then some 92
    else if c == 7
    then some 97
    else if c == 8
    then some 98
    else if c == 12
    then some 102
    else if c == 10
    then some 110
    else if c == 13
    then some 114
    else if c == 9
    then some 116
    else if c == 11
    then some 118
    else none

unfoldable pub escape_byte : ℕ → Text
unfolding escape_letter hex_digit
escape_byte c = elim (escape_letter c) [
  | some x ↦ 92 ∷ x ∷ []
  | none ↦
      if ltb c 32 || c == 127
      then 92 ∷ 120 ∷ hex_digit (c / 16) ∷ hex_digit (c % 16) ∷ []
      else c ∷ []
]

unfoldable pub escape_bytes : Text → Text
unfolding escape_byte
escape_bytes [] = []
escape_bytes (c ∷ s) = escape_byte c ++ escape_bytes s

-- other quotes a text that is not ASCII.
unfoldable pub quote : (Text → Text) → Text → Text
unfolding escape_bytes is_ascii
quote other s = if is_ascii s then 34 ∷ (escape_bytes s ++ (34 ∷ [])) else other s

-- threat.ThreatEvent, the fields that FormatFailban prints; the timestamp is its RFC 3339 text.
pub record ThreatLine : Type 0 where
  pub timestamp : Text
  pub level : Text
  pub ip : Text
  pub score : ℤ
  pub modules : List Text
  pub reason : Text

-- The line up to the reason.
unfoldable pub line_head : ThreatLine → Text
line_head e =
    e.timestamp
    ++ (codes " "
        ++ (e.level
            ++ (codes " "
                ++ (e.ip
                    ++ (codes " score="
                        ++ (show_int e.score
                            ++ (codes " modules="
                                ++ (join (codes ",") e.modules ++ codes " reason="))))))))

unfoldable pub format_failban : (Text → Text) → ThreatLine → Text
unfolding line_head quote
format_failban other e = line_head e ++ quote other e.reason

-- formatChainWarningLine at a time, of a CheckResult of chaincheck.
unfoldable pub format_chain_warning_line : Text → CheckResult → Text → Text
format_chain_warning_line timestamp result log_file =
    timestamp
    ++ (codes " CHAIN_WARN "
        ++ (result.kind
            ++ (codes "-ip-as-client ip="
                ++ (result.ip
                    ++ (codes " cidr=" ++ (result.matched_cidr ++ (codes " log=" ++ log_file)))))))
