-- ===== src/Formats/Lines.antt =====
-- internal/threat/format/format.go: an event is one line.

use mathlib.Core.List.{append-nil}
use arxsentinel.Common.{
  ℕ, zero, suc, ◌+◌, ◌/◌, ◌%◌, ◌≡◌, refl, sym, ap, ◌∙◌, inl, inr, true, false, ◌||◌, none, some,
  List, [], ◌∷◌, ◌++◌, arith, ltb, ◌==◌, Option-cases, if_elim, All, Text, codes, join,
}
use arxsentinel.Common.Int.{ℤ, pos, negsuc}
use arxsentinel.Common.{show_digits, show_nat, show_int, is_ascii}
use arxsentinel.Blocklist.Lines.{has_line_end, beside}
use arxsentinel.Common.{hex_digit}
use arxsentinel.Formats.{
  escape_letter, escape_byte, escape_bytes, quote, ThreatLine, line_head, format_failban,
}
use arxsentinel.Formats.Quoted.{plain, read_quoted, read_quoted-quote}

show_digits-has_line_end :
    (fuel n : ℕ) (acc : Text)
    → has_line_end acc ≡ false
    → has_line_end (show_digits fuel n acc) ≡ false
unfolding show_digits has_line_end
show_digits-has_line_end zero n acc h = h
show_digits-has_line_end (suc fuel) n acc h =
    if_elim (λ (t : Text). has_line_end t ≡ false) (ltb n 10) (λ one. ground arith)
      (λ more. show_digits-has_line_end fuel (n / 10) ((48 + n % 10) ∷ acc) (ground arith))

show_int-has_line_end : (n : ℤ) → has_line_end (show_int n) ≡ false
unfolding show_int show_nat has_line_end
show_int-has_line_end (pos n) = show_digits-has_line_end (suc n) n [] refl
show_int-has_line_end (negsuc n) = show_digits-has_line_end (suc (suc n)) (suc n) [] refl

join-has_line_end :
    (l : List Text)
    → All (λ s. has_line_end s ≡ false) l
    → has_line_end (join (codes ",") l) ≡ false
unfolding join has_line_end
join-has_line_end [] h = refl
join-has_line_end (s ∷ []) (h, _) = h
join-has_line_end (s ∷ t ∷ rest) (h, all) =
    beside s (44 ∷ join (codes ",") (t ∷ rest)) h (join-has_line_end (t ∷ rest) all)

named : (c x : ℕ) → escape_letter c ≡ some x → (x == 10) ≡ false
unfolding escape_letter
named c x h = ground arith

unnamed : (c : ℕ) → escape_letter c ≡ none → (c == 10) ≡ false
unfolding escape_letter
unnamed c h = ground arith

digit : (n : ℕ) → (hex_digit n == 10) ≡ false
unfolding hex_digit
digit n = ground arith

escape_byte-has_line_end : (c : ℕ) → has_line_end (escape_byte c) ≡ false
unfolding escape_byte has_line_end
escape_byte-has_line_end c = elim (Option-cases (escape_letter c)) [
  | inl e ↦
      rw (e, escape_byte)
        (if_elim (λ (t : Text). has_line_end t ≡ false) (ltb c 32 || c == 127)
          (λ control. ground (arith, digit (c / 16), digit (c % 16)))
          (λ printed. ground (arith, unnamed c e)))
  | inr (x, e) ↦ rw (e, escape_byte) (ground (arith, named c x e))
]

escape_bytes-has_line_end : (s : Text) → has_line_end (escape_bytes s) ≡ false
unfolding escape_bytes
escape_bytes-has_line_end [] = unfold has_line_end in refl
escape_bytes-has_line_end (c ∷ s) =
    beside (escape_byte c) (escape_bytes s) (escape_byte-has_line_end c)
      (escape_bytes-has_line_end s)

quote-has_line_end :
    (other : Text → Text) (s : Text) → is_ascii s ≡ true → has_line_end (quote other s) ≡ false
unfolding quote has_line_end
quote-has_line_end other s h =
    rw h (beside (escape_bytes s) (34 ∷ []) (escape_bytes-has_line_end s) refl)

-- The parts of an event that are printed as they are have no line end.
abbrev pub IsClean : ThreatLine → Type 0
IsClean e =
    (has_line_end e.timestamp ≡ false)
    × (has_line_end e.level ≡ false)
    × (has_line_end e.ip ≡ false)
    × All (λ s. has_line_end s ≡ false) e.modules

line_head-has_line_end : (e : ThreatLine) → IsClean e → has_line_end (line_head e) ≡ false
unfolding line_head has_line_end
line_head-has_line_end e (timestamp, level, ip, modules) = beside e.timestamp _ timestamp (
    beside e.level _ level (
      beside e.ip _ ip (
        beside (show_int e.score) _ (show_int-has_line_end e.score)
          (beside (join (codes ",") e.modules) _ (join-has_line_end e.modules modules) refl))))

-- If the time, the level, the address and the modules have no line end, and the reason is ASCII,
-- whatever bytes of a request it repeats: the line of an event has no line end, so that an event is
-- one line of the log; and it ends in a quoted text that is read back as the reason.
pub format_failban_lem :
    (other : Text → Text) (e : ThreatLine)
    → IsClean e
    → is_ascii e.reason ≡ true
    → (has_line_end (format_failban other e) ≡ false)
      × ((body : Text) × (format_failban other e ≡ line_head e ++ (34 ∷ body))
          × (read_quoted plain body ≡ some (e.reason, [])))
unfolding format_failban
format_failban_lem other e clean ascii =
    let (body, quoted, read) = read_quoted-quote other e.reason [] ascii in
    (
      beside (line_head e) (quote other e.reason) (line_head-has_line_end e clean)
          (quote-has_line_end other e.reason ascii),
      (body, ap (λ t. line_head e ++ t) (sym (append-nil (quote other e.reason)) ∙ quoted), read),
    )
