-- ===== src/Formats/Quoted.antt =====
-- internal/threat/format/format.go: what is quoted can be read back.

use mathlib.Core.List.{append_assoc}
use arxsentinel.Common.{
  ℕ, ◌+◌, ◌-◌, ◌*◌, ◌/◌, ◌%◌, ◌<◌, ◌≡◌, refl, ap, ◌∙◌, inl, inr, true, false, ◌||◌, Option, none,
  some, [], ◌∷◌, ◌++◌, arith, ltb, ◌==◌, if◌then◌else◌, Option-cases, if_elim, Text,
}
use arxsentinel.Common.{is_ascii}
use arxsentinel.Common.{hex_digit}
use arxsentinel.Formats.{escape_letter, escape_byte, escape_bytes, quote}

-- Where a reader of a quoted text is: between characters, after a backslash, after \x, and after
-- the first digit of a hexadecimal escape.
pub data Mode : Type 0 where
  plain escaped first_digit : Mode
  second_digit : ℕ → Mode

abbrev pub letter_value : ℕ → ℕ
letter_value c =
    if c == 97
    then 7
    else if c == 98
    then 8
    else if c == 102
    then 12
    else if c == 110
    then 10
    else if c == 114
    then 13
    else if c == 116
    then 9
    else if c == 118
    then 11
    else c

abbrev pub digit_value : ℕ → ℕ
digit_value c = if ltb c 58 then c - 48 else c - 87

abbrev pub with_byte : ℕ → Option (Text × Text) → Option (Text × Text)
with_byte c none = none
with_byte c (some (s, rest)) = some (c ∷ s, rest)

-- A reader of Go's quoted texts, written on its own: the text up to the closing quote, and what
-- follows it.
unfoldable pub read_quoted : Mode → Text → Option (Text × Text)
read_quoted m [] = none
read_quoted plain (c ∷ s) = elim (c == 34) [
  | true ↦ some ([], s)
  | false ↦ elim (c == 92) [
    | true ↦ read_quoted escaped s
    | false ↦ with_byte c (read_quoted plain s)
  ]
]
read_quoted escaped (c ∷ s) = elim (c == 120) [
  | true ↦ read_quoted first_digit s
  | false ↦ with_byte (letter_value c) (read_quoted plain s)
]
read_quoted first_digit (c ∷ s) = read_quoted (second_digit (digit_value c)) s
read_quoted (second_digit d) (c ∷ s) = with_byte (d * 16 + digit_value c) (read_quoted plain s)

letters : (c x : ℕ) → escape_letter c ≡ some x → ((x == 120) ≡ false) × (letter_value x ≡ c)
unfolding escape_letter
letters c x h = ground arith

no_letter : (c : ℕ) → escape_letter c ≡ none → ((c == 34) ≡ false) × ((c == 92) ≡ false)
unfolding escape_letter
no_letter c h = ground arith

digits : (n : ℕ) → n < 16 → digit_value (hex_digit n) ≡ n
unfolding hex_digit
digits n h = ground arith

read_plain :
    (c : ℕ) (s : Text)
    → (c == 34) ≡ false
    → (c == 92) ≡ false
    → read_quoted plain (c ∷ s) ≡ with_byte c (read_quoted plain s)
unfolding read_quoted
read_plain c s q b = rw (q, b, read_quoted) refl

read_letter :
    (x : ℕ) (s : Text)
    → (x == 120) ≡ false
    → read_quoted plain (92 ∷ x ∷ s) ≡ with_byte (letter_value x) (read_quoted plain s)
unfolding read_quoted
read_letter x s h = rw (h, read_quoted) refl

read_hexadecimal :
    (h l : ℕ) (s : Text)
    → read_quoted plain (92 ∷ 120 ∷ h ∷ l ∷ s)
      ≡ with_byte (digit_value h * 16 + digit_value l) (read_quoted plain s)
unfolding read_quoted
read_hexadecimal h l s = refl

hexadecimal :
    (c : ℕ) → c < 128 → digit_value (hex_digit (c / 16)) * 16 + digit_value (hex_digit (c % 16)) ≡ c
hexadecimal c h = omega (arith, digits (c / 16) (omega arith), digits (c % 16) (omega arith))

-- The escape of a byte is read as the byte.
read_quoted-escape_byte :
    (c : ℕ) (s : Text)
    → c < 128
    → read_quoted plain (escape_byte c ++ s) ≡ with_byte c (read_quoted plain s)
unfolding escape_byte
read_quoted-escape_byte c s h = elim (Option-cases (escape_letter c)) [
  | inl e ↦
      let (q, b) = no_letter c e in
      rw (e, escape_byte)
        (if_elim (λ (t : Text). read_quoted plain (t ++ s) ≡ with_byte c (read_quoted plain s))
          (ltb c 32 || c == 127)
          (λ control.
            read_hexadecimal (hex_digit (c / 16)) (hex_digit (c % 16)) s
            ∙ ap (λ n. with_byte n (read_quoted plain s)) (hexadecimal c h))
          (λ printed. read_plain c s q b))
  | inr (x, e) ↦
      let (other, value) = letters c x e in
      rw (e, escape_byte)
        (read_letter x s other ∙ ap (λ n. with_byte n (read_quoted plain s)) value)
]

read_quoted-escape_bytes :
    (s rest : Text)
    → is_ascii s ≡ true
    → read_quoted plain (escape_bytes s ++ (34 ∷ rest)) ≡ some (s, rest)
unfolding escape_bytes is_ascii
read_quoted-escape_bytes [] rest h = unfold read_quoted in refl
read_quoted-escape_bytes (c ∷ s) rest h =
    ap (λ t. read_quoted plain t) (append_assoc (escape_byte c) (escape_bytes s) (34 ∷ rest))
    ∙ read_quoted-escape_byte c (escape_bytes s ++ (34 ∷ rest)) (ground arith)
    ∙ ap (λ r. with_byte c r) (read_quoted-escape_bytes s rest (ground arith))

-- A quoted ASCII text begins with a quote, after which it is read back, up to its own end.
pub read_quoted-quote :
    (other : Text → Text) (s rest : Text)
    → is_ascii s ≡ true
    → (body : Text) × (quote other s ++ rest ≡ 34 ∷ body)
      × (read_quoted plain body ≡ some (s, rest))
unfolding quote
read_quoted-quote other s rest h = rw h (
  escape_bytes s ++ (34 ∷ rest),
  ap (λ t. 34 ∷ t) (append_assoc (escape_bytes s) (34 ∷ []) rest),
  read_quoted-escape_bytes s rest h,
)
