-- ===== src/Common/Texts.antt =====
-- Go strings: sequences of bytes. The functions are those of package strings that the program
-- calls; the byte 0x80 and above are the bytes of code points outside ASCII.
use Prim.Native.Nat.{ℕ, ◌+◌}
use Prim.Native.Char.{code}
use Prim.Native.String.{String}
use mathlib.Core.Path.{◌≡◌, refl, ap₂, subst}
use mathlib.Core.Logic.{◌↔◌}
use mathlib.Core.Bool.{Bool, true, false, ◌&&◌, ◌||◌}
use mathlib.Core.List.{List, [], ◌∷◌, ◌++◌, map, reverse}
use native.Mathlib.Omega.{arith}
use arxsentinel.Common.Tests.{ltb, leb, ◌==◌, if◌then◌else◌}
use arxsentinel.Common.Lists.{is_empty}

abbrev pub Text : Type 0
Text = List ℕ

-- The bytes of an ASCII literal.
abbrev pub codes : String → Text
codes String.[] = []
codes (String.◌∷◌ c s) = code c ∷ codes s

unfoldable pub text_eq : Text → Text → Bool
text_eq [] [] = true
text_eq (a ∷ s) (b ∷ t) = a == b && text_eq s t
text_eq _ _ = false

pub text_eq→eq : (s t : Text) → text_eq s t ≡ true → s ≡ t
unfolding text_eq
text_eq→eq [] [] h = refl
text_eq→eq (a ∷ s) (b ∷ t) h = ap₂ ◌∷◌ (ground arith) (text_eq→eq s t (ground arith))
text_eq→eq _ _ h = ground arith

pub text_eq_refl : (s : Text) → text_eq s s ≡ true
unfolding text_eq
text_eq_refl [] = refl
text_eq_refl (a ∷ s) = ground (arith, text_eq_refl s)

pub text_eq_iff : (s t : Text) → (text_eq s t ≡ true) ↔ (s ≡ t)
text_eq_iff s t = (text_eq→eq s t, λ e. subst (λ u. text_eq s u ≡ true) e (text_eq_refl s))

-- strings.HasPrefix, strings.HasSuffix, strings.Contains
unfoldable pub has_prefix : Text → Text → Bool
has_prefix s [] = true
has_prefix [] (b ∷ t) = false
has_prefix (a ∷ s) (b ∷ t) = a == b && has_prefix s t

unfoldable pub has_suffix : Text → Text → Bool
unfolding has_prefix
has_suffix s t = has_prefix (reverse s) (reverse t)

unfoldable pub contains : Text → Text → Bool
unfolding has_prefix
contains [] t = has_prefix [] t
contains (a ∷ s) t = has_prefix (a ∷ s) t || contains s t

-- strings.ToLower on a text of ASCII bytes; `other` is the mapping of code points that Go's
-- tables define for any other text.
unfoldable pub lower_byte : ℕ → ℕ
lower_byte c = if leb b'A' c && leb c b'Z' then c + 32 else c

unfoldable pub is_ascii : Text → Bool
is_ascii [] = true
is_ascii (c ∷ s) = ltb c 128 && is_ascii s

unfoldable pub to_lower : (Text → Text) → Text → Text
unfolding lower_byte is_ascii
to_lower other s = if is_ascii s then map lower_byte s else other s

-- strings.Join(parts, sep)
unfoldable pub join : Text → List Text → Text
join sep [] = []
join sep (s ∷ []) = s
join sep (s ∷ t ∷ rest) = s ++ (sep ++ join sep (t ∷ rest))

-- strings.TrimSpace on a text at whose ends no space outside ASCII stands: Go also cuts U+0085,
-- U+00A0 and the other spaces of Unicode, whose bytes are left here.
unfoldable pub is_space : ℕ → Bool
is_space c = c == 32 || (leb 9 c && leb c 13)

unfoldable pub trim_left : (ℕ → Bool) → Text → Text
trim_left p [] = []
trim_left p (c ∷ s) = let rest = trim_left p s in if p c then rest else c ∷ s

unfoldable pub trim_right : (ℕ → Bool) → Text → Text
trim_right p [] = []
trim_right p (c ∷ s) = let rest = trim_right p s in if p c && is_empty rest then [] else c ∷ rest

unfoldable pub trim_space : Text → Text
unfolding is_space trim_left trim_right
trim_space s = trim_left is_space (trim_right is_space s)

pub has_prefix_append : (s t : Text) → has_prefix (s ++ t) s ≡ true
unfolding has_prefix
has_prefix_append [] t = refl
has_prefix_append (a ∷ s) t = ground (arith, has_prefix_append s t)

-- A prefix test that passes splits the text.
pub has_prefix_split : (s t : Text) → has_prefix s t ≡ true → (r : Text) × (s ≡ t ++ r)
unfolding has_prefix
has_prefix_split s [] h = (s, refl)
has_prefix_split [] (b ∷ t) h = absurd (ground arith)
has_prefix_split (a ∷ s) (b ∷ t) h =
    let (r, e) = has_prefix_split s t (ground arith) in (r, ap₂ ◌∷◌ (ground arith) e)
