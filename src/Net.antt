-- ===== src/Net.antt =====
-- IP addresses and CIDR ranges, as the source uses Go's package net: ParseIP, ParseCIDR,
-- IPNet.Contains and IPNet.String. The texts of IPv6 addresses are the parameter V6. An IPv6
-- address of the form ::ffff:a.b.c.d is the IPv4 address, as To4 makes it.

use arxsentinel.Common.{show_nat, read_digits, is_digit}
use arxsentinel.Common.{
  ℕ, ◌+◌, ◌-◌, ◌*◌, ◌/◌, ◌%◌, ◌^◌, Bool, false, not, ◌&&◌, ◌||◌, Option, none, some, List, [], ◌∷◌,
  ◌++◌, ltb, leb, ◌==◌, if◌then◌else◌, ◌>>=◌, some_of, first_of_list, is_empty, Text, codes, join,
}

pub record V6 : Type 0 where
  pub parse_v6 : Text → Option ℕ
  pub show_v6 : ℕ → Text

pub data Ip : Type 0 where
  v4 v6 : ℕ → Ip

-- The address of the range, with the bits after the prefix cleared, and the length of the prefix.
pub data Cidr : Type 0 where
  cidr4 cidr6 : ℕ → ℕ → Cidr

-- The text up to a byte, and the text after it, if it occurs.
unfoldable pub cut : ℕ → Text → Option (Text × Text)
cut sep [] = none
cut sep (c ∷ t) =
    let rest = cut sep t in
    if c == sep then some ([], t) else elim rest [ none ↦ none | some (a, b) ↦ some (c ∷ a, b) ]

-- One field of an IPv4 address: digits, no leading zero, at most 255.
unfoldable pub octet : Text → Option ℕ
unfolding read_digits is_digit
octet [] = none
octet (c ∷ t) =
    let n = read_digits 0 (c ∷ t) in
    let bad = some_of (λ b. not (is_digit b)) (c ∷ t) in
    if bad || (c == 48 && not (is_empty t)) then none else if leb n 255 then some n else none

unfoldable pub parse_v4 : Text → Option ℕ
unfolding cut octet
parse_v4 t = do
  (a, t1) ← cut 46 t
  (b, t2) ← cut 46 t1
  (c, d) ← cut 46 t2
  i ← octet a
  j ← octet b
  k ← octet c
  l ← octet d
  some (((i * 256 + j) * 256 + k) * 256 + l)

-- The first of the bytes '.', ':' and '%' tells the family.
unfoldable pub family : Text → Option ℕ
family t = first_of_list (λ c. c == 46 || (c == 58 || c == 37)) t

abbrev mapped : ℕ → Bool
mapped n = n / 2 ^ 32 == 65535

module _ (v : V6) where
  unfoldable pub parse_ip : Text → Option Ip
  unfolding family parse_v4
  parse_ip t =
      let four = parse_v4 t >>= λ n. some (v4 n) in
      let six = v.parse_v6 t >>= λ n. some (if mapped n then v4 (n % 2 ^ 32) else v6 n) in
      family t >>= λ c. if c == 46 then four else if c == 58 then six else none

  -- The bits after the prefix, cleared.
  abbrev clear : ℕ → ℕ → ℕ
  clear n free = n / 2 ^ free * 2 ^ free

  abbrev v6_range : ℕ → ℕ → Cidr
  v6_range net bits = if mapped net then cidr4 (net % 2 ^ 32) (bits - 96) else cidr6 net bits

  -- The number of a prefix length, at most `most`.
  unfoldable pub prefix_length : Text → ℕ → Option ℕ
  unfolding read_digits is_digit
  prefix_length t most =
      let n = read_digits 0 t in
      if is_empty t || (some_of (λ b. not (is_digit b)) t || ltb most n) then none else some n

  unfoldable pub parse_cidr : Text → Option Cidr
  unfolding family parse_v4 prefix_length cut
  parse_cidr t = do
    (a, m) ← cut 47 t
    c ← family a
    let four = (do
      n ← parse_v4 a
      bits ← prefix_length m 32
      some (cidr4 (clear n (32 - bits)) bits))
    let six = (do
      n ← v.parse_v6 a
      bits ← prefix_length m 128
      some (v6_range (clear n (128 - bits)) bits))
    if c == 46 then four else if c == 58 then six else none

  unfoldable pub show_cidr : Cidr → Text
  unfolding show_nat
  show_cidr (cidr4 n bits) =
      join (codes ".") (
        show_nat (n / 2 ^ 24)
        ∷ show_nat (n / 2 ^ 16 % 256)
        ∷ show_nat (n / 2 ^ 8 % 256)
        ∷ show_nat (n % 256)
        ∷ [])
      ++ (codes "/" ++ show_nat bits)
  show_cidr (cidr6 n bits) = v.show_v6 n ++ (codes "/" ++ show_nat bits)

-- The two addresses agree on the prefix.
unfoldable pub in_cidr : Cidr → Ip → Bool
in_cidr (cidr4 n bits) (v4 m) = m / 2 ^ (32 - bits) == n / 2 ^ (32 - bits)
in_cidr (cidr6 n bits) (v6 m) = m / 2 ^ (128 - bits) == n / 2 ^ (128 - bits)
in_cidr (cidr4 n bits) (v6 m) = false
in_cidr (cidr6 n bits) (v4 m) = false

-- The first range of a list that has the address.
unfoldable pub find_cidr : List Cidr → Ip → Option Cidr
unfolding in_cidr
find_cidr nets ip = first_of_list (λ n. in_cidr n ip) nets
