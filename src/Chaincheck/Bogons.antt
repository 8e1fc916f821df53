-- ===== src/Chaincheck/Bogons.antt =====
-- internal/core/chaincheck/bogon.go: the IPv4 addresses that the list covers.

use arxsentinel.Common.{
  ℕ, ◌+◌, ◌*◌, ◌^◌, ◌<◌, ◌≡◌, refl, ◌∙◌, inl, inr, Bool, ◌&&◌, some, List, [], ◌∷◌, arith, leb,
  Bool-cases, Option-cases, is_some, some_of, first_of_list, codes,
}
use arxsentinel.Net.{
  V6, Ip, v4, Cidr, cidr4, cidr6, parse_cidr, find_cidr, in_cidr, cut, octet, parse_v4, family,
  prefix_length,
}
use arxsentinel.Chaincheck.{bogon_cidrs, compile_nets, new_bogon_checker, nets_contain}

abbrev pub dotted : ℕ → ℕ → ℕ → ℕ → ℕ
dotted a b c d = ((a * 256 + b) * 256 + c) * 256 + d

-- The first and the last address of each reserved block of IPv4, in the order of the list.
abbrev pub reserved_blocks : List (ℕ × ℕ)
reserved_blocks =
    (dotted 10 0 0 0, dotted 10 255 255 255)
    ∷ (dotted 172 16 0 0, dotted 172 31 255 255)
    ∷ (dotted 192 168 0 0, dotted 192 168 255 255)
    ∷ (dotted 100 64 0 0, dotted 100 127 255 255)
    ∷ (dotted 127 0 0 0, dotted 127 255 255 255)
    ∷ (dotted 169 254 0 0, dotted 169 254 255 255)
    ∷ (dotted 192 0 2 0, dotted 192 0 2 255)
    ∷ (dotted 198 51 100 0, dotted 198 51 100 255)
    ∷ (dotted 203 0 113 0, dotted 203 0 113 255)
    ∷ (dotted 0 0 0 0, dotted 0 255 255 255)
    ∷ (dotted 240 0 0 0, dotted 255 255 255 255)
    ∷ []

abbrev pub is_reserved : ℕ → Bool
is_reserved n = some_of (λ (lo, hi). leb lo n && leb n hi) reserved_blocks

-- What Go's parser makes of the three IPv6 texts of the list.
abbrev pub ReadsBogons : V6 → Type 0
ReadsBogons v =
    (v.parse_v6 (codes "::1") ≡ some 1)
    × (v.parse_v6 (codes "fe80::") ≡ some (65152 * 2 ^ 112))
    × (v.parse_v6 (codes "fc00::") ≡ some (64512 * 2 ^ 112))

abbrev pub bogon_nets : List Cidr
bogon_nets =
    cidr4 (dotted 10 0 0 0) 8
    ∷ cidr4 (dotted 172 16 0 0) 12
    ∷ cidr4 (dotted 192 168 0 0) 16
    ∷ cidr4 (dotted 100 64 0 0) 10
    ∷ cidr4 (dotted 127 0 0 0) 8
    ∷ cidr6 1 128
    ∷ cidr4 (dotted 169 254 0 0) 16
    ∷ cidr6 (65152 * 2 ^ 112) 10
    ∷ cidr4 (dotted 192 0 2 0) 24
    ∷ cidr4 (dotted 198 51 100 0) 24
    ∷ cidr4 (dotted 203 0 113 0) 24
    ∷ cidr4 (dotted 0 0 0 0) 8
    ∷ cidr4 (dotted 240 0 0 0) 4
    ∷ cidr6 (64512 * 2 ^ 112) 7
    ∷ []

parsed_list : (v : V6) → ReadsBogons v → new_bogon_checker v ≡ some bogon_nets
unfolding new_bogon_checker bogon_cidrs compile_nets parse_cidr cut family parse_v4 octet
    prefix_length
parsed_list v (a, b, c) = rw (a, b, c) refl

first-some_of :
    (p : Cidr → Bool) (nets : List Cidr) → is_some (first_of_list p nets) ≡ some_of p nets
first-some_of p [] = refl
first-some_of p (n ∷ nets) = elim (Bool-cases (p n)) [
  | inl e ↦ rw e refl
  | inr e ↦ rw e (first-some_of p nets)
]

found :
    (v : V6) (nets : List Cidr) (ip : Ip)
    → is_some (nets_contain v nets ip) ≡ some_of (λ n. in_cidr n ip) nets
unfolding nets_contain
found v nets ip =
    let same : is_some (nets_contain v nets ip) ≡ is_some (find_cidr nets ip) =
      elim (Option-cases (find_cidr nets ip)) [
        | inl e ↦ rw (e, nets_contain) refl
        | inr (n, e) ↦ rw (e, nets_contain) refl
      ] in
    same ∙ (unfold find_cidr in first-some_of (λ n. in_cidr n ip) nets)

-- If the three IPv6 texts of the list are read as Go documents, the bogon checker is built, and of
-- the IPv4 addresses it contains exactly those in the reserved blocks.
pub bogon_blocks :
    (v : V6)
    → ReadsBogons v
    → (n : ℕ) → n < 2 ^ 32
    → (nets : List Cidr) × (new_bogon_checker v ≡ some nets)
      × (is_some (nets_contain v nets (v4 n)) ≡ is_reserved n)
bogon_blocks v h n b =
    (bogon_nets, parsed_list v h, found v bogon_nets (v4 n) ∙ (unfold in_cidr in ground arith))
