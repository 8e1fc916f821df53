-- ===== src/Chaincheck.antt =====
-- internal/core/chaincheck: bogon.go, and Check of checker.go. The list of Cloudflare's ranges is a
-- field of its checker; Chaincheck/Ranges has its refresh and the building of the checkers.
pub mod Bogons
pub mod Ranges
pub mod Refreshed
pub mod Entries
pub mod Issued
use mathlib.Core.Path.{subst, ap₂}
use mathlib.Core.Bool.{false≢true}
use Prim.Native.Nat.{max}
use mathlib.Core.List.{reverse, append-nil, append_assoc}
use arxsentinel.Common.{
  ℕ, zero, suc, ◌+◌, ◌-◌, ◌*◌, ◌/◌, ◌%◌, ◌^◌, ◌≤◌, ◌<◌, ◌≡◌, refl, sym, ap, ◌∙◌, ◌≢◌, ◌↔◌, ◌⊎◌, inl,
  inr, Bool, true, false, not, ◌&&◌, ◌||◌, Option, none, some, List, [], ◌∷◌, ◌++◌, map, arith, ltb,
  leb, ◌==◌, if◌then◌else◌, Bool-cases, Option-cases, is_some, is_none, tests, length, take, drop,
  set, ◌>>=◌, replicate, keep, some_of, first_of_list, is_empty, length-append, All, Text, codes,
  text_eq, text_eq_iff, text_eq_refl, has_prefix, has_suffix, contains, to_lower, join, trim_space,
  mem, erase, Distinct, mem-erase, erase-Distinct, length-erase-mem, erase_absent, mem-append,
}
use arxsentinel.Common.Dict.{
  Dict, get, put, remove, keys, get-put, get-remove, mem-keys, length-keys, keys-remove, keys-put,
  Distinct-snoc, length-put, length-remove, put-Distinct,
}
use arxsentinel.Common.Int.{
  sub_ℕ, ℤ, pos, negsuc, ◌+ℤ◌, ◌≤ℤ◌, leb_ℤ, int_laws, pos_part, neg_part, +ℤ_parts, eq_of_parts,
  +ℤ_assoc,
}
use arxsentinel.Net.{V6, Ip, Cidr, parse_ip, parse_cidr, show_cidr, find_cidr}

unfoldable pub bogon_cidrs : List Text
bogon_cidrs =
    codes "10.0.0.0/8"
    ∷ codes "172.16.0.0/12"
    ∷ codes "192.168.0.0/16"
    ∷ codes "100.64.0.0/10"
    ∷ codes "127.0.0.0/8"
    ∷ codes "::1/128"
    ∷ codes "169.254.0.0/16"
    ∷ codes "fe80::/10"
    ∷ codes "192.0.2.0/24"
    ∷ codes "198.51.100.0/24"
    ∷ codes "203.0.113.0/24"
    ∷ codes "0.0.0.0/8"
    ∷ codes "240.0.0.0/4"
    ∷ codes "fc00::/7"
    ∷ []

-- The loop of NewBogonChecker; none is its panic.
unfoldable pub compile_nets : V6 → List Text → Option (List Cidr)
compile_nets v [] = some []
compile_nets v (t ∷ ts) = do n ← parse_cidr v t; ns ← compile_nets v ts; some (n ∷ ns)

-- The checker is its list of ranges.
unfoldable pub new_bogon_checker : V6 → Option (List Cidr)
unfolding compile_nets
new_bogon_checker v = compile_nets v bogon_cidrs

-- Contains, of both checkers: the text of the first range that has the address.
unfoldable pub nets_contain : V6 → List Cidr → Ip → Option Text
nets_contain v nets ip = elim (find_cidr nets ip) [ none ↦ none | some n ↦ some (show_cidr v n) ]

pub record CheckResult : Type 0 where
  pub kind : Text
  pub ip : Text
  pub matched_cidr : Text

-- A checker that is switched off is none.
pub record Checker : Type 0 where
  pub cf : Option (List Cidr)
  pub bogon : Option (List Cidr)

-- One of the two checks of Check.
unfoldable pub check_one : V6 → Text → Text → Option (List Cidr) → Ip → Option CheckResult
unfolding nets_contain
check_one v kind ip none parsed = none
check_one v kind ip (some nets) parsed = elim (nets_contain v nets parsed) [
  | none ↦ none
  | some cidr ↦ some (record { kind = kind; ip = ip; matched_cidr = cidr })
]

unfoldable pub check : V6 → Checker → Text → Option CheckResult
unfolding check_one
check v c ip = elim (if is_empty ip then none else parse_ip v ip) [
  | none ↦ none
  | some parsed ↦ elim (check_one v (codes "cloudflare") ip c.cf parsed) [
    | some result ↦ some result
    | none ↦ check_one v (codes "bogon") ip c.bogon parsed
  ]
]
