-- ===== src/Whitelist.antt =====
-- internal/core/whitelist: matcher.go, ipcache.go and verifier.go. A set of texts is the list of
-- its elements. The resolver, an interface of the source, is a record of its two lookups, none for
-- an error. Logging and the context of a lookup are left out.
pub mod Entries
pub mod Matching
pub mod Verified
pub mod Suffixes
use mathlib.Core.Path.{subst, ap₂}
use mathlib.Core.Bool.{false≢true}
use Prim.Native.Nat.{max}
use mathlib.Core.List.{reverse, append-nil, append_assoc}
use arxsentinel.Common.{
  ℕ, zero, suc, ◌+◌, ◌-◌, ◌*◌, ◌/◌, ◌%◌, ◌^◌, ◌≤◌, ◌<◌, ◌≡◌, refl, sym, ap, ◌∙◌, ◌≢◌, ◌↔◌, ◌⊎◌, inl,
  inr, Bool, true, false, not, ◌&&◌, ◌||◌, Option, none, some, List, [], ◌∷◌, ◌++◌, map, arith, ltb,
  leb, ◌==◌, if◌then◌else◌, Bool-cases, Option-cases, is_some, is_none, tests, length, take, drop,
  set, ◌>>=◌, replicate, keep, some_of, first_of_list, is_empty, length-append, All, Text, codes,
  text_eq, text_eq_iff, text_eq_refl, has_prefix, has_suffix, contains, to_lower, join, trim_space,
  mem, erase, Distinct, mem-erase, erase-Distinct, length-erase-mem, erase_absent, mem-append,
}
use arxsentinel.Common.Dict.{
  Dict, get, put, remove, keys, get-put, get-remove, mem-keys, length-keys, keys-remove, keys-put,
  Distinct-snoc, length-put, length-remove, put-Distinct,
}
use arxsentinel.Common.Int.{
  sub_ℕ, ℤ, pos, negsuc, ◌+ℤ◌, ◌≤ℤ◌, leb_ℤ, int_laws, pos_part, neg_part, +ℤ_parts, eq_of_parts,
  +ℤ_assoc,
}
use arxsentinel.Net.{V6, Ip, Cidr, parse_ip, parse_cidr, in_cidr}

-- config.BotConfig
pub record BotConfig : Type 0 where
  pub name : Text
  pub ua_patterns : List Text
  pub rdns_domains : List Text
  pub verify_method : Text
  pub exempt_detectors : List Text

-- config.WhitelistConfig, the part that NewMatcher reads
pub record WhitelistConfig : Type 0 where
  pub bots : List BotConfig
  pub ips : List Text
  pub cidrs : List Text
  pub ua_substrings : List Text
  pub paths : List Text

pub record Matcher : Type 0 where
  pub bots : List BotConfig
  pub custom_ips : List Text
  pub custom_cidrs : List Cidr
  pub custom_ua_subs : List Text
  pub custom_paths : List Text

-- The loop of NewMatcher that compiles the ranges: the first bad one is an error.
unfoldable pub compile_cidrs : V6 → List Text → Option (List Cidr)
compile_cidrs v [] = some []
compile_cidrs v (t ∷ ts) = do n ← parse_cidr v t; ns ← compile_cidrs v ts; some (n ∷ ns)

unfoldable pub new_matcher : V6 → WhitelistConfig → Option Matcher
unfolding compile_cidrs
new_matcher v cfg = do
  cidrs ← compile_cidrs v cfg.cidrs
  some (record {
    bots = cfg.bots;
    custom_ips = cfg.ips;
    custom_cidrs = cidrs;
    custom_ua_subs = cfg.ua_substrings;
    custom_paths = cfg.paths;
  })

-- The first bot with a pattern that the agent contains.
unfoldable pub find_bot : Text → List BotConfig → Option BotConfig
find_bot ua bots = first_of_list (λ b. some_of (contains ua) b.ua_patterns) bots

unfoldable pub match_bot : Matcher → Text → Option BotConfig
unfolding find_bot
match_bot m ua = if is_empty ua then none else find_bot ua m.bots

unfoldable pub is_whitelisted_ip : V6 → Matcher → Text → Bool
is_whitelisted_ip v m ip =
    if mem ip m.custom_ips
    then true
    else if is_empty m.custom_cidrs
    then false
    else elim (parse_ip v ip) [
      | none ↦ false
      | some parsed ↦ some_of (λ n. in_cidr n parsed) m.custom_cidrs
    ]

unfoldable pub is_whitelisted_ua : Matcher → Text → Bool
is_whitelisted_ua m ua = if is_empty ua then false else some_of (contains ua) m.custom_ua_subs

-- The test of one entry: an empty one is skipped.
unfoldable pub path_matches : Text → Text → Bool
path_matches path p =
    not (is_empty p)
    && (text_eq path p || (has_prefix path (p ++ codes "/") || has_prefix path (p ++ codes "?")))

unfoldable pub is_whitelisted_path : Matcher → Text → Bool
unfolding path_matches
is_whitelisted_path m path =
    if is_empty path then false else some_of (path_matches path) m.custom_paths

pub record CacheEntry : Type 0 where
  pub verified : Bool
  pub is_fake_bot : Bool
  pub expires_at : ℤ

pub record IpCache : Type 0 where
  pub entries : Dict CacheEntry
  pub positive_ttl : ℤ
  pub negative_ttl : ℤ

-- !time.Now().After(entry.expiresAt)
unfoldable pub live : ℕ → CacheEntry → Bool
live now e = leb_ℤ (pos now) e.expires_at

abbrev answer : CacheEntry → Bool × Bool
answer e = (e.verified, e.is_fake_bot)

-- The slow path of Get, under the write lock, at its own reading of the clock.
unfoldable pub get_slow : Text → ℕ → IpCache → Option (Bool × Bool) × IpCache
unfolding live
get_slow ip now c = elim (get c.entries ip) [
  | none ↦ (none, c)
  | some e ↦
      let dropped = record c { entries = remove c.entries ip } in
      if live now e then (some (answer e), c) else (none, dropped)
]

-- Get. `c` is the cache that the fast path reads at `now`; `c'` is the one that the slow path
-- finds at `later`, since another goroutine may write between the two locks.
unfoldable pub get_cached : Text → ℕ → IpCache → ℕ → IpCache → Option (Bool × Bool) × IpCache
unfolding live get_slow
get_cached ip now c later c' = elim (get c.entries ip) [
  | none ↦ (none, c)
  | some e ↦ let slow = get_slow ip later c' in if live now e then (some (answer e), c) else slow
]

unfoldable pub set_cached : Text → Bool → Bool → ℕ → IpCache → IpCache
set_cached ip verified fake now c =
    let ttl = if verified then c.positive_ttl else c.negative_ttl in
    let e : CacheEntry = record {
      verified = verified;
      is_fake_bot = fake;
      expires_at = pos now +ℤ ttl;
    } in
    record c { entries = put c.entries ip e }

pub record Resolver : Type 0 where
  pub lookup_addr : Text → Option (List Text)
  pub lookup_host : Text → Option (List Text)

-- strings.TrimSuffix(hostname, ".")
unfoldable pub trim_dot : Text → Text
trim_dot [] = []
trim_dot (c ∷ []) = if c == 46 then [] else c ∷ []
trim_dot (c ∷ d ∷ t) = c ∷ trim_dot (d ∷ t)

unfoldable pub with_dot : Text → Text
with_dot domain = if has_prefix domain (codes ".") then domain else codes "." ++ domain

unfoldable pub matches_rdns_domain : Text → List Text → Bool
unfolding with_dot
matches_rdns_domain hostname domains = some_of (λ d. has_suffix hostname (with_dot d)) domains

-- One round of the loop over the host names: whether it returns true.
unfoldable pub confirms : Resolver → Text → BotConfig → Text → Bool
unfolding trim_dot matches_rdns_domain
confirms r ip cfg hostname =
    let host = trim_dot hostname in
    let found : Bool = elim (r.lookup_host host) [ none ↦ false | some addrs ↦ mem ip addrs ] in
    if not (matches_rdns_domain host cfg.rdns_domains) then false else found

unfoldable pub verify_rdns : Resolver → Text → BotConfig → Bool
unfolding confirms
verify_rdns r ip cfg = elim (r.lookup_addr ip) [
  | none ↦ false
  | some names ↦ if is_empty names then false else some_of (confirms r ip cfg) names
]

abbrev pub uses_dns : BotConfig → Bool
uses_dns cfg =
    text_eq cfg.verify_method (codes "rdns") || text_eq cfg.verify_method (codes "rdns_ipjson")

-- Verify. `now` is the time of the cache lookup, `later` the one after the DNS lookups. The
-- methods ua_only and ip_ranges and an unknown one all answer (false, false).
unfoldable pub verify : Resolver → ℕ → ℕ → Text → BotConfig → IpCache → (Bool × Bool) × IpCache
unfolding get_cached set_cached verify_rdns
verify r now later ip cfg c =
    let (hit, c') = get_cached ip now c now c in
    let ok = verify_rdns r ip cfg in
    let asked : (Bool × Bool) × IpCache = ((ok, not ok), set_cached ip ok (not ok) later c') in
    let unasked : (Bool × Bool) × IpCache = ((false, false), c') in
    elim hit [ some result ↦ (result, c') | none ↦ if uses_dns cfg then asked else unasked ]
