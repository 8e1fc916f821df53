-- ===== src/Whitelist/Verified.antt =====
-- internal/core/whitelist/verifier.go and ipcache.go: when a bot is verified, and how long the
-- cache keeps the answer.

use arxsentinel.Common.{
  ℕ, ◌≡◌, refl, ◌↔◌, inl, inr, Bool, true, false, not, Option, none, some, List, [], ◌∷◌, arith,
  if◌then◌else◌, Bool-cases, Option-cases, some_of, is_empty, Text, text_eq_refl, mem,
}
use arxsentinel.Common.Dict.{get, remove, get-put}
use arxsentinel.Common.Int.{ℤ, pos, ◌+ℤ◌, leb_ℤ}
use arxsentinel.Whitelist.{
  BotConfig, CacheEntry, IpCache, Resolver, live, get_slow, get_cached, set_cached, trim_dot,
  matches_rdns_domain, confirms, verify_rdns, uses_dns, verify,
}
use arxsentinel.Whitelist.Matching.{some_of_iff}

-- The host name that the PTR record gives, without its dot.
abbrev pub Proves : Resolver → Text → BotConfig → Text → Type 0
Proves r ip cfg name =
    (matches_rdns_domain (trim_dot name) cfg.rdns_domains ≡ true)
    × (addrs : List Text) × (r.lookup_host (trim_dot name) ≡ some addrs)
    × (mem ip addrs ≡ true)

confirms→Proves :
    (r : Resolver) (ip : Text) (cfg : BotConfig) (name : Text)
    → confirms r ip cfg name ≡ true
    → Proves r ip cfg name
unfolding confirms
confirms→Proves r ip cfg name h = elim (Option-cases (r.lookup_host (trim_dot name))) [
  | inl e ↦ absurd (ground arith)
  | inr (addrs, e) ↦ (ground arith, addrs, e, ground arith)
]

Proves→confirms :
    (r : Resolver) (ip : Text) (cfg : BotConfig) (name : Text)
    → Proves r ip cfg name
    → confirms r ip cfg name ≡ true
unfolding confirms
Proves→confirms r ip cfg name (d, addrs, e, m) = ground arith

some_of-filled : (q : Text → Bool) (xs : List Text) → some_of q xs ≡ true → is_empty xs ≡ false
some_of-filled q [] h = absurd (ground arith)
some_of-filled q (x ∷ xs) h = refl

-- verifyRDNS holds exactly if the PTR lookup gives a host name with an allowed suffix, and the
-- lookup of that host name gives the address back.
pub verify_rdns_iff :
    (r : Resolver) (ip : Text) (cfg : BotConfig)
    → (verify_rdns r ip cfg ≡ true) ↔ (
        (names : List Text) × (r.lookup_addr ip ≡ some names)
        × (name : Text) × (mem name names ≡ true)
        × Proves r ip cfg name)
unfolding verify_rdns
verify_rdns_iff r ip cfg = elim (Option-cases (r.lookup_addr ip)) [
  | inl e ↦ (λ h. absurd (ground arith), λ (names, n, name, m, p). absurd (ground arith))
  | inr (names, e) ↦ (
    λ h.
        (let (name, m, c) = (some_of_iff (confirms r ip cfg) names).0 (ground arith) in
          (names, e, name, m, confirms→Proves r ip cfg name c)),
    λ (names', e', name, m, p).
        (let same : names' ≡ names = ground arith in
          let hit =
            (some_of_iff (confirms r ip cfg) names').1 (name, m, Proves→confirms r ip cfg name p) in
          let filled : is_empty names' ≡ false = some_of-filled (confirms r ip cfg) names' hit in
          ground arith),
  )
]

-- What Verify leaves in the cache after DNS lookups that it made.
written :
    (r : Resolver) (now later : ℕ) (ip : Text) (cfg : BotConfig) (c : IpCache)
    → uses_dns cfg ≡ true
    → (get_cached ip now c now c).0 ≡ none
    → let ok = verify_rdns r ip cfg in
      verify r now later ip cfg c
      ≡ ((ok, not ok), set_cached ip ok (not ok) later (get_cached ip now c now c).1)
unfolding verify
written r now later ip cfg c d miss = rw (miss, d, verify) refl

abbrev get_or : Option (Bool × Bool) → Bool × Bool → Bool × Bool
get_or none b = b
get_or (some a) b = a

answered :
    (r : Resolver) (now later : ℕ) (ip : Text) (cfg : BotConfig) (c : IpCache)
    → uses_dns cfg ≡ true
    → (verify r now later ip cfg c).0
      ≡ get_or (get_cached ip now c now c).0 (verify_rdns r ip cfg, not (verify_rdns r ip cfg))
unfolding verify
answered r now later ip cfg c d = elim (Option-cases (get_cached ip now c now c).0) [
  | inl e ↦ rw (e, d, verify) refl
  | inr (x, e) ↦ rw (e, verify) refl
]

abbrev ttl : IpCache → Bool → ℤ
ttl c ok = if ok then c.positive_ttl else c.negative_ttl

-- Get, with nobody else writing between its two locks.
pub get_cached_absent :
    (ip : Text) (now : ℕ) (c : IpCache)
    → get c.entries ip ≡ none
    → get_cached ip now c now c ≡ (none, c)
unfolding get_cached
get_cached_absent ip now c h = rw (h, get_cached) refl

slow_expired :
    (ip : Text) (now : ℕ) (c : IpCache) (e : CacheEntry)
    → get c.entries ip ≡ some e
    → live now e ≡ false
    → get_slow ip now c ≡ (none, record c { entries = remove c.entries ip })
unfolding get_slow
slow_expired ip now c e h l = rw (h, l, get_slow) refl

pub get_cached_present :
    (ip : Text) (now : ℕ) (c : IpCache) (e : CacheEntry)
    → get c.entries ip ≡ some e
    → get_cached ip now c now c ≡ (
        if live now e
        then (some (e.verified, e.is_fake_bot), c)
        else (none, record c { entries = remove c.entries ip }))
unfolding get_cached
get_cached_present ip now c e h = elim (Bool-cases (live now e)) [
  | inl l ↦ rw (h, l, get_cached) refl
  | inr l ↦ rw (h, l, get_cached) (slow_expired ip now c e h l)
]

ttl-get_cached :
    (ip : Text) (now : ℕ) (c : IpCache) (ok : Bool)
    → ttl (get_cached ip now c now c).1 ok ≡ ttl c ok
ttl-get_cached ip now c ok = elim (Option-cases (get c.entries ip)) [
  | inl e ↦ rw (get_cached_absent ip now c e) refl
  | inr (x, e) ↦ rw (get_cached_present ip now c x e) (ground arith)
]

get-set_cached :
    (ip : Text) (ok fake : Bool) (later t : ℕ) (c : IpCache)
    → let c' = set_cached ip ok fake later c in
      (get_cached ip t c' t c').0
      ≡ (if leb_ℤ (pos t) (pos later +ℤ ttl c ok) then some (ok, fake) else none)
unfolding set_cached
get-set_cached ip ok fake later t c =
    let e : CacheEntry = record {
      verified = ok;
      is_fake_bot = fake;
      expires_at = pos later +ℤ ttl c ok;
    } in
    let found : get (set_cached ip ok fake later c).entries ip ≡ some e =
      ground (arith, get-put c.entries ip e ip, text_eq_refl ip) in
    rw (get_cached_present ip t (set_cached ip ok fake later c) e found)
      (unfold live in ground arith)

-- After Verify has asked DNS, at a miss, a later Verify gives the same answer while the TTL of the
-- answer lasts, whatever DNS says by then; once it is over, it asks again.
pub verify-verify :
    (r r' : Resolver) (now later now' later' : ℕ) (ip : Text) (cfg : BotConfig) (c : IpCache)
    → uses_dns cfg ≡ true
    → (get_cached ip now c now c).0 ≡ none
    → let ok = verify_rdns r ip cfg in
      let ok' = verify_rdns r' ip cfg in
      let ttl = if ok then c.positive_ttl else c.negative_ttl in
      (verify r' now' later' ip cfg (verify r now later ip cfg c).1).0
      ≡ (if leb_ℤ (pos now') (pos later +ℤ ttl) then (ok, not ok) else (ok', not ok'))
verify-verify r r' now later now' later' ip cfg c d miss =
    let ok = verify_rdns r ip cfg in
    let c1 = (get_cached ip now c now c).1 in
    let again = get-set_cached ip ok (not ok) later now' c1 in
    rw
      (
        written r now later ip cfg c d miss,
        answered r' now' later' ip cfg _ d,
        again,
        ttl-get_cached ip now c ok,
      )
      (ground arith)
