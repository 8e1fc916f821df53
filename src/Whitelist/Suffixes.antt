-- ===== src/Whitelist/Suffixes.antt =====
-- internal/core/whitelist/verifier.go: matchesRDNSDomain, and what the cache of answers holds.
use mathlib.Core.Path.{subst}
use mathlib.Core.List.{reverse}
use arxsentinel.Common.{
  ℕ, ◌≡◌, refl, sym, ap, ◌∙◌, ◌↔◌, ◌⊎◌, inl, inr, Bool, true, false, not, ◌&&◌, some, List, ◌++◌,
  arith, if◌then◌else◌, Bool-cases, Option-cases, Text, codes, text_eq, has_prefix,
  has_prefix_append, has_prefix_split, has_suffix, mem,
}
use arxsentinel.Common.Dict.{get, remove, get-put, get-remove}
use arxsentinel.Common.Int.{pos, ◌+ℤ◌}
use mathlib.Core.List.{reverse-append, reverse-reverse}
use arxsentinel.Whitelist.{
  BotConfig, CacheEntry, IpCache, Resolver, live, get_cached, set_cached, with_dot,
  matches_rdns_domain, uses_dns, verify,
}
use arxsentinel.Whitelist.Verified.{get_cached_absent, get_cached_present}
use arxsentinel.Whitelist.Matching.{some_of_iff}

has_suffix_iff : (s t : Text) → (has_suffix s t ≡ true) ↔ ((r : Text) × (s ≡ r ++ t))
unfolding has_suffix
has_suffix_iff s t = (
  λ h.
      (let (r, e) = has_prefix_split (reverse s) (reverse t) h in
        (
          reverse r,
          sym (reverse-reverse s)
              ∙ ap reverse e
              ∙ reverse-append (reverse t) r
              ∙ ap (λ u. reverse r ++ u) (reverse-reverse t),
        )),
  λ (r, e). rw (e, reverse-append r t) (has_prefix_append (reverse t) (reverse r)),
)

-- The domain without the dot that it may start with.
abbrev pub IsBare : Text → Text → Type 0
IsBare domain rest =
    (domain ≡ codes "." ++ rest) ⊎ ((has_prefix domain (codes ".") ≡ false) × (domain ≡ rest))

with_dot_lem : (d : Text) → (rest : Text) × IsBare d rest
with_dot_lem d = elim (Bool-cases (has_prefix d (codes "."))) [
  | inl e ↦ let (r, q) = has_prefix_split d (codes ".") e in (r, inl q)
  | inr e ↦ (d, inr (e, refl))
]

with_dot-IsBare : (d rest : Text) → IsBare d rest → with_dot d ≡ codes "." ++ rest
unfolding with_dot has_prefix
with_dot-IsBare d rest (inl e) = rw e refl
with_dot-IsBare d rest (inr (none_there, e)) =
    rw (none_there, with_dot) (ap (λ t. codes "." ++ t) e)

-- matchesRDNSDomain holds exactly if the host name ends in one of the domains at a label: in a dot
-- and the domain, without the dot that it may start with.
pub matches_rdns_domain_iff :
    (hostname : Text) (domains : List Text)
    → (matches_rdns_domain hostname domains ≡ true) ↔ (
        (domain : Text) × (mem domain domains ≡ true)
        × (rest : Text) × IsBare domain rest
        × (before : Text) × (hostname ≡ before ++ (codes "." ++ rest)))
unfolding matches_rdns_domain
matches_rdns_domain_iff hostname domains =
    let found = some_of_iff (λ d. has_suffix hostname (with_dot d)) domains in
    (
      λ h.
          (let (d, i, s) = found.0 h in
            let (rest, bare) = with_dot_lem d in
            let (before, e) = (has_suffix_iff hostname (with_dot d)).0 s in
            (d, i, rest, bare, before, e ∙ ap (λ u. before ++ u) (with_dot-IsBare d rest bare))),
      λ (d, i, rest, bare, before, e). found.1 (
        d,
        i,
        (has_suffix_iff hostname (with_dot d)).1
            (before, e ∙ ap (λ u. before ++ u) (sym (with_dot-IsBare d rest bare))),
      ),
    )

-- No entry of the cache says both verified and fake.
abbrev pub IsSound : IpCache → Type 0
IsSound c =
    (ip : Text) (e : CacheEntry) → get c.entries ip ≡ some e → (e.verified && e.is_fake_bot) ≡ false

abbrev pub both : Bool × Bool → Bool
both (a, b) = a && b

sound_of :
    (a b : CacheEntry)
    → some a ≡ some b
    → (a.verified && a.is_fake_bot) ≡ false
    → (b.verified && b.is_fake_bot) ≡ false
sound_of a b q h =
    let same : a ≡ b = ground arith in subst (λ e. (e.verified && e.is_fake_bot) ≡ false) same h

said_of :
    (a : CacheEntry) (x : Bool × Bool)
    → some (a.verified, a.is_fake_bot) ≡ some x
    → (a.verified && a.is_fake_bot) ≡ false
    → both x ≡ false
said_of a (v, f) q h = ground arith

set_cached-IsSound :
    (ip : Text) (ok : Bool) (now : ℕ) (c : IpCache)
    → IsSound c
    → IsSound (set_cached ip ok (not ok) now c)
unfolding set_cached
set_cached-IsSound ip ok now c h j e g =
    let new : CacheEntry = record {
      verified = ok;
      is_fake_bot = not ok;
      expires_at = pos now +ℤ (if ok then c.positive_ttl else c.negative_ttl);
    } in
    elim (Bool-cases (text_eq ip j)) [
      | inl q ↦
          let same : some new ≡ some e = sym (get-put c.entries ip new j ∙ rw q refl) ∙ g in
          sound_of new e same (ground arith)
      | inr q ↦ h j e (sym (get-put c.entries ip new j ∙ rw q refl) ∙ g)
    ]

removed-IsSound :
    (ip : Text) (c : IpCache) → IsSound c → IsSound (record c { entries = remove c.entries ip })
removed-IsSound ip c h j e g = elim (Bool-cases (text_eq ip j)) [
  | inl q ↦ absurd (ground (arith, get-remove c.entries ip j))
  | inr q ↦ h j e (sym (get-remove c.entries ip j ∙ rw q refl) ∙ g)
]

-- What Get answers, and what it leaves, is sound if the cache is.
get_cached-IsSound :
    (ip : Text) (now : ℕ) (c : IpCache)
    → IsSound c
    → IsSound (get_cached ip now c now c).1
      × ((x : Bool × Bool) → (get_cached ip now c now c).0 ≡ some x → both x ≡ false)
get_cached-IsSound ip now c h = elim (Option-cases (get c.entries ip)) [
  | inl a ↦ rw (get_cached_absent ip now c a) (h, λ x q. absurd (ground arith))
  | inr (old, a) ↦ rw (get_cached_present ip now c old a) (elim (Bool-cases (live now old)) [
    | inl l ↦ rw l (h, λ x q. said_of old x q (h ip old a))
    | inr l ↦ rw l (removed-IsSound ip c h, λ x q. absurd (ground arith))
  ])
]

-- If no entry of the cache says both verified and fake, Verify keeps it so, and its own answer does
-- not say both.
pub verify-IsSound :
    (r : Resolver) (now later : ℕ) (ip : Text) (cfg : BotConfig) (c : IpCache)
    → IsSound c
    → IsSound (verify r now later ip cfg c).1 × (both (verify r now later ip cfg c).0 ≡ false)
unfolding verify
verify-IsSound r now later ip cfg c h =
    let (kept, said) = get_cached-IsSound ip now c h in
    elim (Option-cases (get_cached ip now c now c).0) [
      | inl a ↦ elim (Bool-cases (uses_dns cfg)) [
        | inl d ↦ rw (a, d, verify) (set_cached-IsSound ip _ later _ kept, ground arith)
        | inr d ↦ rw (a, d, verify) (kept, refl)
      ]
      | inr (x, a) ↦ rw (a, verify) (kept, said x a)
    ]
