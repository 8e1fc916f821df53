-- ===== src/Whitelist/Matching.antt =====
-- internal/core/whitelist/matcher.go: what the custom whitelist covers.

use arxsentinel.Common.{
  ◌≡◌, refl, ◌↔◌, ◌⊎◌, inl, inr, Bool, true, false, ◌||◌, Option, none, some, List, [], ◌∷◌, ◌++◌,
  arith, if◌then◌else◌, Bool-cases, Option-cases, is_none, some_of, is_empty, Text, codes, text_eq,
  text_eq_iff, text_eq_refl, mem,
}
use arxsentinel.Net.{V6, Ip, Cidr, parse_ip, parse_cidr, in_cidr}
use arxsentinel.Whitelist.{Matcher, WhitelistConfig, new_matcher, compile_cidrs, is_whitelisted_ip}

-- A segment of the path ends here: the path is over, or "/" or "?" follows.
abbrev pub SegmentEnd : Text → Type 0
SegmentEnd r =
    (r ≡ []) ⊎ (((t : Text) × (r ≡ codes "/" ++ t)) ⊎ ((t : Text) × (r ≡ codes "?" ++ t)))

-- A test holds of an element of a list of texts.
some_of-mem :
    (q : Text → Bool) (xs : List Text)
    → some_of q xs ≡ true
    → (x : Text) × (mem x xs ≡ true) × (q x ≡ true)
unfolding mem
some_of-mem q [] h = absurd (ground arith)
some_of-mem q (x ∷ xs) h = elim (Bool-cases (q x)) [
  | inl e ↦ (x, ground (arith, text_eq_refl x), e)
  | inr e ↦ let (y, m, qy) = some_of-mem q xs (ground arith) in (y, ground arith, qy)
]

mem-some_of :
    (q : Text → Bool) (xs : List Text) (x : Text)
    → mem x xs ≡ true
    → q x ≡ true
    → some_of q xs ≡ true
unfolding mem
mem-some_of q [] x m h = absurd (ground arith)
mem-some_of q (y ∷ xs) x m h = elim (Bool-cases (text_eq y x)) [
  | inl e ↦ let same : y ≡ x = (text_eq_iff y x).0 e in ground arith
  | inr e ↦ ground (arith, mem-some_of q xs x)
]

pub some_of_iff :
    (q : Text → Bool) (xs : List Text)
    → (some_of q xs ≡ true) ↔ ((x : Text) × (mem x xs ≡ true) × (q x ≡ true))
some_of_iff q xs = (some_of-mem q xs, λ (x, m, h). mem-some_of q xs x m h)

-- The ranges among the texts of a list.
abbrev pub ranges : V6 → List Text → List Cidr
ranges v [] = []
ranges v (t ∷ ts) = elim (parse_cidr v t) [ none ↦ ranges v ts | some n ↦ n ∷ ranges v ts ]

compile_cidrs_lem :
    (v : V6) (ts : List Text)
    → compile_cidrs v ts
      ≡ (if some_of (λ t. is_none (parse_cidr v t)) ts then none else some (ranges v ts))
unfolding compile_cidrs
compile_cidrs_lem v [] = refl
compile_cidrs_lem v (t ∷ ts) = elim (Option-cases (parse_cidr v t)) [
  | inl e ↦ rw e refl
  | inr (n, e) ↦ elim (Bool-cases (some_of (λ u. is_none (parse_cidr v u)) ts)) [
    | inl b ↦ rw e (ground (arith, compile_cidrs_lem v ts))
    | inr b ↦ rw e (ground (arith, compile_cidrs_lem v ts))
  ]
]

abbrev in_ranges : List Cidr → Option Ip → Bool
in_ranges nets none = false
in_ranges nets (some a) = some_of (λ n. in_cidr n a) nets

-- Whether the custom whitelist of the configuration names the address, or a range that has it.
abbrev pub lists_ip : V6 → WhitelistConfig → Text → Bool
lists_ip v cfg ip = mem ip cfg.ips || in_ranges (ranges v cfg.cidrs) (parse_ip v ip)

no_ranges :
    (b : Bool) (nets : List Cidr) (a : Ip)
    → (if b then true else if is_empty nets then false else some_of (λ n. in_cidr n a) nets)
      ≡ (b || some_of (λ n. in_cidr n a) nets)
no_ranges b [] a = ground arith
no_ranges b (n ∷ nets) a = ground arith

covered_by :
    (v : V6) (m : Matcher) (ip : Text)
    → is_whitelisted_ip v m ip ≡ (mem ip m.custom_ips || in_ranges m.custom_cidrs (parse_ip v ip))
unfolding is_whitelisted_ip
covered_by v m ip = elim (Option-cases (parse_ip v ip)) [
  | inl e ↦ rw e (ground arith)
  | inr (a, e) ↦ rw e (no_ranges (mem ip m.custom_ips) m.custom_cidrs a)
]

abbrev matcher_of : V6 → WhitelistConfig → Matcher
matcher_of v cfg = record {
  bots = cfg.bots;
  custom_ips = cfg.ips;
  custom_cidrs = ranges v cfg.cidrs;
  custom_ua_subs = cfg.ua_substrings;
  custom_paths = cfg.paths;
}

-- NewMatcher fails exactly if a range of the configuration does not parse; otherwise IsWhitelistedIP
-- holds of exactly the addresses that the configuration names and those in its ranges.
pub new_matcher_lem :
    (v : V6) (cfg : WhitelistConfig)
    → ((some_of (λ t. is_none (parse_cidr v t)) cfg.cidrs ≡ true) × (new_matcher v cfg ≡ none))
      ⊎ ((m : Matcher) × (new_matcher v cfg ≡ some m)
          × (some_of (λ t. is_none (parse_cidr v t)) cfg.cidrs ≡ false)
          × ((ip : Text) → is_whitelisted_ip v m ip ≡ lists_ip v cfg ip))
unfolding new_matcher
new_matcher_lem v cfg = elim (Bool-cases (some_of (λ t. is_none (parse_cidr v t)) cfg.cidrs)) [
  | inl e ↦ inl (e, rw (compile_cidrs_lem v cfg.cidrs) (rw e refl))
  | inr e ↦ inr (
    matcher_of v cfg,
    rw (compile_cidrs_lem v cfg.cidrs) (rw e refl),
    e,
    covered_by v (matcher_of v cfg),
  )
]
