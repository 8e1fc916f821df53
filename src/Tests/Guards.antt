-- ===== src/Tests/Guards.antt =====
-- The whitelist, the chain guard and the WAF at concrete inputs.

use arxsentinel.Common.{
  ◌*◌, ◌^◌, ◌≡◌, refl, ◌↔◌, ◌⊎◌, true, false, not, none, some, List, [], ◌∷◌, ◌++◌, arith,
  if◌then◌else◌, is_some, is_none, some_of, Text, codes, text_eq, has_prefix, has_suffix, mem,
}
use arxsentinel.Common.Dict.{get}
use arxsentinel.Common.Int.{ℤ, pos, ◌+ℤ◌, leb_ℤ}
use arxsentinel.Net.{Cidr, V6, v4, parse_cidr, parse_ip, in_cidr}
use arxsentinel.Whitelist.{
  BotConfig, Matcher, WhitelistConfig, IpCache, Resolver, new_matcher, is_whitelisted_ip,
  is_whitelisted_path, verify_rdns, verify, get_cached,
}
use arxsentinel.Whitelist.Matching.{lists_ip, new_matcher_lem}
use arxsentinel.Whitelist.{matches_rdns_domain}
use arxsentinel.Whitelist.Suffixes.{IsBare, matches_rdns_domain_iff, IsSound, both, verify-IsSound}
use arxsentinel.Whitelist.Verified.{Proves, verify_rdns_iff, verify-verify}
use arxsentinel.Chaincheck.{new_bogon_checker, nets_contain}
use arxsentinel.Chaincheck.Bogons.{dotted, is_reserved, ReadsBogons, bogon_blocks}
use arxsentinel.Waf.{
  WafEvent, RuleSet, WafProcessor, gate_bucket, classify_action, dropped, passed, signal, dispatch,
}
use arxsentinel.Waf.Actions.{dispatch-classify_action}
use arxsentinel.Tests.Inputs.{ip_a, ip_b, request}

-- The IPv6 texts of the bogon list.
abbrev pub few : V6
few = record {
  parse_v6 = λ t.
      if text_eq t (codes "::1")
      then some 1
      else if text_eq t (codes "fe80::")
      then some (65152 * 2 ^ 112)
      else if text_eq t (codes "fc00::")
      then some (64512 * 2 ^ 112)
      else none;
  show_v6 = λ n. codes "v6";
}

abbrev custom : WhitelistConfig
custom = record {
  bots = [];
  ips = ip_a ∷ [];
  cidrs = codes "192.168.0.0/16" ∷ [];
  ua_substrings = [];
  paths = codes "/ws" ∷ [];
}

abbrev pub matcher : Matcher
matcher = record {
  bots = [];
  custom_ips = [];
  custom_cidrs = [];
  custom_ua_subs = [];
  custom_paths = codes "/ws" ∷ [];
}

segments :
    (is_whitelisted_path matcher (codes "/ws/chat") ≡ true)
    × (is_whitelisted_path matcher (codes "/wsx") ≡ false)
unfolding is_whitelisted_path text_eq has_prefix
segments = (refl, refl)

new_matcher_example :
    ((some_of (λ t. is_none (parse_cidr few t)) custom.cidrs ≡ true)
      × (new_matcher few custom ≡ none))
    ⊎ ((m : Matcher) × (new_matcher few custom ≡ some m)
        × (some_of (λ t. is_none (parse_cidr few t)) custom.cidrs ≡ false)
        × ((ip : Text) → is_whitelisted_ip few m ip ≡ lists_ip few custom ip))
new_matcher_example = new_matcher_lem few custom

in_range : lists_ip few custom (codes "192.168.7.9") ≡ true
unfolding parse_ip parse_cidr in_cidr mem text_eq
in_range = refl

abbrev bot : BotConfig
bot = record {
  name = codes "google";
  ua_patterns = codes "Googlebot" ∷ [];
  rdns_domains = codes "googlebot.com" ∷ [];
  verify_method = codes "rdns";
  exempt_detectors = [];
}

-- A resolver that gives the host name for every address, and one address for every host name.
abbrev dns : Text → Resolver
dns host = record { lookup_addr = λ ip. some (host ∷ []); lookup_host = λ name. some (ip_a ∷ []) }

abbrev pub genuine : Resolver
genuine = dns (codes "crawl.googlebot.com.")

verified_and_not :
    (verify_rdns genuine ip_a bot ≡ true)
    × (verify_rdns genuine ip_b bot ≡ false)
    × (verify_rdns (dns (codes "evilgooglebot.com.")) ip_a bot ≡ false)
unfolding verify_rdns has_suffix mem text_eq
verified_and_not = (refl, refl, refl)

verify_rdns_iff_example : (verify_rdns genuine ip_a bot ≡ true) ↔ (
    (names : List Text) × (genuine.lookup_addr ip_a ≡ some names)
    × (name : Text) × (mem name names ≡ true)
    × Proves genuine ip_a bot name)
verify_rdns_iff_example = verify_rdns_iff genuine ip_a bot

abbrev pub no_answers : IpCache
no_answers = record { entries = []; positive_ttl = pos 100; negative_ttl = pos 10 }

nothing_cached : (get_cached ip_a 5 no_answers 5 no_answers).0 ≡ none
unfolding get_cached get
nothing_cached = refl

abbrev spoofed : Resolver
spoofed = dns (codes "evil.example.")

verify-verify_example :
    let ok = verify_rdns genuine ip_a bot in
    let ok' = verify_rdns spoofed ip_a bot in
    let ttl = if ok then no_answers.positive_ttl else no_answers.negative_ttl in
    (verify spoofed 90 91 ip_a bot (verify genuine 5 6 ip_a bot no_answers).1).0
    ≡ (if leb_ℤ (pos 90) (pos 6 +ℤ ttl) then (ok, not ok) else (ok', not ok'))
verify-verify_example =
    verify-verify genuine spoofed 5 6 90 91 ip_a bot no_answers (unfold text_eq in refl)
      nothing_cached

few-ReadsBogons : ReadsBogons few
unfolding text_eq
few-ReadsBogons = (refl, refl, refl)

bogon_blocks_example :
    (nets : List Cidr) × (new_bogon_checker few ≡ some nets)
    × (is_some (nets_contain few nets (v4 (dotted 172 20 1 1))) ≡ is_reserved (dotted 172 20 1 1))
bogon_blocks_example = bogon_blocks few few-ReadsBogons (dotted 172 20 1 1) (omega arith)

abbrev no_rules : RuleSet
no_rules = record { rules = 0; match_event = λ ev. none }

abbrev counting : WafProcessor ℤ
counting = record {
  pass_rules = no_rules;
  gate_rules = no_rules;
  actions = [];
  score_fn = some (λ ip w s. s +ℤ w);
  drop_score = pos 80;
  tag_weights = (codes "ban", pos 30) ∷ [];
}

abbrev probed : WafEvent
probed = record { entry = request ip_a (codes "/x") 1000; level = [] }

known_action : classify_action (λ t. t) (codes " Tag:Ban ") ≡ some (gate_bucket, codes "tag:ban")
unfolding classify_action text_eq has_prefix
known_action = refl

dispatch-classify_action_example :
    ((codes "tag:ban" ≡ codes "drop")
      × (dispatch counting (codes "r") (codes "tag:ban") probed (pos 1)
          ≡ (dropped, signal counting probed counting.drop_score (pos 1))))
    ⊎ ((suffix : Text) × ((dispatch counting (codes "r") (codes "tag:ban") probed (pos 1)).0
          ≡ passed (record probed { level = codes "THREAT:" ++ (codes "r" ++ suffix) })))
dispatch-classify_action_example =
    dispatch-classify_action (λ t. t) counting (codes "r") (codes " Tag:Ban ") (codes "tag:ban")
      probed (pos 1) known_action

matches_rdns_domain_iff_example :
    (matches_rdns_domain (codes "crawl.googlebot.com") (codes "googlebot.com" ∷ []) ≡ true) ↔ (
      (domain : Text) × (mem domain (codes "googlebot.com" ∷ []) ≡ true)
      × (rest : Text) × IsBare domain rest
      × (before : Text) × (codes "crawl.googlebot.com" ≡ before ++ (codes "." ++ rest)))
matches_rdns_domain_iff_example =
    matches_rdns_domain_iff (codes "crawl.googlebot.com") (codes "googlebot.com" ∷ [])

nothing-IsSound : IsSound no_answers
unfolding get
nothing-IsSound ip e g = absurd (ground arith)

verify-IsSound_example :
    IsSound (verify genuine 5 6 ip_b bot no_answers).1
    × (both (verify genuine 5 6 ip_b bot no_answers).0 ≡ false)
verify-IsSound_example = verify-IsSound genuine 5 6 ip_b bot no_answers nothing-IsSound
