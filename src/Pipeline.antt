-- ===== src/Pipeline.antt =====
-- cmd/arxsentinel: Process of processor_security.go, and the score function that
-- processor_factory.go gives to the WAF. The state is what one line can change: the tracker, the
-- cache of DNS answers and the warnings written. Metrics and logging are left out, and so are the
-- names of the stream and the source that the events carry on.
pub mod Kept
pub mod Recorded
use mathlib.Core.Path.{subst, ap₂}
use mathlib.Core.Bool.{false≢true}
use Prim.Native.Nat.{max}
use mathlib.Core.List.{reverse, append-nil, append_assoc}
use arxsentinel.Common.{
  ℕ, zero, suc, ◌+◌, ◌-◌, ◌*◌, ◌/◌, ◌%◌, ◌^◌, ◌≤◌, ◌<◌, ◌≡◌, refl, sym, ap, ◌∙◌, ◌≢◌, ◌↔◌, ◌⊎◌, inl,
  inr, Bool, true, false, not, ◌&&◌, ◌||◌, Option, none, some, List, [], ◌∷◌, ◌++◌, map, arith, ltb,
  leb, ◌==◌, if◌then◌else◌, Bool-cases, Option-cases, is_some, is_none, tests, length, take, drop,
  set, ◌>>=◌, replicate, keep, some_of, first_of_list, is_empty, length-append, All, Text, codes,
  text_eq, text_eq_iff, text_eq_refl, has_prefix, has_suffix, contains, to_lower, join, trim_space,
  mem, erase, Distinct, mem-erase, erase-Distinct, length-erase-mem, erase_absent, mem-append,
}
use arxsentinel.Common.Dict.{
  Dict, get, put, remove, keys, get-put, get-remove, mem-keys, length-keys, keys-remove, keys-put,
  Distinct-snoc, length-put, length-remove, put-Distinct,
}
use arxsentinel.Common.Int.{
  sub_ℕ, ℤ, pos, negsuc, ◌+ℤ◌, ◌≤ℤ◌, leb_ℤ, int_laws, pos_part, neg_part, +ℤ_parts, eq_of_parts,
  +ℤ_assoc,
}
use arxsentinel.Event.{LogEntry}
use arxsentinel.Common.Doubles.{Doubles}
use arxsentinel.Net.{V6}
use arxsentinel.State.{IpState, Tracker, get_state, store, set_score, update}
use arxsentinel.Scorer.{Scorer, Level, normal, warn, threat, Verdict, evaluate}
use arxsentinel.Whitelist.{
  Matcher, BotConfig, IpCache, Resolver, is_whitelisted_ip, is_whitelisted_ua, is_whitelisted_path,
  match_bot, verify,
}
use arxsentinel.Chaincheck.{CheckResult, Checker, check}
use arxsentinel.Waf.{WafProcessor, WafEvent, Outcome, cancelled, dropped, passed, waf_process}

-- The readings of the clock while one line is processed, and whether its context is cancelled.
pub record Moment : Type 0 where
  pub waf_scored_at : ℕ
  pub cache_read_at : ℕ
  pub cache_set_at : ℕ
  pub penalty_at : ℕ
  pub scored_at : ℕ
  pub detected_at : ℕ
  pub stamped_at : ℕ
  pub cancelled : Bool

pub record PipelineState : Type 0 where
  pub tracker : Tracker
  pub cache : IpCache
  pub warnings : List CheckResult

-- securityState, and the parts of the shared resources. The chain checker is none where it or the
-- writer of the warnings is missing.
pub record Security : Type 0 where
  pub raw_forward : Bool
  pub chain : Option Checker
  pub matcher : Matcher
  pub resolver : Resolver
  pub scorer : Scorer
  pub waf : Option (WafProcessor Tracker)
  pub fake_bot_score : ℤ

pub record ThreatEvent : Type 0 where
  pub timestamp : ℕ
  pub level : Level
  pub ip : Text
  pub score : ℤ
  pub modules : List Text
  pub reason : Text

-- The payload of an action: none, the line itself, or an event.
pub data Action : Type 0 where
  no_payload : Action
  raw : LogEntry → Action
  threat_found : ThreatEvent → Action

-- The score function of the WAF, at a time.
unfoldable pub score_signal : ℕ → Text → ℤ → Tracker → Tracker
score_signal now ip delta t = elim (get_state ip t) [
  | none ↦ t
  | some st ↦ store ip (set_score (st.score +ℤ delta) now st) t
]

unfoldable pub write_warning : V6 → Security → LogEntry → PipelineState → PipelineState
write_warning v cfg e st = elim (cfg.chain >>= λ c. check v c e.remote_addr) [
  | none ↦ st
  | some result ↦ record st { warnings = st.warnings ++ (result ∷ []) }
]

unfoldable pub is_whitelisted : V6 → Security → LogEntry → Bool
is_whitelisted v cfg e =
    is_whitelisted_ip v cfg.matcher e.real_ip
    || (is_whitelisted_ua cfg.matcher e.user_agent || is_whitelisted_path cfg.matcher e.path)

-- wafErr != nil || wafEv == nil ends the line.
unfoldable pub goes_on : Outcome → Bool
goes_on cancelled = false
goes_on dropped = false
goes_on (passed ev) = true

-- Step 1b, with the score function of buildWafProcessor: whether the line goes on, and the tracker after the signal of the WAF.
unfoldable pub waf_gate : Security → Moment → LogEntry → Tracker → Bool × Tracker
unfolding score_signal goes_on
waf_gate cfg m e t = elim cfg.waf [
  | none ↦ (true, t)
  | some waf ↦
      let bound : WafProcessor Tracker = record waf {
        score_fn = some (score_signal m.waf_scored_at);
      } in
      let ev : WafEvent = record { entry = e; level = [] } in
      let (out, t') = waf_process bound m.cancelled ev t in (goes_on out, t')
]

-- What steps 2 and 3 find: a verified bot, or whether the bot is fake and what is exempt.
pub data BotCheck : Type 0 where
  verified_bot : BotCheck
  unverified : Bool → List Text → BotCheck

unfoldable pub check_bot : Security → Moment → LogEntry → IpCache → BotCheck × IpCache
check_bot cfg m e c = elim (match_bot cfg.matcher e.user_agent) [
  | none ↦ (unverified false [], c)
  | some bot ↦
      let ((ok, fake), c') = verify cfg.resolver m.cache_read_at m.cache_set_at e.real_ip bot c in
      (if ok then verified_bot else unverified fake (if fake then [] else bot.exempt_detectors), c')
]

-- Steps 4 and 4b and the scoring. The writes go to the address's state in the tracker.
unfoldable pub score_line :
    (f : Doubles) → Security → Moment → LogEntry → Bool → List Text → Tracker → Verdict × Tracker
score_line f cfg m e fake exempt t =
    let (t', s) = update e t in
    let s' = if fake then set_score (s.score +ℤ cfg.fake_bot_score) m.penalty_at s else s in
    let (verdict, s'') = evaluate f cfg.scorer m.scored_at m.detected_at exempt e s' in
    (verdict, store e.real_ip s'' t')

unfoldable pub to_action : Moment → LogEntry → Verdict → Action
to_action m e verdict =
    let event : ThreatEvent = record {
      timestamp = m.stamped_at;
      level = verdict.level;
      ip = e.real_ip;
      score = verdict.score;
      modules = verdict.modules;
      reason = verdict.reason;
    } in
    elim verdict.level [
      | normal ↦ no_payload
      | warn ↦ threat_found event
      | threat ↦ threat_found event
    ]

unfoldable pub detect_threat :
    (f : Doubles) → Security → Moment → LogEntry → PipelineState → Action × PipelineState
unfolding check_bot score_line to_action
detect_threat f cfg m e st =
    let (bot, c) = check_bot cfg m e st.cache in
    elim bot [
      | verified_bot ↦ (no_payload, record st { cache = c })
      | unverified fake exempt ↦
          let (verdict, t) = score_line f cfg m e fake exempt st.tracker in
          (to_action m e verdict, record st { cache = c; tracker = t })
    ]

unfoldable pub process :
    V6 → (f : Doubles) → Security → Moment → LogEntry → PipelineState → Action × PipelineState
unfolding write_warning is_whitelisted waf_gate detect_threat
process v f cfg m e st =
    let warned = write_warning v cfg e st in
    let (on, t) = waf_gate cfg m e st.tracker in
    let gated = record warned { tracker = t } in
    let found = detect_threat f cfg m e gated in
    if cfg.raw_forward
    then (raw e, st)
    else if is_whitelisted v cfg e
    then (no_payload, warned)
    else if not on
    then (no_payload, gated)
    else found
