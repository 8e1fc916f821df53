-- ===== src/Pipeline/Kept.antt =====
-- cmd/arxsentinel/processor_security.go: what a line leaves of the tracker.
use mathlib.Core.Path.{subst}
use arxsentinel.Common.{
  ℕ, ◌≡◌, refl, ap, ◌⊎◌, inl, inr, Bool, true, not, ◌&&◌, none, some, List, arith, ◌==◌,
  Option-cases, is_some, drop, ◌>>=◌, if_elim, is_empty, Text, codes, text_eq, text_eq_refl,
  has_prefix,
}
use arxsentinel.Common.Dict.{get}
use arxsentinel.Common.Int.{ℤ, pos, leb_ℤ}
use arxsentinel.Event.{LogEntry}
use arxsentinel.Net.{V6}
use arxsentinel.Common.Doubles.{Doubles}
use arxsentinel.State.{IpState, Tracker, get_state, update, has}
use arxsentinel.State.Tracked.{IsConsistent, store-IsConsistent}
use arxsentinel.State.Lru.{states_after, update-IsConsistent}
use arxsentinel.Chaincheck.{check}
use arxsentinel.Waf.{
  WafProcessor, WafEvent, Outcome, waf_process, gate, dispatch, signal, client_ip,
}
use arxsentinel.Pipeline.{
  Security, Moment, PipelineState, Action, BotCheck, verified_bot, unverified, process,
  detect_threat, waf_gate, check_bot, score_line, write_warning, is_whitelisted, score_signal,
}

known : (ip : Text) (st : IpState) (t : Tracker) → get_state ip t ≡ some st → has ip t ≡ true
unfolding has get_state
known ip st t e = rw e refl

score_signal-IsConsistent :
    (now : ℕ) (ip : Text) (delta : ℤ) (t : Tracker)
    → IsConsistent t
    → IsConsistent (score_signal now ip delta t)
unfolding score_signal
score_signal-IsConsistent now ip delta t v = elim (Option-cases (get_state ip t)) [
  | inl e ↦ rw (e, score_signal) v
  | inr (st, e) ↦ rw (e, score_signal) (store-IsConsistent ip _ t (known ip st t e) v)
]

-- A predicate on the state of the pipeline that the score function keeps, the WAF keeps.
module _ {ℓ κ} {S : Type ℓ} (P : S → Type κ) where
  abbrev pub Keeps : WafProcessor S → Type (ℓ ⊔ κ)
  Keeps p =
      (fn : Text → ℤ → S → S)
      → p.score_fn ≡ some fn
      → (ip : Text) (w : ℤ) (s : S) → P s
      → P (fn ip w s)

  signal_keeps :
      (p : WafProcessor S) (ev : WafEvent) (w : ℤ) (s : S) → Keeps p → P s → P (signal p ev w s)
  unfolding signal
  signal_keeps p ev w s k h = elim (Option-cases p.score_fn) [
    | inl e ↦ rw (e, signal) h
    | inr (fn, e) ↦
        rw (e, signal)
          (if_elim P (not (leb_ℤ w (pos 0)) && not (is_empty (client_ip ev)))
            (λ a. k fn e (client_ip ev) w s h) (λ a. h))
  ]

  abbrev weight_of : WafProcessor S → Text → ℤ
  weight_of p label = elim (get p.tag_weights label) [ none ↦ pos 0 | some w ↦ w ]

  dispatch_keeps :
      (p : WafProcessor S) (name action : Text) (ev : WafEvent) (s : S)
      → Keeps p
      → P s
      → P (dispatch p name action ev s).1
  unfolding dispatch
  dispatch_keeps p name action ev s k h =
      if_elim (λ (r : Outcome × S). P r.1) (text_eq action (codes "drop"))
        (λ a. signal_keeps p ev p.drop_score s k h)
        (λ a.
          if_elim (λ (r : Outcome × S). P r.1) (text_eq action (codes "tag")) (λ b. h)
            (λ b.
              if_elim (λ (r : Outcome × S). P r.1) (has_prefix action (codes "tag:"))
                (λ c. signal_keeps p ev (weight_of p (drop 4 action)) s k h) (λ c. h)))

  gate_keeps : (p : WafProcessor S) (ev : WafEvent) (s : S) → Keeps p → P s → P (gate p ev s).1
  unfolding gate
  gate_keeps p ev s k h = elim (Option-cases (p.gate_rules.match_event ev)) [
    | inl e ↦ rw (e, gate) h
    | inr (name, e) ↦ rw (e, gate) (dispatch_keeps p name _ ev s k h)
  ]

  pub waf_process_keeps :
      (p : WafProcessor S) (stop : Bool) (ev : WafEvent) (s : S)
      → Keeps p
      → P s
      → P (waf_process p stop ev s).1
  unfolding waf_process
  waf_process_keeps p stop ev s k h =
      if_elim (λ (r : Outcome × S). P r.1) stop (λ a. h)
        (λ a.
          if_elim (λ (r : Outcome × S). P r.1)
            (not (p.pass_rules.rules == 0) && is_some (p.pass_rules.match_event ev)) (λ b. h)
            (λ b. gate_keeps p ev s k h))

some_same : {f g : Text → ℤ → Tracker → Tracker} → some f ≡ some g → f ≡ g
some_same {f} r = ap (λ o. elim o [ none ↦ f | some h ↦ h ]) r

abbrev Good : Action × PipelineState → Type 0
Good r = IsConsistent r.1.tracker

warned-IsConsistent :
    (v : V6) (cfg : Security) (e : LogEntry) (st : PipelineState)
    → IsConsistent st.tracker
    → IsConsistent (write_warning v cfg e st).tracker
unfolding write_warning
warned-IsConsistent v cfg e st h =
    elim (Option-cases (cfg.chain >>= λ c. check v c e.remote_addr)) [
      | inl q ↦ rw (q, write_warning) h
      | inr (r, q) ↦ rw (q, write_warning) h
    ]

waf_gate-IsConsistent :
    (cfg : Security) (m : Moment) (e : LogEntry) (t : Tracker)
    → IsConsistent t
    → IsConsistent (waf_gate cfg m e t).1
unfolding waf_gate
waf_gate-IsConsistent cfg m e t h = elim (Option-cases cfg.waf) [
  | inl q ↦ rw (q, waf_gate) h
  | inr (waf, q) ↦
      rw (q, waf_gate)
        (waf_process_keeps IsConsistent
          (record waf { score_fn = some (score_signal m.waf_scored_at) }) m.cancelled _ t
          (λ fn r ip w s.
            subst (λ g. IsConsistent s → IsConsistent (g ip w s)) (some_same r)
              (score_signal-IsConsistent m.waf_scored_at ip w s))
          h)
]

pub bot_cases :
    (b : BotCheck)
    → (b ≡ verified_bot) ⊎ ((fake : Bool) × (exempt : List Text) × (b ≡ unverified fake exempt))
bot_cases verified_bot = inl refl
bot_cases (unverified fake exempt) = inr (fake, exempt, refl)

has-update : (e : LogEntry) (t : Tracker) → has e.real_ip (update e t).0 ≡ true
unfolding has get_state
has-update e t = ground (arith, states_after e t e.real_ip, text_eq_refl e.real_ip)

score_line-IsConsistent :
    (f : Doubles) (cfg : Security) (m : Moment) (e : LogEntry) (fake : Bool) (exempt : List Text)
    (t : Tracker)
    → IsConsistent t
    → IsConsistent (score_line f cfg m e fake exempt t).1
unfolding score_line
score_line-IsConsistent f cfg m e fake exempt t h =
    store-IsConsistent e.real_ip _ (update e t).0 (has-update e t) (update-IsConsistent e t h)

detect_threat-IsConsistent :
    (f : Doubles) (cfg : Security) (m : Moment) (e : LogEntry) (st : PipelineState)
    → IsConsistent st.tracker
    → IsConsistent (detect_threat f cfg m e st).1.tracker
unfolding detect_threat
detect_threat-IsConsistent f cfg m e st h = elim (bot_cases (check_bot cfg m e st.cache).0) [
  | inl b ↦ rw (b, detect_threat) h
  | inr (fake, exempt, b) ↦
      rw (b, detect_threat) (score_line-IsConsistent f cfg m e fake exempt st.tracker h)
]

-- One line keeps the map and the list of the tracker on the same addresses, whatever the line, the
-- configuration and DNS.
pub process-IsConsistent :
    (v : V6) (f : Doubles) (cfg : Security) (m : Moment) (e : LogEntry) (st : PipelineState)
    → IsConsistent st.tracker
    → IsConsistent (process v f cfg m e st).1.tracker
unfolding process
process-IsConsistent v f cfg m e st h =
    let warned : IsConsistent (write_warning v cfg e st).tracker =
      warned-IsConsistent v cfg e st h in
    let gated : IsConsistent (waf_gate cfg m e st.tracker).1 =
      waf_gate-IsConsistent cfg m e st.tracker h in
    if_elim Good cfg.raw_forward (λ a. h)
      (λ a.
        if_elim Good (is_whitelisted v cfg e) (λ b. warned)
          (λ b.
            if_elim Good (not (waf_gate cfg m e st.tracker).0) (λ c. gated)
              (λ c. detect_threat-IsConsistent f cfg m e _ gated)))
