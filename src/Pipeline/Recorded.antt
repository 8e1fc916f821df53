-- ===== src/Pipeline/Recorded.antt =====
-- cmd/arxsentinel/processor_security.go: what the event of a line says of the tracker.

use arxsentinel.Common.{
  ◌≡◌, sym, ap, ◌∙◌, ◌≢◌, inl, inr, Bool, false, not, some, List, arith, if◌then◌else◌, if_elim,
  Text, text_eq_refl,
}
use arxsentinel.Common.Dict.{get-put}
use arxsentinel.Common.Int.{◌+ℤ◌}
use arxsentinel.Event.{LogEntry}
use arxsentinel.Net.{V6}
use arxsentinel.Common.Doubles.{Doubles}
use arxsentinel.State.{IpState, Tracker, get_state, store, set_score, update}
use arxsentinel.Scorer.{Level, normal, warn, threat, Verdict, level_for}
use arxsentinel.Pipeline.{
  Security, Moment, PipelineState, Action, no_payload, threat_found, ThreatEvent, process,
  detect_threat, waf_gate, check_bot, score_line, to_action, is_whitelisted,
}
use arxsentinel.Pipeline.Kept.{bot_cases}
use arxsentinel.Scorer.Verdicts.{evaluate_lem}

get-store : (k : Text) (st : IpState) (t : Tracker) → get_state k (store k st t) ≡ some st
unfolding get_state store
get-store k st t = ground (arith, get-put t.states k st k, text_eq_refl k)

-- What score_line leaves: the verdict's score is that of the address, and its level that of the score.
abbrev pub Recorded : Security → LogEntry → Verdict → Tracker → Type 0
Recorded cfg e v t =
    (s : IpState) × (get_state e.real_ip t ≡ some s)
    × (s.score ≡ v.score)
    × (v.level ≡ level_for cfg.scorer v.score)

score_line-Recorded :
    (f : Doubles) (cfg : Security) (m : Moment) (e : LogEntry) (fake : Bool) (exempt : List Text)
    (t : Tracker)
    → Recorded cfg e (score_line f cfg m e fake exempt t).0 (score_line f cfg m e fake exempt t).1
unfolding score_line
score_line-Recorded f cfg m e fake exempt t =
    let (t', s) = update e t in
    let s' = if fake then set_score (s.score +ℤ cfg.fake_bot_score) m.penalty_at s else s in
    let lem = evaluate_lem f cfg.scorer m.scored_at m.detected_at exempt e s' in
    (_, get-store e.real_ip _ t', lem.4, lem.3)

-- What an event says of the tracker that the line leaves.
abbrev pub Told : V6 → Security → LogEntry → ThreatEvent → Tracker → Type 0
Told v cfg e ev t =
    (cfg.raw_forward ≡ false)
    × (is_whitelisted v cfg e ≡ false)
    × (ev.ip ≡ e.real_ip)
    × (ev.level ≢ normal)
    × (ev.level ≡ level_for cfg.scorer ev.score)
    × (s : IpState) × (get_state ev.ip t ≡ some s)
    × (s.score ≡ ev.score)

level_lem :
    (l : Level) (ev' ev : ThreatEvent)
    → (elim l as (λ x. Action) [
      | normal ↦ no_payload
      | warn ↦ threat_found ev'
      | threat ↦ threat_found ev'
    ])
      ≡ threat_found ev
    → (l ≢ normal) × (ev' ≡ ev)
level_lem normal ev' ev h = absurd (ground arith)
level_lem warn ev' ev h = (λ q. absurd (ground arith), ground arith)
level_lem threat ev' ev h = (λ q. absurd (ground arith), ground arith)

to_action_lem :
    (m : Moment) (e : LogEntry) (v : Verdict) (ev : ThreatEvent)
    → to_action m e v ≡ threat_found ev
    → (ev.ip ≡ e.real_ip) × (ev.level ≢ normal) × (ev.level ≡ v.level) × (ev.score ≡ v.score)
unfolding to_action
to_action_lem m e v ev h =
    let (n, q) = level_lem v.level _ ev h in
    let level : ev.level ≡ v.level = sym (ap (λ (x : ThreatEvent). x.level) q) in
    (
      sym (ap (λ (x : ThreatEvent). x.ip) q),
      λ z. n (sym level ∙ z),
      level,
      sym (ap (λ (x : ThreatEvent). x.score) q),
    )

-- The event of one verdict, over the tracker that the scoring leaves.
scored_lem :
    (f : Doubles) (cfg : Security) (m : Moment) (e : LogEntry) (fake : Bool) (exempt : List Text)
    (t : Tracker) (ev : ThreatEvent)
    → to_action m e (score_line f cfg m e fake exempt t).0 ≡ threat_found ev
    → (ev.ip ≡ e.real_ip)
      × (ev.level ≢ normal)
      × (ev.level ≡ level_for cfg.scorer ev.score)
      × (s : IpState) × (get_state ev.ip (score_line f cfg m e fake exempt t).1 ≡ some s)
      × (s.score ≡ ev.score)
scored_lem f cfg m e fake exempt t ev h =
    let (i, n, l, q) = to_action_lem m e _ ev h in
    let (s, g, z, w) = score_line-Recorded f cfg m e fake exempt t in
    (i, n, l ∙ (w ∙ ap (level_for cfg.scorer) (sym q)), s, rw i g, z ∙ sym q)

detect_threat_lem :
    (f : Doubles) (cfg : Security) (m : Moment) (e : LogEntry) (st : PipelineState)
    (ev : ThreatEvent)
    → (detect_threat f cfg m e st).0 ≡ threat_found ev
    → (ev.ip ≡ e.real_ip)
      × (ev.level ≢ normal)
      × (ev.level ≡ level_for cfg.scorer ev.score)
      × (s : IpState) × (get_state ev.ip (detect_threat f cfg m e st).1.tracker ≡ some s)
      × (s.score ≡ ev.score)
unfolding detect_threat
detect_threat_lem f cfg m e st ev = elim (bot_cases (check_bot cfg m e st.cache).0) [
  | inl b ↦ rw (b, detect_threat) (λ h. absurd (ground arith))
  | inr (fake, exempt, b) ↦ rw (b, detect_threat) (scored_lem f cfg m e fake exempt st.tracker ev)
]

-- An event of a line that is not forwarded raw tells of the line's address, which no custom
-- whitelist covers: its score is the one that the tracker keeps for the address afterwards, and
-- its level is that of the score, and is not the normal one.
pub process-Told :
    (v : V6) (f : Doubles) (cfg : Security) (m : Moment) (e : LogEntry) (st : PipelineState)
    (ev : ThreatEvent)
    → (process v f cfg m e st).0 ≡ threat_found ev
    → Told v cfg e ev (process v f cfg m e st).1.tracker
unfolding process
process-Told v f cfg m e st ev =
    if_elim (λ (r : Action × PipelineState). (r.0 ≡ threat_found ev → Told v cfg e ev r.1.tracker))
      cfg.raw_forward (λ a h. absurd (ground arith))
      (λ a.
        if_elim
          (λ (r : Action × PipelineState). (r.0 ≡ threat_found ev → Told v cfg e ev r.1.tracker))
          (is_whitelisted v cfg e) (λ b h. absurd (ground arith))
          (λ b.
            if_elim
              (λ (r : Action × PipelineState).
                (r.0 ≡ threat_found ev → Told v cfg e ev r.1.tracker))
              (not (waf_gate cfg m e st.tracker).0) (λ g h. absurd (ground arith))
              (λ g h.
                let (i, n, l, s, q, z) = detect_threat_lem f cfg m e _ ev h in
                (a, b, i, n, l, s, q, z))))
