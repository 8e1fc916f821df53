-- ===== src/Waf/Actions.antt =====
-- pkg/processorplugins/waf/ruleset.go and processor.go: the actions that the rules store.

use mathlib.Core.List.{append-nil}
use arxsentinel.Common.{
  ◌≡◌, refl, ◌⊎◌, inl, inr, true, ◌||◌, some, [], ◌++◌, arith, Bool-cases, drop, is_empty, Text,
  codes, text_eq, text_eq_iff, text_eq_refl, has_prefix, to_lower, trim_space,
}
use arxsentinel.Waf.{
  WafEvent, WafProcessor, gate_bucket, classify_action, dropped, passed, signal, dispatch,
}

stored_known :
    (other : Text → Text) (configured action : Text)
    → classify_action other configured ≡ some (gate_bucket, action)
    → (text_eq action (codes "drop")
        || (text_eq action (codes "tag") || has_prefix action (codes "tag:")))
      ≡ true
unfolding classify_action
stored_known other configured action h =
    let n = to_lower other (trim_space configured) in
    elim (Bool-cases (is_empty n || text_eq n (codes "drop"))) [
      | inl e ↦ let same : action ≡ codes "drop" = ground arith in rw (same, text_eq_refl) refl
      | inr e ↦ let same : action ≡ n = ground arith in ground arith
    ]

-- Every action that classifyAction stores for a gate rule has its own case in the switch of
-- Process: the event is dropped exactly if the action is "drop", and otherwise passes with a level
-- that names the rule.
pub dispatch-classify_action {ℓ} :
    {S : Type ℓ} (other : Text → Text) (p : WafProcessor S) (name configured action : Text)
    (ev : WafEvent) (s : S)
    → classify_action other configured ≡ some (gate_bucket, action)
    → ((action ≡ codes "drop")
        × (dispatch p name action ev s ≡ (dropped, signal p ev p.drop_score s)))
      ⊎ ((suffix : Text) × ((dispatch p name action ev s).0
            ≡ passed (record ev { level = codes "THREAT:" ++ (name ++ suffix) })))
unfolding classify_action dispatch
dispatch-classify_action other p name configured action ev s h =
    let norm = to_lower other (trim_space configured) in
    elim (Bool-cases (text_eq action (codes "drop"))) [
      | inl d ↦ inl ((text_eq_iff action (codes "drop")).0 d, rw (d, dispatch) refl)
      | inr d ↦ elim (Bool-cases (text_eq action (codes "tag"))) [
        | inl t ↦ inr ([], rw (d, t, dispatch, append-nil name) refl)
        | inr t ↦ elim (Bool-cases (has_prefix action (codes "tag:"))) [
          | inl q ↦ inr (codes ":" ++ drop 4 action, rw (d, t, q, dispatch) refl)
          | inr q ↦ absurd (ground (arith, stored_known other configured action h))
        ]
      ]
    ]
