-- ===== src/Waf.antt =====
-- pkg/processorplugins/waf: processor.go, and classifyAction of ruleset.go. The rule engine of
-- arx-core is the parameter RuleSet: its number of rules, and the name of the first rule that
-- matches an event. The score function is a function on the state of the pipeline, of type S.
pub mod Actions
use mathlib.Core.Path.{subst, ap₂}
use mathlib.Core.Bool.{false≢true}
use Prim.Native.Nat.{max}
use mathlib.Core.List.{reverse, append-nil, append_assoc}
use arxsentinel.Common.{
  ℕ, zero, suc, ◌+◌, ◌-◌, ◌*◌, ◌/◌, ◌%◌, ◌^◌, ◌≤◌, ◌<◌, ◌≡◌, refl, sym, ap, ◌∙◌, ◌≢◌, ◌↔◌, ◌⊎◌, inl,
  inr, Bool, true, false, not, ◌&&◌, ◌||◌, Option, none, some, List, [], ◌∷◌, ◌++◌, map, arith, ltb,
  leb, ◌==◌, if◌then◌else◌, Bool-cases, Option-cases, is_some, is_none, tests, length, take, drop,
  set, ◌>>=◌, replicate, keep, some_of, first_of_list, is_empty, length-append, All, Text, codes,
  text_eq, text_eq_iff, text_eq_refl, has_prefix, has_suffix, contains, to_lower, join, trim_space,
  mem, erase, Distinct, mem-erase, erase-Distinct, length-erase-mem, erase_absent, mem-append,
}
use arxsentinel.Common.Dict.{
  Dict, get, put, remove, keys, get-put, get-remove, mem-keys, length-keys, keys-remove, keys-put,
  Distinct-snoc, length-put, length-remove, put-Distinct,
}
use arxsentinel.Common.Int.{
  sub_ℕ, ℤ, pos, negsuc, ◌+ℤ◌, ◌≤ℤ◌, leb_ℤ, int_laws, pos_part, neg_part, +ℤ_parts, eq_of_parts,
  +ℤ_assoc,
}
use arxsentinel.Event.{LogEntry}

pub record WafEvent : Type 0 where
  pub entry : LogEntry
  pub level : Text

pub record RuleSet : Type 0 where
  pub rules : ℕ
  pub match_event : WafEvent → Option Text

pub record WafProcessor {ℓ} (S : Type ℓ) : Type ℓ where
  pub pass_rules : RuleSet
  pub gate_rules : RuleSet
  pub actions : Dict Text
  pub score_fn : Option (Text → ℤ → S → S)
  pub drop_score : ℤ
  pub tag_weights : Dict ℤ

-- actionBucketPass and actionBucketGate
pub data Bucket : Type 0 where
  pass_bucket gate_bucket : Bucket

-- The bucket and the stored action; none for an unknown action. The lower case of a text outside
-- ASCII is the parameter `other`.
unfoldable pub classify_action : (Text → Text) → Text → Option (Bucket × Text)
unfolding to_lower trim_space
classify_action other action =
    let normalised = to_lower other (trim_space action) in
    if is_empty normalised
    then some (gate_bucket, codes "drop")
    else if text_eq normalised (codes "pass")
    then some (pass_bucket, codes "pass")
    else if text_eq normalised (codes "drop")
    then some (gate_bucket, codes "drop")
    else if text_eq normalised (codes "tag") || has_prefix normalised (codes "tag:")
    then some (gate_bucket, normalised)
    else none

unfoldable pub client_ip : WafEvent → Text
client_ip ev = if is_empty ev.entry.real_ip then ev.entry.remote_addr else ev.entry.real_ip

-- What Process returns: an error of the context, nothing, or the event.
pub data Outcome : Type 0 where
  cancelled dropped : Outcome
  passed : WafEvent → Outcome

module _ {ℓ} {S : Type ℓ} where
  -- The call of the score function, where it is set, the weight is positive and there is an address.
  unfoldable pub signal : WafProcessor S → WafEvent → ℤ → S → S
  unfolding client_ip
  signal p ev w s = elim p.score_fn [
    | none ↦ s
    | some f ↦
        if not (leb_ℤ w (pos 0)) && not (is_empty (client_ip ev)) then f (client_ip ev) w s else s
  ]

  -- The switch of Process on the action of the rule that matched.
  unfoldable pub dispatch : WafProcessor S → Text → Text → WafEvent → S → Outcome × S
  unfolding signal
  dispatch p name action ev s =
      let label = drop 4 action in
      let weight : ℤ = elim (get p.tag_weights label) [ none ↦ pos 0 | some w ↦ w ] in
      if text_eq action (codes "drop")
      then (dropped, signal p ev p.drop_score s)
      else if text_eq action (codes "tag")
      then (passed (record ev { level = codes "THREAT:" ++ name }), s)
      else if has_prefix action (codes "tag:")
      then (
        passed (record ev { level = codes "THREAT:" ++ (name ++ (codes ":" ++ label)) }),
        signal p ev weight s,
      )
      else (dropped, s)

  -- The second pass.
  unfoldable pub gate : WafProcessor S → WafEvent → S → Outcome × S
  unfolding dispatch
  gate p ev s = elim (p.gate_rules.match_event ev) [
    | none ↦ (passed ev, s)
    | some name ↦
        let action : Text = elim (get p.actions name) [ none ↦ [] | some a ↦ a ] in
        dispatch p name action ev s
  ]

  -- Process; `stop` says that the context is cancelled.
  unfoldable pub waf_process : WafProcessor S → Bool → WafEvent → S → Outcome × S
  unfolding gate
  waf_process p stop ev s =
      let listed = is_some (p.pass_rules.match_event ev) in
      let checked = gate p ev s in
      if stop
      then (cancelled, s)
      else if not (p.pass_rules.rules == 0) && listed
      then (passed ev, s)
      else checked
