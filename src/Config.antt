-- ===== src/Config.antt =====
-- internal/sys/config/config.go: the sections of the configuration that its validation reads, with
-- ListConfig of internal/core/blocklist, and what the checks share.
pub mod Keyed
pub mod Sane
pub mod Outputs
pub mod Wired
pub mod Inputs
pub mod Sinks
pub mod Transport
pub mod Checks
use mathlib.Core.Path.{subst, ap₂}
use mathlib.Core.Bool.{false≢true}
use Prim.Native.Nat.{max}
use mathlib.Core.List.{reverse, append-nil, append_assoc}
use arxsentinel.Common.{
  ℕ, zero, suc, ◌+◌, ◌-◌, ◌*◌, ◌/◌, ◌%◌, ◌^◌, ◌≤◌, ◌<◌, ◌≡◌, refl, sym, ap, ◌∙◌, ◌≢◌, ◌↔◌, ◌⊎◌, inl,
  inr, Bool, true, false, not, ◌&&◌, ◌||◌, Option, none, some, List, [], ◌∷◌, ◌++◌, map, arith, ltb,
  leb, ◌==◌, if◌then◌else◌, Bool-cases, Option-cases, is_some, is_none, tests, length, take, drop,
  set, ◌>>=◌, if_elim, replicate, keep, some_of, first_of_list, is_empty, length-append, All, Text,
  codes, text_eq, text_eq_iff, text_eq_refl, has_prefix, has_suffix, contains, to_lower, join,
  trim_space, mem, erase, Distinct, mem-erase, erase-Distinct, length-erase-mem, erase_absent,
  mem-append,
}
use arxsentinel.Common.Dict.{
  Dict, get, put, remove, keys, get-put, get-remove, mem-keys, length-keys, keys-remove, keys-put,
  Distinct-snoc, length-put, length-remove, put-Distinct,
}
use arxsentinel.Common.Int.{
  sub_ℕ, ℤ, pos, negsuc, ◌+ℤ◌, ◌≤ℤ◌, leb_ℤ, int_laws, pos_part, neg_part, +ℤ_parts, eq_of_parts,
  +ℤ_assoc,
}
use arxsentinel.Common.{show_nat, show_int}

-- What the validation asks of a queue.QueueConfig of arx-core, and the value QueueTypeTransport.
pub record Queues : Type 1 where
  pub Queue : Type 0
  pub queue_type : Queue → Text
  pub peer : Queue → Text
  pub effective_mode : Queue → Text
  pub transport_type : Text

pub record TransportPeer : Type 0 where
  pub host : Text
  pub fingerprint : Text

pub record TransportConfig : Type 0 where
  pub enabled : Bool
  pub identity_path : Text
  pub known_nodes_path : Text
  pub listen : Text
  pub peers : List TransportPeer
  pub pairing_secret : Text

-- Of this type and the next, the fields that are validated.
pub record InputConfig (q : Queues) : Type 0 where
  pub input_type : Text
  pub path : Text
  pub addr : Text
  pub mode : Text
  pub url : Text
  pub tls_cert : Text
  pub tls_key : Text
  pub protocol : Text
  pub envelope_field : Text
  pub pull_interval : Text
  pub input_queue : Option q.Queue

pub record SinkConfig (q : Queues) : Type 0 where
  pub sink_type : Text
  pub name : Text
  pub path : Text
  pub format : Text
  pub sink_queue : Option q.Queue
  pub loki_url : Text
  pub loki_labels : Dict Text
  pub splunk_url : Text
  pub splunk_token : Text
  pub datadog_url : Text
  pub datadog_api_key : Text

pub record PipelineConfig (q : Queues) : Type 0 where
  pub name : Text
  pub inputs : List (InputConfig q)
  pub outputs : List (SinkConfig q)

pub record StreamConfig (q : Queues) : Type 0 where
  pub pipelines : List (PipelineConfig q)
  pub inputs : List (InputConfig q)
  pub outputs : List (SinkConfig q)

-- An executor, of its sources the queues.
pub record ExecutorTopConfig (q : Queues) : Type 0 where
  pub name : Text
  pub sources : List (Option q.Queue)

pub record ScoringConfig : Type 0 where
  pub alert_threshold : ℤ
  pub ban_threshold : ℤ
  pub observation_window : ℤ

pub record ProbeConfig : Type 0 where
  pub enabled : Bool
  pub score : ℤ

pub record BruteforceConfig : Type 0 where
  pub enabled : Bool
  pub min_requests : ℤ
  pub score : ℤ

pub record CrawlerConfig : Type 0 where
  pub enabled : Bool
  pub min_sequential : ℤ
  pub score : ℤ

pub record NoAssetConfig : Type 0 where
  pub enabled : Bool
  pub min_page_requests : ℤ
  pub score : ℤ

pub record RateConfig : Type 0 where
  pub enabled : Bool
  pub window : ℤ
  pub threshold : ℤ
  pub score : ℤ

pub record UserAgentConfig : Type 0 where
  pub enabled : Bool
  pub scanner_score : ℤ
  pub grabber_score : ℤ
  pub automation_score : ℤ
  pub empty_ua_score : ℤ

pub record OverflowConfig : Type 0 where
  pub enabled : Bool
  pub max_url_length : ℤ
  pub score : ℤ

pub record BadBotConfig : Type 0 where
  pub enabled : Bool
  pub score : ℤ

pub record DetectorsConfig : Type 0 where
  pub probe : ProbeConfig
  pub bruteforce : BruteforceConfig
  pub crawler : CrawlerConfig
  pub noasset : NoAssetConfig
  pub rate : RateConfig
  pub useragent : UserAgentConfig
  pub overflow : OverflowConfig
  pub badbot : BadBotConfig

-- blocklist.ListConfig, of its sources the URLs.
pub record ListConfig : Type 0 where
  pub name : Text
  pub refresh_interval : ℤ
  pub source_urls : List Text

pub record ChainGuardConfig : Type 0 where
  pub enabled : Bool
  pub warnings_log : Text
  pub cloudflare_enabled : Bool
  pub cloudflare_sources : List Text

-- The sections and fields that are validated.
pub record Config (q : Queues) : Type 0 where
  pub scoring : ScoringConfig
  pub max_tracked_ips : ℤ
  pub detectors : DetectorsConfig
  pub blocklist_lists : List ListConfig
  pub chain_guard : ChainGuardConfig
  pub metrics_username : Text
  pub metrics_password_hash : Text
  pub streams : List (StreamConfig q)
  pub inputs : List (InputConfig q)
  pub outputs : List (SinkConfig q)
  pub executors : List (ExecutorTopConfig q)
  pub buffer_size : ℤ
  pub shutdown_timeout : ℤ
  pub transport : TransportConfig

-- An error is its text. A check fails with it if its condition holds, and of a list of checks the
-- first that fails counts.
abbrev pub fail_if : Bool → Text → Option Text
fail_if b message = if b then some message else none

abbrev pub first_error : List (Option Text) → Option Text
first_error [] = none
first_error (check ∷ checks) =
    let rest = first_error checks in elim check [ none ↦ rest | some e ↦ some e ]

-- A loop with its index, that returns at the first error.
abbrev pub first_error_at {ℓ} : {A : Type ℓ} → (ℕ → A → Option Text) → ℕ → List A → Option Text
first_error_at check i [] = none
first_error_at check i (a ∷ rest) = first_error (check i a ∷ first_error_at check (i + 1) rest ∷ [])

pub fail_if_iff : (b : Bool) (message : Text) → (fail_if b message ≡ none) ↔ (b ≡ false)
fail_if_iff true message = ground arith
fail_if_iff false message = (λ h. refl, λ h. refl)

pub first_error_iff :
    (checks : List (Option Text))
    → (first_error checks ≡ none) ↔ All (λ (check : Option Text). check ≡ none) checks
first_error_iff [] = (λ h. tt, λ h. refl)
first_error_iff (none ∷ checks) =
    let (there, back) = first_error_iff checks in (λ h. (refl, there h), λ h. back h.1)
first_error_iff (some e ∷ checks) = (λ h. absurd (ground arith), λ h. h.0)

-- The first condition that holds, of conditions with their messages.
abbrev pub first_failure : List (Bool × Text) → Option Text
first_failure [] = none
first_failure ((b, message) ∷ tests) =
    let rest = first_failure tests in if b then some message else rest

pub first_failure_iff :
    (tests : List (Bool × Text))
    → (first_failure tests ≡ none) ↔ All (λ (t : Bool × Text). t.0 ≡ false) tests
first_failure_iff [] = (λ h. tt, λ h. refl)
first_failure_iff ((true, message) ∷ tests) =
    (λ h. absurd (ground arith), λ h. absurd (ground arith))
first_failure_iff ((false, message) ∷ tests) =
    let (there, back) = first_failure_iff tests in (λ h. (refl, there h), λ h. back h.1)

pub first_error_at_iff {ℓ} :
    {A : Type ℓ} (check : ℕ → A → Option Text) (P : A → Type 0)
    → ((i : ℕ) (a : A) → (check i a ≡ none) ↔ P a)
    → (i : ℕ) (l : List A) → (first_error_at check i l ≡ none) ↔ All P l
first_error_at_iff check P each i [] = (λ h. tt, λ h. refl)
first_error_at_iff check P each i (a ∷ rest) =
    let (there, back) = first_error_iff (check i a ∷ first_error_at check (i + 1) rest ∷ []) in
    let (in_rest, of_rest) = first_error_at_iff check P each (i + 1) rest in
    (
      λ h. ((each i a).0 (there h).0, in_rest (there h).1.0),
      λ h. back ((each i a).1 h.0, (of_rest h.1, tt)),
    )

-- A loop that also remembers the keys of the elements before, and refuses a key it has seen.
module _ {ℓ} {A : Type ℓ} (key : A → Text) (before after repeated : ℕ → A → Option Text) where
  abbrev pub first_error_keyed : ℕ → List Text → List A → Option Text
  first_error_keyed i seen [] = none
  first_error_keyed i seen (a ∷ rest) = first_error (
      before i a
      ∷ (if mem (key a) seen then repeated i a else none)
      ∷ after i a
      ∷ first_error_keyed (i + 1) (key a ∷ seen) rest
      ∷ [])

-- The text of an entry, and the condition that a number is not greater than zero.
abbrev pub at : Text → ℕ → Text
at section i = section ++ (codes "[" ++ (show_nat i ++ codes "]"))

abbrev pub not_positive : Text → ℤ → Bool × Text
not_positive field n = (leb_ℤ n (pos 0), field ++ (codes " must be > 0, got " ++ show_int n))
