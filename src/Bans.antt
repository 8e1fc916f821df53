-- ===== src/Bans.antt =====
-- What the executors under pkg/executorplugins share: the threat event of
-- internal/threat/threatevent.go as far as they read it, the order of the levels, which each of
-- them declares alike, and the deduplication window of arx-core, a parameter.

pub mod Removed
use arxsentinel.Common.{ℕ, Bool, Option, none, some, List, if◌then◌else◌, Text, codes, text_eq}

-- dedup.Window over its state W, at a time.
pub record Window (W : Type 0) : Type 0 where
  pub contains_ip : ℕ → Text → W → Bool
  pub mark_batch : ℕ → List Text → W → W

pub record ThreatEvent : Type 0 where
  pub level : Text
  pub ip : Text

unfoldable pub level_order : Text → Option ℕ
level_order l =
    if text_eq l (codes "INFO")
    then some 0
    else if text_eq l (codes "WARN")
    then some 1
    else if text_eq l (codes "THREAT")
    then some 2
    else none
