-- ===== src/Tests/Patterns.antt =====
-- Patterns of blocklists, normalised.
use arxsentinel.Common.{◌≡◌, refl, codes, text_eq}
use arxsentinel.Blocklist.{normalize_pattern}
use arxsentinel.Blocklist.Wildcards.{NoWildcard, normalize_pattern-NoWildcard}

escaped : normalize_pattern (codes "^1h4x\\.com$") ≡ codes "1h4x.com"
unfolding normalize_pattern text_eq
escaped = refl

-- The removal of ".+" brings a new ".*" together.
nested : normalize_pattern (codes "a..+*b") ≡ codes "ab"
unfolding normalize_pattern text_eq
nested = refl

normalize_pattern-NoWildcard_example : NoWildcard (normalize_pattern (codes "a..+*b"))
normalize_pattern-NoWildcard_example = normalize_pattern-NoWildcard (codes "a..+*b")
