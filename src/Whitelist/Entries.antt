-- ===== src/Whitelist/Entries.antt =====
-- pkg/processorplugins/whitelist: the whitelist as a processor of log entries. The timeout of the
-- lookups is the resolver's. The answer of Verify is not used, but the cache keeps it.
use arxsentinel.Common.{ℕ, Bool, Option, none, some, [], if◌then◌else◌, ◌>>=◌}
use arxsentinel.Common.Int.{ℤ}
use arxsentinel.Event.{LogEntry}
use arxsentinel.Net.{V6}
use arxsentinel.Whitelist.{
  WhitelistConfig, Matcher, IpCache, Resolver, new_matcher, is_whitelisted_ip, is_whitelisted_ua,
  match_bot, verify,
}

-- The entry that is passed on is the one that came.
pub data Outcome : Type 0 where
  cancelled dropped passed : Outcome

pub record WhitelistProcessor : Type 0 where
  pub matcher : Matcher
  pub resolver : Resolver

-- The new cache is empty, with the two TTLs; none is the error of NewMatcher.
unfoldable pub new_whitelist_processor :
    V6 → Resolver → WhitelistConfig → ℤ → ℤ → Option (WhitelistProcessor × IpCache)
unfolding new_matcher
new_whitelist_processor v resolver cfg positive negative = new_matcher v cfg >>= λ m. some (
  record { matcher = m; resolver = resolver },
  record { entries = []; positive_ttl = positive; negative_ttl = negative },
)

-- `read_at` and `set_at` are the readings of the clock at the cache.
unfoldable pub process :
    V6 → WhitelistProcessor → Bool → ℕ → ℕ → LogEntry → IpCache → Outcome × IpCache
unfolding verify
process v p is_cancelled read_at set_at e c =
    let after : IpCache = elim (match_bot p.matcher e.user_agent) [
      | none ↦ c
      | some bot ↦ (verify p.resolver read_at set_at e.real_ip bot c).1
    ] in
    if is_cancelled
    then (cancelled, c)
    else if is_whitelisted_ip v p.matcher e.real_ip
    then (dropped, c)
    else if is_whitelisted_ua p.matcher e.user_agent
    then (dropped, c)
    else (passed, after)
