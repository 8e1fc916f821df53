-- ===== src/Chaincheck/Refreshed.antt =====
-- internal/core/chaincheck: cloudflare.go and checker.go, the ranges over their life.
use arxsentinel.Common.{
  ℕ, zero, suc, ◌≡◌, refl, ap, ◌∙◌, inl, inr, Bool, true, Option, none, some, List, [], ◌∷◌, arith,
  Bool-cases, if_elim, Text, trim_space, ◌>>=◌, is_space, trim_left, trim_right,
}
use arxsentinel.Net.{V6, Cidr, parse_cidr, cut, octet, parse_v4, family, prefix_length}
use arxsentinel.Chaincheck.{new_bogon_checker}
use arxsentinel.Chaincheck.Ranges.{
  CloudflareConfig, Config, Web, CloudflareChecker, Guard, parse_cidr_list, fetch_source,
  fetch_sources, fetch_all, tick, ticks, is_loaded, new_cloudflare_checker, update_cloudflare,
  bogon_of, new_checker, update_cf, update_bogon, update,
}

-- The fallback is loaded at once, whatever the reader of IPv6 texts makes of its second half.
pub is_loaded-new_cloudflare_checker :
    (v : V6) (cfg : CloudflareConfig) → is_loaded (new_cloudflare_checker v cfg) ≡ true
unfolding is_loaded new_cloudflare_checker parse_cidr_list trim_space trim_left trim_right is_space
    parse_cidr cut family parse_v4 octet prefix_length
is_loaded-new_cloudflare_checker v cfg = refl

module _ {D : Type 0} (v : V6) (web : Web D) where
  -- No source can be read.
  abbrev pub IsDown : Type 0
  IsDown = (url : Text) (d : D) → (fetch_source v web url d).0 ≡ none

  fetch_sources-down : IsDown → (urls : List Text) (d : D) → (fetch_sources v web urls d).0 ≡ []
  unfolding fetch_sources
  fetch_sources-down down [] d = refl
  fetch_sources-down down (url ∷ urls) d =
      rw (down url d) (fetch_sources-down down urls (fetch_source v web url d).1)

  fetch_all-down : IsDown → (c : CloudflareChecker) (d : D) → (fetch_all v web c d).0 ≡ c
  unfolding fetch_all
  fetch_all-down down c d = rw (fetch_sources-down down c.cfg.sources d) refl

  tick-down : IsDown → (c : CloudflareChecker) (d : D) → (tick v web c d).0 ≡ c
  unfolding tick
  tick-down down c d =
      if_elim (λ (r : CloudflareChecker × D). r.0 ≡ c) c.is_running
        (λ running. fetch_all-down down c d) (λ stopped. refl)

  -- While no source can be read, the ranges stay as they are, for any number of ticks.
  pub ticks-down : IsDown → (n : ℕ) (c : CloudflareChecker) (d : D) → (ticks v web n c d).0 ≡ c
  unfolding ticks
  ticks-down down zero c d = refl
  ticks-down down (suc n) c d =
      ticks-down down n (tick v web c d).0 (tick v web c d).1 ∙ tick-down down c d

-- The configuration that is in force, and whether the ranges are refreshed.
abbrev pub in_force : Option CloudflareChecker → Option (CloudflareConfig × Bool)
in_force none = none
in_force (some c) = some (c.cfg, c.is_running)

abbrev pub checks_of : Option Guard → Option (Option (CloudflareConfig × Bool) × Option (List Cidr))
checks_of none = none
checks_of (some g) = some (in_force g.cf, g.bogon)

module _ (v : V6) where
  -- The bogon checker, if there is one, is the one that NewBogonChecker builds.
  abbrev pub IsBuilt : Option (List Cidr) → Type 0
  IsBuilt none = Unit
  IsBuilt (some nets) = new_bogon_checker v ≡ some nets

  update_bogon-bogon_of :
      (enabled : Bool) (bogon : Option (List Cidr))
      → IsBuilt bogon
      → update_bogon v enabled bogon ≡ bogon_of v enabled
  unfolding update_bogon bogon_of
  update_bogon-bogon_of enabled none h = refl
  update_bogon-bogon_of enabled (some nets) h = rw h (ground arith)

  update_cf-new :
      (cfg : CloudflareConfig) (c : Option CloudflareChecker)
      → in_force (update_cf v cfg c) ≡ in_force (update_cf v cfg none)
  unfolding update_cf update_cloudflare new_cloudflare_checker
  update_cf-new cfg none = refl
  update_cf-new cfg (some c) = elim (Bool-cases cfg.enabled) [
    | inl e ↦ rw e refl
    | inr e ↦ rw e refl
  ]

  guards :
      (a b : Option CloudflareChecker) (bogon : Option (Option (List Cidr)))
      → in_force a ≡ in_force b
      → checks_of (bogon >>= λ x. some (record { cf = a; bogon = x }))
        ≡ checks_of (bogon >>= λ x. some (record { cf = b; bogon = x }))
  guards a b none h = refl
  guards a b (some x) h = ap (λ f. some (f, x)) h

  -- Update leaves the guard that NewChecker builds from the new configuration, but for Cloudflare's
  -- ranges, which are kept if there are any: the same configuration in force, the refresh running
  -- or not, and the same bogon ranges. The bogon checker before is none or one that NewBogonChecker
  -- built.
  pub update-new_checker :
      (cfg : Config) (g : Guard)
      → IsBuilt g.bogon
      → checks_of (update v cfg g) ≡ checks_of (new_checker v cfg)
  unfolding update new_checker update_cf
  update-new_checker cfg g h = rw (update_bogon-bogon_of cfg.bogon_enabled g.bogon h) (
      guards (update_cf v cfg.cloudflare g.cf) (update_cf v cfg.cloudflare none)
        (bogon_of v cfg.bogon_enabled) (update_cf-new cfg.cloudflare g.cf))
