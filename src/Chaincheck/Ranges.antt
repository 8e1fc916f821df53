-- ===== src/Chaincheck/Ranges.antt =====
-- internal/core/chaincheck: cloudflare.go, the list of Cloudflare's ranges with its refresh, and of
-- checker.go the building, the update and the end of both checkers. The goroutine is the flag
-- is_running and the calls of `tick`; logging is left out.
use arxsentinel.Common.{
  ℕ, zero, suc, Bool, false, not, ◌||◌, Option, none, some, List, [], ◌∷◌, ◌++◌, ◌==◌,
  if◌then◌else◌, ◌>>=◌, is_empty, Text, codes, has_prefix, trim_space,
}
use arxsentinel.Common.Int.{ℤ}
use arxsentinel.Net.{V6, Cidr, parse_cidr}
use arxsentinel.Chaincheck.{Checker, new_bogon_checker}

pub record CloudflareConfig : Type 0 where
  pub enabled : Bool
  pub refresh_interval : ℤ
  pub sources : List Text

pub record Config : Type 0 where
  pub cloudflare : CloudflareConfig
  pub bogon_enabled : Bool

-- The HTTP client over what is outside, D: none for a request that fails, else the status, the
-- lines that bufio.Scanner finds in the first 64 KiB of the body, and whether it ends without an
-- error.
pub record Web (D : Type 0) : Type 0 where
  pub fetch : Text → D → Option (ℕ × List Text × Bool) × D

pub record CloudflareChecker : Type 0 where
  pub nets : List Cidr
  pub cfg : CloudflareConfig
  pub is_running : Bool

-- Both checkers, none being nil.
pub record Guard : Type 0 where
  pub cf : Option CloudflareChecker
  pub bogon : Option (List Cidr)

abbrev pub fallback_cloudflare_v4 : List Text
fallback_cloudflare_v4 =
    codes "173.245.48.0/20"
    ∷ codes "103.21.244.0/22"
    ∷ codes "103.22.200.0/22"
    ∷ codes "103.31.4.0/22"
    ∷ codes "141.101.64.0/18"
    ∷ codes "108.162.192.0/18"
    ∷ codes "190.93.240.0/20"
    ∷ codes "188.114.96.0/20"
    ∷ codes "197.234.240.0/22"
    ∷ codes "198.41.128.0/17"
    ∷ codes "162.158.0.0/15"
    ∷ codes "104.16.0.0/13"
    ∷ codes "104.24.0.0/14"
    ∷ codes "172.64.0.0/13"
    ∷ codes "131.0.72.0/22"
    ∷ []

abbrev pub fallback_cloudflare_v6 : List Text
fallback_cloudflare_v6 =
    codes "2400:cb00::/32"
    ∷ codes "2606:4700::/32"
    ∷ codes "2803:f800::/32"
    ∷ codes "2405:b500::/32"
    ∷ codes "2405:8100::/32"
    ∷ codes "2a06:98c0::/29"
    ∷ codes "2c0f:f248::/32"
    ∷ []

abbrev add_parsed : Option Cidr → List Cidr → List Cidr
add_parsed none nets = nets
add_parsed (some n) nets = n ∷ nets

unfoldable pub parse_cidr_list : V6 → List Text → List Cidr
parse_cidr_list v [] = []
parse_cidr_list v (t ∷ ts) = add_parsed (parse_cidr v (trim_space t)) (parse_cidr_list v ts)

-- The loop of fetchSource: the lines that are neither blank nor a comment.
unfoldable pub cidr_lines : List Text → List Text
cidr_lines [] = []
cidr_lines (t ∷ ts) =
    let line : Text = trim_space t in
    let rest = cidr_lines ts in
    if is_empty line || has_prefix line (codes "#") then rest else line ∷ rest

-- What fetchSource makes of the answer; none is an error.
unfoldable pub source_lines : Option (ℕ × List Text × Bool) → Option (List Text)
unfolding cidr_lines
source_lines none = none
source_lines (some (status, lines, ended)) =
    if not (status == 200) then none else if ended then some (cidr_lines lines) else none

abbrev collected : Option (List Text) → List Text → List Text
collected none cidrs = cidrs
collected (some more) cidrs = more ++ cidrs

module _ {D : Type 0} (v : V6) (web : Web D) where
  unfoldable pub fetch_source : Text → D → Option (List Text) × D
  unfolding source_lines
  fetch_source url d = let (answer, after) = web.fetch url d in (source_lines answer, after)

  -- The loop of fetchAll.
  unfoldable pub fetch_sources : List Text → D → List Text × D
  unfolding fetch_source
  fetch_sources [] d = ([], d)
  fetch_sources (url ∷ urls) d =
      let (cidrs, after) = fetch_source url d in
      let (rest, last) = fetch_sources urls after in (collected cidrs rest, last)

  unfoldable pub fetch_all : CloudflareChecker → D → CloudflareChecker × D
  unfolding fetch_sources parse_cidr_list
  fetch_all c d =
      let (lines, after) = fetch_sources c.cfg.sources d in
      let replaced : CloudflareChecker = record c { nets = parse_cidr_list v lines } in
      (if is_empty lines then c else replaced, after)

  -- A tick of the refresh loop, and its first fetch.
  unfoldable pub tick : CloudflareChecker → D → CloudflareChecker × D
  unfolding fetch_all
  tick c d = let (fresh, after) = fetch_all c d in if c.is_running then (fresh, after) else (c, d)

  unfoldable pub ticks : ℕ → CloudflareChecker → D → CloudflareChecker × D
  unfolding tick
  ticks zero c d = (c, d)
  ticks (suc n) c d = let (next, after) = tick c d in ticks n next after

unfoldable pub is_loaded : CloudflareChecker → Bool
is_loaded c = not (is_empty c.nets)

module _ (v : V6) where
  unfoldable pub new_cloudflare_checker : CloudflareConfig → CloudflareChecker
  unfolding parse_cidr_list
  new_cloudflare_checker cfg = record {
    nets = parse_cidr_list v (fallback_cloudflare_v4 ++ fallback_cloudflare_v6);
    cfg = cfg;
    is_running = cfg.enabled;
  }

  unfoldable pub update_cloudflare : CloudflareConfig → CloudflareChecker → CloudflareChecker
  update_cloudflare cfg c = record c { cfg = cfg; is_running = cfg.enabled }

  -- NewBogonChecker, none being its panic.
  unfoldable pub bogon_of : Bool → Option (Option (List Cidr))
  bogon_of enabled =
      if enabled
      then elim (new_bogon_checker v) [ none ↦ none | some nets ↦ some (some nets) ]
      else some none

  unfoldable pub new_checker : Config → Option Guard
  unfolding new_cloudflare_checker bogon_of
  new_checker cfg =
      let started : Option CloudflareChecker =
        if cfg.cloudflare.enabled then some (new_cloudflare_checker cfg.cloudflare) else none in
      bogon_of cfg.bogon_enabled >>= λ bogon. some (record { cf = started; bogon = bogon })

  -- The first half of Update.
  unfoldable pub update_cf : CloudflareConfig → Option CloudflareChecker → Option CloudflareChecker
  unfolding new_cloudflare_checker update_cloudflare
  update_cf cfg none = if cfg.enabled then some (new_cloudflare_checker cfg) else none
  update_cf cfg (some c) = if cfg.enabled then some (update_cloudflare cfg c) else none

  -- The second half.
  unfoldable pub update_bogon : Bool → Option (List Cidr) → Option (Option (List Cidr))
  unfolding bogon_of
  update_bogon enabled none = bogon_of enabled
  update_bogon enabled (some nets) = some (if enabled then some nets else none)

  unfoldable pub update : Config → Guard → Option Guard
  unfolding update_cf update_bogon
  update cfg g = update_bogon cfg.bogon_enabled g.bogon >>= λ bogon.
      some (record { cf = update_cf cfg.cloudflare g.cf; bogon = bogon })

abbrev pub stopped : CloudflareChecker → CloudflareChecker
stopped c = record c { is_running = false }

unfoldable pub close : Guard → Guard
close g = record g { cf = elim g.cf [ none ↦ none | some c ↦ some (stopped c) ] }

-- What Check reads of the two checkers.
abbrev pub checker_of : Guard → Checker
checker_of g = record { cf = elim g.cf [ none ↦ none | some c ↦ some c.nets ]; bogon = g.bogon }
