-- ===== src/Cloudflare/Settings.antt =====
-- pkg/executorplugins/cloudflare/config.go: parseConfig; executor.go: NewCloudflareExecutor and the
-- instance id. time.ParseDuration and the JSON round trip are parameters; none is an error.
use arxsentinel.Common.{hex_digit}
use mathlib.Core.Path.{subst}
use arxsentinel.Common.{
  ℕ, zero, suc, ◌+◌, ◌-◌, ◌*◌, ◌/◌, ◌%◌, ◌^◌, ◌≤◌, ◌≡◌, refl, sym, ap, ◌∙◌, true, false, not, ◌||◌,
  Option, none, some, [], ◌∷◌, map, arith, ltb, leb, ◌==◌, if◌then◌else◌, is_some, is_none, length,
  take, drop, ◌>>=◌, if_elim, is_empty, Text, codes, join, trim_space,
}
use arxsentinel.Common.Dict.{Dict, get, remove}
use arxsentinel.Common.Int.{ℤ, pos, negsuc, leb_ℤ}
use arxsentinel.Common.{bind_some, length-take, guard_some, some_eq}
use arxsentinel.Bans.{level_order}
use arxsentinel.Cloudflare.{Config}

-- A value of the raw configuration: a string, an int, or another kind of value.
pub data RawValue (O : Type 0) : Type 0 where
  raw_text : Text → RawValue O
  raw_int : ℤ → RawValue O
  raw_other : O → RawValue O

-- The value of an int64 that a product leaves.
unfoldable pub wrap_64 : ℤ → ℤ
wrap_64 (pos n) =
    let r : ℕ = n % 2 ^ 64 in if ltb r (2 ^ 63) then pos r else negsuc (2 ^ 64 - r - 1)
wrap_64 (negsuc n) =
    let r : ℕ = (n + 1) % 2 ^ 64 in
    if r == 0 then pos 0 else if leb r (2 ^ 63) then negsuc (r - 1) else pos (2 ^ 64 - r)

abbrev pub second : ℕ
second = 1000000000

abbrev pub times_second : ℤ → ℤ
times_second (pos n) = wrap_64 (pos (n * second))
times_second (negsuc n) = wrap_64 (negsuc ((n + 1) * second - 1))

abbrev pub default_config : Config
default_config = record {
  api_token = [];
  account_id = [];
  list_name = codes "arxsentinel_blocklist";
  min_level = codes "THREAT";
  ttl = pos (24 * 3600 * second);
  max_items = pos 0;
  dedup_window = pos 0;
  batch_size = pos 100;
  flush_interval = pos (10 * second);
  instance_id = [];
  comment_extra = [];
  api_base_url = [];
}

-- The bytes that the closure given to strings.Map replaces by a space.
unfoldable pub blank_byte : ℕ → ℕ
blank_byte c = if c == 10 || c == 9 || c == 13 then 32 else c

-- comment_extra, of valid UTF-8, as the configuration keeps it.
unfoldable pub clean_comment : Text → Text
unfolding blank_byte
clean_comment v =
    let s : Text = map blank_byte (trim_space v) in if ltb 50 (length s) then take 50 s else s

module _ {O : Type 0} (parse_duration : Text → Option ℤ)
    (unmarshal : Dict (RawValue O) → Config → Option Config) where
  -- The value of a key that holds a duration, or the default; none is an error.
  unfoldable pub read_duration : Dict (RawValue O) → Text → ℤ → Option ℤ
  read_duration raw key default = elim (get raw key) [
    | none ↦ some default
    | some v ↦ elim v [
      | raw_text s ↦ parse_duration s
      | raw_int n ↦ some (times_second n)
      | raw_other o ↦ some default
    ]
  ]

  unfoldable pub read_comment : Dict (RawValue O) → Config → Dict (RawValue O) × Config
  unfolding clean_comment
  read_comment raw cfg = elim (get raw (codes "comment_extra")) [
    | none ↦ (raw, cfg)
    | some v ↦ elim v [
      | raw_text s ↦
          (remove raw (codes "comment_extra"), record cfg { comment_extra = clean_comment s })
      | raw_int n ↦ (raw, cfg)
      | raw_other o ↦ (raw, cfg)
    ]
  ]

  -- The checks of parseConfig after the JSON round trip.
  unfoldable pub check_config : Config → Option Config
  unfolding level_order
  check_config cfg =
      if is_empty cfg.api_token
      then none
      else if is_empty cfg.account_id
      then none
      else if is_none (level_order cfg.min_level)
      then none
      else some cfg

  -- parseConfig up to these checks.
  unfoldable pub read_config : Dict (RawValue O) → Option Config
  unfolding read_duration read_comment
  read_config raw = do
    ttl ← read_duration raw (codes "ttl") default_config.ttl
    window ← read_duration raw (codes "dedup_window") default_config.dedup_window
    interval ← read_duration raw (codes "flush_interval") default_config.flush_interval
    let rest =
        remove (remove (remove raw (codes "ttl")) (codes "dedup_window")) (codes "flush_interval")
    let (left, cfg) =
        read_comment rest
          (record default_config { ttl = ttl; dedup_window = window; flush_interval = interval })
    unmarshal left cfg

  unfoldable pub parse_config : Dict (RawValue O) → Option Config
  unfolding read_config check_config
  parse_config raw = read_config raw >>= check_config

  -- NewCloudflareExecutor, as far as it can fail.
  unfoldable pub new_cloudflare_executor : Dict (RawValue O) → Option Config
  unfolding parse_config
  new_cloudflare_executor raw = do
    cfg ← parse_config raw
    if leb_ℤ cfg.ttl (pos 0) then none else some cfg

-- hex.EncodeToString
unfoldable pub encode_to_string : Text → Text
unfolding hex_digit
encode_to_string [] = []
encode_to_string (b ∷ s) = hex_digit (b / 16) ∷ hex_digit (b % 16) ∷ encode_to_string s

-- A write of the byte at an index by its own value.
abbrev pub change : ℕ → (ℕ → ℕ) → Text → Text
change i f [] = []
change zero f (b ∷ s) = f b ∷ s
change (suc i) f (b ∷ s) = b ∷ change i f s

-- genUUID on what rand.Read gives: b & 0x0f | 0x40, and b & 0x3f | 0x80.
unfoldable pub gen_uuid : Option Text → Text
unfolding encode_to_string
gen_uuid none = codes "unknown"
gen_uuid (some random) =
    let b : Text = change 8 (λ x. x % 64 + 128) (change 6 (λ x. x % 16 + 64) random) in
    join (codes "-") (
      encode_to_string (take 4 b)
      ∷ encode_to_string (take 2 (drop 4 b))
      ∷ encode_to_string (take 2 (drop 6 b))
      ∷ encode_to_string (take 2 (drop 8 b))
      ∷ encode_to_string (take 6 (drop 10 b))
      ∷ [])

-- LoadInstanceID, with the files that can be read and what rand.Read gives.
unfoldable pub load_instance_id : (Text → Option Text) → Option Text → Config → Text
unfolding gen_uuid
load_instance_id read_file random cfg =
    let own : Text = elim (read_file (codes "/etc/machine-id")) [
      | none ↦ gen_uuid random
      | some data_read ↦ trim_space data_read
    ] in
    if not (is_empty cfg.instance_id)
    then cfg.instance_id
    else elim (read_file (codes "/var/lib/arxsentinel/instance.id")) [
      | none ↦ own
      | some data_read ↦ trim_space data_read
    ]

module _ {O : Type 0} (parse_duration : Text → Option ℤ)
    (unmarshal : Dict (RawValue O) → Config → Option Config) where
  -- What Run relies on.
  abbrev pub IsUsable : Config → Type 0
  IsUsable cfg =
      (is_empty cfg.api_token ≡ false)
      × (is_empty cfg.account_id ≡ false)
      × (is_some (level_order cfg.min_level) ≡ true)
      × (leb_ℤ cfg.ttl (pos 0) ≡ false)

  known_level : (o : Option ℕ) → is_none o ≡ false → is_some o ≡ true
  known_level none h = absurd (ground arith)
  known_level (some n) h = refl

  checked :
      (cfg out : Config)
      → check_config parse_duration unmarshal cfg ≡ some out
      → (out ≡ cfg)
        × (is_empty cfg.api_token ≡ false)
        × (is_empty cfg.account_id ≡ false)
        × (is_some (level_order cfg.min_level) ≡ true)
  unfolding check_config
  checked cfg out h =
      let (token, h1) = guard_some (is_empty cfg.api_token) _ out h in
      let (account, h2) = guard_some (is_empty cfg.account_id) _ out h1 in
      let (level, h3) = guard_some (is_none (level_order cfg.min_level)) _ out h2 in
      (sym (some_eq cfg out h3), token, account, known_level (level_order cfg.min_level) level)

  -- A configuration that NewCloudflareExecutor accepts has a token, an account, a known level and a
  -- positive TTL, whatever was parsed.
  pub new_cloudflare_executor-IsUsable :
      (raw : Dict (RawValue O)) (cfg : Config)
      → new_cloudflare_executor parse_duration unmarshal raw ≡ some cfg
      → IsUsable cfg
  unfolding new_cloudflare_executor parse_config
  new_cloudflare_executor-IsUsable raw cfg h =
      let (parsed, e, f) =
        bind_some (parse_config parse_duration unmarshal raw)
          (λ (c : Config). if leb_ℤ c.ttl (pos 0) then none else some c) cfg h in
      let (ttl, same) = guard_some (leb_ℤ parsed.ttl (pos 0)) (some parsed) cfg f in
      let (read, _, g) =
        bind_some (read_config parse_duration unmarshal raw) (check_config parse_duration unmarshal)
          parsed e in
      let (out, token, account, level) = checked read parsed g in
      subst IsUsable (some_eq parsed cfg same) (
        ap (λ (c : Config). is_empty c.api_token) out ∙ token,
        ap (λ (c : Config). is_empty c.account_id) out ∙ account,
        ap (λ (c : Config). is_some (level_order c.min_level)) out ∙ level,
        ttl,
      )

pub length-clean_comment : (v : Text) → length (clean_comment v) ≤ 50
unfolding clean_comment
length-clean_comment v =
    let s : Text = map blank_byte (trim_space v) in
    if_elim (λ (t : Text). length t ≤ 50) (ltb 50 (length s))
      (λ long. omega (arith, length-take 50 s (ground arith))) (λ short. ground arith)
