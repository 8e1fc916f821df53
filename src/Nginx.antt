-- ===== src/Nginx.antt =====
-- pkg/executorplugins/nginx/executor.go: the list of addresses that nginx includes, its lines and
-- their reading, with the fields of config.go that the executor reads.
pub mod Runs
pub mod Reread
use mathlib.Core.Path.{subst, ap₂}
use mathlib.Core.Bool.{false≢true}
use Prim.Native.Nat.{max}
use mathlib.Core.List.{reverse, append-nil, append_assoc}
use arxsentinel.Common.{
  ℕ, zero, suc, ◌+◌, ◌-◌, ◌*◌, ◌/◌, ◌%◌, ◌^◌, ◌≤◌, ◌<◌, ◌≡◌, refl, sym, ap, ◌∙◌, ◌≢◌, ◌↔◌, ◌⊎◌, inl,
  inr, Bool, true, false, not, ◌&&◌, ◌||◌, Option, none, some, List, [], ◌∷◌, ◌++◌, map, arith, ltb,
  leb, ◌==◌, if◌then◌else◌, Bool-cases, Option-cases, is_some, is_none, tests, length, take, drop,
  set, ◌>>=◌, if_elim, replicate, keep, some_of, first_of_list, is_empty, length-append, All, Text,
  codes, text_eq, text_eq_iff, text_eq_refl, has_prefix, has_suffix, contains, to_lower, join,
  trim_space, mem, erase, Distinct, mem-erase, erase-Distinct, length-erase-mem, erase_absent,
  mem-append,
}
use arxsentinel.Common.Dict.{
  Dict, get, put, remove, keys, get-put, get-remove, mem-keys, length-keys, keys-remove, keys-put,
  Distinct-snoc, length-put, length-remove, put-Distinct,
}
use arxsentinel.Common.Int.{
  sub_ℕ, ℤ, pos, negsuc, ◌+ℤ◌, ◌≤ℤ◌, leb_ℤ, int_laws, pos_part, neg_part, +ℤ_parts, eq_of_parts,
  +ℤ_assoc,
}
use arxsentinel.Common.{is_space}
use arxsentinel.Bans.{ThreatEvent, level_order}
use arxsentinel.Blocklist.Parsers.{split_lines}

pub record Config : Type 0 where
  pub list_file : Text
  pub file_format : Text
  pub state_file : Text
  pub ttl : ℤ
  pub batch_size : ℤ
  pub min_level : Text
  pub reload_cmd : Text

-- What is outside, with its state F: the files, which read as none where they cannot be read; each
-- call of writeFile, false being an error; JSON, of the map with its times, none being an error; the command, false
-- being an error; the clock; and whether the context is cancelled.
pub record Host (F : Type 0) : Type 0 where
  pub read_file : Text → F → Option Text
  pub mkdir_all : Text → F → Bool × F
  pub open_file : Text → F → Bool × F
  pub write_string : Text → Text → F → Bool × F
  pub sync : Text → F → Bool × F
  pub close_file : Text → F → Bool × F
  pub rename : Text → Text → F → Bool × F
  pub dir_of : Text → Text
  pub marshal : Dict ℕ → Option Text
  pub unmarshal : Text → Option (Dict ℕ)
  pub run_command : Text → F → Bool × F
  pub now : F → ℕ
  pub is_cancelled : F → Bool

pub record Executor (F : Type 0) : Type 0 where
  pub banned : Dict ℕ
  pub executed : ℕ
  pub skipped : ℕ
  pub errors : ℕ
  pub buffer : List ThreatEvent
  pub host : F

-- The bytes of the header's dash are 226, 128 and 148.
abbrev pub file_header : Text
file_header =
    codes "# managed by arxsentinel " ++ ((226 ∷ 128 ∷ 148 ∷ []) ++ codes " do not edit manually\n")

abbrev pub is_deny : Text → Bool
is_deny format = text_eq format (codes "deny")

-- The line of an address, without its end, and the text of the list.
unfoldable pub banned_line : Text → Text → Text
banned_line format ip =
    if is_deny format then codes "deny " ++ (ip ++ codes ";") else ip ++ codes " 1;"

unfoldable pub banned_lines : Text → List Text → Text
unfolding banned_line
banned_lines format [] = []
banned_lines format (ip ∷ ips) = banned_line format ip ++ (10 ∷ banned_lines format ips)

unfoldable pub list_text : Text → Dict ℕ → Text
unfolding banned_lines
list_text format banned = file_header ++ banned_lines format (keys banned)

-- strings.TrimSuffix
abbrev pub trim_suffix : Text → Text → Text
trim_suffix s t = if has_suffix s t then take (length s - length t) s else s

-- strings.Fields on a text without a space outside ASCII, at which Go also splits: the first field
-- and the others, for a text that may go on a field.
abbrev pub cut_fields : Text → Text × List Text
cut_fields [] = ([], [])
cut_fields (c ∷ s) =
    let (first, rest) = cut_fields s in
    let others : List Text = if is_empty first then rest else first ∷ rest in
    if is_space c then ([], others) else (c ∷ first, rest)

unfoldable pub fields : Text → List Text
fields s = let (first, rest) = cut_fields s in if is_empty first then rest else first ∷ rest

unfoldable pub deny_field : List Text → Text
deny_field (word ∷ ip ∷ []) = if text_eq word (codes "deny") then ip else []
deny_field _ = []

unfoldable pub parse_banned_line : Text → Text → Text
unfolding fields deny_field
parse_banned_line line format =
    if is_deny format
    then if has_suffix line (codes ";")
      then deny_field (fields (trim_suffix line (codes ";")))
      else []
    else if has_suffix line (codes " 1;")
    then trim_space (trim_suffix line (codes " 1;"))
    else []

-- One line of the loop of syncExisting, with the times of the state file.
unfoldable pub sync_line : Text → Dict ℕ → ℕ → Text → Dict ℕ → Dict ℕ
unfolding trim_space parse_banned_line
sync_line format state now text banned =
    let line : Text = trim_space text in
    let ip : Text = parse_banned_line line format in
    let added_at : ℕ = elim (get state ip) [ none ↦ now | some t ↦ t ] in
    if is_empty line || has_prefix line (codes "#")
    then banned
    else if is_empty ip
    then banned
    else put banned ip added_at

unfoldable pub sync_lines : Text → Dict ℕ → ℕ → List Text → Dict ℕ → Dict ℕ
unfolding sync_line
sync_lines format state now [] banned = banned
sync_lines format state now (line ∷ rest) banned =
    sync_lines format state now rest (sync_line format state now line banned)

unfoldable pub meets_min_level : Config → Text → Bool
unfolding level_order
meets_min_level cfg level =
    let min : ℕ = elim (level_order cfg.min_level) [ none ↦ 0 | some n ↦ n ] in
    elim (level_order level) [ none ↦ false | some n ↦ leb min n ]

unfoldable pub is_expired : Config → ℕ → ℕ → Bool
is_expired cfg now added_at = not (leb_ℤ (sub_ℕ now added_at) cfg.ttl)

-- The loop of sweep.
unfoldable pub drop_expired : Config → ℕ → Dict ℕ → Dict ℕ
unfolding is_expired
drop_expired cfg now [] = []
drop_expired cfg now ((ip, added_at) ∷ d) =
    let rest = drop_expired cfg now d in
    if is_expired cfg now added_at then rest else (ip, added_at) ∷ rest
