-- ===== src/Nginx/Reread.antt =====
-- pkg/executorplugins/nginx/executor.go: the list that is written is read back.
use mathlib.Core.Path.{subst}
use mathlib.Core.List.{reverse, append_assoc, reverse-append}
use arxsentinel.Common.{
  ℕ, ◌-◌, ◌≡◌, refl, sym, ap, ◌∙◌, inl, inr, true, false, ◌||◌, none, some, List, [], ◌∷◌, ◌++◌,
  arith, if◌then◌else◌, Bool-cases, Option-cases, length, take, is_empty, length-append, All, Text,
  codes, text_eq, text_eq_iff, text_eq_refl, has_prefix, has_suffix, trim_space, mem, is_space,
  trim_left, trim_right, has_prefix_append,
}
use arxsentinel.Common.Dict.{Dict, get, put, keys, get-put, mem-keys}
use arxsentinel.Blocklist.Parsers.{split_lines}
use arxsentinel.Blocklist.Lines.{has_line_end, beside}
use arxsentinel.Blocklist.Stored.{cut_line-append}
use arxsentinel.Nginx.{
  Config, Host, Executor, is_deny, banned_line, banned_lines, list_text, cut_fields, fields,
  deny_field, parse_banned_line, sync_line, sync_lines,
}
use arxsentinel.Nginx.Runs.{state_map, sync_existing}

-- An address: it is not empty, has no space and does not begin a comment.
abbrev pub IsAddress : Text → Type 0
IsAddress ip =
    (is_empty ip ≡ false) × (has_prefix ip (codes "#") ≡ false) × All (λ c. is_space c ≡ false) ip

take_front : (s t : Text) → take (length s) (s ++ t) ≡ s
take_front [] t = refl
take_front (c ∷ s) t = ap (λ l. c ∷ l) (take_front s t)

has_suffix_append : (s t : Text) → has_suffix (s ++ t) t ≡ true
unfolding has_suffix
has_suffix_append s t = rw (reverse-append s t) (has_prefix_append (reverse t) (reverse s))

trimmed : (s t : Text) → take (length (s ++ t) - length t) (s ++ t) ≡ s
trimmed s t = ap (λ n. take n (s ++ t)) (ground (arith, length-append s t)) ∙ take_front s t

not_empty : (s t : Text) (c : ℕ) → is_empty (s ++ (c ∷ t)) ≡ false
not_empty [] t c = refl
not_empty (a ∷ s) t c = refl

trim_right_last :
    (s : Text) (c : ℕ) → is_space c ≡ false → trim_right is_space (s ++ (c ∷ [])) ≡ s ++ (c ∷ [])
unfolding trim_right
trim_right_last [] c h = rw h refl
trim_right_last (a ∷ s) c h = rw (trim_right_last s c h, not_empty s [] c) (ground arith)

trim_right_none : (s : Text) → All (λ c. is_space c ≡ false) s → trim_right is_space s ≡ s
unfolding trim_right
trim_right_none [] h = refl
trim_right_none (c ∷ s) (h, all) = rw (h, trim_right_none s all) refl

trim_left_none : (s : Text) → All (λ c. is_space c ≡ false) s → trim_left is_space s ≡ s
unfolding trim_left
trim_left_none [] h = refl
trim_left_none (c ∷ s) (h, all) = rw h refl

trim_left_first : (c : ℕ) (s : Text) → is_space c ≡ false → trim_left is_space (c ∷ s) ≡ c ∷ s
unfolding trim_left
trim_left_first c s h = rw h refl

trim_space_none : (s : Text) → All (λ c. is_space c ≡ false) s → trim_space s ≡ s
unfolding trim_space
trim_space_none s h = rw (trim_right_none s h) (trim_left_none s h)

cut_fields_none : (s : Text) → All (λ c. is_space c ≡ false) s → cut_fields s ≡ (s, [])
cut_fields_none [] h = refl
cut_fields_none (c ∷ s) (h, all) = rw (cut_fields_none s all, h) refl

deny_fields :
    (ip : Text)
    → is_empty ip ≡ false
    → All (λ c. is_space c ≡ false) ip
    → fields (codes "deny " ++ ip) ≡ codes "deny" ∷ ip ∷ []
unfolding fields is_space
deny_fields ip e h = rw (cut_fields_none ip h, e) refl

parse_banned_line-banned_line :
    (format ip : Text) → IsAddress ip → parse_banned_line (banned_line format ip) format ≡ ip
unfolding parse_banned_line banned_line fields deny_field text_eq
parse_banned_line-banned_line format ip (e, _, h) = elim (Bool-cases (is_deny format)) [
  | inl deny ↦
      rw (deny, has_suffix_append (codes "deny " ++ ip) (codes ";"))
        (ap (λ s. deny_field (fields s)) (trimmed (codes "deny " ++ ip) (codes ";"))
          ∙ ap deny_field (deny_fields ip e h))
  | inr geo ↦
      rw (geo, has_suffix_append ip (codes " 1;"))
        (ap trim_space (trimmed ip (codes " 1;")) ∙ trim_space_none ip h)
]

trim_space_ends :
    (c : ℕ) (s : Text)
    → is_space c ≡ false
    → trim_space (c ∷ (s ++ codes ";")) ≡ c ∷ (s ++ codes ";")
unfolding trim_space
trim_space_ends c s h =
    rw (trim_right_last (c ∷ s) 59 (unfold is_space in refl)) (trim_left_first c (s ++ codes ";") h)

trim_space-banned_line :
    (format ip : Text) → IsAddress ip → trim_space (banned_line format ip) ≡ banned_line format ip
unfolding banned_line
trim_space-banned_line format [] (e, _, _) = absurd (ground arith)
trim_space-banned_line format (c ∷ s) (_, _, (h, _)) =
    let apart : (c ∷ s) ++ codes " 1;" ≡ ((c ∷ s) ++ codes " 1") ++ codes ";" =
      sym (append_assoc (c ∷ s) (codes " 1") (codes ";")) in
    elim (Bool-cases (is_deny format)) [
      | inl deny ↦ rw deny (trim_space_ends 100 (codes "eny " ++ (c ∷ s)) (unfold is_space in refl))
      | inr geo ↦ rw geo (ap trim_space apart ∙ trim_space_ends c (s ++ codes " 1") h ∙ sym apart)
    ]

-- Neither a blank line nor a comment.
told :
    (format ip : Text)
    → IsAddress ip
    → (is_empty (banned_line format ip) || has_prefix (banned_line format ip) (codes "#")) ≡ false
unfolding banned_line has_prefix
told format [] (e, _, _) = absurd (ground arith)
told format (c ∷ s) (_, comment, _) = elim (Bool-cases (is_deny format)) [
  | inl deny ↦ rw deny refl
  | inr geo ↦ rw geo (ground arith)
]

-- The time that the state file gives an address, or the present.
abbrev pub time_of : Dict ℕ → ℕ → Text → ℕ
time_of state now ip = elim (get state ip) [ none ↦ now | some t ↦ t ]

sync_line-banned_line :
    (format : Text) (state : Dict ℕ) (now : ℕ) (ip : Text) (d : Dict ℕ)
    → IsAddress ip
    → sync_line format state now (banned_line format ip) d ≡ put d ip (time_of state now ip)
unfolding sync_line
sync_line-banned_line format state now ip d h =
    rw
      (
        trim_space-banned_line format ip h,
        told format ip h,
        parse_banned_line-banned_line format ip h,
        h.0,
      )
      refl

-- A byte that is no space is no line end.
address-has_line_end : (s : Text) → All (λ c. is_space c ≡ false) s → has_line_end s ≡ false
unfolding has_line_end is_space
address-has_line_end [] h = refl
address-has_line_end (c ∷ s) (h, all) = ground (arith, address-has_line_end s all)

banned_line-has_line_end :
    (format ip : Text) → IsAddress ip → has_line_end (banned_line format ip) ≡ false
unfolding banned_line has_line_end
banned_line-has_line_end format ip (_, _, h) = elim (Bool-cases (is_deny format)) [
  | inl deny ↦ rw deny (beside ip (codes ";") (address-has_line_end ip h) refl)
  | inr geo ↦ rw geo (beside ip (codes " 1;") (address-has_line_end ip h) refl)
]

-- The bans that the lines of addresses add.
put_all : Dict ℕ → ℕ → List Text → Dict ℕ → Dict ℕ
put_all state now [] d = d
put_all state now (ip ∷ ips) d = put_all state now ips (put d ip (time_of state now ip))

sync_lines-banned_lines :
    (format : Text) (state : Dict ℕ) (now : ℕ) (ips : List Text) (d : Dict ℕ)
    → All IsAddress ips
    → sync_lines format state now (split_lines (banned_lines format ips)) d
      ≡ put_all state now ips d
unfolding sync_lines split_lines banned_lines sync_line put_all
sync_lines-banned_lines format state now [] d h = refl
sync_lines-banned_lines format state now (ip ∷ ips) d (h, all) =
    rw
      (cut_line-append (banned_line format ip) (banned_lines format ips)
        (banned_line-has_line_end format ip h))
      (ap (sync_lines format state now (split_lines (banned_lines format ips)))
          (sync_line-banned_line format state now ip d h)
        ∙ sync_lines-banned_lines format state now ips (put d ip (time_of state now ip)) all)

get-put_all :
    (state : Dict ℕ) (now : ℕ) (ips : List Text) (d : Dict ℕ) (k : Text)
    → get (put_all state now ips d) k ≡ (if mem k ips then some (time_of state now k) else get d k)
unfolding mem put_all
get-put_all state now [] d k = refl
get-put_all state now (ip ∷ ips) d k = elim (Bool-cases (text_eq ip k)) [
  | inl same ↦
      subst
        (λ j.
          get (put_all state now ips (put d j (time_of state now j))) k
          ≡ (if text_eq j k || mem k ips then some (time_of state now k) else get d k))
        (sym ((text_eq_iff ip k).0 same))
        (rw
          (
            get-put_all state now ips (put d k (time_of state now k)) k,
            get-put d k (time_of state now k) k,
            text_eq_refl k,
          )
          (ground arith))
  | inr other ↦
      rw
        (
          get-put_all state now ips (put d ip (time_of state now ip)) k,
          get-put d ip (time_of state now ip) k,
          other,
        )
        refl
]

-- The first line is a comment.
sync_lines-list_text :
    (format : Text) (state : Dict ℕ) (now : ℕ) (banned d : Dict ℕ)
    → sync_lines format state now (split_lines (list_text format banned)) d
      ≡ sync_lines format state now (split_lines (banned_lines format (keys banned))) d
unfolding list_text sync_lines split_lines sync_line trim_space trim_left trim_right is_space
    has_prefix
sync_lines-list_text format state now banned d = refl

restored :
    (d : Dict ℕ) (now : ℕ) (ip : Text)
    → (if mem ip (keys d) then some (time_of d now ip) else get [] ip) ≡ get d ip
restored d now ip = elim (Option-cases (get d ip)) [
  | inl e ↦ rw (mem-keys d ip, e) (unfold get in refl)
  | inr (t, e) ↦
      let known : time_of d now ip ≡ t = rw (e, time_of) refl in rw (mem-keys d ip, e, known) refl
]

module _ {F : Type 0} (host : Host F) (cfg : Config) where
  -- When the list file holds the text that a flush of `banned` writes, whose keys are not empty,
  -- have no space and do not begin with '#', sync_existing adds exactly these addresses, in either
  -- format: each with its time in the state file, or with the present if it has none there. The
  -- other bans are as before.
  pub sync_existing_lem :
      (x : Executor F) (banned : Dict ℕ)
      → host.read_file cfg.list_file x.host ≡ some (list_text cfg.file_format banned)
      → All IsAddress (keys banned)
      → (ip : Text)
      → get (sync_existing host cfg x).banned ip ≡ (
          if mem ip (keys banned)
          then some (time_of (state_map host cfg x.host) (host.now x.host) ip)
          else get x.banned ip)
  unfolding sync_existing
  sync_existing_lem x banned read h ip =
      let state : Dict ℕ = state_map host cfg x.host in
      let now : ℕ = host.now x.host in
      rw (read, sync_existing)
        (ap (λ d. get d ip)
            (sync_lines-list_text cfg.file_format state now banned x.banned
              ∙ sync_lines-banned_lines cfg.file_format state now (keys banned) x.banned h)
          ∙ get-put_all state now (keys banned) x.banned ip)

  -- When the list file and the state file hold what a flush of `banned` writes, and JSON gives the
  -- map of its text back, an executor that starts has exactly these bans, with their times, in either format.
  -- The addresses are not empty, have no space and do not begin with '#'; a state file is named.
  pub sync_existing-state_map :
      (x : Executor F) (banned : Dict ℕ) (saved : Text)
      → x.banned ≡ []
      → host.read_file cfg.list_file x.host ≡ some (list_text cfg.file_format banned)
      → is_empty cfg.state_file ≡ false
      → host.read_file cfg.state_file x.host ≡ some saved
      → host.marshal banned ≡ some saved
      → host.unmarshal saved ≡ some banned
      → All IsAddress (keys banned)
      → (ip : Text) → get (sync_existing host cfg x).banned ip ≡ get banned ip
  sync_existing-state_map x banned saved fresh read named stored written json h ip =
      let state : state_map host cfg x.host ≡ banned =
        unfold state_map in rw (named, stored, json) refl in
      sync_existing_lem x banned read h ip
      ∙ rw (state, fresh) (restored banned (host.now x.host) ip)
