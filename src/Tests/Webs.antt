-- ===== src/Tests/Webs.antt =====
-- The nginx executor, and the refresh of the chain guard, at concrete inputs.
use arxsentinel.Common.{
  ℕ, ◌≡◌, refl, true, false, none, some, [], ◌∷◌, ◌++◌, ◌==◌, if◌then◌else◌, Text, codes, text_eq,
  is_space, has_prefix, has_suffix,
}
use arxsentinel.Common.Dict.{Dict, get, put, remove, keys}
use arxsentinel.Common.Int.{pos}
use arxsentinel.Nginx.{
  Config, Host, Executor, list_text, banned_lines, fields, parse_banned_line, deny_field,
}
use arxsentinel.Nginx.Runs.{flush, sweep, sync_existing, write_file, save_state}
use arxsentinel.Nginx.Reread.{IsAddress, sync_existing-state_map}
use arxsentinel.Net.{V6, parse_cidr, cut}
use arxsentinel.Chaincheck.Ranges.{
  Web, CloudflareConfig, is_loaded, ticks, new_cloudflare_checker, fetch_sources, cidr_lines,
  parse_cidr_list,
}
use arxsentinel.Common.{trim_space, trim_left, trim_right}
use arxsentinel.Tests.Inputs.{ip_a, ip_c}

-- A text of the bans, in place of JSON: each is 256, its time and its address.
abbrev encode : Dict ℕ → Text
encode [] = []
encode ((ip, t) ∷ d) = 256 ∷ t ∷ (ip ++ encode d)

abbrev with_entry : Text → Dict ℕ → Dict ℕ
with_entry [] d = d
with_entry (t ∷ ip) d = (ip, t) ∷ d

abbrev decode : Text → Text × Dict ℕ
decode [] = ([], [])
decode (c ∷ s) =
    let (taken, d) = decode s in if c == 256 then ([], with_entry taken d) else (c ∷ taken, d)

-- The files are what is outside; the clock stands at 9.
abbrev disk : Host (Dict Text)
disk = record {
  read_file = λ path f. get f path;
  mkdir_all = λ dir f. (true, f);
  open_file = λ path f. (true, put f path []);
  write_string = λ path s f. (true, put f path s);
  sync = λ path f. (true, f);
  close_file = λ path f. (true, f);
  rename =
      λ old new f. (true, put (remove f old) new (elim (get f old) [ none ↦ [] | some s ↦ s ]));
  dir_of = λ path. codes "/etc";
  marshal = λ d. some (encode d);
  unmarshal = λ s. some (decode s).1;
  run_command = λ cmd f. (true, f);
  now = λ f. 9;
  is_cancelled = λ f. false;
}

abbrev list_config : Config
list_config = record {
  list_file = codes "/l";
  file_format = codes "deny";
  state_file = codes "/s";
  ttl = pos 5;
  batch_size = pos 1;
  min_level = codes "THREAT";
  reload_cmd = [];
}

abbrev idle : Dict Text → Executor (Dict Text)
idle f = record { banned = []; executed = 0; skipped = 0; errors = 0; buffer = []; host = f }

abbrev two_bans : Dict ℕ
two_bans = (ip_a, 3) ∷ (ip_c, 4) ∷ []

-- The files that a flush of the two bans leaves.
abbrev flushed_files : Dict Text
flushed_files = (flush disk list_config two_bans (idle [])).host

ip_a-IsAddress : IsAddress ip_a
unfolding is_space has_prefix
ip_a-IsAddress = (refl, refl, (refl, (refl, (refl, (refl, (refl, (refl, (refl, (refl, tt)))))))))

ip_c-IsAddress : IsAddress ip_c
unfolding is_space has_prefix
ip_c-IsAddress = (refl, refl, (refl, (refl, (refl, (refl, (refl, (refl, (refl, (refl, tt)))))))))

sync_existing-state_map_example :
    get (sync_existing disk list_config (idle flushed_files)).banned ip_c ≡ get two_bans ip_c
unfolding flush write_file save_state get put remove text_eq keys list_text banned_lines
sync_existing-state_map_example =
    sync_existing-state_map disk list_config (idle flushed_files) two_bans (encode two_bans) refl
      refl refl refl refl refl (ip_a-IsAddress, (ip_c-IsAddress, tt)) ip_c

-- The last ban expires, and the list file keeps it.
left_behind :
    let swept = sweep disk list_config (record (idle flushed_files) { banned = (ip_a, 3) ∷ [] }) in
    (swept.banned ≡ []) × (swept.host ≡ flushed_files)
unfolding sweep
left_behind = (refl, refl)

-- A line with blanks, as a person may write it, is read too.
blanks : parse_banned_line (codes "deny \t 10.0.0.1;") (codes "deny") ≡ ip_a
unfolding parse_banned_line has_suffix has_prefix fields is_space deny_field text_eq
blanks = refl

-- A page of another kind leaves no range, whatever ranges there were.
abbrev page : Web ℕ
page = record { fetch = λ url n. (some (200, codes "<html>" ∷ [], true), n) }

abbrev no_v6 : V6
no_v6 = record { parse_v6 = λ s. none; show_v6 = λ n. [] }

abbrev cloud_config : CloudflareConfig
cloud_config = record { enabled = true; refresh_interval = pos 1; sources = codes "u" ∷ [] }

emptied : is_loaded (ticks no_v6 page 1 (new_cloudflare_checker no_v6 cloud_config) 0).0 ≡ false
unfolding is_loaded ticks new_cloudflare_checker fetch_sources cidr_lines parse_cidr_list has_prefix
    trim_space trim_left trim_right is_space parse_cidr cut
emptied = refl
