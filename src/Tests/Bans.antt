-- ===== src/Tests/Bans.antt =====
-- The RouterOS executor at concrete inputs, with a device that is the number of its next entry.

use arxsentinel.Common.{
  ℕ, ◌+◌, ◌≡◌, refl, none, some, List, [], ◌∷◌, ◌++◌, if◌then◌else◌, Text, codes, text_eq, mem,
}
use arxsentinel.Common.Dict.{get, put, remove}
use arxsentinel.Common.Int.{ℤ, pos}
use arxsentinel.Common.{show_nat}
use arxsentinel.Bans.{Window, ThreatEvent}
use arxsentinel.Mikrotik.{Step, event, sweep_timer, run}
use arxsentinel.Mikrotik.Counted.{counted, known, run-counted}
use arxsentinel.Common.{◌+◌}
use arxsentinel.Mikrotik.{
  Router, Config, Executor, flush, sweep, add_event, not_banned, delete_one, remove_all,
  collect_expired,
}
use arxsentinel.Mikrotik.Flushed.{Flushed, flush_lem}
use arxsentinel.Mikrotik.Swept.{Swept}
use arxsentinel.Tests.Inputs.{ip_a, ip_b, ip_c}

abbrev device : Router ℕ
device = record {
  add = λ a n. (if text_eq a.address ip_b then none else some (show_nat n), n + 1);
  list_entries = λ name n. (some [], n);
  delete = λ id n. (text_eq id (codes "1"), n);
}

abbrev window : Window (List Text)
window = record { contains_ip = λ now ip w. mem ip w; mark_batch = λ now ips w. w ++ ips }

abbrev timeouts : ℤ → Text
timeouts t = codes "1d"

abbrev config : Config
config = record {
  list_name = codes "blocked";
  ttl = pos 100;
  sentinel_id = codes "a";
  batch_size = pos 2;
  min_level = codes "WARN";
}

abbrev one_ban : Executor ℕ (List Text)
one_ban = record {
  banned = (ip_c, record { id = codes "1"; added_at = 1000 }) ∷ [];
  executed = 1;
  skipped = 0;
  errors = 0;
  swept = 0;
  buffer = [];
  device = 2;
  window = ip_c ∷ [];
}

abbrev batch : List ThreatEvent
batch =
    record { level = codes "THREAT"; ip = ip_a }
    ∷ record { level = codes "THREAT"; ip = ip_b }
    ∷ record { level = codes "THREAT"; ip = ip_c }
    ∷ []

-- The device adds the first address, refuses the second, and the third is banned already.
flushes :
    ((flush device window timeouts config 1050 batch one_ban).window ≡ ip_c ∷ ip_a ∷ [])
    × ((flush device window timeouts config 1050 batch one_ban).errors ≡ 1)
unfolding flush get text_eq add_event put not_banned mem
flushes = (refl, refl)

flush_lem_example :
    Flushed device window timeouts config 1050 batch one_ban
      (flush device window timeouts config 1050 batch one_ban)
flush_lem_example = flush_lem device window timeouts config 1050 batch one_ban

-- The device deletes the entry "1" and refuses the other.
abbrev two_bans : Executor ℕ (List Text)
two_bans = record one_ban {
  banned =
      (ip_a, record { id = codes "9"; added_at = 900 })
      ∷ (ip_c, record { id = codes "1"; added_at = 1000 })
      ∷ [];
}

sweeps :
    ((sweep device window timeouts config 1101 two_bans).banned
      ≡ (ip_a, record { id = codes "9"; added_at = 900 }) ∷ [])
    × ((sweep device window timeouts config 1101 two_bans).errors ≡ 1)
unfolding sweep remove text_eq delete_one remove_all collect_expired
sweeps = (refl, refl)

abbrev for_ever : Config
for_ever = record config { ttl = pos 0 }

-- Two events fill the batch, the third waits for the end.
abbrev passes : List Step
passes =
    event 1050 (record { level = codes "THREAT"; ip = ip_a })
    ∷ event 1051 (record { level = codes "THREAT"; ip = ip_b })
    ∷ sweep_timer 1052
    ∷ event 1053 (record { level = codes "THREAT"; ip = ip_b })
    ∷ []

run-counted_example :
    counted device window timeouts for_ever
      (run device window timeouts for_ever 1040 passes 1060 one_ban)
    ≡ known device window timeouts for_ever one_ban + 3
run-counted_example = run-counted device window timeouts for_ever 1040 passes 1060 one_ban refl
