-- ===== src/Tests/Clouds.antt =====
-- The Cloudflare executor at concrete inputs.

use arxsentinel.Common.{
  ℕ, ◌+◌, ◌≤◌, ◌≡◌, refl, true, false, Option, some, List, [], ◌∷◌, ◌++◌, arith, ltb, if◌then◌else◌,
  Text, codes, text_eq, has_prefix, contains, trim_space, mem,
}
use arxsentinel.Common.Dict.{Dict, get, remove, keys}
use arxsentinel.Common.Int.{ℤ, pos}
use arxsentinel.Bans.{Window, ThreatEvent}
use arxsentinel.Cloudflare.{
  Answer, done, failed, CfClient, Config, Executor, do_with_retry, wait_for_pending_op,
  is_duplicate, meets_min_level,
}
use arxsentinel.Cloudflare.Runs.{
  flush, take_event, event, flush_timer, sweep_timer, run_steps, Step,
}
use arxsentinel.Cloudflare.Attempts.{do_with_retry-Rejected, wait_for_pending_op-Settled, Settled}
use arxsentinel.Cloudflare.Lost.{take_event_refused}
use arxsentinel.Cloudflare.Settings.{
  RawValue, raw_text, raw_int, default_config, new_cloudflare_executor, clean_comment, wrap_64,
}
use arxsentinel.Tests.Inputs.{ip_a, ip_c}

-- What is outside is the number of the calls made; the first five are answered 429.
abbrev limited : ℕ → Text → ℕ → Answer × ℕ
limited bound op n = (if ltb n bound then failed (codes "HTTP 429") else done op, n + 1)

abbrev cloud : CfClient ℕ
cloud = record {
  find_or_create_list = λ name n. (some (codes "list"), n);
  list_items = λ id n. (some (record { id = codes "item"; ip = ip_c } ∷ []), n);
  add_items = λ id items n. limited 5 (codes "op") n;
  remove_items = λ id ids n. limited 5 [] n;
  poll_bulk_operation = λ op n. (some (codes "failed"), n);
  now = λ n. n;
  wait = λ t n. (true, n);
  ctx_error = codes "context canceled";
}

abbrev marks : Window (List Text)
marks = record { contains_ip = λ now ip w. mem ip w; mark_batch = λ now ips w. w ++ ips }

abbrev settings : Config
settings = record default_config { api_token = codes "t"; account_id = codes "a"; ttl = pos 1 }

abbrev from_call : ℕ → Executor ℕ (List Text)
from_call n = record {
  list_id = codes "list";
  instance_id = codes "a";
  banned =
      (ip_c, record { cf_item_id = codes "item"; added_at = 0; added_by_executor = false }) ∷ [];
  executed = 0;
  skipped = 0;
  errors = 0;
  swept = 0;
  pending_op_id = codes "before";
  pending_op_at = 0;
  buffer = [];
  device = n;
  window = [];
}

abbrev seen : ThreatEvent
seen = record { level = codes "THREAT"; ip = ip_a }

-- All four attempts.
gives_up : do_with_retry cloud marks (limited 5 (codes "op")) 0 ≡ (failed (codes "HTTP 429"), 4)
unfolding do_with_retry contains has_prefix
gives_up = refl

do_with_retry-Rejected_example :
    do_with_retry cloud marks (limited 5 (codes "op")) 3 ≡ (done (codes "op"), 6)
unfolding contains has_prefix
do_with_retry-Rejected_example =
    do_with_retry-Rejected cloud marks (limited 5 (codes "op")) 2 3 5 (codes "op") (ground arith)
      (codes "HTTP 429", refl, refl, refl, (codes "HTTP 429", refl, refl, refl, refl)) refl

wait_for_pending_op-Settled_example :
    Settled cloud marks (from_call 3) (wait_for_pending_op cloud marks (from_call 3)).1
wait_for_pending_op-Settled_example = wait_for_pending_op-Settled cloud marks (from_call 3)

-- The API refuses four times, and the batch is lost: the address is still banned here.
refused :
    ((flush cloud marks settings (seen ∷ []) (from_call 0)).errors ≡ 2)
    × ((flush cloud marks settings (seen ∷ []) (from_call 0)).window ≡ [])
unfolding flush contains has_prefix text_eq
refused = (refl, refl)

-- A batch is one event.
abbrev at_once : Config
at_once = record settings { batch_size = pos 1 }

abbrev later : List Step
later = flush_timer ∷ sweep_timer ∷ event seen ∷ []

take_event_refused_example :
    let y = take_event cloud marks at_once seen (from_call 0) in
    let z = run_steps cloud marks at_once later y in
    (y.window ≡ [])
    × (y.executed ≡ 0)
    × (1 ≤ y.errors)
    × (y.buffer ≡ [])
    × (take_event cloud marks at_once seen z ≡ record z { skipped = z.skipped + 1 })
unfolding wait_for_pending_op do_with_retry contains has_prefix keys mem meets_min_level
    is_duplicate text_eq get
take_event_refused_example =
    take_event_refused cloud marks at_once seen seen (from_call 0) later (codes "HTTP 429")
      (refl, tt) refl refl refl refl refl refl refl

abbrev minute : Text → Option ℤ
minute s = some (pos 60)

abbrev as_given : Dict (RawValue ℕ) → Config → Option Config
as_given raw cfg = some (record cfg { api_token = codes "t"; account_id = codes "a" })

abbrev raw_settings : Dict (RawValue ℕ)
raw_settings =
    (codes "ttl", raw_int (pos 5)) ∷ (codes "comment_extra", raw_text (codes " a\tb ")) ∷ []

abbrev parsed : Config
parsed = record default_config {
  api_token = codes "t";
  account_id = codes "a";
  ttl = pos 5000000000;
  comment_extra = codes "a b";
}

parses : new_cloudflare_executor minute as_given raw_settings ≡ some parsed
unfolding new_cloudflare_executor get remove text_eq clean_comment trim_space wrap_64
parses = refl
