-- ===== src/Nginx/Runs.antt =====
-- pkg/executorplugins/nginx/executor.go: the writing of the files, the flush, the sweep and the
-- cases of the loop of Run. Logging is left out.

use arxsentinel.Common.{
  ℕ, ◌+◌, Bool, true, false, not, none, some, List, [], ◌∷◌, ◌++◌, ◌==◌, if◌then◌else◌, is_some,
  length, is_empty, Text, codes,
}
use arxsentinel.Common.Dict.{Dict, get, put}
use arxsentinel.Common.Int.{pos, leb_ℤ}
use arxsentinel.Bans.{ThreatEvent}
use arxsentinel.Blocklist.Parsers.{split_lines}
use arxsentinel.Nginx.{Config, Host, Executor, list_text, sync_lines, meets_min_level, drop_expired}

-- What the loop of Run takes up.
pub data Step : Type 0 where
  event : ThreatEvent → Step
  flush_timer : Step
  sweep_timer : Step

module _ {F : Type 0} (host : Host F) (cfg : Config) where
  -- A step that is not reached after one that failed.
  abbrev and_then : Bool × F → (F → Bool × F) → Bool × F
  and_then (ok, f) next = let after = next f in if ok then after else (false, f)

  -- After a failure the file is closed.
  abbrev or_close : Text → Bool × F → Bool × F
  or_close tmp (ok, f) =
      let closed = (host.close_file tmp f).1 in if ok then (true, f) else (false, closed)

  unfoldable pub write_file : Text → Text → F → Bool × F
  write_file path content f =
      let tmp : Text = path ++ codes ".tmp" in
      and_then (host.mkdir_all (host.dir_of path) f) (λ f1. and_then (host.open_file tmp f1) (λ f2.
        and_then (or_close tmp (host.write_string tmp content f2)) (λ f3.
          and_then (or_close tmp (host.sync tmp f3))
            (λ f4. and_then (host.close_file tmp f4) (λ f5. host.rename tmp path f5)))))

  unfoldable pub save_state : Dict ℕ → Executor F → Executor F
  unfolding write_file
  save_state banned x =
      let written : Executor F = elim (host.marshal banned) [
        | none ↦ record x { errors = x.errors + 1 }
        | some content ↦
            let (ok, f) = write_file cfg.state_file content x.host in
            record x { host = f; errors = if ok then x.errors else x.errors + 1 }
      ] in
      if is_empty cfg.state_file then x else written

  -- The times of the state file, none of them if it cannot be read.
  unfoldable pub state_map : F → Dict ℕ
  state_map f =
      let read : Dict ℕ = elim (host.read_file cfg.state_file f) [
        | none ↦ []
        | some content ↦ elim (host.unmarshal content) [ none ↦ [] | some d ↦ d ]
      ] in
      if is_empty cfg.state_file then [] else read

  unfoldable pub sync_existing : Executor F → Executor F
  unfolding state_map sync_lines split_lines
  sync_existing x = elim (host.read_file cfg.list_file x.host) [
    | none ↦ x
    | some content ↦ record x {
      banned =
          sync_lines cfg.file_format (state_map x.host) (host.now x.host) (split_lines content)
            x.banned;
    }
  ]

  unfoldable pub run_reload : Executor F → Executor F
  run_reload x =
      let (ok, f) = host.run_command cfg.reload_cmd x.host in
      if is_empty cfg.reload_cmd
      then x
      else record x { host = f; errors = if ok then x.errors else x.errors + 1 }

  unfoldable pub flush : Dict ℕ → Executor F → Executor F
  unfolding write_file save_state run_reload list_text
  flush banned x =
      let (ok, f) = write_file cfg.list_file (list_text cfg.file_format banned) x.host in
      let written = run_reload (save_state banned (record x { host = f })) in
      if host.is_cancelled x.host
      then x
      else if is_empty banned
      then x
      else if ok
      then record written { executed = written.executed + length banned }
      else record x { host = f; errors = x.errors + 1 }

  unfoldable pub flush_locked : Executor F → Executor F
  unfolding flush
  flush_locked x = flush x.banned x

  unfoldable pub sweep : Executor F → Executor F
  unfolding flush drop_expired
  sweep x =
      let left = drop_expired cfg (host.now x.host) x.banned in
      if length left == length x.banned then x else flush left (record x { banned = left })

  -- The case of Run for one event from the source.
  unfoldable pub take_event : ThreatEvent → Executor F → Executor F
  unfolding meets_min_level flush_locked
  take_event ev x =
      let buffered = record x {
        banned = put x.banned ev.ip (host.now x.host);
        buffer = x.buffer ++ (ev ∷ []);
      } in
      let flushed = record (flush_locked buffered) { buffer = [] } in
      if not (meets_min_level cfg ev.level)
      then record x { skipped = x.skipped + 1 }
      else if is_some (get x.banned ev.ip)
      then record x { skipped = x.skipped + 1 }
      else if leb_ℤ cfg.batch_size (pos (length buffered.buffer))
      then flushed
      else buffered

  unfoldable pub flush_tick : Executor F → Executor F
  unfolding flush_locked
  flush_tick x =
      let flushed = record (flush_locked x) { buffer = [] } in
      if is_empty x.buffer then x else flushed

  unfoldable pub shut_down : Executor F → Executor F
  unfolding flush_locked sweep
  shut_down x = sweep (flush_locked x)

  unfoldable pub run_step : Step → Executor F → Executor F
  unfolding take_event flush_tick sweep
  run_step (event ev) x = take_event ev x
  run_step flush_timer x = flush_tick x
  run_step sweep_timer x = sweep x

  unfoldable pub run_steps : List Step → Executor F → Executor F
  unfolding run_step
  run_steps [] x = x
  run_steps (step ∷ rest) x = run_steps rest (run_step step x)

  unfoldable pub run : List Step → Executor F → Executor F
  unfolding sync_existing run_steps shut_down
  run steps x = shut_down (run_steps steps (sync_existing x))
