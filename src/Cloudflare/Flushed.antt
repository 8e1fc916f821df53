-- ===== src/Cloudflare/Flushed.antt =====
-- pkg/executorplugins/cloudflare/executor.go: what flush and sweep leave, by what the API answers.
use mathlib.Core.Path.{subst}
use arxsentinel.Common.{
  ℕ, ◌+◌, ◌≤◌, ◌≡◌, refl, sym, ap, ◌∙◌, inl, inr, Bool, true, false, none, some, List, [], ◌∷◌, map,
  arith, if◌then◌else◌, Bool-cases, length, is_empty, Text, mem, Distinct, erase-Distinct,
}
use arxsentinel.Common.Dict.{
  Dict, get, put, remove, keys, get-put, get-remove, keys-remove, put-Distinct,
}
use arxsentinel.Bans.{Window, ThreatEvent}
use arxsentinel.Cloudflare.{
  Answer, done, failed, CfClient, Config, BanRecord, Executor, wait_for_pending_op, do_with_retry,
}
use arxsentinel.Cloudflare.Runs.{
  ExpiredEntry, ips_of, own_ban, ban_all, remove_all, batch_items, added, flush,
}
use arxsentinel.Cloudflare.Attempts.{Settled, wait_for_pending_op-Settled}

pub get-ban_all :
    (now : ℕ) (ips : List Text) (d : Dict BanRecord) (ip : Text)
    → get (ban_all now ips d) ip ≡ (if mem ip ips then some (own_ban now) else get d ip)
unfolding ban_all mem
get-ban_all now [] d ip = refl
get-ban_all now (j ∷ ips) d ip =
    ground (arith, get-ban_all now ips (put d j (own_ban now)) ip, get-put d j (own_ban now) ip)

pub ban_all-Distinct :
    (now : ℕ) (ips : List Text) (d : Dict BanRecord)
    → Distinct (keys d)
    → Distinct (keys (ban_all now ips d))
unfolding ban_all
ban_all-Distinct now [] d h = h
ban_all-Distinct now (j ∷ ips) d h =
    ban_all-Distinct now ips (put d j (own_ban now)) (put-Distinct d j (own_ban now) h)

pub get-remove_all :
    (ips : List Text) (d : Dict BanRecord) (ip : Text)
    → get (remove_all ips d) ip ≡ (if mem ip ips then none else get d ip)
unfolding remove_all mem
get-remove_all [] d ip = refl
get-remove_all (j ∷ ips) d ip =
    ground (arith, get-remove_all ips (remove d j) ip, get-remove d j ip)

pub remove_all-Distinct :
    (ips : List Text) (d : Dict BanRecord) → Distinct (keys d) → Distinct (keys (remove_all ips d))
unfolding remove_all
remove_all-Distinct [] d h = h
remove_all-Distinct (j ∷ ips) d h =
    remove_all-Distinct ips (remove d j)
      (subst (λ ks. Distinct ks) (sym (keys-remove d j)) (erase-Distinct j (keys d) h))

module _ {D W : Type 0} (client : CfClient D) (win : Window W) (cfg : Config) where
  abbrev pub add_answer : List ThreatEvent → Executor D W → Answer
  add_answer events x =
      let y = (wait_for_pending_op client win x).1 in
      (do_with_retry client win (client.add_items y.list_id (batch_items client win cfg events y))
        y.device).0

  abbrev pub remove_answer : List ExpiredEntry → Executor D W → Answer
  remove_answer expired x =
      let y = (wait_for_pending_op client win x).1 in
      (do_with_retry client win
        (client.remove_items y.list_id (map (λ (e : ExpiredEntry). e.item_id) expired)) y.device).0

  -- No ban is added or removed, and between a and b errors are.
  abbrev pub Untouched : ℕ → ℕ → Executor D W → Executor D W → Type 0
  Untouched a b x y =
      (y.banned ≡ x.banned)
      × (y.window ≡ x.window)
      × (y.executed ≡ x.executed)
      × (y.swept ≡ x.swept)
      × (x.errors + a ≤ y.errors)
      × (y.errors ≤ x.errors + b)

  -- By whether the wait for the operation before was cancelled, and by the answer.
  abbrev pub FlushOutcome : Bool → Answer → List ThreatEvent → Executor D W → Executor D W → Type 0
  FlushOutcome false answer events x y = Untouched 0 1 x y
  FlushOutcome true (failed err) events x y = Untouched (length events) (length events + 1) x y
  FlushOutcome true (done op) events x y =
      ((ip : Text)
        → get y.banned ip ≡ (
            if mem ip (ips_of events)
            then some (own_ban (client.now y.device))
            else get x.banned ip))
      × (y.window ≡ win.mark_batch (client.now y.device) (ips_of events) x.window)
      × (y.executed ≡ x.executed + length events)
      × (y.pending_op_id ≡ op)
      × (y.errors ≤ x.errors + 1)

  added_outcome :
      (events : List ThreatEvent) (answer : Answer) (x y : Executor D W) (d : D)
      → Settled client win x y
      → FlushOutcome true answer events x
          (added client win cfg events answer (record y { device = d }))
  unfolding added
  added_outcome events (failed err) x y d s = (
    s.banned,
    s.window,
    s.counted.0,
    s.counted.2,
    omega (arith, s.errors.0),
    omega (arith, s.errors.1),
  )
  added_outcome events (done op) x y d s =
      let now : ℕ = client.now d in
      let banned : (ip : Text)
          → get (ban_all now (ips_of events) y.banned) ip
            ≡ (if mem ip (ips_of events) then some (own_ban now) else get x.banned ip) =
        λ ip.
          get-ban_all now (ips_of events) y.banned ip
          ∙ ap (λ b. if mem ip (ips_of events) then some (own_ban now) else get b ip) s.banned in
      let window : win.mark_batch now (ips_of events) y.window
          ≡ win.mark_batch now (ips_of events) x.window =
        ap (λ w. win.mark_batch now (ips_of events) w) s.window in
      let executed : y.executed + length events ≡ x.executed + length events =
        ap (λ n. n + length events) s.counted.0 in
      elim op
        as (λ o.
          FlushOutcome true (done o) events x
            (added client win cfg events (done o) (record y { device = d }))) [
              | [] ↦ (banned, window, executed, s.pending, s.errors.1)
              | c ∷ r ↦ (banned, window, executed, refl, s.errors.1)
            ]

  pub flush-FlushOutcome :
      (events : List ThreatEvent) (x : Executor D W)
      → is_empty events ≡ false
      → FlushOutcome
          (wait_for_pending_op client win x).0
          (add_answer events x)
          events
          x
          (flush client win cfg events x)
  unfolding flush
  flush-FlushOutcome events x some_left =
      let y = (wait_for_pending_op client win x).1 in
      let s = wait_for_pending_op-Settled client win x in
      let d : D =
        (do_with_retry client win (client.add_items y.list_id (batch_items client win cfg events y))
          y.device).1 in
      rw some_left (elim (Bool-cases (wait_for_pending_op client win x).0) [
        | inl go ↦ rw go (added_outcome events (add_answer events x) x y d s)
        | inr stop ↦
            rw stop
              (s.banned, s.window, s.counted.0, s.counted.2, omega (arith, s.errors.0), s.errors.1)
      ])
