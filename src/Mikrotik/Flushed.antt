-- ===== src/Mikrotik/Flushed.antt =====
-- pkg/executorplugins/mikrotik/executor.go: what a flush leaves.

use mathlib.Core.Path.{subst}
use mathlib.Core.List.{append-nil, append_assoc}
use arxsentinel.Common.{
  ℕ, ◌+◌, ◌-◌, ◌≤◌, ◌≡◌, refl, sym, ap, ◌∙◌, inl, inr, Bool, true, false, Option, none, some, List,
  [], ◌∷◌, ◌++◌, map, arith, if◌then◌else◌, Bool-cases, Option-cases, is_none, length, is_empty,
  length-keep, keep, Text, codes, text_eq,
}
use arxsentinel.Common.Dict.{get, put, get-put}
use arxsentinel.Common.Int.{ℤ}
use arxsentinel.Bans.{Window, ThreatEvent}
use arxsentinel.Mikrotik.{
  Router, Config, Executor, BanRecord, AddressListEntry, not_banned, add_event, add_events, flush,
  comment_of,
}

module _ {D W : Type 0} (router : Router D) (win : Window W) (show_timeout : ℤ → Text)
    (cfg : Config) where
  -- What the device is asked for an event.
  abbrev pub request : ThreatEvent → AddressListEntry
  request ev = record {
    id = [];
    address = ev.ip;
    list = cfg.list_name;
    timeout = show_timeout cfg.ttl;
    comment = codes "sentinel-" ++ cfg.sentinel_id;
  }

  abbrev with_answer : Text → Option Text → List (Text × Text) → List (Text × Text)
  with_answer ip none rest = rest
  with_answer ip (some id) rest = (ip, id) ∷ rest

  -- The addresses that the device adds when it is asked for the events in turn, each with the
  -- identifier that it answers, and the device afterwards.
  abbrev pub accepted : List ThreatEvent → D → List (Text × Text) × D
  accepted [] d = ([], d)
  accepted (ev ∷ evs) d =
      let (answer, after) = router.add (request ev) d in
      let (rest, last) = accepted evs after in (with_answer ev.ip answer rest, last)

  -- The record of an address: of the last time that the device has added it, or the one before.
  abbrev pub last_ban : ℕ → List (Text × Text) → Text → Option BanRecord → Option BanRecord
  last_ban now [] ip before = before
  last_ban now ((j, id) ∷ rest) ip before =
      last_ban now rest ip
        (if text_eq j ip then some (record { id = id; added_at = now }) else before)

  abbrev ips_of : List (Text × Text) → List Text
  ips_of l = map (λ (ip, id). ip) l

  -- What the loop over n events leaves, of which the device adds those of the list.
  abbrev Adds :
      ℕ → ℕ → List Text → Executor D W → List (Text × Text) × D → List Text × Executor D W → Type 0
  Adds now n l y (a, d) (l', z) =
      (l' ≡ l ++ ips_of a)
      × (z.device ≡ d)
      × (z.executed ≡ y.executed + length a)
      × (z.errors + length a ≡ y.errors + n)
      × (z.skipped ≡ y.skipped)
      × (z.window ≡ y.window)
      × ((ip : Text) → get z.banned ip ≡ last_ban now a ip (get y.banned ip))

  add_events-Adds :
      (now : ℕ) (evs : List ThreatEvent) (l : List Text) (y : Executor D W)
      → Adds now
          (length evs)
          l
          y
          (accepted evs y.device)
          (add_events router win show_timeout cfg now evs (l, y))
  unfolding add_events add_event comment_of
  add_events-Adds now [] l y = (sym (append-nil l), refl, omega arith, refl, refl, refl, λ ip. refl)
  add_events-Adds now (ev ∷ evs) l y =
      let after : D = (router.add (request ev) y.device).1 in
      let rest : List (Text × Text) = (accepted evs after).0 in
      elim (Option-cases (router.add (request ev) y.device).0) [
        | inl e ↦
            let failed : Executor D W = record y { device = after; errors = y.errors + 1 } in
            let (added, device, executed, errors, skipped, window, banned) =
              add_events-Adds now evs l failed in
            rw (e, add_events, add_event)
              (added, device, executed, omega (arith, errors), skipped, window, banned)
        | inr (id, e) ↦
            let ban : BanRecord = record { id = id; added_at = now } in
            let done : Executor D W = record y {
              device = after;
              banned = put y.banned ev.ip ban;
              executed = y.executed + 1;
            } in
            let (added, device, executed, errors, skipped, window, banned) =
              add_events-Adds now evs (l ++ (ev.ip ∷ [])) done in
            rw (e, add_events, add_event)
              (
                added ∙ append_assoc l (ev.ip ∷ []) (ips_of rest),
                device,
                omega (arith, executed),
                omega (arith, errors),
                skipped,
                window,
                λ ip. banned ip ∙ ap (last_ban now rest ip) (get-put y.banned ev.ip ban ip),
              )
      ]

  -- What a flush of the events leaves of the executor, by what the device answers for those whose
  -- address is not banned yet.
  abbrev pub Flushed : ℕ → List ThreatEvent → Executor D W → Executor D W → Type 0
  Flushed now evs x y =
      let fresh : List ThreatEvent =
        keep (λ (ev : ThreatEvent). is_none (get x.banned ev.ip)) evs in
      let (added, device) = accepted fresh x.device in
      ((ip : Text) → get y.banned ip ≡ last_ban now added ip (get x.banned ip))
      × (y.window ≡ (
          if is_empty added
          then x.window
          else win.mark_batch now (map (λ (ip, id). ip) added) x.window))
      × (y.device ≡ device)
      × (y.executed ≡ x.executed + length added)
      × (y.errors + length added ≡ x.errors + length fresh)
      × (y.skipped + length fresh ≡ x.skipped + length evs)

  is_empty-ips_of : (a : List (Text × Text)) → is_empty (ips_of a) ≡ is_empty a
  is_empty-ips_of [] = refl
  is_empty-ips_of (c ∷ a) = refl

  -- The last part of flush, on the events that are left of `all`.
  abbrev marked : ℕ → List Text × Executor D W → Executor D W
  marked now (added, y) =
      if is_empty added then y else record y { window = win.mark_batch now added y.window }

  abbrev skips : ℕ → Executor D W → Executor D W
  skips n x = record x { skipped = x.skipped + n }

  -- As Flushed, on the fresh events.
  abbrev Left : ℕ → List ThreatEvent → ℕ → Executor D W → Executor D W → Type 0
  Left now fresh n x y =
      let (added, device) = accepted fresh x.device in
      ((ip : Text) → get y.banned ip ≡ last_ban now added ip (get x.banned ip))
      × (y.window ≡ (
          if is_empty added
          then x.window
          else win.mark_batch now (map (λ (ip, id). ip) added) x.window))
      × (y.device ≡ device)
      × (y.executed ≡ x.executed + length added)
      × (y.errors + length added ≡ x.errors + length fresh)
      × (y.skipped ≡ x.skipped + n)

  marked-Left :
      (now n : ℕ) (fresh : List ThreatEvent) (x : Executor D W)
      → Left now fresh n x
          (marked now (add_events router win show_timeout cfg now fresh ([], skips n x)))
  marked-Left now n fresh x =
      let (l, device, executed, errors, skipped, window, banned) =
        add_events-Adds now fresh [] (skips n x) in
      let a : List (Text × Text) = (accepted fresh x.device).0 in
      let r : List Text × Executor D W =
        add_events router win show_timeout cfg now fresh ([], skips n x) in
      elim (Bool-cases (is_empty a)) [
        | inl e ↦
            let none_added : is_empty r.0 ≡ true = ap is_empty l ∙ is_empty-ips_of a ∙ e in
            rw (none_added, e) (banned, window, device, executed, errors, skipped)
        | inr e ↦
            let some_added : is_empty r.0 ≡ false = ap is_empty l ∙ is_empty-ips_of a ∙ e in
            rw (some_added, e)
              (
                banned,
                ap (λ ips. win.mark_batch now ips r.1.window) l
                    ∙ ap (λ w. win.mark_batch now (ips_of a) w) window,
                device,
                executed,
                errors,
                skipped,
              )
      ]

  nothing_fresh :
      (now n : ℕ) (fresh : List ThreatEvent) (x : Executor D W)
      → (if is_empty fresh
          then skips n x
          else marked now (add_events router win show_timeout cfg now fresh ([], skips n x)))
        ≡ marked now (add_events router win show_timeout cfg now fresh ([], skips n x))
  unfolding add_events
  nothing_fresh now n [] x = refl
  nothing_fresh now n (ev ∷ fresh) x = refl

  -- A flush asks the device once for each event whose address is not banned yet, in their order,
  -- and for nothing else. It bans exactly the addresses that the device adds, under the identifiers
  -- that it answers, and marks these in the deduplication window; every other address keeps its
  -- record, or has none as before, and the window is as it was if the device adds none. What the
  -- device adds is counted as executed, what it refuses as failed, and the other events as skipped.
  pub flush_lem :
      (now : ℕ) (evs : List ThreatEvent) (x : Executor D W)
      → Flushed now evs x (flush router win show_timeout cfg now evs x)
  unfolding flush not_banned
  flush_lem now [] x = (λ ip. refl, refl, refl, omega arith, refl, refl)
  flush_lem now (ev ∷ evs) x =
      let is_fresh : ThreatEvent → Bool = λ e. is_none (get x.banned e.ip) in
      let fresh : List ThreatEvent = keep is_fresh (ev ∷ evs) in
      let fewer : length fresh ≤ length (ev ∷ evs) = length-keep is_fresh (ev ∷ evs) in
      let n : ℕ = length (ev ∷ evs) - length fresh in
      let (banned, window, device, executed, errors, skipped) =
        subst (Left now fresh n x) (sym (nothing_fresh now n fresh x))
          (marked-Left now n fresh x) in
      (banned, window, device, executed, errors, omega (arith, fewer, skipped))
