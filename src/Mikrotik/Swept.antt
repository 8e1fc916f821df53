-- ===== src/Mikrotik/Swept.antt =====
-- pkg/executorplugins/mikrotik/executor.go: what a sweep leaves.

use arxsentinel.Common.{
  ℕ, ◌+◌, ◌≡◌, Bool, not, ◌&&◌, none, List, [], ◌∷◌, ◌++◌, map, ltb, if◌then◌else◌, Text, mem, keep,
  length, is_empty,
}
use arxsentinel.Common.Dict.{Dict, get}
use arxsentinel.Common.Int.{ℤ, pos_part, neg_part}
use arxsentinel.Bans.{Window}
use arxsentinel.Mikrotik.{Router, Config, BanRecord, ExpiredEntry, Executor}

module _ {D W : Type 0} (router : Router D) (win : Window W) (show_timeout : ℤ → Text)
    (cfg : Config) where
  -- A ban with an entry on the device whose time, with the TTL added, is past.
  abbrev pub is_outdated : ℕ → BanRecord → Bool
  is_outdated now r =
      not (is_empty r.id) && ltb (r.added_at + pos_part cfg.ttl) (now + neg_part cfg.ttl)

  -- The identifiers and addresses of these bans.
  abbrev pub outdated : ℕ → Dict BanRecord → List (Text × Text)
  outdated now d = map (λ (ip, r). (r.id, ip)) (keep (λ (ip, r). is_outdated now r) d)

  -- The addresses whose entry the device deletes when it is asked for them in turn, and the device
  -- afterwards.
  abbrev pub deletions : List (Text × Text) → D → List Text × D
  deletions [] d = ([], d)
  deletions ((id, ip) ∷ rest) d =
      let (ok, after) = router.delete id d in
      let (done, last) = deletions rest after in (if ok then ip ∷ done else done, last)

  abbrev pair : ExpiredEntry → Text × Text
  pair e = (e.id, e.ip)

  -- What the loop over n entries leaves, of which the device deletes those of the list.
  abbrev Deletes : ℕ → List Text → Executor D W → List Text × D → List Text × Executor D W → Type 0
  Deletes n l y (done, d) (l', z) =
      (l' ≡ l ++ done)
      × (z.device ≡ d)
      × (z.banned ≡ y.banned)
      × (z.window ≡ y.window)
      × (z.swept ≡ y.swept)
      × (z.errors + length done ≡ y.errors + n)

  -- What a sweep leaves of the executor, by what the device answers for the outdated bans.
  abbrev pub Swept : ℕ → Executor D W → Executor D W → Type 0
  Swept now x y =
      let (done, device) = deletions (outdated now x.banned) x.device in
      ((ip : Text) → get y.banned ip ≡ (if mem ip done then none else get x.banned ip))
      × (y.device ≡ device)
      × (y.window ≡ x.window)
      × (y.swept ≡ x.swept + length done)
      × (y.errors + length done ≡ x.errors + length (outdated now x.banned))
