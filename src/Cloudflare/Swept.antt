-- ===== src/Cloudflare/Swept.antt =====
-- pkg/executorplugins/cloudflare/executor.go: what a sweep leaves, by what the API answers.

use arxsentinel.Common.{
  ℕ, ◌+◌, ◌≤◌, ◌≡◌, refl, ap, inl, inr, Bool, true, false, List, [], ◌∷◌, map, Bool-cases, length,
  Text,
}
use arxsentinel.Common.Dict.{Dict, get}
use arxsentinel.Bans.{Window}
use arxsentinel.Bans.Removed.{dropped, keeps}
use arxsentinel.Cloudflare.{Answer, done, failed, CfClient, Config, BanRecord, Executor}
use arxsentinel.Cloudflare.Runs.{ExpiredEntry, is_expired, collect_expired}
use arxsentinel.Cloudflare.Flushed.{Untouched}

module _ {D W : Type 0} (client : CfClient D) (win : Window W) (cfg : Config) where
  pub expired_ips :
      (now : ℕ) (d : Dict BanRecord)
      → map (λ (e : ExpiredEntry). e.ip) (collect_expired client win cfg now d)
        ≡ dropped (is_expired client win cfg now) d
  unfolding collect_expired
  expired_ips now [] = refl
  expired_ips now ((ip, rec) ∷ d) = elim (Bool-cases (is_expired client win cfg now rec)) [
    | inl e ↦ rw (e, collect_expired) (ap (λ l. ip ∷ l) (expired_ips now d))
    | inr e ↦ rw (e, collect_expired) (expired_ips now d)
  ]

  -- By whether the wait for the operation before was cancelled, and by the answer.
  abbrev pub SweepOutcome : Bool → Answer → List ExpiredEntry → Executor D W → Executor D W → Type 0
  SweepOutcome false answer expired x y = Untouched client win cfg 0 1 x y
  SweepOutcome true (failed err) expired x y =
      Untouched client win cfg (length expired) (length expired + 1) x y
  SweepOutcome true (done op) expired x y =
      ((ip : Text)
        → get y.banned ip
          ≡ keeps (is_expired client win cfg (client.now x.device)) (get x.banned ip))
      × (y.window ≡ x.window)
      × (y.swept ≡ x.swept + length expired)
      × (y.pending_op_id ≡ op)
      × (y.errors ≤ x.errors + 1)
