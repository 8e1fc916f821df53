-- ===== src/Cloudflare/Attempts.antt =====
-- pkg/executorplugins/cloudflare/executor.go: how often doWithRetry calls, and how waitForPendingOp ends.

use arxsentinel.Common.{
  ℕ, zero, suc, ◌+◌, ◌≤◌, ◌<◌, ◌≡◌, refl, ap, ◌∙◌, ◌⊎◌, inl, inr, Bool, true, List, [], ◌∷◌, arith,
  Option-cases, if_elim, is_empty, Text, codes, text_eq, contains,
}
use arxsentinel.Bans.{Window}
use arxsentinel.Cloudflare.{
  Answer, done, failed, CfClient, Executor, default_429_backoff, poll_rounds, poll_delays,
  wait_for_pending_op, retry_rounds, do_with_retry,
}

Answer-cases : (a : Answer) → ((op : Text) × (a ≡ done op)) ⊎ ((err : Text) × (a ≡ failed err))
Answer-cases (done op) = inl (op, refl)
Answer-cases (failed err) = inr (err, refl)

pub empty_eq {ℓ} : {A : Type ℓ} (s : List A) → is_empty s ≡ true → s ≡ []
empty_eq [] h = refl
empty_eq (a ∷ s) h = absurd (ground arith)

module _ {D W : Type 0} (client : CfClient D) (win : Window W) where
  -- Every call is one more in the count, and a wait is none.
  abbrev pub IsCount : (D → Answer × D) → (D → ℕ) → Type 0
  IsCount call count =
      ((d : D) → count (call d).1 ≡ suc (count d))
      × ((t : ℕ) (d : D) → count (client.wait t d).1 ≡ count d)

  -- n calls in a row, from one state to another, are answered 429, and no wait between is cancelled.
  abbrev pub Rejected : (D → Answer × D) → ℕ → D → D → Type 0
  Rejected call zero d e = d ≡ e
  Rejected call (suc n) d e =
      (err : Text) × ((call d).0 ≡ failed err)
      × (contains err (codes "429") ≡ true)
      × ((client.wait default_429_backoff (call d).1).0 ≡ true)
      × Rejected call n (client.wait default_429_backoff (call d).1).1 e

  abbrev Bounded : (D → ℕ) → ℕ → D → Answer × D → Type 0
  Bounded count retries d r = (count d < count r.1) × (count r.1 ≤ suc retries + count d)

  retry_rounds-Bounded :
      (call : D → Answer × D) (count : D → ℕ)
      → IsCount call count
      → (retries : ℕ) (d : D) → Bounded count retries d (retry_rounds client win call retries d)
  unfolding retry_rounds
  retry_rounds-Bounded call count (one, none_more) zero d =
      (omega (arith, one d), omega (arith, one d))
  retry_rounds-Bounded call count (one, none_more) (suc retries) d =
      elim (Answer-cases (call d).0) [
        | inl (op, e) ↦ rw (e, retry_rounds) (omega (arith, one d), omega (arith, one d))
        | inr (err, e) ↦
            let f : D = (client.wait default_429_backoff (call d).1).1 in
            let rest = retry_rounds-Bounded call count (one, none_more) retries f in
            let waited = none_more default_429_backoff (call d).1 in
            rw (e, retry_rounds)
              (if_elim (λ (r : Answer × D). Bounded count (suc retries) d r)
                (contains err (codes "429"))
                (λ limited.
                  if_elim (λ (r : Answer × D). Bounded count (suc retries) d r)
                    (client.wait default_429_backoff (call d).1).0
                    (λ go.
                      (omega (arith, one d, rest.0, waited), omega (arith, one d, rest.1, waited)))
                    (λ stop. (omega (arith, one d, waited), omega (arith, one d, waited))))
                (λ other. (omega (arith, one d), omega (arith, one d))))
      ]

  -- Whatever the API answers, do_with_retry calls it at least once and at most four times.
  pub do_with_retry-bounded :
      (call : D → Answer × D) (count : D → ℕ)
      → IsCount call count
      → (d : D)
      → (count d < count (do_with_retry client win call d).1)
        × (count (do_with_retry client win call d).1 ≤ 4 + count d)
  unfolding do_with_retry
  do_with_retry-bounded call count c d = retry_rounds-Bounded call count c 3 d

  retry_rounds-Rejected :
      (call : D → Answer × D) (n retries : ℕ) (d e : D) (op : Text)
      → n ≤ retries
      → Rejected call n d e
      → (call e).0 ≡ done op
      → retry_rounds client win call retries d ≡ (done op, (call e).1)
  unfolding retry_rounds
  retry_rounds-Rejected call zero zero d e op l same h =
      ap call same ∙ ap (λ (a : Answer). (a, (call e).1)) h
  retry_rounds-Rejected call zero (suc retries) d e op l same h =
      let first : (call d).0 ≡ done op = ap (λ z. (call z).0) same ∙ h in
      rw (first, retry_rounds) (ap (λ z. (done op, (call z).1)) same)
  retry_rounds-Rejected call (suc n) zero d e op l r h = absurd (omega arith)
  retry_rounds-Rejected call (suc n) (suc retries) d e op l (err, f, c, go, r) h =
      rw (f, retry_rounds)
        (rw (c, go)
          (retry_rounds-Rejected call n retries (client.wait default_429_backoff (call d).1).1 e op
            (omega arith) r h))

  -- When the API answers 429 at most three times in a row and then accepts, and no wait between is
  -- cancelled, do_with_retry returns what the accepting call returns.
  pub do_with_retry-Rejected :
      (call : D → Answer × D) (n : ℕ) (d e : D) (op : Text)
      → n ≤ 3
      → Rejected call n d e
      → (call e).0 ≡ done op
      → do_with_retry client win call d ≡ (done op, (call e).1)
  unfolding do_with_retry
  do_with_retry-Rejected call n d e op l r h = retry_rounds-Rejected call n 3 d e op l r h

  -- The second executor has no operation pending and at most one error more, and is otherwise the
  -- first but for what is outside.
  pub record Settled (x y : Executor D W) : Type 0 where
    pub pending : y.pending_op_id ≡ []
    pub banned : y.banned ≡ x.banned
    pub window : y.window ≡ x.window
    pub buffer : y.buffer ≡ x.buffer
    pub counted : (y.executed ≡ x.executed) × (y.skipped ≡ x.skipped) × (y.swept ≡ x.swept)
    pub errors : (x.errors ≤ y.errors) × (y.errors ≤ x.errors + 1)

  cleared : (x : Executor D W) (d : D) → Settled x (record x { device = d; pending_op_id = [] })
  cleared x d = record {
    pending = refl;
    banned = refl;
    window = refl;
    buffer = refl;
    counted = (refl, refl, refl);
    errors = (omega arith, omega arith);
  }

  failure :
      (x : Executor D W) (d : D)
      → Settled x (record x { device = d; pending_op_id = []; errors = x.errors + 1 })
  failure x d = record {
    pending = refl;
    banned = refl;
    window = refl;
    buffer = refl;
    counted = (refl, refl, refl);
    errors = (omega arith, omega arith);
  }

  unchanged : (x : Executor D W) → x.pending_op_id ≡ [] → Settled x x
  unchanged x e = record {
    pending = e;
    banned = refl;
    window = refl;
    buffer = refl;
    counted = (refl, refl, refl);
    errors = (omega arith, omega arith);
  }

  moved :
      (x : Executor D W) (d : D) (y : Executor D W)
      → Settled (record x { device = d }) y
      → Settled x y
  moved x d y s = record {
    pending = s.pending;
    banned = s.banned;
    window = s.window;
    buffer = s.buffer;
    counted = s.counted;
    errors = s.errors;
  }

  poll_rounds-Settled :
      (op : Text) (delays : List ℕ) (x : Executor D W)
      → Settled x (poll_rounds client win op delays x).1
  unfolding poll_rounds
  poll_rounds-Settled op [] x = cleared x x.device
  poll_rounds-Settled op (t ∷ delays) x =
      let d : D = (client.wait t x.device).1 in
      let e : D = (client.poll_bulk_operation op d).1 in
      let rest = poll_rounds-Settled op delays (record x { device = e }) in
      if_elim (λ (r : Bool × Executor D W). Settled x r.1) (client.wait t x.device).0
        (λ go. elim (Option-cases (client.poll_bulk_operation op d).0) [
          | inl f ↦ rw (f, poll_rounds) (moved x e _ rest)
          | inr (s, f) ↦
              rw (f, poll_rounds)
                (if_elim (λ (r : Bool × Executor D W). Settled x r.1)
                  (text_eq s (codes "completed")) (λ completed. cleared x e)
                  (λ other.
                    if_elim (λ (r : Bool × Executor D W). Settled x r.1)
                      (text_eq s (codes "failed")) (λ refused. failure x e)
                      (λ running. moved x e _ rest)))
        ])
        (λ stop. cleared x d)

  -- Whatever the API answers, waitForPendingOp ends with no operation pending; the addresses
  -- banned, the window, the buffer and the other counters are as before, and the errors are at
  -- most one more.
  pub wait_for_pending_op-Settled :
      (x : Executor D W) → Settled x (wait_for_pending_op client win x).1
  unfolding wait_for_pending_op
  wait_for_pending_op-Settled x =
      if_elim (λ (r : Bool × Executor D W). Settled x r.1) (is_empty x.pending_op_id)
        (λ e. unchanged x (empty_eq x.pending_op_id e))
        (λ e. poll_rounds-Settled x.pending_op_id poll_delays x)
