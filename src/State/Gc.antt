-- ===== src/State/Gc.antt =====
-- runGC and GetStats of internal/core/state/tracker.go.

use arxsentinel.Common.{
  ℕ, ◌+◌, ◌-◌, ◌≡◌, refl, ◌∙◌, inl, inr, Bool, true, false, Option, none, some, [], ◌∷◌, arith, ltb,
  if◌then◌else◌, Bool-cases, Text, text_eq, text_eq_iff, text_eq_refl, mem, Distinct,
}
use arxsentinel.Common.Dict.{Dict, get, keys, get-remove, mem-keys}
use arxsentinel.State.{IpState, Tracker, get_state, has, len, sweep_stale, run_gc}
use arxsentinel.State.Tracked.{IsConsistent, forget, forget-IsConsistent, len-forget}

-- Whether a map holds a state of the address that was last seen before the threshold.
abbrev pub is_stale : ℕ → Option IpState → Bool
is_stale threshold none = false
is_stale threshold (some st) = ltb st.last_seen threshold

has_of_state : (k : Text) (st : IpState) (t : Tracker) → get_state k t ≡ some st → has k t ≡ true
unfolding has get_state
has_of_state k st t h = rw h

abbrev Holds : Tracker → Dict IpState → Type 0
Holds t [] = Unit
Holds t ((ip, st) ∷ d) = (get_state ip t ≡ some st) × Holds t d

get_state-forget :
    (k j : Text) (t : Tracker)
    → get_state j (forget k t) ≡ (if text_eq k j then none else get_state j t)
unfolding get_state forget
get_state-forget k j t = get-remove t.states k j

Holds-forget :
    (k : Text) (t : Tracker) (d : Dict IpState)
    → mem k (keys d) ≡ false
    → Holds t d
    → Holds (forget k t) d
unfolding mem keys
Holds-forget k t [] m h = tt
Holds-forget k t ((j, st) ∷ d) m h = (
  ground (arith, get_state-forget k j t, text_eq_iff j k, text_eq_iff k j, h.0),
  Holds-forget k t d (ground arith) h.1,
)

record Swept (threshold : ℕ) (d : Dict IpState) (t : Tracker) (n : ℕ) (r : Tracker × ℕ)
    : Type 0 where
  consistent : IsConsistent r.0
  counted : r.1 + len r.0 ≡ n + len t
  left :
      (k : Text) → get_state k r.0 ≡ (if is_stale threshold (get d k) then none else get_state k t)

module _ (threshold : ℕ) (ip : Text) (st : IpState) (d : Dict IpState) (t : Tracker)
    (fresh : mem ip (keys d) ≡ false) where
  left_old :
      (k : Text)
      → ltb st.last_seen threshold ≡ true
      → (if is_stale threshold (get d k) then none else get_state k (forget ip t))
        ≡ (if is_stale threshold (get ((ip, st) ∷ d) k) then none else get_state k t)
  unfolding get
  left_old k old =
      ground (arith, get_state-forget ip k t, mem-keys d ip, text_eq_iff ip k, old, fresh)

  left_kept :
      (k : Text)
      → ltb st.last_seen threshold ≡ false
      → (if is_stale threshold (get d k) then none else get_state k t)
        ≡ (if is_stale threshold (get ((ip, st) ∷ d) k) then none else get_state k t)
  unfolding get
  left_kept k kept = ground (arith, mem-keys d ip, text_eq_iff ip k, kept, fresh)

  Swept-old :
      (n : ℕ) (r : Tracker × ℕ)
      → IsConsistent t
      → has ip t ≡ true
      → ltb st.last_seen threshold ≡ true
      → Swept threshold d (forget ip t) (n + 1) r
      → Swept threshold ((ip, st) ∷ d) t n r
  Swept-old n r v there old rest = record {
    consistent = rest.consistent;
    counted = omega (arith, rest.counted, len-forget ip t v there);
    left = λ k. rest.left k ∙ left_old k old;
  }

  Swept-kept :
      (n : ℕ) (r : Tracker × ℕ)
      → ltb st.last_seen threshold ≡ false
      → Swept threshold d t n r
      → Swept threshold ((ip, st) ∷ d) t n r
  Swept-kept n r kept rest = record {
    consistent = rest.consistent;
    counted = rest.counted;
    left = λ k. rest.left k ∙ left_kept k kept;
  }

sweep_loop :
    (threshold : ℕ) (d : Dict IpState) (t : Tracker) (n : ℕ)
    → IsConsistent t
    → Distinct (keys d)
    → Holds t d
    → Swept threshold d t n (sweep_stale threshold d t n)
unfolding sweep_stale forget keys get
sweep_loop threshold [] t n v ds h = record { consistent = v; counted = refl; left = λ k. refl }
sweep_loop threshold ((ip, st) ∷ d) t n v ds h =
    let there : has ip t ≡ true = ground (arith, has_of_state ip st t h.0) in
    elim (Bool-cases (ltb st.last_seen threshold)) [
      | inl old ↦ simp old (
          Swept-old threshold ip st d t ds.0 n _ v there old (
            sweep_loop threshold d (forget ip t) (n + 1) (forget-IsConsistent ip t v there) ds.1
              (Holds-forget ip t d ds.0 h.1)))
      | inr kept ↦
          simp kept
            (Swept-kept threshold ip st d t ds.0 n _ kept (sweep_loop threshold d t n v ds.1 h.1))
    ]

Holds-dict :
    (d : Dict IpState) (t : Tracker)
    → Distinct (keys d)
    → ((k : Text) (st : IpState) → get d k ≡ some st → get_state k t ≡ some st)
    → Holds t d
unfolding keys get
Holds-dict [] t ds h = tt
Holds-dict ((ip, st) ∷ d) t ds h = (
  h ip st (ground (arith, text_eq_refl ip)),
  Holds-dict d t ds.1 (λ k u e. h k u (ground (arith, e, ds.0, mem-keys d ip, text_eq_iff ip k))),
)

-- One collection at `now` leaves exactly the addresses seen no earlier than now - retention,
-- each with its own state; it keeps the map and the list consistent, and the numbers that it
-- returns are the addresses removed and those left.
pub run_gc_lem :
    (now : ℕ) (t : Tracker)
    → IsConsistent t
    → IsConsistent (run_gc now t).0
      × ((k : Text)
          → get_state k (run_gc now t).0
            ≡ (if is_stale (now - t.retention) (get_state k t) then none else get_state k t))
      × ((run_gc now t).1 + (run_gc now t).2 ≡ len t)
      × ((run_gc now t).2 ≡ len (run_gc now t).0)
unfolding run_gc
run_gc_lem now t v =
    let swept =
      sweep_loop (now - t.retention) t.states t 0 v v.keys_distinct
        (Holds-dict t.states t v.keys_distinct (λ k st e. unfold get_state in e)) in
    let counts : (run_gc now t).1 + len (run_gc now t).0 ≡ 0 + len t = swept.counted in
    (
      swept.consistent,
      (λ k. swept.left k ∙ (unfold get_state in refl)),
      (unfold len in omega (arith, counts)),
      (unfold len in refl),
    )
