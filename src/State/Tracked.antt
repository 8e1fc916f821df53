-- ===== src/State/Tracked.antt =====
-- The map and the list of internal/core/state/tracker.go: what every operation keeps.

use arxsentinel.Common.{
  suc, ◌-◌, ◌≡◌, refl, sym, ◌∙◌, inl, inr, true, false, none, some, List, [], ◌∷◌, arith,
  Option-cases, is_some, length, Text, text_eq_iff, text_eq_refl, mem, erase, Distinct, mem-erase,
  erase-Distinct, length-erase-mem,
}
use arxsentinel.Common.Dict.{
  get, put, remove, keys, get-put, get-remove, keys-remove, length-put, length-remove, put-Distinct,
}
use arxsentinel.State.{IpState, Tracker, back, evict_lru, store, has, len}

-- The list and the map hold the same addresses, each once.
pub record IsConsistent (t : Tracker) : Type 0 where
  pub lru_distinct : Distinct t.lru
  pub keys_distinct : Distinct (keys t.states)
  pub same : (k : Text) → mem k t.lru ≡ is_some (get t.states k)
  pub sizes : length t.lru ≡ length t.states

pub back-mem : (xs : List Text) (k : Text) → back xs ≡ some k → mem k xs ≡ true
unfolding back mem
back-mem [] k h = absurd (ground arith)
back-mem (x ∷ []) k h = ground (arith, text_eq_iff x k)
back-mem (x ∷ y ∷ xs) k h = ground (arith, back-mem (y ∷ xs) k)

pub back-none : (xs : List Text) → back xs ≡ none → length xs ≡ 0
unfolding back
back-none [] h = refl
back-none (x ∷ []) h = absurd (ground arith)
back-none (x ∷ y ∷ xs) h = absurd (ground (arith, back-none (y ∷ xs)))

-- Taking one address out of the map and the list.
unfoldable pub forget : Text → Tracker → Tracker
forget ip t = record t { states = remove t.states ip; lru = erase ip t.lru }

module _ (k : Text) (t : Tracker) (v : IsConsistent t) where
  pub forget-IsConsistent : has k t ≡ true → IsConsistent (forget k t)
  unfolding has forget
  forget-IsConsistent h = record {
    lru_distinct = erase-Distinct k t.lru v.lru_distinct;
    keys_distinct = rw keys-remove (erase-Distinct k (keys t.states) v.keys_distinct);
    same = λ j. rw (mem-erase k j t.lru, get-remove t.states k j) (ground (arith, v.same j));
    sizes = omega (
      arith,
      v.sizes,
      length-erase-mem k t.lru v.lru_distinct (v.same k ∙ h),
      length-remove t.states k v.keys_distinct h,
    );
  }

  pub len-forget : has k t ≡ true → suc (len (forget k t)) ≡ len t
  unfolding has forget len
  len-forget h = length-remove t.states k v.keys_distinct h

module _ (t : Tracker) (v : IsConsistent t) where
  back-has : (k : Text) → back t.lru ≡ some k → has k t ≡ true
  unfolding has
  back-has k e = sym (v.same k) ∙ back-mem t.lru k e

  pub evict_lru-IsConsistent : IsConsistent (evict_lru t)
  unfolding evict_lru forget
  evict_lru-IsConsistent = elim (Option-cases (back t.lru)) [
    | inl empty ↦ rw (empty, evict_lru) v
    | inr (k, e) ↦ rw (e, evict_lru) (forget-IsConsistent k t v (back-has k e))
  ]

  pub len-evict_lru : len (evict_lru t) ≡ len t - 1
  unfolding evict_lru forget
  len-evict_lru = elim (Option-cases (back t.lru)) [
    | inl empty ↦
        rw (empty, evict_lru) (unfold len in omega (arith, v.sizes, back-none t.lru empty))
    | inr (k, e) ↦ rw (e, evict_lru) (omega (arith, len-forget k t v (back-has k e)))
  ]

-- A new address in front.
unfoldable pub push_new : Text → IpState → Tracker → Tracker
push_new k st t = record t { states = put t.states k st; lru = k ∷ t.lru }

pub push_new-IsConsistent :
    (k : Text) (st : IpState) (t : Tracker)
    → has k t ≡ false
    → IsConsistent t
    → IsConsistent (push_new k st t)
unfolding push_new has
push_new-IsConsistent k st t h v = record {
  lru_distinct = (v.same k ∙ h, v.lru_distinct);
  keys_distinct = put-Distinct t.states k st v.keys_distinct;
  same = λ j. rw (get-put t.states k st j) (unfold mem in ground (arith, v.same j));
  sizes = ground (arith, v.sizes, length-put t.states k st);
}

-- The address of a state that is there moves to the front.
unfoldable pub to_front : Text → Tracker → Tracker
to_front k t = record t { lru = k ∷ erase k t.lru }

pub to_front-IsConsistent :
    (k : Text) (t : Tracker) → has k t ≡ true → IsConsistent t → IsConsistent (to_front k t)
unfolding to_front has
to_front-IsConsistent k t h v = record {
  lru_distinct =
      (ground (arith, mem-erase k k t.lru, text_eq_refl k), erase-Distinct k t.lru v.lru_distinct);
  keys_distinct = v.keys_distinct;
  same = λ j.
      unfold mem in
      rw (mem-erase k j t.lru) (ground (arith, v.same j, v.same k, h, text_eq_iff k j));
  sizes = omega (arith, v.sizes, length-erase-mem k t.lru v.lru_distinct (v.same k ∙ h));
}

pub store-IsConsistent :
    (k : Text) (st : IpState) (t : Tracker)
    → has k t ≡ true
    → IsConsistent t
    → IsConsistent (store k st t)
unfolding store has
store-IsConsistent k st t h v = record {
  lru_distinct = v.lru_distinct;
  keys_distinct = put-Distinct t.states k st v.keys_distinct;
  same = λ j. rw (get-put t.states k st j) (ground (arith, v.same j, v.same k, h, text_eq_iff k j));
  sizes = ground (arith, v.sizes, length-put t.states k st, h);
}
