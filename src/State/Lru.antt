-- ===== src/State/Lru.antt =====
-- Update of internal/core/state/tracker.go: its order of eviction, its bound, and what it leaves.

use Prim.Native.Nat.{max}
use arxsentinel.Common.{
  suc, ◌≤◌, ◌<◌, ◌≡◌, refl, ap, ◌∙◌, inl, inr, true, false, not, ◌&&◌, none, some, List, [], ◌∷◌,
  arith, leb, if◌then◌else◌, Bool-cases, Option-cases, length, Text, text_eq, text_eq_iff,
  text_eq_refl, mem, erase, Distinct, erase_absent,
}
use arxsentinel.Common.Dict.{put, get-put, get-remove, length-put}
use arxsentinel.Event.{LogEntry}
use arxsentinel.State.{
  IpState, Tracker, new_state, observe, back, evict_lru, admit, store, update, get_state, has, len,
}
use arxsentinel.State.Tracked.{
  IsConsistent, back-mem, back-none, evict_lru-IsConsistent, len-evict_lru, push_new,
  push_new-IsConsistent, to_front, to_front-IsConsistent, store-IsConsistent,
}

-- The tracker that a new address enters.
unfoldable pub room_for_new : Tracker → Tracker
room_for_new t = if leb t.max_ips (len t) then evict_lru t else t

module _ (e : LogEntry) (t : Tracker) where
  admit_new :
      has e.real_ip t ≡ false
      → admit e t ≡ (
        push_new e.real_ip (new_state e.real_ip e.time) (room_for_new t),
        new_state e.real_ip e.time,
      )
  unfolding admit has push_new room_for_new len
  admit_new h = ground arith

  admit_old :
      (st : IpState) → get_state e.real_ip t ≡ some st → admit e t ≡ (to_front e.real_ip t, st)
  unfolding admit get_state to_front
  admit_old st h = rw (h, admit)

  has-room : (k : Text) → has k t ≡ false → has k (room_for_new t) ≡ false
  unfolding has room_for_new evict_lru
  has-room k h = elim (Option-cases (back t.lru)) [
    | inl empty ↦ ground arith
    | inr (j, b) ↦ ground (arith, get-remove t.states j k)
  ]

  room_for_new-IsConsistent : IsConsistent t → IsConsistent (room_for_new t)
  unfolding room_for_new
  room_for_new-IsConsistent v = elim (Bool-cases (leb t.max_ips (len t))) [
    | inl full ↦ rw full (evict_lru-IsConsistent t v)
    | inr free ↦ rw free v
  ]

  len-room : IsConsistent t → len t ≤ max 1 t.max_ips → len (room_for_new t) < max 1 t.max_ips
  unfolding room_for_new
  len-room v h = elim (Bool-cases (leb t.max_ips (len t))) [
    | inl full ↦ rw full (omega (arith, len-evict_lru t v))
    | inr free ↦ rw free (ground arith)
  ]

has-push_new : (k : Text) (st : IpState) (t : Tracker) → has k (push_new k st t) ≡ true
unfolding has push_new
has-push_new k st t = ground (arith, get-put t.states k st k, text_eq_refl k)

has-to_front : (k : Text) (t : Tracker) → has k (to_front k t) ≡ has k t
unfolding has to_front
has-to_front k t = refl

len-store : (k : Text) (st : IpState) (t : Tracker) → has k t ≡ true → len (store k st t) ≡ len t
unfolding len store has
len-store k st t h = ground (arith, length-put t.states k st)

len-push_new :
    (k : Text) (st : IpState) (t : Tracker) → has k t ≡ false → len (push_new k st t) ≡ suc (len t)
unfolding len push_new has
len-push_new k st t h = ground (arith, length-put t.states k st)

-- The state that Update works on: the one of the address, or a new one.
unfoldable pub base_state : LogEntry → Tracker → IpState
base_state e t = elim (get_state e.real_ip t) [ none ↦ new_state e.real_ip e.time | some st ↦ st ]

module _ (e : LogEntry) (t : Tracker) where
  update_new :
      has e.real_ip t ≡ false
      → (update e t).0
        ≡ store e.real_ip
            (observe t.rate_window e (new_state e.real_ip e.time))
            (push_new e.real_ip (new_state e.real_ip e.time) (room_for_new t))
  unfolding update
  update_new h = rw (admit_new e t h)

  update_old :
      (st : IpState)
      → get_state e.real_ip t ≡ some st
      → (update e t).0 ≡ store e.real_ip (observe t.rate_window e st) (to_front e.real_ip t)
  unfolding update
  update_old st h = rw (admit_old e t st h)

  has_of_state : (st : IpState) → get_state e.real_ip t ≡ some st → has e.real_ip t ≡ true
  unfolding get_state has
  has_of_state st h = rw h

  has_of_none : get_state e.real_ip t ≡ none → has e.real_ip t ≡ false
  unfolding get_state has
  has_of_none h = rw h

  -- Update keeps the map and the list on the same addresses, each once, whether the address is
  -- known, new with room left, or new with the tracker full.
  pub update-IsConsistent : IsConsistent t → IsConsistent (update e t).0
  update-IsConsistent v = elim (Option-cases (get_state e.real_ip t)) [
    | inl absent ↦
        let new = has-room e t e.real_ip (has_of_none absent) in
        rw (update_new (has_of_none absent)) (
          store-IsConsistent e.real_ip _ _ (has-push_new e.real_ip _ (room_for_new t)) (
            push_new-IsConsistent e.real_ip _ (room_for_new t) new
              (room_for_new-IsConsistent e t v)))
    | inr (st, known) ↦ rw (update_old st known) (
        store-IsConsistent e.real_ip _ _ (has-to_front e.real_ip t ∙ has_of_state st known)
          (to_front-IsConsistent e.real_ip t (has_of_state st known) v))
  ]

  -- Update never holds more than max_tracked_ips addresses (one, if that is 0): it evicts before
  -- it adds.
  pub update_bounded :
      IsConsistent t → len t ≤ max 1 t.max_ips → len (update e t).0 ≤ max 1 t.max_ips
  update_bounded v h = elim (Option-cases (get_state e.real_ip t)) [
    | inl absent ↦
        let new = has-room e t e.real_ip (has_of_none absent) in
        rw (update_new (has_of_none absent)) (
          omega (
            arith,
            len-room e t v h,
            len-push_new e.real_ip (new_state e.real_ip e.time) (room_for_new t) new,
            len-store e.real_ip (observe t.rate_window e (new_state e.real_ip e.time)) _
                (has-push_new e.real_ip (new_state e.real_ip e.time) (room_for_new t)),
          ))
    | inr (st, known) ↦ rw (update_old st known) (
        rw
          (len-store e.real_ip (observe t.rate_window e st) _
            (has-to_front e.real_ip t ∙ has_of_state st known))
          (unfold len to_front in h))
  ]

-- All elements but the last.
unfoldable pub but_last : List Text → List Text
but_last [] = []
but_last (x ∷ []) = []
but_last (x ∷ y ∷ xs) = x ∷ but_last (y ∷ xs)

pub erase-back :
    (xs : List Text) (k : Text) → Distinct xs → back xs ≡ some k → erase k xs ≡ but_last xs
unfolding erase back but_last
erase-back [] k d h = refl
erase-back (x ∷ []) k d h = ground (arith, text_eq_iff x k)
erase-back (x ∷ y ∷ xs) k d h =
    ground (arith, erase-back (y ∷ xs) k d.1, back-mem (y ∷ xs) k, text_eq_iff x k)

module _ (e : LogEntry) (t : Tracker) where
  room-lru :
      IsConsistent t
      → (room_for_new t).lru ≡ (if leb t.max_ips (len t) then but_last t.lru else t.lru)
  unfolding room_for_new evict_lru but_last
  room-lru v = elim (Option-cases (back t.lru)) [
    | inl empty ↦ ground (arith, back-none t.lru empty, but_last_empty t.lru)
    | inr (k, b) ↦ ground (arith, erase-back t.lru k v.lru_distinct b)
  ]
    where
      but_last_empty : (xs : List Text) → length xs ≡ 0 → but_last xs ≡ xs
      but_last_empty [] h = refl
      but_last_empty (x ∷ xs) h = absurd (omega arith)

  -- The list after Update: the address of the entry in front, then the others in their order. A
  -- new address that finds the tracker full drops the last of the list, the least recently used
  -- address, and nothing else drops any.
  pub update-lru :
      IsConsistent t
      → (update e t).0.lru
        ≡ e.real_ip
          ∷ (if not (has e.real_ip t) && leb t.max_ips (len t)
              then but_last t.lru
              else erase e.real_ip t.lru)
  update-lru v = elim (Option-cases (get_state e.real_ip t)) [
    | inl absent ↦
        let new = has_of_none e t absent in
        let out : mem e.real_ip t.lru ≡ false = v.same e.real_ip ∙ (unfold has in new) in
        rw (update_new e t new, new, erase_absent e.real_ip t.lru out)
          (unfold store push_new in ap (λ l. e.real_ip ∷ l) (room-lru v))
    | inr (st, known) ↦
        rw (update_old e t st known, has_of_state e t st known) (unfold store to_front in refl)
  ]

  -- The map after Update, by the parts of it.
  pub states_after :
      (j : Text)
      → get_state j (update e t).0 ≡ (
          if text_eq e.real_ip j
          then some (observe t.rate_window e (base_state e t))
          else get_state j (if has e.real_ip t then t else room_for_new t))
  states_after j = elim (Option-cases (get_state e.real_ip t)) [
    | inl absent ↦
        rw (update_new e t (has_of_none e t absent), has_of_none e t absent)
          (unfold base_state in
            rw (absent, base_state)
              (unfold get_state store push_new in
                ground (
                  arith,
                  get-put (room_for_new t).states e.real_ip (new_state e.real_ip e.time) j,
                  get-put (put (room_for_new t).states e.real_ip (new_state e.real_ip e.time))
                      e.real_ip (observe t.rate_window e (new_state e.real_ip e.time)) j,
                )))
    | inr (st, known) ↦
        rw (update_old e t st known, has_of_state e t st known)
          (unfold base_state in
            rw (known, base_state)
              (unfold get_state store to_front in
                ground (arith, get-put t.states e.real_ip (observe t.rate_window e st) j)))
  ]
