-- ===== src/State/Paths.antt =====
-- The ring buffer of internal/core/state/tracker.go against the list of all paths seen.

use mathlib.Core.Bool.{false≢true}
use mathlib.Core.List.{append-nil, append_assoc}
use arxsentinel.Common.{
  ℕ, suc, ◌+◌, ◌%◌, ◌≤◌, ◌<◌, ◌≡◌, refl, sym, ap, ◌∙◌, inl, inr, true, false, List, [], ◌∷◌, ◌++◌,
  arith, ltb, ◌==◌, Bool-cases, tests, length, take, drop, set, length-append, Text,
}
use arxsentinel.Common.Int.{ℤ}
use arxsentinel.Event.{LogEntry}
use arxsentinel.State.{
  IpState, new_state, rebuild, recent_paths, write_path, count_request, observe, set_score,
}
use arxsentinel.Common.{
  length-set, take-set, drop-set, drop-drop_append, drop_all, take_all, length-replicate, last_n,
  last_n-snoc_short, last_n-snoc_full,
}

-- What the pipeline does to the state of an address: a log line, a read by a detector, a score.
pub data Use : Type 0 where
  line : LogEntry → Use
  read : Use
  scored : ℤ → ℕ → Use

unfoldable pub apply_use : ℕ → Use → IpState → IpState
apply_use w (line e) s = observe w e s
apply_use w read s = (recent_paths s).1
apply_use w (scored v at) s = set_score v at s

unfoldable pub apply_uses : ℕ → List Use → IpState → IpState
apply_uses w [] s = s
apply_uses w (u ∷ us) s = apply_uses w us (apply_use w u s)

-- The paths of the log lines among them, oldest first.
unfoldable pub paths_of : List Use → List Text
paths_of [] = []
paths_of (line e ∷ us) = e.path ∷ paths_of us
paths_of (_ ∷ us) = paths_of us

record Shows (h : List Text) (s : IpState) : Type 0 where
  sized : length s.path_buf ≡ 64
  in_range : s.path_pos < 64
  shown : rebuild s ≡ last_n 64 h
  partial : s.path_full ≡ false → s.path_pos ≡ length h
  filled : s.path_full ≡ true → 64 ≤ length h
  cached : s.path_dirty ≡ false → s.path_cache ≡ rebuild s

-- A write to the last cell.
set_end :
    (xs : List Text) (i : ℕ) (v : Text)
    → suc i ≡ length xs
    → set xs i v ++ [] ≡ take i xs ++ (v ∷ [])
set_end xs i v h =
    append-nil (set xs i v)
    ∙ sym (take_all (suc i) (set xs i v) (omega (arith, length-set xs i v)))
    ∙ take-set xs i v (omega arith)

module _ (s : IpState) (p : Text) (sized : length s.path_buf ≡ 64) (range : s.path_pos < 64) where
  rebuild_partial : s.path_full ≡ false → rebuild (write_path p s) ≡ rebuild s ++ (p ∷ [])
  unfolding rebuild write_path
  rebuild_partial part = elim (Bool-cases (ltb (suc s.path_pos) 64)) [
    | inl inside ↦
        let next : (s.path_pos + 1) % 64 ≡ suc s.path_pos = omega tests in
        let more : (suc s.path_pos == 0) ≡ false = ground arith in
        rw (next, part, more) (take-set s.path_buf s.path_pos p (omega arith))
    | inr wrap ↦
        let next : (s.path_pos + 1) % 64 ≡ 0 = ground arith in
        rw (next, part) (set_end s.path_buf s.path_pos p (ground arith))
  ]

  rebuild_full : s.path_full ≡ true → rebuild (write_path p s) ≡ drop 1 (rebuild s) ++ (p ∷ [])
  unfolding rebuild write_path
  rebuild_full full = elim (Bool-cases (ltb (suc s.path_pos) 64)) [
    | inl inside ↦
        let next : (s.path_pos + 1) % 64 ≡ suc s.path_pos = omega tests in
        rw (next, full, drop-set s.path_buf s.path_pos p)
          (rw (
            take-set s.path_buf s.path_pos p (omega arith),
            drop-drop_append s.path_buf (take s.path_pos s.path_buf) s.path_pos (omega arith),
            append_assoc,
          ))
    | inr wrap ↦
        let next : (s.path_pos + 1) % 64 ≡ 0 = ground arith in
        rw (next, full)
          (rw
            (
              drop-drop_append s.path_buf (take s.path_pos s.path_buf) s.path_pos (omega arith),
              drop_all (suc s.path_pos) s.path_buf (ground arith),
            )
            (set_end s.path_buf s.path_pos p (ground arith)))
  ]

  Shows-write : (h : List Text) → Shows h s → Shows (h ++ (p ∷ [])) (write_path p s)
  Shows-write h v = record {
    sized = unfold write_path in (length-set s.path_buf s.path_pos p ∙ v.sized);
    in_range = unfold write_path in (omega arith);
    shown = elim (Bool-cases s.path_full) [
      | inl full ↦
          rebuild_full full
          ∙ ap (λ l. drop 1 l ++ (p ∷ [])) v.shown
          ∙ sym (last_n-snoc_full 64 h p (omega arith) (v.filled full))
      | inr part ↦
          rebuild_partial part
          ∙ ap (λ l. l ++ (p ∷ [])) v.shown
          ∙ sym (last_n-snoc_short 64 h p (omega (arith, v.partial part)))
    ];
    partial = unfold write_path in ground (arith, length-append h (p ∷ []), v.partial, v.filled);
    filled = unfold write_path in ground (arith, length-append h (p ∷ []), v.partial, v.filled);
    cached = unfold write_path in ground arith;
  }

Shows-new : (ip : Text) (at : ℕ) → Shows [] (new_state ip at)
Shows-new ip at =
    unfold new_state rebuild in
    record {
      sized = length-replicate {A = Text} 64 [];
      in_range = omega arith;
      shown = refl;
      partial = λ e. refl;
      filled = λ e. absurd (false≢true e);
      cached = λ e. refl;
    }

-- The fields of the ring buffer are all that `Shows` reads.
Shows-same :
    (h : List Text) (s t : IpState)
    → t.path_buf ≡ s.path_buf
    → t.path_pos ≡ s.path_pos
    → t.path_full ≡ s.path_full
    → t.path_dirty ≡ s.path_dirty
    → t.path_cache ≡ s.path_cache
    → Shows h s
    → Shows h t
unfolding rebuild
Shows-same h s t b p f d c v = record {
  sized = rw b v.sized;
  in_range = rw p v.in_range;
  shown = rw (b, p, f) v.shown;
  partial = rw (p, f) v.partial;
  filled = rw f v.filled;
  cached = rw (b, p, f, d, c) v.cached;
}

Shows-observe :
    (w : ℕ) (e : LogEntry) (h : List Text) (s : IpState)
    → Shows h s
    → Shows (h ++ (e.path ∷ [])) (observe w e s)
Shows-observe w e h s v =
    let counted : Shows h (count_request e s) =
      unfold count_request in Shows-same h s _ refl refl refl refl refl v in
    let written = Shows-write (count_request e s) e.path counted.sized counted.in_range h counted in
    unfold observe in
    Shows-same (h ++ (e.path ∷ [])) (write_path e.path (count_request e s)) _ (ground arith)
      (ground arith) (ground arith) (ground arith) (ground arith) written

Shows-read : (h : List Text) (s : IpState) → Shows h s → Shows h (recent_paths s).1
Shows-read h s v = elim (Bool-cases s.path_dirty) [
  | inl dirty ↦
      unfold recent_paths rebuild in
      rw dirty (record {
        sized = v.sized;
        in_range = v.in_range;
        shown = v.shown;
        partial = v.partial;
        filled = v.filled;
        cached = λ e. refl;
      })
  | inr clean ↦ unfold recent_paths in simp clean v
]

shown_by : (h : List Text) (s : IpState) → Shows h s → (recent_paths s).0 ≡ last_n 64 h
unfolding recent_paths
shown_by h s v = ground (arith, v.shown, v.cached)

Shows-use :
    (w : ℕ) (u : Use) (h : List Text) (s : IpState)
    → Shows h s
    → Shows (h ++ paths_of (u ∷ [])) (apply_use w u s)
unfolding apply_use paths_of
Shows-use w (line e) h s v = Shows-observe w e h s v
Shows-use w read h s v = rw append-nil (Shows-read h s v)
Shows-use w (scored a at) h s v =
    rw append-nil (unfold set_score in Shows-same h s _ refl refl refl refl refl v)

paths_of-cons : (u : Use) (us : List Use) → paths_of (u ∷ us) ≡ paths_of (u ∷ []) ++ paths_of us
unfolding paths_of
paths_of-cons (line e) us = refl
paths_of-cons _ us = refl

Shows-uses :
    (w : ℕ) (us : List Use) (h : List Text) (s : IpState)
    → Shows h s
    → Shows (h ++ paths_of us) (apply_uses w us s)
unfolding apply_uses
Shows-uses w [] h s v = unfold paths_of in rw append-nil v
Shows-uses w (u ∷ us) h s v =
    rw (paths_of-cons u us, ← append_assoc)
      (Shows-uses w us (h ++ paths_of (u ∷ [])) (apply_use w u s) (Shows-use w u h s v))

-- After any log lines, detector reads and score writes from a new state, in any order,
-- RecentPaths returns the paths of the last 64 log lines (of all, if there were fewer), oldest
-- first.
pub recent_paths-last_n :
    (w : ℕ) (us : List Use) (ip : Text) (at : ℕ)
    → (recent_paths (apply_uses w us (new_state ip at))).0 ≡ last_n 64 (paths_of us)
recent_paths-last_n w us ip at =
    shown_by (paths_of us) _ (Shows-uses w us [] (new_state ip at) (Shows-new ip at))
