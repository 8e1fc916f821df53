-- ===== src/Blocklist/Merged.antt =====
-- internal/core/blocklist/manager.go: what a refresh makes of the patterns of its sources.

use arxsentinel.Common.{
  ◌≡◌, refl, ◌∙◌, inl, inr, Bool, true, false, not, ◌||◌, Option, none, some, List, [], ◌∷◌, ◌++◌,
  arith, if◌then◌else◌, Bool-cases, if_elim, is_empty, Text, text_eq, text_eq_iff, text_eq_refl,
  mem, Distinct, mem-append,
}
use arxsentinel.Common.Dict.{get, get-put, Distinct-snoc}
use arxsentinel.Blocklist.Lists.{
  SourceConfig, ListConfig, Automata, Bolt, Fetch, Manager, Merge, add_patterns, source_patterns,
  merge_source, merge_sources, save_to_bolt, set_matcher, fetch_and_update,
}

add_patterns-mem :
    (p : Text) (all ps : List Text) → mem p (add_patterns all ps) ≡ (mem p all || mem p ps)
unfolding add_patterns mem
add_patterns-mem p all [] = ground arith
add_patterns-mem p all (q ∷ ps) = elim (Bool-cases (mem q all)) [
  | inl old ↦ rw (old, add_patterns-mem p all ps) (ground (arith, text_eq_iff q p))
  | inr new ↦
      rw (new, add_patterns-mem p (all ++ (q ∷ [])) ps, mem-append p all (q ∷ [])) (ground arith)
]

add_patterns-Distinct : (all ps : List Text) → Distinct all → Distinct (add_patterns all ps)
unfolding add_patterns
add_patterns-Distinct all [] h = h
add_patterns-Distinct all (q ∷ ps) h =
    add_patterns-Distinct (if mem q all then all else all ++ (q ∷ [])) ps
      (if_elim Distinct (mem q all) (λ old. h) (λ new. Distinct-snoc q all h new))

-- A list with the elements of one that is not empty is not empty.
pub not_empty :
    (xs ys : List Text)
    → ((p : Text) → mem p xs ≡ mem p ys)
    → is_empty ys ≡ false
    → is_empty xs ≡ false
unfolding mem
not_empty [] [] h e = e
not_empty [] (y ∷ ys) h e = absurd (ground (arith, h y, text_eq_refl y))
not_empty (x ∷ xs) ys h e = refl

any_loaded :
    (ps more : List Text) (loaded : Bool)
    → ((if is_empty ps then loaded else true) || not (is_empty more))
      ≡ (loaded || not (is_empty (ps ++ more)))
any_loaded [] more loaded = refl
any_loaded (p ∷ ps) more loaded = ground arith

module _ {M S N : Type 0} (other : Text → Text) (automata : Automata M) (bolt : Bolt S)
    (fetch : Fetch N) where
  abbrev pub with_rest : Option (List Text) → List Text → List Text
  with_rest none more = more
  with_rest (some ps) more = ps ++ more

  -- What the sources give, one after the other, in one list.
  abbrev pub given : List SourceConfig → N → List Text
  given [] n = []
  given (src ∷ rest) n =
      let (patterns, n') = source_patterns other automata bolt fetch src n in
      with_rest patterns (given rest n')

  -- A merge of what was merged before and of some patterns.
  abbrev IsMerge : Merge → List Text → Merge → Type 0
  IsMerge before patterns after =
      ((p : Text) → mem p after.0 ≡ (mem p before.0 || mem p patterns))
      × (after.1 ≡ (before.1 || not (is_empty patterns)))
      × (Distinct before.0 → Distinct after.0)

  merge_source-IsMerge :
      (o : Option (List Text)) (r after : Merge) (more : List Text)
      → IsMerge (merge_source other automata bolt fetch o r) more after
      → IsMerge r (with_rest o more) after
  unfolding merge_source
  merge_source-IsMerge none r after more h = h
  merge_source-IsMerge (some ps) (all, loaded) after more (found, any, once) = (
    λ p. found p ∙ ground (arith, add_patterns-mem p all ps, mem-append p ps more),
    any ∙ any_loaded ps more loaded,
    λ h. once (add_patterns-Distinct all ps h),
  )

  merge_sources-IsMerge :
      (sources : List SourceConfig) (r : Merge) (n : N)
      → IsMerge r (given sources n) (merge_sources other automata bolt fetch sources r n).0
  unfolding merge_sources mem
  merge_sources-IsMerge [] (all, loaded) n = (λ p. ground arith, ground arith, λ h. h)
  merge_sources-IsMerge (src ∷ rest) r n =
      let (o, n') = source_patterns other automata bolt fetch src n in
      merge_source-IsMerge o r _ (given rest n')
        (merge_sources-IsMerge rest (merge_source other automata bolt fetch o r) n')

  -- A manager before and after a refresh of a list whose sources give some patterns.
  abbrev pub Refreshed : ListConfig → List Text → Manager M S → Manager M S → Type 0
  Refreshed cfg patterns m m' =
      (is_empty patterns ≡ true → m' ≡ m)
      × (is_empty patterns ≡ false
          → (all : List Text) × Distinct all
            × ((p : Text) → mem p all ≡ mem p patterns)
            × (get m'.lists cfg.name ≡ some (some (automata.compile_strings all)))
            × (m'.db ≡ save_to_bolt other automata bolt fetch cfg.name all m.db)
            × ((name : Text)
                → text_eq cfg.name name ≡ false
                → get m'.lists name ≡ get m.lists name))

  -- A refresh whose sources give no pattern changes nothing. Otherwise the list has the automaton
  -- of some patterns, which are stored, are those that the sources give, and of which each occurs
  -- once; the other lists are as before.
  pub fetch_and_update-Refreshed :
      (cfg : ListConfig) (m : Manager M S) (n : N)
      → Refreshed cfg (given cfg.sources n) m (fetch_and_update other automata bolt fetch cfg m n).0
  unfolding fetch_and_update set_matcher
  fetch_and_update-Refreshed cfg m n =
      let (found, any, once) = merge_sources-IsMerge cfg.sources ([], false) n in
      let all : List Text =
        (merge_sources other automata bolt fetch cfg.sources ([], false) n).0.0 in
      let same : (p : Text) → mem p all ≡ mem p (given cfg.sources n) =
        λ p. found p ∙ (unfold mem in refl) in
      (
        λ none_given. rw (any, none_given) refl,
        λ some_given.
            let full : is_empty all ≡ false = not_empty all (given cfg.sources n) same some_given in
            rw (any, some_given, full)
              (
                all,
                once tt,
                same,
                get-put m.lists cfg.name _ cfg.name ∙ rw (text_eq_refl cfg.name) refl,
                refl,
                λ name off. get-put m.lists cfg.name _ name ∙ rw off refl,
              ),
      )
