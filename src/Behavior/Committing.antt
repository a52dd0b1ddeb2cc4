-- ===== src/Behavior/Committing.antt =====
-- `BehaviorSetTransaction::commit` (all-is-cubes/src/behavior.rs): what the set holds afterwards.
use all_is_cubes.Prelude.{
  ℕ, ◌<◌, ◌≡◌, refl, ◌∙◌, Option, none, some, [], ◌∷◌, ◌++◌, get_elem?, set, length, length-set,
  get_elem?-set, lt-get_elem?, lt→ltb, arith,
}
use all_is_cubes.Prelude.Run.{ret, ok}
use all_is_cubes.Prelude.Slots.{find_slot, Ascending, find_slot_above}
use all_is_cubes.Behavior.{
  Hosts, Replace, BehaviorSet, BehaviorSetEntry, BehaviorSetTransaction, commit_entries, commit,
  check,
}
use all_is_cubes.Behavior.Checking.{Replacements, AllExpected, check_iff}

module _ (H : Hosts) where
  abbrev pub InSet : BehaviorSet H → Replacements H → Type 0
  InSet s [] = Unit
  InSet s ((i, r) ∷ m) = (i < length s) × InSet s m

  pub AllExpected-InSet : (s : BehaviorSet H) (m : Replacements H) → AllExpected H s m → InSet s m
  AllExpected-InSet s [] h = tt
  AllExpected-InSet s ((i, r) ∷ m) h = (lt-get_elem? s i h.0, AllExpected-InSet s m h.1)

  pub InSet-mono :
      (s u : BehaviorSet H) (m : Replacements H)
      → ((i : ℕ) → i < length s → i < length u)
      → InSet s m
      → InSet u m
  InSet-mono s u [] le h = tt
  InSet-mono s u ((i, r) ∷ m) le h = (le i h.0, InSet-mono s u m le h.1)

  -- The entry at an index after the replacements.
  abbrev pub entry_after :
      Option (Replace (BehaviorSetEntry H))
      → Option (BehaviorSetEntry H)
      → Option (BehaviorSetEntry H)
  entry_after none e = e
  entry_after (some r) e = some r.new

  pub record Replaced (s : BehaviorSet H) (m : Replacements H) (u : BehaviorSet H) : Type 0 where
    pub same_length : length u ≡ length s
    pub entries : (j : ℕ) → get_elem? u j ≡ entry_after (find_slot j m) (get_elem? s j)

  pub commit_entries-Replaced :
      (s : BehaviorSet H) (m : Replacements H)
      → InSet s m
      → Ascending m
      → (u : BehaviorSet H) × (commit_entries H m s ≡ ret u) × Replaced s m u
  unfolding commit_entries find_slot
  commit_entries-Replaced s [] h a = (s, refl, record { same_length = refl; entries = λ j. refl })
  commit_entries-Replaced s ((i, r) ∷ m) h a =
      let s' = set s i r.new in
      let (u, e, p) =
        commit_entries-Replaced s' m (InSet-mono s s' m (λ k l. rw (length-set s i r.new) l) h.1)
          a.1 in
      (
        u,
        rw (lt→ltb i (length s) h.0) e,
        record {
          same_length = p.same_length ∙ length-set s i r.new;
          entries = λ j.
              p.entries j
              ∙ ground (
                arith,
                get_elem?-set s i r.new j,
                find_slot_above i m a.0,
                lt→ltb i (length s) h.0,
              );
        },
      )

  -- A transaction that checks is committed without a panic: the entry at each index that it
  -- replaces is the new one, every other entry is what it was, and the inserted entries follow.
  pub commit-Replaced :
      (t : BehaviorSetTransaction H) (s : BehaviorSet H)
      → Ascending t.replace
      → check H t s ≡ ok tt
      → (u : BehaviorSet H) × (commit H t s ≡ ret (u ++ t.insert)) × Replaced s t.replace u
  unfolding commit
  commit-Replaced t s a h =
      let (u, e, p) =
        commit_entries-Replaced s t.replace (AllExpected-InSet s t.replace ((check_iff H t s).0 h))
          a in
      (u, rw (e, commit) refl, p)
