-- ===== src/Space/Transaction/Committing.antt =====
-- `SpaceTransaction::commit` (all-is-cubes/src/space/space_txn.rs) over the writes of single cubes.
use all_is_cubes.Space.Transaction.Applying.{
  commit_change-Ends, Should, target, single, Ends, Tried, OffEdge, Applied,
}
use all_is_cubes.Space.Transaction.Cubes.{Keyed}
use all_is_cubes.Space.Transaction.Checking.{check_iff, AllFit}
use all_is_cubes.Space.Storage.Soundness.{IsSound}
use all_is_cubes.Prelude.Run.{ret-eq_ret, Run, ret, err, ok, Result}
use all_is_cubes.Space.Transaction.{
  check, committed, commit_changes, commit, find_cube, Committed, Change, commit_change,
  SpaceTransaction,
}
use all_is_cubes.Math.Vector.{eqb_vec_iff, eqb_vec, InRange, Cube}
use all_is_cubes.Space.Storage.{too_many_blocks, out_of_bounds, SetCubeError, State, Optics}
use all_is_cubes.Space.Palette.{Blocks}
use all_is_cubes.Space.Palette
use all_is_cubes.Prelude.{
  append-nil, append_assoc, ◌++◌, ◌∙◌, true, Bool, length, ◌≤◌, sym, false, if◌then◌else◌, Option,
  ◌≡◌, refl, arith, some, none, List, [], ◌∷◌, Bool-cases, inl, inr,
}

module _ (B : Blocks) (O : Optics B.Evaluated) where
  open B use {Block}

  -- The changes of `m` after those of a cube that it does not hold.
  Applied-then :
      (s u w : State B O) (c : Cube) (t : Change B) (m : SpaceTransaction B)
      → find_cube c m ≡ none
      → Applied B O s u (single B O c t.new)
      → Applied B O u w (target B O m)
      → Applied B O s w (target B O ((c, t) ∷ m))
  unfolding find_cube
  Applied-then s u w c t m absent first rest = record {
    sound = rest.sound;
    bounds = rest.bounds ∙ first.bounds;
    shows = λ d x r h. elim (Bool-cases (eqb_vec c d)) [
      | inl same ↦
          rest.shows d x r (rw (untouched d same) (first.shows d x r (rw same (rw same at h))))
      | inr other ↦ rest.shows d x r (carry d x r other (target B O m d) (rw other at h))
    ];
  }
    where
      target-none : (m : SpaceTransaction B) → find_cube c m ≡ none → target B O m c ≡ none
      target-none [] h = refl
      target-none ((k, v) ∷ m) h = ground (arith, target-none m)

      untouched : (d : Cube) → eqb_vec c d ≡ true → target B O m d ≡ none
      untouched d same = rw (← (eqb_vec_iff c d).0 same) (target-none m absent)

      carry :
          (d : Cube) (x : Block)
          → InRange d
          → eqb_vec c d ≡ false
          → (new : Option Block) → Should B O s new d x
          → Should B O u new d x
      carry d x r other none h = first.shows d x r (rw other h)
      carry d x r other (some b) h = (h.0, rw first.bounds h.1)

  Tried-bounds :
      (s u : State B O) (m : SpaceTransaction B)
      → u.bounds ≡ s.bounds
      → Tried B O s m
      → Tried B O u m
  Tried-bounds s u [] e h = h
  Tried-bounds s u ((c, t) ∷ m) e h = (h.0, rw e h.1, Tried-bounds s u m e h.2)

  -- The cubes that are to be activated, in the order of the keys.
  abbrev pub activated : SpaceTransaction B → List Cube
  activated [] = []
  activated ((c, t) ∷ m) = (if t.activate then c ∷ [] else []) ++ activated m

  -- What the loop of `commit` leaves: every change applied, or a full table in a sound space.
  abbrev pub Finishes :
      State B O
      → SpaceTransaction B
      → List Cube
      → State B O
      → Result SetCubeError (List Cube)
      → Type 0
  Finishes s m acc u (ok cubes) = Applied B O s u (target B O m) × (cubes ≡ acc ++ activated m)
  Finishes s m acc u (err too_many_blocks) =
      IsSound B O u × (Palette.max_index ≤ length u.palette.entries)
  Finishes s m acc u (err (out_of_bounds k l)) = ⊥

  abbrev Finished : State B O → SpaceTransaction B → List Cube → Run (Committed B O) → Type 0
  Finished s m acc run =
      (u : State B O) × (r : Result SetCubeError (List Cube)) × (run ≡ ret (committed B O u r))
      × Finishes s m acc u r

  next_activated :
      (acc : List Cube) (c : Cube) (b : Bool) (rest : List Cube)
      → (if b then acc ++ (c ∷ []) else acc) ++ rest ≡ acc ++ ((if b then c ∷ [] else []) ++ rest)
  next_activated acc c true rest = append_assoc acc (c ∷ []) rest
  next_activated acc c false rest = refl

  commit_changes-Finishes :
      (ev : Palette.Evaluator B) (m : SpaceTransaction B) (s : State B O) (acc : List Cube)
      → IsSound B O s
      → Keyed B m
      → Tried B O s m
      → Finished s m acc (commit_changes B O ev m s acc)
  unfolding commit_changes
  commit_changes-Finishes ev [] s acc v k h = (
    s,
    ok acc,
    refl,
    (record { sound = v; bounds = refl; shows = λ d x r g. g }, sym (append-nil acc)),
  )
  commit_changes-Finishes ev ((c, t) ∷ m) s acc v k h =
      let (u, r, e, ends) = commit_change-Ends B O ev s c t v k.1 h.0 h.1 in
      by_result u r e ends (λ first.
        commit_changes-Finishes ev m u (if t.activate then acc ++ (c ∷ []) else acc) first.sound k.2
          (Tried-bounds s u m first.bounds h.2))
    where
      by_result :
          (u : State B O) (r : Result SetCubeError (Unit {0}))
          → commit_change B O ev s c t ≡ ret (u, r)
          → Ends B O s (single B O c t.new) u r
          → (Applied B O s u (single B O c t.new)
              → Finished u m
                  (if t.activate then acc ++ (c ∷ []) else acc)
                  (commit_changes B O ev m u (if t.activate then acc ++ (c ∷ []) else acc)))
          → Finished s ((c, t) ∷ m) acc (commit_changes B O ev ((c, t) ∷ m) s acc)
      by_result u (err too_many_blocks) e ends rest =
          (u, err too_many_blocks, rw (e, commit_changes) refl, ends)
      by_result u (err (out_of_bounds p q)) e ends rest = absurd ends
      by_result u (ok done) e ends rest =
          let (w, r, f, finishes) = rest ends in
          (w, r, rw (e, commit_changes) f, by_rest w r finishes)
        where
          by_rest :
              (w : State B O) (r : Result SetCubeError (List Cube))
              → Finishes u m (if t.activate then acc ++ (c ∷ []) else acc) w r
              → Finishes s ((c, t) ∷ m) acc w r
          by_rest w (ok cubes) f = (
            Applied-then s u w c t m k.0 ends f.0,
            f.1 ∙ next_activated acc c t.activate (activated m),
          )
          by_rest w (err too_many_blocks) f = f
          by_rest w (err (out_of_bounds p q)) f = f

  AllFit-Tried :
      (s : State B O) (m : SpaceTransaction B) → AllFit B O s m → OffEdge B O m → Tried B O s m
  AllFit-Tried s [] h k = tt
  AllFit-Tried s ((c, t) ∷ m) h k =
      (k.0, elim h.0 [ inl i ↦ inl i.0 | inr o ↦ inr o.1 ], AllFit-Tried s m h.1 k.1)

  -- On a sound space, a transaction of distinct cubes whose check succeeds, and that has no cube with a
  -- coordinate of the largest `i32`, commits without a panic. Either every change is made: the space is sound,
  -- shows the new blocks at their cubes, and all else as before, and the cubes to activate are those
  -- of the transaction, in order; or the table of blocks is full, in a space that is still sound.
  pub commit-Finishes :
      (ev : Palette.Evaluator B) (s : State B O) (m : SpaceTransaction B)
      → IsSound B O s
      → Keyed B m
      → OffEdge B O m
      → check B O m s ≡ ret (ok tt)
      → (u : State B O) × (r : Result SetCubeError (List Cube)) × (commit B O ev m s
          ≡ ret (committed B O u r))
        × Finishes s m [] u r
  unfolding commit
  commit-Finishes ev s m v k off checked =
      let (r, e, f) = check_iff B O s m v k in
      let same : r ≡ ok tt = ret-eq_ret (sym e ∙ checked) in
      commit_changes-Finishes ev m s [] v k (AllFit-Tried s m (f.0 same) off)
