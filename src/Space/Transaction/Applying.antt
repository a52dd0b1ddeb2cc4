-- ===== src/Space/Transaction/Applying.antt =====
-- One round of the loop of `SpaceTransaction::commit` (all-is-cubes/src/space/space_txn.rs).
use all_is_cubes.Prelude.Int.{pos}
use all_is_cubes.Space.Storage.SetOutcome.{set_impl-Promise, Promise}
use all_is_cubes.Math.GridAab.Index.{Inside-cases, Inside}
use all_is_cubes.Space.Storage.Soundness.{SameStorage-IsSound, Shows, IsSound}
use all_is_cubes.Space.Storage.Outside.{set_impl_outside, OnEdge}
use all_is_cubes.Prelude.Run.{Run, ◌>>=◌, ret, err, ok, Result}
use all_is_cubes.Space.Transaction.{tolerated, Change, commit_change, SpaceTransaction}
use all_is_cubes.Math.Vector.{vec, eqb_vec_iff, eqb_vec, InRange, Cube}
use all_is_cubes.Space.Storage.{
  too_many_blocks, out_of_bounds, set_impl, Written, SetCubeError, State, Optics,
}
use all_is_cubes.Space.Palette.{Blocks}
use all_is_cubes.Space.Palette
use all_is_cubes.Prelude.{
  true, Bool, length, Option-cases, ◌≤◌, sym, false, ◌⊎◌, ◌≢◌, if◌then◌else◌, Option, ◌≡◌, refl,
  some, none, [], ◌∷◌, Bool-cases, inl, inr,
}

module _ (B : Blocks) (O : Optics B.Evaluated) where
  open B use {Block}

  -- The block that the transaction puts at a cube.
  abbrev pub target : SpaceTransaction B → Cube → Option Block
  target [] d = none
  target ((c, t) ∷ m) d = if eqb_vec c d then t.new else target m d

  -- What a cube is to show: the new block, if it is in the bounds, or what it showed.
  abbrev pub Should : State B O → Option Block → Cube → Block → Type 0
  Should s none d x = Shows B O s d x
  Should s (some b) d x = (b ≡ x) × Inside s.bounds d

  -- `u` is sound, and has the blocks of `s` but for those that `new` gives.
  pub record Applied (s u : State B O) (new : Cube → Option Block) : Type 0 where
    pub sound : IsSound B O u
    pub bounds : u.bounds ≡ s.bounds
    pub shows : (d : Cube) (x : Block) → InRange d → Should s (new d) d x → Shows B O u d x

  -- A change that may be tried: only one that is not conserved may be out of bounds.
  abbrev pub Tried : State B O → SpaceTransaction B → Type 0
  Tried s [] = Unit {0}
  Tried s ((c, t) ∷ m) = (¬ OnEdge c) × (Inside s.bounds c ⊎ (t.conserved ≡ false)) × Tried s m

  -- No cube has a coordinate of the largest `i32`.
  abbrev pub OffEdge : SpaceTransaction B → Type 0
  OffEdge [] = Unit {0}
  OffEdge ((c, t) ∷ m) = (¬ OnEdge c) × OffEdge m

  abbrev pub single : Cube → Option Block → Cube → Option Block
  single c b d = if eqb_vec c d then b else none

  -- What a commit leaves: the changes applied, or a sound space with a full table of blocks.
  abbrev pub Ends :
      State B O → (Cube → Option Block) → State B O → Result SetCubeError (Unit {0}) → Type 0
  Ends s new u (ok done) = Applied s u new
  Ends s new u (err too_many_blocks) =
      IsSound B O u × (Palette.max_index ≤ length u.palette.entries)
  Ends s new u (err (out_of_bounds m k)) = ⊥

  Applied-none : (s : State B O) (c : Cube) → IsSound B O s → Applied s s (single c none)
  Applied-none s c v = record { sound = v; bounds = refl; shows = shows }
    where
      shows : (d : Cube) (x : Block) → InRange d → Should s (single c none d) d x → Shows B O s d x
      shows d x r h = elim (Bool-cases (eqb_vec c d)) [ inl e ↦ rw e at h | inr e ↦ rw e at h ]

  Applied-outside :
      (s : State B O) (c : Cube) (b : Block)
      → IsSound B O s
      → ¬ Inside s.bounds c
      → Applied s s (single c (some b))
  Applied-outside s c b v o = record { sound = v; bounds = refl; shows = shows }
    where
      shows :
          (d : Cube) (x : Block) → InRange d → Should s (single c (some b) d) d x → Shows B O s d x
      shows d x r h = elim (Bool-cases (eqb_vec c d)) [
        | inl e ↦
            let same : c ≡ d = (eqb_vec_iff c d).0 e in
            let in_bounds : (b ≡ x) × Inside s.bounds d = rw e at h in
            absurd (o (rw same in_bounds.1))
        | inr e ↦ rw e at h
      ]

  Applied-shown :
      (s u : State B O) (c : Cube) (b : Block)
      → IsSound B O u
      → u.bounds ≡ s.bounds
      → Shows B O u c b
      → ((d : Cube) (x : Block) → InRange d → d ≢ c → Shows B O s d x → Shows B O u d x)
      → Applied s u (single c (some b))
  Applied-shown s u c b v e shown others = record { sound = v; bounds = e; shows = shows }
    where
      shows :
          (d : Cube) (x : Block) → InRange d → Should s (single c (some b) d) d x → Shows B O u d x
      shows d x r h = elim (Bool-cases (eqb_vec c d)) [
        | inl same ↦
            let cd : c ≡ d = (eqb_vec_iff c d).0 same in
            let bx : (b ≡ x) × Inside s.bounds d = rw same at h in rw (← cd) (rw (← bx.0) shown)
        | inr other ↦
            let old : Shows B O s d x = rw other at h in
            others d x r (λ dc. cc (other, (eqb_vec_iff c d).1 (sym dc))) old
      ]

  set-Ends :
      (ev : Palette.Evaluator B) (s : State B O) (c : Cube) (t : Change B) (b : Block)
      → IsSound B O s
      → InRange c
      → ¬ OnEdge c
      → Inside s.bounds c ⊎ (t.conserved ≡ false)
      → (out : Written B O) × (set_impl B O ev s c b ≡ ret out)
        × Ends s (single c (some b)) out.state (tolerated B O t.conserved out.result)
  set-Ends ev s c t b v r off tried = elim (Inside-cases s.bounds c) [
    | inl i ↦
        let (out, e, p) = set_impl-Promise B O ev s c b v r i in
        (out, e, by_result out.state out.result p)
    | inr o ↦ (
      record {
        state = s;
        result = err (
            out_of_bounds (record { lower_bounds = c; sizes = vec (pos 1) (pos 1) (pos 1) })
              s.bounds);
      },
      set_impl_outside B O ev s c b v.valid r o off,
      elim tried [ inl i ↦ absurd (o i) | inr free ↦ rw free (Applied-outside s c b v o) ],
    )
  ]
    where
      by_result :
          (u : State B O) (r : Result SetCubeError Bool)
          → Promise B O s c b u r
          → Ends s (single c (some b)) u (tolerated B O t.conserved r)
      by_result u (ok true) p = Applied-shown s u c b p.0.sound p.0.bounds p.0.shows p.0.others
      by_result u (ok false) p = rw p.0 (Applied-shown s s c b v refl p.1 (λ d x r ne h. h))
      by_result u (err too_many_blocks) p = (SameStorage-IsSound B O s u p.0 v, rw p.0.palette p.2)
      by_result u (err (out_of_bounds m k)) p = absurd p

  pub commit_change-Ends :
      (ev : Palette.Evaluator B) (s : State B O) (c : Cube) (t : Change B)
      → IsSound B O s
      → InRange c
      → ¬ OnEdge c
      → Inside s.bounds c ⊎ (t.conserved ≡ false)
      → (u : State B O) × (r : Result SetCubeError (Unit {0})) × (commit_change B O ev s c t
          ≡ ret (u, r))
        × Ends s (single c t.new) u r
  unfolding commit_change
  commit_change-Ends ev s c t v r off tried = elim (Option-cases t.new) [
    | inl e ↦ (s, ok tt, rw (e, commit_change) refl, rw e (Applied-none s c v))
    | inr (b, e) ↦
        let (out, f, ends) = set-Ends ev s c t b v r off tried in
        finish b out.state (tolerated B O t.conserved out.result) e (rw f refl) ends
  ]
    where
      settled : Written B O → Run (State B O × Result SetCubeError (Unit {0}))
      settled out = ret (out.state, tolerated B O t.conserved out.result)

      finish :
          (b : Block) (u : State B O) (q : Result SetCubeError (Unit {0}))
          → t.new ≡ some b
          → (set_impl B O ev s c b >>= λ out. settled out) ≡ ret (u, q)
          → Ends s (single c (some b)) u q
          → (u : State B O) × (r : Result SetCubeError (Unit {0})) × (commit_change B O ev s c t
              ≡ ret (u, r))
            × Ends s (single c t.new) u r
      finish b u q e f ends = (u, q, rw (e, commit_change) f, rw e ends)
