-- ===== src/Space/Transaction/Checking.antt =====
-- `SpaceTransaction::check` (all-is-cubes/src/space/space_txn.rs) against the blocks of the space.
use all_is_cubes.Space.Storage.Set.{site, Site}
use all_is_cubes.Math.GridAab
use all_is_cubes.Space.Palette
use all_is_cubes.Space.Transaction.Cubes.{Keyed}
use all_is_cubes.Math.GridAab.Index.{index_lem, Inside-cases, Inside}
use all_is_cubes.Space.Storage.Soundness.{Shows, IsSound}
use all_is_cubes.Math.Vector.{InRange, Cube}
use all_is_cubes.Space.Transaction.{
  existing_block_not_as_expected, cube_out_of_bounds, is_some, CheckFailure, Change,
  SpaceTransaction, check_change, check,
}
use all_is_cubes.Prelude.Run.{err≢ok, err, ok, ret, Result, Run}
use all_is_cubes.Space.Storage.{State, Optics}
use all_is_cubes.Space.Palette.{Data, Blocks}
use all_is_cubes.Prelude.{
  ◌∙◌, sym, some-eq_some, get_elem?, ◌↔◌, ◌||◌, false, ◌⊎◌, Bool, ℕ, Option, ◌≡◌, refl, arith, some,
  none, [], ◌∷◌, Bool-cases, inl, inr,
}

module _ (B : Blocks) (O : Optics B.Evaluated) where
  open B use {Block, block_eq}

  -- The block that is expected is there, if there is one.
  abbrev pub Expected : State B O → Cube → Option Block → Type 0
  Expected s c none = Unit {0}
  Expected s c (some b) = Shows B O s c b

  -- A change may be made: in the bounds, of the block expected; outside of them, if nothing is
  -- expected or to be conserved.
  abbrev pub Fits : State B O → Cube → Change B → Type 0
  Fits s c t =
      (Inside s.bounds c × Expected s c t.old)
      ⊎ ((¬ Inside s.bounds c) × (t.conserved ≡ false) × (t.old ≡ none))

  abbrev pub AllFit : State B O → SpaceTransaction B → Type 0
  AllFit s [] = Unit {0}
  AllFit s ((c, t) ∷ m) = Fits s c t × AllFit s m

  abbrev Answers : Run (Result CheckFailure (Unit {0})) → Type 0 → Type 0
  Answers run P = (r : Result CheckFailure (Unit {0})) × (run ≡ ret r) × ((r ≡ ok tt) ↔ P)

  -- The block at a cube is the one that is shown.
  Shows-unique :
      (s : State B O) (c : Cube) (b : Block) (n i : ℕ) (d : Data B)
      → GridAab.index s.bounds c ≡ some n
      → get_elem? s.contents n ≡ some i
      → get_elem? s.palette.entries i ≡ some d
      → (Shows B O s c b ↔ (d.block ≡ b))
  Shows-unique s c b n i d e f g = (
    λ (n', i', e', f', (d', g', h)).
        let en : n' ≡ n = some-eq_some (sym e' ∙ e) in
        let ei : i' ≡ i = some-eq_some (sym f' ∙ (rw en f)) in
        let ed : d' ≡ d = some-eq_some (sym g' ∙ (rw ei g)) in rw (← ed) h,
    λ h. (n, i, e, f, (d, g, h)),
  )

  Inside-Answers :
      (s : State B O) (c : Cube) (t : Change B)
      → IsSound B O s
      → InRange c
      → Inside s.bounds c
      → Answers (check_change B O s c t) (Fits s c t)
  unfolding check_change Palette.entry
  Inside-Answers s c t v r i = let (n, o, d, w) = site B O s c v r i in by_old t.old n o d w refl
    where
      by_old :
          (old : Option Block) (n o : ℕ) (d : Data B)
          → Site B O s c n o d
          → t.old ≡ old
          → Answers (check_change B O s c t) (Fits s c t)
      by_old none n o d w e =
          (ok tt, rw (w.at_cube, e, check_change) refl, (λ h. inl (i, rw e tt), λ h. refl))
      by_old (some b) n o d w e = elim (Bool-cases (block_eq.beq d.block b)) [
        | inl same ↦ (
          ok tt,
          rw (w.at_cube, e, w.at_contents, w.at_entry, same, check_change, Palette.entry) refl,
          (
            λ h. inl (
              i,
              rw e (
                  (Shows-unique s c b n o d w.at_cube w.at_contents w.at_entry).1
                    ((block_eq.beq_iff d.block b).0 same)),
            ),
            λ h. refl,
          ),
        )
        | inr other ↦ (
          err existing_block_not_as_expected,
          rw (w.at_cube, e, w.at_contents, w.at_entry, other, check_change, Palette.entry) refl,
          (
            λ h. absurd (err≢ok h),
            λ h. elim h [
              | inl (j, x) ↦
                  let shown : Shows B O s c b = rw e at x in
                  let eq = (Shows-unique s c b n o d w.at_cube w.at_contents w.at_entry).0 shown in
                  cc (other, (block_eq.beq_iff d.block b).1 eq)
              | inr (j, x, y) ↦ absurd (j i)
            ],
          ),
        )
      ]

  outer-Answers :
      (s : State B O) (c : Cube) (t : Change B)
      → IsSound B O s
      → InRange c
      → ¬ Inside s.bounds c
      → Answers (check_change B O s c t) (Fits s c t)
  unfolding check_change
  outer-Answers s c t v r o =
      let e = (index_lem s.bounds c v.valid r).1 o in
      elim (Bool-cases (t.conserved || is_some B t.old)) [
        | inl refused ↦ (
          err cube_out_of_bounds,
          rw (e, refused, check_change) refl,
          (
            λ h. absurd (err≢ok h),
            λ h. elim h [ inl (j, x) ↦ absurd (o j) | inr (j, x, y) ↦ cc (refused, x, y) ],
          ),
        )
        | inr allowed ↦ (
          ok tt,
          rw (e, allowed, check_change) refl,
          (
            λ h.
                inr
                  (o, (free_of t.conserved t.old allowed).0, (free_of t.conserved t.old allowed).1),
            λ h. refl,
          ),
        )
      ]
    where
      free_of :
          (k : Bool) (old : Option Block)
          → (k || is_some B old) ≡ false
          → (k ≡ false) × (old ≡ none)
      free_of k none h = ground arith
      free_of k (some b) h = ground arith

  check_change-Fits :
      (s : State B O) (c : Cube) (t : Change B)
      → IsSound B O s
      → InRange c
      → Answers (check_change B O s c t) (Fits s c t)
  check_change-Fits s c t v r = elim (Inside-cases s.bounds c) [
    | inl i ↦ Inside-Answers s c t v r i
    | inr o ↦ outer-Answers s c t v r o
  ]

  -- On a sound space `check` never panics, and it succeeds exactly if every change may be made: the
  -- cube is in the bounds and has the block that is expected, or it is outside of them, and the
  -- change expects and conserves nothing.
  pub check_iff :
      (s : State B O) (m : SpaceTransaction B)
      → IsSound B O s
      → Keyed B m
      → (r : Result CheckFailure (Unit {0})) × (check B O m s ≡ ret r) × ((r ≡ ok tt) ↔ AllFit s m)
  unfolding check
  check_iff s [] v k = (ok tt, refl, (λ h. tt, λ h. refl))
  check_iff s ((c, t) ∷ m) v k =
      let (r, e, f) = check_change-Fits s c t v k.1 in
      let (q, e', f') = check_iff s m v k.2 in by_first r q e e' f f'
    where
      by_first :
          (r q : Result CheckFailure (Unit {0}))
          → check_change B O s c t ≡ ret r
          → check B O m s ≡ ret q
          → (r ≡ ok tt) ↔ Fits s c t
          → (q ≡ ok tt) ↔ AllFit s m
          → (r : Result CheckFailure (Unit {0})) × (check B O ((c, t) ∷ m) s ≡ ret r)
            × ((r ≡ ok tt) ↔ (Fits s c t × AllFit s m))
      by_first (err x) q e e' f f' =
          (err x, rw (e, check) refl, (λ h. absurd (err≢ok h), λ h. absurd (err≢ok (f.1 h.0))))
      by_first (ok done) q e e' f f' =
          (q, rw (e, check) e', (λ h. (f.0 refl, f'.0 h), λ h. f'.1 h.1))
