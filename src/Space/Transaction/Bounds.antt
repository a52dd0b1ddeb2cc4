-- ===== src/Space/Transaction/Bounds.antt =====
-- all-is-cubes/src/space/space_txn.rs: `SpaceTransaction::bounds_only_cubes`, and that it is the least
-- box of the cubes.
use all_is_cubes.Prelude.Int.{int_laws, pos}
use all_is_cubes.Math.GridAab.Union.{Encloses-trans, union-ok, Encloses_refl, Encloses}
use all_is_cubes.Prelude.Run.{ret, Run, ◌>>=◌, expect}
use all_is_cubes.Prelude.{refl, arith, some, ◌≡◌, ◌↔◌, none, Option}
use all_is_cubes.Math.GridAab.Index.{Inside}
use all_is_cubes.Space.Transaction.{SpaceTransaction}
use all_is_cubes.Math.Vector.{GridVector, vec, Cube}
use all_is_cubes.Math.GridAab.{from_lower_size, single_cube, GridAab}
use all_is_cubes.Space.Palette.{Blocks}
use all_is_cubes.Math.GridAab.Operations
use all_is_cubes.Math.GridAab.Volume.{checked_from_lower_size_iff, IsValid}
use all_is_cubes.Prelude.{[], ◌∷◌}

module _ (B : Blocks) where
  -- The loop over the keys.
  unfoldable pub bounds_from : Option GridAab → SpaceTransaction B → Run (Option GridAab)
  unfolding single_cube Operations.union
  bounds_from bounds [] = ret bounds
  bounds_from none ((c, t) ∷ m) = do b ← single_cube c; bounds_from (some b) m
  bounds_from (some b) ((c, t) ∷ m) = do
    s ← single_cube c
    r ← Operations.union b s
    u ← expect r
    bounds_from (some u) m

  unfoldable pub bounds_only_cubes : SpaceTransaction B → Run (Option GridAab)
  unfolding bounds_from
  bounds_only_cubes m = bounds_from none m

  -- Every cube of the transaction is in the box.
  abbrev pub AllInside : GridAab → SpaceTransaction B → Type 0
  AllInside w [] = Unit {0}
  AllInside w ((c, t) ∷ m) = Inside w c × AllInside w m

  abbrev unit_box : Cube → GridAab
  unit_box c = record { lower_bounds = c; sizes = vec (pos 1) (pos 1) (pos 1) }

  -- What the loop returns, from a box that it has: the least box that encloses it and the cubes.
  pub record Bounds (b u : GridAab) (m : SpaceTransaction B) : Type 0 where
    pub valid : IsValid u
    pub before : Encloses u b
    pub cubes_inside : AllInside u m
    pub least : (w : GridAab) → Encloses w b → AllInside w m → Encloses w u

  Inside-Encloses : (w : GridAab) (c : Cube) → Inside w c ↔ Encloses w (unit_box c)
  Inside-Encloses w c = (
    λ h. (omega int_laws, omega int_laws, omega int_laws),
    λ h. (omega int_laws, omega int_laws, omega int_laws),
  )

  unit_box-IsValid : (w : GridAab) (c : Cube) → IsValid w → Inside w c → IsValid (unit_box c)
  unit_box-IsValid w c v i =
      let (lx, ly, lz) = v.lower_in in
      let (sx, sy, sz) = v.sizes_in in
      let x = v.x_axis in
      let y = v.y_axis in
      let z = v.z_axis in
      record {
        lower_in = (omega int_laws, omega int_laws, omega int_laws);
        sizes_in = omega arith;
        x_axis = omega int_laws;
        y_axis = omega int_laws;
        z_axis = omega int_laws;
        volume_lt = omega arith;
      }

  single_cube-ret : (c : Cube) → IsValid (unit_box c) → single_cube c ≡ ret (unit_box c)
  unfolding single_cube from_lower_size
  single_cube-ret c v =
      let one : GridVector = vec (pos 1) (pos 1) (pos 1) in
      rw ((checked_from_lower_size_iff c one (unit_box c) v.lower_in v.sizes_in).1 (refl, v)) refl

  bounds_from-Bounds :
      (w b : GridAab) (m : SpaceTransaction B)
      → IsValid w
      → IsValid b
      → Encloses w b
      → AllInside w m
      → (u : GridAab) × (bounds_from (some b) m ≡ ret (some u)) × Bounds b u m
  unfolding bounds_from
  bounds_from-Bounds w b [] v x h i = (
    b,
    refl,
    record { valid = x; before = Encloses_refl b; cubes_inside = tt; least = λ k g j. g },
  )
  bounds_from-Bounds w b ((c, t) ∷ m) v x h i =
      let one = unit_box-IsValid w c v i.0 in
      let (n, made, hull) = union-ok b (unit_box c) w x one v h ((Inside-Encloses w c).0 i.0) in
      let (u, run, r) =
        bounds_from-Bounds w n m v hull.valid (hull.least w h ((Inside-Encloses w c).0 i.0)) i.1 in
      (
        u,
        rw (single_cube-ret c one, made) run,
        record {
          valid = r.valid;
          before = Encloses-trans u n b r.before hull.left;
          cubes_inside = (
            (Inside-Encloses u c).1 (Encloses-trans u n (unit_box c) r.before hull.right),
            r.cubes_inside,
          );
          least = λ k g j. r.least k (hull.least k g ((Inside-Encloses k c).0 j.0)) j.1;
        },
      )

  -- The least box of the cubes; none only without any.
  abbrev pub IsLeast : SpaceTransaction B → Option GridAab → Type 0
  IsLeast m none = m ≡ []
  IsLeast m (some u) = IsValid u × AllInside u m × ((w : GridAab) → AllInside w m → Encloses w u)

  -- If the cubes of a transaction are all in some valid box, `bounds_only_cubes` does not panic: it
  -- returns a valid box that holds the cubes and that every such box encloses, or `None` if there is no
  -- cube.
  pub bounds_only_cubes-IsLeast :
      (w : GridAab) (m : SpaceTransaction B)
      → IsValid w
      → AllInside w m
      → (r : Option GridAab) × (bounds_only_cubes m ≡ ret r) × IsLeast m r
  unfolding bounds_only_cubes bounds_from
  bounds_only_cubes-IsLeast w [] v i = (none, refl, refl)
  bounds_only_cubes-IsLeast w ((c, t) ∷ m) v i =
      let one = unit_box-IsValid w c v i.0 in
      let (u, run, r) =
        bounds_from-Bounds w (unit_box c) m v one ((Inside-Encloses w c).0 i.0) i.1 in
      (
        some u,
        rw (single_cube-ret c one) run,
        (
          r.valid,
          ((Inside-Encloses u c).1 r.before, r.cubes_inside),
          λ k j. r.least k ((Inside-Encloses k c).0 j.0) j.1,
        ),
      )
