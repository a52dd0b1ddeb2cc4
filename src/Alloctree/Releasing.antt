-- ===== src/Alloctree/Releasing.antt =====
-- `Alloctree::free` (all-is-cubes-gpu/src/common/octree_alloc.rs) on a whole tree, and after an allocation.
use all_is_cubes.Alloctree.Freeing.{node_free-Frees}
use all_is_cubes.Math.GridAab.Volume.{cubes}
use all_is_cubes.Math.GridAab.Volume.{IsValid}
use all_is_cubes.Math.GridAab.{GridAab}
use all_is_cubes.Alloctree.Whole.{
  volume-ret, Attempt, origin-CornerAt, Allocates, origin, allocate-Allocates, IsGiven, Taken,
  IsSound,
}
use all_is_cubes.Prelude.Run.{ret-eq_ret, ret}
use all_is_cubes.Alloctree.Occupancy.{InBlock}
use all_is_cubes.Prelude.Int.{int_cases, pos, eq_of_parts, ◌-ℤ◌, ℤ}
use all_is_cubes.Math.Vector.{vec_eq, sub_vec, Cube, GridPoint}
use all_is_cubes.Prelude.{
  le→leb, inr, inl, some, sym, subst, refl, ◌≢◌, ◌-◌, ◌^◌, ◌+◌, ◌↔◌, ap, ◌∙◌, arith, ◌≡◌, ◌≤◌, ◌<◌,
  ℕ,
}
use all_is_cubes.Alloctree.{free, allocate, AlloctreeHandle, Alloctree, node_free}

-- The tree after a block was given back.
pub record Released (t u : Alloctree) (k : GridPoint) (s : ℕ) (n : ℕ) : Type 0 where
  pub sound : IsSound u
  pub taken_iff : (c : Cube) → Taken u c ↔ (Taken t c × (¬ InBlock s k c))
  pub still : (l : GridPoint) (r : ℕ) → l ≢ k → IsGiven t l r → IsGiven u l r
  pub counted : u.occupied_volume + n ≡ t.occupied_volume

-- Freeing a region whose lower corner is that of a block that was given out, and whose volume is
-- within the occupied volume, does not panic. The tree is sound; exactly the cubes of the block are
-- no longer taken; the other blocks that were given out still are; and the volume has shrunk by the
-- region's.
pub free-Released :
    (t : Alloctree) (handle : AlloctreeHandle) (s : ℕ)
    → IsSound t
    → IsValid handle.allocation
    → IsGiven t handle.allocation.lower_bounds s
    → cubes handle.allocation.sizes ≤ t.occupied_volume
    → (u : Alloctree) × (free t handle ≡ ret u)
      × Released t u handle.allocation.lower_bounds s (cubes handle.allocation.sizes)
unfolding free
free-Released t handle s v w given enough =
    let k = handle.allocation.lower_bounds in
    let n = cubes handle.allocation.sizes in
    let (root, run, freed) =
      node_free-Frees t.size_exponent t.root origin k s v.size_le v.deep
        (origin-CornerAt t.size_exponent v.size_le) given in
    let at_origin : sub_vec k origin ≡ k = vec_eq (minus_zero _) (minus_zero _) (minus_zero _) in
    (
      record t { root = root; occupied_volume = t.occupied_volume - n },
      rw
          (
            ap (λ p. node_free t.size_exponent t.root p) (sym at_origin) ∙ run,
            volume-ret handle.allocation w,
            le→leb n t.occupied_volume enough,
          )
          refl,
      record {
        sound = record { size_le = v.size_le; deep = freed.deep };
        taken_iff = freed.taken_iff;
        still = freed.others;
        counted = omega arith;
      },
    )
  where
    minus_zero : (l : ℤ) → l -ℤ pos 0 ≡ l
    minus_zero l = eq_of_parts _ _ (omega int_cases)

-- Freeing what was just allocated in a sound tree, where the sum of the occupied volume and the
-- volume of the request is a usize, does not panic: exactly the same cubes are taken as before the
-- allocation, with the same volume, and the tree is sound.
pub allocate-free :
    (t u : Alloctree) (request : GridAab) (handle : AlloctreeHandle)
    → IsSound t
    → IsValid request
    → t.occupied_volume + cubes request.sizes < 2 ^ 64
    → allocate t request ≡ ret (some handle, u)
    → (w : Alloctree) × (free u handle ≡ ret w)
      × IsSound w
      × ((c : Cube) → Taken w c ↔ Taken t c)
      × (w.occupied_volume ≡ t.occupied_volume)
allocate-free t u request handle s v room run =
    let (r, again, outcome) = allocate-Allocates t request s v room in
    let a : Allocates request t u handle =
      subst (Attempt request t) (ret-eq_ret (sym again ∙ run)) outcome in
    let same_size : cubes handle.allocation.sizes ≡ cubes request.sizes =
      ap (λ b. cubes b.sizes) a.is_moved in
    let (w, freed, released) =
      free-Released u handle a.exponent a.sound a.is_valid a.given (omega (arith, a.counted)) in
    (
      w,
      freed,
      released.sound,
      (λ c. (
        λ j.
            let (was, out) = (released.taken_iff c).0 j in
            elim ((a.taken_iff c).0 was) [ inl old ↦ old | inr new ↦ absurd (out new) ],
        λ j. (released.taken_iff c).1 ((a.taken_iff c).1 (inl j), λ i. a.was_free c i j),
      )),
      omega (arith, released.counted, a.counted),
    )
