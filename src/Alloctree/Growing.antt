-- ===== src/Alloctree/Growing.antt =====
-- `Alloctree::grow_to` and `allocate_with_growth` (all-is-cubes-gpu/src/common/octree_alloc.rs).
use all_is_cubes.Alloctree.Allocating.{with_child-lem, corner-low}
use all_is_cubes.Alloctree.Whole.{
  IsGiven, allocate-Allocates, Taken, origin, IsSound, Attempt, Allocates,
}
use all_is_cubes.Prelude.Run.{ret}
use all_is_cubes.Math.GridAab.Volume.{cubes}
use all_is_cubes.Alloctree.Occupancy.{Occupied, Deep}
use all_is_cubes.Alloctree.Fitting.{corner}
use all_is_cubes.Math.GridAab.Volume.{IsValid}
use all_is_cubes.Prelude.{
  leb→le, ◌-◌, sym, leb, zero, subst, max, ◌∙◌, false, suc, arith, refl, ap, inl, true, inr, Option,
  Bool-cases, ◌^◌, ◌<◌, none, some, ◌≡◌, ◌+◌, ◌≤◌, ℕ,
}
use all_is_cubes.Math.Vector.{GridPoint, vec, Cube}
use all_is_cubes.Math.GridAab.{GridAab}
use all_is_cubes.Alloctree.{
  max_edge_length_exponent, allocate_with_growth, max_size_exponent, grow_to, grow_by, empty,
  wrap_in_oct, Octant, fits, allocate, TreeAllocated, AlloctreeHandle, Alloctree,
}

-- Growth keeps what was taken and given out, and the volume.
pub record Grown (t u : Alloctree) : Type 0 where
  pub sound : IsSound u
  pub kept : (c : Cube) → Taken t c → Taken u c
  pub only : (c : Cube) → Taken u c → Taken t c
  pub still : (k : GridPoint) (s : ℕ) → IsGiven t k s → IsGiven u k s
  pub counted : u.occupied_volume ≡ t.occupied_volume

abbrev lowest : Octant
lowest = vec false false false

-- One round of the loop, for a tree one larger.
abbrev doubled : Alloctree → ℕ → Alloctree
doubled t e = record t { size_exponent = e; root = wrap_in_oct t.root }

low_child :
    (t : Alloctree) (p : Octant) (c : Cube)
    → p ≡ lowest
    → Occupied t.size_exponent t.root (corner t.size_exponent origin p) c
    → Taken t c
low_child t p c same k =
    let there : Occupied t.size_exponent t.root (corner t.size_exponent origin lowest) c =
      subst (λ q. Occupied t.size_exponent t.root (corner t.size_exponent origin q) c) same k in
    rw (corner-low origin t.size_exponent) at there

doubled-Grown :
    (t : Alloctree)
    → IsSound t
    → suc t.size_exponent ≤ 10
    → Grown t (doubled t (suc t.size_exponent))
unfolding wrap_in_oct
doubled-Grown t s h = record {
  sound = record {
    size_le = h;
    deep = λ p.
        with_child-lem (λ o. empty) lowest p t.root (λ n. Deep t.size_exponent n) (λ same. s.deep)
          (λ other. tt);
  };
  kept = λ c k. (lowest, rw (corner-low origin t.size_exponent) k);
  only = λ c (p, k).
      with_child-lem (λ o. empty) lowest p t.root
        (λ n. Occupied t.size_exponent n (corner t.size_exponent origin p) c → Taken t c)
        (λ same k'. low_child t p c (sym same) k') (λ other k'. absurd k') k;
  still = λ k s i. (lowest, rw (corner-low origin t.size_exponent) i);
  counted = refl;
}

unchanged : (t : Alloctree) → IsSound t → Grown t t
unchanged t s = record {
  sound = s;
  kept = λ c k. k;
  only = λ c k. k;
  still = λ k s i. i;
  counted = refl;
}

Grown-trans : (t u w : Alloctree) → Grown t u → Grown u w → Grown t w
Grown-trans t u w g h = record {
  sound = h.sound;
  kept = λ c k. h.kept c (g.kept c k);
  only = λ c k. g.only c (h.only c k);
  still = λ k s i. h.still k s (g.still k s i);
  counted = h.counted ∙ g.counted;
}

grow_by-Grown :
    (n : ℕ) (t : Alloctree)
    → IsSound t
    → t.size_exponent + n ≤ 10
    → Grown t (grow_by n t) × ((grow_by n t).size_exponent ≡ t.size_exponent + n)
unfolding grow_by
grow_by-Grown zero t s h = (unchanged t s, omega arith)
grow_by-Grown (suc n) t s h =
    let once = doubled-Grown t s (omega arith) in
    let (rest, size) = grow_by-Grown n (doubled t (suc t.size_exponent)) once.sound (omega arith) in
    (Grown-trans _ _ _ once rest, size ∙ omega arith)

-- Growth to a size exponent of at most 10 gives a sound tree of that size, or of the old one where
-- that is larger. Exactly the same cubes are taken, the blocks that were given out still are, and
-- the volume is the same.
pub grow_to-Grown :
    (e : ℕ) (t : Alloctree)
    → IsSound t
    → e ≤ 10
    → (u : Alloctree) × (grow_to e t ≡ ret u)
      × Grown t u
      × (u.size_exponent ≡ max t.size_exponent e)
unfolding grow_to
grow_to-Grown e t s h =
    let (g, size) = grow_by-Grown (e - t.size_exponent) t s (omega (arith, s.size_le)) in
    (grow_by (e - t.size_exponent) t, ground arith, g, size ∙ omega arith)

-- As `Attempt`, but the tree may have grown.
abbrev pub GrownAttempt : GridAab → Alloctree → TreeAllocated → Type 0
GrownAttempt request t (none, u) = Grown t u
GrownAttempt request t (some handle, u) = Allocates request t u handle

after_growth :
    (request : GridAab) (t g : Alloctree) (r : TreeAllocated)
    → Grown t g
    → Attempt request g r
    → GrownAttempt request t r
after_growth request t g (none, u) k same = rw same k
after_growth request t g (some handle, u) k a = record {
  sound = a.sound;
  is_moved = a.is_moved;
  is_valid = a.is_valid;
  exponent = a.exponent;
  given = a.given;
  covers = a.covers;
  in_tree = a.in_tree;
  was_free = λ c i j. a.was_free c i (k.kept c j);
  taken_iff = λ c. (
    λ j. elim ((a.taken_iff c).0 j) [ inl old ↦ inl (k.only c old) | inr new ↦ inr new ],
    λ j. (a.taken_iff c).1 (elim j [ inl old ↦ inl (k.kept c old) | inr new ↦ inr new ]),
  );
  still = λ l s i. a.still l s (k.still l s i);
  counted = a.counted ∙ ap (λ n. n + cubes request.sizes) k.counted;
}

module _ (t : Alloctree) (request : GridAab) (s : IsSound t) (v : IsValid request)
    (room : t.occupied_volume + cubes request.sizes < 2 ^ 64)
    (fit : fits request max_size_exponent ≡ true) where
  abbrev target : ℕ
  target = max t.size_exponent (max_edge_length_exponent request.sizes) + 1

  second_try :
      (found : Option AlloctreeHandle) (u : Alloctree)
      → allocate t request ≡ ret (found, u)
      → Attempt request t (found, u)
      → (r : TreeAllocated) × (allocate_with_growth t request ≡ ret r) × GrownAttempt request t r
  unfolding allocate_with_growth
  second_try (some handle) u run a = ((some handle, u), rw (fit, run) refl, a)
  second_try none u run same = elim (Bool-cases (leb target max_size_exponent)) [
    | inr large ↦ ((none, u), rw (fit, run, large) refl, rw same (unchanged t s))
    | inl small ↦
        let (g, grow, grown, size) = grow_to-Grown target t s (leb→le target 10 small) in
        let (r, again, outcome) =
          allocate-Allocates g request grown.sound v (omega (arith, grown.counted, room)) in
        (
          r,
          rw (fit, run, ap (grow_to target) same ∙ grow, small) again,
          after_growth request t g r grown outcome,
        )
  ]

-- Allocation with growth in a sound tree never panics where the sum of the occupied volume and the
-- volume of the request is a usize. With
-- a handle, the region is the request moved by the offset, and is covered by a block of the tree that
-- is given out now; no cube of the block was taken, and exactly its cubes are taken in addition; the
-- volume has grown by the request's. Without a handle exactly the same cubes are taken, and the
-- volume is the same. In both cases the tree is sound, and what was given out still is.
pub allocate_with_growth-Allocates :
    (t : Alloctree) (request : GridAab)
    → IsSound t
    → IsValid request
    → t.occupied_volume + cubes request.sizes < 2 ^ 64
    → (r : TreeAllocated) × (allocate_with_growth t request ≡ ret r) × GrownAttempt request t r
unfolding allocate_with_growth
allocate_with_growth-Allocates t request s v room =
    elim (Bool-cases (fits request max_size_exponent)) [
      | inr wide ↦ ((none, t), rw wide refl, unchanged t s)
      | inl fit ↦
          let ((found, u), run, outcome) = allocate-Allocates t request s v room in
          second_try t request s v room fit found u run outcome
    ]
