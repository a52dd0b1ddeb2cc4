-- ===== src/Alloctree/Occupancy.antt =====
-- The cubes that a node of an `Alloctree` (all-is-cubes-gpu/src/common/octree_alloc.rs) has given out.
-- A full node counts as a whole.
use all_is_cubes.Math.GridAab.Index.{Between}
use all_is_cubes.Alloctree.Fitting.{
  pow_pos, pow_suc, shift, corner-CornerAt, corner, CornerAt, LowAt,
}
use all_is_cubes.Prelude.Int.{int_cases, ◌+ℤ◌, pos, ℤ}
use all_is_cubes.Math.Vector.{vec_eq, Cube, GridPoint}
use all_is_cubes.Prelude.{subst, refl, zero, false, ◌^◌, arith, ◌↔◌, true, suc, ◌≡◌, ℕ, Bool}
use all_is_cubes.Alloctree.{full, empty, oct, eqb_bool, Octant, AlloctreeNode, eqb_octant}

abbrev pub InBlock : ℕ → GridPoint → Cube → Type 0
InBlock e low c =
    Between low.x (pos (2 ^ e)) c.x
    × Between low.y (pos (2 ^ e)) c.y
    × Between low.z (pos (2 ^ e)) c.z

abbrev pub Occupied : ℕ → AlloctreeNode → GridPoint → Cube → Type 0
Occupied e empty low c = ⊥
Occupied e full low c = InBlock e low c
Occupied zero (oct children) low c = ⊥
Occupied (suc e) (oct children) low c = (o : Octant) × Occupied e (children o) (corner e low o) c

-- No node below the size of a cube is divided.
abbrev pub Deep : ℕ → AlloctreeNode → Type 0
Deep e empty = Unit {0}
Deep e full = Unit {0}
Deep zero (oct children) = ⊥
Deep (suc e) (oct children) = (o : Octant) → Deep e (children o)

axis_grow :
    (e : ℕ) (l c : ℤ) (b : Bool)
    → LowAt (suc e) l
    → Between (l +ℤ shift e b) (pos (2 ^ e)) c
    → Between l (pos (2 ^ suc e)) c
axis_grow e l c true h k = omega (int_cases, pow_suc e)
axis_grow e l c false h k = omega (int_cases, pow_suc e)

pub InBlock-corner :
    (e : ℕ) (low : GridPoint) (o : Octant) (c : Cube)
    → CornerAt (suc e) low
    → InBlock e (corner e low o) c
    → InBlock (suc e) low c
InBlock-corner e low o c h k =
    (axis_grow e _ _ o.x h.0 k.0, axis_grow e _ _ o.y h.1 k.1, axis_grow e _ _ o.z h.2 k.2)

axis_apart :
    (e : ℕ) (l c : ℤ) (a b : Bool)
    → LowAt (suc e) l
    → Between (l +ℤ shift e a) (pos (2 ^ e)) c
    → Between (l +ℤ shift e b) (pos (2 ^ e)) c
    → a ≡ b
axis_apart e l c true true h j k = refl
axis_apart e l c true false h j k = absurd (omega int_cases)
axis_apart e l c false true h j k = absurd (omega int_cases)
axis_apart e l c false false h j k = refl

-- A cube is in one child at most.
pub octant_unique :
    (e : ℕ) (low : GridPoint) (o p : Octant) (c : Cube)
    → CornerAt (suc e) low
    → InBlock e (corner e low o) c
    → InBlock e (corner e low p) c
    → o ≡ p
octant_unique e low o p c h j k =
    let x = axis_apart e _ _ o.x p.x h.0 j.0 k.0 in
    let y = axis_apart e _ _ o.y p.y h.1 j.1 k.1 in
    let z = axis_apart e _ _ o.z p.z h.2 j.2 k.2 in vec_eq x y z

pub Occupied-InBlock :
    (e : ℕ) (n : AlloctreeNode) (low : GridPoint) (c : Cube)
    → CornerAt e low
    → Occupied e n low c
    → InBlock e low c
Occupied-InBlock e empty low c h k = absurd k
Occupied-InBlock e full low c h k = k
Occupied-InBlock zero (oct children) low c h k = absurd k
Occupied-InBlock (suc e) (oct children) low c h (o, k) =
    InBlock-corner e low o c h (Occupied-InBlock e (children o) _ c (corner-CornerAt e low o h) k)

eqb_bool_iff : (a b : Bool) → (eqb_bool a b ≡ true) ↔ (a ≡ b)
eqb_bool_iff true b = ground arith
eqb_bool_iff false true = ground arith
eqb_bool_iff false false = ground arith

pub eqb_octant_iff : (o p : Octant) → (eqb_octant o p ≡ true) ↔ (o ≡ p)
unfolding eqb_octant
eqb_octant_iff o p = (
  λ h. ground (arith, eqb_bool_iff o.x p.x, eqb_bool_iff o.y p.y, eqb_bool_iff o.z p.z),
  λ h. rw h (ground (arith, eqb_bool_iff p.x p.x, eqb_bool_iff p.y p.y, eqb_bool_iff p.z p.z)),
)

-- A full node of size exponent `s` with its lower corner at `k`.
abbrev pub IsLeaf : ℕ → AlloctreeNode → GridPoint → GridPoint → ℕ → Type 0
IsLeaf e empty low k s = ⊥
IsLeaf e full low k s = (k ≡ low) × (s ≡ e)
IsLeaf zero (oct children) low k s = ⊥
IsLeaf (suc e) (oct children) low k s = (o : Octant) × IsLeaf e (children o) (corner e low o) k s

pub IsLeaf-InBlock :
    (e : ℕ) (n : AlloctreeNode) (low k : GridPoint) (s : ℕ) (c : Cube)
    → CornerAt e low
    → IsLeaf e n low k s
    → InBlock s k c
    → InBlock e low c
IsLeaf-InBlock e empty low k s c h leaf i = absurd leaf
IsLeaf-InBlock e full low k s c h (same, size) i =
    subst (λ l. InBlock e l c) same (subst (λ r. InBlock r k c) size i)
IsLeaf-InBlock zero (oct children) low k s c h leaf i = absurd leaf
IsLeaf-InBlock (suc e) (oct children) low k s c h (o, leaf) i =
    InBlock-corner e low o c h
      (IsLeaf-InBlock e (children o) _ k s c (corner-CornerAt e low o h) leaf i)

-- The lower corner of a block is in it.
pub corner-InBlock : (s : ℕ) (k : GridPoint) → InBlock s k k
corner-InBlock s k = (at_low k.x, at_low k.y, at_low k.z)
  where
    at_low : (l : ℤ) → Between l (pos (2 ^ s)) l
    at_low l = omega (int_cases, pow_pos s)
