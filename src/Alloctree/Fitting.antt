-- ===== src/Alloctree/Fitting.antt =====
-- Sizes and corners in `Alloctree` (all-is-cubes-gpu/src/common/octree_alloc.rs).
use all_is_cubes.Prelude.Run.{ret}
use all_is_cubes.Prelude.Int.{int_cases, leb_ℤ, ◌+ℤ◌, pos_part, pos, neg_part, InI32, ◌*ℤ◌, ℤ}
use all_is_cubes.Math.Vector.{run_vec-ret, add, scale, vec, GridVector, GridPoint}
use all_is_cubes.Math.GridAab.{GridAab}
use all_is_cubes.Alloctree.{
  octant_position, child_corner, bit, Octant, max_edge_length, fits, expsize,
}
use all_is_cubes.Prelude.{
  if◌then◌else◌, false, zero, true, suc, Bool, ◌≡◌, ℕ, ◌+◌, ◌*◌, ◌^◌, ◌≤◌, ◌<◌, arith,
}

pub pow_suc : (e : ℕ) → 2 ^ suc e ≡ 2 * 2 ^ e
pow_suc e = omega arith

pub pow_pos : (e : ℕ) → 0 < 2 ^ e
pow_pos zero = omega arith
pow_pos (suc e) = omega (arith, pow_pos e, pow_suc e)

pow_le : (e n : ℕ) → e ≤ n → 2 ^ e ≤ 2 ^ n
pow_le zero n h = omega (arith, pow_pos n)
pow_le (suc e) zero h = absurd (omega arith)
pow_le (suc e) (suc n) h = omega (arith, pow_le e n (omega arith), pow_suc e, pow_suc n)

pub at_most_1024 : (e : ℕ) → e ≤ 10 → 2 ^ e ≤ 1024
at_most_1024 e h = pow_le e 10 h

pub expsize_small : (e : ℕ) → e ≤ 10 → expsize e ≡ pos (2 ^ e)
unfolding expsize
expsize_small e h = ground arith

-- The lower corner of a block inside the largest tree.
abbrev pub LowAt : ℕ → ℤ → Type 0
LowAt e l = (neg_part l ≡ 0) × (pos_part l + 2 ^ e ≤ 1024)

abbrev pub CornerAt : ℕ → GridPoint → Type 0
CornerAt e low = LowAt e low.x × LowAt e low.y × LowAt e low.z

-- The request is no larger than the block.
abbrev pub Fitted : ℕ → GridAab → Type 0
Fitted e b =
    (pos_part b.sizes.x ≤ 2 ^ e) × (pos_part b.sizes.y ≤ 2 ^ e) × (pos_part b.sizes.z ≤ 2 ^ e)

max_edge-le :
    (s : GridVector) (n : ℕ)
    → leb_ℤ (max_edge_length s) (pos n) ≡ true
    → (pos_part s.x ≤ n) × (pos_part s.y ≤ n) × (pos_part s.z ≤ n)
unfolding max_edge_length
max_edge-le s n h = ground arith

pub fits-Fitted : (b : GridAab) (e : ℕ) → e ≤ 10 → fits b e ≡ true → Fitted e b
unfolding fits
fits-Fitted b e small h = max_edge-le b.sizes (2 ^ e) (rw (expsize_small e small) at h)

abbrev pub shift : ℕ → Bool → ℤ
shift e true = pos (2 ^ e)
shift e false = pos 0

abbrev pub corner : ℕ → GridPoint → Octant → GridPoint
corner e low o = vec (low.x +ℤ shift e o.x) (low.y +ℤ shift e o.y) (low.z +ℤ shift e o.z)

bit-mul : (b : Bool) (n : ℕ) → bit b *ℤ pos n ≡ (if b then pos n else pos 0)
unfolding ◌*ℤ◌
bit-mul true n = ground arith
bit-mul false n = ground arith

axis_low : (e : ℕ) (l : ℤ) (b : Bool) → LowAt (suc e) l → LowAt e (l +ℤ shift e b)
axis_low e l true h = omega (int_cases, pow_suc e)
axis_low e l false h = omega (int_cases, pow_suc e)

pub axis_in : (e : ℕ) (l : ℤ) → LowAt e l → InI32 l
axis_in e l h = omega arith

pub corner-CornerAt :
    (e : ℕ) (low : GridPoint) (o : Octant) → CornerAt (suc e) low → CornerAt e (corner e low o)
corner-CornerAt e low o h = (axis_low e _ o.x h.0, axis_low e _ o.y h.1, axis_low e _ o.z h.2)

bit-mul_lem : (b : Bool) (e : ℕ) → bit b *ℤ pos (2 ^ e) ≡ shift e b
bit-mul_lem true e = bit-mul true (2 ^ e)
bit-mul_lem false e = bit-mul false (2 ^ e)

shift_in : (e : ℕ) (b : Bool) → 2 ^ e ≤ 1024 → InI32 (shift e b)
shift_in e true h = omega arith
shift_in e false h = omega arith

abbrev pub shift_vec : ℕ → Octant → GridVector
shift_vec e o = vec (shift e o.x) (shift e o.y) (shift e o.z)

pub scale-octant :
    (e : ℕ) (o : Octant) → e ≤ 10 → scale (octant_position o) (expsize e) ≡ ret (shift_vec e o)
unfolding scale
scale-octant e o small =
    let p = at_most_1024 e small in
    rw (expsize_small e small, bit-mul_lem o.x e, bit-mul_lem o.y e, bit-mul_lem o.z e)
      (run_vec-ret (shift_vec e o) (shift_in e o.x p, shift_in e o.y p, shift_in e o.z p))

pub child_corner-ret :
    (e : ℕ) (low : GridPoint) (o : Octant)
    → e ≤ 10
    → CornerAt (suc e) low
    → child_corner e low o ≡ ret (corner e low o)
unfolding child_corner add
child_corner-ret e low o small h =
    let k = corner-CornerAt e low o h in
    rw (scale-octant e o small)
      (run_vec-ret (corner e low o) (axis_in e _ k.0, axis_in e _ k.1, axis_in e _ k.2))
