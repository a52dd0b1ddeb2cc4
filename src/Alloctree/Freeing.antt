-- ===== src/Alloctree/Freeing.antt =====
-- `AlloctreeNode::free` (all-is-cubes-gpu/src/common/octree_alloc.rs) finds the node of a corner.
use all_is_cubes.Math.GridAab.{GridAab}
use all_is_cubes.Alloctree.Allocating.{with_child-lem}
use all_is_cubes.Math.GridAab
use all_is_cubes.Math.GridAab.Operations.{div_euclid}
use all_is_cubes.Math.GridAab.Index.{Between}
use all_is_cubes.Prelude.Run.{◌>>=◌, ret}
use all_is_cubes.Alloctree.Occupancy.{
  Occupied-InBlock, octant_unique, corner-InBlock, IsLeaf-InBlock, IsLeaf, InBlock, Occupied, Deep,
}
use all_is_cubes.Alloctree.Fitting.{
  scale-octant, expsize_small, shift_vec, corner-CornerAt, corner, CornerAt, pow_suc, shift, LowAt,
}
use all_is_cubes.Prelude.Int.{
  negsuc, pos_part, neg_part, InI32, int_cases, pos, eq_of_parts, ◌+ℤ◌, ◌-ℤ◌, ℤ,
}
use all_is_cubes.Math.Vector.{
  run_vec-ret, vec_eq, run_vec, scale, sub, sub_vec, vec, Cube, GridPoint,
}
use all_is_cubes.Prelude.{
  zero, sym, subst, refl, false, ◌≢◌, ◌-◌, true, ◌^◌, ◌+◌, ◌↔◌, ap, ◌∙◌, suc, arith, ◌≡◌, ◌/◌, ◌*◌,
  Bool, ◌≤◌, ◌<◌, ℕ,
}
use all_is_cubes.Alloctree.{
  expsize, div_point, with_child, oct, empty, node_free, full, bit, octant_position, AlloctreeNode,
  child_index, Octant,
}
use native.Mathlib.Nat.{div-eq_of_lt, div-eq-sub-div}

-- `n'` is `n` without the block of size exponent `s` at `k`. The other full nodes are there still.
pub record Frees (e : ℕ) (low : GridPoint) (n n' : AlloctreeNode) (k : GridPoint) (s : ℕ)
    : Type 0 where
  pub deep : Deep e n'
  pub taken_iff : (c : Cube) → Occupied e n' low c ↔ (Occupied e n low c × (¬ InBlock s k c))
  pub others : (l : GridPoint) (r : ℕ) → l ≢ k → IsLeaf e n low l r → IsLeaf e n' low l r

div_low : (n m : ℕ) → n < m → n / m ≡ 0
div_low n m h = div-eq_of_lt h

div_high : (n m : ℕ) → m ≤ n → n < 2 * m → n / m ≡ 1
div_high n m h k =
    div-eq-sub-div (omega arith) h ∙ ap (λ q. q + 1) (div_low (n - m) m (omega arith))

abbrev start : Bool → ℕ → ℕ
start true m = m
start false m = 0

half :
    (d : ℤ) (b : Bool) (m : ℕ)
    → neg_part d ≡ 0
    → start b m ≤ pos_part d
    → pos_part d < start b m + m
    → div_euclid d m ≡ bit b
half (pos n) true m z lo hi = ap pos (div_high n m lo (omega arith))
half (pos n) false m z lo hi = ap pos (div_low n m (omega arith))
half (negsuc n) b m z lo hi = absurd (omega arith)

-- The half that a coordinate is in.
half_of :
    (e : ℕ) (l k : ℤ) (b : Bool)
    → LowAt (suc e) l
    → Between (l +ℤ shift e b) (pos (2 ^ e)) k
    → div_euclid (k -ℤ l) (2 ^ e) ≡ bit b
half_of e l k true h i =
    half (k -ℤ l) true (2 ^ e) (omega (int_cases, pow_suc e)) (omega (int_cases, pow_suc e))
      (omega (int_cases, pow_suc e))
half_of e l k false h i =
    half (k -ℤ l) false (2 ^ e) (omega (int_cases, pow_suc e)) (omega (int_cases, pow_suc e))
      (omega (int_cases, pow_suc e))

rest_lem : (e : ℕ) (l k : ℤ) (b : Bool) → (k -ℤ l) -ℤ shift e b ≡ k -ℤ (l +ℤ shift e b)
rest_lem e l k true = eq_of_parts _ _ (omega int_cases)
rest_lem e l k false = eq_of_parts _ _ (omega int_cases)

rest_in :
    (e : ℕ) (l k : ℤ) (b : Bool)
    → LowAt (suc e) l
    → Between (l +ℤ shift e b) (pos (2 ^ e)) k
    → InI32 (k -ℤ (l +ℤ shift e b))
rest_in e l k true h i = omega (int_cases, pow_suc e)
rest_in e l k false h i = omega (int_cases, pow_suc e)

child_index-bits : (a b c : Bool) → child_index (vec (bit a) (bit b) (bit c)) ≡ ret (vec a b c)
unfolding child_index GridAab.index ◌-ℤ◌ ◌+ℤ◌
child_index-bits true true true = refl
child_index-bits true true false = refl
child_index-bits true false true = refl
child_index-bits true false false = refl
child_index-bits false true true = refl
child_index-bits false true false = refl
child_index-bits false false true = refl
child_index-bits false false false = refl

full-Frees : (e : ℕ) (low k : GridPoint) (s : ℕ) → k ≡ low → s ≡ e → Frees e low full empty k s
full-Frees e low k s at_low size = record {
  deep = tt;
  taken_iff = λ c. (
    λ none. absurd none,
    λ (there, not_there). absurd (
        not_there (
          subst (λ l. InBlock s l c) (sym at_low) (subst (λ r. InBlock r low c) (sym size) there))),
  );
  others = λ l r other (same, n). absurd (other (same ∙ sym at_low));
}

child-Frees :
    (e : ℕ) (low : GridPoint) (f : Octant → AlloctreeNode) (o : Octant) (child : AlloctreeNode)
    (k : GridPoint) (s : ℕ)
    → CornerAt (suc e) low
    → ((p : Octant) → Deep e (f p))
    → IsLeaf e (f o) (corner e low o) k s
    → Frees e (corner e low o) (f o) child k s
    → Frees (suc e) low (oct f) (oct (with_child f o child)) k s
child-Frees e low f o child k s h deep leaf g = record {
  deep = λ p. with_child-lem f o p child (λ n. Deep e n) (λ same. g.deep) (λ other. deep p);
  taken_iff = λ c. (
    λ (p, there).
        with_child-lem f o p child
          (λ n.
            Occupied e n (corner e low p) c → Occupied (suc e) (oct f) low c × (¬ InBlock s k c))
          (λ same j.
            let (was, out) =
              (g.taken_iff c).0 (subst (λ q. Occupied e child (corner e low q) c) (sym same) j) in
            ((o, was), out))
          (λ other j. (
            (p, j),
            λ i. other (
                octant_unique e low o p c h
                  (IsLeaf-InBlock e (f o) _ k s c (corner-CornerAt e low o h) leaf i)
                  (Occupied-InBlock e (f p) _ c (corner-CornerAt e low p h) j)),
          ))
          there,
    λ ((p, there), out). (
      p,
      with_child-lem f o p child (λ n. Occupied e n (corner e low p) c)
          (λ same.
            subst (λ q. Occupied e child (corner e low q) c) same
              ((g.taken_iff c).1
                (subst (λ q. Occupied e (f q) (corner e low q) c) (sym same) there, out)))
          (λ other. there),
    ),
  );
  others = λ l r other (p, there). (
    p,
    with_child-lem f o p child (λ n. IsLeaf e n (corner e low p) l r)
        (λ same.
          subst (λ q. IsLeaf e child (corner e low q) l r) same
            (g.others l r other
              (subst (λ q. IsLeaf e (f q) (corner e low q) l r) (sym same) there)))
        (λ apart. there),
  );
}

which_child :
    (e : ℕ) (low k : GridPoint) (o : Octant)
    → e ≤ 10
    → CornerAt (suc e) low
    → InBlock e (corner e low o) k
    → div_point (sub_vec k low) (pos_part (expsize e)) ≡ octant_position o
which_child e low k o small h i =
    ap (λ d. div_point (sub_vec k low) (pos_part d)) (expsize_small e small)
    ∙ vec_eq (half_of e _ _ o.x h.0 i.0) (half_of e _ _ o.y h.1 i.1) (half_of e _ _ o.z h.2 i.2)

sub-shift :
    (e : ℕ) (low k : GridPoint) (o : Octant)
    → CornerAt (suc e) low
    → InBlock e (corner e low o) k
    → sub (sub_vec k low) (shift_vec e o) ≡ ret (sub_vec k (corner e low o))
unfolding sub
sub-shift e low k o h i =
    ap run_vec (vec_eq (rest_lem e _ _ o.x) (rest_lem e _ _ o.y) (rest_lem e _ _ o.z))
    ∙ run_vec-ret (sub_vec k (corner e low o))
        (rest_in e _ _ o.x h.0 i.0, rest_in e _ _ o.y h.1 i.1, rest_in e _ _ o.z h.2 i.2)

free_step :
    (e : ℕ) (low k : GridPoint) (f : Octant → AlloctreeNode) (o : Octant) (child : AlloctreeNode)
    → suc e ≤ 10
    → CornerAt (suc e) low
    → InBlock e (corner e low o) k
    → node_free e (f o) (sub_vec k (corner e low o)) ≡ ret child
    → node_free (suc e) (oct f) (sub_vec k low) ≡ ret (oct (with_child f o child))
unfolding node_free
free_step e low k f o child small h i run =
    ap
      (λ w. child_index w >>= λ p. scale w (expsize e) >>= λ step.
        sub (sub_vec k low) step >>= λ rest.
        node_free e (f p) rest >>= λ n. ret (oct (with_child f p n)))
      (which_child e low k o (omega arith) h i)
    ∙ rw
        (child_index-bits o.x o.y o.z, scale-octant e o (omega arith), sub-shift e low k o h i, run)
        refl

-- The corner of a full node, relative to the node that is searched, finds it.
pub node_free-Frees :
    (e : ℕ) (n : AlloctreeNode) (low k : GridPoint) (s : ℕ)
    → e ≤ 10
    → Deep e n
    → CornerAt e low
    → IsLeaf e n low k s
    → (n' : AlloctreeNode) × (node_free e n (sub_vec k low) ≡ ret n') × Frees e low n n' k s
unfolding node_free
node_free-Frees e empty low k s small deep h leaf = absurd leaf
node_free-Frees zero full low k s small deep h (at_low, size) =
    (empty, refl, full-Frees zero low k s at_low size)
node_free-Frees (suc e) full low k s small deep h (at_low, size) =
    (empty, refl, full-Frees (suc e) low k s at_low size)
node_free-Frees zero (oct f) low k s small deep h leaf = absurd leaf
node_free-Frees (suc e) (oct f) low k s small deep h (o, leaf) =
    let inside =
      IsLeaf-InBlock e (f o) _ k s k (corner-CornerAt e low o h) leaf (corner-InBlock s k) in
    let (child, run, freed) =
      node_free-Frees e (f o) (corner e low o) k s (omega arith) (deep o)
        (corner-CornerAt e low o h) leaf in
    (
      oct (with_child f o child),
      free_step e low k f o child small h inside run,
      child-Frees e low f o child k s h deep leaf freed,
    )
