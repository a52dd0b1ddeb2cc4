-- ===== src/Alloctree/Allocating.antt =====
-- `AlloctreeNode::allocate` (all-is-cubes-gpu/src/common/octree_alloc.rs) gives out free space.
use all_is_cubes.Alloctree.Placing.{occupy-Outcome, Placed, Outcome}
use all_is_cubes.Prelude.Run.{Run, ret}
use all_is_cubes.Alloctree.Occupancy.{
  IsLeaf, InBlock, IsLeaf-InBlock, Occupied-InBlock, octant_unique, eqb_octant_iff, Occupied, Deep,
}
use all_is_cubes.Math.GridAab.Volume.{IsValid}
use all_is_cubes.Alloctree.{
  octants, fits, wrap_in_oct, node_allocate, first_child, oct, eqb_octant, with_child, Octant, full,
  empty, AlloctreeHandle, Allocated, AlloctreeNode,
}
use all_is_cubes.Math.Vector.{vec, vec_eq, GridPoint}
use all_is_cubes.Alloctree.Fitting.{
  fits-Fitted, pow_suc, child_corner-ret, corner-CornerAt, corner, CornerAt, LowAt,
}
use all_is_cubes.Prelude.Int.{pos, int_cases, eq_of_parts, ◌+ℤ◌, ℤ}
use all_is_cubes.Prelude.{
  ◌⊎◌, zero, true, false, [], Option, ◌∷◌, List, subst, Bool-cases, suc, sym, refl, ap, inr, inl,
  ◌∙◌, none, some, arith, ◌≡◌, ◌≤◌, ℕ,
}
use all_is_cubes.Math.GridAab.{GridAab}

-- A property of the child at `p` after the one at `o` is replaced.
pub with_child-lem :
    (f : Octant → AlloctreeNode) (o p : Octant) (child : AlloctreeNode) (P : AlloctreeNode → Type 0)
    → (o ≡ p → P child)
    → (¬ (o ≡ p) → P (f p))
    → P (with_child f o child p)
with_child-lem f o p child P new old = elim (Bool-cases (eqb_octant o p)) [
  | inl here ↦ rw here (new ((eqb_octant_iff o p).0 here))
  | inr there ↦ rw there (old (λ same. cc (there, (eqb_octant_iff o p).1 same)))
]

child_new :
    (f : Octant → AlloctreeNode) (o : Octant) (child : AlloctreeNode)
    → with_child f o child o ≡ child
child_new f o child = rw ((eqb_octant_iff o o).1 refl) refl

same_child :
    (f : Octant → AlloctreeNode) (o : Octant) (child : AlloctreeNode)
    → child ≡ f o
    → with_child f o child ≡ f
same_child f o child same i p =
    with_child-lem f o p child (λ n. n ≡ f p) (λ here. same ∙ ap f here) (λ other. refl) i

-- A child's allocation is one of its parent.
child-Placed :
    (e : ℕ) (low : GridPoint) (request : GridAab) (f : Octant → AlloctreeNode) (o : Octant)
    (child : AlloctreeNode) (handle : AlloctreeHandle)
    → CornerAt (suc e) low
    → ((p : Octant) → Deep e (f p))
    → Placed e (corner e low o) request (f o) child handle
    → Placed (suc e) low request (oct f) (oct (with_child f o child)) handle
child-Placed e low request f o child handle h deep k = record {
  is_moved = k.is_moved;
  is_valid = k.is_valid;
  deep = λ p. with_child-lem f o p child (λ n. Deep e n) (λ same. k.deep) (λ other. deep p);
  exponent = k.exponent;
  leaf = (o, rw (child_new f o child) k.leaf);
  covers = k.covers;
  was_free = λ c i (p, there).
      let in_child = IsLeaf-InBlock e child _ _ k.exponent c (corner-CornerAt e low o h) k.leaf i in
      let same =
        octant_unique e low p o c h (Occupied-InBlock e (f p) _ c (corner-CornerAt e low p h) there)
          in_child in
      k.was_free c i (subst (λ q. Occupied e (f q) (corner e low q) c) same there);
  taken = λ c i. (o, rw (child_new f o child) (k.taken c i));
  kept = λ c (p, there). (
    p,
    with_child-lem f o p child (λ n. Occupied e n (corner e low p) c)
        (λ same.
          subst (λ q. Occupied e child (corner e low q) c) same
            (k.kept c (subst (λ q. Occupied e (f q) (corner e low q) c) (sym same) there)))
        (λ other. there),
  );
  only = λ c (p, there).
      with_child-lem f o p child
        (λ n.
          Occupied e n (corner e low p) c
          → Occupied (suc e) (oct f) low c ⊎ InBlock k.exponent handle.allocation.lower_bounds c)
        (λ same j. elim (k.only c (subst (λ q. Occupied e child (corner e low q) c) (sym same) j)) [
          | inl old ↦ inl (o, old)
          | inr new ↦ inr new
        ])
        (λ other j. inl (p, j)) there;
  leaves = λ l s (p, there). (
    p,
    with_child-lem f o p child (λ n. IsLeaf e n (corner e low p) l s)
        (λ same.
          subst (λ q. IsLeaf e child (corner e low q) l s) same
            (k.leaves l s (subst (λ q. IsLeaf e (f q) (corner e low q) l s) (sym same) there)))
        (λ other. there),
  );
}

-- What a call on any child returns.
abbrev Returns : ℕ → GridPoint → GridAab → AlloctreeNode → Run Allocated → Type 0
Returns e low request n run = (r : Allocated) × (run ≡ ret r) × Outcome e low request n r

module _ (e : ℕ) (low : GridPoint) (request : GridAab) (f : Octant → AlloctreeNode)
    (call : AlloctreeNode → GridPoint → Run Allocated) (small : e ≤ 10) (h : CornerAt (suc e) low)
    (deep : (p : Octant) → Deep e (f p))
    (returns : (p : Octant)
      → Returns e (corner e low p) request (f p) (call (f p) (corner e low p))) where
  child_step :
      (o : Octant) (os : List Octant) (child : AlloctreeNode) (found : Option AlloctreeHandle)
      → call (f o) (corner e low o) ≡ ret (found, child)
      → Outcome e (corner e low o) request (f o) (found, child)
      → Returns (suc e) low request (oct f) (first_child call e f low os)
      → Returns (suc e) low request (oct f) (first_child call e f low (o ∷ os))
  unfolding first_child
  child_step o os child none run same (r, rest, outcome) = (
    r,
    rw (child_corner-ret e low o small h, run)
        (ap (λ g. first_child call e g low os) (same_child f o child same) ∙ rest),
    outcome,
  )
  child_step o os child (some handle) run k rest = (
    (some handle, oct (with_child f o child)),
    rw (child_corner-ret e low o small h, run) refl,
    child-Placed e low request f o child handle h deep k,
  )

  first_child-Returns :
      (os : List Octant) → Returns (suc e) low request (oct f) (first_child call e f low os)
  unfolding first_child
  first_child-Returns [] = ((none, oct f), refl, refl)
  first_child-Returns (o ∷ os) =
      let ((found, child), run, outcome) = returns o in
      child_step o os child found run outcome (first_child-Returns os)

pub corner-low : (low : GridPoint) (e : ℕ) → corner e low (vec false false false) ≡ low
corner-low low e = vec_eq (plus_zero _) (plus_zero _) (plus_zero _)
  where
    plus_zero : (l : ℤ) → l +ℤ pos 0 ≡ l
    plus_zero l = eq_of_parts _ _ (omega int_cases)

-- The node of eight empty children.
abbrev hollow : Octant → AlloctreeNode
hollow o = empty

-- An allocation in the low corner of an empty node.
wrapped :
    (e : ℕ) (low : GridPoint) (request : GridAab) (child : AlloctreeNode) (handle : AlloctreeHandle)
    → CornerAt (suc e) low
    → Placed e low request empty child handle
    → Placed (suc e) low request empty (wrap_in_oct child) handle
unfolding wrap_in_oct
wrapped e low request child handle h k =
    let lowest = vec false false false in
    let at_corner = subst (λ l. Placed e l request empty child handle) (sym (corner-low low e)) k in
    let m = child-Placed e low request hollow lowest child handle h (λ p. tt) at_corner in
    record {
      is_moved = m.is_moved;
      is_valid = m.is_valid;
      deep = m.deep;
      exponent = m.exponent;
      leaf = m.leaf;
      covers = m.covers;
      was_free = λ c i k. k;
      taken = m.taken;
      kept = λ c k. absurd k;
      only = λ c i. elim (m.only c i) [ inl (p, inside) ↦ absurd inside | inr new ↦ inr new ];
      leaves = λ k s i. absurd i;
    }

low_block : (e : ℕ) (low : GridPoint) → CornerAt (suc e) low → CornerAt e low
low_block e low h = (half e _ h.0, half e _ h.1, half e _ h.2)
  where
    half : (e : ℕ) (l : ℤ) → LowAt (suc e) l → LowAt e l
    half e l h = omega (arith, pow_suc e)

empty_step :
    (e : ℕ) (low : GridPoint) (request : GridAab)
    → CornerAt (suc e) low
    → IsValid request
    → fits request (suc e) ≡ true
    → suc e ≤ 10
    → (fits request e ≡ true → Returns e low request empty (node_allocate e empty low request))
    → Returns (suc e) low request empty (node_allocate (suc e) empty low request)
unfolding node_allocate
empty_step e low request h v fit small returns = elim (Bool-cases (fits request e)) [
  | inr wide ↦
      let (r, run, outcome) =
        occupy-Outcome (suc e) low request h v (fits-Fitted request (suc e) small fit) in
      (r, rw (fit, wide) run, outcome)
  | inl narrow ↦
      let ((found, child), run, outcome) = returns narrow in branch narrow child found run outcome
]
  where
    branch :
        fits request e ≡ true
        → (child : AlloctreeNode) (found : Option AlloctreeHandle)
        → node_allocate e empty low request ≡ ret (found, child)
        → Outcome e low request empty (found, child)
        → Returns (suc e) low request empty (node_allocate (suc e) empty low request)
    branch narrow child none run same = ((none, empty), rw (fit, narrow, run) refl, refl)
    branch narrow child (some handle) run k = (
      (some handle, wrap_in_oct child),
      rw (fit, narrow, run) refl,
      wrapped e low request child handle h k,
    )

pub node_allocate-Returns :
    (e : ℕ) (n : AlloctreeNode) (low : GridPoint) (request : GridAab)
    → e ≤ 10
    → Deep e n
    → CornerAt e low
    → IsValid request
    → fits request e ≡ true
    → Returns e low request n (node_allocate e n low request)
unfolding node_allocate
node_allocate-Returns zero empty low request small deep h v fit =
    let (r, run, outcome) = occupy-Outcome 0 low request h v (fits-Fitted request 0 small fit) in
    (r, rw fit run, outcome)
node_allocate-Returns zero full low request small deep h v fit = ((none, full), rw fit refl, refl)
node_allocate-Returns zero (oct f) low request small deep h v fit = absurd deep
node_allocate-Returns (suc e) empty low request small deep h v fit =
    empty_step e low request h v fit small (λ narrow.
      node_allocate-Returns e empty low request (omega arith) tt (low_block e low h) v narrow)
node_allocate-Returns (suc e) full low request small deep h v fit =
    ((none, full), rw fit refl, refl)
node_allocate-Returns (suc e) (oct f) low request small deep h v fit =
    elim (Bool-cases (fits request e)) [
      | inr wide ↦ ((none, oct f), rw (fit, wide) refl, refl)
      | inl narrow ↦
          let (r, run, outcome) =
            first_child-Returns e low request f
              (λ child corner. node_allocate e child corner request) (omega arith) h deep
              (λ p.
                node_allocate-Returns e (f p) _ request (omega arith) (deep p)
                  (corner-CornerAt e low p h) v narrow)
              octants in
          (r, rw (fit, narrow) run, outcome)
    ]
