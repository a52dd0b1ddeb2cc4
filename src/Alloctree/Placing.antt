-- ===== src/Alloctree/Placing.antt =====
-- The regions that `AlloctreeNode::allocate` (all-is-cubes-gpu/src/common/octree_alloc.rs) places, and
-- how an empty node is occupied.
use all_is_cubes.Math.GridAab.Intersection.{upper_bounds-ret, top}
use all_is_cubes.Math.GridAab.Operations.{zip_with}
use all_is_cubes.Math.GridAab.Operations
use all_is_cubes.Prelude.Run.{◌>>=◌, checked_i32, ret}
use all_is_cubes.Math.GridAab.Index.{Inside, Between}
use all_is_cubes.Alloctree.Occupancy.{IsLeaf, Occupied, InBlock, Deep}
use all_is_cubes.Math.GridAab.Volume.{checked_from_lower_size_iff, IsValid, IsAxis}
use all_is_cubes.Alloctree.{
  checked_offset, full, occupy, empty, AlloctreeHandle, Allocated, AlloctreeNode,
}
use all_is_cubes.Math.Vector.{
  run_vec, vec_eq, run_vec-ret, sub, sub_vec, Cube, add_vec, GridVector, GridPoint,
}
use all_is_cubes.Alloctree.Fitting.{axis_in, Fitted, CornerAt, LowAt}
use all_is_cubes.Prelude.Int.{
  pos, int_cases, eq_of_parts, ◌-ℤ◌, saturating_add, ◌+ℤ◌, pos_part, InI32, ℤ,
}
use all_is_cubes.Prelude.{
  ◌⊎◌, sym, refl, ap, inr, inl, Option-cases, ◌∙◌, none, some, arith, ◌≡◌, ◌^◌, ◌≤◌, ℕ,
}
use all_is_cubes.Math.GridAab.{from_lower_size, from_lower_upper, GridAab}

abbrev pub moved : GridAab → GridVector → GridAab
moved b offset = record { lower_bounds = add_vec b.lower_bounds offset; sizes = b.sizes }

-- The handle is the request moved by its offset. It has a full node to itself, whose block covers
-- the region, is in the block of the node, and held no cube that was taken; its cubes are those that
-- are taken in addition. The full nodes that there were are there still.
pub record Placed (e : ℕ) (low : GridPoint) (request : GridAab) (n n' : AlloctreeNode)
    (handle : AlloctreeHandle) : Type 0 where
  pub is_moved : handle.allocation ≡ moved request handle.offset
  pub is_valid : IsValid handle.allocation
  pub deep : Deep e n'
  pub exponent : ℕ
  pub leaf : IsLeaf e n' low handle.allocation.lower_bounds exponent
  pub covers :
      (c : Cube) → Inside handle.allocation c → InBlock exponent handle.allocation.lower_bounds c
  pub was_free :
      (c : Cube) → InBlock exponent handle.allocation.lower_bounds c → ¬ Occupied e n low c
  pub taken : (c : Cube) → InBlock exponent handle.allocation.lower_bounds c → Occupied e n' low c
  pub kept : (c : Cube) → Occupied e n low c → Occupied e n' low c
  pub only :
      (c : Cube)
      → Occupied e n' low c
      → Occupied e n low c ⊎ InBlock exponent handle.allocation.lower_bounds c
  pub leaves : (k : GridPoint) (s : ℕ) → IsLeaf e n low k s → IsLeaf e n' low k s

abbrev pub Outcome : ℕ → GridPoint → GridAab → AlloctreeNode → Allocated → Type 0
Outcome e low request n (none, n') = n' ≡ n
Outcome e low request n (some handle, n') = Placed e low request n n' handle

saturating_exact : (a b : ℤ) → InI32 (a +ℤ b) → saturating_add a b ≡ a +ℤ b
saturating_exact a b h = ground arith

axis_size : (low s : ℤ) → (low +ℤ s) -ℤ low ≡ s
axis_size low s = eq_of_parts _ _ (omega int_cases)

axis_back : (low l : ℤ) → l +ℤ (low -ℤ l) ≡ low
axis_back low l = eq_of_parts _ _ (omega int_cases)

axis_lower : (e : ℕ) (low l : ℤ) → LowAt e low → saturating_add l (low -ℤ l) ≡ low
axis_lower e low l h =
    let back = axis_back low l in saturating_exact l _ (rw back (axis_in e low h)) ∙ back

axis_top : (low l s : ℤ) → (l +ℤ s) +ℤ (low -ℤ l) ≡ low +ℤ s
axis_top low l s = eq_of_parts _ _ (omega int_cases)

axis_upper :
    (e : ℕ) (low l s : ℤ)
    → LowAt e low
    → IsAxis low s
    → saturating_add (l +ℤ s) (low -ℤ l) ≡ low +ℤ s
axis_upper e low l s h a = let up = axis_top low l s in saturating_exact _ _ (rw up a.1) ∙ up

checked_offset-eq_some :
    (low l : GridPoint) {o : GridVector} → checked_offset low l ≡ some o → o ≡ sub_vec low l
unfolding checked_offset checked_i32
checked_offset-eq_some low l h = ground arith

moves_lem : (e : ℕ) (low l s : ℤ) → LowAt e low → IsAxis l s → pos_part s ≤ 2 ^ e → IsAxis low s
moves_lem e low l s h a f = (a.0, omega int_cases)

axis_inside :
    (e : ℕ) (low s c : ℤ) → pos_part s ≤ 2 ^ e → Between low s c → Between low (pos (2 ^ e)) c
axis_inside e low s c f h = (h.0, omega int_cases)

module _ (e : ℕ) (low : GridPoint) (request : GridAab) (h : CornerAt e low) (v : IsValid request)
    (f : Fitted e request) where
  abbrev allocation : GridAab
  allocation = record { lower_bounds = low; sizes = request.sizes }

  abbrev offset : GridVector
  offset = sub_vec low request.lower_bounds

  allocation-IsValid : IsValid allocation
  allocation-IsValid = record {
    lower_in = (axis_in e _ h.0, axis_in e _ h.1, axis_in e _ h.2);
    sizes_in = v.sizes_in;
    x_axis = moves_lem e _ _ _ h.0 v.x_axis f.0;
    y_axis = moves_lem e _ _ _ h.1 v.y_axis f.1;
    z_axis = moves_lem e _ _ _ h.2 v.z_axis f.2;
    volume_lt = v.volume_lt;
  }

  box_ret : from_lower_upper low (top allocation) ≡ ret allocation
  unfolding from_lower_upper sub from_lower_size
  box_ret =
      let w = allocation-IsValid in
      let size_eq : sub_vec (top allocation) low ≡ request.sizes =
        vec_eq (axis_size _ _) (axis_size _ _) (axis_size _ _) in
      let k =
        (checked_from_lower_size_iff low request.sizes allocation w.lower_in w.sizes_in).1
          (refl, w) in
      ap (λ s. run_vec s >>= λ t. from_lower_size low t) size_eq
      ∙ rw (run_vec-ret request.sizes v.sizes_in, k) refl

  translate-ret : Operations.translate request offset ≡ ret allocation
  unfolding Operations.translate
  translate-ret =
      let w = allocation-IsValid in
      let low_eq : zip_with saturating_add request.lower_bounds offset ≡ low =
        vec_eq (axis_lower e _ _ h.0) (axis_lower e _ _ h.1) (axis_lower e _ _ h.2) in
      let top_eq : zip_with saturating_add (top request) offset ≡ top allocation =
        vec_eq (axis_upper e _ _ _ h.0 w.x_axis) (axis_upper e _ _ _ h.1 w.y_axis)
          (axis_upper e _ _ _ h.2 w.z_axis) in
      rw (upper_bounds-ret request v) (
        ap (λ l. from_lower_upper l (zip_with saturating_add (top request) offset)) low_eq
        ∙ ap (λ u. from_lower_upper low u) top_eq
        ∙ box_ret)

  occupied :
      (o : GridVector)
      → o ≡ offset
      → Placed e low request empty full (record { allocation = allocation; offset = o })
  occupied o same = record {
    is_moved = rw same (
        ap (λ l. record { lower_bounds = l; sizes = request.sizes })
          (vec_eq (sym (axis_back _ _)) (sym (axis_back _ _)) (sym (axis_back _ _))));
    is_valid = allocation-IsValid;
    deep = tt;
    exponent = e;
    leaf = (refl, refl);
    covers = inside;
    was_free = λ c i k. k;
    taken = λ c i. i;
    kept = λ c k. absurd k;
    only = λ c i. inr i;
    leaves = λ k s i. absurd i;
  }
    where
      inside : (c : Cube) → Inside allocation c → InBlock e low c
      inside c i =
          (axis_inside e _ _ _ f.0 i.0, axis_inside e _ _ _ f.1 i.1, axis_inside e _ _ _ f.2 i.2)

  pub occupy-Outcome :
      (r : Allocated) × (occupy low request ≡ ret r) × Outcome e low request empty r
  unfolding occupy
  occupy-Outcome = elim (Option-cases (checked_offset low request.lower_bounds)) [
    | inl fails ↦ ((none, empty), rw (fails, occupy) refl, refl)
    | inr (o, e_o) ↦
        let same = checked_offset-eq_some low request.lower_bounds e_o in
        (
          (some (record { allocation = allocation; offset = o }), full),
          rw (e_o, ap (λ p. Operations.translate request p) same ∙ translate-ret, occupy) refl,
          occupied o same,
        )
  ]
