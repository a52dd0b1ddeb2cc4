-- ===== src/Examples/Layouts.antt =====
-- The theorems on the layout of the user interface at concrete boxes and trees.
use all_is_cubes.Prelude.{ℕ, [], ◌∷◌, arith, refl, true, ◌≡◌}
use all_is_cubes.Prelude.Run.{panic, checked_i32, ◌>>=◌, ret, i32}
use all_is_cubes.Prelude.Int.{ℤ, ◌≤ℤ◌, pos, negsuc, ◌+ℤ◌, ◌-ℤ◌}
use all_is_cubes.Math.Face.{px, ny, axis_number, opposite}
use all_is_cubes.Math.GridAab.Operations.{abut, expand}
use all_is_cubes.Math.Vector.{GridVector, vec, InRange, add_vec, add}
use all_is_cubes.Math.GridAab.{
  component, set_component, GridAab, upper_bounds, from_lower_size, check_axis,
  checked_volume_helper,
}
use all_is_cubes.Math.GridAab.Volume.{IsValid}
use all_is_cubes.Layout
use all_is_cubes.Layout.Tree.{
  LayoutTree, stack, margin, shrink, leaf, child, end, Positioned, perform_layout, leaves,
  requirements, accumulate, shrunk_margin, split_bounds, Split,
}
use all_is_cubes.Layout.{LayoutRequest, LayoutGrant, enlarge, origin, low, center, high, shrink_to}
use all_is_cubes.Math.Face.Map.{FaceMap, negatives, positives}
use all_is_cubes.Layout.Placing.{IsLaid}
use all_is_cubes.Layout.Laying.{perform_layout-IsLaid}
use all_is_cubes.Layout.Requiring.{IsPlain}
use all_is_cubes.Layout.Splitting.{split_bounds-Divides, Divides}
use all_is_cubes.Layout.Sizing.{Fits}
use all_is_cubes.Layout.Shrinking.{IsShrunk, shrink_to-IsShrunk}

abbrev panel : GridAab
panel = record {
  lower_bounds = vec (negsuc 9) (pos 0) (pos 3);
  sizes = vec (pos 20) (pos 7) (pos 4);
}

abbrev grant : LayoutGrant
grant = record { bounds = panel; gravity = vec center high low }

abbrev button : GridVector
button = vec (pos 5) (pos 3) (pos 6)

abbrev out : LayoutGrant
out = record {
  bounds = record {
    lower_bounds = vec (negsuc 2) (pos 4) (pos 3);
    sizes = vec (pos 6) (pos 3) (pos 4);
  };
  gravity = vec center high low;
}

-- The size on the first axis grows to 6, which is even, as 20 is; that on the last one is cut to 4.
shrink_to-out : shrink_to grant button true ≡ ret out
unfolding shrink_to enlarge origin i32 upper_bounds from_lower_size check_axis checked_volume_helper
    ◌+ℤ◌ ◌-ℤ◌
shrink_to-out = refl

panel-IsValid : IsValid panel
unfolding ◌+ℤ◌
panel-IsValid = record {
  lower_in = omega arith;
  sizes_in = omega arith;
  x_axis = omega arith;
  y_axis = omega arith;
  z_axis = omega arith;
  volume_lt = omega arith;
}

button_room : InRange (add_vec button (vec (pos 1) (pos 1) (pos 1)))
unfolding ◌+ℤ◌
button_room = omega arith

shrink_to-IsShrunk_example :
    (o : LayoutGrant) × (shrink_to grant button true ≡ ret o) × IsShrunk true grant button o
shrink_to-IsShrunk_example =
    shrink_to-IsShrunk grant button true panel-IsValid (omega arith) button_room

abbrev one : LayoutRequest
one = record { minimum = vec (pos 1) (pos 1) (pos 1) }

-- The tree of the test `simple_stack_with_extra_room`.
abbrev row : LayoutTree ℕ
row = stack px (child (leaf 7) (child (leaf 8) (child (leaf 9) end)))

abbrev room : LayoutGrant
room = Layout.new (record {
  lower_bounds = vec (pos 10) (pos 10) (pos 10);
  sizes = vec (pos 10) (pos 10) (pos 10);
})

abbrev at : ℕ → ℕ → Positioned ℕ
at w x = record {
  value = w;
  position = Layout.new (record {
    lower_bounds = vec (pos x) (pos 10) (pos 10);
    sizes = vec (pos 1) (pos 10) (pos 10);
  });
}

perform_layout-row :
    (perform_layout (λ w. one) row room >>= λ t. ret (leaves t))
    ≡ ret (at 7 10 ∷ at 8 11 ∷ at 9 12 ∷ [])
unfolding perform_layout leaves requirements axis_number Layout.new split_bounds i32 ◌-ℤ◌ abut
    opposite checked_i32 check_axis ◌+ℤ◌ checked_volume_helper
perform_layout-row = refl

five_le : pos 5 ≤ℤ component panel.sizes (axis_number ny)
unfolding axis_number
five_le = omega arith

split_bounds-Divides_example :
    (s : Split) × (split_bounds ny (pos 5) panel ≡ ret s)
    × (IsValid s.child_bounds × IsValid s.remainder_bounds)
    × ((s.child_bounds.sizes ≡ set_component panel.sizes (axis_number ny) (pos 5))
        × (s.remainder_bounds.sizes
            ≡ set_component panel.sizes
                (axis_number ny)
                (component panel.sizes (axis_number ny) -ℤ pos 5)))
    × Divides panel s.child_bounds s.remainder_bounds
split_bounds-Divides_example =
    split_bounds-Divides ny (pos 5) panel panel-IsValid (omega arith) five_le

abbrev frame : FaceMap ℤ
frame = record { nx = pos 1; ny = pos 0; nz = pos 1; px = pos 1; py = pos 2; pz = pos 1 }

-- A button and a label that keeps its size, side by side in a frame.
abbrev dialog : LayoutTree ℕ
dialog = margin frame (stack ny (child (leaf 7) (child (shrink (leaf 8)) end)))

abbrev dialog_needs : LayoutRequest
dialog_needs = record { minimum = vec (pos 3) (pos 4) (pos 3) }

requirements-dialog : requirements (λ w. one) dialog ≡ ret dialog_needs
unfolding requirements accumulate i32 ◌+ℤ◌ axis_number add negatives positives
requirements-dialog = refl

dialog-IsPlain : IsPlain (λ w. one) dialog
unfolding IsPlain negatives positives
dialog-IsPlain = ((omega arith, omega arith), (omega arith, (omega arith, tt)))

room-IsValid : IsValid room.bounds
unfolding ◌+ℤ◌ Layout.new
room-IsValid = omega arith

room_fits : Fits dialog_needs.minimum room.bounds.sizes
unfolding Layout.new
room_fits = omega arith

perform_layout-IsLaid_example :
    (t : LayoutTree (Positioned ℕ)) × (perform_layout (λ w. one) dialog room ≡ ret t)
    × IsLaid (λ w. one) room.bounds (leaves dialog) (leaves t)
perform_layout-IsLaid_example =
    perform_layout-IsLaid (λ w. one) dialog room dialog_needs dialog-IsPlain room-IsValid
      requirements-dialog room_fits

-- A frame that is wider than its box: no size is compared before the box is made smaller.
perform_layout-narrow :
    perform_layout
      (λ w. one)
      dialog
      (Layout.new (record {
        lower_bounds = vec (pos 0) (pos 0) (pos 0);
        sizes = vec (pos 1) (pos 9) (pos 9);
      }))
    ≡ panic
unfolding perform_layout expand shrunk_margin i32 ◌-ℤ◌ ◌+ℤ◌ Layout.new check_axis
perform_layout-narrow = refl
