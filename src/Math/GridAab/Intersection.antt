-- ===== src/Math/GridAab/Intersection.antt =====
-- `GridAab::intersection` (all-is-cubes/src/math/grid_aab.rs) against the sets of cubes.
use all_is_cubes.Prelude.Run.{ret}
use all_is_cubes.Math.GridAab.Operations.{zip_with, intersection}
use all_is_cubes.Math.Vector.{sub, run_vec-ret, add_vec, Cube, sub_vec, add, GridPoint}
use all_is_cubes.Math.GridAab.{from_lower_size, from_lower_upper, upper_bounds, GridAab}
use all_is_cubes.Math.GridAab.Volume.{IsValid, checked_from_lower_size_iff, IsAxis}
use all_is_cubes.Math.GridAab.Index.{Inside, Between}
use all_is_cubes.Prelude.Int.{
  int_cases, ◌<ℤ◌, leb_ℤ, int_laws, ◌-ℤ◌, neg_part, ◌≤ℤ◌, ◌+ℤ◌, pos_part, min_ℤ, max_ℤ, InI32, ℤ,
}
use all_is_cubes.Prelude.{
  ◌∙◌, pick_false, some, pick_true, ◌||◌, none, ◌*◌, Option, Bool, ℕ, true, false, inr, inl, ◌⊎◌,
  Bool-cases, ◌≡◌, ◌↔◌, refl, ◌≤◌, arith,
}

-- `a` and `b` as numbers.
abbrev pub Same : ℤ → ℤ → Type 0
Same a b = (pos_part a ≡ pos_part b) × (neg_part a ≡ neg_part b)

pub record IsMax (a b m : ℤ) : Type 0 where
  pub left : a ≤ℤ m
  pub right : b ≤ℤ m
  pub one : Same m a ⊎ Same m b

pub record IsMin (a b m : ℤ) : Type 0 where
  pub left : m ≤ℤ a
  pub right : m ≤ℤ b
  pub one : Same m a ⊎ Same m b

pub max_ℤ-IsMax : (a b : ℤ) → IsMax a b (max_ℤ a b)
max_ℤ-IsMax a b = elim (Bool-cases (leb_ℤ b a)) [
  | inl h ↦ rw h (record { left = ground arith; right = ground arith; one = inl (refl, refl) })
  | inr h ↦ rw h (record { left = ground arith; right = ground arith; one = inr (refl, refl) })
]

pub min_ℤ-IsMin : (a b : ℤ) → IsMin a b (min_ℤ a b)
min_ℤ-IsMin a b = elim (Bool-cases (leb_ℤ a b)) [
  | inl h ↦ rw h (record { left = ground arith; right = ground arith; one = inl (refl, refl) })
  | inr h ↦ rw h (record { left = ground arith; right = ground arith; one = inr (refl, refl) })
]

-- One axis of two boxes that have a cube in common on it.
record Common (s lo hi : ℤ) : Type 0 where
  low_in : InI32 lo
  size_in : InI32 (hi -ℤ lo)
  axis : IsAxis lo (hi -ℤ lo)
  less : pos_part (hi -ℤ lo) ≤ pos_part s

module _ (l s m t lo hi : ℤ) (p : IsMax l m lo) (q : IsMin (l +ℤ s) (m +ℤ t) hi) where
  common :
      InI32 l → InI32 s → IsAxis l s → InI32 m → InI32 t → IsAxis m t → lo <ℤ hi → Common s lo hi
  common a b c d e f h = record {
    low_in = omega (arith, p.left, p.right, p.one);
    size_in = omega (int_laws, p.left, p.right, p.one, q.left, q.right, q.one);
    axis = (
      omega (int_laws, p.left, p.right, p.one, q.left, q.right, q.one),
      omega (int_laws, p.left, p.right, p.one, q.left, q.right, q.one),
    );
    less = omega (int_cases, p.left, p.right, p.one, q.left, q.right, q.one);
  }

  Between-iff : (c : ℤ) → Between lo (hi -ℤ lo) c ↔ (Between l s c × Between m t c)
  Between-iff c = (
    λ h. omega (int_laws, p.left, p.right, p.one, q.left, q.right, q.one),
    λ h. omega (int_laws, p.left, p.right, p.one, q.left, q.right, q.one),
  )

  apart : leb_ℤ hi lo ≡ true → (c : ℤ) → Between l s c → ¬ Between m t c
  apart h c i j =
      let le : hi ≤ℤ lo = ground arith in
      omega (int_laws, p.left, p.right, p.one, q.left, q.right, q.one)

abbrev pub top : GridAab → GridPoint
top b = add_vec b.lower_bounds b.sizes

pub upper_bounds-ret : (b : GridAab) → IsValid b → upper_bounds b ≡ ret (top b)
unfolding upper_bounds add
upper_bounds-ret b v = run_vec-ret (top b) (v.x_axis.1, v.y_axis.1, v.z_axis.1)

leb-false : (a b : ℤ) → leb_ℤ a b ≡ false → b <ℤ a
leb-false a b h = ground arith

pub mul_le : (a a' b b' : ℕ) → a ≤ a' → b ≤ b' → a * b ≤ a' * b'
mul_le a a' b b' h k = grind arith

module _ (b o : GridAab) where
  abbrev low : GridPoint
  low = zip_with max_ℤ b.lower_bounds o.lower_bounds

  abbrev high : GridPoint
  high = zip_with min_ℤ (top b) (top o)

  abbrev meet : GridAab
  meet = record { lower_bounds = low; sizes = sub_vec high low }

  abbrev disjoint : Bool
  disjoint = leb_ℤ high.x low.x || leb_ℤ high.y low.y || leb_ℤ high.z low.z

  -- The box holds the cubes that both boxes hold; without a box there are none.
  abbrev pub Meets : Option GridAab → Type 0
  Meets none = (c : Cube) → Inside b c → ¬ Inside o c
  Meets (some m) = IsValid m × ((c : Cube) → Inside m c ↔ (Inside b c × Inside o c))

  module _ (v : IsValid b) (w : IsValid o) where
    meet-IsValid : disjoint ≡ false → IsValid meet
    meet-IsValid h =
        let x =
          common _ _ _ _ _ _ (max_ℤ-IsMax _ _) (min_ℤ-IsMin _ _) v.lower_in.0 v.sizes_in.0 v.x_axis
            w.lower_in.0 w.sizes_in.0 w.x_axis (leb-false high.x low.x (ground arith)) in
        let y =
          common _ _ _ _ _ _ (max_ℤ-IsMax _ _) (min_ℤ-IsMin _ _) v.lower_in.1 v.sizes_in.1 v.y_axis
            w.lower_in.1 w.sizes_in.1 w.y_axis (leb-false high.y low.y (ground arith)) in
        let z =
          common _ _ _ _ _ _ (max_ℤ-IsMax _ _) (min_ℤ-IsMin _ _) v.lower_in.2 v.sizes_in.2 v.z_axis
            w.lower_in.2 w.sizes_in.2 w.z_axis (leb-false high.z low.z (ground arith)) in
        record {
          lower_in = (x.low_in, y.low_in, z.low_in);
          sizes_in = (x.size_in, y.size_in, z.size_in);
          x_axis = x.axis;
          y_axis = y.axis;
          z_axis = z.axis;
          volume_lt =
              omega (arith, v.volume_lt, mul_le _ _ _ _ (mul_le _ _ _ _ x.less y.less) z.less);
        }

    Inside-iff : (c : Cube) → Inside meet c ↔ (Inside b c × Inside o c)
    Inside-iff c =
        let x =
          Between-iff _ _ _ _ _ _ (max_ℤ-IsMax b.lower_bounds.x o.lower_bounds.x)
            (min_ℤ-IsMin (top b).x (top o).x) c.x in
        let y =
          Between-iff _ _ _ _ _ _ (max_ℤ-IsMax b.lower_bounds.y o.lower_bounds.y)
            (min_ℤ-IsMin (top b).y (top o).y) c.y in
        let z =
          Between-iff _ _ _ _ _ _ (max_ℤ-IsMax b.lower_bounds.z o.lower_bounds.z)
            (min_ℤ-IsMin (top b).z (top o).z) c.z in
        (
          λ i. (((x.0 i.0).0, (y.0 i.1).0, (z.0 i.2).0), ((x.0 i.0).1, (y.0 i.1).1, (z.0 i.2).1)),
          λ i. (x.1 (i.0.0, i.1.0), y.1 (i.0.1, i.1.1), z.1 (i.0.2, i.1.2)),
        )

    none_inside : disjoint ≡ true → Meets none
    none_inside h c i j = elim (Bool-cases (leb_ℤ high.x low.x)) [
      | inl x ↦ apart _ _ _ _ _ _ (max_ℤ-IsMax _ _) (min_ℤ-IsMin _ _) x c.x i.0 j.0
      | inr x' ↦ elim (Bool-cases (leb_ℤ high.y low.y)) [
        | inl y ↦ apart _ _ _ _ _ _ (max_ℤ-IsMax _ _) (min_ℤ-IsMin _ _) y c.y i.1 j.1
        | inr y' ↦ apart _ _ _ _ _ _ (max_ℤ-IsMax _ _) (min_ℤ-IsMin _ _) (ground arith) c.z i.2 j.2
      ]
    ]

    from_lower_upper-ret : IsValid meet → from_lower_upper low high ≡ ret meet
    unfolding from_lower_upper sub from_lower_size
    from_lower_upper-ret k =
        let e = run_vec-ret (sub_vec high low) k.sizes_in in
        let f =
          (checked_from_lower_size_iff low (sub_vec high low) meet k.lower_in k.sizes_in).1
            (refl, k) in
        rw (e, f) refl

    intersected : (r : Option GridAab) × (intersection b o ≡ ret r) × Meets r
    unfolding intersection
    intersected = elim (Bool-cases disjoint) [
      | inl h ↦ (
        none,
        rw (upper_bounds-ret b v, upper_bounds-ret o w) (pick_true disjoint _ _ h),
        none_inside h,
      )
      | inr h ↦
          let k = meet-IsValid h in
          (
            some meet,
            rw (upper_bounds-ret b v, upper_bounds-ret o w)
                (pick_false disjoint _ _ h ∙ rw (from_lower_upper-ret k) refl),
            (k, Inside-iff),
          )
    ]

-- The intersection of valid boxes never panics: it is a valid box of the cubes that both hold, or
-- `None` where they have no cube in common.
pub intersection-Meets :
    (b o : GridAab)
    → IsValid b
    → IsValid o
    → (r : Option GridAab) × (intersection b o ≡ ret r) × Meets b o r
intersection-Meets b o v w = intersected b o v w
