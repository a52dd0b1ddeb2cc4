-- ===== src/Layout/Sizing.antt =====
-- `LayoutGrant::shrink_to` (all-is-cubes-ui/src/vui/layout.rs): the sizes of the shrunk box.
use all_is_cubes.Math.Vector.{GridVector}
use all_is_cubes.Prelude.{
  ℕ, ◌+◌, ◌≢◌, ap, sym, ltb→lt, false, true, ◌≡◌, refl, Bool, inl, inr, ◌&&◌, not, ◌==◌, Bool-cases,
  if◌then◌else◌, arith,
}
use all_is_cubes.Prelude.Run.{ret, i32-ret}
use all_is_cubes.Prelude.Int.{
  pos_part, neg_part, ltb_ℤ, min_ℤ, ℤ, pos, ◌+ℤ◌, ◌≤ℤ◌, InI32, int_cases, eq_of_parts,
}
use all_is_cubes.Layout.{Align, is_center, parity, enlarge}

abbrev pub IsNonneg : GridVector → Type 0
IsNonneg s = (pos 0 ≤ℤ s.x) × (pos 0 ≤ℤ s.y) × (pos 0 ≤ℤ s.z)

-- The first size is at most the second one on each axis.
abbrev pub Fits : GridVector → GridVector → Type 0
Fits r s = (r.x ≤ℤ s.x) × (r.y ≤ℤ s.y) × (r.z ≤ℤ s.z)

-- The size that is asked for on an axis.
abbrev pub wanted : Bool → Align → ℤ → ℤ → ℤ
wanted for_symmetry gravity available size =
    if for_symmetry && is_center gravity && not (parity available == parity size)
    then size +ℤ pos 1
    else size

pub enlarge-ret :
    (f : Bool) (g : Align) (a s : ℤ)
    → InI32 (wanted f g a s)
    → enlarge f g a s ≡ ret (wanted f g a s)
unfolding enlarge
enlarge-ret f g a s k = elim (Bool-cases (f && is_center g && not (parity a == parity s))) [
  | inl e ↦ rw (e, enlarge) (i32-ret (s +ℤ pos 1) (rw e at k))
  | inr e ↦ rw (e, enlarge) refl
]

-- Whether the size grows or not, it stays in range.
pub wanted_in :
    (f : Bool) (g : Align) (a s : ℤ) → pos 0 ≤ℤ s → InI32 (s +ℤ pos 1) → InI32 (wanted f g a s)
wanted_in f g a s h k = elim (Bool-cases (f && is_center g && not (parity a == parity s))) [
  | inl e ↦ rw e k
  | inr e ↦ rw e (omega int_cases, omega int_cases)
]

-- A size grows only if it differs from the size that there is.
pub wanted_le :
    (f : Bool) (g : Align) (a s : ℤ) → s ≤ℤ a → (s ≤ℤ wanted f g a s) × (wanted f g a s ≤ℤ a)
wanted_le f g a s h = elim (Bool-cases (f && is_center g && not (parity a == parity s))) [
  | inl e ↦ rw e (omega int_cases, grown (λ q. differ f (is_center g) _ _ e (ap parity (sym q))))
  | inr e ↦ rw e (omega arith, h)
]
  where
    differ : (f c : Bool) (m n : ℕ) → (f && c && not (m == n)) ≡ true → m ≢ n
    differ f c m n e q = ground arith

    not_less : ltb_ℤ s a ≡ false → pos_part s + neg_part a ≡ pos_part a + neg_part s
    not_less l = ground arith

    grown : s ≢ a → (s +ℤ pos 1) ≤ℤ a
    grown ne = elim (Bool-cases (ltb_ℤ s a)) [
      | inl l ↦ omega (int_cases, ltb→lt _ _ l)
      | inr l ↦ absurd (ne (eq_of_parts s a (not_less l)))
    ]

-- What the size on an axis is in the end.
abbrev pub final_size : Bool → Align → ℤ → ℤ → ℤ
final_size f g available size = min_ℤ (wanted f g available size) available

pub final_size_lem :
    (f : Bool) (g : Align) (a s : ℤ)
    → pos 0 ≤ℤ a
    → pos 0 ≤ℤ s
    → (pos 0 ≤ℤ final_size f g a s) × (final_size f g a s ≤ℤ a)
final_size_lem f g a s h k = elim (Bool-cases (f && is_center g && not (parity a == parity s))) [
  | inl e ↦ rw e (bounds_of (s +ℤ pos 1) (omega int_cases))
  | inr e ↦ rw e (bounds_of s k)
]
  where
    bounds_of : (t : ℤ) → pos 0 ≤ℤ t → (pos 0 ≤ℤ min_ℤ t a) × (min_ℤ t a ≤ℤ a)
    bounds_of t p = (ground arith, ground arith)
