-- ===== src/Math/Rotation/Group.antt =====
-- `Mul`, `inverse` and `transform` of `GridRotation` (all-is-cubes/src/math/rotation.rs) together.
use all_is_cubes.Prelude.{pick_true, ◌≡◌, refl, Bool, true, ◌&&◌, ◌∙◌, sym, ap, if◌then◌else◌}
use all_is_cubes.Prelude.Run.{panic, Run, ret, ◌>>=◌}
use all_is_cubes.Math.Face
use all_is_cubes.Math.Face.{Face6}
use all_is_cubes.Math.Rotation
use all_is_cubes.Math.Rotation.{GridRotation, identity}
use all_is_cubes.Math.Rotation.Operations
use all_is_cubes.Math.Rotation.Operations.{transform, mul, inverse, is_reflection}
use all_is_cubes.Math.Rotation.Checks.{
  &&-true, face_eqb_refl, every_pair, all_of-faces, all_of, faces, every_rotation, every_face,
  face_eqb-true, rotation_eqb-true, returns, returns-true,
}

abbrev composes : GridRotation → GridRotation → GridRotation → Bool
composes a b r = all_of (λ f. Face.eqb (transform r f) (transform a (transform b f))) faces

abbrev composes_with : GridRotation → GridRotation → Bool
composes_with a b = returns (composes a b) (mul a b)

composes_table : all_of (λ a. all_of (composes_with a) Rotation.all) Rotation.all ≡ true
unfolding mul transform Face.eqb
composes_table = refl

-- The product of two rotations always exists, and it acts on a face as the right factor followed
-- by the left one.
pub mul-transform :
    (a b : GridRotation)
    → (r : GridRotation) × (mul a b ≡ ret r)
      × ((f : Face6) → transform r f ≡ transform a (transform b f))
mul-transform a b =
    let found =
      returns-true (composes a b) (mul a b) (every_pair composes_with composes_table a b) in
    (
      found.0,
      found.1,
      λ f. face_eqb-true _ _ (
          every_face (λ f. Face.eqb (transform found.0 f) (transform a (transform b f))) found.2 f),
    )

abbrev agree : GridRotation → GridRotation → Bool
agree a b = all_of (λ f. Face.eqb (transform a f) (transform b f)) faces

abbrev agree_only : GridRotation → GridRotation → Bool
agree_only a b = if agree a b then Operations.eqb a b else true

agree_table : all_of (λ a. all_of (agree_only a) Rotation.all) Rotation.all ≡ true
unfolding transform Face.eqb Operations.eqb
agree_table = refl

-- Rotations that act alike on all faces are the same one.
pub transform_inj : (a b : GridRotation) → ((f : Face6) → transform a f ≡ transform b f) → a ≡ b
transform_inj a b h =
    let all_agree =
      all_of-faces (λ f. Face.eqb (transform a f) (transform b f))
        (λ f. rw (h f) (face_eqb_refl (transform b f))) in
    rotation_eqb-true a b (
      sym (pick_true (agree a b) (Operations.eqb a b) true all_agree)
      ∙ every_pair agree_only agree_table a b)

-- Multiplication is associative; no product panics, on either side.
pub mul_assoc :
    (a b c : GridRotation)
    → (r : GridRotation) × ((mul a b >>= λ ab. mul ab c) ≡ ret r)
      × ((mul b c >>= λ bc. mul a bc) ≡ ret r)
mul_assoc a b c =
    let ab = mul-transform a b in
    let left = mul-transform ab.0 c in
    let bc = mul-transform b c in
    let right = mul-transform a bc.0 in
    let same =
      transform_inj left.0 right.0
        (λ f. left.2 f ∙ ab.2 (transform c f) ∙ sym (right.2 f ∙ ap (transform a) (bc.2 f))) in
    (left.0, rw (ab.1, left.1), rw (bc.1, right.1, same))

abbrev inverts : GridRotation → GridRotation → Bool
inverts r s =
    returns (λ p. Operations.eqb p identity) (mul r s)
    && returns (λ p. Operations.eqb p identity) (mul s r)

inverse_table : all_of (λ r. returns (inverts r) (inverse r)) Rotation.all ≡ true
unfolding inverse mul Operations.eqb
inverse_table = refl

-- The inverse of a rotation exists: the loop that searches for it ends within its fuel, and what it
-- finds is the inverse on both sides.
pub inverse_lem :
    (r : GridRotation)
    → (s : GridRotation) × (inverse r ≡ ret s) × (mul r s ≡ ret identity) × (mul s r ≡ ret identity)
inverse_lem r =
    let found =
      returns-true (inverts r) (inverse r)
        (every_rotation (λ r. returns (inverts r) (inverse r)) inverse_table r) in
    let both = &&-true _ _ found.2 in
    (found.0, found.1, returns-identity _ both.0, returns-identity _ both.1)
  where
    returns-identity :
        (m : Run GridRotation)
        → returns (λ p. Operations.eqb p identity) m ≡ true
        → m ≡ ret identity
    returns-identity (ret p) h = ap ret (rotation_eqb-true p identity h)
    returns-identity panic h = cc
