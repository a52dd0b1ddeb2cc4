-- ===== src/Math/Rotation/Checks.antt =====
-- Exhaustive tests over the rotations and the faces, for all-is-cubes/src/math/rotation.rs.
use all_is_cubes.Prelude.{
  ==_iff, some-eq_some, sym, ap, ◌∙◌, ◌≡◌, refl, ℕ, zero, suc, Bool, true, false, ◌&&◌, some, arith,
  List, [], ◌∷◌, get_elem?,
}
use all_is_cubes.Prelude.Run.{Run, ret, panic}
use all_is_cubes.Math.Face
use all_is_cubes.Math.Face.{Face6, nx, ny, nz, px, py, pz}
use all_is_cubes.Math.Rotation
use all_is_cubes.Math.Rotation.Operations
use all_is_cubes.Math.Rotation.{GridRotation, discriminant, px_py_pz}

-- Every element of the list passes the test.
abbrev pub all_of {ℓ} : {A : Type ℓ} → (A → Bool) → List A → Bool
all_of p [] = true
all_of p (x ∷ xs) = p x && all_of p xs

all_of-get_elem? {ℓ} :
    {A : Type ℓ} (p : A → Bool) (xs : List A) (i : ℕ) {a : A}
    → all_of p xs ≡ true
    → get_elem? xs i ≡ some a
    → p a ≡ true
all_of-get_elem? p [] i h at_i = cc
all_of-get_elem? p (x ∷ xs) zero h at_i = ground arith
all_of-get_elem? p (x ∷ xs) (suc i) h at_i = all_of-get_elem? p xs i (ground arith) at_i

rotation_at : (r : GridRotation) → get_elem? Rotation.all (discriminant r) ≡ some r
unfolding discriminant
rotation_at px_py_pz = refl
rotation_at _ = refl

abbrev pub faces : List Face6
faces = nx ∷ ny ∷ nz ∷ px ∷ py ∷ pz ∷ []

face_at : (f : Face6) → (i : ℕ) × (get_elem? faces i ≡ some f)
face_at nx = (0, refl)
face_at ny = (1, refl)
face_at nz = (2, refl)
face_at px = (3, refl)
face_at py = (4, refl)
face_at pz = (5, refl)

pub every_rotation :
    (p : GridRotation → Bool) → all_of p Rotation.all ≡ true → (r : GridRotation) → p r ≡ true
every_rotation p h r = all_of-get_elem? p Rotation.all (discriminant r) h (rotation_at r)

pub every_face : (p : Face6 → Bool) → all_of p faces ≡ true → (f : Face6) → p f ≡ true
every_face p h f = let i = face_at f in all_of-get_elem? p faces i.0 h i.1

pub every_pair :
    (p : GridRotation → GridRotation → Bool)
    → all_of (λ a. all_of (p a) Rotation.all) Rotation.all ≡ true
    → (a b : GridRotation) → p a b ≡ true
every_pair p h a b = every_rotation (p a) (every_rotation (λ a. all_of (p a) Rotation.all) h a) b

pub face_eqb-true : (f g : Face6) → Face.eqb f g ≡ true → f ≡ g
unfolding Face.eqb
face_eqb-true f g h = ground arith

-- The test passes on the value that the run returned.
abbrev pub returns {ℓ} : {A : Type ℓ} → (A → Bool) → Run A → Bool
returns p (ret a) = p a
returns p panic = false

pub returns-true {ℓ} :
    {A : Type ℓ} (p : A → Bool) (m : Run A)
    → returns p m ≡ true
    → (a : A) × (m ≡ ret a) × (p a ≡ true)
returns-true p (ret a) h = (a, refl, h)
returns-true p panic h = cc

pub face_eqb_refl : (f : Face6) → Face.eqb f f ≡ true
unfolding Face.eqb
face_eqb_refl nx = refl
face_eqb_refl _ = refl

pub rotation_eqb-true : (a b : GridRotation) → Operations.eqb a b ≡ true → a ≡ b
unfolding Operations.eqb
rotation_eqb-true a b h =
    let same = (==_iff (discriminant a) (discriminant b)).0 h in
    some-eq_some (sym (rotation_at a) ∙ ap (get_elem? Rotation.all) same ∙ rotation_at b)

pub all_of-faces : (p : Face6 → Bool) → ((f : Face6) → p f ≡ true) → all_of p faces ≡ true
all_of-faces p h = rw (h nx, h ny, h nz, h px, h py, h pz)

-- The test passes on the value, if the run returned one.
abbrev pub passes {ℓ} : {A : Type ℓ} → (A → Bool) → Run A → Bool
passes p (ret a) = p a
passes p panic = true

pub passes-ret {ℓ} :
    {A : Type ℓ} (p : A → Bool) (m : Run A) {a : A} → passes p m ≡ true → m ≡ ret a → p a ≡ true
passes-ret p (ret b) h e = cc
passes-ret p panic h e = cc

pub &&-true : (a b : Bool) → (a && b) ≡ true → (a ≡ true) × (b ≡ true)
&&-true a b h = ground arith
