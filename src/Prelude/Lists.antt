-- ===== src/Prelude/Lists.antt =====
-- Lists measured and indexed by native numbers, under the library's names.
use Prim.Native.Nat.{ℕ, zero, suc, ◌+◌, ◌-◌, ◌<◌}
use mathlib.Core.Path.{◌≡◌, refl, ap, ◌∙◌}
use mathlib.Core.Bool.{◌&&◌}
use mathlib.Core.List.{List, [], ◌∷◌, ◌++◌, map}
use mathlib.Core.Option.{Option, none, some}
use native.Mathlib.Omega.{arith}
use all_is_cubes.Prelude.Tests.{ltb, ◌==◌, if◌then◌else◌}

module _ {ℓ} {A : Type ℓ} where
  abbrev pub length : List A → ℕ
  length [] = 0
  length (x ∷ xs) = suc (length xs)

  abbrev pub get_elem? : List A → ℕ → Option A
  get_elem? [] i = none
  get_elem? (x ∷ xs) zero = some x
  get_elem? (x ∷ xs) (suc i) = get_elem? xs i

  -- A write out of bounds changes nothing.
  abbrev pub set : List A → ℕ → A → List A
  set [] i v = []
  set (x ∷ xs) zero v = v ∷ xs
  set (x ∷ xs) (suc i) v = x ∷ set xs i v

  abbrev pub replicate : ℕ → A → List A
  replicate zero a = []
  replicate (suc n) a = a ∷ replicate n a

  pub length-append : (xs ys : List A) → length (xs ++ ys) ≡ length xs + length ys
  length-append [] ys = omega arith
  length-append (x ∷ xs) ys = omega (arith, length-append xs ys)

  pub length-replicate : (n : ℕ) (a : A) → length (replicate n a) ≡ n
  length-replicate zero a = refl
  length-replicate (suc n) a = ap suc (length-replicate n a)

  pub length-set : (xs : List A) (i : ℕ) (v : A) → length (set xs i v) ≡ length xs
  length-set [] i v = refl
  length-set (x ∷ xs) zero v = refl
  length-set (x ∷ xs) (suc i) v = ap suc (length-set xs i v)

  -- Reading after a write, in one equation.
  pub get_elem?-set :
      (xs : List A) (i : ℕ) (v : A) (j : ℕ)
      → get_elem? (set xs i v) j
        ≡ (if (i == j) && ltb j (length xs) then some v else get_elem? xs j)
  get_elem?-set [] i v j = ground arith
  get_elem?-set (x ∷ xs) zero v zero = ground arith
  get_elem?-set (x ∷ xs) zero v (suc j) = ground arith
  get_elem?-set (x ∷ xs) (suc i) v zero = ground arith
  get_elem?-set (x ∷ xs) (suc i) v (suc j) = get_elem?-set xs i v j ∙ ground arith

  pub get_elem?-lt : (xs : List A) (i : ℕ) → i < length xs → (a : A) × (get_elem? xs i ≡ some a)
  get_elem?-lt [] i h = elim h [ ]
  get_elem?-lt (x ∷ xs) zero h = (x, refl)
  get_elem?-lt (x ∷ xs) (suc i) h = get_elem?-lt xs i (omega arith)

  pub lt-get_elem? : (xs : List A) (i : ℕ) {a : A} → get_elem? xs i ≡ some a → i < length xs
  lt-get_elem? [] i h = cc
  lt-get_elem? (x ∷ xs) zero h = omega arith
  lt-get_elem? (x ∷ xs) (suc i) h = omega (arith, lt-get_elem? xs i h)

  pub get_elem?-append :
      (xs : List A) (y : A) (j : ℕ)
      → get_elem? (xs ++ (y ∷ [])) j ≡ (if j == length xs then some y else get_elem? xs j)
  get_elem?-append [] y zero = ground arith
  get_elem?-append [] y (suc j) = ground arith
  get_elem?-append (x ∷ xs) y zero = ground arith
  get_elem?-append (x ∷ xs) y (suc j) = get_elem?-append xs y j ∙ ground arith

  pub get_elem?-replicate :
      (n : ℕ) (a : A) (i : ℕ) → get_elem? (replicate n a) i ≡ (if ltb i n then some a else none)
  get_elem?-replicate zero a i = ground arith
  get_elem?-replicate (suc n) a zero = ground arith
  get_elem?-replicate (suc n) a (suc i) = get_elem?-replicate n a i ∙ ground arith

module _ {ℓ κ} {A : Type ℓ} {B : Type κ} where
  pub length-map : (xs : List A) (f : A → B) → length (map f xs) ≡ length xs
  length-map [] f = refl
  length-map (x ∷ xs) f = ap suc (length-map xs f)

module _ {ℓ} {A : Type ℓ} where
  pub get_elem?-append_parts :
      (xs ys : List A) (j : ℕ)
      → get_elem? (xs ++ ys) j
        ≡ (if ltb j (length xs) then get_elem? xs j else get_elem? ys (j - length xs))
  get_elem?-append_parts [] ys j = ground arith
  get_elem?-append_parts (x ∷ xs) ys zero = ground arith
  get_elem?-append_parts (x ∷ xs) ys (suc j) = get_elem?-append_parts xs ys j ∙ ground arith

  -- A list is known by what stands at each index.
  pub get_elem?_ext : (xs ys : List A) → ((j : ℕ) → get_elem? xs j ≡ get_elem? ys j) → xs ≡ ys
  get_elem?_ext [] [] h = refl
  get_elem?_ext [] (y ∷ ys) h = let e = h 0 in cc
  get_elem?_ext (x ∷ xs) [] h = let e = h 0 in cc
  get_elem?_ext (x ∷ xs) (y ∷ ys) h =
      let e : some x ≡ some y = h 0 in
      let x-eq : x ≡ y = cc in rw (x-eq, get_elem?_ext xs ys (λ j. h (suc j))) refl
