-- ===== src/Prelude/Run.antt =====
-- Code that may panic: arithmetic overflow (every build profile enables the checks), `unwrap`,
-- `expect`, an index out of range. A panic ends the operation.
use all_is_cubes.Prelude.{inr, inl, ◌⊎◌, ◌≡◌, refl, Bool, true, false, Option, none, some, arith}
use all_is_cubes.Prelude.{if◌then◌else◌}
use all_is_cubes.Prelude.Int.{ℤ, InI32, in_i32}

pub data Run {ℓ} (A : Type ℓ) : Type ℓ where
  ret : A → Run A
  panic : Run A

infixl 5 ◌>>=◌ ◌>>◌
abbrev pub ◌>>=◌ {ℓ κ} : {A : Type ℓ} {B : Type κ} → Run A → (A → Run B) → Run B
ret a >>= f = f a
panic >>= f = panic

abbrev pub ◌>>◌ {ℓ} : {B : Type ℓ} → Run (Unit {0}) → Run B → Run B
m >> k = m >>= λ _. k

abbrev pub assert : Bool → Run (Unit {0})
assert true = ret tt
assert false = panic

-- `Option::unwrap`, `Option::expect`
abbrev pub unwrap {ℓ} : {A : Type ℓ} → Option A → Run A
unwrap none = panic
unwrap (some a) = ret a

-- The result of an `i32` operation whose exact value is `z`.
unfoldable pub i32 : ℤ → Run ℤ
i32 z = if in_i32 z then ret z else panic

-- `i32::checked_add` and the like.
unfoldable pub checked_i32 : ℤ → Option ℤ
checked_i32 z = if in_i32 z then some z else none

pub i32-ret : (z : ℤ) → InI32 z → i32 z ≡ ret z
unfolding i32
i32-ret z h = ground arith

pub i32-eq_ret : (z : ℤ) {y : ℤ} → i32 z ≡ ret y → (y ≡ z) × InI32 z
unfolding i32
i32-eq_ret z h = ground arith

pub checked_i32-some : (z : ℤ) → InI32 z → checked_i32 z ≡ some z
unfolding checked_i32
checked_i32-some z h = ground arith

pub checked_i32-eq_some : (z : ℤ) {y : ℤ} → checked_i32 z ≡ some y → (y ≡ z) × InI32 z
unfolding checked_i32
checked_i32-eq_some z h = ground arith

-- Inversion of a run that returned.
pub >>=-eq-ret {ℓ κ} :
    {A : Type ℓ} {B : Type κ} (m : Run A) (f : A → Run B) {b : B}
    → (m >>= f) ≡ ret b
    → (a : A) × (m ≡ ret a) × (f a ≡ ret b)
>>=-eq-ret (ret a) f h = (a, refl, h)
>>=-eq-ret panic f h = cc

pub data Result {ℓ κ} (E : Type ℓ) (A : Type κ) : Type (ℓ ⊔ κ) where
  ok : A → Result E A
  err : E → Result E A

-- `Result::unwrap`, `Result::expect`
abbrev pub expect {ℓ κ} : {E : Type ℓ} {A : Type κ} → Result E A → Run A
expect (ok a) = ret a
expect (err e) = panic

pub Result-cases {ℓ κ} :
    {E : Type ℓ} {A : Type κ} (r : Result E A) → ((a : A) × (r ≡ ok a)) ⊎ ((e : E) × (r ≡ err e))
Result-cases (ok a) = inl (a, refl)
Result-cases (err e) = inr (e, refl)

pub Run-cases {ℓ} : {A : Type ℓ} (m : Run A) → ((a : A) × (m ≡ ret a)) ⊎ (m ≡ panic)
Run-cases (ret a) = inl (a, refl)
Run-cases panic = inr refl

pub ok-eq_ok {ℓ κ} :
    {E : Type ℓ} {A : Type κ} {a b : A} → ◌≡◌ {A = Result E A} (ok a) (ok b) → a ≡ b
ok-eq_ok h = cc

pub err≢ok {ℓ κ} :
    {E : Type ℓ} {A : Type κ} {e : E} {a : A} → ◌≡◌ {A = Result E A} (err e) (ok a) → ⊥
err≢ok h = cc

pub ret-eq_ret {ℓ} : {A : Type ℓ} {a b : A} → ret a ≡ ret b → a ≡ b
ret-eq_ret h = cc
