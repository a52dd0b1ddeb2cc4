-- ===== src/Resolution.antt =====
-- all-is-cubes/src/block/resolution.rs: `Resolution`, the powers of two up to 128.
pub mod Powers
use all_is_cubes.Prelude.{ℕ, ◌*◌, ◌/◌, ◌^◌, ◌==◌, if◌then◌else◌, Option, none, some}
use all_is_cubes.Prelude.Run.{Result, ok, err}

pub data Resolution : Type 0 where
  r1 r2 r4 r8 r16 r32 r64 r128 : Resolution

-- `resolution as u8`
unfoldable pub discriminant : Resolution → ℕ
discriminant r1 = 0
discriminant r2 = 1
discriminant r4 = 2
discriminant r8 = 3
discriminant r16 = 4
discriminant r32 = 5
discriminant r64 = 6
discriminant r128 = 7

unfoldable pub double : Resolution → Option Resolution
double r1 = some r2
double r2 = some r4
double r4 = some r8
double r8 = some r16
double r16 = some r32
double r32 = some r64
double r64 = some r128
double r128 = none

unfoldable pub halve : Resolution → Option Resolution
halve r1 = none
halve r2 = some r1
halve r4 = some r2
halve r8 = some r4
halve r16 = some r8
halve r32 = some r16
halve r64 = some r32
halve r128 = some r64

-- `1 << self`, which is `to_grid` and each of the conversions to an integer type.
unfoldable pub to_grid : Resolution → ℕ
unfolding discriminant
to_grid r = 2 ^ discriminant r

-- `IntoResolutionError` holds the number.
pub data IntoResolutionError : Type 0 where
  not_permitted : ℕ → IntoResolutionError

-- The match of `impl_try_from!`, on numbers that are not negative.
unfoldable pub try_from : ℕ → Result IntoResolutionError Resolution
try_from value =
    if value == 1
    then ok r1
    else if value == 2
    then ok r2
    else if value == 4
    then ok r4
    else if value == 8
    then ok r8
    else if value == 16
    then ok r16
    else if value == 32
    then ok r32
    else if value == 64
    then ok r64
    else if value == 128
    then ok r128
    else err (not_permitted value)

-- `Result::ok`
abbrev pub ok_of {ℓ κ} : {E : Type ℓ} {A : Type κ} → Result E A → Option A
ok_of (ok a) = some a
ok_of (err e) = none

-- `self * rhs`; the product of two resolutions fits in a u32.
unfoldable pub mul : Resolution → Resolution → Option Resolution
unfolding try_from to_grid
mul a b = ok_of (try_from (to_grid a * to_grid b))

-- `self / rhs`
unfoldable pub div : Resolution → Resolution → Option Resolution
unfolding try_from to_grid
div a b = ok_of (try_from (to_grid a / to_grid b))
