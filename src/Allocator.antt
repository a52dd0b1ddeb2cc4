-- ===== src/Allocator.antt =====
-- all-is-cubes/src/intalloc.rs: `IntAllocator`, over an integer type whose largest value is `max`.
-- No negative number is ever kept, so that the state holds natural numbers. The top of the vector
-- `free_list` is the head of the list.
pub mod Claims
use all_is_cubes.Prelude.{
  false, Bool, ℕ, ◌+◌, ◌-◌, ◌==◌, ltb, if◌then◌else◌, Option, none, some, List, [], ◌∷◌,
}
use all_is_cubes.Prelude.Int.{ℤ, pos, negsuc}
use all_is_cubes.Prelude.Run.{Run, ret, panic}

pub record IntAllocator : Type 0 where
  pub last_allocated : Option ℕ
  pub free_list : List ℕ

unfoldable pub new : IntAllocator
new = record { last_allocated = none; free_list = [] }

-- `T::checked_add(&1)`
abbrev pub checked_succ : ℕ → ℕ → Option ℕ
checked_succ max n = if ltb n max then some (n + 1) else none

-- The part of `allocate` that follows an empty free list.
unfoldable pub allocate_next : ℕ → IntAllocator → Option ℕ × IntAllocator
allocate_next max s = elim s.last_allocated [
  | none ↦ (some 0, record s { last_allocated = some 0 })
  | some last ↦ elim (checked_succ max last) [
    | none ↦ (none, s)
    | some next ↦ (some next, record s { last_allocated = some next })
  ]
]

unfoldable pub allocate : ℕ → IntAllocator → Option ℕ × IntAllocator
unfolding allocate_next
allocate max s = elim s.free_list [
  | free ∷ rest ↦ (some free, record s { free_list = rest })
  | [] ↦ allocate_next max s
]

-- `self.last_allocated == Some(value)`
abbrev pub is_last : Option ℕ → ℕ → Bool
is_last none value = false
is_last (some last) value = last == value

unfoldable pub free : IntAllocator → ℤ → Run IntAllocator
free s (negsuc n) = panic
free s (pos value) = ret (
    if is_last s.last_allocated value
    then record s { last_allocated = if ltb 0 value then some (value - 1) else none }
    else record s { free_list = value ∷ s.free_list })
