-- ===== src/Examples/Items.antt =====
-- The theorems on inventories, on the integer allocator and on resolutions at concrete arguments.
use all_is_cubes.Inventory.Conservation.{check-Checked, Checked}
use all_is_cubes.Inventory.Moving.{Slotted}
use all_is_cubes.Inventory.Tools.{Tools, merge, contains_key}
use all_is_cubes.Inventory.Merging.{Merged, merge-Merged}
use all_is_cubes.Inventory.Using.{Used, use_tool-Used}
use all_is_cubes.Prelude.Run.{ret, Result, ok}
use all_is_cubes.Inventory.{
  one, standard, check, empty, Draft, stack, PreconditionFailed, Slots, Items, InventoryTransaction,
}
use all_is_cubes.Allocator.Claims.{allocate-Fresh, Fresh, IsValid}
use all_is_cubes.Allocator.{allocate, IntAllocator}
use all_is_cubes.Prelude.{
  List, ◌+◌, ◌==◌, if◌then◌else◌, ◌∷◌, nat_eq, [], Option, ℕ, some, ◌≡◌, refl, arith,
}

abbrev number_items : Items
number_items = record {
  Tool = ℕ;
  tool_eq = nat_eq;
  stack_limit = λ n. if n == 7 then standard else one;
}

-- 99 of the item 7, a single 5, and nothing.
abbrev three_slots : Slots number_items
three_slots = stack 99 7 ∷ stack 1 5 ∷ empty ∷ []

-- The single 5 becomes a single 4, and three of the item 7 come in.
abbrev trade : InventoryTransaction number_items
trade = record { replace = (1, stack 1 5, stack 1 4) ∷ []; insert = stack 3 7 ∷ [] }

check-Checked_example :
    (r : Result PreconditionFailed (Option (Draft number_items))) × (check number_items trade
        three_slots
      ≡ ret r)
    × Checked number_items trade three_slots r
check-Checked_example =
    check-Checked number_items trade three_slots ((omega arith, omega arith), tt)
      ((omega arith, omega arith), tt)
      ((omega arith, omega arith), ((omega arith, omega arith), (tt, tt)))

three_slots-Slotted : Slotted number_items three_slots
three_slots-Slotted = ((omega arith, omega arith), ((omega arith, omega arith), (tt, tt)))

-- A tool that adds its input to itself, and transactions that are lists of updates.
abbrev adders : Tools number_items
adders = record {
  Input = ℕ;
  UniverseTransaction = List (InventoryTransaction number_items);
  ToolError = Unit {0};
  no_tool = tt;
  tool_use = λ tool input. ok (some (tool + input), []);
  merge_update = λ updates t. some (t ∷ updates);
}

use_tool-Used_example :
    Used number_items three_slots 0 99 7 three_slots-Slotted
      (omega arith, omega arith)
      refl
      adders
      2
      (ok (some 9, []))
use_tool-Used_example =
    use_tool-Used number_items three_slots 0 99 7 three_slots-Slotted (omega arith, omega arith)
      refl adders 2

-- Two of the item 7 take the place of 99.
abbrev sale : InventoryTransaction number_items
sale = record { replace = (0, stack 99 7, stack 2 7) ∷ []; insert = [] }

merge-Merged_example : Merged number_items trade sale (merge number_items trade sale)
unfolding contains_key
merge-Merged_example = merge-Merged number_items trade sale (refl, tt)

-- The numbers up to 3 but 1 are in use.
abbrev some_used : IntAllocator
some_used = record { last_allocated = some 3; free_list = 1 ∷ [] }

some_used-IsValid : IsValid 255 some_used
some_used-IsValid = record {
  below = λ n m. ground arith;
  once = refl;
  in_type = λ n e. ground arith;
}

allocate-Fresh_example : Fresh 255 1 some_used (allocate 255 some_used).1
unfolding allocate
allocate-Fresh_example = allocate-Fresh 255 1 some_used some_used-IsValid refl

-- A type of two numbers, both in use.
abbrev all_used : IntAllocator
all_used = record { last_allocated = some 1; free_list = [] }
