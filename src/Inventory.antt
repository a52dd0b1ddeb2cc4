-- ===== src/Inventory.antt =====
-- all-is-cubes/src/inv/inventory.rs: `Inventory`, its slots, and `InventoryTransaction`.
--
-- `Items` is what it uses of a `Tool`: equality, and `stack_limit`. The B-tree map of replacements
-- is the list of its entries in the order of the keys, which are distinct.
pub mod Moving
pub mod Conservation
pub mod Merging
pub mod Tools
pub mod Using
use all_is_cubes.Prelude.Run.{◌>>=◌, panic, err, ret, ok, Run, Result}
use all_is_cubes.Prelude.{
  ◌++◌, ◌+◌, ◌&&◌, set, length, ◌-◌, some, none, get_elem?, false, ◌==◌, true, min, ltb, [], ◌∷◌,
  if◌then◌else◌, Option, List, Eq, Bool, ℕ,
}

pub data StackLimit : Type 0 where
  one standard : StackLimit

unfoldable pub get : StackLimit → ℕ
get one = 1
get standard = 100

pub record Items : Type 1 where
  pub Tool : Type 0
  pub tool_eq : Eq Tool
  pub stack_limit : Tool → StackLimit

-- The count of a stack is a `NonZeroU16`.
pub data Slot (Tool : Type 0) : Type 0 where
  empty : Slot Tool
  stack : ℕ → Tool → Slot Tool

pub data PreconditionFailed : Type 0 where
  slot_out_of_bounds old_slot_not_as_expected insufficient_empty_slots : PreconditionFailed

-- `NonZeroU16::new(n).unwrap()`, where `n` is a `u16` that was computed without wrapping.
unfoldable pub non_zero : ℕ → Run ℕ
non_zero n = if n == 0 then panic else if ltb n 65536 then ret n else panic

module _ (I : Items) where
  open I use {Tool, tool_eq, stack_limit}

  -- `Slot::stack`
  unfoldable pub stack_of : ℕ → Tool → Slot Tool
  stack_of count tool = if count == 0 then empty else stack count tool

  unfoldable pub slot_count : Slot Tool → ℕ
  slot_count empty = 0
  slot_count (stack count tool) = count

  unfoldable pub count_of : Tool → Slot Tool → ℕ
  count_of item empty = 0
  count_of item (stack count tool) = if tool_eq.beq tool item then count else 0

  -- The derived `PartialEq`.
  unfoldable pub slot_eqb : Slot Tool → Slot Tool → Bool
  slot_eqb empty empty = true
  slot_eqb empty (stack n b) = false
  slot_eqb (stack m a) empty = false
  slot_eqb (stack m a) (stack n b) = (m == n) && tool_eq.beq a b

  -- The slots after `unload_to`, and what it returns.
  abbrev pub Unloaded : Type 0
  Unloaded = record { source : Slot Tool; destination : Slot Tool; moved : Bool }

  abbrev pub unloaded : Slot Tool → Slot Tool → Bool → Unloaded
  unloaded s d m = record { source = s; destination = d; moved = m }

  -- Stacks of identical items. `saturating_sub` is the subtraction of natural numbers.
  unfoldable pub unload_same : ℕ → Tool → ℕ → Tool → Run Unloaded
  unfolding get non_zero
  unload_same s_count source_item d_count destination_item =
      let max_stack = get (stack_limit destination_item) in
      let count_to_move = min s_count (max_stack - d_count) in
      if count_to_move == 0
      then ret (unloaded (stack s_count source_item) (stack d_count destination_item) false)
      else if ltb count_to_move s_count
      then (non_zero (s_count - count_to_move) >>= λ s'.
          non_zero (d_count + count_to_move) >>= λ d'.
          ret (unloaded (stack s' source_item) (stack d' destination_item) true))
      else (non_zero (d_count + count_to_move) >>= λ d'.
          ret (unloaded empty (stack d' destination_item) true))

  unfoldable pub unload_to : Slot Tool → Slot Tool → Run Unloaded
  unfolding unload_same
  unload_to empty destination = ret (unloaded empty destination false)
  unload_to (stack n a) empty = ret (unloaded empty (stack n a) true)
  unload_to (stack n a) (stack m b) =
      if tool_eq.beq a b then unload_same n a m b else ret (unloaded (stack n a) (stack m b) false)

  pub record InventoryTransaction : Type 0 where
    pub replace : List (ℕ × Slot Tool × Slot Tool)
    pub insert : List (Slot Tool)

  unfoldable pub keep_items : List (Slot Tool) → List (Slot Tool)
  unfolding slot_count
  keep_items [] = []
  keep_items (s ∷ ss) = if ltb 0 (slot_count s) then s ∷ keep_items ss else keep_items ss

  unfoldable pub insert : List (Slot Tool) → InventoryTransaction
  unfolding keep_items
  insert stacks = record { replace = []; insert = keep_items stacks }

  unfoldable pub replace : ℕ → Slot Tool → Slot Tool → InventoryTransaction
  replace slot old new = record { replace = (slot, old, new) ∷ []; insert = [] }

  abbrev pub Slots : Type 0
  Slots = List (Slot Tool)

  -- The slots under way, with the indices that were changed so far.
  abbrev pub Draft : Type 0
  Draft = Slots × List ℕ

  unfoldable pub replace_slots :
      List (ℕ × Slot Tool × Slot Tool) → Slots → List ℕ → Result PreconditionFailed Draft
  unfolding slot_eqb
  replace_slots [] slots changed = ok (slots, changed)
  replace_slots ((index, old, new) ∷ rest) slots changed = elim (get_elem? slots index) [
    | none ↦ err slot_out_of_bounds
    | some actual_old ↦
        if slot_eqb actual_old old
        then replace_slots rest (set slots index new) (changed ++ (index ∷ []))
        else err old_slot_not_as_expected
  ]

  -- What is left of a stack after a pass over the slots from `index` on.
  abbrev pub Pass : Type 0
  Pass = record { left : Slot Tool; slots : Slots; changed : List ℕ }

  abbrev pub is_empty : Slot Tool → Bool
  is_empty empty = true
  is_empty (stack n a) = false

  unfoldable pub insert_stack : Slot Tool → ℕ → Slots → List ℕ → Run Pass
  unfolding unload_to
  insert_stack new_stack index [] changed =
      ret (record { left = new_stack; slots = []; changed = changed })
  insert_stack new_stack index (slot ∷ slots) changed =
      if is_empty new_stack
      then ret (record { left = new_stack; slots = slot ∷ slots; changed = changed })
      else (unload_to new_stack slot >>= λ u.
          insert_stack u.source (index + 1) slots
            (if u.moved then changed ++ (index ∷ []) else changed)
          >>= λ rest. ret (record {
            left = rest.left;
            slots = u.destination ∷ rest.slots;
            changed = rest.changed;
          }))

  unfoldable pub insert_stacks : Slots → Slots → List ℕ → Run (Result PreconditionFailed Draft)
  unfolding insert_stack
  insert_stacks [] slots changed = ret (ok (slots, changed))
  insert_stacks (new_stack ∷ rest) slots changed = insert_stack new_stack 0 slots changed >>= λ p.
      if is_empty p.left
      then insert_stacks rest p.slots p.changed
      else ret (err insufficient_empty_slots)

  abbrev pub wrap_ok : Result PreconditionFailed Draft → Result PreconditionFailed (Option Draft)
  wrap_ok (ok draft) = ok (some draft)
  wrap_ok (err e) = err e

  -- The part of `check` that follows the early return.
  unfoldable pub check_changes :
      InventoryTransaction → Slots → Run (Result PreconditionFailed (Option Draft))
  unfolding replace_slots insert_stacks
  check_changes t slots = elim (replace_slots t.replace slots []) [
    | err e ↦ ret (err e)
    | ok (replaced, changed) ↦ insert_stacks t.insert replaced changed >>= λ r. ret (wrap_ok r)
  ]

  -- `none` is the check of a transaction without effect.
  unfoldable pub check :
      InventoryTransaction → Slots → Run (Result PreconditionFailed (Option Draft))
  unfolding check_changes
  check t slots = elim t.replace [
    | [] ↦ elim t.insert [ [] ↦ ret (ok none) | s ∷ ss ↦ check_changes t slots ]
    | r ∷ rs ↦ check_changes t slots
  ]

  -- The slots after a commit, and the change that is sent.
  unfoldable pub commit : Option Draft → Slots → Run (Slots × Option (List ℕ))
  commit none slots = ret (slots, none)
  commit (some (new, changed)) slots =
      if length new == length slots then ret (new, some changed) else panic
