-- ===== src/Inventory/Tools.antt =====
-- all-is-cubes/src/inv/inventory.rs: merging inventory transactions, and `Inventory::use_tool`.
--
-- `Tools` is what it uses of the other components: what a tool does with its input (the cursor and
-- the character), and the merging of an inventory transaction, bound to the character, into a
-- transaction on the universe.
use all_is_cubes.Prelude.{
  ◌++◌, ◌-◌, ◌==◌, ltb, if◌then◌else◌, Option, none, some, List, [], ◌∷◌, get_elem?, ℕ, Bool, false,
  ◌||◌,
}
use all_is_cubes.Prelude.Run.{Run, ret, unwrap, expect, ◌>>=◌, Result, ok, err}
use all_is_cubes.Inventory
use all_is_cubes.Inventory.{Items, Slot, empty, stack, stack_of, InventoryTransaction, Slots}

pub data InventoryConflict : Type 0 where
  replace_same_slot : ℕ → InventoryConflict

module _ (I : Items) where
  open I use {Tool, tool_eq}

  abbrev pub Replaced : Type 0
  Replaced = List (ℕ × Slot Tool × Slot Tool)

  -- `BTreeMap::contains_key`
  unfoldable pub contains_key : ℕ → Replaced → Bool
  contains_key slot [] = false
  contains_key slot ((i, old, new) ∷ rest) = (i == slot) || contains_key slot rest

  -- The first slot that the other transaction replaces too.
  unfoldable pub find_conflict : Replaced → Replaced → Option ℕ
  unfolding contains_key
  find_conflict [] other = none
  find_conflict ((slot, old, new) ∷ rest) other =
      if contains_key slot other then some slot else find_conflict rest other

  unfoldable pub check_merge :
      InventoryTransaction I → InventoryTransaction I → Result InventoryConflict (Unit {0})
  unfolding find_conflict
  check_merge t other = elim (find_conflict t.replace other.replace) [
    | some slot ↦ err (replace_same_slot slot)
    | none ↦ ok tt
  ]

  -- `BTreeMap::insert`
  unfoldable pub put : ℕ → Slot Tool → Slot Tool → Replaced → Replaced
  put slot old new [] = (slot, old, new) ∷ []
  put slot old new ((i, old', new') ∷ rest) =
      if slot == i
      then (slot, old, new) ∷ rest
      else if ltb slot i
      then (slot, old, new) ∷ (i, old', new') ∷ rest
      else (i, old', new') ∷ put slot old new rest

  -- `BTreeMap::extend`
  unfoldable pub extend : Replaced → Replaced → Replaced
  unfolding put
  extend changes [] = changes
  extend changes ((slot, old, new) ∷ rest) = extend (put slot old new changes) rest

  unfoldable pub commit_merge :
      InventoryTransaction I → InventoryTransaction I → InventoryTransaction I
  unfolding extend
  commit_merge t other = record {
    replace = extend t.replace other.replace;
    insert = t.insert ++ other.insert;
  }

  -- `Merge::merge`
  unfoldable pub merge :
      InventoryTransaction I
      → InventoryTransaction I
      → Result InventoryConflict (InventoryTransaction I)
  unfolding check_merge commit_merge
  merge t other = elim (check_merge t other) [ err e ↦ err e | ok _ ↦ ok (commit_merge t other) ]

  pub record Tools : Type 1 where
    pub Input : Type 0
    pub UniverseTransaction : Type 0
    pub ToolError : Type 0
    pub no_tool : ToolError
    -- `Tool::use_tool`
    pub tool_use : Tool → Input → Result ToolError (Option Tool × UniverseTransaction)
    pub merge_update : UniverseTransaction → InventoryTransaction I → Option UniverseTransaction

  -- How a use changes the slot that holds `count` of the tool: `tool_transaction`.
  unfoldable pub tool_transaction :
      ℕ → ℕ → Tool → Option Tool → Run (Option (InventoryTransaction I))
  unfolding merge stack_of Inventory.replace Inventory.insert
  tool_transaction slot_index count original_tool none = ret (
      some (
        Inventory.replace I slot_index (stack count original_tool)
          (stack_of I (count - 1) original_tool)))
  tool_transaction slot_index count original_tool (some new_tool) =
      if tool_eq.beq new_tool original_tool
      then ret none
      else if count == 1
      then ret
          (some (Inventory.replace I slot_index (stack count original_tool) (stack 1 new_tool)))
      else (expect (
            merge
              (Inventory.replace I slot_index (stack count original_tool)
                (stack_of I (count - 1) original_tool))
              (Inventory.insert I (stack 1 new_tool ∷ [])))
          >>= λ t. ret (some t))

  unfoldable pub use_tool :
      (T : Tools)
      → Tools.Input T
      → Slots I
      → ℕ
      → Run (Result (Tools.ToolError T) (Tools.UniverseTransaction T))
  unfolding tool_transaction
  use_tool T input slots slot_index = elim (get_elem? slots slot_index) [
    | none ↦ ret (err T.no_tool)
    | some empty ↦ ret (err T.no_tool)
    | some (stack count original_tool) ↦ elim (T.tool_use original_tool input) [
      | err e ↦ ret (err e)
      | ok (new_tool, transaction) ↦ do
        update ← tool_transaction slot_index count original_tool new_tool
        elim update [
          | none ↦ ret (ok transaction)
          | some t ↦ do merged ← unwrap (T.merge_update transaction t); ret (ok merged)
        ]
    ]
  ]
