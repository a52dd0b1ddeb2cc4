-- ===== src/Inventory/Using.antt =====
-- `Inventory::use_tool` (all-is-cubes/src/inv/inventory.rs): what it does to the items.
use all_is_cubes.Prelude.{
  ◌≡◌, inl, inr, refl, ap, ◌∙◌, ◌-◌, ◌+◌, ◌<◌, ◌==◌, true, false, Bool-cases, Option, none, some,
  [], ◌∷◌, get_elem?, set, length-set, ℕ, arith,
}
use all_is_cubes.Prelude.Run.{ret, ◌>>=◌, unwrap, Result, ok, err}
use all_is_cubes.Inventory.{
  Items, Slot, empty, stack, stack_of, InventoryTransaction, Slots, Draft, PreconditionFailed,
  insufficient_empty_slots, check, check_changes, replace_slots, slot_eqb, count_of, wrap_ok,
  insert_stacks,
}
use all_is_cubes.Inventory.Tools.{Tools, use_tool, tool_transaction}
use all_is_cubes.Inventory.Moving.{IsSlot, Slotted}
use all_is_cubes.Inventory.Conservation.{
  Keeps, Inserted, total-set, Slotted-set, insert_stacks-Inserted,
}

module _ (I : Items) where
  open I use {Tool, tool_eq}

  -- One item of a tool that is left, and none of one that is not.
  abbrev pub left_of : Tool → Option Tool → ℕ
  left_of item none = 0
  left_of item (some b) = count_of I item (stack 1 b)

  -- The answer of the check of the update: the inventory gives one of the tool that was used and
  -- gets what is left of it; only a tool that leaves a stack may find no room.
  abbrev pub Answered :
      Slots I → ℕ → Tool → Option Tool → Result PreconditionFailed (Option (Draft I)) → Type 0
  Answered slots n a new (err e) =
      (e ≡ insufficient_empty_slots) × (1 < n) × ((b : Tool) × (new ≡ some b))
  Answered slots n a new (ok none) = ⊥
  Answered slots n a new (ok (some draft)) =
      Keeps I slots draft.0 (λ item. left_of item new) (λ item. count_of I item (stack 1 a))

  slot_eqb_refl : (s : Slot Tool) → slot_eqb I s s ≡ true
  unfolding slot_eqb
  slot_eqb_refl empty = refl
  slot_eqb_refl (stack n a) = ground (arith, tool_eq.beq_iff a a)

  stack_of-IsSlot : (n : ℕ) (a : Tool) → n < 65536 → IsSlot I (stack_of I n a)
  unfolding stack_of
  stack_of-IsSlot n a h = elim (Bool-cases (n == 0)) [
    | inl e ↦ rw (e, stack_of) tt
    | inr e ↦ rw (e, stack_of) (ground arith, h)
  ]

  stack_of-count_of :
      (n : ℕ) (a item : Tool)
      → 0 < n
      → count_of I item (stack_of I (n - 1) a) + count_of I item (stack 1 a)
        ≡ count_of I item (stack n a)
  unfolding stack_of count_of
  stack_of-count_of n a item h = ground arith

  module _ (slots : Slots I) (i n : ℕ) (a : Tool) (sl : Slotted I slots) (is : IsSlot I (stack n a))
      (found : get_elem? slots i ≡ some (stack n a)) where
    -- A replacement of the slot that was read.
    replaced-Keeps :
        (s : Slot Tool)
        → IsSlot I s
        → (plus : Tool → ℕ)
        → ((item : Tool)
            → count_of I item s + count_of I item (stack 1 a)
              ≡ count_of I item (stack n a) + plus item)
        → Keeps I slots (set slots i s) plus (λ item. count_of I item (stack 1 a))
    replaced-Keeps s h plus e = record {
      slots_are = Slotted-set I slots i s sl h;
      same_length = length-set slots i s;
      conserved = λ item. omega (arith, total-set I item slots i (stack n a) s found, e item);
    }

    check-replace :
        (s : Slot Tool) (inserted : Slots I)
        → check I (record { replace = (i, stack n a, s) ∷ []; insert = inserted }) slots
          ≡ (insert_stacks I inserted (set slots i s) (i ∷ []) >>= λ r. ret (wrap_ok I r))
    unfolding check check_changes replace_slots
    check-replace s inserted =
        rw (check_changes, found, slot_eqb_refl (stack n a), replace_slots) refl

    -- What the update of a used tool promises: none for a tool that is as it was.
    abbrev pub Updated : Option Tool → Option (InventoryTransaction I) → Type 0
    Updated new none = new ≡ some a
    Updated new (some t) =
        (r : Result PreconditionFailed (Option (Draft I))) × (check I t slots ≡ ret r)
        × Answered slots n a new r

    single : (b : Tool) → IsSlot I (stack 1 b)
    single b = (omega arith, omega arith)

    unstacked :
        (b : Tool)
        → 1 < n
        → (r : Result PreconditionFailed (Option (Draft I))) × (check I
              (record {
                replace = (i, stack n a, stack_of I (n - 1) a) ∷ [];
                insert = stack 1 b ∷ [];
              })
              slots
            ≡ ret r)
          × Answered slots n a (some b) r
    unstacked b h =
        let rest = stack_of I (n - 1) a in
        let rest_is = stack_of-IsSlot (n - 1) a (omega (arith, is.1)) in
        let taken =
          replaced-Keeps rest rest_is (λ item. 0)
            (λ item. omega (arith, stack_of-count_of n a item is.0)) in
        let (r, e, inserted) =
          insert_stacks-Inserted I (stack 1 b ∷ []) (set slots i rest) (i ∷ []) (single b, tt)
            taken.slots_are in
        (wrap_ok I r, rw (check-replace rest (stack 1 b ∷ []), e) refl, both r taken inserted)
      where
        both :
            (r : Result PreconditionFailed (Draft I))
            → Keeps I slots
                (set slots i (stack_of I (n - 1) a))
                (λ item. 0)
                (λ item. count_of I item (stack 1 a))
            → Inserted I (stack 1 b ∷ []) (set slots i (stack_of I (n - 1) a)) r
            → Answered slots n a (some b) (wrap_ok I r)
        both (err e) k j = (j, h, (b, refl))
        both (ok draft) k j = record {
          slots_are = j.slots_are;
          same_length = j.same_length ∙ k.same_length;
          conserved = λ item. omega (arith, j.conserved item, k.conserved item);
        }

    tool_transaction-Updated :
        (new : Option Tool)
        → (u : Option (InventoryTransaction I)) × (tool_transaction I i n a new ≡ ret u)
          × Updated new u
    unfolding tool_transaction insert_stacks
    tool_transaction-Updated none =
        let rest = stack_of I (n - 1) a in
        (
          some (record { replace = (i, stack n a, rest) ∷ []; insert = [] }),
          refl,
          (
            ok (some (set slots i rest, i ∷ [])),
            check-replace rest [],
            replaced-Keeps rest (stack_of-IsSlot (n - 1) a (omega (arith, is.1))) (λ item. 0)
                (λ item. omega (arith, stack_of-count_of n a item is.0)),
          ),
        )
    tool_transaction-Updated (some b) = elim (Bool-cases (tool_eq.beq b a)) [
      | inl same ↦ (none, rw (same, tool_transaction) refl, ap some ((tool_eq.beq_iff b a).0 same))
      | inr other ↦ elim (Bool-cases (n == 1)) [
        | inl e ↦ (
          some (record { replace = (i, stack n a, stack 1 b) ∷ []; insert = [] }),
          rw (other, e, tool_transaction) refl,
          (
            ok (some (set slots i (stack 1 b), i ∷ [])),
            check-replace (stack 1 b) [],
            replaced-Keeps (stack 1 b) (single b) (λ item. count_of I item (stack 1 b))
                (λ item. let single_tool : n ≡ 1 = ground arith in rw single_tool (omega arith)),
          ),
        )
        | inr e ↦ (
          some (record {
            replace = (i, stack n a, stack_of I (n - 1) a) ∷ [];
            insert = stack 1 b ∷ [];
          }),
          rw (other, e, tool_transaction) refl,
          unstacked b (more is.0 e),
        )
      ]
    ]
      where
        more : 0 < n → (n == 1) ≡ false → 1 < n
        more h e = ground arith

    -- What a use of the tool in the slot promises, by what the tool itself answers: its error, or
    -- its transaction, with an update of the inventory merged into it where there is one.
    abbrev pub Used :
        (T : Tools I)
        → Tools.Input T
        → Result (Tools.ToolError T) (Option Tool × Tools.UniverseTransaction T)
        → Type 0
    Used T input (err e) = use_tool I T input slots i ≡ ret (err e)
    Used T input (ok (new, transaction)) =
        (u : Option (InventoryTransaction I)) × Updated new u
        × (use_tool I T input slots i ≡ elim u [
          | none ↦ ret (ok transaction)
          | some t ↦ unwrap (T.merge_update transaction t) >>= λ m. ret (ok m)
        ])

    -- Using the tool in a slot of a valid inventory gives the error of the tool, or its transaction
    -- with an update of the inventory merged into it. There is no update if the tool is as it was.
    -- The check of the update does not panic; it accepts, and takes one of the tool and gives what is
    -- left of it, or it finds no room for a tool that was changed and stood in a stack of several.
    pub use_tool-Used : (T : Tools I) (input : Tools.Input T) → Used T input (T.tool_use a input)
    unfolding use_tool
    use_tool-Used T input = by_answer (T.tool_use a input) refl
      where
        by_answer :
            (r : Result (Tools.ToolError T) (Option Tool × Tools.UniverseTransaction T))
            → T.tool_use a input ≡ r
            → Used T input r
        by_answer (err e) h = rw (found, h, use_tool) refl
        by_answer (ok (new, transaction)) h =
            let (u, e, updated) = tool_transaction-Updated new in
            (u, updated, rw (found, h, e, use_tool) refl)
