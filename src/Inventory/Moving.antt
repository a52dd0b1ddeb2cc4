-- ===== src/Inventory/Moving.antt =====
-- `Slot::unload_to` and the pass of one stack over the slots (all-is-cubes/src/inv/inventory.rs).
use all_is_cubes.Prelude.Run.{ret}
use all_is_cubes.Prelude.{
  ◌⊎◌, suc, refl, ltb, inr, inl, ap, ◌==◌, ◌++◌, true, ◌≤◌, if◌then◌else◌, false, Bool-cases, ◌-◌,
  length, [], List, ◌∷◌, min, ◌≡◌, ℕ, ◌+◌, ◌<◌, arith,
}
use all_is_cubes.Inventory.{
  unloaded, count_of, StackLimit, unload_to, unload_same, non_zero, insert_stack, get, Unloaded,
  Pass, Items, Slot, empty, stack, Slots,
}

module _ (I : Items) where
  open I use {Tool, tool_eq, stack_limit}

  -- A stack has a count that is a `NonZeroU16`.
  abbrev pub IsSlot : Slot Tool → Type 0
  IsSlot empty = Unit {0}
  IsSlot (stack n a) = (0 < n) × (n < 65536)

  abbrev pub Slotted : Slots I → Type 0
  Slotted [] = Unit {0}
  Slotted (s ∷ ss) = IsSlot s × Slotted ss

  -- The number of the items of one kind.
  abbrev pub total : Tool → Slots I → ℕ
  total item [] = 0
  total item (s ∷ ss) = count_of I item s + total item ss

  -- What moving from one slot to another keeps.
  pub record Moves (s d : Slot Tool) (u : Unloaded I) : Type 0 where
    pub source_is : IsSlot u.source
    pub destination_is : IsSlot u.destination
    pub conserved :
        (item : Tool)
        → count_of I item u.source + count_of I item u.destination
          ≡ count_of I item s + count_of I item d
    pub idle : (u.moved ≡ true) ⊎ ((u.source ≡ s) × (u.destination ≡ d))

  get_le : (l : StackLimit) → get l ≤ 100
  unfolding get
  get_le l = ground arith

  non_zero-ret : (n : ℕ) → 0 < n → n < 65536 → non_zero n ≡ ret n
  unfolding non_zero
  non_zero-ret n h k = ground arith

  abbrev limit : Tool → ℕ
  limit b = get (stack_limit b)

  abbrev amount : ℕ → ℕ → Tool → ℕ
  amount n m b = min n (limit b - m)

  same-Moves :
      (n m : ℕ) (a : Tool)
      → IsSlot (stack n a)
      → IsSlot (stack m a)
      → (u : Unloaded I) × (unload_same I n a m a ≡ ret u) × Moves (stack n a) (stack m a) u
  unfolding unload_same count_of
  same-Moves n m a h k =
      let small = get_le (stack_limit a) in
      elim (Bool-cases (amount n m a == 0)) [
        | inl none_moved ↦ (
          unloaded I (stack n a) (stack m a) false,
          rw none_moved,
          record {
            source_is = h;
            destination_is = k;
            conserved = λ item. refl;
            idle = inr (refl, refl);
          },
        )
        | inr some_moved ↦
            let target = non_zero-ret (m + amount n m a) (ground arith) (ground arith) in
            elim (Bool-cases (ltb (amount n m a) n)) [
              | inl part ↦
                  let source = non_zero-ret (n - amount n m a) (ground arith) (ground arith) in
                  (
                    unloaded I (stack (n - amount n m a) a) (stack (m + amount n m a) a) true,
                    rw (some_moved, part, source, target),
                    record {
                      source_is = (ground arith, ground arith);
                      destination_is = (ground arith, ground arith);
                      conserved = λ item. ground arith;
                      idle = inl refl;
                    },
                  )
              | inr whole ↦ (
                unloaded I empty (stack (m + amount n m a) a) true,
                rw (some_moved, whole, target),
                record {
                  source_is = tt;
                  destination_is = (ground arith, ground arith);
                  conserved = λ item. ground arith;
                  idle = inl refl;
                },
              )
            ]
      ]

  -- Moving from one slot to another never panics, keeps the counts in their type, and keeps the
  -- number of the items of every kind; if it reports no move, both slots are as before.
  pub unload_to-Moves :
      (s d : Slot Tool)
      → IsSlot s
      → IsSlot d
      → (u : Unloaded I) × (unload_to I s d ≡ ret u) × Moves s d u
  unfolding unload_to count_of
  unload_to-Moves empty d h k = (
    unloaded I empty d false,
    refl,
    record {
      source_is = tt;
      destination_is = k;
      conserved = λ item. refl;
      idle = inr (refl, refl);
    },
  )
  unload_to-Moves (stack n a) empty h k = (
    unloaded I empty (stack n a) true,
    refl,
    record { source_is = tt; destination_is = h; conserved = λ item. omega arith; idle = inl refl },
  )
  unload_to-Moves (stack n a) (stack m b) h k = elim (Bool-cases (tool_eq.beq a b)) [
    | inr other ↦ (
      unloaded I (stack n a) (stack m b) false,
      rw other,
      record {
        source_is = h;
        destination_is = k;
        conserved = λ item. refl;
        idle = inr (refl, refl);
      },
    )
    | inl equal ↦
        let e : a ≡ b = (tool_eq.beq_iff a b).0 equal in
        let (u, f, moves) = same-Moves n m a h k in (u, rw equal (rw (← e) f), rw (← e) moves)
  ]

  -- What is left of a stack, and the slots, after a pass.
  pub record Passes (new_stack : Slot Tool) (slots : Slots I) (p : Pass I) : Type 0 where
    pub left_is : IsSlot p.left
    pub slots_are : Slotted p.slots
    pub same_length : length p.slots ≡ length slots
    pub conserved :
        (item : Tool)
        → count_of I item p.left + total item p.slots ≡ count_of I item new_stack + total item slots

  pub insert_stack-Passes :
      (new_stack : Slot Tool) (index : ℕ) (slots : Slots I) (changed : List ℕ)
      → IsSlot new_stack
      → Slotted slots
      → (p : Pass I) × (insert_stack I new_stack index slots changed ≡ ret p)
        × Passes new_stack slots p
  unfolding insert_stack
  insert_stack-Passes new_stack index [] changed h k = (
    record { left = new_stack; slots = []; changed = changed },
    refl,
    record { left_is = h; slots_are = tt; same_length = refl; conserved = λ item. refl },
  )
  insert_stack-Passes empty index (slot ∷ slots) changed h k = (
    record { left = empty; slots = slot ∷ slots; changed = changed },
    refl,
    record { left_is = h; slots_are = k; same_length = refl; conserved = λ item. refl },
  )
  insert_stack-Passes (stack n a) index (slot ∷ slots) changed h k =
      let (u, e, moves) = unload_to-Moves (stack n a) slot h k.0 in
      let (p, f, passes) =
        insert_stack-Passes u.source (index + 1) slots
          (if u.moved then changed ++ (index ∷ []) else changed) moves.source_is k.1 in
      (
        record { left = p.left; slots = u.destination ∷ p.slots; changed = p.changed },
        rw (e, f, insert_stack),
        record {
          left_is = passes.left_is;
          slots_are = (moves.destination_is, passes.slots_are);
          same_length = ap suc passes.same_length;
          conserved = λ item. omega (arith, moves.conserved item, passes.conserved item);
        },
      )
