-- ===== src/Inventory/Conservation.antt =====
-- `InventoryTransaction::check` (all-is-cubes/src/inv/inventory.rs) and the number of items.
use all_is_cubes.Prelude.Run.{err≢ok, Result-cases, ok-eq_ok, err, ret, ok, Result}
use all_is_cubes.Inventory.Moving.{insert_stack-Passes, Passes, total, IsSlot, Slotted}
use all_is_cubes.Prelude.{
  length-set, ◌++◌, Bool-cases, inr, zero, none, inl, ◌∙◌, suc, some-eq_some, [], Option-cases, ◌∷◌,
  set, refl, Option, true, some, length, get_elem?, List, ◌≡◌, ℕ, ◌+◌, arith,
}
use all_is_cubes.Inventory.{
  insufficient_empty_slots, Pass, wrap_ok, is_empty, PreconditionFailed, Draft, slot_eqb,
  replace_slots, insert_stacks, count_of, check_changes, check, InventoryTransaction, Items, Slot,
  empty, stack, Slots,
}

module _ (I : Items) where
  open I use {Tool, tool_eq, stack_limit}

  abbrev pub Replacements : Type 0
  Replacements = List (ℕ × Slot Tool × Slot Tool)

  -- The items that the replacements take out, and those that they put in.
  abbrev pub taken : Tool → Replacements → ℕ
  taken item [] = 0
  taken item ((index, old, new) ∷ rest) = count_of I item old + taken item rest

  abbrev pub given : Tool → Replacements → ℕ
  given item [] = 0
  given item ((index, old, new) ∷ rest) = count_of I item new + given item rest

  abbrev pub AreSlots : Replacements → Type 0
  AreSlots [] = Unit {0}
  AreSlots ((index, old, new) ∷ rest) = IsSlot I new × AreSlots rest

  slot_eqb-count_of :
      (a b : Slot Tool) (item : Tool)
      → slot_eqb I a b ≡ true
      → count_of I item a ≡ count_of I item b
  unfolding slot_eqb count_of
  slot_eqb-count_of empty empty item h = refl
  slot_eqb-count_of empty (stack n b) item h = cc
  slot_eqb-count_of (stack m a) empty item h = cc
  slot_eqb-count_of (stack m a) (stack n b) item h =
      let e : a ≡ b = (tool_eq.beq_iff a b).0 (ground arith) in
      let k : m ≡ n = ground arith in rw (e, k) refl

  pub total-set :
      (item : Tool) (slots : Slots I) (i : ℕ) (old new : Slot Tool)
      → get_elem? slots i ≡ some old
      → total I item (set slots i new) + count_of I item old
        ≡ total I item slots + count_of I item new
  total-set item [] i old new h = cc
  total-set item (s ∷ ss) zero old new h = let e : s ≡ old = some-eq_some h in rw e (omega arith)
  total-set item (s ∷ ss) (suc i) old new h = omega (arith, total-set item ss i old new h)

  pub Slotted-set :
      (slots : Slots I) (i : ℕ) (new : Slot Tool)
      → Slotted I slots
      → IsSlot I new
      → Slotted I (set slots i new)
  Slotted-set [] i new h k = h
  Slotted-set (s ∷ ss) zero new h k = (k, h.1)
  Slotted-set (s ∷ ss) (suc i) new h k = (h.0, Slotted-set ss i new h.1 k)

  -- What the slots `new` keep of the slots `old`, where `plus` items come in and `minus` go out.
  pub record Keeps (old new : Slots I) (plus minus : Tool → ℕ) : Type 0 where
    pub slots_are : Slotted I new
    pub same_length : length new ≡ length old
    pub conserved : (item : Tool) → total I item new + minus item ≡ total I item old + plus item

  replace_slots-Keeps :
      (changes : Replacements) (slots : Slots I) (changed : List ℕ) (draft : Draft I)
      → AreSlots changes
      → Slotted I slots
      → replace_slots I changes slots changed ≡ ok draft
      → Keeps slots draft.0 (λ item. given item changes) (λ item. taken item changes)
  unfolding replace_slots
  replace_slots-Keeps [] slots changed draft h k e =
      let same : ◌≡◌ {A = Draft I} (slots, changed) draft = ok-eq_ok e in
      rw (← same) (record { slots_are = k; same_length = refl; conserved = λ item. refl })
  replace_slots-Keeps ((index, old, new) ∷ rest) slots changed draft h k e =
      elim (Option-cases (get_elem? slots index)) [
        | inl missing ↦ absurd (err≢ok (rw (missing, replace_slots) at e))
        | inr (actual, found) ↦ elim (Bool-cases (slot_eqb I actual old)) [
          | inr other ↦ absurd (err≢ok (rw (found, other, replace_slots) at e))
          | inl equal ↦
              let next =
                replace_slots-Keeps rest (set slots index new) (changed ++ (index ∷ [])) draft h.1
                  (Slotted-set slots index new k h.0) (rw (found, equal, replace_slots) at e) in
              record {
                slots_are = next.slots_are;
                same_length = next.same_length ∙ length-set slots index new;
                conserved = λ item. omega (
                  arith,
                  next.conserved item,
                  total-set item slots index actual new found,
                  slot_eqb-count_of actual old item equal,
                );
              }
        ]
      ]

  -- What an insertion of `stacks` promises of its answer.
  abbrev pub Inserted : Slots I → Slots I → Result PreconditionFailed (Draft I) → Type 0
  Inserted stacks slots (ok draft) = Keeps slots draft.0 (λ item. total I item stacks) (λ item. 0)
  Inserted stacks slots (err e) = e ≡ insufficient_empty_slots

  is_empty-count_of : (s : Slot Tool) (item : Tool) → is_empty I s ≡ true → count_of I item s ≡ 0
  unfolding count_of
  is_empty-count_of empty item h = refl
  is_empty-count_of (stack n a) item h = cc

  pub insert_stacks-Inserted :
      (stacks slots : Slots I) (changed : List ℕ)
      → Slotted I stacks
      → Slotted I slots
      → (r : Result PreconditionFailed (Draft I)) × (insert_stacks I stacks slots changed ≡ ret r)
        × Inserted stacks slots r
  unfolding insert_stacks
  insert_stacks-Inserted [] slots changed h k = (
    ok (slots, changed),
    refl,
    record { slots_are = k; same_length = refl; conserved = λ item. refl },
  )
  insert_stacks-Inserted (new_stack ∷ rest) slots changed h k =
      let (p, e, passes) = insert_stack-Passes I new_stack 0 slots changed h.0 k in
      elim (Bool-cases (is_empty I p.left)) [
        | inr left_over ↦ (err insufficient_empty_slots, rw (e, left_over), refl)
        | inl all_moved ↦
            let (r, f, inserted) =
              insert_stacks-Inserted rest p.slots p.changed h.1 passes.slots_are in
            (
              r,
              rw (e, all_moved, f, insert_stacks),
              after new_stack rest slots p r passes all_moved inserted,
            )
      ]
    where
      after :
          (new_stack : Slot Tool) (rest slots : Slots I) (p : Pass I)
          (r : Result PreconditionFailed (Draft I))
          → Passes I new_stack slots p
          → is_empty I p.left ≡ true
          → Inserted rest p.slots r
          → Inserted (new_stack ∷ rest) slots r
      after new_stack rest slots p (err e) passes none_left h = h
      after new_stack rest slots p (ok draft) passes none_left h = record {
        slots_are = h.slots_are;
        same_length = h.same_length ∙ passes.same_length;
        conserved = λ item. omega (
          arith,
          h.conserved item,
          passes.conserved item,
          is_empty-count_of p.left item none_left,
        );
      }

  -- What `check` promises of its answer: no draft only for a transaction without changes, and a draft
  -- that keeps the slots but for what the transaction takes and gives.
  abbrev pub Checked :
      InventoryTransaction I → Slots I → Result PreconditionFailed (Option (Draft I)) → Type 0
  Checked t slots (err e) = Unit {0}
  Checked t slots (ok none) = (t.replace ≡ []) × (t.insert ≡ [])
  Checked t slots (ok (some draft)) =
      Keeps slots draft.0 (λ item. given item t.replace + total I item t.insert)
        (λ item. taken item t.replace)

  check_changes-Checked :
      (t : InventoryTransaction I) (slots : Slots I)
      → AreSlots t.replace
      → Slotted I t.insert
      → Slotted I slots
      → (r : Result PreconditionFailed (Option (Draft I))) × (check_changes I t slots ≡ ret r)
        × Checked t slots r
  unfolding check_changes
  check_changes-Checked t slots h j k = elim (Result-cases (replace_slots I t.replace slots [])) [
    | inr (e, failed) ↦ (err e, rw (failed, check_changes), tt)
    | inl (draft, replaced) ↦
        let keeps = replace_slots-Keeps t.replace slots [] draft h k replaced in
        let (r, f, inserted) = insert_stacks-Inserted t.insert draft.0 draft.1 j keeps.slots_are in
        (wrap_ok I r, rw (replaced, f, check_changes), both draft r keeps inserted)
  ]
    where
      both :
          (draft : Draft I) (r : Result PreconditionFailed (Draft I))
          → Keeps slots draft.0 (λ item. given item t.replace) (λ item. taken item t.replace)
          → Inserted t.insert draft.0 r
          → Checked t slots (wrap_ok I r)
      both draft (err e) keeps inserted = tt
      both draft (ok new) keeps inserted = record {
        slots_are = inserted.slots_are;
        same_length = inserted.same_length ∙ keeps.same_length;
        conserved = λ item. omega (arith, keeps.conserved item, inserted.conserved item);
      }

  -- `check` never panics. Its draft has as many slots as the inventory, all of them with counts in
  -- their type, and of each kind of item it has what the inventory had, less what the replaced slots
  -- held, with what their replacements hold and what is inserted.
  pub check-Checked :
      (t : InventoryTransaction I) (slots : Slots I)
      → AreSlots t.replace
      → Slotted I t.insert
      → Slotted I slots
      → (r : Result PreconditionFailed (Option (Draft I))) × (check I t slots ≡ ret r)
        × Checked t slots r
  unfolding check
  check-Checked t slots h j k = by_lists t.replace t.insert h j
    where
      by_lists :
          (changes : Replacements) (stacks : Slots I)
          → AreSlots changes
          → Slotted I stacks
          → (r : Result PreconditionFailed (Option (Draft I))) × (check I
                (record { replace = changes; insert = stacks })
                slots
              ≡ ret r)
            × Checked (record { replace = changes; insert = stacks }) slots r
      by_lists [] [] h j = (ok none, refl, (refl, refl))
      by_lists [] (s ∷ ss) h j =
          check_changes-Checked (record { replace = []; insert = s ∷ ss }) slots h j k
      by_lists (c ∷ cs) stacks h j =
          check_changes-Checked (record { replace = c ∷ cs; insert = stacks }) slots h j k
