-- ===== src/Inventory/Merging.antt =====
-- Merging transactions on an inventory (all-is-cubes/src/inv/inventory.rs).
use all_is_cubes.Prelude.{
  ◌≡◌, ◌↔◌, refl, ◌++◌, ◌+◌, ◌==◌, ◌||◌, Option, if◌then◌else◌, true, false, Bool-cases,
  Option-cases, inl, inr, none, some, [], ◌∷◌, ℕ, arith,
}
use all_is_cubes.Prelude.Run.{Result, ok, err}
use all_is_cubes.Inventory.{Items, Slot, InventoryTransaction, count_of}
use all_is_cubes.Inventory.Tools.{
  InventoryConflict, replace_same_slot, contains_key, find_conflict, check_merge, put, extend,
  commit_merge, merge,
}
use all_is_cubes.Inventory.Conservation.{Replacements, taken, given}

module _ (I : Items) where
  open I use {Tool}

  -- The keys of a map are distinct.
  abbrev pub AreDistinct : Replacements I → Type 0
  AreDistinct [] = Unit {0}
  AreDistinct ((slot, old, new) ∷ rest) = (contains_key I slot rest ≡ false) × AreDistinct rest

  -- No slot is replaced by both.
  abbrev pub Apart : Replacements I → Replacements I → Type 0
  Apart changes others =
      (slot : ℕ) → contains_key I slot changes ≡ true → contains_key I slot others ≡ false

  contains_key-put :
      (k slot : ℕ) (old new : Slot Tool) (changes : Replacements I)
      → contains_key I k (put I slot old new changes) ≡ ((slot == k) || contains_key I k changes)
  unfolding put contains_key
  contains_key-put k slot old new [] = refl
  contains_key-put k slot old new ((i, o, n) ∷ rest) =
      ground (arith, contains_key-put k slot old new rest)

  -- What a further replacement adds.
  taken-put :
      (item : Tool) (slot : ℕ) (old new : Slot Tool) (changes : Replacements I)
      → contains_key I slot changes ≡ false
      → (taken I item (put I slot old new changes) ≡ count_of I item old + taken I item changes)
        × (given I item (put I slot old new changes) ≡ count_of I item new + given I item changes)
  unfolding put contains_key
  taken-put item slot old new [] h = (refl, refl)
  taken-put item slot old new ((i, o, n) ∷ rest) h =
      let ih = taken-put item slot old new rest in (ground (arith, ih), ground (arith, ih))

  -- What a slot is replaced by, and what it is expected to hold.
  abbrev pub replacement : ℕ → Replacements I → Option (Slot Tool × Slot Tool)
  replacement k [] = none
  replacement k ((slot, old, new) ∷ rest) =
      if slot == k then some (old, new) else replacement k rest

  replacement-put :
      (k slot : ℕ) (old new : Slot Tool) (changes : Replacements I)
      → replacement k (put I slot old new changes)
        ≡ (if slot == k then some (old, new) else replacement k changes)
  unfolding put
  replacement-put k slot old new [] = refl
  replacement-put k slot old new ((i, o, n) ∷ rest) =
      ground (arith, replacement-put k slot old new rest)

  replacement-none :
      (k : ℕ) (changes : Replacements I)
      → contains_key I k changes ≡ false
      → replacement k changes ≡ none
  unfolding contains_key
  replacement-none k [] h = refl
  replacement-none k ((i, o, n) ∷ rest) h = ground (arith, replacement-none k rest)

  -- What an extension by others adds, which replace no slot that is replaced already.
  pub record Extends (changes others merged : Replacements I) : Type 0 where
    pub taken_is : (item : Tool) → taken I item merged ≡ taken I item changes + taken I item others
    pub given_is : (item : Tool) → given I item merged ≡ given I item changes + given I item others
    pub keys :
        (k : ℕ) → contains_key I k merged ≡ (contains_key I k changes || contains_key I k others)
    pub replaced :
        (k : ℕ)
        → replacement k merged
          ≡ (if contains_key I k others then replacement k others else replacement k changes)

  first_new :
      (slot : ℕ) (old new : Slot Tool) (rest changes : Replacements I)
      → Apart changes ((slot, old, new) ∷ rest)
      → contains_key I slot changes ≡ false
  unfolding contains_key
  first_new slot old new rest changes a = elim (Bool-cases (contains_key I slot changes)) [
    | inl e ↦ absurd (ground (arith, a slot e))
    | inr e ↦ e
  ]

  rest-Apart :
      (slot : ℕ) (old new : Slot Tool) (rest changes : Replacements I)
      → contains_key I slot rest ≡ false
      → Apart changes ((slot, old, new) ∷ rest)
      → Apart (put I slot old new changes) rest
  unfolding contains_key
  rest-Apart slot old new rest changes d a k e = elim (Bool-cases (contains_key I k changes)) [
    | inl old_key ↦ ground (arith, a k old_key)
    | inr new_key ↦
        let same : slot ≡ k = ground (arith, contains_key-put k slot old new changes) in
        rw (← same) d
  ]

  extend-Extends :
      (others changes : Replacements I)
      → AreDistinct others
      → Apart changes others
      → Extends changes others (extend I changes others)
  unfolding extend contains_key
  extend-Extends [] changes d a = record {
    taken_is = λ item. omega arith;
    given_is = λ item. omega arith;
    keys = λ k. ground arith;
    replaced = λ k. refl;
  }
  extend-Extends ((slot, old, new) ∷ rest) changes d a =
      let new_slot = first_new slot old new rest changes a in
      let next =
        extend-Extends rest (put I slot old new changes) d.1
          (rest-Apart slot old new rest changes d.0 a) in
      record {
        taken_is = λ item.
            omega (arith, next.taken_is item, (taken-put item slot old new changes new_slot).0);
        given_is = λ item.
            omega (arith, next.given_is item, (taken-put item slot old new changes new_slot).1);
        keys = λ k. ground (arith, next.keys k, contains_key-put k slot old new changes);
        replaced = λ k.
            let now = next.replaced k in
            let added = replacement-put k slot old new changes in
            elim (Bool-cases (slot == k)) [
              | inl same ↦
                  let here : slot ≡ k = ground arith in
                  let once : contains_key I k rest ≡ false = rw here at d.0 in
                  ground (arith, same, once, now, added)
              | inr other ↦ ground (arith, other, now, added)
            ];
      }

  find_conflict-Apart :
      (changes others : Replacements I)
      → (find_conflict I changes others ≡ none) ↔ Apart changes others
  unfolding find_conflict contains_key
  find_conflict-Apart [] others = (λ h slot e. cc, λ a. refl)
  find_conflict-Apart ((slot, old, new) ∷ rest) others =
      let ih = find_conflict-Apart rest others in
      elim (Bool-cases (contains_key I slot others)) [
        | inl both ↦ (λ h. absurd (ground arith), λ a. absurd (ground (arith, a slot)))
        | inr one ↦ (
          λ h k e. elim (Bool-cases (slot == k)) [
            | inl same ↦ ground arith
            | inr other ↦ ih.0 (ground arith) k (ground arith)
          ],
          λ a. rw one (ih.1 (λ k e. a k (ground arith))),
        )
      ]

  find_conflict-some :
      (changes others : Replacements I) (slot : ℕ)
      → find_conflict I changes others ≡ some slot
      → (contains_key I slot changes ≡ true) × (contains_key I slot others ≡ true)
  unfolding find_conflict contains_key
  find_conflict-some [] others slot h = cc
  find_conflict-some ((i, old, new) ∷ rest) others slot h =
      elim (Bool-cases (contains_key I i others)) [
        | inl both ↦
            let same : i ≡ slot = ground arith in (rw same (ground arith), rw (← same) both)
        | inr one ↦
            let next = find_conflict-some rest others slot (ground arith) in
            (ground (arith, next.0), next.1)
      ]

  -- What a merge promises of its answer.
  abbrev pub Merged :
      InventoryTransaction I
      → InventoryTransaction I
      → Result InventoryConflict (InventoryTransaction I)
      → Type 0
  Merged t other (err (replace_same_slot slot)) =
      (contains_key I slot t.replace ≡ true) × (contains_key I slot other.replace ≡ true)
  Merged t other (ok m) =
      Apart t.replace other.replace
      × Extends t.replace other.replace m.replace
      × (m.insert ≡ t.insert ++ other.insert)

  -- Transactions that replace a slot in common are not merged, and the error names such a slot. Any
  -- others are: the merged transaction expects and puts, in each slot, what the one that replaces the
  -- slot does, replaces no other slot, and inserts what both insert, in order. So it takes out and
  -- puts in the items of both.
  pub merge-Merged :
      (t other : InventoryTransaction I)
      → AreDistinct other.replace
      → Merged t other (merge I t other)
  unfolding merge check_merge commit_merge
  merge-Merged t other d = elim (Option-cases (find_conflict I t.replace other.replace)) [
    | inl e ↦
        let apart = (find_conflict-Apart t.replace other.replace).0 e in
        rw (e, merge) (apart, extend-Extends other.replace t.replace d apart, refl)
    | inr (slot, e) ↦ rw (e, merge) (find_conflict-some t.replace other.replace slot e)
  ]
