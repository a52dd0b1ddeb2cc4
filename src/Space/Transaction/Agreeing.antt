-- ===== src/Space/Transaction/Agreeing.antt =====
-- Two changes of one cube (all-is-cubes/src/space/space_txn.rs): when they can be made together, and
-- what is then made of them.
use all_is_cubes.Prelude.Run.{ok}
use all_is_cubes.Space.Transaction.{
  is_some, or, commit_merge_cube, Change, differ, check_merge_cube,
}
use all_is_cubes.Space.Palette.{Blocks}
use all_is_cubes.Prelude.{
  ◌≢◌, ◌⊎◌, true, ◌||◌, ◌&&◌, Bool, false, Option, ◌≡◌, ◌↔◌, refl, arith, some, none, inl, inr,
}

module _ (B : Blocks) where
  open B use {Block, block_eq}

  pub differ_iff : (a b : Block) → (differ B (some a) (some b) ≡ false) ↔ (a ≡ b)
  unfolding differ
  differ_iff a b =
      (λ h. (block_eq.beq_iff a b).0 (ground arith), λ h. ground (arith, block_eq.beq_iff a b))

  -- Two changes do not expect different blocks.
  abbrev pub SameOld : Option Block → Option Block → Type 0
  SameOld none b = Unit {0}
  SameOld (some x) none = Unit {0}
  SameOld (some x) (some y) = x ≡ y

  -- Two changes of a cube can be made together: they do not expect different blocks, and do not
  -- both put one, unless the first is not conserved.
  abbrev pub Agree : Change B → Change B → Type 0
  Agree t u = SameOld t.old u.old × ((t.conserved ≡ false) ⊎ (t.new ≡ none) ⊎ (u.new ≡ none))

  differ-SameOld : (a b : Option Block) → (differ B a b ≡ false) ↔ SameOld a b
  unfolding differ
  differ-SameOld none b = (λ h. tt, λ h. refl)
  differ-SameOld (some x) none = (λ h. tt, λ h. refl)
  differ-SameOld (some x) (some y) = differ_iff x y

  clash_iff :
      (p : Bool) (a b : Option Block)
      → ((is_some B a && is_some B b && p) ≡ false) ↔ ((p ≡ false) ⊎ (a ≡ none) ⊎ (b ≡ none))
  clash_iff p none b = (λ h. inr (inl refl), λ h. refl)
  clash_iff p (some x) none = (λ h. inr (inr refl), λ h. refl)
  clash_iff p (some x) (some y) = (
    λ h. inl (ground arith),
    λ h. elim h [ inl e ↦ ground (arith, e) | inr (inl e) ↦ cc | inr (inr e) ↦ cc ],
  )

  pub check_merge_cube_iff : (t u : Change B) → (check_merge_cube B t u ≡ ok tt) ↔ Agree t u
  unfolding check_merge_cube
  check_merge_cube_iff t u =
      let old = differ-SameOld t.old u.old in
      let new = clash_iff t.conserved t.new u.new in
      (
        λ h. (old.0 (ground arith), new.0 (ground arith)),
        λ h. let e = old.1 h.0 in let f = new.1 h.1 in ground (arith, e, f),
      )

  -- The block of the first change that names one.
  abbrev pub IsFirst : Option Block → Option Block → Option Block → Type 0
  IsFirst none b c = c ≡ b
  IsFirst (some x) b c = c ≡ some x

  -- What both changes do: the cube is expected to be what the first one expects, or else the second;
  -- becomes what the first one puts, or else the second; is conserved if a change that puts a block
  -- is; and is activated if either activates it.
  pub record IsJoin (t u c : Change B) : Type 0 where
    pub old : IsFirst t.old u.old c.old
    pub new : IsFirst t.new u.new c.new
    pub conserved :
        (c.conserved ≡ true)
        ↔ (((t.conserved ≡ true) × (t.new ≢ none)) ⊎ ((u.conserved ≡ true) × (u.new ≢ none)))
    pub activate : (c.activate ≡ true) ↔ ((t.activate ≡ true) ⊎ (u.activate ≡ true))

  -- A change that is made where one of the transactions, or both, have one.
  abbrev pub JoinsAt : Option (Change B) → Option (Change B) → Option (Change B) → Type 0
  JoinsAt none u r = r ≡ u
  JoinsAt (some t) none r = r ≡ some t
  JoinsAt (some t) (some u) r = (c : Change B) × (r ≡ some c) × IsJoin t u c

  or-IsFirst : (a b : Option Block) → IsFirst a b (or B a b)
  or-IsFirst none b = refl
  or-IsFirst (some x) b = refl

  both_iff : (p : Bool) (o : Option Block) → ((p && is_some B o) ≡ true) ↔ ((p ≡ true) × (o ≢ none))
  both_iff p none = (λ h. absurd (ground arith), λ h. absurd (h.1 refl))
  both_iff p (some x) = (λ h. (ground arith, λ e. cc), λ h. ground (arith, h.0))

  either_iff : (p q : Bool) → ((p || q) ≡ true) ↔ ((p ≡ true) ⊎ (q ≡ true))
  either_iff p q = (λ h. ground arith, λ h. ground arith)

  pub commit_merge_cube-IsJoin : (t u : Change B) → IsJoin t u (commit_merge_cube B t u)
  unfolding commit_merge_cube
  commit_merge_cube-IsJoin t u =
      let p = both_iff t.conserved t.new in
      let q = both_iff u.conserved u.new in
      let e = either_iff (t.conserved && is_some B t.new) (u.conserved && is_some B u.new) in
      record {
        old = or-IsFirst t.old u.old;
        new = or-IsFirst t.new u.new;
        conserved = (
          λ h. elim (e.0 h) [ inl x ↦ inl (p.0 x) | inr y ↦ inr (q.0 y) ],
          λ h. e.1 (elim h [ inl x ↦ inl (p.1 x) | inr y ↦ inr (q.1 y) ]),
        );
        activate = either_iff t.activate u.activate;
      }
