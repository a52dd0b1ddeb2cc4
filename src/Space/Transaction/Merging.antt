-- ===== src/Space/Transaction/Merging.antt =====
-- `check_merge` and `commit_merge` (all-is-cubes/src/space/space_txn.rs), cube by cube.
use all_is_cubes.Space.Transaction.Cubes.{find_cube-insert_at, eqb_vec_refl, Keyed}
use all_is_cubes.Math.Vector.{eqb_vec_iff, eqb_vec, Cube}
use all_is_cubes.Prelude.Run.{err≢ok, Result-cases, ok}
use all_is_cubes.Space.Transaction.{
  check_merge, is_some, insert_at, commit_merge, check_merge_cubes, SpaceTransaction, or, find_cube,
  commit_merge_cube, Change, merge_into, differ, check_merge_cube,
}
use all_is_cubes.Space.Transaction.Agreeing.{
  differ_iff, check_merge_cube_iff, commit_merge_cube-IsJoin, JoinsAt, Agree,
}
use all_is_cubes.Space.Palette.{Blocks}
use all_is_cubes.Prelude.{
  sym, ◌∙◌, length, ltb, Option-cases, ◌||◌, if◌then◌else◌, ◌&&◌, Bool, ap, some-eq_some, false,
  Option, ◌≡◌, ◌↔◌, refl, arith, some, none, [], ◌∷◌, Bool-cases, inl, inr,
}

module _ (B : Blocks) where
  open B use {Block, block_eq}

  or_comm : (a b : Option Block) → differ B a b ≡ false → or B a b ≡ or B b a
  or_comm none none h = refl
  or_comm none (some b) h = refl
  or_comm (some a) none h = refl
  or_comm (some a) (some b) h = rw ((differ_iff B a b).0 h) refl

  differ-or : (a b : Option Block) → or B a b ≡ or B b a → differ B a b ≡ false
  unfolding differ
  differ-or none b h = refl
  differ-or (some a) none h = refl
  differ-or (some a) (some b) h = (differ_iff B a b).1 (some-eq_some h)

  ||_comm : (p q : Bool) → (p || q) ≡ (q || p)
  ||_comm p q = ground arith

  -- Two changes whose check succeeds are merged to the same change in both orders exactly if they do
  -- not put two different blocks.
  pub commit_merge_cube_comm_iff :
      (a b : Change B)
      → check_merge_cube B a b ≡ ok tt
      → (commit_merge_cube B a b ≡ commit_merge_cube B b a) ↔ (differ B a.new b.new ≡ false)
  unfolding check_merge_cube commit_merge_cube
  commit_merge_cube_comm_iff a b h = (
    λ e. differ-or a.new b.new (ap (λ (t : Change B). t.new) e),
    λ n.
        let old : differ B a.old b.old ≡ false = ground arith in
        rw
          (
            or_comm a.old b.old old,
            or_comm a.new b.new n,
            ||_comm (a.conserved && is_some B a.new) (b.conserved && is_some B b.new),
            ||_comm a.activate b.activate,
          )
          refl,
  )

  -- The changes of two transactions at one cube.
  abbrev joined : Option (Change B) → Option (Change B) → Option (Change B)
  joined none u = u
  joined (some t) none = some t
  joined (some t) (some u) = some (commit_merge_cube B t u)

  joined-none : (o : Option (Change B)) → o ≡ joined o none
  joined-none none = refl
  joined-none (some t) = refl

  abbrev merged : Option (Change B) → Change B → Change B
  merged o t = elim o [ none ↦ t | some existing ↦ commit_merge_cube B existing t ]

  joined-some : (o : Option (Change B)) (t : Change B) → some (merged o t) ≡ joined o (some t)
  joined-some none t = refl
  joined-some (some existing) t = refl

  find_cube-merge_into :
      (m rest : SpaceTransaction B) (d : Cube)
      → Keyed B rest
      → find_cube d (merge_into B m rest) ≡ joined (find_cube d m) (find_cube d rest)
  unfolding merge_into find_cube
  find_cube-merge_into m [] d k = joined-none (find_cube d m)
  find_cube-merge_into m ((c, t) ∷ rest) d k =
      let next = insert_at c (merged (find_cube c m) t) m in
      let later = find_cube-merge_into next rest d k.2 in
      let read = find_cube-insert_at c d (merged (find_cube c m) t) m in
      elim (Bool-cases (eqb_vec c d)) [
        | inl same ↦
            let e : c ≡ d = (eqb_vec_iff c d).0 same in
            let absent : find_cube d rest ≡ none = rw e at k.0 in
            rw same (later ∙ rw (read, same, absent) (rw e (joined-some (find_cube d m) t)))
        | inr other ↦ rw other (later ∙ rw (read, other) refl)
      ]

  find_cube-joined :
      (m other : SpaceTransaction B) (d : Cube)
      → Keyed B m
      → Keyed B other
      → find_cube d (commit_merge B m other) ≡ (
          if ltb (length m) (length other)
          then joined (find_cube d other) (find_cube d m)
          else joined (find_cube d m) (find_cube d other))
  unfolding commit_merge
  find_cube-joined m other d k l = elim (Bool-cases (ltb (length m) (length other))) [
    | inl less ↦ rw less (find_cube-merge_into other m d k)
    | inr more ↦ rw more (find_cube-merge_into m other d l)
  ]

  joined-JoinsAt : (o q : Option (Change B)) → JoinsAt B o q (joined o q)
  joined-JoinsAt none u = refl
  joined-JoinsAt (some t) none = refl
  joined-JoinsAt (some t) (some u) = (_, refl, commit_merge_cube-IsJoin B t u)

  -- The transaction of more cubes, and the other one; the left one, if they have as many.
  abbrev pub leading : SpaceTransaction B → SpaceTransaction B → SpaceTransaction B
  leading m other = if ltb (length m) (length other) then other else m

  abbrev pub following : SpaceTransaction B → SpaceTransaction B → SpaceTransaction B
  following m other = if ltb (length m) (length other) then m else other

  -- A merge of transactions of distinct cubes has no change at a cube where neither has one, and the
  -- change of the one that has one. Where both do, the first of them is that of the transaction of
  -- more cubes (of the left one, if they have as many): the merged change expects the block of the
  -- first that expects one, and puts the block of the first that puts one; it is conserved exactly
  -- if one that puts a block is, and activates the cube exactly if either does.
  pub find_cube-commit_merge :
      (m other : SpaceTransaction B) (d : Cube)
      → Keyed B m
      → Keyed B other
      → JoinsAt B
          (find_cube d (leading m other))
          (find_cube d (following m other))
          (find_cube d (commit_merge B m other))
  find_cube-commit_merge m other d k l =
      rw (find_cube-joined m other d k l) (elim (Bool-cases (ltb (length m) (length other))) [
        | inl less ↦ rw less (joined-JoinsAt (find_cube d other) (find_cube d m))
        | inr more ↦ rw more (joined-JoinsAt (find_cube d m) (find_cube d other))
      ])

  abbrev pub Compatible : Option (Change B) → Option (Change B) → Type 0
  Compatible none u = Unit {0}
  Compatible (some t) none = Unit {0}
  Compatible (some t) (some u) = Agree B t u

  -- No cube has a change in both that conflict, those of `m` being the first.
  abbrev pub AllCompatible : SpaceTransaction B → SpaceTransaction B → Type 0
  AllCompatible m other = (d : Cube) → Compatible (find_cube d m) (find_cube d other)

  Compatible-none : (o : Option (Change B)) → Compatible o none
  Compatible-none none = tt
  Compatible-none (some t) = tt

  AllCompatible-cons :
      (c : Cube) (t : Change B) (m other : SpaceTransaction B)
      → find_cube c m ≡ none
      → AllCompatible ((c, t) ∷ m) other
        ↔ (Compatible (some t) (find_cube c other) × AllCompatible m other)
  unfolding find_cube
  AllCompatible-cons c t m other absent = (there, back)
    where
      there :
          AllCompatible ((c, t) ∷ m) other
          → Compatible (some t) (find_cube c other) × AllCompatible m other
      there h = (
        rw (eqb_vec_refl c) at (h c),
        λ d. elim (Bool-cases (eqb_vec c d)) [
          | inl same ↦
              let none_there : find_cube d m ≡ none = rw ((eqb_vec_iff c d).0 same) at absent in
              rw none_there tt
          | inr different ↦ rw different at (h d)
        ],
      )

      back :
          Compatible (some t) (find_cube c other) × AllCompatible m other
          → AllCompatible ((c, t) ∷ m) other
      back h d = elim (Bool-cases (eqb_vec c d)) [
        | inl same ↦ rw same (rw ((eqb_vec_iff c d).0 same) at h.0)
        | inr different ↦ rw different (h.1 d)
      ]

  check_merge_cubes-cons :
      (c : Cube) (t : Change B) (m other : SpaceTransaction B)
      → (check_merge_cubes B ((c, t) ∷ m) other ≡ ok tt)
        ↔ (Compatible (some t) (find_cube c other) × (check_merge_cubes B m other ≡ ok tt))
  unfolding check_merge_cubes
  check_merge_cubes-cons c t m other = elim (Option-cases (find_cube c other)) [
    | inl absent ↦ rw (absent, check_merge_cubes) (λ h. (tt, h), λ h. h.1)
    | inr (u, present) ↦ elim (Result-cases (check_merge_cube B t u)) [
      | inl (done, fine) ↦
          let agree = (check_merge_cube_iff B t u).0 fine in
          rw (present, fine, check_merge_cubes) (λ h. (agree, h), λ h. h.1)
      | inr (e, conflict) ↦
          let clash =
            λ (g : Agree B t u). err≢ok (sym conflict ∙ (check_merge_cube_iff B t u).1 g) in
          rw (present, conflict, check_merge_cubes)
            (λ h. absurd (err≢ok h), λ h. absurd (clash h.0))
    ]
  ]

  check_merge_cubes_iff :
      (m other : SpaceTransaction B)
      → Keyed B m
      → (check_merge_cubes B m other ≡ ok tt) ↔ AllCompatible m other
  unfolding check_merge_cubes find_cube
  check_merge_cubes_iff [] other k = (λ h d. tt, λ h. refl)
  check_merge_cubes_iff ((c, t) ∷ m) other k =
      let rest = check_merge_cubes_iff m other k.2 in
      let step = check_merge_cubes-cons c t m other in
      let split = AllCompatible-cons c t m other k.0 in
      (
        λ h. let p = step.0 h in split.1 (p.0, rest.0 p.1),
        λ h. let p = split.0 h in step.1 (p.0, rest.1 p.1),
      )

  -- The transaction of fewer cubes, and the other one; the left one, if they have as many.
  abbrev pub smaller : SpaceTransaction B → SpaceTransaction B → SpaceTransaction B
  smaller m other = if ltb (length other) (length m) then other else m

  abbrev pub larger : SpaceTransaction B → SpaceTransaction B → SpaceTransaction B
  larger m other = if ltb (length other) (length m) then m else other

  -- The check of a merge of transactions of distinct cubes succeeds exactly if, at each cube that both
  -- change, they do not expect different blocks, and do not both put a block where the change of the
  -- transaction of fewer cubes (of the left one, if they have as many) is conserved.
  pub check_merge_iff :
      (m other : SpaceTransaction B)
      → Keyed B m
      → Keyed B other
      → (check_merge B m other ≡ ok tt) ↔ AllCompatible (smaller m other) (larger m other)
  unfolding check_merge
  check_merge_iff m other k l = elim (Bool-cases (ltb (length other) (length m))) [
    | inl less ↦ rw less (check_merge_cubes_iff other m l)
    | inr more ↦ rw more (check_merge_cubes_iff m other k)
  ]
