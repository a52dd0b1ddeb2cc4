-- ===== src/Behavior/Checking.antt =====
-- `BehaviorSetTransaction::check` (all-is-cubes/src/behavior.rs) against the behaviors of the set.
use all_is_cubes.Prelude.{
  ℕ, ◌≡◌, refl, ◌↔◌, Option, none, some, List, [], ◌∷◌, get_elem?, Bool-cases, inl, inr,
  some-eq_some,
}
use all_is_cubes.Prelude.Run.{Result, ok, err, err≢ok}
use all_is_cubes.Behavior.{
  Hosts, Replace, BehaviorSet, BehaviorSetEntry, BehaviorSetTransaction, Mismatch,
  attachment_differs, behavior_differs, check_entry, check_entries, check,
}

module _ (H : Hosts) where
  open H use {Attachment, attachment_eq, Behavior, ptr_eq}

  abbrev pub Replacements : Type 0
  Replacements = List (ℕ × Replace (BehaviorSetEntry H))

  -- The entry to be replaced is the one that is expected.
  abbrev pub AllExpected : BehaviorSet H → Replacements → Type 0
  AllExpected s [] = Unit
  AllExpected s ((i, r) ∷ m) = (get_elem? s i ≡ some r.old) × AllExpected s m

  entry_eq :
      (a b : BehaviorSetEntry H) → a.attachment ≡ b.attachment → a.behavior ≡ b.behavior → a ≡ b
  entry_eq a b p q = λ i. record { attachment = p i; behavior = q i }

  check_entry_iff :
      (o : Option (BehaviorSetEntry H)) (r : Replace (BehaviorSetEntry H))
      → (check_entry H o r ≡ ok tt) ↔ (o ≡ some r.old)
  unfolding check_entry
  check_entry_iff none r = (λ h. absurd (err≢ok h), λ h. cc)
  check_entry_iff (some e) r = elim (Bool-cases (attachment_eq.beq e.attachment r.old.attachment)) [
    | inl same ↦ elim (Bool-cases (ptr_eq.beq e.behavior r.old.behavior)) [
      | inl also ↦ (
        λ h.
            let q =
              entry_eq e r.old ((attachment_eq.beq_iff e.attachment r.old.attachment).0 same)
                ((ptr_eq.beq_iff e.behavior r.old.behavior).0 also) in
            rw q refl,
        λ h. rw (same, also) refl,
      )
      | inr other ↦ (
        λ h. absurd (err≢ok {e = behavior_differs} (rw (same, other) at h)),
        λ h.
            let q : e ≡ r.old = some-eq_some h in
            cc (other, (ptr_eq.beq_iff e.behavior r.old.behavior).1 (rw q refl)),
      )
    ]
    | inr other ↦ (
      λ h. absurd (err≢ok {e = attachment_differs} (rw other at h)),
      λ h.
          let q : e ≡ r.old = some-eq_some h in
          cc (other, (attachment_eq.beq_iff e.attachment r.old.attachment).1 (rw q refl)),
    )
  ]

  -- A step of the loop.
  check_entries_step :
      (s : BehaviorSet H) (i : ℕ) (r : Replace (BehaviorSetEntry H)) (m : Replacements)
      → (check_entries H ((i, r) ∷ m) s ≡ ok tt)
        ↔ ((check_entry H (get_elem? s i) r ≡ ok tt) × (check_entries H m s ≡ ok tt))
  unfolding check_entries
  check_entries_step s i r m =
      elim (check_entry H (get_elem? s i) r)
        as (λ c.
          (◌≡◌ {A = Result Mismatch (Unit {0})}
            (elim c [ err e ↦ err e | ok done ↦ check_entries H m s ]) (ok tt))
          ↔ ((c ≡ ok tt) × (check_entries H m s ≡ ok tt))) [
            | ok done ↦ (λ h. (refl, h), λ h. h.1)
            | err e ↦ (λ h. absurd (err≢ok h), λ h. absurd (err≢ok h.0))
          ]

  check_entries_iff :
      (s : BehaviorSet H) (m : Replacements) → (check_entries H m s ≡ ok tt) ↔ AllExpected s m
  unfolding check_entries
  check_entries_iff s [] = (λ h. tt, λ h. refl)
  check_entries_iff s ((i, r) ∷ m) =
      let step = check_entries_step s i r m in
      let one = check_entry_iff (get_elem? s i) r in
      let others = check_entries_iff s m in
      (λ h. (one.0 (step.0 h).0, others.0 (step.0 h).1), λ h. step.1 (one.1 h.0, others.1 h.1))

  -- `check` succeeds exactly if each index to be replaced has the entry that is expected there: the
  -- same attachment, and the same behavior by its address.
  pub check_iff :
      (t : BehaviorSetTransaction H) (s : BehaviorSet H)
      → (check H t s ≡ ok tt) ↔ AllExpected s t.replace
  unfolding check
  check_iff t s = check_entries_iff s t.replace
