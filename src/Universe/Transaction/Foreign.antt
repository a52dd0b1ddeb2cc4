-- ===== src/Universe/Transaction/Foreign.antt =====
-- `UniverseTransaction::delete` (all-is-cubes/src/universe/universe_txn.rs) on a reference of any
-- universe.
use all_is_cubes.Prelude.{[], ◌∷◌, ℕ, ◌≡◌, refl, inl, inr, none, some, get_elem?, Option-cases}
use all_is_cubes.Prelude.Run.{ret, ok}
use all_is_cubes.Universe.{specific, member, name_of, get_any, name_eq}
use all_is_cubes.Universe.Soundness.{Free, get_any-Free}
use all_is_cubes.Universe.Transaction.{
  Members, Store, CellOf, Whole, deleting, UniverseCommitCheck, check_member,
}
use all_is_cubes.Universe.Transaction.Whole.{
  delete, from_member_txn, member_universe, check, check_members, check_anonymous,
}

module _ (I : Members) where
  open I use {Label, label_eq, CommitCheck}

  -- The deletion that is made of a reference that is or was a member of some universe `i` is
  -- accepted by each universe that has a member of the same name, whether that is universe `i` or
  -- not.
  pub delete_foreign :
      (w : Store I) (r : ℕ) (c : CellOf I) (l : Label) (i : ℕ)
      → get_elem? w.heap r ≡ some c
      → c.state ≡ member (specific l) i
      → ¬ Free ⦃e = label_eq⦄ w.universe (specific l)
      → (t : Whole I) × (checks : UniverseCommitCheck Label CommitCheck) × (delete I w.heap r
          ≡ ret t)
        × (check I t w ≡ ret (ok checks))
  unfolding delete from_member_txn member_universe check check_members check_anonymous check_member
      name_of
  delete_foreign w r c l i at s h =
      elim (Option-cases (get_any ⦃e = label_eq⦄ w.universe (specific l))) [
        | inl f ↦ absurd (h (get_any-Free ⦃e = label_eq⦄ w.universe (specific l) f))
        | inr (q, f) ↦ (
          record {
            members = (specific l, deleting) ∷ [];
            anonymous_insertions = [];
            universe_id = none;
          },
          record { members = (specific l, none) ∷ []; anonymous_insertions = [] },
          rw (at, s) refl,
          rw f refl,
        )
      ]
