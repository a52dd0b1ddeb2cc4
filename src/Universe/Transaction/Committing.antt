-- ===== src/Universe/Transaction/Committing.antt =====
-- The commit of a whole transaction that has been checked
-- (all-is-cubes/src/universe/universe_txn.rs).
use all_is_cubes.Universe.Transaction.Anonymous.{
  AllHold-Extends, commit_anonymous-AnonymousDone, AllPlaced, DistinctRefs,
}
use all_is_cubes.Universe.Transaction.Named.{commit_members-MembersDone, AllHold, Within}
use all_is_cubes.Universe.Transaction.Failing.{AnyFails, AnyFails-err}
use all_is_cubes.Prelude.Dict.{find}
use all_is_cubes.Prelude.{
  ◌⊎◌, ap, inr, inl, Bool-cases, false, ◌+◌, ◌<◌, ◌^◌, ◌≡◌, refl, ◌∙◌, sym, subst, none, List, [],
  ◌∷◌, length, arith,
}
use all_is_cubes.Prelude.Run.{err, Result-cases, Run-cases, ret, ok}
use all_is_cubes.Universe.{eqb_name_iff, eqb_name, Name, Ref, name_eq}
use all_is_cubes.Universe.Soundness.{IsSound}
use all_is_cubes.Universe.Maps.Joining.{Distinct}
use all_is_cubes.Universe.Committing.{Answer}
use all_is_cubes.Universe.Transaction.{
  modify_failed, UniverseCommitCheck, Whole, Members, Txn, Store,
}
use all_is_cubes.Universe.Transaction.Whole.{
  commit_members, is_other, commit, check, check_members, check_anonymous,
}
use all_is_cubes.Universe.Transaction.Checking.{
  Entries, find_name, AllMatched, insertions, other_name,
}

module _ (I : Members) where
  open I use {Label, label_eq, CommitCheck}

  Within-cons :
      (all ms : Entries I) (m : Name Label) (u : Txn I)
      → find_name I m ms ≡ none
      → Within I all ms
      → Within I ((m, u) ∷ all) ms
  unfolding find
  Within-cons all [] m u f h = tt
  Within-cons all ((n, t) ∷ ms) m u f h =
      let o = other_name I m n t ms f in
      let differ : eqb_name ⦃e = label_eq⦄ m n ≡ false =
        elim (Bool-cases (eqb_name ⦃e = label_eq⦄ m n)) [
          | inl same ↦ absurd (o.0 (sym ((eqb_name_iff ⦃e = label_eq⦄ m n).0 same)))
          | inr other ↦ other
        ] in
      (rw differ h.0, Within-cons all ms m u o.1 h.1)

  Within-refl : (ms : Entries I) → Distinct ⦃e = name_eq ⦃e = label_eq⦄⦄ ms → Within I ms ms
  Within-refl [] d = tt
  Within-refl ((n, t) ∷ ms) d = (
    unfold find in rw ((eqb_name_iff ⦃e = label_eq⦄ n n).1 refl) refl,
    Within-cons ms ms n t d.0 (Within-refl ms d.1),
  )

  check_parts :
      (t : Whole I) (w : Store I) (checks : UniverseCommitCheck Label CommitCheck)
      → check I t w ≡ ret (ok checks)
      → (check_members I t.members w ≡ ret (ok checks.members))
        × (check_anonymous I t.anonymous_insertions w ≡ ret (ok checks.anonymous_insertions))
  unfolding check
  check_parts t w checks h = elim (Bool-cases (is_other I t.universe_id w.universe.id)) [
    | inl o ↦ absurd (ground (arith, o, h))
    | inr o ↦ elim (Run-cases (check_members I t.members w)) [
      | inr p ↦ absurd (ground (arith, o, p, h))
      | inl (a, p) ↦ elim (Result-cases a) [
        | inr (x, q) ↦ absurd (ground (arith, o, p, q, h))
        | inl (x, q) ↦ elim (Run-cases (check_anonymous I t.anonymous_insertions w)) [
          | inr y ↦ absurd (ground (arith, o, p, q, y, h))
          | inl (b, y) ↦ elim (Result-cases b) [
            | inr (v, z) ↦ absurd (ground (arith, o, p, q, y, z, h))
            | inl (v, z) ↦
                let all : record { members = x; anonymous_insertions = v } ≡ checks =
                  ground (arith, o, p, q, y, z, h) in
                (
                  p
                      ∙ ap ret (
                          q
                          ∙ ap ok
                              (ap (λ (c : UniverseCommitCheck Label CommitCheck). c.members) all)),
                  y
                      ∙ ap ret (
                          z
                          ∙ ap ok (
                              ap
                                (λ (c : UniverseCommitCheck Label CommitCheck).
                                  c.anonymous_insertions)
                                all)),
                )
          ]
        ]
      ]
    ]
  ]

  stopped :
      (t : Whole I) (checks : UniverseCommitCheck Label CommitCheck) (w w1 : Store I) (a : Answer I)
      (ms : Entries I)
      → commit_members I t.members checks.members w ≡ ret (w1, a)
      → AnyFails I w ms a
      → commit I t checks w ≡ ret (w1, a)
  unfolding commit
  stopped t checks w w1 a ms run f =
      let (q, h) = AnyFails-err I w ms a f in
      let first : commit_members I t.members checks.members w ≡ ret (w1, err (modify_failed q)) =
        rw h at run in
      rw (first, h) refl

  -- A transaction of distinct names and distinct pending references, whose transactions on values
  -- stand under the names of their targets. If a sound universe with room for its numbers accepts
  -- it, then the commit does not panic and leaves a sound universe. Either there is no error: each
  -- reference inserted under a name is the member of that name, each deleted name is free, and each
  -- anonymous insertion has become a member with a number; or the error is one that the commit of a
  -- member's own transaction gives, on the value of its target, which its check accepts.
  pub commit-AllHold :
      (t : Whole I) (rs : List Ref) (w : Store I) (checks : UniverseCommitCheck Label CommitCheck)
      → IsSound ⦃e = label_eq⦄ w
      → w.universe.next_anonym + length t.members + length rs + 1 < 2 ^ 64
      → Distinct ⦃e = name_eq ⦃e = label_eq⦄⦄ t.members
      → AllMatched I w t.members
      → t.anonymous_insertions ≡ insertions I rs
      → DistinctRefs I rs
      → check I t w ≡ ret (ok checks)
      → (w' : Store I) × (a : Answer I) × (commit I t checks w ≡ ret (w', a))
        × IsSound ⦃e = label_eq⦄ w'
        × (((a ≡ ok tt) × AllHold I w' t.members × AllPlaced I w' rs) ⊎ AnyFails I w t.members a)
  commit-AllHold t rs w checks s room d ma e dr h =
      let parts = check_parts t w checks h in
      let anonymous : check_anonymous I (insertions I rs) w ≡ ret (ok checks.anonymous_insertions) =
        subst (λ (ts : List (Txn I)). check_anonymous I ts w ≡ ret (ok checks.anonymous_insertions))
          e parts.1 in
      let (w1, a1, run, s1, end) =
        commit_members-MembersDone I t.members t.members checks.members rs
          checks.anonymous_insertions w s (omega (arith, room)) d (Within-refl t.members d) ma
          parts.0 anonymous in
      elim end [
        | inr failed ↦ (w1, a1, stopped t checks w w1 a1 t.members run failed, s1, inr failed)
        | inl (fine, done) ↦
            let (w', runs, all) =
              commit_anonymous-AnonymousDone I rs checks.anonymous_insertions w1 done.sound
                (omega (arith, room, done.bounded)) dr done.anonymous in
            let first : commit_members I t.members checks.members w ≡ ret (w1, ok tt) =
              rw fine at run in
            (
              w',
              ok tt,
              unfold commit in rw (first, e) runs,
              all.sound,
              inl (refl, AllHold-Extends I t.members w1 w' all.extends done.hold, all.placed),
            )
      ]
