-- ===== src/Universe/Transaction/Named.antt =====
-- The first loop of the commit of a transaction that has been checked
-- (all-is-cubes/src/universe/universe_txn.rs).
use all_is_cubes.Prelude.{
  ap, inl, inr, ◌⊎◌, ◌+◌, ◌<◌, ◌≤◌, ◌^◌, ◌≡◌, ◌≢◌, refl, ◌∙◌, sym, subst, none, some, List, [], ◌∷◌,
  length, arith,
}
use all_is_cubes.Prelude.Run.{ret, ok}
use all_is_cubes.Universe.{Name, specific, anonym, pending, Ref, Kind, name_eq, get}
use all_is_cubes.Universe.Soundness.{IsSound, Free}
use all_is_cubes.Universe.Placing.{get-Places_new}
use all_is_cubes.Universe.Maps.Joining.{Distinct}
use all_is_cubes.Universe.Committing.{Effect, Answer, commit_member-Effect}
use all_is_cubes.Universe.Transaction.{
  Members, MemberTxn, modify, inserting, deleting, Txn, Store, check_member, commit_member,
}
use all_is_cubes.Universe.Transaction.Whole.{check_members, check_anonymous, commit_members}
use all_is_cubes.Universe.Transaction.Failing.{AnyFails, Answers-cases, stop, AnyFails-Framed}
use all_is_cubes.Universe.Transaction.Framing.{Effect-Framed, given_named}
use all_is_cubes.Universe.Transaction.Checking.{
  Entries, Checked, find_name, check_members-First, AllMatched, check_members-Framed, insertions,
  check_anonymous-Unmoved, anonymous-AllUnmoved, other_name,
}

module _ (I : Members) where
  open I use {Label, label_eq, Value, CommitCheck, CommitProblem}

  -- What a change of a name leaves: the inserted member has the name, or no member has it.
  abbrev pub Holds : Store I → Name Label → Txn I → Type 0
  Holds w n (inserting r) = (k : Kind) × (get ⦃e = label_eq⦄ w.universe k n ≡ some r)
  Holds w n deleting = Free ⦃e = label_eq⦄ w.universe n × (l : Label) × (n ≡ specific l)
  Holds w n (modify t) = Unit
  Holds w n MemberTxn.noop = Unit

  abbrev pub AllHold : Store I → Entries I → Type 0
  AllHold w [] = Unit
  AllHold w ((n, t) ∷ ms) = Holds w n t × AllHold w ms

  abbrev pub Within : Entries I → Entries I → Type 0
  Within all [] = Unit
  Within all ((n, t) ∷ ms) = (find_name I n all ≡ some t) × Within all ms

  is_specific_lem :
      (w : Store I) (n : Name Label) (c : Checked I)
      → check_member I deleting w n ≡ ret (ok c)
      → (l : Label) × (n ≡ specific l)
  unfolding check_member
  is_specific_lem w (specific l) c h = (l, refl)
  is_specific_lem w (anonym i) c h = absurd (ground (arith, h))
  is_specific_lem w pending c h = absurd (ground (arith, h))

  Effect-Holds :
      (t : Txn I) (w w' : Store I) (n : Name Label) (c : Checked I)
      → n ≢ pending
      → check_member I t w n ≡ ret (ok c)
      → Effect I t w w' n
      → Holds w' n t
  Effect-Holds MemberTxn.noop w w' n c d h e = tt
  Effect-Holds (modify t) w w' n c d h e = tt
  Effect-Holds (inserting r) w w' n c d h (x, at, y, p, z) = (
    x.kind,
    subst (λ (m : Name Label). get ⦃e = label_eq⦄ w'.universe x.kind m ≡ some r)
        (given_named I n w.universe.next_anonym d) (get-Places_new ⦃e = label_eq⦄ p),
  )
  Effect-Holds deleting w w' n c d h (k, r, p, free) =
      (free, (is_specific_lem w n c h).0, (is_specific_lem w n c h).1)

  Holds-kept :
      (t : Txn I) (w w' : Store I) (n : Name Label)
      → ((l : Kind) → get ⦃e = label_eq⦄ w'.universe l n ≡ get ⦃e = label_eq⦄ w.universe l n)
      → Holds w n t
      → Holds w' n t
  Holds-kept MemberTxn.noop w w' n f h = tt
  Holds-kept (modify t) w w' n f h = tt
  Holds-kept (inserting r) w w' n f (k, h) = (k, f k ∙ h)
  Holds-kept deleting w w' n f (h, l, e) = (λ k. f k ∙ h k, l, e)

  -- What the loop over the members has done.
  pub record MembersDone (ms : Entries I) (rs : List Ref) (ac : List (Checked I)) (w w' : Store I)
      : Type 0 where
    pub sound : IsSound ⦃e = label_eq⦄ w'
    pub bounded : w'.universe.next_anonym ≤ w.universe.next_anonym + length ms
    pub anonymous : check_anonymous I (insertions I rs) w' ≡ ret (ok ac)
    pub kept :
        (m : Name Label)
        → find_name I m ms ≡ none
        → (l : Kind) → get ⦃e = label_eq⦄ w'.universe l m ≡ get ⦃e = label_eq⦄ w.universe l m
    pub hold : AllHold w' ms

  step :
      (all : Entries I) (n : Name Label) (t : Txn I) (ms : Entries I)
      (cs : List (Name Label × Checked I)) (c : Checked I) (others : List (Name Label × Checked I))
      (w w1 w' : Store I) (a : Answer I)
      → find_name I n all ≡ some t
      → cs ≡ (n, c) ∷ others
      → commit_member I t w n c ≡ ret (w1, ok tt)
      → commit_members I all others w1 ≡ ret (w', a)
      → commit_members I all cs w ≡ ret (w', a)
  unfolding commit_members
  step all n t ms cs c others w w1 w' a found e one rest = rw (e, found, one) rest

  -- The loop comes to its end, or stops at an error of a member's own transaction.
  abbrev pub MembersEnd :
      Entries I
      → Entries I
      → List (Name Label × Checked I)
      → List Ref
      → List (Checked I)
      → Store I
      → Type 0
  MembersEnd all ms cs rs ac w =
      (w' : Store I) × (a : Answer I) × (commit_members I all cs w ≡ ret (w', a))
      × IsSound ⦃e = label_eq⦄ w'
      × (((a ≡ ok tt) × MembersDone ms rs ac w w') ⊎ AnyFails I w ms a)

  pub commit_members-MembersDone :
      (all ms : Entries I) (cs : List (Name Label × Checked I)) (rs : List Ref)
      (ac : List (Checked I)) (w : Store I)
      → IsSound ⦃e = label_eq⦄ w
      → w.universe.next_anonym + length ms + 1 < 2 ^ 64
      → Distinct ⦃e = name_eq ⦃e = label_eq⦄⦄ ms
      → Within all ms
      → AllMatched I w ms
      → check_members I ms w ≡ ret (ok cs)
      → check_anonymous I (insertions I rs) w ≡ ret (ok ac)
      → MembersEnd all ms cs rs ac w
  unfolding commit_members
  commit_members-MembersDone all [] cs rs ac w s room d wi ma h k =
      let none_left : cs ≡ [] = unfold check_members in ground (arith, h) in
      (
        w,
        ok tt,
        rw none_left refl,
        s,
        inl (
          refl,
          record {
            sound = s;
            bounded = omega arith;
            anonymous = k;
            kept = λ m f l. refl;
            hold = tt;
          },
        ),
      )
  commit_members-MembersDone all ((n, t) ∷ ms) cs rs ac w s room d wi ma h k =
      let x = check_members-First I n t ms w cs h in
      let (w1, a1, run, (effect, answers), s1) =
        commit_member-Effect I t w n x.check_of s (omega (arith, room)) x.first in
      let f = Effect-Framed I t w w1 n s x.named ma.0 effect in
      let (h1, m1) = check_members-Framed I ms x.others w w1 n f d.0 ma.1 x.rest in
      let k1 =
        check_anonymous-Unmoved I rs ac w w1 (anonymous-AllUnmoved I rs w w1 n ac f x.named k) k in
      elim (Answers-cases I t w w1 n effect a1 answers) [
        | inr failed ↦ (
          w1,
          a1,
          stop I all n t cs x.check_of x.others w w1 a1 wi.0 x.all run failed,
          s1,
          inr (inl failed),
        )
        | inl fine ↦
            let (w', a, runs, s', end) =
              commit_members-MembersDone all ms x.others rs ac w1 s1
                (omega (arith, room, f.bounded)) d.1 wi.1 m1 h1 k1 in
            (
              w',
              a,
              step all n t ms cs x.check_of x.others w w1 w' a wi.0 x.all
                  (run ∙ ap (λ (z : Answer I). ret (w1, z)) fine) runs,
              s',
              elim end [
                | inr failed ↦ inr (inr (AnyFails-Framed I ms w w1 n a f d.0 ma.1 failed))
                | inl (good, done) ↦ inl (
                  good,
                  record {
                    sound = done.sound;
                    bounded = omega (arith, done.bounded, f.bounded);
                    anonymous = done.anonymous;
                    kept = λ m g l.
                        let o = other_name I m n t ms g in
                        done.kept m o.1 l ∙ f.gets l m (λ e. o.0 (sym e));
                    hold = (
                      Holds-kept t w1 w' n (done.kept n d.0)
                          (Effect-Holds t w w1 n x.check_of x.named x.first effect),
                      done.hold,
                    );
                  },
                )
              ],
            )
      ]
