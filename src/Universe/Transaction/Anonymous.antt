-- ===== src/Universe/Transaction/Anonymous.antt =====
-- The second loop of the commit of a transaction that has been checked
-- (all-is-cubes/src/universe/universe_txn.rs).
use all_is_cubes.Universe.Transaction.Named.{AllHold}
use all_is_cubes.Prelude.{
  ℕ, ◌+◌, ◌<◌, ◌^◌, ◌≡◌, ◌≢◌, refl, ◌∙◌, sym, subst, none, some, List, [], ◌∷◌, length, arith,
}
use all_is_cubes.Prelude.Run.{ret, ok}
use all_is_cubes.Universe.{Name, specific, anonym, pending, Ref, Kind, name_eq, get}
use all_is_cubes.Universe.Soundness.{IsSound}
use all_is_cubes.Universe.Placing.{get-Places_other, get-Places, Places, get-Places_new}
use all_is_cubes.Universe.Committing.{commit_member-Effect}
use all_is_cubes.Universe.Transaction.{
  Members, MemberTxn, modify, inserting, deleting, Txn, Store, commit_member,
}
use all_is_cubes.Universe.Transaction.Whole.{commit_anonymous, check_anonymous}
use all_is_cubes.Universe.Transaction.Framing.{get_any-cong}
use all_is_cubes.Universe.Transaction.Checking.{
  AllUnmoved, check_anonymous-FirstAnonymous, Entries, Checked, insertions, check_anonymous-Unmoved,
}

module _ (I : Members) where
  open I use {Label, label_eq}

  -- The references are different ones.
  abbrev pub Absent : Ref → List Ref → Type 0
  Absent r [] = Unit
  Absent r (q ∷ rs) = (q ≢ r) × Absent r rs

  abbrev pub DistinctRefs : List Ref → Type 0
  DistinctRefs [] = Unit
  DistinctRefs (r ∷ rs) = Absent r rs × DistinctRefs rs

  -- Each reference has become an anonymous member.
  abbrev pub AllPlaced : Store I → List Ref → Type 0
  AllPlaced w [] = Unit
  AllPlaced w (r ∷ rs) =
      ((k : Kind) × (i : ℕ) × (get ⦃e = label_eq⦄ w.universe k (anonym i) ≡ some r))
      × AllPlaced w rs

  -- Members stay, and no name that is specific gets one.
  pub record Extends (w w' : Store I) : Type 0 where
    pub stay :
        (k : Kind) (n : Name Label) (q : Ref)
        → get ⦃e = label_eq⦄ w.universe k n ≡ some q
        → get ⦃e = label_eq⦄ w'.universe k n ≡ some q
    pub same :
        (k : Kind) (l : Label)
        → get ⦃e = label_eq⦄ w'.universe k (specific l)
          ≡ get ⦃e = label_eq⦄ w.universe k (specific l)

  AllPlaced-Extends :
      (rs : List Ref) (w w' : Store I) → Extends w w' → AllPlaced w rs → AllPlaced w' rs
  AllPlaced-Extends [] w w' x h = tt
  AllPlaced-Extends (r ∷ rs) w w' x ((k, i, h), hs) =
      ((k, i, x.stay k (anonym i) r h), AllPlaced-Extends rs w w' x hs)

  pub AllHold-Extends :
      (ms : Entries I) (w w' : Store I) → Extends w w' → AllHold I w ms → AllHold I w' ms
  AllHold-Extends [] w w' x h = tt
  AllHold-Extends ((n, MemberTxn.noop) ∷ ms) w w' x h = (tt, AllHold-Extends ms w w' x h.1)
  AllHold-Extends ((n, modify t) ∷ ms) w w' x h = (tt, AllHold-Extends ms w w' x h.1)
  AllHold-Extends ((n, inserting r) ∷ ms) w w' x ((k, h), hs) =
      ((k, x.stay k n r h), AllHold-Extends ms w w' x hs)
  AllHold-Extends ((n, deleting) ∷ ms) w w' x ((h, l, e), hs) = (
    (
      λ k.
          subst (λ (m : Name Label). get ⦃e = label_eq⦄ w'.universe k m ≡ none) (sym e)
            (x.same k l
              ∙ subst (λ (m : Name Label). get ⦃e = label_eq⦄ w.universe k m ≡ none) e (h k)),
      l,
      e,
    ),
    AllHold-Extends ms w w' x hs,
  )

  Places-AllUnmoved :
      (rs : List Ref) (w w' : Store I) (k : Kind) (i : ℕ) (r : Ref)
      → Places ⦃e = label_eq⦄ w w' k (anonym i) r
      → Absent r rs
      → AllUnmoved I w w' rs
  Places-AllUnmoved [] w w' k i r p a = tt
  Places-AllUnmoved (q ∷ rs) w w' k i r p a = (
    (
      p.untouched q a.0,
      get_any-cong I w w' pending (λ l. get-Places_other ⦃e = label_eq⦄ p l pending (λ x. cc)),
    ),
    Places-AllUnmoved rs w w' k i r p a.1,
  )

  pub record AnonymousDone (rs : List Ref) (w w' : Store I) : Type 0 where
    pub sound : IsSound ⦃e = label_eq⦄ w'
    pub extends : Extends w w'
    pub placed : AllPlaced w' rs

  step_anonymous :
      (t : Txn I) (ts : List (Txn I)) (cs : List (Checked I)) (c : Checked I)
      (others : List (Checked I)) (w w1 w' : Store I)
      → cs ≡ c ∷ others
      → commit_member I t w pending c ≡ ret (w1, ok tt)
      → commit_anonymous I ts others w1 ≡ ret (w', ok tt)
      → commit_anonymous I (t ∷ ts) cs w ≡ ret (w', ok tt)
  unfolding commit_anonymous
  step_anonymous t ts cs c others w w1 w' e one rest = rw (e, one) rest

  pub commit_anonymous-AnonymousDone :
      (rs : List Ref) (cs : List (Checked I)) (w : Store I)
      → IsSound ⦃e = label_eq⦄ w
      → w.universe.next_anonym + length rs < 2 ^ 64
      → DistinctRefs rs
      → check_anonymous I (insertions I rs) w ≡ ret (ok cs)
      → (w' : Store I) × (commit_anonymous I (insertions I rs) cs w ≡ ret (w', ok tt))
        × AnonymousDone rs w w'
  commit_anonymous-AnonymousDone [] cs w s room d h = (
    w,
    unfold commit_anonymous in refl,
    record { sound = s; extends = record { stay = λ k n q g. g; same = λ k l. refl }; placed = tt },
  )
  commit_anonymous-AnonymousDone (r ∷ rs) cs w s room d h =
      let x = check_anonymous-FirstAnonymous I (inserting r) (insertions I rs) w cs h in
      let (w1, a, run, ((c, at, y, p, z), fine), s1) =
        commit_member-Effect I (inserting r) w pending x.check_of s (omega (arith, room)) x.first in
      let h1 =
        check_anonymous-Unmoved I rs x.others w w1
          (Places-AllUnmoved rs w w1 c.kind w.universe.next_anonym r p d.0) x.rest in
      let (w', runs, done) =
        commit_anonymous-AnonymousDone rs x.others w1 s1 (omega (arith, room, p.bounded)) d.1 h1 in
      (
        w',
        step_anonymous (inserting r) (insertions I rs) cs x.check_of x.others w w1 w' x.all
            (rw fine at run) runs,
        record {
          sound = done.sound;
          extends = record {
            stay = λ k n q g. done.extends.stay k n q (get-Places ⦃e = label_eq⦄ p k n q g);
            same = λ k l.
                done.extends.same k l ∙ get-Places_other ⦃e = label_eq⦄ p k (specific l) (λ e. cc);
          };
          placed = (
            (
              c.kind,
              w.universe.next_anonym,
              done.extends.stay c.kind (anonym w.universe.next_anonym) r
                  (get-Places_new ⦃e = label_eq⦄ p),
            ),
            done.placed,
          );
        },
      )
