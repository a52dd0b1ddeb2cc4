-- ===== src/Universe/Transaction/Checking.antt =====
-- The check of a whole transaction (all-is-cubes/src/universe/universe_txn.rs): what a success has
-- found, and that it stays valid while another change is made.
use all_is_cubes.Universe.Transaction.Framing.{
  check_member-Unmoved, Framed-Unmoved, Unmoved, Matched, Framed,
}
use all_is_cubes.Prelude.{
  sym, [], none, false, ◌≡◌, ◌≢◌, ◌∙◌, ap, inl, inr, Option, List, ◌∷◌, arith, Bool-cases,
}
use all_is_cubes.Prelude.Run.{ret, ok, Run-cases, Result-cases}
use all_is_cubes.Prelude.Dict.{find}
use all_is_cubes.Universe.{eqb_name_iff, eqb_name, Ref, Name, pending, name_eq}
use all_is_cubes.Universe.Transaction.{
  Members, AnyTransaction, on, AnyCheck, MemberTxn, modify, inserting, deleting, Txn, Store,
  check_member, is_pending_name,
}
use all_is_cubes.Universe.Transaction.Whole.{check_members, check_anonymous}

module _ (I : Members) where
  open I use {Label, label_eq, CommitCheck}

  abbrev pub Entries : Type 0
  Entries = List (Name Label × Txn I)

  abbrev pub Checked : Type 0
  Checked = Option (AnyCheck CommitCheck)

  abbrev pub find_name : {A : Type 0} → Name Label → List (Name Label × A) → Option A
  find_name = find ⦃e = name_eq ⦃e = label_eq⦄⦄

  -- What the check of the first entry, and of the others, has found.
  pub record First (n : Name Label) (t : Txn I) (ms : Entries) (w : Store I)
      (cs : List (Name Label × Checked)) : Type 0 where
    pub check_of : Checked
    pub others : List (Name Label × Checked)
    pub named : n ≢ pending
    pub not_pending : is_pending_name I n ≡ false
    pub first : check_member I t w n ≡ ret (ok check_of)
    pub rest : check_members I ms w ≡ ret (ok others)
    pub all : cs ≡ (n, check_of) ∷ others

  pub check_members-First :
      (n : Name Label) (t : Txn I) (ms : Entries) (w : Store I) (cs : List (Name Label × Checked))
      → check_members I ((n, t) ∷ ms) w ≡ ret (ok cs)
      → First n t ms w cs
  unfolding check_members
  check_members-First n t ms w cs h = elim (Bool-cases (is_pending_name I n)) [
    | inl p ↦ absurd (ground (arith, p, h))
    | inr p ↦ elim (Run-cases (check_member I t w n)) [
      | inr q ↦ absurd (ground (arith, p, q, h))
      | inl (a, q) ↦ elim (Result-cases a) [
        | inr (x, y) ↦ absurd (ground (arith, p, q, y, h))
        | inl (x, y) ↦ elim (Run-cases (check_members I ms w)) [
          | inr z ↦ absurd (ground (arith, p, q, y, z, h))
          | inl (b, z) ↦ elim (Result-cases b) [
            | inr (v, u) ↦ absurd (ground (arith, p, q, y, z, u, h))
            | inl (v, u) ↦ record {
              check_of = x;
              others = v;
              named = λ e. cc (p, ap (is_pending_name I) e);
              not_pending = p;
              first = q ∙ ap ret y;
              rest = z ∙ ap ret u;
              all = ground (arith, p, q, y, z, u, h);
            }
          ]
        ]
      ]
    ]
  ]

  -- The same for the anonymous insertions.
  pub record FirstAnonymous (t : Txn I) (ts : List (Txn I)) (w : Store I) (cs : List Checked)
      : Type 0 where
    pub check_of : Checked
    pub others : List Checked
    pub first : check_member I t w pending ≡ ret (ok check_of)
    pub rest : check_anonymous I ts w ≡ ret (ok others)
    pub all : cs ≡ check_of ∷ others

  pub check_anonymous-FirstAnonymous :
      (t : Txn I) (ts : List (Txn I)) (w : Store I) (cs : List Checked)
      → check_anonymous I (t ∷ ts) w ≡ ret (ok cs)
      → FirstAnonymous t ts w cs
  unfolding check_anonymous
  check_anonymous-FirstAnonymous t ts w cs h = elim (Run-cases (check_member I t w pending)) [
    | inr q ↦ absurd (ground (arith, q, h))
    | inl (a, q) ↦ elim (Result-cases a) [
      | inr (x, y) ↦ absurd (ground (arith, q, y, h))
      | inl (x, y) ↦ elim (Run-cases (check_anonymous I ts w)) [
        | inr z ↦ absurd (ground (arith, q, y, z, h))
        | inl (b, z) ↦ elim (Result-cases b) [
          | inr (v, u) ↦ absurd (ground (arith, q, y, z, u, h))
          | inl (v, u) ↦ record {
            check_of = x;
            others = v;
            first = q ∙ ap ret y;
            rest = z ∙ ap ret u;
            all = ground (arith, q, y, z, u, h);
          }
        ]
      ]
    ]
  ]

  abbrev pub AllMatched : Store I → Entries → Type 0
  AllMatched w [] = Unit
  AllMatched w ((n, t) ∷ ms) = Matched I w n t × AllMatched w ms

  -- The names of the others are other names.
  pub other_name :
      (n m : Name Label) (u : Txn I) (ms : Entries)
      → find_name n ((m, u) ∷ ms) ≡ none
      → (m ≢ n) × (find_name n ms ≡ none)
  unfolding find
  other_name n m u ms h = elim (Bool-cases (eqb_name ⦃e = label_eq⦄ m n)) [
    | inl same ↦ absurd (ground (arith, same, h))
    | inr other ↦ (λ e. cc (other, (eqb_name_iff ⦃e = label_eq⦄ m n).1 e), ground (arith, other, h))
  ]

  Unmoved-Matched :
      (u : Txn I) (w w' : Store I) (m : Name Label)
      → Unmoved I w w' m u
      → Matched I w m u
      → Matched I w' m u
  Unmoved-Matched MemberTxn.noop w w' m h ma = tt
  Unmoved-Matched (modify AnyTransaction.noop) w w' m h ma = tt
  Unmoved-Matched (modify (on k r t)) w w' m h (c, at, e) = (c, h ∙ at, e)
  Unmoved-Matched (inserting r) w w' m h ma = tt
  Unmoved-Matched deleting w w' m h ma = tt

  -- The checks of the other members stay valid after a change of one member.
  pub check_members-Framed :
      (ms : Entries) (cs : List (Name Label × Checked)) (w w' : Store I) (n : Name Label)
      → Framed I w w' n
      → find_name n ms ≡ none
      → AllMatched w ms
      → check_members I ms w ≡ ret (ok cs)
      → (check_members I ms w' ≡ ret (ok cs)) × AllMatched w' ms
  unfolding check_members
  check_members-Framed [] cs w w' n f d ma h = (h, tt)
  check_members-Framed ((m, u) ∷ ms) cs w w' n f d ma h =
      let x = check_members-First m u ms w cs h in
      let o = other_name n m u ms d in
      let still = Framed-Unmoved I u w w' n m x.check_of f o.0 ma.0 x.first in
      let (r, mr) = check_members-Framed ms x.others w w' n f o.1 ma.1 x.rest in
      let again = check_member-Unmoved I u w w' m still ∙ x.first in
      (ground (arith, x.not_pending, again, r, x.all), (Unmoved-Matched u w w' m still ma.0, mr))

  abbrev pub insertions : List Ref → List (Txn I)
  insertions [] = []
  insertions (r ∷ rs) = inserting r ∷ insertions rs

  abbrev pub AllUnmoved : Store I → Store I → List Ref → Type 0
  AllUnmoved w w' [] = Unit
  AllUnmoved w w' (r ∷ rs) = Unmoved I w w' pending (inserting r) × AllUnmoved w w' rs

  pub check_anonymous-Unmoved :
      (rs : List Ref) (cs : List Checked) (w w' : Store I)
      → AllUnmoved w w' rs
      → check_anonymous I (insertions rs) w ≡ ret (ok cs)
      → check_anonymous I (insertions rs) w' ≡ ret (ok cs)
  unfolding check_anonymous
  check_anonymous-Unmoved [] cs w w' h k = k
  check_anonymous-Unmoved (r ∷ rs) cs w w' h k =
      let x = check_anonymous-FirstAnonymous (inserting r) (insertions rs) w cs k in
      let again = check_member-Unmoved I (inserting r) w w' pending h.0 ∙ x.first in
      let others = check_anonymous-Unmoved rs x.others w w' h.1 x.rest in
      ground (arith, again, others, x.all)

  pub anonymous-AllUnmoved :
      (rs : List Ref) (w w' : Store I) (n : Name Label) (cs : List Checked)
      → Framed I w w' n
      → n ≢ pending
      → check_anonymous I (insertions rs) w ≡ ret (ok cs)
      → AllUnmoved w w' rs
  anonymous-AllUnmoved [] w w' n cs f d h = tt
  anonymous-AllUnmoved (r ∷ rs) w w' n cs f d h =
      let x = check_anonymous-FirstAnonymous (inserting r) (insertions rs) w cs h in
      (
        Framed-Unmoved I (inserting r) w w' n pending x.check_of f (λ e. d (sym e)) tt x.first,
        anonymous-AllUnmoved rs w w' n x.others f d x.rest,
      )
