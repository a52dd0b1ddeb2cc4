-- ===== src/Universe/Transaction/Failing.antt =====
-- The errors with which the commit of a checked transaction can end
-- (all-is-cubes/src/universe/universe_txn.rs): those of the members' own transactions.
use all_is_cubes.Prelude.{
  get_elem?, ap, inl, inr, ◌⊎◌, ◌≡◌, ◌≢◌, refl, ◌∙◌, sym, none, some, List, [], ◌∷◌,
}
use all_is_cubes.Prelude.Run.{ret, ok, err, Result-cases}
use all_is_cubes.Universe.{ready, Name, name_eq}
use all_is_cubes.Universe.Committing.{Effect, Answer, Answers, own_answer}
use all_is_cubes.Universe.Transaction.{
  CellOf, modify_failed, AnyTransaction, on, Members, MemberTxn, modify, inserting, deleting, Txn,
  Store, commit_member,
}
use all_is_cubes.Universe.Transaction.Whole.{commit_members}
use all_is_cubes.Universe.Transaction.Framing.{Matched, Framed}
use all_is_cubes.Universe.Transaction.Checking.{Entries, Checked, find_name, AllMatched, other_name}

module _ (I : Members) where
  open I use {Label, label_eq, Value, CommitCheck, CommitProblem}

  -- The answer is an error that the commit of the member's own transaction gives, on the value of
  -- its target, which its check accepts.
  abbrev pub Failing : Store I → Txn I → Answer I → Type 0
  Failing w (modify (on k r t)) a =
      (c : CellOf I) × (v : Value) × (x : CommitCheck) × (p : CommitProblem) × (get_elem? w.heap r
        ≡ some c)
      × (c.entry ≡ ready v)
      × (I.check t v ≡ ok x)
      × ((I.commit t v x).1 ≡ err p)
      × (a ≡ err (modify_failed p))
  Failing w (modify AnyTransaction.noop) a = ⊥
  Failing w MemberTxn.noop a = ⊥
  Failing w (inserting r) a = ⊥
  Failing w deleting a = ⊥

  abbrev pub AnyFails : Store I → Entries I → Answer I → Type 0
  AnyFails w [] a = ⊥
  AnyFails w ((n, t) ∷ ms) a = Failing w t a ⊎ AnyFails w ms a

  pub AnyFails-err :
      (w : Store I) (ms : Entries I) (a : Answer I)
      → AnyFails w ms a
      → (p : CommitProblem) × (a ≡ err (modify_failed p))
  AnyFails-err w [] a f = absurd f
  AnyFails-err w ((n, modify (on k r t)) ∷ ms) a (inl (c, v, x, p, at, g, o, q, h)) = (p, h)
  AnyFails-err w ((n, modify AnyTransaction.noop) ∷ ms) a (inl f) = absurd f
  AnyFails-err w ((n, MemberTxn.noop) ∷ ms) a (inl f) = absurd f
  AnyFails-err w ((n, inserting r) ∷ ms) a (inl f) = absurd f
  AnyFails-err w ((n, deleting) ∷ ms) a (inl f) = absurd f
  AnyFails-err w ((n, t) ∷ ms) a (inr f) = AnyFails-err w ms a f

  pub Answers-cases :
      (t : Txn I) (w w' : Store I) (n : Name Label) (e : Effect I t w w' n) (a : Answer I)
      → Answers I t w w' n e a
      → (a ≡ ok tt) ⊎ Failing w t a
  Answers-cases MemberTxn.noop w w' n e a h = inl h
  Answers-cases (modify AnyTransaction.noop) w w' n e a h = inl h
  Answers-cases (modify (on k r t)) w w' n e a h =
      elim (Result-cases (I.commit t e.value e.check).1) [
        | inl (y, fine) ↦ inl (h ∙ ap (own_answer I) fine)
        | inr (q, failed) ↦ inr (
          e.cell,
          e.value,
          e.check,
          q,
          e.at_ref,
          e.has_value,
          e.passed,
          failed,
          h ∙ ap (own_answer I) failed,
        )
      ]
  Answers-cases (inserting r) w w' n e a h = inl h
  Answers-cases deleting w w' n e a h = inl h

  pub stop :
      (all : Entries I) (n : Name Label) (t : Txn I) (cs : List (Name Label × Checked I))
      (c : Checked I) (others : List (Name Label × Checked I)) (w w1 : Store I) (a : Answer I)
      → find_name I n all ≡ some t
      → cs ≡ (n, c) ∷ others
      → commit_member I t w n c ≡ ret (w1, a)
      → Failing w t a
      → commit_members I all cs w ≡ ret (w1, a)
  unfolding commit_members
  stop all n (modify (on k r t)) cs c others w w1 a found e one
        (d, v, x, q, at, has, passed, failed, h) =
      let run : commit_member I (modify (on k r t)) w n c ≡ ret (w1, err (modify_failed q)) =
        one ∙ ap (λ (z : Answer I). ret (w1, z)) h in
      rw (e, found, run, h) refl
  stop all n (modify AnyTransaction.noop) cs c others w w1 a found e one f = absurd f
  stop all n MemberTxn.noop cs c others w w1 a found e one f = absurd f
  stop all n (inserting r) cs c others w w1 a found e one f = absurd f
  stop all n deleting cs c others w w1 a found e one f = absurd f

  Failing-Framed :
      (t : Txn I) (w w1 : Store I) (n m : Name Label) (a : Answer I)
      → Framed I w w1 n
      → m ≢ n
      → Matched I w m t
      → Failing w1 t a
      → Failing w t a
  Failing-Framed (modify (on k r t)) w w1 n m a f d (y, here, e)
        (c, v, x, p, at, has, passed, failed, q) =
      (c, v, x, p, sym (f.cells r y here (λ z. d (sym e ∙ z))) ∙ at, has, passed, failed, q)
  Failing-Framed (modify AnyTransaction.noop) w w1 n m a f d ma h = h
  Failing-Framed MemberTxn.noop w w1 n m a f d ma h = h
  Failing-Framed (inserting r) w w1 n m a f d ma h = h
  Failing-Framed deleting w w1 n m a f d ma h = h

  -- What fails after a change of another name fails before it.
  pub AnyFails-Framed :
      (ms : Entries I) (w w1 : Store I) (n : Name Label) (a : Answer I)
      → Framed I w w1 n
      → find_name I n ms ≡ none
      → AllMatched I w ms
      → AnyFails w1 ms a
      → AnyFails w ms a
  AnyFails-Framed [] w w1 n a f d ma h = h
  AnyFails-Framed ((m, t) ∷ ms) w w1 n a f d ma (inl h) =
      inl (Failing-Framed t w w1 n m a f (other_name I n m t ms d).0 ma.0 h)
  AnyFails-Framed ((m, t) ∷ ms) w w1 n a f d ma (inr h) =
      inr (AnyFails-Framed ms w w1 n a f (other_name I n m t ms d).1 ma.1 h)
