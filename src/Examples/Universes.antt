-- ===== src/Examples/Universes.antt =====
-- The theorems on universes at a concrete one, with a block definition and a pending space.
use all_is_cubes.Universe.Transaction.Failing.{AnyFails}
use all_is_cubes.Prelude.{
  set, none, inr, zero, inl, suc, Option-cases, sym, ltb, ap, ◌∙◌, some-eq_some, none≢some,
  if◌then◌else◌, ℕ, ◌+◌, ◌≡◌, refl, ◌⊎◌, true, false, some, [], ◌∷◌, nat_eq, arith, get_elem?,
}
use all_is_cubes.Prelude.Run.{ret, ok, err, Result}
use all_is_cubes.Prelude.Dict.{find}
use all_is_cubes.Universe
use all_is_cubes.Universe.Transaction
use all_is_cubes.Universe.Transaction.Whole
use all_is_cubes.Universe.Transaction.Whole.{commit_members, check_members, check_anonymous}
use all_is_cubes.Universe.Transaction.{modify_failed, commit_any, check_upgrade_pending}
use all_is_cubes.Universe.{get_any, name_of, read, try_borrow_mut}
use all_is_cubes.Universe.Transaction.Committing.{commit-AllHold}
use all_is_cubes.Universe.Transaction.Named.{AllHold}
use all_is_cubes.Universe.Transaction.Anonymous.{AllPlaced}
use all_is_cubes.Universe.Transaction.Merging
use all_is_cubes.Universe.Transaction.Foreign.{delete_foreign}
use all_is_cubes.Universe.Transaction.Joining.{commit_merge-Merges, Merges}
use all_is_cubes.Universe.Committing.{commit_member-Effect, Effect, Answer, Answers}
use all_is_cubes.Universe.Maps.{check_merge_maps, check_entries}
use all_is_cubes.Universe.Transaction.{
  Members, MemberTxn, modify, inserting, on, checked, check_member, check_any, commit_member,
  UniverseCommitCheck,
}
use all_is_cubes.Universe.Transaction.Merging.{check_merge_member, check_merge_any}
use all_is_cubes.Universe.{
  try_borrow_mut, Name, specific, anonym, pending, Kind, block_def, character, space, State,
  is_pending, member, ready, dropped, Cell, World, unlocked, eqb_name, name_eq, InsertErrorKind,
  get, insert_and_upgrade_pending,
}
use all_is_cubes.Universe.Soundness.{IsSound, Free}
use all_is_cubes.Universe.Naming.{Refused}
use all_is_cubes.Universe.Placing.{Places}
use all_is_cubes.Universe.Inserting.{
  insert-Places, insert_and_upgrade_pending-Places, new_cell, upgraded,
}
use all_is_cubes.Universe.Deleting.{Removes, delete-Removes}

-- Names are numbers, and values are numbers.
abbrev grass : Cell ℕ ℕ
grass = record {
  kind = block_def;
  state = member (specific 7) 1;
  entry = ready 70;
  lock = unlocked;
}

abbrev meadow : Cell ℕ ℕ
meadow = record { kind = space; state = is_pending (specific 8); entry = ready 80; lock = unlocked }

-- A member of another universe, of the same name.
abbrev foreign : Cell ℕ ℕ
foreign = record { kind = space; state = member (specific 7) 2; entry = ready 71; lock = unlocked }

abbrev world : World ℕ ℕ
world = record {
  universe = record {
    tables = record { blocks = (specific 7, 0) ∷ []; characters = []; spaces = [] };
    id = 1;
    next_anonym = 0;
    wants_gc = false;
  };
  heap = grass ∷ meadow ∷ [];
}

abbrev two_worlds : World ℕ ℕ
two_worlds = record world { heap = grass ∷ meadow ∷ foreign ∷ [] }

only_grass :
    (k : Kind) (n : Name ℕ) (r : ℕ)
    → get ⦃e = nat_eq⦄ world.universe k n ≡ some r
    → (k ≡ block_def) × (n ≡ specific 7) × (r ≡ 0)
unfolding get find eqb_name
only_grass block_def (specific l) r h =
    let l-is : l ≡ 7 = ground arith in (refl, rw l-is refl, ground arith)
only_grass block_def (anonym i) r h = cc
only_grass block_def pending r h = cc
only_grass character n r h = cc
only_grass space n r h = cc

only_meadow :
    (r : ℕ) (c : Cell ℕ ℕ) (n : Name ℕ)
    → get_elem? world.heap r ≡ some c
    → c.state ≡ is_pending n
    → (v : ℕ) × (c.entry ≡ ready v)
only_meadow zero c n h x =
    let it : grass ≡ c = some-eq_some h in
    let states : member (specific 7) 1 ≡ is_pending n = ap (λ (y : Cell ℕ ℕ). y.state) it ∙ x in cc
only_meadow (suc zero) c n h x =
    let it : meadow ≡ c = some-eq_some h in (80, ap (λ (y : Cell ℕ ℕ). y.entry) (sym it))
only_meadow (suc (suc i)) c n h x = cc

world-IsSound : IsSound ⦃e = nat_eq⦄ world
world-IsSound = record {
  apart = λ n k l r q f g. (only_grass k n r f).0 ∙ sym (only_grass l n q g).0;
  numbered = λ k m h. elim (Option-cases (get ⦃e = nat_eq⦄ world.universe k (anonym m))) [
    | inl f ↦ f
    | inr (r, f) ↦ let q = (only_grass k (anonym m) r f).1 in cc
  ];
  no_pending = λ k. elim (Option-cases (get ⦃e = nat_eq⦄ world.universe k pending)) [
    | inl f ↦ f
    | inr (r, f) ↦ let q = (only_grass k pending r f).1 in cc
  ];
  registered = λ k n r f.
      let (p, q, s) = only_grass k n r f in
      record {
        cell = grass;
        value = 70;
        at_ref = rw s refl;
        of_kind = sym p;
        is_member = rw q refl;
        has_value = refl;
      };
  alive = only_meadow;
}

insert-Places_example :
    ((w' : World ℕ ℕ) × (Universe.insert ⦃e = nat_eq⦄ world character pending 90 ≡ ret (w', ok 2))
      × Places ⦃e = nat_eq⦄ world w' character (anonym 0) 2
      × IsSound ⦃e = nat_eq⦄ w'
      × (get_elem? w'.heap 2 ≡ some (new_cell ⦃e = nat_eq⦄ world character (anonym 0) 90)))
    ⊎ ((x : InsertErrorKind) × (Universe.insert ⦃e = nat_eq⦄ world character pending 90
          ≡ ret (world, err (record { name = pending; kind = x })))
        × Refused ⦃e = nat_eq⦄ world.universe pending x)
insert-Places_example =
    insert-Places ⦃e = nat_eq⦄ world character pending 90 world-IsSound (omega arith)

insert_and_upgrade_pending-Places_example :
    ((w' : World ℕ ℕ) × (insert_and_upgrade_pending ⦃e = nat_eq⦄ world 1 ≡ ret (w', ok tt))
      × Places ⦃e = nat_eq⦄ world w' space (specific 8) 1
      × IsSound ⦃e = nat_eq⦄ w'
      × (get_elem? w'.heap 1 ≡ some (upgraded ⦃e = nat_eq⦄ world meadow (specific 8))))
    ⊎ ((x : InsertErrorKind) × (insert_and_upgrade_pending ⦃e = nat_eq⦄ world 1
          ≡ ret (world, err (record { name = specific 8; kind = x })))
        × Refused ⦃e = nat_eq⦄ world.universe (specific 8) x)
insert_and_upgrade_pending-Places_example =
    insert_and_upgrade_pending-Places ⦃e = nat_eq⦄ world 1 meadow (specific 8) world-IsSound
      (omega arith) refl refl

delete-Removes_example :
    ((k : Kind) × (r : ℕ) × (w' : World ℕ ℕ) × (Universe.delete ⦃e = nat_eq⦄ world (specific 7)
        ≡ (w', true))
      × Removes ⦃e = nat_eq⦄ world w' k (specific 7) r
      × IsSound ⦃e = nat_eq⦄ w'
      × Free ⦃e = nat_eq⦄ w'.universe (specific 7))
    ⊎ ((Universe.delete ⦃e = nat_eq⦄ world (specific 7) ≡ (world, false))
        × Free ⦃e = nat_eq⦄ world.universe (specific 7))
delete-Removes_example = delete-Removes ⦃e = nat_eq⦄ world (specific 7) world-IsSound

-- The members' transactions add to their values, where the sum stays below 100.
add_check : ℕ → ℕ → Result ℕ ℕ
add_check t v = if ltb (t + v) 100 then ok (t + v) else err v

abbrev adding : Members
adding = record {
  Label = ℕ;
  label_eq = nat_eq;
  Value = ℕ;
  Transaction = ℕ;
  CommitCheck = ℕ;
  MergeCheck = Unit {0};
  Problem = ℕ;
  CommitProblem = ⊥;
  Conflict = ⊥;
  check = add_check;
  commit = λ t v x. (x, ok tt);
  check_merge = λ t u. ok tt;
  commit_merge = λ t u c. t + u;
}

abbrev growth : MemberTxn ℕ
growth = modify (on block_def 0 5)

commit_member-Effect_example :
    (w' : World ℕ ℕ) × (a : Answer adding) × (commit_member adding growth world
        (specific 7)
        (some (checked 75))
      ≡ ret (w', a))
    × ((e : Effect adding growth world w' (specific 7)) × Answers adding growth world w'
          (specific 7)
          e
          a)
    × IsSound ⦃e = nat_eq⦄ w'
commit_member-Effect_example =
    commit_member-Effect adding growth world (specific 7) (some (checked 75)) world-IsSound
      (omega arith) (unfold check_member check_any try_borrow_mut add_check in refl)

abbrev one : Transaction.Whole adding
one = record {
  members = (specific 7, growth) ∷ [];
  anonymous_insertions = [];
  universe_id = some 1;
}

abbrev two : Transaction.Whole adding
two = record {
  members = (specific 7, growth) ∷ (specific 8, inserting 1) ∷ [];
  anonymous_insertions = [];
  universe_id = some 1;
}

commit_merge-Merges_example :
    (r : Transaction.Whole adding) × (Merging.commit_merge adding one two
        ((specific 7, some (checked tt)) ∷ [])
      ≡ ret r)
    × Merges adding one two r
commit_merge-Merges_example =
    commit_merge-Merges adding one two ((specific 7, some (checked tt)) ∷ [])
      (unfold find in refl, tt) (unfold find eqb_name in (refl, (refl, tt)))
      (unfold Merging.check_merge check_merge_maps check_entries check_merge_member check_merge_any
          find eqb_name in
        refl)

delete_foreign_example :
    (t : Transaction.Whole adding) × (checks : UniverseCommitCheck ℕ ℕ) × (Whole.delete adding
        two_worlds.heap 2
      ≡ ret t)
    × (Whole.check adding t two_worlds ≡ ret (ok checks))
delete_foreign_example =
    delete_foreign adding two_worlds 2 foreign 7 2 refl refl
      (unfold get find eqb_name in λ h. none≢some (sym (h block_def)))

-- The block definition is changed, the space is inserted under its name, and a character without
-- one.
abbrev wanderer : Cell ℕ ℕ
wanderer = record {
  kind = character;
  state = is_pending pending;
  entry = ready 90;
  lock = unlocked;
}

abbrev crowded : World ℕ ℕ
crowded = record world { heap = grass ∷ meadow ∷ wanderer ∷ [] }

abbrev changes : Transaction.Whole adding
changes = record {
  members = (specific 7, growth) ∷ (specific 8, inserting 1) ∷ [];
  anonymous_insertions = inserting 2 ∷ [];
  universe_id = some 1;
}

abbrev accepted : UniverseCommitCheck ℕ ℕ
accepted = record {
  members = (specific 7, some (checked 75)) ∷ (specific 8, none) ∷ [];
  anonymous_insertions = none ∷ [];
}

crowded_alive :
    (r : ℕ) (c : Cell ℕ ℕ) (n : Name ℕ)
    → get_elem? crowded.heap r ≡ some c
    → c.state ≡ is_pending n
    → (v : ℕ) × (c.entry ≡ ready v)
crowded_alive zero c n h x = only_meadow zero c n h x
crowded_alive (suc zero) c n h x = only_meadow (suc zero) c n h x
crowded_alive (suc (suc zero)) c n h x =
    let it : wanderer ≡ c = some-eq_some h in (90, ap (λ (y : Cell ℕ ℕ). y.entry) (sym it))
crowded_alive (suc (suc (suc i))) c n h x = cc

crowded-IsSound : IsSound ⦃e = nat_eq⦄ crowded
crowded-IsSound = record {
  apart = world-IsSound.apart;
  numbered = world-IsSound.numbered;
  no_pending = world-IsSound.no_pending;
  registered = λ k n r f.
      let (p, q, s) = only_grass k n r f in
      record {
        cell = grass;
        value = 70;
        at_ref = rw s refl;
        of_kind = sym p;
        is_member = rw q refl;
        has_value = refl;
      };
  alive = crowded_alive;
}

changes_accepted : Whole.check adding changes crowded ≡ ret (ok accepted)
unfolding Whole.check check_members check_anonymous check_member check_any try_borrow_mut add_check
    check_upgrade_pending get_any find eqb_name name_of read
changes_accepted = refl

commit-AllHold_example :
    (w' : World ℕ ℕ) × (a : Answer adding) × (Whole.commit adding changes accepted crowded
      ≡ ret (w', a))
    × IsSound ⦃e = nat_eq⦄ w'
    × (((a ≡ ok tt) × AllHold adding w' changes.members × AllPlaced adding w' (2 ∷ []))
        ⊎ AnyFails adding crowded changes.members a)
commit-AllHold_example =
    commit-AllHold adding changes (2 ∷ []) crowded accepted crowded-IsSound (omega arith)
      (unfold find eqb_name in (refl, (refl, tt))) ((grass, refl, unfold name_of in refl), (tt, tt))
      refl (tt, tt) changes_accepted

-- A member whose own commit fails after its check: the value is written, and the error is passed on.
abbrev failing : Members
failing = record {
  Label = ℕ;
  label_eq = nat_eq;
  Value = ℕ;
  Transaction = ℕ;
  CommitCheck = ℕ;
  MergeCheck = Unit {0};
  Problem = ℕ;
  CommitProblem = ℕ;
  Conflict = ⊥;
  check = add_check;
  commit = λ t v x. (x, err 9);
  check_merge = λ t u. ok tt;
  commit_merge = λ t u c. t + u;
}

failed :
    Whole.commit failing changes accepted crowded
    ≡ ret (
      record crowded { heap = set crowded.heap 0 (record grass { entry = ready 75 }) },
      err (modify_failed 9),
    )
unfolding Whole.commit commit_members commit_member commit_any try_borrow_mut find eqb_name
failed = refl
