-- ===== src/Universe/Inserting.antt =====
-- The ways to insert a member into a universe: `Universe::insert` (all-is-cubes/src/universe.rs and
-- universe/members.rs), and the upgrade of a pending reference (universe/uref.rs).
use all_is_cubes.Prelude.Dict.{put}
use all_is_cubes.Prelude.{
  inr, inl, lt→ltb, get_elem?-set, set, ◌⊎◌, ap, sym, ◌^◌, some-eq_some, ◌<◌, ◌+◌, true, ℕ, ◌≡◌,
  ◌≢◌, refl, ◌∙◌, some, Eq, get_elem?, length, arith, lt-get_elem?, get_elem?-append, ◌++◌, [], ◌∷◌,
}
use all_is_cubes.Prelude.Run.{err, ret, ok}
use all_is_cubes.Universe.{
  InsertErrorKind, drop_root, name_of, insert_root, upgrade_pending, is_pending,
  insert_and_upgrade_pending, Ref, name_eq, table, set_table, Name, Kind, member, ready, unlocked,
  Cell, World, insert, allocate_name, get,
}
use all_is_cubes.Universe.Soundness.{IsSound, get-put}
use all_is_cubes.Universe.Placing.{Places-IsSound, Places}
use all_is_cubes.Universe.Naming.{allocate_name-cases, Refused, given, Fresh}

module _ {L V : Type 0} ⦃e : Eq L⦄ where
  -- An address outside of the heap is not that of a member.
  outside_new :
      (w : World L V)
      → IsSound w
      → (l : Kind) (m : Name L) → get w.universe l m ≢ some (length w.heap)
  outside_new w s l m h =
      let g = s.registered l m (length w.heap) h in
      absurd (omega (arith, lt-get_elem? w.heap (length w.heap) g.at_ref))

  abbrev pub new_cell : World L V → Kind → Name L → V → Cell L V
  new_cell w k n v = record {
    kind = k;
    state = member n w.universe.id;
    entry = ready v;
    lock = unlocked;
  }

  insert_step :
      (w : World L V) (k : Kind) (n name : Name L) (v : V) (i : ℕ)
      → allocate_name w.universe n ≡ ret (record w.universe { next_anonym = i }, ok name)
      → Fresh w.universe i name
      → IsSound w
      → (w' : World L V) × (insert w k n v ≡ ret (w', ok (length w.heap)))
        × Places w w' k name (length w.heap)
        × (get_elem? w'.heap (length w.heap) ≡ some (new_cell w k name v))
  unfolding insert get
  insert_step w k n name v i h f s = (
    w',
    rw (h, f.free k) refl,
    record {
      gets = λ l m. get-put w.universe k l name m (length w.heap);
      same_id = refl;
      numbers = f.numbers;
      bounded = f.bounded;
      free = f.free;
      named = f.named;
      below = f.below;
      new_ref = outside_new w s;
      placed = record {
        cell = new_cell w k name v;
        value = v;
        at_ref = at_end;
        of_kind = refl;
        is_member = refl;
        has_value = refl;
      };
      untouched = λ q d. get_elem?-append w.heap (new_cell w k name v) q ∙ ground arith;
    },
    at_end,
  )
    where
      w' : World L V
      w' = record {
        universe = record w.universe {
          tables =
              set_table w.universe.tables k
                (put ⦃e = name_eq⦄ name (length w.heap) (table w.universe.tables k));
          next_anonym = i;
          wants_gc = true;
        };
        heap = w.heap ++ (new_cell w k name v ∷ []);
      }

      at_end : get_elem? w'.heap (length w.heap) ≡ some (new_cell w k name v)
      at_end = get_elem?-append w.heap (new_cell w k name v) (length w.heap) ∙ ground arith

  -- On a sound universe with room for another number, inserting a value never panics. Either it
  -- puts a new cell with the value at the given name, or at the next number for a pending one, keeps
  -- all the other members and the invariant, or it changes nothing, and reports that the name is in
  -- use or is one that only the universe gives.
  pub insert-Places :
      (w : World L V) (k : Kind) (n : Name L) (v : V)
      → IsSound w
      → w.universe.next_anonym + 1 < 2 ^ 64
      → ((w' : World L V) × (insert w k n v ≡ ret (w', ok (length w.heap)))
          × Places w w' k (given n w.universe.next_anonym) (length w.heap)
          × IsSound w'
          × (get_elem? w'.heap (length w.heap)
              ≡ some (new_cell w k (given n w.universe.next_anonym) v)))
        ⊎ ((x : InsertErrorKind) × (insert w k n v ≡ ret (w, err (record { name = n; kind = x })))
            × Refused w.universe n x)
  unfolding insert
  insert-Places w k n v s h = elim (allocate_name-cases w n s h) [
    | inl (i, f, g) ↦
        let (w', x, p, c) = insert_step w k n (given n w.universe.next_anonym) v i f g s in
        inl (w', x, p, Places-IsSound p s, c)
    | inr (x, f, g) ↦ inr (x, rw f refl, g)
  ]

  -- A pending cell is not that of a member.
  pending_new :
      (w : World L V) (r : Ref) (c : Cell L V) (n : Name L)
      → IsSound w
      → get_elem? w.heap r ≡ some c
      → c.state ≡ is_pending n
      → (l : Kind) (m : Name L) → get w.universe l m ≢ some r
  pending_new w r c n s h x l m f =
      let g = s.registered l m r f in
      let same : g.cell ≡ c = some-eq_some (sym g.at_ref ∙ h) in
      let both : member m w.universe.id ≡ is_pending n =
        sym g.is_member ∙ ap (λ (y : Cell L V). y.state) same ∙ x in
      cc

  abbrev pub upgraded : World L V → Cell L V → Name L → Cell L V
  upgraded w c name = record c { state = member name w.universe.id }

  upgrade_step :
      (w : World L V) (r : Ref) (c : Cell L V) (n name : Name L) (i : ℕ)
      → get_elem? w.heap r ≡ some c
      → c.state ≡ is_pending n
      → allocate_name w.universe n ≡ ret (record w.universe { next_anonym = i }, ok name)
      → Fresh w.universe i name
      → IsSound w
      → (w' : World L V) × (insert_and_upgrade_pending w r ≡ ret (w', ok tt))
        × Places w w' c.kind name r
        × (get_elem? w'.heap r ≡ some (upgraded w c name))
  unfolding insert_and_upgrade_pending upgrade_pending insert_root name_of drop_root get
  upgrade_step w r c n name i at x h f s = (
    w',
    rw (at, x, h, changed, f.free c.kind) refl,
    record {
      gets = λ l m. get-put w.universe c.kind l name m r;
      same_id = refl;
      numbers = f.numbers;
      bounded = f.bounded;
      free = f.free;
      named = f.named;
      below = f.below;
      new_ref = pending_new w r c n s at x;
      placed = record {
        cell = upgraded w c name;
        value = (s.alive r c n at x).0;
        at_ref = changed;
        of_kind = refl;
        is_member = refl;
        has_value = (s.alive r c n at x).1;
      };
      untouched = λ q d. get_elem?-set w.heap r (upgraded w c name) q ∙ ground arith;
    },
    changed,
  )
    where
      w' : World L V
      w' = record {
        universe = record w.universe {
          tables =
              set_table w.universe.tables c.kind
                (put ⦃e = name_eq⦄ name r (table w.universe.tables c.kind));
          next_anonym = i;
          wants_gc = true;
        };
        heap = set w.heap r (upgraded w c name);
      }

      changed : get_elem? (set w.heap r (upgraded w c name)) r ≡ some (upgraded w c name)
      changed =
          get_elem?-set w.heap r (upgraded w c name) r
          ∙ ground (arith, lt→ltb r (length w.heap) (lt-get_elem? w.heap r at))

  -- On a sound universe with room for another number, inserting a pending reference never panics.
  -- Either it makes the reference a member of this universe, at its name or the next number, with
  -- its value, keeps all the other members and the invariant, or it changes nothing and reports why
  -- the name is refused.
  pub insert_and_upgrade_pending-Places :
      (w : World L V) (r : Ref) (c : Cell L V) (n : Name L)
      → IsSound w
      → w.universe.next_anonym + 1 < 2 ^ 64
      → get_elem? w.heap r ≡ some c
      → c.state ≡ is_pending n
      → ((w' : World L V) × (insert_and_upgrade_pending w r ≡ ret (w', ok tt))
          × Places w w' c.kind (given n w.universe.next_anonym) r
          × IsSound w'
          × (get_elem? w'.heap r ≡ some (upgraded w c (given n w.universe.next_anonym))))
        ⊎ ((x : InsertErrorKind) × (insert_and_upgrade_pending w r
              ≡ ret (w, err (record { name = n; kind = x })))
            × Refused w.universe n x)
  unfolding insert_and_upgrade_pending upgrade_pending
  insert_and_upgrade_pending-Places w r c n s h at x = elim (allocate_name-cases w n s h) [
    | inl (i, f, g) ↦
        let (w', y, p, d) = upgrade_step w r c n (given n w.universe.next_anonym) i at x f g s in
        inl (w', y, p, Places-IsSound p s, d)
    | inr (y, f, g) ↦ inr (y, rw (at, x, f) refl, g)
  ]
