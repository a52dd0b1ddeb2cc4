-- ===== src/Universe.antt =====
-- all-is-cubes/src/universe.rs, universe/members.rs and universe/uref.rs: `Universe`, the members
-- that it holds under their names, and `URef`, a reference to a member or to an object that is not
-- yet in a universe.
--
-- A reference is the address of a cell of the heap, which all its clones share: the cell holds the
-- state of the reference, and the entry that it refers to. A poisoned mutex is left out. The clock, the
-- origin and the stepping of a universe are left out.
pub mod Maps
pub mod Transaction
pub mod Soundness
pub mod Placing
pub mod Naming
pub mod Inserting
pub mod Deleting
pub mod Checked
pub mod Committing
use all_is_cubes.Prelude.{
  ℕ, ◌+◌, ◌^◌, Bool, true, false, Option, none, some, List, [], ◌∷◌, ◌++◌, Eq, get_elem?, set,
  length, ltb, ◌==◌, if◌then◌else◌, ◌≡◌, ◌↔◌, arith,
}
use all_is_cubes.Prelude.Run.{Run, ret, panic, ◌>>=◌, unwrap, Result, ok, err}
use all_is_cubes.Prelude.Dict.{find, put, remove}

-- `Name`, where the strings of a `Specific` name are of the type `L`.
pub data Name (L : Type 0) : Type 0 where
  specific : L → Name L
  anonym : ℕ → Name L
  pending : Name L

module _ {L : Type 0} ⦃e : Eq L⦄ where
  unfoldable pub eqb_name : Name L → Name L → Bool
  eqb_name (specific a) (specific b) = e.beq a b
  eqb_name (anonym i) (anonym j) = i == j
  eqb_name pending pending = true
  eqb_name _ _ = false

  pub eqb_name_iff : (m n : Name L) → (eqb_name m n ≡ true) ↔ (m ≡ n)
  unfolding eqb_name
  eqb_name_iff (specific a) (specific b) = ground (arith, e.beq_iff a b)
  eqb_name_iff (anonym i) (anonym j) = ground arith
  eqb_name_iff pending pending = ground arith
  eqb_name_iff (specific a) (anonym j) = ground arith
  eqb_name_iff (specific a) pending = ground arith
  eqb_name_iff (anonym i) (specific b) = ground arith
  eqb_name_iff (anonym i) pending = ground arith
  eqb_name_iff pending (specific b) = ground arith
  eqb_name_iff pending (anonym j) = ground arith

  instance abbrev pub name_eq : Eq (Name L)
  name_eq = record { beq = eqb_name; beq_iff = eqb_name_iff }

-- The types of members.
pub data Kind : Type 0 where
  block_def character space : Kind

abbrev pub same_kind : Kind → Kind → Bool
same_kind block_def block_def = true
same_kind character character = true
same_kind space space = true
same_kind _ _ = false

abbrev pub Ref : Type 0
Ref = ℕ

-- `State`
pub data State (L : Type 0) : Type 0 where
  is_pending : Name L → State L
  deserializing : Name L → ℕ → State L
  member : Name L → ℕ → State L
  gone : Name L → State L

-- What a weak reference leads to: nothing after the last strong reference has been dropped, an
-- entry whose data are not there yet, or its data.
pub data Entry (V : Type 0) : Type 0 where
  dropped not_ready : Entry V
  ready : V → Entry V

-- Who else holds the lock of the entry.
pub data Lock : Type 0 where
  unlocked reading writing : Lock

abbrev is_writing : Lock → Bool
is_writing writing = true
is_writing reading = false
is_writing unlocked = false

abbrev is_unlocked : Lock → Bool
is_unlocked unlocked = true
is_unlocked reading = false
is_unlocked writing = false

pub record Cell (L V : Type 0) : Type 0 where
  pub kind : Kind
  pub state : State L
  pub entry : Entry V
  pub lock : Lock

abbrev pub Heap : Type 0 → Type 0 → Type 0
Heap L V = List (Cell L V)

-- `Storage`
abbrev pub Storage : Type 0 → Type 0
Storage L = List (Name L × Ref)

pub record UniverseTables (L : Type 0) : Type 0 where
  pub blocks : Storage L
  pub characters : Storage L
  pub spaces : Storage L

pub record Universe (L : Type 0) : Type 0 where
  pub tables : UniverseTables L
  pub id : ℕ
  pub next_anonym : ℕ
  pub wants_gc : Bool

pub data RefError : Type 0 where
  gone in_use not_ready : RefError

pub data InsertErrorKind : Type 0 where
  already_exists invalid_name gone already_inserted : InsertErrorKind

pub record InsertError (L : Type 0) : Type 0 where
  pub name : Name L
  pub kind : InsertErrorKind

-- A universe with the cells.
pub record World (L V : Type 0) : Type 0 where
  pub universe : Universe L
  pub heap : Heap L V

module _ {L : Type 0} where
  unfoldable pub new : ℕ → Universe L
  new id = record {
    tables = record { blocks = []; characters = []; spaces = [] };
    id = id;
    next_anonym = 0;
    wants_gc = false;
  }

  -- `UniverseTable::table` and `table_mut`
  abbrev pub table : UniverseTables L → Kind → Storage L
  table t block_def = t.blocks
  table t character = t.characters
  table t space = t.spaces

  abbrev pub set_table : UniverseTables L → Kind → Storage L → UniverseTables L
  set_table t block_def s = record t { blocks = s }
  set_table t character s = record t { characters = s }
  set_table t space s = record t { spaces = s }

  module _ {V : Type 0} where
    -- `URef::name` and `URef::universe_id`
    unfoldable pub name_of : Cell L V → Name L
    name_of c = elim c.state [
      | is_pending n ↦ n
      | deserializing n id ↦ n
      | member n id ↦ n
      | gone n ↦ n
    ]

    unfoldable pub universe_id_of : Cell L V → Option ℕ
    universe_id_of c = elim c.state [
      | is_pending n ↦ none
      | deserializing n id ↦ some id
      | member n id ↦ some id
      | gone n ↦ none
    ]

    -- `URef::read`
    unfoldable pub read : Cell L V → Result RefError V
    read c = elim c.entry [
      | dropped ↦ err RefError.gone
      | not_ready ↦ if is_writing c.lock then err in_use else err RefError.not_ready
      | ready v ↦ if is_writing c.lock then err in_use else ok v
    ]

    -- `URef::try_borrow_mut`
    unfoldable pub try_borrow_mut : Cell L V → Result RefError V
    try_borrow_mut c = elim c.entry [
      | dropped ↦ err RefError.gone
      | not_ready ↦ if is_unlocked c.lock then err RefError.not_ready else err in_use
      | ready v ↦ if is_unlocked c.lock then ok v else err in_use
    ]

    -- `URef::new_pending` and `URef::new_gone`
    unfoldable pub new_pending : Kind → Name L → V → Cell L V
    new_pending k n v = record { kind = k; state = is_pending n; entry = ready v; lock = unlocked }

    unfoldable pub new_gone : Kind → Name L → Cell L V
    new_gone k n = record { kind = k; state = gone n; entry = dropped; lock = unlocked }

abbrev pub or_find : Option Ref → Option Ref → Option Ref
or_find (some r) o = some r
or_find none o = o

abbrev pub is_taken : Option Ref → Bool
is_taken none = false
is_taken (some r) = true

module _ {L : Type 0} ⦃e : Eq L⦄ where
  unfoldable pub get_any : Universe L → Name L → Option Ref
  unfolding find eqb_name
  get_any u n =
      or_find (find n u.tables.blocks)
        (or_find (find n u.tables.characters) (or_find (find n u.tables.spaces) none))

  -- `Universe::get`
  unfoldable pub get : Universe L → Kind → Name L → Option Ref
  unfolding find eqb_name
  get u k n = find n (table u.tables k)

  abbrev pub insert_error : Name L → InsertErrorKind → InsertError L
  insert_error n k = record { name = n; kind = k }

  -- The universe with the number of its next anonymous member, and the name or the error.
  unfoldable pub allocate_name :
      Universe L → Name L → Run (Universe L × Result (InsertError L) (Name L))
  unfolding get_any
  allocate_name u (specific l) =
      if is_taken (get_any u (specific l))
      then ret (u, err (insert_error (specific l) already_exists))
      else ret (u, ok (specific l))
  allocate_name u (anonym i) = ret (u, err (insert_error (anonym i) invalid_name))
  allocate_name u pending =
      if ltb (u.next_anonym + 1) (2 ^ 64)
      then (if is_taken (get_any u (anonym u.next_anonym))
          then panic
          else ret (record u { next_anonym = u.next_anonym + 1 }, ok (anonym u.next_anonym)))
      else panic

module _ {L V : Type 0} where
  -- Dropping the strong reference of a table to a cell.
  abbrev pub drop_cell : Cell L V → Cell L V
  drop_cell c = record c { entry = dropped }

  unfoldable pub drop_root : Heap L V → Option Ref → Heap L V
  drop_root h none = h
  drop_root h (some r) = elim (get_elem? h r) [ none ↦ h | some c ↦ set h r (drop_cell c) ]

module _ {L V : Type 0} ⦃e : Eq L⦄ where
  -- `BTreeMap::insert` of a root in the table of its type, which drops a root that it replaces.
  unfoldable pub insert_root : World L V → Kind → Name L → Ref → World L V
  unfolding put find eqb_name drop_root
  insert_root w k n r = record {
    universe = record w.universe {
      tables = set_table w.universe.tables k (put n r (table w.universe.tables k));
      wants_gc = true;
    };
    heap = drop_root w.heap (find n (table w.universe.tables k));
  }

  -- `ops_insert`: `URootRef::new` makes a new cell.
  unfoldable pub insert :
      World L V → Kind → Name L → V → Run (World L V × Result (InsertError L) Ref)
  unfolding allocate_name put eqb_name find
  insert w k n v = allocate_name w.universe n >>= λ a. elim a.1 [
    | err x ↦ ret (record w { universe = a.0 }, err x)
    | ok name ↦
        let u = record a.0 { wants_gc = true } in
        let cell : Cell L V = record {
          kind = k;
          state = member name u.id;
          entry = ready v;
          lock = unlocked;
        } in
        if is_taken (find name (table u.tables k))
        then panic
        else ret (
          record {
            universe = record u {
              tables = set_table u.tables k (put name (length w.heap) (table u.tables k));
            };
            heap = w.heap ++ (cell ∷ []);
          },
          ok (length w.heap),
        )
  ]

  -- `Universe::insert_anonymous`
  unfoldable pub insert_anonymous : World L V → Kind → V → Run (World L V × Ref)
  unfolding insert
  insert_anonymous w k v =
      insert w k pending v >>= λ a. elim a.1 [ ok r ↦ ret (a.0, r) | err x ↦ panic ]

  -- `URef::upgrade_pending`, on the cell of a reference: the name that it is a member by.
  unfoldable pub upgrade_pending :
      World L V → Ref → Cell L V → Run (World L V × Result (InsertError L) (Name L))
  unfolding allocate_name
  upgrade_pending w r c = elim c.state [
    | gone n ↦ ret (w, err (insert_error n InsertErrorKind.gone))
    | member n id ↦ ret (w, err (insert_error n already_inserted))
    | deserializing n id ↦ ret (w, err (insert_error n already_inserted))
    | is_pending n ↦ allocate_name w.universe n >>= λ a. elim a.1 [
      | err x ↦ ret (record w { universe = a.0 }, err x)
      | ok name ↦ ret (
        record { universe = a.0; heap = set w.heap r (record c { state = member name a.0.id }) },
        ok name,
      )
    ]
  ]

  -- `AnyURef::insert_and_upgrade_pending`
  unfoldable pub insert_and_upgrade_pending :
      World L V → Ref → Run (World L V × Result (InsertError L) (Unit {0}))
  unfolding upgrade_pending insert_root name_of
  insert_and_upgrade_pending w r = do
    c ← unwrap (get_elem? w.heap r)
    a ← upgrade_pending w r c
    elim a.1 [
      | err x ↦ ret (a.0, err x)
      | ok name ↦ do
        d ← unwrap (get_elem? a.0.heap r)
        ret (insert_root a.0 c.kind (name_of d) r, ok tt)
    ]

  -- One disjunct of `delete`: the root that `remove` returns is dropped.
  unfoldable pub remove_from : World L V → Kind → Name L → World L V
  unfolding remove find eqb_name drop_root
  remove_from w k n = record {
    universe = record w.universe {
      tables = set_table w.universe.tables k (remove n (table w.universe.tables k));
    };
    heap = drop_root w.heap (find n (table w.universe.tables k));
  }

  unfoldable pub delete : World L V → Name L → World L V × Bool
  unfolding find eqb_name remove_from
  delete w n =
      let t = w.universe.tables in
      if is_taken (find n t.blocks)
      then (remove_from w block_def n, true)
      else if is_taken (find n t.characters)
      then (remove_from w character n, true)
      else if is_taken (find n t.spaces)
      then (remove_from w space n, true)
      else (w, false)
