-- ===== src/Universe/Soundness.antt =====
-- The invariant of a universe and its references (all-is-cubes/src/universe.rs, universe/uref.rs).
use all_is_cubes.Prelude.{
  ℕ, ◌≤◌, ◌≡◌, refl, inl, inr, true, none, some, List, Eq, get_elem?, if◌then◌else◌, arith, ◌&&◌,
  Option-cases, Bool-cases,
}
use all_is_cubes.Prelude.Dict.{find, put, find-put, remove, find-remove}
use all_is_cubes.Universe.{
  Name, anonym, pending, Kind, block_def, character, space, same_kind, Ref, is_pending, member,
  ready, Cell, World, Universe, UniverseTables, table, set_table, get, get_any, eqb_name, name_eq,
}

pub same_kind_refl : (k : Kind) → same_kind k k ≡ true
same_kind_refl block_def = refl
same_kind_refl character = refl
same_kind_refl space = refl

pub same_kind-eq : (k l : Kind) → same_kind k l ≡ true → k ≡ l
same_kind-eq block_def block_def h = refl
same_kind-eq character character h = refl
same_kind-eq space space h = refl
same_kind-eq block_def character h = cc
same_kind-eq block_def space h = cc
same_kind-eq character block_def h = cc
same_kind-eq character space h = cc
same_kind-eq space block_def h = cc
same_kind-eq space character h = cc

pub table-set_table :
    {L : Type 0} (t : UniverseTables L) (k l : Kind) (s : List (Name L × Ref))
    → table (set_table t k s) l ≡ (if same_kind k l then s else table t l)
table-set_table t block_def block_def s = refl
table-set_table t block_def character s = refl
table-set_table t block_def space s = refl
table-set_table t character block_def s = refl
table-set_table t character character s = refl
table-set_table t character space s = refl
table-set_table t space block_def s = refl
table-set_table t space character s = refl
table-set_table t space space s = refl

module _ {L : Type 0} ⦃e : Eq L⦄ where
  -- No member has the name.
  abbrev pub Free : Universe L → Name L → Type 0
  Free u n = (k : Kind) → get u k n ≡ none

  pub get_any-Free : (u : Universe L) (n : Name L) → get_any u n ≡ none → Free u n
  unfolding get_any get
  get_any-Free u n h =
      λ k. elim k [ block_def ↦ ground arith | character ↦ ground arith | space ↦ ground arith ]

  pub Free-get_any : (u : Universe L) (n : Name L) → Free u n → get_any u n ≡ none
  unfolding get_any get
  Free-get_any u n h = ground (arith, h block_def, h character, h space)

  pub get_any-some :
      (u : Universe L) (n : Name L) (r : Ref)
      → get_any u n ≡ some r
      → (k : Kind) × (get u k n ≡ some r)
  unfolding get_any get
  get_any-some u n r h = elim (Option-cases (find n u.tables.blocks)) [
    | inr (q, f) ↦ (block_def, ground (arith, f))
    | inl no_block ↦ elim (Option-cases (find n u.tables.characters)) [
      | inr (q, f) ↦ (character, ground (arith, f, no_block))
      | inl no_character ↦ (space, ground (arith, no_block, no_character))
    ]
  ]

  -- The universe with another table of one type.
  abbrev pub with_table : Universe L → Kind → List (Name L × Ref) → Universe L
  with_table u k s = record u { tables = set_table u.tables k s }

  pub get-put :
      (u : Universe L) (k l : Kind) (n m : Name L) (r : Ref)
      → get (with_table u k (put n r (table u.tables k))) l m
        ≡ (if same_kind k l && eqb_name n m then some r else get u l m)
  unfolding get
  get-put u k l n m r = elim (Bool-cases (same_kind k l)) [
    | inl same ↦
        rw
          (
            table-set_table u.tables k l (put n r (table u.tables k)),
            same,
            ← same_kind-eq k l same,
            find-put m n r (table u.tables k),
          )
          refl
    | inr other ↦ rw (table-set_table u.tables k l (put n r (table u.tables k)), other) refl
  ]

  pub get-remove :
      (u : Universe L) (k l : Kind) (n m : Name L)
      → get (with_table u k (remove n (table u.tables k))) l m
        ≡ (if same_kind k l && eqb_name n m then none else get u l m)
  unfolding get
  get-remove u k l n m = elim (Bool-cases (same_kind k l)) [
    | inl same ↦
        rw
          (
            table-set_table u.tables k l (remove n (table u.tables k)),
            same,
            ← same_kind-eq k l same,
            find-remove m n (table u.tables k),
          )
          refl
    | inr other ↦ rw (table-set_table u.tables k l (remove n (table u.tables k)), other) refl
  ]

module _ {L V : Type 0} ⦃e : Eq L⦄ where
  -- The name has a member, which knows its name, its type and its universe, and has its data.
  pub record Registered (w : World L V) (k : Kind) (n : Name L) (r : Ref) : Type 0 where
    pub cell : Cell L V
    pub value : V
    pub at_ref : get_elem? w.heap r ≡ some cell
    pub of_kind : cell.kind ≡ k
    pub is_member : cell.state ≡ member n w.universe.id
    pub has_value : cell.entry ≡ ready value

  pub record IsSound (w : World L V) : Type 0 where
    pub apart :
        (n : Name L) (k l : Kind) (r q : Ref)
        → get w.universe k n ≡ some r
        → get w.universe l n ≡ some q
        → k ≡ l
    pub numbered :
        (k : Kind) (m : ℕ) → w.universe.next_anonym ≤ m → get w.universe k (anonym m) ≡ none
    pub no_pending : (k : Kind) → get w.universe k pending ≡ none
    pub registered :
        (k : Kind) (n : Name L) (r : Ref) → get w.universe k n ≡ some r → Registered w k n r
    pub alive :
        (r : Ref) (c : Cell L V) (n : Name L)
        → get_elem? w.heap r ≡ some c
        → c.state ≡ is_pending n
        → (v : V) × (c.entry ≡ ready v)
