-- ===== src/Space/Palette.antt =====
-- all-is-cubes/src/space/palette.rs: the table of the blocks in a `Space`, with a use count for each
-- entry and a reverse lookup from blocks to indices.
--
-- `Blocks` is what the palette uses of the block types; `Evaluation` is the result of one call of
-- `evaluate`, where an error comes with its placeholder. An operation that evaluates takes the
-- evaluation of that moment as its argument. The hash map is a function, the set of indices to
-- reevaluate a list without duplicates, and a notifier the list of the messages sent to it.
pub mod Consistency
pub mod Ensure
pub mod Counting
pub mod Building
pub mod Remapped
pub mod Sweeping
use all_is_cubes.Prelude.{
  ℕ, zero, suc, ◌+◌, ◌-◌, ◌%◌, ◌^◌, Bool, true, false, ◌||◌, Option, none, some, List, [], ◌∷◌,
  ◌++◌, map, length, get_elem?, set, ltb, leb, ◌==◌, if◌then◌else◌, Eq,
}
use all_is_cubes.Prelude.Run.{Run, ret, panic, ◌>>=◌, unwrap}
use all_is_cubes.Math.Vector.{Cube}

pub record Blocks : Type 1 where
  pub Block : Type 0
  pub Evaluated : Type 0
  pub block_eq : Eq Block
  pub air : Block
  pub air_evaluated : Evaluated

pub data Evaluation (Evaluated : Type 0) : Type 0 where
  evaluated : Evaluated → Evaluation Evaluated
  failed : Evaluated → Evaluation Evaluated

abbrev pub BlockIndex : Type 0
BlockIndex = ℕ

-- `BlockIndex::MAX` and `x as BlockIndex`
abbrev pub max_index : ℕ
max_index = 65535

abbrev pub as_index : ℕ → BlockIndex
as_index n = n % 65536

-- The messages of a space's notifier.
pub data SpaceChange : Type 0 where
  block : Cube → SpaceChange
  lighting : Cube → SpaceChange
  number : BlockIndex → SpaceChange
  block_value : BlockIndex → SpaceChange
  every_block : SpaceChange

-- `block_listen_gate` says whether the entry holds a gate.
pub record SpaceBlockData (Block Evaluated : Type 0) : Type 0 where
  pub block : Block
  pub count : ℕ
  pub evaluated : Evaluated
  pub block_listen_gate : Bool

pub record Palette (Block Evaluated : Type 0) : Type 0 where
  pub entries : List (SpaceBlockData Block Evaluated)
  pub block_to_index : Block → Option BlockIndex
  pub todo : List BlockIndex

-- What an operation leaves, returns and sends.
pub record Outcome (Block Evaluated R : Type 0) : Type 0 where
  pub palette : Palette Block Evaluated
  pub result : R
  pub changes : List SpaceChange

-- `HashSet::insert`
abbrev pub insert_index : BlockIndex → List BlockIndex → List BlockIndex
insert_index i [] = i ∷ []
insert_index i (j ∷ s) = if i == j then j ∷ s else j ∷ insert_index i s

module _ {Block : Type 0} ⦃e : Eq Block⦄ where
  -- `HashMap::insert` and `HashMap::remove`
  unfoldable pub bind_index :
      Block → BlockIndex → (Block → Option BlockIndex) → Block → Option BlockIndex
  bind_index k i m b = if e.beq k b then some i else m b

  unfoldable pub unbind : Block → (Block → Option BlockIndex) → Block → Option BlockIndex
  unbind k m b = if e.beq k b then none else m b

module _ (B : Blocks) where
  open B use {Block, Evaluated, block_eq, air, air_evaluated}

  abbrev pub Data : Type 0
  Data = SpaceBlockData Block Evaluated

  abbrev pub Table : Type 0
  Table = Palette Block Evaluated

  abbrev pub Evaluator : Type 0
  Evaluator = Block → Evaluation Evaluated

  -- `SpaceBlockData::NOTHING`
  pub nothing : Data
  nothing = record { block = air; count = 0; evaluated = air_evaluated; block_listen_gate = false }

  unfoldable pub tombstone : Data
  tombstone = record {
    block = air;
    count = 0;
    evaluated = air_evaluated;
    block_listen_gate = false;
  }

  -- `SpaceBlockData::new` with the listener of an index: a failed evaluation puts the index on the
  -- todo list, for the next step.
  unfoldable pub new_data : Evaluator → Block → Data
  new_data ev b = record {
    block = b;
    count = 0;
    evaluated = elim (ev b) [ evaluated v ↦ v | failed placeholder ↦ placeholder ];
    block_listen_gate = true;
  }

  unfoldable pub todo_after : Evaluator → Block → BlockIndex → List BlockIndex → List BlockIndex
  todo_after ev b i todo = elim (ev b) [
    | evaluated v ↦ todo
    | failed placeholder ↦ insert_index i todo
  ]

  unfoldable pub new : Evaluator → Block → ℕ → Table
  unfolding new_data todo_after bind_index
  new ev b count =
      if count == 0
      then record { entries = []; block_to_index = λ _. none; todo = [] }
      else record {
        entries = record (new_data ev b) { count = count } ∷ [];
        block_to_index = bind_index ⦃e = block_eq⦄ b 0 (λ _. none);
        todo = todo_after ev b 0 [];
      }

  unfoldable pub entry : Table → BlockIndex → Run Data
  entry p i = unwrap (get_elem? p.entries i)

  -- The loop of `ensure_index`: the first entry from `i` on with a count of zero.
  unfoldable pub find_zeroed : List Data → ℕ → Option ℕ
  find_zeroed [] i = none
  find_zeroed (d ∷ ds) i = if d.count == 0 then some i else find_zeroed ds (i + 1)

  abbrev pub candidate : Table → Bool → Option ℕ
  candidate p use_zeroed_entries = if use_zeroed_entries then find_zeroed p.entries 0 else none

  -- The entry at an index that exists, or one past the end, becomes that of `b`.
  unfoldable pub take_over :
      Evaluator → Table → Block → ℕ → Outcome Block Evaluated (Option BlockIndex)
  unfolding new_data todo_after bind_index
  take_over ev p b i = record {
    palette = record {
      entries = set p.entries i (new_data ev b);
      block_to_index = bind_index ⦃e = block_eq⦄ b (as_index i) p.block_to_index;
      todo = todo_after ev b (as_index i) p.todo;
    };
    result = some (as_index i);
    changes = number (as_index i) ∷ [];
  }

  unfoldable pub grow : Evaluator → Table → Block → Outcome Block Evaluated (Option BlockIndex)
  unfolding new_data todo_after bind_index
  grow ev p b =
      let high_mark = length p.entries in
      if leb max_index high_mark
      then record { palette = p; result = none; changes = [] }
      else record {
        palette = record {
          entries = p.entries ++ (new_data ev b ∷ []);
          block_to_index = bind_index ⦃e = block_eq⦄ b (as_index high_mark) p.block_to_index;
          todo = todo_after ev b (as_index high_mark) p.todo;
        };
        result = some (as_index high_mark);
        changes = number (as_index high_mark) ∷ [];
      }

  -- The result `none` is the error `TooManyBlocks`.
  unfoldable pub ensure_index :
      Evaluator → Table → Block → Bool → Outcome Block Evaluated (Option BlockIndex)
  unfolding find_zeroed take_over grow
  ensure_index ev p b use_zeroed_entries = elim (p.block_to_index b) [
    | some old_index ↦ record { palette = p; result = some old_index; changes = [] }
    | none ↦ elim (candidate p use_zeroed_entries) [
      | some new_index ↦ take_over ev p b new_index
      | none ↦ grow ev p b
    ]
  ]

  abbrev pub is_some {ℓ} : {A : Type ℓ} → Option A → Bool
  is_some none = false
  is_some (some a) = true

  unfoldable pub try_replace_unique :
      Evaluator → Table → BlockIndex → Block → Run (Outcome Block Evaluated Bool)
  unfolding new_data todo_after bind_index unbind
  try_replace_unique ev p old_index b = do
    old ← unwrap (get_elem? p.entries old_index)
    ret (
        if (if old.count == 1
          then (if is_some (p.block_to_index b) then false else true)
          else false)
        then record {
          palette = record {
            entries = set p.entries old_index (record (new_data ev b) { count = 1 });
            block_to_index =
                bind_index ⦃e = block_eq⦄ b old_index
                  (unbind ⦃e = block_eq⦄ old.block p.block_to_index);
            todo = todo_after ev b old_index p.todo;
          };
          result = true;
          changes = number old_index ∷ [];
        }
        else record { palette = p; result = false; changes = [] })

  -- `count` is a `usize`.
  unfoldable pub increment : Table → BlockIndex → Run Table
  increment p i = do
    d ← unwrap (get_elem? p.entries i)
    if ltb (d.count + 1) (2 ^ 64)
        then ret (record p { entries = set p.entries i (record d { count = d.count + 1 }) })
        else panic

  unfoldable pub decrement_maybe_free : Table → BlockIndex → Run Table
  unfolding unbind tombstone
  decrement_maybe_free p i = do
    d ← unwrap (get_elem? p.entries i)
    if d.count == 0
        then panic
        else if d.count == 1
        then ret (record {
          entries = set p.entries i tombstone;
          block_to_index = unbind ⦃e = block_eq⦄ d.block p.block_to_index;
          todo = p.todo;
        })
        else ret (record p { entries = set p.entries i (record d { count = d.count - 1 }) })
