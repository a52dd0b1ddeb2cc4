-- ===== src/Space/Storage.antt =====
-- all-is-cubes/src/space.rs: the state of a `Space`, reading a cube, and writing one.
--
-- `Optics` is what writing a cube reads of an evaluated block. The light update queue is the list
-- of the calls made on it (each request has the priority NEWLY_VISIBLE), the notifier the list of
-- the messages sent. `light_enabled` is `physics.light != LightPhysics::None`. Behaviors and the
-- spawn point are left out; nothing here reads them.
pub mod Soundness
pub mod Write
pub mod Set
pub mod SetOutcome
pub mod Outside
use all_is_cubes.Math.Face.{Face6}
use all_is_cubes.Math.Vector.{eqb_vec, Cube}
use all_is_cubes.Prelude.Run.{err, panic, unwrap, ret, Run, ok, Result, ◌>>=◌}
use all_is_cubes.Prelude.{
  false, some, none, set, length, get_elem?, ltb, [], Option, ◌∷◌, ◌++◌, ℕ, true, if◌then◌else◌,
  List, Bool, zero, suc,
}
use all_is_cubes.Math.Face
use all_is_cubes.Math.Face.Seven.{face6_normal_vector}
use all_is_cubes.Math.GridAab.{GridAab}
use all_is_cubes.Math.GridAab
use all_is_cubes.Space.Palette
use all_is_cubes.Space.Palette.{Blocks, Palette, SpaceChange, BlockIndex}

pub record Optics (Evaluated : Type 0) : Type 1 where
  pub Light : Type 0
  pub opaque_light : Light
  pub tick_action : Evaluated → Bool
  pub opaque_for_light : Evaluated → Bool
  pub opaque : Evaluated → Face6 → Bool

pub data QueueCall : Type 0 where
  insert_request : Cube → QueueCall
  remove_request : Cube → QueueCall

pub data SetCubeError : Type 0 where
  out_of_bounds : GridAab → GridAab → SetCubeError
  too_many_blocks : SetCubeError

pub record SpaceState (Block Evaluated Light : Type 0) : Type 0 where
  pub bounds : GridAab
  pub palette : Palette Block Evaluated
  pub contents : List BlockIndex
  pub lighting : List Light
  pub light_update_queue : List QueueCall
  pub light_enabled : Bool
  pub cubes_wanting_ticks : List Cube
  pub notified : List SpaceChange

abbrev pub insert_cube : Cube → List Cube → List Cube
insert_cube c [] = c ∷ []
insert_cube c (d ∷ s) = if eqb_vec c d then d ∷ s else d ∷ insert_cube c s

-- `list[i]`, and `list[i] = v`, which panics out of range.
abbrev pub read {ℓ} : {A : Type ℓ} → List A → ℕ → Run A
read xs i = unwrap (get_elem? xs i)

abbrev pub write {ℓ} : {A : Type ℓ} → List A → ℕ → A → Run (List A)
write xs i v = if ltb i (length xs) then ret (set xs i v) else panic

module _ (B : Blocks) (O : Optics B.Evaluated) where
  open B use {Block, Evaluated, block_eq, air_evaluated}
  open O use {Light}

  abbrev pub State : Type 0
  State = SpaceState Block Evaluated Light

  unfoldable pub get_block_index : State → Cube → Run (Option BlockIndex)
  get_block_index s c = elim (GridAab.index s.bounds c) [
    | none ↦ ret none
    | some i ↦ read s.contents i >>= λ index. ret (some index)
  ]

  unfoldable pub get_evaluated : State → Cube → Run Evaluated
  get_evaluated s c = elim (GridAab.index s.bounds c) [
    | none ↦ ret air_evaluated
    | some i ↦ do
      block_index ← read s.contents i
      data_of ← Palette.entry B s.palette block_index
      ret data_of.evaluated
  ]

  -- `Index<Cube>`: the block at a cube, or air outside of the bounds.
  unfoldable pub block_at : State → Cube → Run Block
  block_at s c = elim (GridAab.index s.bounds c) [
    | none ↦ ret B.air
    | some i ↦ do
      block_index ← read s.contents i
      data_of ← Palette.entry B s.palette block_index
      ret data_of.block
  ]

  unfoldable pub light_needs_update : State → Cube → State
  light_needs_update s c =
      if s.light_enabled
      then if GridAab.contains_cube s.bounds c
        then record s { light_update_queue = s.light_update_queue ++ (insert_request c ∷ []) }
        else s
      else s

  -- One round of the loop over the faces.
  unfoldable pub update_neighbor : Cube → Face6 → State → Run State
  unfolding light_needs_update get_evaluated
  update_neighbor c face s = elim (GridAab.checked_add c (face6_normal_vector face)) [
    | none ↦ ret s
    | some neighbor ↦ do
      ev ← get_evaluated s neighbor
      ret (if O.opaque ev (Face.opposite face) then s else light_needs_update s neighbor)
  ]

  unfoldable pub update_neighbors : Cube → List Face6 → State → Run State
  unfolding update_neighbor
  update_neighbors c [] s = ret s
  update_neighbors c (face ∷ faces) s = update_neighbor c face s >>= update_neighbors c faces

  abbrev pub notify : State → List SpaceChange → State
  notify s messages = record s { notified = s.notified ++ messages }

  abbrev pub darkened : State → Cube → ℕ → State
  darkened s c contents_index =
      notify
        (record s {
          lighting = set s.lighting contents_index O.opaque_light;
          light_update_queue = s.light_update_queue ++ (remove_request c ∷ []);
        })
        (SpaceChange.lighting c ∷ [])

  -- A write to `lighting` out of range panics.
  unfoldable pub darken : State → Evaluated → Cube → ℕ → Run State
  unfolding light_needs_update
  darken s ev c contents_index =
      if O.opaque_for_light ev
      then (if ltb contents_index (length s.lighting)
          then ret (darkened s c contents_index)
          else panic)
      else ret (light_needs_update s c)

  unfoldable pub mark_ticking : State → Evaluated → Cube → State
  mark_ticking s ev c =
      if O.tick_action ev
      then record s { cubes_wanting_ticks = insert_cube c s.cubes_wanting_ticks }
      else s

  unfoldable pub relight : State → Evaluated → Cube → ℕ → Run State
  relight s ev c contents_index =
      if s.light_enabled
      then (darken s ev c contents_index >>= update_neighbors c Face.all)
      else ret s

  unfoldable pub side_effects_of_set : State → BlockIndex → Cube → ℕ → Run State
  side_effects_of_set s block_index c contents_index = do
    data_of ← Palette.entry B s.palette block_index
    lit ← relight (mark_ticking s data_of.evaluated c) data_of.evaluated c contents_index
    ret (notify lit (SpaceChange.block c ∷ []))

  abbrev pub Written : Type 0
  Written = record { state : State; result : Result SetCubeError Bool }

  abbrev pub changed : State → Written
  changed s = record { state = s; result = ok true }

  -- The part of `set_impl` that follows a failed `try_replace_unique`.
  unfoldable pub replace_index :
      Palette.Evaluator B → State → BlockIndex → Cube → Block → ℕ → Run Written
  replace_index ev s old_index c b contents_index =
      let out = Palette.ensure_index B ev s.palette b true in
      let sent = notify s out.changes in
      elim out.result [
        | none ↦
            ret (record {
              state = record sent { palette = out.palette };
              result = err too_many_blocks;
            })
        | some new_index ↦ do
          freed ← Palette.decrement_maybe_free B out.palette old_index
          counted ← Palette.increment B freed new_index
          contents' ← write s.contents contents_index new_index
          final ←
              side_effects_of_set (record sent { palette = counted; contents = contents' })
                new_index c contents_index
          ret (changed final)
      ]

  unfoldable pub set_impl : Palette.Evaluator B → State → Cube → Block → Run Written
  set_impl ev s c b = elim (GridAab.index s.bounds c) [
    | none ↦ do
      modification ← GridAab.single_cube c
      ret (record { state = s; result = err (out_of_bounds modification s.bounds) })
    | some contents_index ↦ do
      old_index ← read s.contents contents_index
      old ← Palette.entry B s.palette old_index
      if block_eq.beq old.block b
          then ret (record { state = s; result = ok false })
          else (Palette.try_replace_unique B ev s.palette old_index b >>= λ out.
              if out.result
              then (side_effects_of_set (notify (record s { palette = out.palette }) out.changes)
                    old_index c contents_index
                  >>= λ final. ret (changed final))
              else replace_index ev s old_index c b contents_index)
  ]
