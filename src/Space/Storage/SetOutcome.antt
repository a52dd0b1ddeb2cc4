-- ===== src/Space/Storage/SetOutcome.antt =====
-- `Space::set` (all-is-cubes/src/space.rs) as a whole, at a cube within the bounds.
use all_is_cubes.Space.Palette.Counting.{try_replace_unique-IsConsistent}
use all_is_cubes.Math.GridAab.Index.{Inside}
use all_is_cubes.Space.Palette.Ensure.{ensure_index-none}
use all_is_cubes.Space.Storage.Write.{side_effects-Settles}
use all_is_cubes.Space.Storage.Soundness.{count, IsSound, SameStorage, Shows}
use all_is_cubes.Space.Storage.Set.{
  unique_case, site, Replaced-case, replaced, Stored-SameStorage, Replaced, Stored, Site,
}
use all_is_cubes.Prelude.Run.{Run, ◌>>=◌, err, ret, ok, Result}
use all_is_cubes.Math.Vector.{InRange, Cube}
use all_is_cubes.Space.Storage.{
  Written, too_many_blocks, out_of_bounds, changed, notify, side_effects_of_set, replace_index,
  set_impl, SetCubeError, State, Optics,
}
use all_is_cubes.Prelude.{
  ◌==◌, List, Bool-cases, lt→ltb, get_elem?-set, set, pick_true, Option-cases, length, get_elem?,
  ◌≤◌, ap, ◌∙◌, pick_false, arith, sym, [], some-eq_some, ◌≢◌, ◌≡◌, Bool, ℕ, Option, true, false,
  none, some, inl, inr, refl,
}
use all_is_cubes.Space.Palette
use all_is_cubes.Space.Palette.{SpaceChange, Table, Outcome, Data, Blocks}

module _ (B : Blocks) (O : Optics B.Evaluated) where
  open B use {Block, block_eq}

  -- `Ok(true)`: the block was another one, and is stored. `Ok(false)`: it was there already, and nothing
  -- is touched. `TooManyBlocks`: the table is full without the block, and every cube is as before.
  abbrev pub Promise : State B O → Cube → Block → State B O → Result SetCubeError Bool → Type 0
  Promise s c b t (ok true) = Stored B O s t c b × ¬ Shows B O s c b
  Promise s c b t (ok false) = (t ≡ s) × Shows B O s c b
  Promise s c b t (err too_many_blocks) =
      SameStorage B O s t
      × (s.palette.block_to_index b ≡ none)
      × (Palette.max_index ≤ length s.palette.entries)
  Promise s c b t (err (out_of_bounds m k)) = ⊥

  module _ (ev : Palette.Evaluator B) (s : State B O) (c : Cube) (b : Block) (n o : ℕ) (d : Data B)
      (w : Site B O s c n o d) where
    shown_block : (x : Block) → Shows B O s c x → d.block ≡ x
    shown_block x (m, i, f, g, (e, h, hx)) =
        let en : m ≡ n = some-eq_some (sym f ∙ w.at_cube) in
        let eo : i ≡ o = some-eq_some (sym g ∙ ap (get_elem? s.contents) en ∙ w.at_contents) in
        let ed : e ≡ d = some-eq_some (sym h ∙ ap (get_elem? s.palette.entries) eo ∙ w.at_entry) in
        ap (λ (y : Data B). y.block) (sym ed) ∙ hx

    try_fails_count :
        d.count ≢ 1
        → Palette.try_replace_unique B ev s.palette o b
          ≡ ret (record { palette = s.palette; result = false; changes = [] })
    unfolding Palette.try_replace_unique
    try_fails_count h = rw w.at_entry (ground arith)

    try_fails_known :
        (i : ℕ)
        → s.palette.block_to_index b ≡ some i
        → Palette.try_replace_unique B ev s.palette o b
          ≡ ret (record { palette = s.palette; result = false; changes = [] })
    unfolding Palette.try_replace_unique
    try_fails_known i h = rw (w.at_entry, h) (ground arith)

    set_same :
        block_eq.beq d.block b ≡ true
        → set_impl B O ev s c b ≡ ret (record { state = s; result = ok false })
    unfolding set_impl Palette.entry
    set_same h = rw (w.at_cube, w.at_contents, w.at_entry, h, set_impl, Palette.entry)

    set_unique :
        (out : Outcome Block B.Evaluated Bool)
        → block_eq.beq d.block b ≡ false
        → Palette.try_replace_unique B ev s.palette o b ≡ ret out
        → out.result ≡ true
        → set_impl B O ev s c b ≡ (
            side_effects_of_set B O
              (notify B O (record s { palette = out.palette }) out.changes)
              o
              c
              n
            >>= λ final. ret (changed B O final))
    unfolding set_impl Palette.entry
    set_unique out h e t =
        rw (w.at_cube, w.at_contents, w.at_entry, h, e, set_impl, Palette.entry)
          (pick_true out.result _ _ t)

    set_general :
        (out : Outcome Block B.Evaluated Bool)
        → block_eq.beq d.block b ≡ false
        → Palette.try_replace_unique B ev s.palette o b ≡ ret out
        → out.result ≡ false
        → set_impl B O ev s c b ≡ replace_index B O ev s o c b n
    unfolding set_impl Palette.entry
    set_general out h e t =
        rw (w.at_cube, w.at_contents, w.at_entry, h, e, set_impl, Palette.entry)
          (pick_false out.result _ _ t)

    replace_index_full :
        (Palette.ensure_index B ev s.palette b true).result ≡ none
        → replace_index B O ev s o c b n
          ≡ ret (record {
            state = record (notify B O s (Palette.ensure_index B ev s.palette b true).changes) {
              palette = (Palette.ensure_index B ev s.palette b true).palette;
            };
            result = err too_many_blocks;
          })
    unfolding replace_index
    replace_index_full h = rw (h, replace_index)

    replace_index-some :
        (j : ℕ) (freed counted : Table B)
        → (Palette.ensure_index B ev s.palette b true).result ≡ some j
        → Replaced B O ev s c b n o d w j freed counted
        → replace_index B O ev s o c b n ≡ (
            side_effects_of_set B O
              (record (notify B O s (Palette.ensure_index B ev s.palette b true).changes) {
                palette = counted;
                contents = set s.contents n j;
              })
              j
              c
              n
            >>= λ final. ret (changed B O final))
    unfolding replace_index
    replace_index-some j freed counted h q =
        rw (h, q.frees, q.counts, replace_index)
          (rw (lt→ltb n (length s.contents) (rw w.sound.filled w.inside)))

    abbrev KeepsPromise : Run (Written B O) → Type 0
    KeepsPromise m = (out : Written B O) × (m ≡ ret out) × Promise s c b out.state out.result

    settle :
        (t : State B O) (i : ℕ)
        → block_eq.beq d.block b ≡ false
        → Stored B O s t c b
        → get_elem? t.contents n ≡ some i
        → KeepsPromise (side_effects_of_set B O t i c n >>= λ final. ret (changed B O final))
    settle t i other stored at_n =
        let (u, e, same) =
          side_effects-Settles B O t c n i stored.sound (rw stored.bounds w.inside) at_n in
        (
          changed B O u,
          rw e,
          (
            Stored-SameStorage B O s t u c b same stored,
            λ shown. cc (other, (block_eq.beq_iff d.block b).1 (shown_block b shown)),
          ),
        )

    renotified :
        {t : State B O} (messages : List SpaceChange)
        → Stored B O s t c b
        → Stored B O s (record t { notified = messages }) c b
    renotified {t} messages stored =
        Stored-SameStorage B O s t _ c b
          (record {
            bounds = refl;
            palette = refl;
            contents = refl;
            light_enabled = refl;
            lighting = refl;
          })
          stored

    general_case : block_eq.beq d.block b ≡ false → KeepsPromise (replace_index B O ev s o c b n)
    general_case other = elim (Option-cases (Palette.ensure_index B ev s.palette b true).result) [
      | inl full ↦
          let (same, fresh, large) = ensure_index-none B ev s.palette b full in
          (
            record {
              state = record (notify B O s (Palette.ensure_index B ev s.palette b true).changes) {
                palette = (Palette.ensure_index B ev s.palette b true).palette;
              };
              result = err too_many_blocks;
            },
            replace_index_full full,
            (
              record {
                bounds = refl;
                palette = ap (λ (x : Outcome Block B.Evaluated (Option ℕ)). x.palette) same;
                contents = refl;
                light_enabled = refl;
                lighting = refl;
              },
              fresh,
              large,
            ),
          )
      | inr (j, h) ↦
          let ne : d.block ≢ b = (λ e. cc (other, (block_eq.beq_iff d.block b).1 e)) in
          let (freed, counted, q) = replaced B O ev s c b n o d w j h ne in
          let (out, e, p) =
            settle
              (record (notify B O s (Palette.ensure_index B ev s.palette b true).changes) {
                palette = counted;
                contents = set s.contents n j;
              })
              j other (renotified _ (Replaced-case B O ev s c b n o d w j freed counted q))
              (ground (arith, get_elem?-set s.contents n j n, w.inside, w.sound.filled)) in
          (out, replace_index-some j freed counted h q ∙ e, p)
    ]

    every_case : KeepsPromise (set_impl B O ev s c b)
    every_case = elim (Bool-cases (block_eq.beq d.block b)) [
      | inl same ↦ (
        record { state = s; result = ok false },
        set_same same,
        (
          refl,
          (n, o, w.at_cube, w.at_contents, (d, w.at_entry, (block_eq.beq_iff d.block b).0 same)),
        ),
      )
      | inr other ↦ elim (Option-cases (s.palette.block_to_index b)) [
        | inr (i, known) ↦
            let (out, e, p) = general_case other in
            (out, set_general _ other (try_fails_known i known) refl ∙ e, p)
        | inl fresh ↦ elim (Bool-cases (d.count == 1)) [
          | inr many ↦
              let (out, e, p) = general_case other in
              (out, set_general _ other (try_fails_count (ground arith)) refl ∙ e, p)
          | inl once ↦
              let (taken, f, t, cons, holds, kept) =
                try_replace_unique-IsConsistent B ev s.palette o b (λ i. count i s.contents) d
                  w.sound.consistent w.at_entry (ground arith) fresh in
              let (out, e, p) =
                settle (notify B O (record s { palette = taken.palette }) taken.changes) o other
                  (unique_case B O ev s c b n o d w taken (ground arith) cons holds kept)
                  w.at_contents in
              (out, set_unique taken other f t ∙ e, p)
        ]
      ]
    ]

  -- On a sound space, for a cube within its bounds, `set` does not panic. `Ok(true)` stores a block
  -- that was not there, and the space stays sound with every other cube as it was; `Ok(false)`
  -- changes nothing, since the block is there; `TooManyBlocks` is returned only for a block without
  -- an index in a full table, and leaves bounds, palette and contents alone.
  pub set_impl-Promise :
      (ev : Palette.Evaluator B) (s : State B O) (c : Cube) (b : Block)
      → IsSound B O s
      → InRange c
      → Inside s.bounds c
      → (out : Written B O) × (set_impl B O ev s c b ≡ ret out) × Promise s c b out.state out.result
  set_impl-Promise ev s c b v r i =
      let (n, o, d, w) = site B O s c v r i in every_case ev s c b n o d w
