-- ===== src/Space/Storage/Set.antt =====
-- The writes of `Space::set` (all-is-cubes/src/space.rs), one branch at a time.
use all_is_cubes.Space.Palette.Ensure.{ensure_index-IsReady}
use all_is_cubes.Prelude.Run.{ret}
use all_is_cubes.Math.GridAab.Numbering.{index_inj}
use all_is_cubes.Space.Palette.Counting.{
  increment-IsConsistent, decrement-IsReady, less, SameBlocks,
}
use all_is_cubes.Space.Palette.Consistency.{Holds, IsConsistent}
use all_is_cubes.Math.GridAab.Volume.{cubes}
use all_is_cubes.Math.GridAab.Index.{index_lem, position-lt, position, Inside}
use all_is_cubes.Math.Vector.{InRange, Cube}
use all_is_cubes.Space.Storage.{notify, State, Optics}
use all_is_cubes.Prelude.{
  ==_iff, ◌==◌, Bool-cases, length, ◌≤◌, length-set, ◌+◌, subst, get_elem?-set, inl, [], ◌∷◌, inr,
  zero, suc, sym, some-eq_some, set, refl, ap, arith, Bool, ◌∙◌, ◌<◌, some, ◌≡◌, get_elem?, ◌≢◌, ℕ,
  List, true,
}
use mathlib.Core.Path.{fun_ext}
use all_is_cubes.Math.GridAab
use all_is_cubes.Space.Palette
use all_is_cubes.Space.Palette.{Table, Outcome, Blocks, Data}
use all_is_cubes.Space.Storage.Soundness.{
  count-set, count_pos, count, Shows, SameStorage-IsSound, IsSound, SameStorage, reads,
}

count_two :
    (xs : List ℕ) (n m a : ℕ)
    → n ≢ m
    → get_elem? xs n ≡ some a
    → get_elem? xs m ≡ some a
    → 1 < count a xs
count_two [] n m a ne h k = cc
count_two (x ∷ xs) zero zero a ne h k = absurd (ne refl)
count_two (x ∷ xs) zero (suc m) a ne h k = ground (arith, count_pos xs m a k)
count_two (x ∷ xs) (suc n) zero a ne h k = ground (arith, count_pos xs n a h)
count_two (x ∷ xs) (suc n) (suc m) a ne h k =
    ground (arith, count_two xs n m a (λ e. ne (ap suc e)) h k)

count_both : (xs : List ℕ) (a b : ℕ) → a ≢ b → count a xs + count b xs ≤ length xs
count_both [] a b ne = omega arith
count_both (x ∷ xs) a b ne = ground (arith, count_both xs a b ne)

still_used :
    (xs : List ℕ) (n m o i : ℕ)
    → n ≢ m
    → get_elem? xs n ≡ some o
    → get_elem? xs m ≡ some i
    → 0 < less o (λ k. count k xs) i
still_used xs n m o i ne h k = elim (Bool-cases (i == o)) [
  | inl same ↦
      let e : i ≡ o = (==_iff i o).0 same in ground (arith, count_two xs n m o ne h (k ∙ ap some e))
  | inr other ↦ ground (arith, count_pos xs m i k)
]

module _ (B : Blocks) (O : Optics B.Evaluated) where
  open B use {Block, block_eq}

  -- `t` is sound, shows `b` at `c`, and shows at every other cube what `s` shows.
  pub record Stored (s t : State B O) (c : Cube) (b : Block) : Type 0 where
    pub sound : IsSound B O t
    pub bounds : t.bounds ≡ s.bounds
    pub shows : Shows B O t c b
    pub others : (d : Cube) (x : Block) → InRange d → d ≢ c → Shows B O s d x → Shows B O t d x

  Shows-SameStorage :
      (s t : State B O) (c : Cube) (b : Block)
      → SameStorage B O s t
      → Shows B O s c b
      → Shows B O t c b
  Shows-SameStorage s t c b e (n, i, f, g, (d, h, hb)) =
      (n, i, rw e.bounds f, rw e.contents g, (d, rw e.palette h, hb))

  pub Stored-SameStorage :
      (s t u : State B O) (c : Cube) (b : Block)
      → SameStorage B O t u
      → Stored s t c b
      → Stored s u c b
  Stored-SameStorage s t u c b e w = record {
    sound = SameStorage-IsSound B O t u e w.sound;
    bounds = e.bounds ∙ w.bounds;
    shows = Shows-SameStorage t u c b e w.shows;
    others = λ d x r ne h. Shows-SameStorage t u d x e (w.others d x r ne h);
  }

  -- What holds where a cube of a sound space is written: `n` is its number, `o` its old index.
  pub record Site (s : State B O) (c : Cube) (n o : ℕ) (d : Data B) : Type 0 where
    pub sound : IsSound B O s
    pub cube_in : InRange c
    pub inside : n < cubes s.bounds.sizes
    pub at_cube : GridAab.index s.bounds c ≡ some n
    pub at_contents : get_elem? s.contents n ≡ some o
    pub at_entry : get_elem? s.palette.entries o ≡ some d
    pub in_use : 0 < d.count

  pub site :
      (s : State B O) (c : Cube)
      → IsSound B O s
      → InRange c
      → Inside s.bounds c
      → (n : ℕ) × (o : ℕ) × (d : Data B) × Site s c n o d
  site s c v r i =
      let n = position s.bounds c in
      let inside = position-lt s.bounds c v.valid r i in
      let (o, d, f, g, used) = reads B O s n v inside in
      (
        n,
        o,
        d,
        record {
          sound = v;
          cube_in = r;
          inside = inside;
          at_cube = (index_lem s.bounds c v.valid r).0 i;
          at_contents = f;
          at_entry = g;
          in_use = used;
        },
      )

  module _ (ev : Palette.Evaluator B) (s : State B O) (c : Cube) (b : Block) (n o : ℕ) (d : Data B)
      (w : Site s c n o d) where
    -- The entry is given to the new block in place.
    pub unique_case :
        (out : Outcome Block B.Evaluated Bool)
        → d.count ≡ 1
        → IsConsistent B out.palette (λ i. count i s.contents)
        → Holds B out.palette o b
        → SameBlocks B (λ i. i ≢ o) s.palette out.palette
        → Stored s (notify B O (record s { palette = out.palette }) out.changes) c b
    unique_case out once cons holds same = record {
      sound = record {
        valid = w.sound.valid;
        filled = w.sound.filled;
        consistent = cons;
        lit = w.sound.lit;
      };
      bounds = refl;
      shows = (n, o, w.at_cube, w.at_contents, holds);
      others = λ e x r ne (m, i, f, g, h). (
        m,
        i,
        f,
        g,
        same i x
            (λ eq. omega (
              arith,
              w.sound.consistent.counts o d w.at_entry,
              count_two s.contents n m o
                  (λ en.
                    ne (
                      index_inj s.bounds e c m w.sound.valid r w.cube_in f
                        (w.at_cube ∙ ap some en)))
                  w.at_contents (g ∙ ap some eq),
            ))
            h,
      );
    }

    -- The general case, after `ensure_index` has returned `j`.
    pub record Replaced (j : ℕ) (freed counted : Table B) : Type 0 where
      pub frees :
          Palette.decrement_maybe_free B (Palette.ensure_index B ev s.palette b true).palette o
          ≡ ret freed
      pub counts : Palette.increment B freed j ≡ ret counted
      pub consistent : IsConsistent B counted (λ i. count i (set s.contents n j))
      pub holds : Holds B counted j b
      pub others :
          (i : ℕ) (x : Block)
          → 0 < less o (λ k. count k s.contents) i
          → Holds B s.palette i x
          → Holds B counted i x

    pub replaced :
        (j : ℕ)
        → (Palette.ensure_index B ev s.palette b true).result ≡ some j
        → d.block ≢ b
        → (freed : Table B) × (counted : Table B) × Replaced j freed counted
    replaced j h changed_block =
        let occ : ℕ → ℕ = λ i. count i s.contents in
        let p = (Palette.ensure_index B ev s.palette b true).palette in
        let (ready, (dj, gj, hj), keeps) =
          ensure_index-IsReady B ev s.palette b occ j w.sound.consistent h in
        let o_kept = keeps o d w.at_entry w.in_use in
        let ne : o ≢ j = (λ e. changed_block (
          ap (λ (x : Data B). x.block)
            (some-eq_some (sym o_kept ∙ ap (λ k. get_elem? p.entries k) e ∙ gj))
          ∙ hj)) in
        let (freed, e1, ready', kept') =
          decrement-IsReady B p o j occ ready ne (count_pos s.contents n o w.at_contents) in
        let holds' = kept' j b (inr refl) (dj, gj, hj) in
        let (counted, e2, cons, kept'') =
          increment-IsConsistent B freed j b (less o occ) ready' holds' (
            ground (
              arith,
              count_both s.contents j o (λ e. ne (sym e)),
              count_pos s.contents n o w.at_contents,
              w.sound.filled,
              w.sound.valid.volume_lt,
            )) in
        (
          freed,
          counted,
          record {
            frees = e1;
            counts = e2;
            consistent =
                subst (λ f. IsConsistent B counted f)
                  (fun_ext
                    (λ i. sym (count-set s.contents n o j w.at_contents (λ e. ne (sym e)) i)))
                  cons;
            holds = kept'' j b tt holds';
            others = λ i x live (di, gi, hi). kept'' i x tt (
                kept' i x (inl live)
                  (di, keeps i di gi (ground (arith, w.sound.consistent.counts i di gi)), hi));
          },
        )

    pub Replaced-case :
        (j : ℕ) (freed counted : Table B)
        → Replaced j freed counted
        → Stored s (record s { palette = counted; contents = set s.contents n j }) c b
    Replaced-case j freed counted q =
        let filled = w.sound.filled in
        let at_n : get_elem? (set s.contents n j) n ≡ some j =
          ground (arith, get_elem?-set s.contents n j n, w.inside) in
        record {
          sound = record {
            valid = w.sound.valid;
            filled = length-set s.contents n j ∙ filled;
            consistent = q.consistent;
            lit = w.sound.lit;
          };
          bounds = refl;
          shows = (n, j, w.at_cube, at_n, q.holds);
          others = λ e x r ne (m, i, f, g, h).
              let apart : m ≢ n = (λ en. ne (
                index_inj s.bounds e c m w.sound.valid r w.cube_in f
                  (w.at_cube ∙ ap some (sym en)))) in
              (
                m,
                i,
                f,
                ground (arith, get_elem?-set s.contents n j m, g),
                q.others i x (still_used s.contents n m o i (λ en. apart (sym en)) w.at_contents g)
                    h,
              );
        }
