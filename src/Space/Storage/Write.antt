-- ===== src/Space/Storage/Write.antt =====
-- `Space::side_effects_of_set` (all-is-cubes/src/space.rs) and the storage of the space.
use all_is_cubes.Math.GridAab.Volume.{cubes}
use all_is_cubes.Math.GridAab.Index.{position-lt, index_iff}
use all_is_cubes.Math.GridAab.{index_of}
use all_is_cubes.Math.Face.Seven.{face6_normal_vector}
use all_is_cubes.Math.Face.{Face6}
use all_is_cubes.Math.Vector.{InRange, GridVector, Cube}
use all_is_cubes.Prelude.Run.{◌>>=◌, ret, Run, checked_i32}
use all_is_cubes.Space.Storage.{
  notify, relight, mark_ticking, darkened, update_neighbors, side_effects_of_set, darken,
  update_neighbor, light_needs_update, get_evaluated, State, Optics,
}
use all_is_cubes.Prelude.{
  pick_true, pick_false, true, false, sym, length-set, [], some-eq_some, lt→ltb, ◌∷◌, length,
  get_elem?, ℕ, List, refl, Bool-cases, ◌<◌, inr, inl, some, Option-cases, ◌≡◌, arith, ◌∙◌,
}
use all_is_cubes.Math.GridAab
use all_is_cubes.Space.Palette
use all_is_cubes.Math.Face
use all_is_cubes.Space.Palette.{SpaceChange, Blocks}
use all_is_cubes.Space.Storage.Soundness.{SameStorage-IsSound, IsSound, SameStorage, reads}

module _ (B : Blocks) (O : Optics B.Evaluated) where
  abbrev pub Settles : State B O → Run (State B O) → Type 0
  Settles s m = (t : State B O) × (m ≡ ret t) × SameStorage B O s t

  SameStorage-trans :
      (s t u : State B O) → SameStorage B O s t → SameStorage B O t u → SameStorage B O s u
  SameStorage-trans s t u h k = record {
    bounds = k.bounds ∙ h.bounds;
    palette = k.palette ∙ h.palette;
    contents = k.contents ∙ h.contents;
    light_enabled = k.light_enabled ∙ h.light_enabled;
    lighting = k.lighting ∙ h.lighting;
  }

  light_needs_update-SameStorage :
      (s : State B O) (c : Cube) → SameStorage B O s (light_needs_update B O s c)
  unfolding light_needs_update
  light_needs_update-SameStorage s c = ground arith

  get_evaluated_total :
      (s : State B O) (c : Cube)
      → IsSound B O s
      → InRange c
      → (e : B.Evaluated) × (get_evaluated B O s c ≡ ret e)
  unfolding get_evaluated Palette.entry
  get_evaluated_total s c v r = elim (Option-cases (GridAab.index s.bounds c)) [
    | inl outside ↦ (B.air_evaluated, rw (outside, get_evaluated))
    | inr (n, e) ↦
        let (i, at_n) = (index_iff s.bounds c n v.valid r).0 e in
        let inside : n < cubes s.bounds.sizes = rw at_n (position-lt s.bounds c v.valid r i) in
        let (j, d, f, g, _) = reads B O s n v inside in
        (d.evaluated, rw (e, f, g, get_evaluated, Palette.entry))
  ]

  checked_add-InRange : (c d : Cube) (w : GridVector) → GridAab.checked_add c w ≡ some d → InRange d
  unfolding GridAab.checked_add checked_i32
  checked_add-InRange c d w h = ground arith

  stays : (s : State B O) → SameStorage B O s s
  stays s = record {
    bounds = refl;
    palette = refl;
    contents = refl;
    light_enabled = refl;
    lighting = refl;
  }

  update_neighbor-Settles :
      (c : Cube) (face : Face6) (s : State B O)
      → IsSound B O s
      → Settles s (update_neighbor B O c face s)
  unfolding update_neighbor
  update_neighbor-Settles c face s v =
      elim (Option-cases (GridAab.checked_add c (face6_normal_vector face))) [
        | inl edge ↦ (s, rw (edge, update_neighbor), stays s)
        | inr (neighbor, e) ↦
            let (ev, f) = get_evaluated_total s neighbor v (checked_add-InRange c neighbor _ e) in
            elim (Bool-cases (O.opaque ev (Face.opposite face))) [
              | inl dark ↦ (s, rw (e, f, dark, update_neighbor), stays s)
              | inr open_face ↦ (
                light_needs_update B O s neighbor,
                rw (e, f, open_face, update_neighbor),
                light_needs_update-SameStorage s neighbor,
              )
            ]
      ]

  update_neighbors-Settles :
      (c : Cube) (faces : List Face6) (s : State B O)
      → IsSound B O s
      → Settles s (update_neighbors B O c faces s)
  unfolding update_neighbors
  update_neighbors-Settles c [] s v = (s, refl, stays s)
  update_neighbors-Settles c (face ∷ faces) s v =
      let (t, e, h) = update_neighbor-Settles c face s v in
      let (u, f, k) = update_neighbors-Settles c faces t (SameStorage-IsSound B O s t h v) in
      (u, rw e f, SameStorage-trans s t u h k)

  darken-Settles :
      (s : State B O) (ev : B.Evaluated) (c : Cube) (n : ℕ)
      → n < length s.lighting
      → Settles s (darken B O s ev c n)
  unfolding darken
  darken-Settles s ev c n h = elim (Bool-cases (O.opaque_for_light ev)) [
    | inl dark ↦ (
      darkened B O s c n,
      rw (dark, lt→ltb n (length s.lighting) h),
      record {
        bounds = refl;
        palette = refl;
        contents = refl;
        light_enabled = refl;
        lighting = length-set s.lighting n O.opaque_light;
      },
    )
    | inr clear ↦ (light_needs_update B O s c, rw clear, light_needs_update-SameStorage s c)
  ]

  mark_ticking-SameStorage :
      (s : State B O) (ev : B.Evaluated) (c : Cube) → SameStorage B O s (mark_ticking B O s ev c)
  unfolding mark_ticking
  mark_ticking-SameStorage s ev c = ground arith

  relight_on :
      (s : State B O) (ev : B.Evaluated) (c : Cube) (n : ℕ)
      → s.light_enabled ≡ true
      → relight B O s ev c n ≡ (darken B O s ev c n >>= update_neighbors B O c Face.all)
  unfolding relight
  relight_on s ev c n h = pick_true s.light_enabled _ _ h

  relight_off :
      (s : State B O) (ev : B.Evaluated) (c : Cube) (n : ℕ)
      → s.light_enabled ≡ false
      → relight B O s ev c n ≡ ret s
  unfolding relight
  relight_off s ev c n h = pick_false s.light_enabled _ _ h

  relight-Settles :
      (s : State B O) (ev : B.Evaluated) (c : Cube) (n : ℕ)
      → IsSound B O s
      → n < cubes s.bounds.sizes
      → Settles s (relight B O s ev c n)
  unfolding relight
  relight-Settles s ev c n v inside = elim (Bool-cases s.light_enabled) [
    | inr off ↦ (s, relight_off s ev c n off, stays s)
    | inl on ↦
        let (t, e, h) = darken-Settles s ev c n (rw (v.lit on) inside) in
        let (u, f, k) = update_neighbors-Settles c Face.all t (SameStorage-IsSound B O s t h v) in
        (u, relight_on s ev c n on ∙ rw e f, SameStorage-trans s t u h k)
  ]

  -- The side effects of a write on a sound space, at an index within the contents, do not panic, and
  -- they leave the bounds, the palette, the contents and the number of light values alone.
  pub side_effects-Settles :
      (s : State B O) (c : Cube) (n i : ℕ)
      → IsSound B O s
      → n < cubes s.bounds.sizes
      → get_elem? s.contents n ≡ some i
      → Settles s (side_effects_of_set B O s i c n)
  unfolding side_effects_of_set Palette.entry
  side_effects-Settles s c n i v inside at_n =
      let (j, d, f, g, _) = reads B O s n v inside in
      let same : j ≡ i = some-eq_some (sym f ∙ at_n) in
      let ticking = mark_ticking-SameStorage s d.evaluated c in
      let s' = mark_ticking B O s d.evaluated c in
      let (t, e, h) =
        relight-Settles s' d.evaluated c n (SameStorage-IsSound B O s s' ticking v)
          (rw ticking.bounds inside) in
      let k = SameStorage-trans s s' t ticking h in
      (
        notify B O t (SpaceChange.block c ∷ []),
        rw (← same) (rw (g, Palette.entry) (rw e)),
        record {
          bounds = k.bounds;
          palette = k.palette;
          contents = k.contents;
          light_enabled = k.light_enabled;
          lighting = k.lighting;
        },
      )
