-- ===== src/Layout/Placing.antt =====
-- The widgets of a layout tree in their boxes (all-is-cubes-ui/src/vui/layout.rs).
use mathlib.Core.List.{map-append}
use all_is_cubes.Prelude.{◌≡◌, ap, ◌∙◌, List, [], ◌∷◌, ◌++◌, map}
use all_is_cubes.Math.Vector.{Cube}
use all_is_cubes.Math.GridAab.{GridAab}
use all_is_cubes.Math.GridAab.Index.{Inside}
use all_is_cubes.Math.GridAab.Volume.{IsValid}
use all_is_cubes.Math.GridAab.Union.{Encloses, Encloses-trans, Encloses-Inside}
use all_is_cubes.Layout.{LayoutRequest}
use all_is_cubes.Layout.Tree.{Positioned}
use all_is_cubes.Layout.Sizing.{Fits}

abbrev pub All {ℓ κ} : {A : Type ℓ} → (A → Type κ) → List A → Type κ
All P [] = Unit
All P (x ∷ xs) = P x × All P xs

All-append {ℓ κ} :
    {A : Type ℓ} (P : A → Type κ) (xs ys : List A) → All P xs → All P ys → All P (xs ++ ys)
All-append P [] ys h k = k
All-append P (x ∷ xs) ys h k = (h.0, All-append P xs ys h.1 k)

All-map {ℓ κ} :
    {A : Type ℓ} (P Q : A → Type κ) (xs : List A) → ((x : A) → P x → Q x) → All P xs → All Q xs
All-map P Q [] f h = tt
All-map P Q (x ∷ xs) f h = (f x h.0, All-map P Q xs f h.1)

-- No cube lies in both boxes.
abbrev pub Disjoint : GridAab → GridAab → Type 0
Disjoint b o = (c : Cube) → ¬ (Inside b c × Inside o c)

module _ {W : Type 0} where
  -- The boxes of the widgets are disjoint.
  abbrev pub Apart : List (Positioned W) → Type 0
  Apart [] = Unit {0}
  Apart (p ∷ ps) = All (λ q. Disjoint p.position.bounds q.position.bounds) ps × Apart ps

  Apart-append :
      (o r : GridAab) (ps qs : List (Positioned W))
      → Disjoint o r
      → All (λ p. Encloses o p.position.bounds) ps
      → All (λ q. Encloses r q.position.bounds) qs
      → Apart ps
      → Apart qs
      → Apart (ps ++ qs)
  Apart-append o r [] qs d h k a b = b
  Apart-append o r (p ∷ ps) qs d h k a b = (
    All-append _ ps qs a.0 (
        All-map _ _ qs
          (λ q e c i. d c (
            Encloses-Inside o p.position.bounds c h.0 i.0,
            Encloses-Inside r q.position.bounds c e i.1,
          ))
          k),
    Apart-append o r ps qs d h.1 k a.1 b,
  )

module _ {W : Type 0} (needs : W → LayoutRequest) where
  -- A valid box in `b` that is large enough.
  pub record IsPlaced (b : GridAab) (p : Positioned W) : Type 0 where
    pub valid : IsValid p.position.bounds
    pub within : Encloses b p.position.bounds
    pub fits : Fits (needs p.value).minimum p.position.bounds.sizes

  -- Each widget has a box, in order.
  pub record IsLaid (b : GridAab) (ws : List W) (ps : List (Positioned W)) : Type 0 where
    pub values : map (λ (p : Positioned W). p.value) ps ≡ ws
    pub placed : All (IsPlaced b) ps
    pub apart : Apart ps

  IsPlaced-widen : (b o : GridAab) → Encloses b o → (p : Positioned W) → IsPlaced o p → IsPlaced b p
  IsPlaced-widen b o e p h = record {
    valid = h.valid;
    within = Encloses-trans b o p.position.bounds e h.within;
    fits = h.fits;
  }

  pub IsLaid-widen :
      (b o : GridAab) {ws : List W} (ps : List (Positioned W))
      → Encloses b o
      → IsLaid o ws ps
      → IsLaid b ws ps
  IsLaid-widen b o ps e h = record {
    values = h.values;
    placed = All-map (IsPlaced o) (IsPlaced b) ps (IsPlaced-widen b o e) h.placed;
    apart = h.apart;
  }

  pub IsLaid-append :
      (o r : GridAab) {b : GridAab} {ws vs : List W} (ps qs : List (Positioned W))
      → Disjoint o r
      → Encloses b o
      → Encloses b r
      → IsLaid o ws ps
      → IsLaid r vs qs
      → IsLaid b (ws ++ vs) (ps ++ qs)
  IsLaid-append o r {b} {ws} ps qs d e f h k = record {
    values =
        map-append (λ (p : Positioned W). p.value) ps qs
        ∙ ap (λ xs. xs ++ map (λ (p : Positioned W). p.value) qs) h.values
        ∙ ap (λ ys. ws ++ ys) k.values;
    placed =
        All-append (IsPlaced b) ps qs
          (All-map (IsPlaced o) (IsPlaced b) ps (IsPlaced-widen b o e) h.placed)
          (All-map (IsPlaced r) (IsPlaced b) qs (IsPlaced-widen b r f) k.placed);
    apart =
        Apart-append o r ps qs d (All-map (IsPlaced o) _ ps (λ p i. i.within) h.placed)
          (All-map (IsPlaced r) _ qs (λ q i. i.within) k.placed) h.apart k.apart;
  }
