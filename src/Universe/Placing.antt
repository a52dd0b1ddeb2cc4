-- ===== src/Universe/Placing.antt =====
-- A new member of a universe (all-is-cubes/src/universe.rs, universe/uref.rs): what every way of
-- adding one does, and that it keeps the invariant.
use all_is_cubes.Prelude.{
  refl, ℕ, ◌+◌, ◌≤◌, ◌<◌, ◌≡◌, ◌≢◌, ◌∙◌, sym, subst, ◌⊎◌, inl, inr, ◌&&◌, none, some, Eq, get_elem?,
  if◌then◌else◌, arith, Option-cases, Bool-cases, some-eq_some, none≢some, ◌==◌,
}
use all_is_cubes.Universe.{
  Name, anonym, pending, Kind, same_kind, Ref, World, get, eqb_name, eqb_name_iff,
}
use all_is_cubes.Universe.Soundness.{same_kind_refl, IsSound, Registered, Free, same_kind-eq}

module _ {L V : Type 0} ⦃e : Eq L⦄ where
  -- `w'` is `w` with the cell `r` as a new member `n` of the type `k`.
  pub record Places (w w' : World L V) (k : Kind) (n : Name L) (r : Ref) : Type 0 where
    pub gets :
        (l : Kind) (m : Name L)
        → get w'.universe l m
          ≡ (if same_kind k l && eqb_name n m then some r else get w.universe l m)
    pub same_id : w'.universe.id ≡ w.universe.id
    pub numbers : w.universe.next_anonym ≤ w'.universe.next_anonym
    pub bounded : w'.universe.next_anonym ≤ w.universe.next_anonym + 1
    pub free : Free w.universe n
    pub named : n ≢ pending
    pub below : (m : ℕ) → n ≡ anonym m → m < w'.universe.next_anonym
    pub new_ref : (l : Kind) (m : Name L) → get w.universe l m ≢ some r
    pub placed : Registered w' k n r
    pub untouched : (q : Ref) → q ≢ r → get_elem? w'.heap q ≡ get_elem? w.heap q

  module _ {w w' : World L V} {k : Kind} {n : Name L} {r : Ref} (p : Places w w' k n r) where
    new_or_old :
        (l : Kind) (m : Name L) (q : Ref)
        → get w'.universe l m ≡ some q
        → ((k ≡ l) × (n ≡ m) × (q ≡ r)) ⊎ (get w.universe l m ≡ some q)
    new_or_old l m q h = elim (Bool-cases (same_kind k l && eqb_name n m)) [
      | inl hit ↦
          let found : some r ≡ some q = sym (rw hit at (p.gets l m)) ∙ h in
          inl (
            same_kind-eq k l (ground arith),
            (eqb_name_iff n m).0 (ground arith),
            sym (some-eq_some found),
          )
      | inr miss ↦ inr (sym (rw miss at (p.gets l m)) ∙ h)
    ]

    -- What no new member has, no member has.
    still_none :
        (l : Kind) (m : Name L) → n ≢ m → get w.universe l m ≡ none → get w'.universe l m ≡ none
    still_none l m d h = elim (Option-cases (get w'.universe l m)) [
      | inl f ↦ f
      | inr (q, f) ↦ elim (new_or_old l m q f) [
        | inl (a, b, c) ↦ absurd (d b)
        | inr g ↦ absurd (none≢some (sym h ∙ g))
      ]
    ]

    kept :
        (l : Kind) (m : Name L) (q : Ref)
        → get w.universe l m ≡ some q
        → Registered w l m q
        → Registered w' l m q
    kept l m q f g = record {
      cell = g.cell;
      value = g.value;
      at_ref =
          p.untouched q (λ x. p.new_ref l m (subst (λ (y : ℕ). get w.universe l m ≡ some y) x f))
          ∙ g.at_ref;
      of_kind = g.of_kind;
      is_member = rw p.same_id g.is_member;
      has_value = g.has_value;
    }

    pub Places-IsSound : IsSound w → IsSound w'
    Places-IsSound s = record {
      apart = λ m l1 l2 q1 q2 h1 h2. elim (new_or_old l1 m q1 h1) [
        | inl (a, b, c) ↦ elim (new_or_old l2 m q2 h2) [
          | inl (a', b', c') ↦ sym a ∙ a'
          | inr g ↦ absurd (
              none≢some
                (sym (p.free l2) ∙ subst (λ (y : Name L). get w.universe l2 y ≡ some q2) (sym b) g))
        ]
        | inr g ↦ elim (new_or_old l2 m q2 h2) [
          | inl (a', b', c') ↦ absurd (
              none≢some (
                sym (p.free l1) ∙ subst (λ (y : Name L). get w.universe l1 y ≡ some q1) (sym b') g))
          | inr g' ↦ s.apart m l1 l2 q1 q2 g g'
        ]
      ];
      numbered = λ l m h.
          still_none l (anonym m) (λ x. absurd (omega (arith, p.below m x, h)))
            (s.numbered l m (omega (arith, p.numbers, h)));
      no_pending = λ l. still_none l pending p.named (s.no_pending l);
      registered = λ l m q h. elim (new_or_old l m q h) [
        | inl (a, b, c) ↦
            subst (λ (y : Kind). Registered w' y m q) a
              (subst (λ (y : Name L). Registered w' k y q) b
                (subst (λ (y : ℕ). Registered w' k n y) (sym c) p.placed))
        | inr g ↦ kept l m q g (s.registered l m q g)
      ];
      alive = λ q c m h x. elim (Bool-cases (q == r)) [
        | inl same ↦
            let here : q ≡ r = ground arith in
            let at : some p.placed.cell ≡ some c =
              sym p.placed.at_ref ∙ subst (λ (y : ℕ). get_elem? w'.heap y ≡ some c) here h in
            let cells : p.placed.cell ≡ c = some-eq_some at in cc (p.placed.is_member, cells, x)
        | inr other ↦ s.alive q c m (sym (p.untouched q (λ y. ground arith)) ∙ h) x
      ];
    }

    -- A member that was there is there.
    pub get-Places :
        (l : Kind) (m : Name L) (q : Ref)
        → get w.universe l m ≡ some q
        → get w'.universe l m ≡ some q
    get-Places l m q h = elim (Bool-cases (same_kind k l && eqb_name n m)) [
      | inl hit ↦
          let nm : n ≡ m = (eqb_name_iff n m).0 (ground arith) in
          absurd (
            none≢some
              (sym (p.free l) ∙ subst (λ (y : Name L). get w.universe l y ≡ some q) (sym nm) h))
      | inr miss ↦ p.gets l m ∙ rw miss h
    ]

    -- The other names have what they had.
    pub get-Places_other :
        (l : Kind) (m : Name L) → m ≢ n → get w'.universe l m ≡ get w.universe l m
    get-Places_other l m d = elim (Bool-cases (same_kind k l && eqb_name n m)) [
      | inl hit ↦ absurd (d (sym ((eqb_name_iff n m).0 (ground arith))))
      | inr miss ↦ p.gets l m ∙ rw miss refl
    ]

    pub get-Places_new : get w'.universe k n ≡ some r
    get-Places_new = p.gets k n ∙ rw (same_kind_refl k, (eqb_name_iff n n).1 refl) refl
