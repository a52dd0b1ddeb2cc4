-- ===== src/Universe/Naming.antt =====
-- `Universe::allocate_name` (all-is-cubes/src/universe.rs): the name of a new member.
use all_is_cubes.Prelude.{
  lt→ltb, ◌∙◌, sym, ℕ, ◌+◌, ◌≤◌, ◌<◌, ◌^◌, ◌≡◌, ◌≢◌, refl, ◌⊎◌, inl, inr, Eq, arith, Option-cases,
  none≢some,
}
use all_is_cubes.Prelude.Run.{ret, ok, err}
use all_is_cubes.Universe.{
  Name, specific, anonym, pending, World, Universe, InsertErrorKind, already_exists, invalid_name,
  allocate_name, get_any,
}
use all_is_cubes.Universe.Soundness.{IsSound, Free, get_any-Free, Free-get_any}

-- The name that a member is given, where `i` is the number of the next anonymous one.
abbrev pub given : {L : Type 0} → Name L → ℕ → Name L
given (specific l) i = specific l
given (anonym j) i = anonym j
given pending i = anonym i

module _ {L : Type 0} ⦃e : Eq L⦄ where
  -- Why a name is refused: it is in use, or it is one that only the universe gives.
  abbrev pub Refused : Universe L → Name L → InsertErrorKind → Type 0
  Refused u (specific l) k = (k ≡ already_exists) × (¬ Free u (specific l))
  Refused u (anonym i) k = k ≡ invalid_name
  Refused u pending k = ⊥

  -- The name is a new one, where `i` is the next number afterwards.
  pub record Fresh (u : Universe L) (i : ℕ) (n : Name L) : Type 0 where
    pub numbers : u.next_anonym ≤ i
    pub bounded : i ≤ u.next_anonym + 1
    pub free : Free u n
    pub named : n ≢ pending
    pub below : (m : ℕ) → n ≡ anonym m → m < i

module _ {L V : Type 0} ⦃e : Eq L⦄ where
  pub allocate_name-cases :
      (w : World L V) (n : Name L)
      → IsSound w
      → w.universe.next_anonym + 1 < 2 ^ 64
      → ((i : ℕ) × (allocate_name w.universe n
            ≡ ret (record w.universe { next_anonym = i }, ok (given n w.universe.next_anonym)))
          × Fresh w.universe i (given n w.universe.next_anonym))
        ⊎ ((k : InsertErrorKind) × (allocate_name w.universe n
              ≡ ret (w.universe, err (record { name = n; kind = k })))
            × Refused w.universe n k)
  unfolding allocate_name
  allocate_name-cases w (specific l) s h = elim (Option-cases (get_any w.universe (specific l))) [
    | inl f ↦ inl (
      w.universe.next_anonym,
      rw (f, allocate_name) refl,
      record {
        numbers = omega arith;
        bounded = omega arith;
        free = get_any-Free w.universe (specific l) f;
        named = λ x. cc;
        below = λ m x. cc;
      },
    )
    | inr (r, f) ↦ inr (
      already_exists,
      rw (f, allocate_name) refl,
      (refl, λ g. none≢some (sym (Free-get_any w.universe (specific l) g) ∙ f)),
    )
  ]
  allocate_name-cases w (anonym i) s h = inr (invalid_name, refl, refl)
  allocate_name-cases w pending s h =
      let free : Free w.universe (anonym w.universe.next_anonym) =
        λ k. s.numbered k w.universe.next_anonym (omega arith) in
      inl (
        w.universe.next_anonym + 1,
        rw
            (
              Free-get_any w.universe (anonym w.universe.next_anonym) free,
              lt→ltb (w.universe.next_anonym + 1) (2 ^ 64) h,
              allocate_name,
            )
            refl,
        record {
          numbers = omega arith;
          bounded = omega arith;
          free = free;
          named = λ x. cc;
          below = λ m x. let q : w.universe.next_anonym ≡ m = cc in omega arith;
        },
      )
