-- ===== src/Universe/Maps/Joining.antt =====
-- The merging of two maps of transactions (all-is-cubes/src/transaction/generic.rs), key by key.
use all_is_cubes.Prelude.{
  length, ltb, some-eq_some, ◌≡◌, refl, ◌∙◌, sym, ap, subst, none≢some, ◌⊎◌, inl, inr, true, false,
  Option, none, some, List, [], ◌∷◌, Eq, arith, Option-cases, Bool-cases,
}
use all_is_cubes.Prelude.Run.{Result-cases, Run-cases, ret, ok}
use all_is_cubes.Prelude.Dict.{find, put, remove, find-put, find-remove}
use all_is_cubes.Universe.Maps.{
  commit_merge_maps, check_merge_maps, check_entries, Merge, merge_entries,
}

module _ {V : Type 0} (M : Merge V) where
  open M use {MergeCheck}

  -- A check of two values serves their commit in both orders.
  abbrev pub Mergeable : Type 0
  Mergeable =
      (a b : V) (c : MergeCheck)
      → M.check_merge a b ≡ ret (ok c)
      → ((v : V) × (M.commit_merge a b c ≡ ret v)) × ((v : V) × (M.commit_merge b a c ≡ ret v))

  -- The value of a key after the merge: the one value that there was, or what the two merge to.
  abbrev pub Joined : Option V → Option V → Option V → Type 0
  Joined none b r = r ≡ b
  Joined (some v) none r = r ≡ some v
  Joined (some v) (some u) r =
      (c : MergeCheck) × (x : V) × (r ≡ some x)
      × ((M.commit_merge v u c ≡ ret x) ⊎ (M.commit_merge u v c ≡ ret x))

  alone : (a : Option V) → Joined a none a
  alone none = refl
  alone (some v) = refl

  along : {a a' b b' : Option V} (r : Option V) → a ≡ a' → b ≡ b' → Joined a b r → Joined a' b' r
  along {a} {a'} {b} {b'} r p q h =
      subst (λ (x : Option V). Joined x b' r) p (subst (λ (x : Option V). Joined a x r) q h)

  Joined-swap : (a b r : Option V) → Joined a b r → Joined b a r
  Joined-swap none none r h = h
  Joined-swap none (some u) r h = h
  Joined-swap (some v) none r h = h
  Joined-swap (some v) (some u) r (c, x, e, inl p) = (c, x, e, inr p)
  Joined-swap (some v) (some u) r (c, x, e, inr p) = (c, x, e, inl p)

module _ {K V : Type 0} ⦃e : Eq K⦄ where
  -- Each key has one entry.
  abbrev pub Distinct : List (K × V) → Type 0
  Distinct [] = Unit
  Distinct ((k, v) ∷ m) = (find k m ≡ none) × Distinct m

module _ {K V : Type 0} ⦃e : Eq K⦄ (M : Merge V) where
  open M use {MergeCheck}

  -- The checks cover the keys of both maps.
  abbrev Covers : List (K × V) → List (K × V) → List (K × MergeCheck) → Type 0
  Covers m o cs =
      (k : K) (v u : V)
      → find k m ≡ some v
      → find k o ≡ some u
      → (c : MergeCheck) × (find k cs ≡ some c) × (x : V) × (M.commit_merge v u c ≡ ret x)

  -- Reading after the entry of a key has been put, at this key and at another one.
  find_same :
      {A : Type 0} (i k : K) (x : A) (m : List (K × A))
      → e.beq k i ≡ true
      → find i (put k x m) ≡ some x
  find_same i k x m h = find-put i k x m ∙ ground (arith, h)

  find_other :
      {A : Type 0} (i k : K) (x : A) (m : List (K × A))
      → e.beq k i ≡ false
      → find i (put k x m) ≡ find i m
  find_other i k x m h = find-put i k x m ∙ ground (arith, h)

  none_at : (i k : K) (o : List (K × V)) → e.beq k i ≡ true → find k o ≡ none → find i o ≡ none
  none_at i k o h f = subst (λ (y : K). find y o ≡ none) ((e.beq_iff k i).0 h) f

  -- A round that leaves `x` at the key, and goes on with the other keys.
  Covers-rest :
      (m o : List (K × V)) (k : K) (u x : V) (cs cs' : List (K × MergeCheck))
      → find k o ≡ none
      → Covers m ((k, u) ∷ o) cs
      → ((i : K) → e.beq k i ≡ false → find i cs' ≡ find i cs)
      → Covers (put k x m) o cs'
  unfolding find
  Covers-rest m o k u x cs cs' d h same i v w f g = elim (Bool-cases (e.beq k i)) [
    | inl hit ↦ absurd (none≢some (sym (none_at i k o hit d) ∙ g))
    | inr miss ↦
        let (c, p, y, q) = h i v w (sym (find_other i k x m miss) ∙ f) (ground (arith, miss, g)) in
        (c, same i miss ∙ p, y, q)
  ]

  join_rest :
      (m o r : List (K × V)) (k : K) (u x : V)
      → find k o ≡ none
      → ((a : Option V) → find k m ≡ a → Joined M a (some u) (some x))
      → ((i : K) → Joined M (find i (put k x m)) (find i o) (find i r))
      → (i : K) → Joined M (find i m) (find i ((k, u) ∷ o)) (find i r)
  join_rest m o r k u x d here j i = elim (Bool-cases (e.beq k i)) [
    | inl hit ↦
        let ki : k ≡ i = (e.beq_iff k i).0 hit in
        let rx : find i r ≡ some x =
          along M (find i r) (find_same i k x m hit) (none_at i k o hit d) (j i) in
        rw rx (
          along M {b = some u} (some x) (ap (λ (y : K). find y m) ki)
            (unfold find in ground (arith, hit)) (here (find k m) refl))
    | inr miss ↦
        along M {b = find i o} (find i r) (find_other i k x m miss)
          (unfold find in ground (arith, miss)) (j i)
  ]

  pub merge_entries-Joined :
      (m o : List (K × V)) (cs : List (K × MergeCheck))
      → Distinct o
      → Covers m o cs
      → (r : List (K × V)) × (merge_entries M m o cs ≡ ret r)
        × ((k : K) → Joined M (find k m) (find k o) (find k r))
  unfolding merge_entries
  merge_entries-Joined m [] cs d h = (m, refl, λ k. unfold find in alone M (find k m))
  merge_entries-Joined m ((k, u) ∷ o) cs d h = elim (Option-cases (find k m)) [
    | inl f ↦
        let (r, x, j) =
          merge_entries-Joined (put k u m) o cs d.1
            (Covers-rest m o k u u cs cs d.0 h (λ i miss. refl)) in
        (
          r,
          rw (f, merge_entries) x,
          join_rest m o r k u u d.0 (λ a g. along M (some u) (sym f ∙ g) refl refl) j,
        )
    | inr (v, f) ↦
        let (c, g, x, y) = h k v u f (unfold find in ground (arith, e.beq_iff k k)) in
        let (r, z, j) = merge_entries-Joined (put k x m) o (remove k cs) d.1 (
          Covers-rest m o k u x cs (remove k cs) d.0 h
            (λ i miss. find-remove i k cs ∙ ground (arith, miss))) in
        (
          r,
          rw (f, g, y, merge_entries) z,
          join_rest m o r k u x d.0 (λ a w. along M (some x) (sym f ∙ w) refl (c, x, refl, inl y))
              j,
        )
  ]

  -- The checks of the keys of both maps.
  abbrev Checks : List (K × V) → List (K × V) → List (K × MergeCheck) → Type 0
  Checks m o cs =
      (k : K) (v u : V)
      → find k m ≡ some v
      → find k o ≡ some u
      → (c : MergeCheck) × (find k cs ≡ some c) × (M.check_merge v u ≡ ret (ok c))

  check_entries-Checks :
      (m o : List (K × V)) (cs : List (K × MergeCheck))
      → check_entries M m o ≡ ret (ok cs)
      → Checks m o cs
  unfolding check_entries find
  check_entries-Checks [] o cs h i v u f g = cc
  check_entries-Checks ((k, w) ∷ m) o cs h i v u f g = elim (Option-cases (find k o)) [
    | inl p ↦ elim (Bool-cases (e.beq k i)) [
      | inl hit ↦ absurd (none≢some (sym (none_at i k o hit p) ∙ g))
      | inr miss ↦
          check_entries-Checks m o cs (ground (arith, p, h)) i v u (ground (arith, miss, f)) g
    ]
    | inr (x, p) ↦ elim (Run-cases (M.check_merge w x)) [
      | inr q ↦ absurd (ground (arith, p, q, h))
      | inl (a, q) ↦ elim (Result-cases a) [
        | inr (y, z) ↦ absurd (ground (arith, p, q, z, h))
        | inl (c, z) ↦ elim (Run-cases (check_entries M m o)) [
          | inr s ↦ absurd (ground (arith, p, q, z, s, h))
          | inl (b, s) ↦ elim (Result-cases b) [
            | inr (y, t) ↦ absurd (ground (arith, p, q, z, s, t, h))
            | inl (rest, t) ↦
                let all : (k, c) ∷ rest ≡ cs = ground (arith, p, q, z, s, t, h) in
                elim (Bool-cases (e.beq k i)) [
                  | inl hit ↦
                      let ki : k ≡ i = (e.beq_iff k i).0 hit in
                      let wv : w ≡ v = ground (arith, hit, f) in
                      let xu : x ≡ u = some-eq_some (sym p ∙ ap (λ (y : K). find y o) ki ∙ g) in
                      (
                        c,
                        ap (λ (y : List (K × MergeCheck)). find i y) (sym all)
                            ∙ ground (arith, hit),
                        subst (λ (y : V). M.check_merge y u ≡ ret (ok c)) wv
                            (subst (λ (y : V). M.check_merge w y ≡ ret (ok c)) xu (q ∙ ap ret z)),
                      )
                  | inr miss ↦
                      let (c', l, n) =
                        check_entries-Checks m o rest (s ∙ ap ret t) i v u (ground (arith, miss, f))
                          g in
                      (
                        c',
                        ap (λ (y : List (K × MergeCheck)). find i y) (sym all)
                            ∙ ground (arith, miss, l),
                        n,
                      )
                ]
          ]
        ]
      ]
    ]
  ]

  -- Where a check of two values serves their merging in both orders, maps that may be merged are
  -- merged without a panic, and each key of the result has the one value that it had, or what its
  -- two values merge to, in one of the two orders.
  pub commit_merge_maps-Joined :
      (m o : List (K × V)) (cs : List (K × MergeCheck))
      → Mergeable M
      → Distinct m
      → Distinct o
      → check_merge_maps M m o ≡ ret (ok cs)
      → (r : List (K × V)) × (commit_merge_maps M m o cs ≡ ret r)
        × ((k : K) → Joined M (find k m) (find k o) (find k r))
  unfolding check_merge_maps commit_merge_maps
  commit_merge_maps-Joined m o cs law dm do_ h = elim (Bool-cases (ltb (length o) (length m))) [
    | inl longer ↦
        let checks = check_entries-Checks o m cs (rw longer at h) in
        let keep : ltb (length m) (length o) ≡ false = ground (arith, longer) in
        rw keep (
          merge_entries-Joined m o cs do_ (λ k v u f g.
            let (c, p, q) = checks k u v g f in (c, p, (law u v c q).1.0, (law u v c q).1.1)))
    | inr other ↦
        let checks = check_entries-Checks m o cs (rw other at h) in
        elim (Bool-cases (ltb (length m) (length o))) [
          | inl shorter ↦
              let (r, x, j) = merge_entries-Joined o m cs dm (λ k v u f g.
                let (c, p, q) = checks k u v g f in (c, p, (law u v c q).1.0, (law u v c q).1.1)) in
              (r, rw shorter x, λ k. Joined-swap M (find k o) (find k m) (find k r) (j k))
          | inr same ↦ rw same (
              merge_entries-Joined m o cs do_ (λ k v u f g.
                let (c, p, q) = checks k v u f g in (c, p, (law v u c q).0.0, (law v u c q).0.1)))
        ]
  ]
