-- ===== src/Behavior/Merging.antt =====
-- The merging of two `BehaviorSetTransaction`s (all-is-cubes/src/behavior.rs), against committing one
-- after the other.
use all_is_cubes.Behavior.Committing.{
  commit-Replaced, AllExpected-InSet, entry_after, InSet, Replaced,
}
use all_is_cubes.Prelude.{
  append_assoc, ◌≤◌, get_elem?_ext, ◌-◌, if◌then◌else◌, false, true, lt→ltb, length, ltb,
  get_elem?-append_parts, lt-get_elem?, List, ◌∙◌, ◌++◌, sym, subst, ◌==◌, ℕ, ◌≡◌, refl, ◌⊎◌, inl,
  inr, Option, none, some, [], ◌∷◌, get_elem?, arith, Option-cases, some-eq_some, Bool-cases,
}
use all_is_cubes.Prelude.Run.{err≢ok, ret, ok, err}
use all_is_cubes.Prelude.Slots.{
  extend_slots-Ascending, find_slot-extend_slots, extend_slots, find_slot, Ascending, AllAbove,
  find_slot_above,
}
use all_is_cubes.Behavior.{
  commit, check, commit_merge, Hosts, Replace, BehaviorSet, BehaviorSetEntry,
  BehaviorSetTransaction, check_merge, common_slot,
}
use all_is_cubes.Behavior.Checking.{check_iff, Replacements, AllExpected}

module _ (H : Hosts) where
  -- No index is replaced by both.
  abbrev pub Apart : Replacements H → Replacements H → Type 0
  Apart m o = (i : ℕ) → (find_slot i m ≡ none) ⊎ (find_slot i o ≡ none)

  abbrev pub Slot-common : Replacements H → Replacements H → Option ℕ → Type 0
  Slot-common m o none = Apart m o
  Slot-common m o (some i) = (¬ (find_slot i m ≡ none)) × (¬ (find_slot i o ≡ none))

  widen :
      (k : ℕ) (r : Replace (BehaviorSetEntry H)) (m o : Replacements H) (c : Option ℕ)
      → find_slot k o ≡ none
      → Slot-common m o c
      → Slot-common ((k, r) ∷ m) o c
  unfolding find_slot
  widen k r m o none e h = λ i. elim (Bool-cases (k == i)) [
    | inl same ↦ let q : k ≡ i = ground arith in inr (rw q at e)
    | inr other ↦ elim (h i) [ inl f ↦ inl (rw other f) | inr f ↦ inr f ]
  ]
  widen k r m o (some i) e h = (ground (arith, h.0), h.1)

  common_slot_skip :
      (k : ℕ) (r : Replace (BehaviorSetEntry H)) (m o : Replacements H)
      → find_slot k o ≡ none
      → common_slot H ((k, r) ∷ m) o ≡ common_slot H m o
  unfolding common_slot
  common_slot_skip k r m o e = ground (arith, e)

  common_slot_hit :
      (k : ℕ) (r q : Replace (BehaviorSetEntry H)) (m o : Replacements H)
      → find_slot k o ≡ some q
      → common_slot H ((k, r) ∷ m) o ≡ some k
  unfolding common_slot
  common_slot_hit k r q m o e = ground (arith, e)

  common_slot_lem : (m o : Replacements H) → Slot-common m o (common_slot H m o)
  common_slot_lem [] o = unfold common_slot find_slot in λ i. inl refl
  common_slot_lem ((k, r) ∷ m) o = elim (Option-cases (find_slot k o)) [
    | inl e ↦
        subst (Slot-common ((k, r) ∷ m) o) (sym (common_slot_skip k r m o e))
          (widen k r m o (common_slot H m o) e (common_slot_lem m o))
    | inr (q, e) ↦
        subst (Slot-common ((k, r) ∷ m) o) (sym (common_slot_hit k r q m o e))
          (unfold find_slot in ground arith, λ h. cc)
  ]

  -- `check_merge` succeeds if no index is replaced by both transactions; otherwise its error names
  -- an index that both of them replace.
  pub check_merge_cases :
      (t o : BehaviorSetTransaction H)
      → ((check_merge H t o ≡ ok tt) × Apart t.replace o.replace)
        ⊎ ((i : ℕ) × (check_merge H t o ≡ err (record { slot = i }))
            × (¬ (find_slot i t.replace ≡ none))
            × (¬ (find_slot i o.replace ≡ none)))
  unfolding check_merge
  check_merge_cases t o = by_slot (common_slot H t.replace o.replace) refl
    where
      by_slot :
          (c : Option ℕ)
          → common_slot H t.replace o.replace ≡ c
          → ((check_merge H t o ≡ ok tt) × Apart t.replace o.replace)
            ⊎ ((i : ℕ) × (check_merge H t o ≡ err (record { slot = i }))
                × (¬ (find_slot i t.replace ≡ none))
                × (¬ (find_slot i o.replace ≡ none)))
      by_slot none e = inl (rw (e, check_merge) refl, rw e at (common_slot_lem t.replace o.replace))
      by_slot (some i) e =
          let h : Slot-common t.replace o.replace (some i) =
            rw e at (common_slot_lem t.replace o.replace) in
          inr (i, rw (e, check_merge) refl, h.0, h.1)

  -- What is expected, index by index.
  abbrev Demands : BehaviorSet H → Replacements H → Type 0
  Demands s m =
      (i : ℕ) (r : Replace (BehaviorSetEntry H))
      → find_slot i m ≡ some r
      → get_elem? s i ≡ some r.old

  AllExpected-Demands : (s : BehaviorSet H) (m : Replacements H) → AllExpected H s m → Demands s m
  unfolding find_slot
  AllExpected-Demands s [] h = λ i r e. cc
  AllExpected-Demands s ((k, q) ∷ m) h = λ i r e. elim (Bool-cases (k == i)) [
    | inl same ↦
        let ki : k ≡ i = ground arith in
        let rq : some q ≡ some r = rw same at e in
        let qr : q ≡ r = some-eq_some rq in rw (← ki, ← qr) h.0
    | inr other ↦ AllExpected-Demands s m h.1 i r (rw other at e)
  ]

  Demands-AllExpected :
      (s : BehaviorSet H) (m : Replacements H) → Ascending m → Demands s m → AllExpected H s m
  unfolding find_slot
  Demands-AllExpected s [] a d = tt
  Demands-AllExpected s ((k, q) ∷ m) a d = (
    d k q (ground arith),
    Demands-AllExpected s m a.1
        (λ i r e. d i r (ground (arith, find_slot_above i m, later k i m a.0, e))),
  )
    where
      later : (k i : ℕ) (m : Replacements H) → AllAbove k m → k ≡ i → find_slot i m ≡ none
      later k i m b e = find_slot_above i m (rw e at b)

  -- The merged replacements demand what both demand.
  merged-Demands :
      (s : BehaviorSet H) (m o : Replacements H)
      → Ascending o
      → Demands s m
      → Demands s o
      → Demands s (extend_slots m o)
  merged-Demands s m o a d d' = λ i r e. by_other i r (find_slot i o) refl e
    where
      by_other :
          (i : ℕ) (r : Replace (BehaviorSetEntry H)) (c : Option (Replace (BehaviorSetEntry H)))
          → find_slot i o ≡ c
          → find_slot i (extend_slots m o) ≡ some r
          → get_elem? s i ≡ some r.old
      by_other i r none f e = d i r (sym (rw f at (find_slot-extend_slots i m o a)) ∙ e)
      by_other i r (some q) f e = d' i r (f ∙ sym (rw f at (find_slot-extend_slots i m o a)) ∙ e)

  -- An entry that a slot of `o` names is in the set, and `t` has left it alone.
  untouched :
      (s u : BehaviorSet H) (m o : Replacements H) (extra : List (BehaviorSetEntry H)) (i : ℕ)
      (r : Replace (BehaviorSetEntry H))
      → Apart m o
      → Replaced H s m u
      → Demands s o
      → find_slot i o ≡ some r
      → get_elem? (u ++ extra) i ≡ some r.old
  untouched s u m o extra i r ap p d e =
      let l = lt-get_elem? s i (d i r e) in
      let free : find_slot i m ≡ none = elim (ap i) [ inl f ↦ f | inr f ↦ cc ] in
      get_elem?-append_parts u extra i
      ∙ rw (lt→ltb i (length u) (rw p.same_length l)) (p.entries i ∙ rw free (d i r e))

  InSet-find_slot :
      (s : BehaviorSet H) (o : Replacements H) (j : ℕ)
      → InSet H s o
      → length s ≤ j
      → find_slot j o ≡ none
  unfolding find_slot
  InSet-find_slot s [] j h l = refl
  InSet-find_slot s ((k, r) ∷ o) j h l = ground (arith, InSet-find_slot s o j h.1 l)

  -- The set after both, index by index.
  both_after :
      (s u w v : BehaviorSet H) (m o : Replacements H) (extra : List (BehaviorSetEntry H))
      → Ascending o
      → InSet H s o
      → Replaced H s m u
      → Replaced H (u ++ extra) o w
      → Replaced H s (extend_slots m o) v
      → v ++ extra ≡ w
  both_after s u w v m o extra a h p q x = get_elem?_ext (v ++ extra) w (λ j.
      get_elem?-append_parts v extra j
      ∙ at_index j (Bool-cases (ltb j (length s)))
      ∙ sym (q.entries j))
    where
      at_index :
          (j : ℕ)
          → (ltb j (length s) ≡ true) ⊎ (ltb j (length s) ≡ false)
          → (if ltb j (length v) then get_elem? v j else get_elem? extra (j - length v))
            ≡ entry_after H (find_slot j o) (get_elem? (u ++ extra) j)
      at_index j (inl e) = ground (
        arith,
        e,
        x.same_length,
        x.entries j,
        p.same_length,
        p.entries j,
        get_elem?-append_parts u extra j,
        find_slot-extend_slots j m o a,
      )
      at_index j (inr e) = ground (
        arith,
        e,
        x.same_length,
        p.same_length,
        get_elem?-append_parts u extra j,
        InSet-find_slot s o j h,
      )

  module _ (t o : BehaviorSetTransaction H) (s : BehaviorSet H) where
    abbrev merged : BehaviorSetTransaction H
    merged = commit_merge H t o

    merged-check :
        Ascending t.replace
        → Ascending o.replace
        → check H t s ≡ ok tt
        → check H o s ≡ ok tt
        → check H merged s ≡ ok tt
    unfolding commit_merge
    merged-check at ao h k = (check_iff H merged s).1 (
        Demands-AllExpected s merged.replace (extend_slots-Ascending t.replace o.replace at) (
          merged-Demands s t.replace o.replace ao
            (AllExpected-Demands s t.replace ((check_iff H t s).0 h))
            (AllExpected-Demands s o.replace ((check_iff H o s).0 k))))

    -- The entries that `o` replaces are still there after `t`.
    later-check :
        (u : BehaviorSet H)
        → Ascending o.replace
        → Apart t.replace o.replace
        → Replaced H s t.replace u
        → check H o s ≡ ok tt
        → check H o (u ++ t.insert) ≡ ok tt
    later-check u ao ap p k =
        let d = AllExpected-Demands s o.replace ((check_iff H o s).0 k) in
        (check_iff H o (u ++ t.insert)).1 (
          Demands-AllExpected (u ++ t.insert) o.replace ao
            (λ i r e. untouched s u t.replace o.replace t.insert i r ap p d e))

  apart : (t o : BehaviorSetTransaction H) → check_merge H t o ≡ ok tt → Apart t.replace o.replace
  apart t o h = elim (check_merge_cases t o) [
    | inl (e, ap) ↦ ap
    | inr (i, e, x, y) ↦ absurd (err≢ok (sym e ∙ h))
  ]

  -- Two transactions that may be merged, and that a set accepts, are accepted one after the other,
  -- and so is the merged one, which does to the set what they do one after the other.
  pub commit_merge-sequential :
      (t o : BehaviorSetTransaction H) (s : BehaviorSet H)
      → Ascending t.replace
      → Ascending o.replace
      → check_merge H t o ≡ ok tt
      → check H t s ≡ ok tt
      → check H o s ≡ ok tt
      → (check H (commit_merge H t o) s ≡ ok tt)
        × (v w : BehaviorSet H) × (commit H t s ≡ ret v)
        × (check H o v ≡ ok tt)
        × (commit H o v ≡ ret w)
        × (commit H (commit_merge H t o) s ≡ ret w)
  commit_merge-sequential t o s a b mok h k =
      let ap = apart t o mok in
      let within = AllExpected-InSet H s o.replace ((check_iff H o s).0 k) in
      let (u, e, p) = commit-Replaced H t s a h in
      let later = later-check t o s u b ap p k in
      let (w, f, q) = commit-Replaced H o (u ++ t.insert) b later in
      let whole = merged-check t o s a b h k in
      let (v, g, x) =
        commit-Replaced H (commit_merge H t o) s
          (unfold commit_merge in extend_slots-Ascending t.replace o.replace a) whole in
      let same =
        both_after s u w v t.replace o.replace t.insert b within p q (unfold commit_merge in x) in
      (
        whole,
        u ++ t.insert,
        w ++ o.insert,
        e,
        later,
        f,
        g ∙ unfold commit_merge in rw (← same, append_assoc) refl,
      )
