-- ===== src/Allocator/Claims.antt =====
-- `IntAllocator` (all-is-cubes/src/intalloc.rs) as a set of numbers in use.
use all_is_cubes.Prelude.Run.{ret}
use all_is_cubes.Prelude.Int.{pos}
use all_is_cubes.Prelude.{
  inr, ◌-◌, inl, ltb, Bool-cases, ==_iff, refl, ap, ◌||◌, ◌==◌, none, if◌then◌else◌, [], ◌≤◌, ◌∷◌,
  not, leb, ◌&&◌, true, some, false, ◌≡◌, Option, List, Bool, ℕ, arith,
}
use all_is_cubes.Allocator.{allocate_next, IntAllocator, allocate, free}

abbrev pub mem : ℕ → List ℕ → Bool
mem n [] = false
mem n (x ∷ xs) = n == x || mem n xs

abbrev pub covered : Option ℕ → ℕ → Bool
covered none n = false
covered (some last) n = leb n last

-- The numbers in use: those up to the last one that are not free.
abbrev pub in_use : IntAllocator → ℕ → Bool
in_use s n = covered s.last_allocated n && not (mem n s.free_list)

abbrev pub distinct : List ℕ → Bool
distinct [] = true
distinct (x ∷ xs) = not (mem x xs) && distinct xs

pub record IsValid (max : ℕ) (s : IntAllocator) : Type 0 where
  pub below : (n : ℕ) → mem n s.free_list ≡ true → covered s.last_allocated n ≡ true
  pub once : distinct s.free_list ≡ true
  pub in_type : (n : ℕ) → s.last_allocated ≡ some n → n ≤ max

abbrev state : Option ℕ → List ℕ → IntAllocator
state last frees = record { last_allocated = last; free_list = frees }

-- What a number that was allocated promises.
pub record Fresh (max n : ℕ) (s t : IntAllocator) : Type 0 where
  pub bounded : n ≤ max
  pub fresh : in_use s n ≡ false
  pub valid : IsValid max t
  pub others : (k : ℕ) → in_use t k ≡ (if k == n then true else in_use s k)

covered_le :
    (max : ℕ) (last : Option ℕ) (n : ℕ)
    → ((m : ℕ) → last ≡ some m → m ≤ max)
    → covered last n ≡ true
    → n ≤ max
covered_le max none n h c = cc
covered_le max (some last) n h c = ground (arith, h last refl)

mem_eq : (n x : ℕ) (xs : List ℕ) → (n == x) ≡ true → mem n xs ≡ mem x xs
mem_eq n x xs h = ap (λ k. mem k xs) ((==_iff n x).0 h)

allocated :
    (max n : ℕ) (last : Option ℕ) (frees : List ℕ)
    → IsValid max (state last frees)
    → (allocate max (state last frees)).0 ≡ some n
    → Fresh max n (state last frees) (allocate max (state last frees)).1
unfolding allocate allocate_next
allocated max n last (f ∷ rest) v h =
    let same : f ≡ n = ground arith in
    record {
      bounded = covered_le max last n v.in_type (v.below n (ground arith));
      fresh = ground arith;
      valid = record {
        below = λ k m. v.below k (ground arith);
        once = ground (arith, v.once);
        in_type = v.in_type;
      };
      others = λ k. elim (Bool-cases (k == f)) [
        | inl equal ↦
            let e : k ≡ f = (==_iff k f).0 equal in
            ground (arith, v.once, v.below k, ap (λ x. mem x rest) e)
        | inr other ↦ ground arith
      ];
    }
allocated max n none [] v h = record {
  bounded = ground arith;
  fresh = refl;
  valid = record { below = λ k m. ground arith; once = refl; in_type = λ k e. ground arith };
  others = λ k. ground arith;
}
allocated max n (some last) [] v h = record {
  bounded = ground arith;
  fresh = ground arith;
  valid = record {
    below = λ k m. ground arith;
    once = ground arith;
    in_type = λ k e. ground arith;
  };
  others = λ k. ground arith;
}

-- A number that `allocate` returns is in the type and was not in use; now it is, and the other
-- numbers are in use as before.
pub allocate-Fresh :
    (max n : ℕ) (s : IntAllocator)
    → IsValid max s
    → (allocate max s).0 ≡ some n
    → Fresh max n s (allocate max s).1
allocate-Fresh max n s v h = allocated max n s.last_allocated s.free_list v h

refused :
    (max : ℕ) (last : Option ℕ) (frees : List ℕ)
    → (allocate max (state last frees)).0 ≡ none
    → ((allocate max (state last frees)).1 ≡ state last frees)
      × ((k : ℕ) → k ≤ max → in_use (state last frees) k ≡ true)
unfolding allocate allocate_next
refused max last (f ∷ rest) h = cc
refused max none [] h = cc
refused max (some last) [] h = (ground arith, λ k b. ground arith)

-- `allocate` returns `None` only if every number of the type is in use, and then changes nothing.
pub allocate-none :
    (max : ℕ) (s : IntAllocator)
    → (allocate max s).0 ≡ none
    → ((allocate max s).1 ≡ s) × ((k : ℕ) → k ≤ max → in_use s k ≡ true)
allocate-none max s h = refused max s.last_allocated s.free_list h

abbrev Freed : ℕ → ℕ → IntAllocator → IntAllocator → Type 0
Freed max n s t = IsValid max t × ((k : ℕ) → in_use t k ≡ (if k == n then false else in_use s k))

abbrev before : ℕ → Option ℕ
before n = if ltb 0 n then some (n - 1) else none

free_last :
    (max n : ℕ) (frees : List ℕ)
    → IsValid max (state (some n) frees)
    → in_use (state (some n) frees) n ≡ true
    → Freed max n (state (some n) frees) (state (before n) frees)
free_last max n frees v u = (
  record {
    below = λ k m. elim (Bool-cases (k == n)) [
      | inl equal ↦ ground (arith, ap (λ x. mem x frees) ((==_iff k n).0 equal))
      | inr other ↦ ground (arith, v.below k)
    ];
    once = v.once;
    in_type = λ k e. ground (arith, v.in_type n refl);
  },
  λ k. elim (Bool-cases (k == n)) [ inl equal ↦ ground arith | inr other ↦ ground arith ],
)

free_inner :
    (max n : ℕ) (last : Option ℕ) (frees : List ℕ)
    → IsValid max (state last frees)
    → in_use (state last frees) n ≡ true
    → Freed max n (state last frees) (state last (n ∷ frees))
free_inner max n last frees v u = (
  record {
    below = λ k m. elim (Bool-cases (k == n)) [
      | inl equal ↦ ground (arith, ap (covered last) ((==_iff k n).0 equal))
      | inr other ↦ ground (arith, v.below k)
    ];
    once = ground (arith, v.once);
    in_type = v.in_type;
  },
  λ k. ground arith,
)

released :
    (max n : ℕ) (last : Option ℕ) (frees : List ℕ)
    → IsValid max (state last frees)
    → in_use (state last frees) n ≡ true
    → (t : IntAllocator) × (free (state last frees) (pos n) ≡ ret t)
      × Freed max n (state last frees) t
unfolding free
released max n none frees v u = cc
released max n (some last) frees v u = elim (Bool-cases (last == n)) [
  | inl equal ↦
      let e : last ≡ n = (==_iff last n).0 equal in
      let w = rw e at v in
      let r = free_last max n frees w (rw e at u) in (state (before n) frees, rw equal refl, rw e r)
  | inr other ↦
      (state (some last) (n ∷ frees), rw other refl, free_inner max n (some last) frees v u)
]

-- Freeing a number in use does not panic: that number is free afterwards, and the others are in use
-- as before.
pub free-IsValid :
    (max n : ℕ) (s : IntAllocator)
    → IsValid max s
    → in_use s n ≡ true
    → (t : IntAllocator) × (free s (pos n) ≡ ret t)
      × IsValid max t
      × ((k : ℕ) → in_use t k ≡ (if k == n then false else in_use s k))
unfolding free
free-IsValid max n s v h =
    let (t, e, freed) = released max n s.last_allocated s.free_list v h in (t, e, freed.0, freed.1)
