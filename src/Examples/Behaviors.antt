-- ===== src/Examples/Behaviors.antt =====
-- The theorems on behaviors at a concrete set of two of them.
use all_is_cubes.Prelude.{ℕ, ◌≡◌, refl, [], ◌∷◌, ◌++◌, nat_eq}
use all_is_cubes.Prelude.Run.{ok, ret}
use all_is_cubes.Prelude.Slots.{find_slot}
use all_is_cubes.Behavior.{
  Hosts, Entry, BehaviorSet, BehaviorSetTransaction, check_merge, check_entries, check_entry,
  common_slot, check, commit, commit_merge,
}
use all_is_cubes.Behavior.Committing.{commit-Replaced, Replaced}
use all_is_cubes.Behavior.Merging.{commit_merge-sequential}

-- Attachments and the addresses of behaviors are numbers.
abbrev hosts : Hosts
hosts = record { Attachment = ℕ; attachment_eq = nat_eq; Behavior = ℕ; ptr_eq = nat_eq }

abbrev attached : ℕ → ℕ → Entry ℕ ℕ
attached a b = record { attachment = a; behavior = b }

abbrev behaviors : BehaviorSet hosts
behaviors = attached 1 10 ∷ attached 2 20 ∷ []

abbrev first : BehaviorSetTransaction hosts
first = record {
  replace = (0, record { old = attached 1 10; new = attached 1 11 }) ∷ [];
  insert = attached 3 30 ∷ [];
}

abbrev second : BehaviorSetTransaction hosts
second = record {
  replace = (1, record { old = attached 2 20; new = attached 5 21 }) ∷ [];
  insert = attached 4 40 ∷ [];
}

apart : check_merge hosts first second ≡ ok tt
unfolding check_merge common_slot find_slot
apart = refl

first_accepted : check hosts first behaviors ≡ ok tt
unfolding check check_entries check_entry
first_accepted = refl

second_accepted : check hosts second behaviors ≡ ok tt
unfolding check check_entries check_entry
second_accepted = refl

commit-Replaced_example :
    (u : BehaviorSet hosts) × (commit hosts first behaviors ≡ ret (u ++ first.insert))
    × Replaced hosts behaviors first.replace u
commit-Replaced_example = commit-Replaced hosts first behaviors (tt, tt) first_accepted

commit_merge-sequential_example :
    (check hosts (commit_merge hosts first second) behaviors ≡ ok tt)
    × (v w : BehaviorSet hosts) × (commit hosts first behaviors ≡ ret v)
    × (check hosts second v ≡ ok tt)
    × (commit hosts second v ≡ ret w)
    × (commit hosts (commit_merge hosts first second) behaviors ≡ ret w)
commit_merge-sequential_example =
    commit_merge-sequential hosts first second behaviors (tt, tt) (tt, tt) apart first_accepted
      second_accepted
