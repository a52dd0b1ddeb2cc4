-- ===== src/Behavior/Stepping.antt =====
-- `BehaviorSet::step` (all-is-cubes/src/behavior.rs): the transactions by which behaviors replace
-- themselves.
use all_is_cubes.Prelude.{
  ℕ, ◌≡◌, ◌≢◌, refl, some, get_elem?, set, arith, append-nil, lt-get_elem?, lt→ltb, length,
}
use all_is_cubes.Prelude.Run.{ok, ret}
use all_is_cubes.Prelude.Slots.{find_slot}
use all_is_cubes.Behavior.{
  Hosts, Hosting, BehaviorSet, BehaviorSetEntry, self_replacement, context_of, replace, check,
  commit, commit_entries, check_merge, common_slot,
}
use all_is_cubes.Behavior.Checking.{check_iff}

module _ (H : Hosts) (W : Hosting H) where
  open H use {Behavior}
  open W use {Host, host_transaction_binder, set_transaction_binder}

  -- What a behavior does to its own slot.
  record ReplacesSelf (s : BehaviorSet H) (i : ℕ) (e : BehaviorSetEntry H) (b : Behavior)
      : Type 0 where
    pub accepted : check H (self_replacement H W i e b) s ≡ ok tt
    pub result : commit H (self_replacement H W i e b) s ≡ ret (set s i (record e { behavior = b }))

  self-ReplacesSelf :
      (s : BehaviorSet H) (i : ℕ) (e : BehaviorSetEntry H) (b : Behavior)
      → get_elem? s i ≡ some e
      → ReplacesSelf s i e b
  unfolding self_replacement replace commit commit_entries
  self-ReplacesSelf s i e b h = record {
    accepted = (check_iff H (self_replacement H W i e b) s).1 (h, tt);
    result =
        rw
          (
            lt→ltb i (length s) (lt-get_elem? s i h),
            append-nil (set s i (record e { behavior = b })),
          )
          refl;
  }

  self-check_merge :
      (i j : ℕ) (e f : BehaviorSetEntry H) (b c : Behavior)
      → i ≢ j
      → check_merge H (self_replacement H W i e b) (self_replacement H W j f c) ≡ ok tt
  unfolding self_replacement replace check_merge common_slot find_slot
  self-check_merge i j e f b c h = ground arith

  -- A behavior that is stepped may replace itself: the transaction that its context makes of a new
  -- behavior is one that the set accepts as it is, and that changes this behavior alone and keeps
  -- its attachment. The replacements of two behaviors of the set never conflict.
  replace_self-ReplacesSelf :
      (host : Host) (s : BehaviorSet H) (i : ℕ) (e : BehaviorSetEntry H) (b : Behavior)
      → get_elem? s i ≡ some e
      → ((context_of H W host i e).replace_self b
          ≡ host_transaction_binder (set_transaction_binder (self_replacement H W i e b)))
        × ReplacesSelf s i e b
        × ((j : ℕ) (f : BehaviorSetEntry H) (c : Behavior)
            → i ≢ j
            → check_merge H (self_replacement H W i e b) (self_replacement H W j f c) ≡ ok tt)
  unfolding context_of
  replace_self-ReplacesSelf host s i e b h =
      (refl, self-ReplacesSelf s i e b h, λ j f c n. self-check_merge i j e f b c n)
