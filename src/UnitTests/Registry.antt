-- ===== src/UnitTests/Registry.antt =====
-- The unit tests of src/core/registry.rs that run in one thread.
use micro_joule_attribution.Base.{
  ℕ, ◌-◌, ◌≡◌, refl, ◌∙◌, ap, arith, [], ◌∷◌, Option, none, some, true, u64_max, sym, length, ◌==◌,
  clamp_u64,
}
use micro_joule_attribution.Base.BTreeMap
use micro_joule_attribution.Base.BTreeMap.{BTreeMap}
use micro_joule_attribution.Registry.Table.{SkipMap}
use micro_joule_attribution.Registry.{
  AmalgafyRegistry, new, global_registry, add_micro_joules, get, remove, snapshot, len, is_empty,
  total_micro_joules,
}
use micro_joule_attribution.Registry.Laws.{get-add, get-remove, new-IsValid, add-IsValid}
use micro_joule_attribution.Registry.Total.{
  total_of, adds, removes, run, run-new-snapshot, total-snapshot, get-snapshot, get-new,
}

module _ (S : SkipMap) where
  -- An addition for its effect alone.
  abbrev added : AmalgafyRegistry S → ℕ → ℕ → AmalgafyRegistry S
  added r pid delta = (add_micro_joules S r pid delta).0

  abbrev RegistryAccumulatesPerPidDeltas : Type 0
  RegistryAccumulatesPerPidDeltas =
      let (r1, first) = add_micro_joules S (new S) 1024 250 in
      let (r2, second) = add_micro_joules S r1 1024 750 in
      let (r3, third) = add_micro_joules S r2 2048 42 in
      (first ≡ 250)
      × (second ≡ 1_000)
      × (third ≡ 42)
      × (get S r3 1024 ≡ some 1_000)
      × (get S r3 2048 ≡ some 42)
      × (total_micro_joules S r3 ≡ 1_042)
      × (len S r3 ≡ 2)

  abbrev RegistrySnapshotIsSortedByPid : Type 0
  RegistrySnapshotIsSortedByPid =
      snapshot S (added (added (added (new S) 9 10) 1 30) 4 20) ≡ (1, 30) ∷ (4, 20) ∷ (9, 10) ∷ []

  abbrev RegistryRemoveReturnsFinalTotal : Type 0
  RegistryRemoveReturnsFinalTotal =
      let (r, removed) = remove S (added (added (new S) 7 500) 7 500) 7 in
      (removed ≡ some 1_000) × (get S r 7 ≡ none) × (is_empty S r ≡ true)

  abbrev RegistrySaturatesInsteadOfWrapping : Type 0
  RegistrySaturatesInsteadOfWrapping =
      (add_micro_joules S (added (new S) 1 (u64_max - 5)) 1 1_000).1 ≡ u64_max

  registry_snapshot_is_sorted_by_pid : RegistrySnapshotIsSortedByPid
  unfolding BTreeMap.insert BTreeMap.get
  registry_snapshot_is_sorted_by_pid = run-new-snapshot S (adds 9 10 ∷ adds 1 30 ∷ adds 4 20 ∷ [])

  registry_saturates_instead_of_wrapping : RegistrySaturatesInsteadOfWrapping
  registry_saturates_instead_of_wrapping =
      let v = add-IsValid S (new S) 1 (u64_max - 5) (new-IsValid S) in
      let second = (get-add S (added (new S) 1 (u64_max - 5)) 1 1_000 1 v).1 in
      let first = (get-add S (new S) 1 (u64_max - 5) 1 (new-IsValid S)).0 in
      ground (arith, first, second, get-new S 1)

  registry_remove_returns_final_total : RegistryRemoveReturnsFinalTotal
  unfolding BTreeMap.insert BTreeMap.get BTreeMap.remove
  registry_remove_returns_final_total =
      let r = run S (new S) (adds 7 500 ∷ adds 7 500 ∷ []) in
      let before = run-new-snapshot S (adds 7 500 ∷ adds 7 500 ∷ []) in
      let final = get-remove S r 7 7 in
      let after = run-new-snapshot S (adds 7 500 ∷ adds 7 500 ∷ removes 7 ∷ []) in
      let emptiness = (total-snapshot S (remove S r 7).0).2 in
      (
        final.1 ∙ sym (get-snapshot S r 7) ∙ ap (λ m. BTreeMap.get m 7) before,
        final.0,
        emptiness ∙ ap (λ (m : BTreeMap ℕ). length m == 0) after,
      )

  registry_accumulates_per_pid_deltas : RegistryAccumulatesPerPidDeltas
  unfolding BTreeMap.insert BTreeMap.get
  registry_accumulates_per_pid_deltas =
      let v0 = new-IsValid S in
      let r1 = added (new S) 1024 250 in
      let v1 = add-IsValid S (new S) 1024 250 v0 in
      let r2 = added r1 1024 750 in
      let v2 = add-IsValid S r1 1024 750 v1 in
      let r3 = added r2 2048 42 in
      let final = run-new-snapshot S (adds 1024 250 ∷ adds 1024 750 ∷ adds 2048 42 ∷ []) in
      let (total, count, _) = total-snapshot S r3 in
      let look_up : (k : ℕ) → get S r3 k ≡ BTreeMap.get ((1024, 1_000) ∷ (2048, 42) ∷ []) k =
        λ k. sym (get-snapshot S r3 k) ∙ ap (λ m. BTreeMap.get m k) final in
      (
        ground (arith, (get-add S (new S) 1024 250 1024 v0).1, get-new S 1024),
        ground (
          arith,
          (get-add S r1 1024 750 1024 v1).1,
          (get-add S (new S) 1024 250 1024 v0).0,
          get-new S 1024,
        ),
        ground (
          arith,
          (get-add S r2 2048 42 2048 v2).1,
          (get-add S r1 1024 750 2048 v1).0,
          (get-add S (new S) 1024 250 2048 v0).0,
          get-new S 2048,
        ),
        look_up 1024,
        look_up 2048,
        total ∙ ap (λ m. clamp_u64 (total_of m)) final,
        count ∙ ap (λ (m : BTreeMap ℕ). length m) final,
      )

  -- One handle: the second call gives what the first one has left in the static.
  abbrev GlobalRegistryReturnsTheSameHandleEveryTime : Option (AmalgafyRegistry S) → Type 0
  GlobalRegistryReturnsTheSameHandleEveryTime static =
      let (kept, first) = global_registry S static in
      let (kept_again, second) = global_registry S kept in (first ≡ second) × (kept_again ≡ kept)

  global_registry_returns_the_same_handle_every_time :
      (static : Option (AmalgafyRegistry S)) → GlobalRegistryReturnsTheSameHandleEveryTime static
  unfolding global_registry
  global_registry_returns_the_same_handle_every_time none = (refl, refl)
  global_registry_returns_the_same_handle_every_time (some registry) = (refl, refl)
