-- ===== src/Tests/Registries.antt =====
-- The registry and its concurrent calls, on small tables.
use micro_joule_attribution.Base.{
  ℕ, ◌≤◌, ◌≡◌, List, [], ◌∷◌, true, false, some, length, ◌==◌, saturating_add, clamp_u64, u64_max,
}
use micro_joule_attribution.Base.BTreeMap
use micro_joule_attribution.Base.BTreeMap.{BTreeMap}
use micro_joule_attribution.Registry.{
  AmalgafyRegistry, new, add_micro_joules, snapshot, len, is_empty, total_micro_joules,
  saturating_add_cell, get,
}
use micro_joule_attribution.Registry.Cell.{saturating_add_loop, saturating_add_loop-returns}
use micro_joule_attribution.Registry.Laws.{IsValid, new-IsValid, get-add}
use micro_joule_attribution.Registry.Total.{
  Call, adds, removes, run, total_of, apply-IsValid, run-new-snapshot, total-snapshot, total-add,
}
use micro_joule_attribution.Tests.Tables.{btree_skip_map}

abbrev calls : List Call
calls = adds 7 3 ∷ adds 2 10 ∷ adds 7 4 ∷ removes 2 ∷ adds 5 1 ∷ []

run-new-snapshot_example :
    snapshot btree_skip_map (run btree_skip_map (new btree_skip_map) calls) ≡ (5, 1) ∷ (7, 7) ∷ []
unfolding BTreeMap.insert BTreeMap.remove BTreeMap.get
run-new-snapshot_example = run-new-snapshot btree_skip_map calls

abbrev tracked : AmalgafyRegistry btree_skip_map
tracked = run btree_skip_map (new btree_skip_map) calls

tracked-IsValid : IsValid btree_skip_map tracked
tracked-IsValid = apply-IsValid btree_skip_map _ (adds 5 1) (
    apply-IsValid btree_skip_map _ (removes 2) (
      apply-IsValid btree_skip_map _ (adds 7 4) (
        apply-IsValid btree_skip_map _ (adds 2 10)
          (apply-IsValid btree_skip_map _ (adds 7 3) (new-IsValid btree_skip_map)))))

total-snapshot_example :
    (total_micro_joules btree_skip_map tracked
      ≡ clamp_u64 (total_of (snapshot btree_skip_map tracked)))
    × (len btree_skip_map tracked ≡ length (snapshot btree_skip_map tracked))
    × (is_empty btree_skip_map tracked ≡ (length (snapshot btree_skip_map tracked) == 0))
total-snapshot_example = total-snapshot btree_skip_map tracked

total-add_example :
    (total_micro_joules btree_skip_map (add_micro_joules btree_skip_map tracked 7 u64_max).0
      ≡ saturating_add (total_micro_joules btree_skip_map tracked) u64_max)
    × ((add_micro_joules btree_skip_map tracked 7 u64_max).1
        ≤ total_micro_joules btree_skip_map (add_micro_joules btree_skip_map tracked 7 u64_max).0)
total-add_example = total-add btree_skip_map tracked 7 u64_max tracked-IsValid

abbrev cells : ℕ → ℕ
cells _ = 40

saturating_add_loop-returns_example :
    saturating_add_loop (true ∷ true ∷ false ∷ true ∷ []) cells 3 2 40
    ≡ some (saturating_add_cell cells 3 2)
saturating_add_loop-returns_example =
    saturating_add_loop-returns (true ∷ true ∷ []) (true ∷ []) cells 3 2

-- PID 7 holds 7.
get-add_example :
    (get btree_skip_map (add_micro_joules btree_skip_map tracked 7 5).0 7 ≡ some 12)
    × ((add_micro_joules btree_skip_map tracked 7 5).1 ≡ 12)
unfolding BTreeMap.insert BTreeMap.remove BTreeMap.get get add_micro_joules
    micro_joule_attribution.Registry.remove new micro_joule_attribution.Registry.add_cold
    micro_joule_attribution.Tests.Tables.insert_absent saturating_add_cell
get-add_example = get-add btree_skip_map tracked 7 5 7 tracked-IsValid
