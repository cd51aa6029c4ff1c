-- ===== src/Tests/Races.antt =====
-- Two calls that race on the first insertion of their PID.
use micro_joule_attribution.Base.{
  ℕ, zero, suc, ◌+◌, ◌<◌, ◌≡◌, refl, arith, none, some, update, List, ◌++◌,
}
use micro_joule_attribution.Base.Results.{unwrap_or}
use micro_joule_attribution.Base.BTreeMap
use micro_joule_attribution.Registry.{
  AmalgafyRegistry, new, get, remove, snapshot, total_micro_joules, add_micro_joules, add_cold,
  saturating_add_cell,
}
use micro_joule_attribution.Registry.Race.{
  Job, Pc, holding, loaded, done, Move, miss, offer, load, win, lose, System, pick, Reach, Leads,
  init, start, later, stored, go,
}
use micro_joule_attribution.Registry.Race.Counting.{IsDone}
use micro_joule_attribution.Registry.Race.Invariant.{no_delta_lost}
use micro_joule_attribution.Registry.Race.Replay.{replayed}
use micro_joule_attribution.Registry.Race.Linear.{Explains, linearizable, Reach-Leads}
use micro_joule_attribution.Registry.Race.Whole.{total-requested}
use micro_joule_attribution.Registry.Race.Progress.{all_can_return}
use micro_joule_attribution.Registry.Race.Eviction.{evicted_delta}
use micro_joule_attribution.Tests.Tables.{btree_skip_map, insert_absent}

abbrev jobs : ℕ → Job
jobs i = record { pid = 7; delta_uj = i + 3 }

abbrev Reached : System btree_skip_map → Type 0
Reached = Reach btree_skip_map 2 jobs

move :
    {s : System btree_skip_map} {r : AmalgafyRegistry btree_skip_map} {p : Pc}
    → Reached s
    → (i : ℕ) → i < 2
    → Move btree_skip_map s.registry (jobs i) (s.pc i) r p
    → Reached (record { registry = r; pc = update s.pc i p })
move reached i lt m = later reached (pick i lt m)

two_threads : (P : ℕ → Type 0) → P 0 → P 1 → (i : ℕ) → i < 2 → P i
two_threads P a b zero lt = a
two_threads P a b (suc zero) lt = b
two_threads P a b (suc (suc i)) lt = absurd (omega arith)

-- Both miss, both offer a cell, both load the zero of the one that is kept, and the first wins.
half_raced : (s : System btree_skip_map) × Reached s
unfolding new insert_absent BTreeMap.insert BTreeMap.get
half_raced =
    let m0 = move start 0 (omega arith) (miss refl) in
    let m1 = move m0 1 (omega arith) (miss refl) in
    let m2 = move m1 0 (omega arith) offer in
    let m3 = move m2 1 (omega arith) offer in
    let m4 = move m3 0 (omega arith) load in
    let m5 = move m4 1 (omega arith) load in (_, move m5 0 (omega arith) (win refl))

-- The second loses once before it wins.
second_half :
    (t : System btree_skip_map) × Leads btree_skip_map 2 jobs half_raced.0 t
    × ((i : ℕ) → i < 2 → IsDone (t.pc i))
unfolding half_raced new insert_absent BTreeMap.insert BTreeMap.get
second_half = (
  _,
  go (go Leads.here (pick 1 (omega arith) lose)) (pick 1 (omega arith) (win refl)),
  two_threads _ tt tt,
)

raced : (t : System btree_skip_map) × Reached t × ((i : ℕ) → i < 2 → IsDone (t.pc i))
raced = (second_half.0, Reach-Leads btree_skip_map 2 jobs half_raced.1 second_half.1, second_half.2)

linearizable_example :
    (older newer : List ℕ) × Explains btree_skip_map 2 jobs half_raced.0.registry half_raced.0.pc
      older
    × Explains btree_skip_map 2 jobs second_half.0.registry second_half.0.pc (newer ++ older)
    × (snapshot btree_skip_map second_half.0.registry
        ≡ snapshot btree_skip_map (replayed btree_skip_map jobs (newer ++ older)))
linearizable_example = linearizable btree_skip_map 2 jobs half_raced.1 second_half.1 second_half.2

no_delta_lost_example : unwrap_or (get btree_skip_map raced.0.registry 7) 0 ≡ 7
no_delta_lost_example = no_delta_lost btree_skip_map 2 jobs raced.1 raced.2 7

all_can_return_example :
    (t : System btree_skip_map) × Leads btree_skip_map 2 jobs (init btree_skip_map) t
    × ((i : ℕ) → i < 2 → IsDone (t.pc i))
all_can_return_example = all_can_return btree_skip_map 2 jobs (init btree_skip_map)

abbrev one_entry : AmalgafyRegistry btree_skip_map
one_entry = (add_micro_joules btree_skip_map (new btree_skip_map) 7 40).0

total-requested_example : total_micro_joules btree_skip_map raced.0.registry ≡ 7
total-requested_example = total-requested btree_skip_map 2 jobs raced.1 raced.2

evicted_delta_example :
    let (removed, final) = remove btree_skip_map one_entry 7 in
    (final ≡ some 40)
    × Move btree_skip_map removed (jobs 0) (holding 0) removed (loaded 0 40)
    × Move btree_skip_map removed
        (jobs 0)
        (loaded 0 40)
        (stored btree_skip_map removed 0 43)
        (done 43)
    × (get btree_skip_map (stored btree_skip_map removed 0 43) 7 ≡ none)
unfolding new remove get add_micro_joules add_cold saturating_add_cell insert_absent BTreeMap.insert
    BTreeMap.get
evicted_delta_example = evicted_delta btree_skip_map one_entry (jobs 0) 0 refl
