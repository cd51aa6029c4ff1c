-- ===== src/Tests/Removals.antt =====
-- A removal between the shared accesses of a call, and a call that starts after it.
use micro_joule_attribution.Base.{ℕ, ◌+◌, ◌*◌, ◌≤◌, ◌<◌, ◌≡◌, refl, arith, update}
use micro_joule_attribution.Base.BTreeMap
use micro_joule_attribution.Registry.{AmalgafyRegistry, new}
use micro_joule_attribution.Registry.Race.{Job, Pc, Move, miss, offer, load, win}
use micro_joule_attribution.Registry.Race.Counting.{credited}
use micro_joule_attribution.Registry.Race.Removal.{
  Churning, Churned, moves, unlinks, returns, at_first, and_then, first,
}
use micro_joule_attribution.Registry.Race.Removal.Readers.{kept}
use micro_joule_attribution.Registry.Race.Removal.Ledger.{lost, cut, kept-credited}
use micro_joule_attribution.Registry.Race.Removal.Potential.{accesses, spurious, accesses-le}
use micro_joule_attribution.Tests.Tables.{btree_skip_map, insert_absent}

abbrev jobs : ℕ → Job
jobs i = record { pid = 7; delta_uj = i + 3 }

abbrev Reached : Churning btree_skip_map → Type 0
Reached = Churned btree_skip_map 2 jobs

move :
    {s : Churning btree_skip_map} {r : AmalgafyRegistry btree_skip_map} {p : Pc}
    → Reached s
    → (i : ℕ) → i < 2
    → Move btree_skip_map s.registry (jobs i) (s.pc i) r p
    → Reached (record s { registry = r; pc = update s.pc i p })
move reached i lt m = and_then reached (moves i lt m)

-- The cell of the first call leaves the table before the call wins, and is loaded after that; the
-- second call makes a new entry, which a second removal takes out.
churned : (t : Churning btree_skip_map) × Reached t
unfolding new insert_absent BTreeMap.insert BTreeMap.get BTreeMap.remove
churned =
    let m0 = move at_first 0 (omega arith) (miss refl) in
    let m1 = move m0 0 (omega arith) offer in
    let m2 = move m1 0 (omega arith) load in
    let m3 = and_then m2 (unlinks 7 refl) in
    let m4 = move m3 0 (omega arith) (win refl) in
    let m5 = and_then m4 (returns first) in
    let m6 = move m5 1 (omega arith) (miss refl) in
    let m7 = move m6 1 (omega arith) offer in
    let m8 = move m7 1 (omega arith) load in
    let m9 = move m8 1 (omega arith) (win refl) in (_, and_then m9 (unlinks 7 refl))

three_returned : churned.0.returned 7 ≡ 3
unfolding churned new insert_absent BTreeMap.insert BTreeMap.get BTreeMap.remove
three_returned = refl

-- The cell of the first call leaves the table and is loaded before the call wins: its delta is lost.
orphaned : (t : Churning btree_skip_map) × Reached t
unfolding new insert_absent BTreeMap.insert BTreeMap.get BTreeMap.remove
orphaned =
    let m0 = move at_first 0 (omega arith) (miss refl) in
    let m1 = move m0 0 (omega arith) offer in
    let m2 = move m1 0 (omega arith) load in
    let m3 = and_then m2 (unlinks 7 refl) in
    let m4 = and_then m3 (returns first) in (_, move m4 0 (omega arith) (win refl))

three_lost : lost btree_skip_map 2 jobs 7 orphaned.1 ≡ 3
unfolding orphaned move new insert_absent BTreeMap.insert BTreeMap.get BTreeMap.remove
three_lost = refl

kept-credited_example :
    kept btree_skip_map 2 jobs orphaned.0 7
      + (lost btree_skip_map 2 jobs 7 orphaned.1 + cut btree_skip_map 2 jobs 7 orphaned.1)
    ≡ credited jobs 2 orphaned.0.pc 7
kept-credited_example = kept-credited btree_skip_map 2 jobs orphaned.1 7

accesses-le_example :
    accesses btree_skip_map 2 jobs churned.1
    ≤ 2 * (2 + 3) + spurious btree_skip_map 2 jobs churned.1
accesses-le_example = accesses-le btree_skip_map 2 jobs churned.1
