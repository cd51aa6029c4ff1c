-- ===== src/Registry/Total.antt =====
-- The registry of src/core/registry.rs against an ordered map, and its total.
use micro_joule_attribution.Base.{
  ℕ, ◌+◌, ◌≡◌, refl, ◌≤◌, ◌∙◌, ap, sym, suc, none, some, arith, if◌then◌else◌, ◌==◌, saturating_add,
  u64_max, clamp_u64, map, List, [], ◌∷◌, length, length-map, length,
}
use micro_joule_attribution.Base.Results.{unwrap_or}
use micro_joule_attribution.Base.BTreeMap
use micro_joule_attribution.Base.BTreeMap.{
  BTreeMap, AscendsFrom, IsAscending, insert, BTreeMap-ext, get-insert, insert-AscendsFrom,
  get_below, remove-AscendsFrom,
}
use micro_joule_attribution.Registry.Table.{SkipMap}
use micro_joule_attribution.Registry.{
  AmalgafyRegistry, new, add_micro_joules, get, remove, snapshot, len, is_empty, total_from,
  total_micro_joules, saturating_add_value,
}
use micro_joule_attribution.Registry.Laws.{
  IsValid, new-IsValid, add-IsValid, remove-IsValid, grown, get-add, get-remove, snapshot-get,
}

-- The sum of the totals of a map.
abbrev pub total_of : BTreeMap ℕ → ℕ
total_of [] = 0
total_of ((k, v) ∷ m) = v + total_of m

pub total_of-insert :
    (lo k v : ℕ) (m : BTreeMap ℕ)
    → AscendsFrom lo m
    → total_of (insert k v m) + unwrap_or (BTreeMap.get m k) 0 ≡ total_of m + v
unfolding insert BTreeMap.get
total_of-insert lo k v [] a = omega arith
total_of-insert lo k v ((j, w) ∷ m) a =
    ground (arith, total_of-insert (suc j) k v m a.1, get_below (suc j) k m a.1)

get-le-total_of : (m : BTreeMap ℕ) (k : ℕ) → unwrap_or (BTreeMap.get m k) 0 ≤ total_of m
unfolding BTreeMap.get
get-le-total_of [] k = omega arith
get-le-total_of ((j, v) ∷ m) k = ground (arith, get-le-total_of m k)

-- An operation on the registry, and what it does to the ordered map that the registry stands for.
pub data Call : Type 0 where
  adds : ℕ → ℕ → Call
  removes : ℕ → Call

abbrev pub apply_map : BTreeMap ℕ → Call → BTreeMap ℕ
apply_map m (adds pid delta) =
    insert pid (saturating_add (unwrap_or (BTreeMap.get m pid) 0) delta) m
apply_map m (removes pid) = BTreeMap.remove pid m

abbrev pub run_map : BTreeMap ℕ → List Call → BTreeMap ℕ
run_map m [] = m
run_map m (c ∷ cs) = run_map (apply_map m c) cs

module _ (S : SkipMap) where
  abbrev pub apply : AmalgafyRegistry S → Call → AmalgafyRegistry S
  apply r (adds pid delta) = (add_micro_joules S r pid delta).0
  apply r (removes pid) = (remove S r pid).0

  abbrev pub run : AmalgafyRegistry S → List Call → AmalgafyRegistry S
  run r [] = r
  run r (c ∷ cs) = run (apply r c) cs

  -- An addition or a removal keeps a registry well formed: every entry has a cell that was
  -- allocated, and no two PIDs share one.
  pub apply-IsValid : (r : AmalgafyRegistry S) (c : Call) → IsValid S r → IsValid S (apply r c)
  apply-IsValid r (adds pid delta) v = add-IsValid S r pid delta v
  apply-IsValid r (removes pid) v = remove-IsValid S r pid v

  pub snapshot-ascends : (r : AmalgafyRegistry S) → IsAscending (snapshot S r)
  snapshot-ascends r = (snapshot-get S r).0

  pub get-snapshot : (r : AmalgafyRegistry S) (j : ℕ) → BTreeMap.get (snapshot S r) j ≡ get S r j
  get-snapshot r = (snapshot-get S r).1

  pub snapshot-add :
      (r : AmalgafyRegistry S) (pid delta : ℕ)
      → IsValid S r
      → snapshot S (add_micro_joules S r pid delta).0
        ≡ insert pid (grown S (get S r pid) delta) (snapshot S r)
  snapshot-add r pid delta v =
      BTreeMap-ext 0 0 _ _ (snapshot-ascends _)
        (insert-AscendsFrom 0 pid _ (snapshot S r) (omega arith) (snapshot-ascends r))
        λ j.
          rw (get-snapshot (add_micro_joules S r pid delta).0 j, (get-add S r pid delta j v).0)
            (sym (
              get-insert pid (grown S (get S r pid) delta) (snapshot S r) j
              ∙ ap (λ o. if pid == j then some (grown S (get S r pid) delta) else o)
                  (get-snapshot r j)))

  pub snapshot-remove :
      (r : AmalgafyRegistry S) (pid : ℕ)
      → snapshot S (remove S r pid).0 ≡ BTreeMap.remove pid (snapshot S r)
  snapshot-remove r pid =
      BTreeMap-ext 0 0 _ _ (snapshot-ascends _)
        (remove-AscendsFrom 0 pid (snapshot S r) (snapshot-ascends r))
        λ j.
          rw (get-snapshot (remove S r pid).0 j, (get-remove S r pid j).0)
            (sym (
              BTreeMap.get-remove pid (snapshot S r) j (snapshot-ascends r)
              ∙ ap (λ o. if pid == j then none else o) (get-snapshot r j)))

  snapshot-apply :
      (r : AmalgafyRegistry S) (c : Call)
      → IsValid S r
      → snapshot S (apply r c) ≡ apply_map (snapshot S r) c
  snapshot-apply r (adds pid delta) v = rw (get-snapshot r pid) (snapshot-add r pid delta v)
  snapshot-apply r (removes pid) v = snapshot-remove r pid

  snapshot-run :
      (r : AmalgafyRegistry S) (cs : List Call)
      → IsValid S r
      → snapshot S (run r cs) ≡ run_map (snapshot S r) cs
  snapshot-run r [] v = refl
  snapshot-run r (c ∷ cs) v =
      snapshot-run (apply r c) cs (apply-IsValid r c v)
      ∙ ap (λ m. run_map m cs) (snapshot-apply r c v)

  pub get-new : (j : ℕ) → get S (new S) j ≡ none
  unfolding get new
  get-new j = ground (arith, S.get-empty j)

  pub snapshot-new : snapshot S (new S) ≡ []
  unfolding BTreeMap.get
  snapshot-new =
      BTreeMap-ext 0 0 _ _ (snapshot-ascends (new S)) tt λ j. get-snapshot (new S) j ∙ get-new j

  -- After any sequence of additions and removals on a new registry, the snapshot is the ordered
  -- map that the same sequence gives from the empty map.
  pub run-new-snapshot : (cs : List Call) → snapshot S (run (new S) cs) ≡ run_map [] cs
  run-new-snapshot cs =
      snapshot-run (new S) cs (new-IsValid S) ∙ ap (λ m. run_map m cs) snapshot-new

  total_from-eq :
      (r : AmalgafyRegistry S) (total : ℕ) (m : BTreeMap ℕ)
      → total ≤ u64_max
      → total_from S r total m ≡ clamp_u64 (total + total_of (map (λ (k, c). (k, r.cells c)) m))
  unfolding total_from saturating_add_value
  total_from-eq r total [] h = omega arith
  total_from-eq r total ((k, c) ∷ m) h =
      total_from-eq r (saturating_add total (r.cells c)) m (omega arith) ∙ omega arith

  -- The total is the sum over the snapshot, clamped at the largest u64, and the length and the
  -- emptiness test count the entries of the snapshot.
  pub total-snapshot :
      (r : AmalgafyRegistry S)
      → (total_micro_joules S r ≡ clamp_u64 (total_of (snapshot S r)))
        × (len S r ≡ length (snapshot S r))
        × (is_empty S r ≡ (length (snapshot S r) == 0))
  unfolding total_micro_joules snapshot len is_empty
  total-snapshot r = (
    total_from-eq r 0 (S.iter r.table) (omega arith) ∙ omega arith,
    S.len-iter r.table ∙ sym (length-map _ (S.iter r.table)),
    S.is_empty-len r.table
        ∙ ap (λ n. n == 0) (S.len-iter r.table ∙ sym (length-map _ (S.iter r.table))),
  )

  total_of-add :
      (r : AmalgafyRegistry S) (pid delta : ℕ)
      → IsValid S r
      → total_of (snapshot S (add_micro_joules S r pid delta).0) + unwrap_or (get S r pid) 0
        ≡ total_of (snapshot S r) + grown S (get S r pid) delta
  total_of-add r pid delta v =
      rw (snapshot-add r pid delta v, ← get-snapshot r pid)
        (total_of-insert 0 pid _ (snapshot S r) (snapshot-ascends r))

  get-le-total :
      (r : AmalgafyRegistry S) (pid : ℕ) → unwrap_or (get S r pid) 0 ≤ total_of (snapshot S r)
  get-le-total r pid = rw (← get-snapshot r pid) (get-le-total_of (snapshot S r) pid)

  -- An addition to a well-formed registry raises its total by exactly `delta`, up to the largest
  -- u64, whether the PID was tracked or not; what it returns is at most that total.
  pub total-add :
      (r : AmalgafyRegistry S) (pid delta : ℕ)
      → IsValid S r
      → (total_micro_joules S (add_micro_joules S r pid delta).0
          ≡ saturating_add (total_micro_joules S r) delta)
        × ((add_micro_joules S r pid delta).1
            ≤ total_micro_joules S (add_micro_joules S r pid delta).0)
  total-add r pid delta v =
      let before = (total-snapshot r).0 in
      let after = (total-snapshot (add_micro_joules S r pid delta).0).0 in
      let grows = total_of-add r pid delta v in
      let returned = (get-add S r pid delta pid v).1 in
      let part = get-le-total r pid in (omega arith, omega arith)

  pub total-le : (r : AmalgafyRegistry S) → total_micro_joules S r ≤ u64_max
  total-le r = omega (arith, (total-snapshot r).0)
