-- ===== src/Registry.antt =====
-- src/core/registry.rs: the registry of cumulative micro-joules by PID. The table maps a PID to the
-- address of its `AtomicU64`; `cells` is the memory behind the addresses and `next` the address of
-- the next allocation, so an entry that has left the table still has its cell.
pub mod Table
pub mod Cell
pub mod Laws
pub mod Total
pub mod Race
use Table.{SkipMap}
use micro_joule_attribution.Base.{
  ℕ, zero, suc, List, [], ◌∷◌, Bool, Option, none, some, map, update, u64_max, saturating_add,
}
use micro_joule_attribution.Base.Results.{map_option}
use micro_joule_attribution.Base.BTreeMap.{BTreeMap}

-- A load, the addition, and the exchange that stores the sum, with no other thread between them.
unfoldable pub saturating_add_cell : (ℕ → ℕ) → ℕ → ℕ → (ℕ → ℕ) × ℕ
saturating_add_cell cells cell delta =
    let next = saturating_add (cells cell) delta in (update cells cell next, next)

unfoldable pub saturating_add_value : ℕ → ℕ → ℕ
saturating_add_value lhs rhs = saturating_add lhs rhs

module _ (S : SkipMap) where
  pub record AmalgafyRegistry : Type 0 where
    pub table : S.Table
    pub cells : ℕ → ℕ
    pub next : ℕ

  unfoldable pub new : AmalgafyRegistry
  new = record { table = S.empty; cells = λ _. 0; next = 0 }

  -- The static that holds the process-wide registry, `none` until it is first asked for.
  unfoldable pub global_registry :
      Option AmalgafyRegistry → Option AmalgafyRegistry × AmalgafyRegistry
  unfolding new
  global_registry none = (some new, new)
  global_registry (some registry) = (some registry, registry)

  -- The cold path: a fresh cell that holds zero is offered to the table.
  unfoldable pub add_cold : AmalgafyRegistry → ℕ → ℕ → AmalgafyRegistry × ℕ
  add_cold r pid delta_uj =
      let (table, cell) = S.get_or_insert r.table pid r.next in
      let (cells, total) = saturating_add_cell (update r.cells r.next 0) cell delta_uj in
      (record { table = table; cells = cells; next = suc r.next }, total)

  unfoldable pub add_hot : AmalgafyRegistry → ℕ → ℕ → AmalgafyRegistry × ℕ
  add_hot r cell delta_uj =
      let (cells, total) = saturating_add_cell r.cells cell delta_uj in
      (record r { cells = cells }, total)

  unfoldable pub add_micro_joules : AmalgafyRegistry → ℕ → ℕ → AmalgafyRegistry × ℕ
  unfolding add_hot
  add_micro_joules r pid delta_uj = elim (S.get r.table pid) [
    | some cell ↦ add_hot r cell delta_uj
    | none ↦ add_cold r pid delta_uj
  ]

  unfoldable pub get : AmalgafyRegistry → ℕ → Option ℕ
  get r pid = map_option r.cells (S.get r.table pid)

  unfoldable pub remove : AmalgafyRegistry → ℕ → AmalgafyRegistry × Option ℕ
  remove r pid =
      let (table, entry) = S.remove r.table pid in
      (record r { table = table }, map_option r.cells entry)

  unfoldable pub len : AmalgafyRegistry → ℕ
  len r = S.len r.table

  unfoldable pub is_empty : AmalgafyRegistry → Bool
  is_empty r = S.is_empty r.table

  unfoldable pub total_from : AmalgafyRegistry → ℕ → List (ℕ × ℕ) → ℕ
  total_from r total [] = total
  total_from r total ((pid, cell) ∷ entries) =
      total_from r (saturating_add_value total (r.cells cell)) entries

  unfoldable pub total_micro_joules : AmalgafyRegistry → ℕ
  unfolding total_from saturating_add_value
  total_micro_joules r = total_from r 0 (S.iter r.table)

  unfoldable pub snapshot : AmalgafyRegistry → BTreeMap ℕ
  snapshot r = map (λ (pid, cell). (pid, r.cells cell)) (S.iter r.table)
