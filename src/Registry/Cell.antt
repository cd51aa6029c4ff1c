-- ===== src/Registry/Cell.antt =====
-- The compare-and-swap loop of `saturating_add` in src/core/registry.rs.
use micro_joule_attribution.Base.{
  ℕ, ◌≡◌, List, [], ◌∷◌, Bool, true, false, Option, none, some, arith, if◌then◌else◌, ◌==◌, ◌||◌,
  update, saturating_add, not, ◌++◌,
}
use micro_joule_attribution.Base.Results.{Result, ok, err}
use micro_joule_attribution.Registry.{saturating_add_cell}

-- `compare_exchange_weak`, which may also fail where the cell holds `current`: `spurious`.
unfoldable pub compare_exchange_weak : Bool → (ℕ → ℕ) → ℕ → ℕ → ℕ → (ℕ → ℕ) × Result ℕ ℕ
compare_exchange_weak spurious cells cell current next =
    if spurious || not (cells cell == current)
    then (cells, err (cells cell))
    else (update cells cell next, ok current)

-- One round: `next` is computed from the value last seen.
attempt : Bool → (ℕ → ℕ) → ℕ → ℕ → ℕ → (ℕ → ℕ) × Result ℕ ℕ
unfolding compare_exchange_weak
attempt spurious cells cell delta current =
    compare_exchange_weak spurious cells cell current (saturating_add current delta)

-- The `loop`: for each round, whether the exchange fails spuriously. `none` if the rounds run out.
unfoldable pub saturating_add_loop : List Bool → (ℕ → ℕ) → ℕ → ℕ → ℕ → Option ((ℕ → ℕ) × ℕ)
unfolding attempt
saturating_add_loop [] cells cell delta current = none
saturating_add_loop (spurious ∷ rounds) cells cell delta current =
    let again = saturating_add_loop rounds cells cell delta in
    let (after, result) = attempt spurious cells cell delta current in
    elim result [
      | ok _ ↦ some (after, saturating_add current delta)
      | err observed ↦ again observed
    ]

-- Alone on its cell, and started from what the cell holds, the loop returns at the first exchange
-- that does not fail spuriously, with the cells and the sum that a single atomic step would give.
pub saturating_add_loop-returns :
    (failures rounds : List Bool) (cells : ℕ → ℕ) (cell delta : ℕ)
    → saturating_add_loop (failures ++ false ∷ rounds) cells cell delta (cells cell)
      ≡ some (saturating_add_cell cells cell delta)
unfolding saturating_add_loop saturating_add_cell
saturating_add_loop-returns [] rounds cells cell delta = ground (arith)
saturating_add_loop-returns (true ∷ failures) rounds cells cell delta =
    saturating_add_loop-returns failures rounds cells cell delta
saturating_add_loop-returns (false ∷ failures) rounds cells cell delta = ground arith
