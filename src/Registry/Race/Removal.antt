-- ===== src/Registry/Race/Removal.antt =====
-- Concurrent calls of `add_micro_joules` of src/core/registry.rs with concurrent calls of `remove`. A
-- removal makes two shared accesses: the entry leaves the table, and later its cell is loaded.
pub mod Pending
pub mod Ties
pub mod Preservation
pub mod Potential
pub mod Readers
pub mod Ledger
use micro_joule_attribution.Base.{
  ℕ, ◌+◌, ◌<◌, ◌≡◌, List, [], ◌∷◌, some, if◌then◌else◌, ◌==◌, update,
}
use micro_joule_attribution.Registry.Table.{SkipMap}
use micro_joule_attribution.Registry.{AmalgafyRegistry, new}
use micro_joule_attribution.Registry.Race.{Job, Pc, idle, Move}

-- A removal that has not loaded the cell yet: its PID and the cell.
abbrev pub Unlinked : Type 0
Unlinked = ℕ × ℕ

-- One element of a list, and the others.
pub data Takes (e : Unlinked) : List Unlinked → List Unlinked → Type 0 where
  first : {l : List Unlinked} → Takes e (e ∷ l) l
  behind : {d : Unlinked} {l m : List Unlinked} → Takes e l m → Takes e (d ∷ l) (d ∷ m)

module _ (S : SkipMap) where
  -- The registry, the calls, the removals under way, and the sum of what the removals have returned
  -- for each PID.
  pub record Churning : Type 0 where
    pub registry : AmalgafyRegistry S
    pub pc : ℕ → Pc
    pub pending : List Unlinked
    pub returned : ℕ → ℕ

  abbrev pub unlinked : AmalgafyRegistry S → ℕ → AmalgafyRegistry S
  unlinked r pid = record r { table = (S.remove r.table pid).0 }

  -- A call moves, or an entry is removed and returned as a cell, or the cell of a removal is loaded and
  -- its value returned. A removal that finds no entry changes nothing.
  pub data Churn (n : ℕ) (jobs : ℕ → Job) (s : Churning) : Churning → Type 0 where
    moves :
        (i : ℕ) {r : AmalgafyRegistry S} {p : Pc}
        → i < n
        → Move S s.registry (jobs i) (s.pc i) r p
        → Churn n jobs s (record s { registry = r; pc = update s.pc i p })
    unlinks :
        (pid : ℕ) {c : ℕ}
        → (S.remove s.registry.table pid).1 ≡ some c
        → Churn n jobs s
            (record s { registry = unlinked s.registry pid; pending = (pid, c) ∷ s.pending })
    returns :
        {pid c : ℕ} {rest : List Unlinked}
        → Takes (pid, c) s.pending rest
        → Churn n jobs s (record s {
          pending = rest;
          returned = update s.returned pid (s.returned pid + s.registry.cells c);
        })

  pub data Churned (n : ℕ) (jobs : ℕ → Job) : Churning → Type 0 where
    at_first :
        Churned n jobs
          (record { registry = new S; pc = λ _. idle; pending = []; returned = λ _. 0 })
    and_then : {s t : Churning} → Churned n jobs s → Churn n jobs s t → Churned n jobs t
