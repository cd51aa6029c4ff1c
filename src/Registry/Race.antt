-- ===== src/Registry/Race.antt =====
-- Concurrent calls of `add_micro_joules` in src/core/registry.rs, one shared access at a time. Each
-- call is a thread of its own, with its PID and its delta; the threads are interleaved in any order.
pub mod Counting
pub mod Invariant
pub mod Progress
pub mod Eviction
pub mod Replay
pub mod Entries
pub mod Linear
pub mod Whole
pub mod Removal
use micro_joule_attribution.Base.{
  ℕ, suc, ◌<◌, ◌≡◌, none, some, if◌then◌else◌, ◌==◌, update, saturating_add,
}
use micro_joule_attribution.Registry.Table.{SkipMap}
use micro_joule_attribution.Registry.{AmalgafyRegistry, new}

pub record Job : Type 0 where
  pub pid : ℕ
  pub delta_uj : ℕ

-- Where a call stands, with the local variables that are live there.
pub data Pc : Type 0 where
  idle : Pc  -- before the first look-up
  missed : Pc  -- on the cold path, before `get_or_insert`
  holding : (cell : ℕ) → Pc  -- at the start of `saturating_add`
  loaded : (cell current : ℕ) → Pc  -- at the head of its loop
  done : (total : ℕ) → Pc  -- returned `total`

module _ (S : SkipMap) where
  -- `get_or_insert` with a freshly allocated cell that holds zero.
  abbrev pub offered : AmalgafyRegistry S → ℕ → AmalgafyRegistry S
  offered r pid = record {
    table = (S.get_or_insert r.table pid r.next).0;
    cells = update r.cells r.next 0;
    next = suc r.next;
  }

  abbrev pub stored : AmalgafyRegistry S → ℕ → ℕ → AmalgafyRegistry S
  stored r cell total = record r { cells = update r.cells cell total }

  -- A failed exchange reports what the cell holds; it may fail spuriously, so no premise is asked.
  pub data Move (r : AmalgafyRegistry S) (job : Job) : Pc → AmalgafyRegistry S → Pc → Type 0 where
    hit : {c : ℕ} → S.get r.table job.pid ≡ some c → Move r job idle r (holding c)
    miss : S.get r.table job.pid ≡ none → Move r job idle r missed
    offer :
        Move r job missed (offered r job.pid) (holding ((S.get_or_insert r.table job.pid r.next).1))
    load : {c : ℕ} → Move r job (holding c) r (loaded c (r.cells c))
    win :
        {c current : ℕ}
        → r.cells c ≡ current
        → Move r job
            (loaded c current)
            (stored r c (saturating_add current job.delta_uj))
            (done (saturating_add current job.delta_uj))
    lose : {c current : ℕ} → Move r job (loaded c current) r (loaded c (r.cells c))

  pub record System : Type 0 where
    pub registry : AmalgafyRegistry S
    pub pc : ℕ → Pc

  -- One of the first `n` threads moves.
  pub data Step (n : ℕ) (jobs : ℕ → Job) (s : System) : System → Type 0 where
    pick :
        (i : ℕ) {r : AmalgafyRegistry S} {p : Pc}
        → i < n
        → Move s.registry (jobs i) (s.pc i) r p
        → Step n jobs s (record { registry = r; pc = update s.pc i p })

  abbrev pub init : System
  init = record { registry = new S; pc = λ _. Pc.idle }

  pub data Reach (n : ℕ) (jobs : ℕ → Job) : System → Type 0 where
    start : Reach n jobs init
    later : {s t : System} → Reach n jobs s → Step n jobs s t → Reach n jobs t

  -- A row of moves from one state to another.
  pub data Leads (n : ℕ) (jobs : ℕ → Job) (s : System) : System → Type 0 where
    here : Leads n jobs s s
    go : {t u : System} → Leads n jobs s t → Step n jobs t u → Leads n jobs s u
