-- ===== src/Registry/Race/Counting.antt =====
-- What the calls of `add_micro_joules` (src/core/registry.rs) that have returned ask for a PID.
use micro_joule_attribution.Base.{
  ℕ, zero, suc, ◌+◌, ◌≤◌, ◌<◌, ◌≡◌, refl, arith, if◌then◌else◌, ◌==◌, update, dec_lt,
}
use micro_joule_attribution.Registry.Race.{Job, Pc, idle, missed, holding, loaded, done}

-- The part of a job that counts for the PID `k`.
abbrev pub share : Job → ℕ → ℕ
share job k = if job.pid == k then job.delta_uj else 0

abbrev pub credit : Job → Pc → ℕ → ℕ
credit job (done _) k = share job k
credit job _ k = 0

abbrev pub credited : (ℕ → Job) → ℕ → (ℕ → Pc) → ℕ → ℕ
credited jobs zero pc k = 0
credited jobs (suc n) pc k = credited jobs n pc k + credit (jobs n) (pc n) k

-- What all `n` jobs ask for the PID `k`.
abbrev pub requested : (ℕ → Job) → ℕ → ℕ → ℕ
requested jobs zero k = 0
requested jobs (suc n) k = requested jobs n k + share (jobs n) k

credited-update_of_le :
    (jobs : ℕ → Job) (n : ℕ) (pc : ℕ → Pc) (i : ℕ) (p : Pc) (k : ℕ)
    → n ≤ i
    → credited jobs n (update pc i p) k ≡ credited jobs n pc k
credited-update_of_le jobs zero pc i p k h = refl
credited-update_of_le jobs (suc n) pc i p k h =
    ground (arith, credited-update_of_le jobs n pc i p k)

pub credited-update :
    (jobs : ℕ → Job) (n : ℕ) (pc : ℕ → Pc) (i : ℕ) (p : Pc) (k : ℕ)
    → i < n
    → credited jobs n (update pc i p) k + credit (jobs i) (pc i) k
      ≡ credited jobs n pc k + credit (jobs i) p k
credited-update jobs zero pc i p k h = absurd (omega arith)
credited-update jobs (suc n) pc i p k h = elim (dec_lt i n) [
  | yes below ↦ ground (arith, credited-update jobs n pc i p k below)
  | no last ↦ ground (arith, credited-update_of_le jobs n pc i p k)
]

pub credited-init : (jobs : ℕ → Job) (n k : ℕ) → credited jobs n (λ _. idle) k ≡ 0
credited-init jobs zero k = refl
credited-init jobs (suc n) k = omega (arith, credited-init jobs n k)

abbrev pub IsDone : Pc → Type 0
IsDone (done _) = Unit {0}
IsDone _ = ⊥

credit_done : (job : Job) (p : Pc) (k : ℕ) → IsDone p → credit job p k ≡ share job k
credit_done job (done _) k d = refl
credit_done job idle k d = absurd d
credit_done job missed k d = absurd d
credit_done job (holding _) k d = absurd d
credit_done job (loaded _ _) k d = absurd d

pub credited_done :
    (jobs : ℕ → Job) (n : ℕ) (pc : ℕ → Pc) (k : ℕ)
    → ((i : ℕ) → i < n → IsDone (pc i))
    → credited jobs n pc k ≡ requested jobs n k
credited_done jobs zero pc k d = refl
credited_done jobs (suc n) pc k d =
    let rest = credited_done jobs n pc k (λ i h. d i (omega arith)) in
    let last = credit_done (jobs n) (pc n) k (d n (omega arith)) in omega arith
