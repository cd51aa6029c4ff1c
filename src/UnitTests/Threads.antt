-- ===== src/UnitTests/Threads.antt =====
-- The unit test of src/core/registry.rs that runs in many threads: 16 threads of 200 rounds. Every
-- addition is a call of its own, so there are more interleavings here than the barrier of the test lets
-- through.
use micro_joule_attribution.Base.{
  ℕ, zero, suc, ◌+◌, ◌-◌, ◌*◌, ◌/◌, ◌<◌, ◌≡◌, ◌∙◌, refl, ap, arith, ◌≤◌, Option, none, some, min,
  clamp_u64, sum_below,
}
use micro_joule_attribution.Base.Results.{unwrap_or}
use micro_joule_attribution.Registry.Table.{SkipMap}
use micro_joule_attribution.Registry.{get, total_micro_joules}
use micro_joule_attribution.Registry.Race.{Job, System, Reach}
use micro_joule_attribution.Registry.Race.Counting.{IsDone, requested}
use micro_joule_attribution.Registry.Race.Invariant.{no_delta_lost}
use micro_joule_attribution.Registry.Race.Whole.{total-requested}

abbrev threads : ℕ
threads = 16

abbrev iterations : ℕ
iterations = 200

-- The additions of a round are 16 calls in a row.
abbrev racing : ℕ → Job
racing j = record { pid = j / threads * 1_000 + 1; delta_uj = 1 }

-- A round is full, or it has as many additions as are left for it.
requested-racing : (n i : ℕ) → requested racing n (i * 1_000 + 1) ≡ min (n - threads * i) threads
requested-racing zero i = omega arith
requested-racing (suc n) i = ground (arith, requested-racing n i)

ones : (n : ℕ) → sum_below n (λ j. (racing j).delta_uj) ≡ n
ones zero = refl
ones (suc n) = omega (arith, ones n)

ones_fit : (n : ℕ) → n ≤ 1_000_000 → clamp_u64 (sum_below n (λ j. (racing j).delta_uj)) ≡ n
ones_fit n h = omega (arith, ones n)

full_round :
    (n i : ℕ)
    → i < iterations
    → n ≡ threads * iterations
    → clamp_u64 (requested racing n (i * 1_000 + 1)) ≡ threads
full_round n i lt h = omega (arith, requested-racing n i)

some_of_unwrap_or : (o : Option ℕ) (v : ℕ) → unwrap_or o 0 ≡ suc v → o ≡ some (suc v)
some_of_unwrap_or none v h = absurd (omega arith)
some_of_unwrap_or (some w) v h = ap some h

few : threads * iterations ≤ 1_000_000
few = omega arith

module _ (S : SkipMap) where
  abbrev ConcurrentFirstInsertDoesNotLoseDeltas : System S → Type 0
  ConcurrentFirstInsertDoesNotLoseDeltas s =
      (total_micro_joules S s.registry ≡ threads * iterations)
      × ((i : ℕ) → i < iterations → get S s.registry (i * 1_000 + 1) ≡ some threads)

  concurrent_first_insert_does_not_lose_deltas :
      {s : System S}
      → Reach S (threads * iterations) racing s
      → ((i : ℕ) → i < threads * iterations → IsDone (s.pc i))
      → ConcurrentFirstInsertDoesNotLoseDeltas s
  concurrent_first_insert_does_not_lose_deltas {s} r all = (
    total-requested S (threads * iterations) racing r all ∙ ones_fit (threads * iterations) few,
    λ i lt. some_of_unwrap_or (get S s.registry (i * 1_000 + 1)) 15 (
        no_delta_lost S (threads * iterations) racing r all (i * 1_000 + 1)
        ∙ full_round (threads * iterations) i lt refl),
  )
