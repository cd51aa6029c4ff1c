-- ===== src/Registry/Race/Eviction.antt =====
-- `remove` of src/core/registry.rs while a call of `add_micro_joules` is under way.
use micro_joule_attribution.Base.{ℕ, ◌≡◌, refl, none, some, arith, saturating_add}
use micro_joule_attribution.Registry.Table.{SkipMap}
use micro_joule_attribution.Registry.{AmalgafyRegistry, get, remove}
use micro_joule_attribution.Registry.Race.{Job, holding, loaded, done, Move, load, win, stored}

module _ (S : SkipMap) where
  -- The entry of a PID is removed while a call of `add_micro_joules` holds its cell. The call
  -- still completes and returns the grown total, but `remove` has reported the total without the
  -- delta, and the PID is not tracked afterwards.
  pub evicted_delta :
      (r : AmalgafyRegistry S) (job : Job) (c : ℕ)
      → S.get r.table job.pid ≡ some c
      → let (removed, final) = remove S r job.pid in
        let total = saturating_add (r.cells c) job.delta_uj in
        (final ≡ some (r.cells c))
        × Move S removed job (holding c) removed (loaded c (r.cells c))
        × Move S removed job (loaded c (r.cells c)) (stored S removed c total) (done total)
        × (get S (stored S removed c total) job.pid ≡ none)
  unfolding remove get
  evicted_delta r job c e = (
    ground (arith, S.remove_entry r.table job.pid),
    load,
    win refl,
    ground (arith, S.get-remove r.table job.pid job.pid),
  )
