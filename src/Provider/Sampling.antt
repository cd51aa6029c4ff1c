-- ===== src/Provider/Sampling.antt =====
-- The sampling loop of src/core/provider.rs: one round for each reading, in order.
pub mod Split
pub mod Ledger
use micro_joule_attribution.Base.{
  ℕ, zero, suc, ◌+◌, ◌-◌, ◌/◌, List, [], ◌∷◌, Option, none, some, ltb, if◌then◌else◌, length,
  saturating_add, saturating_mul, saturating_sub,
}
use micro_joule_attribution.Base.Results.{Result, ok, err, Error}
use micro_joule_attribution.Attribution.{baseline_burst_power_uw, window_energy_uj}
use micro_joule_attribution.Registry.Table.{SkipMap}
use micro_joule_attribution.Registry.{AmalgafyRegistry, add_micro_joules}
use micro_joule_attribution.Provider.{PowerSnapshot, EnergyProvider}

-- The energy between two snapshots, at the power of the later one.
unfoldable pub delta_between : PowerSnapshot → PowerSnapshot → ℕ
delta_between prev snapshot =
    let dt_ns = saturating_sub snapshot.observed_at_ns prev.observed_at_ns in
    let burst_power_uw = baseline_burst_power_uw snapshot.active_power_uw snapshot.idle_power_uw in
    window_energy_uj burst_power_uw dt_ns

module _ (S : SkipMap) where
  -- The `for` over the active PIDs.
  unfoldable pub credit_pids : AmalgafyRegistry S → ℕ → ℕ → List ℕ → AmalgafyRegistry S
  credit_pids registry share remainder [] = registry
  credit_pids registry share remainder (pid ∷ pids) =
      let extra = if ltb 0 remainder then 1 else 0 in
      credit_pids (add_micro_joules S registry pid (share + extra)).0 share (remainder - extra) pids

  unfoldable pub split_delta : AmalgafyRegistry S → List ℕ → ℕ → AmalgafyRegistry S
  split_delta registry [] delta_uj = (add_micro_joules S registry 0 delta_uj).0
  split_delta registry (pid ∷ pids) delta_uj =
      let num_pids = length (pid ∷ pids) in
      let share = delta_uj / num_pids in
      let remainder = delta_uj - saturating_mul share num_pids in
      credit_pids registry share remainder (pid ∷ pids)

module _ (S : SkipMap) (E : EnergyProvider S) where
  pub record Sampler : Type 0 where
    pub provider : E.Provider
    pub registry : AmalgafyRegistry S
    pub previous_snapshot : Option PowerSnapshot
    pub cumulative_delta_uj : ℕ

  -- A round after a sample that succeeded.
  unfoldable pub absorb : Sampler → PowerSnapshot → Sampler
  absorb s snapshot = elim s.previous_snapshot [
    | some prev ↦
        let delta_uj = delta_between prev snapshot in
        record s {
          registry = split_delta S s.registry (E.active_pids s.provider) delta_uj;
          previous_snapshot = some snapshot;
          cumulative_delta_uj = saturating_add s.cumulative_delta_uj delta_uj;
        }
    | none ↦ record s { previous_snapshot = some snapshot }
  ]

  unfoldable pub settle : Sampler → Result PowerSnapshot Error → Sampler
  settle s (ok snapshot) = absorb s snapshot
  settle s (err e) = record s { previous_snapshot = none }

  unfoldable pub tick : Sampler → E.Reading → Sampler
  unfolding settle
  tick s reading =
      let (provider, sample) = E.sample_power_state s.provider reading in
      settle (record s { provider = provider }) sample

  unfoldable pub start_sampling_loop : Sampler → List E.Reading → Sampler
  start_sampling_loop s [] = s
  start_sampling_loop s (reading ∷ readings) = start_sampling_loop (tick s reading) readings

  -- The loop starts with no snapshot and nothing counted.
  abbrev pub initial : E.Provider → AmalgafyRegistry S → Sampler
  initial provider registry = record {
    provider = provider;
    registry = registry;
    previous_snapshot = none;
    cumulative_delta_uj = 0;
  }
