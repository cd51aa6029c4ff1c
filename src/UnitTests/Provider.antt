-- ===== src/UnitTests/Provider.antt =====
-- The unit tests of src/core/provider.rs: a provider that is a ramp in time, under the sampling loop. The
-- virtual time of a test lets it make a known number of rounds.
use micro_joule_attribution.Base.{
  ℕ, ◌+◌, ◌*◌, ◌≤◌, ◌<◌, ◌≡◌, ◌∙◌, refl, sym, ap, arith, List, [], ◌∷◌, none, replicate, clamp_u64,
}
use micro_joule_attribution.Base.Texts.{Text, text}
use micro_joule_attribution.Base.Results.{Result, ok, Error, unwrap_or}
use micro_joule_attribution.Base.BTreeMap
use micro_joule_attribution.Base.BTreeMap.{BTreeMap}
use micro_joule_attribution.Attribution.{window_energy_uj, baseline_burst_power_uw}
use micro_joule_attribution.Registry.Table.{SkipMap}
use micro_joule_attribution.Registry.{AmalgafyRegistry, new, get, snapshot, total_micro_joules}
use micro_joule_attribution.Registry.Total.{
  Call, adds, run-new-snapshot, total-snapshot, get-snapshot, total_of,
}
use micro_joule_attribution.Provider.{
  PowerSnapshot, EnergyProvider, baseline_burst, default_sync_registry, sampling_loop_interval_ms,
}
use micro_joule_attribution.Provider.Sampling.{
  start_sampling_loop, initial, tick, settle, absorb, split_delta, credit_pids, delta_between,
}

record FakeProvider : Type 0 where
  sig : Text
  ticks : ℕ
  active_pids : List ℕ

abbrev new_fake : List ℕ → FakeProvider
new_fake active_pids = record { sig = text "FAKE-HW"; ticks = 0; active_pids = active_pids }

abbrev sample_fake : FakeProvider → FakeProvider × Result PowerSnapshot Error
sample_fake p = (
  record p { ticks = p.ticks + 1 },
  ok (record {
    observed_at_ns = (p.ticks + 1) * 100_000_000;
    idle_power_uw = 1_000_000;
    active_power_uw = 2_000_000;
    cpu_power_uw = 0;
    gpu_power_uw = 0;
    accelerator_power_uw = 0;
    hardware_signature = p.sig;
  }),
)

abbrev SamplingLoopConstantIsOneHundredMilliseconds : Type 0
SamplingLoopConstantIsOneHundredMilliseconds = ◌≡◌ {A = ℕ} sampling_loop_interval_ms 100

sampling_loop_constant_is_one_hundred_milliseconds : SamplingLoopConstantIsOneHundredMilliseconds
sampling_loop_constant_is_one_hundred_milliseconds = refl

module _ (S : SkipMap) where
  abbrev fake_provider : EnergyProvider S
  fake_provider = record {
    Provider = FakeProvider;
    Reading = Unit {0};
    sample_power_state = λ p _. sample_fake p;
    attribute_joules_to_pid =
        λ p pid start end snapshot. (p, ok (baseline_burst pid start end snapshot));
    sync_registry = default_sync_registry;
    hardware_signature = λ p. p.sig;
    active_pids = λ p. p.active_pids;
  }

  -- The registry after a number of rounds.
  abbrev registry_after : List ℕ → ℕ → AmalgafyRegistry S
  registry_after pids rounds =
      (start_sampling_loop S fake_provider (initial S fake_provider (new_fake pids) (new S))
        (replicate rounds tt)).registry

  -- The first round has no snapshot to compare with; each later one enters 100 mJ.
  abbrev SamplingLoopAccumulatesDeltaIntoActivePids : Type 0
  SamplingLoopAccumulatesDeltaIntoActivePids =
      let registry = registry_after (100 ∷ 200 ∷ []) 5 in
      (200_000 ≤ total_micro_joules S registry)
      × (0 < unwrap_or (get S registry 100) 0)
      × (0 < unwrap_or (get S registry 200) 0)
      × (get S registry 0 ≡ none)

  abbrev SamplingLoopBucketsToPidZeroWhenNoActivePids : Type 0
  SamplingLoopBucketsToPidZeroWhenNoActivePids = 0 < unwrap_or (get S (registry_after [] 3) 0) 0

  -- A round for two PIDs, as additions.
  abbrev both : List Call → List Call
  both calls = adds 100 50_000 ∷ adds 200 50_000 ∷ calls

  snapshot_shared :
      snapshot S (registry_after (100 ∷ 200 ∷ []) 5) ≡ (100, 200_000) ∷ (200, 200_000) ∷ []
  unfolding start_sampling_loop tick settle absorb split_delta credit_pids delta_between
      window_energy_uj baseline_burst_power_uw BTreeMap.insert BTreeMap.get
  snapshot_shared = run-new-snapshot S (both (both (both (both []))))

  snapshot_bucket : snapshot S (registry_after [] 3) ≡ (0, 200_000) ∷ []
  unfolding start_sampling_loop tick settle absorb split_delta delta_between window_energy_uj
      baseline_burst_power_uw BTreeMap.insert BTreeMap.get
  snapshot_bucket = run-new-snapshot S (adds 0 100_000 ∷ adds 0 100_000 ∷ [])

  look_up :
      (r : AmalgafyRegistry S) (m : BTreeMap ℕ) (k : ℕ)
      → snapshot S r ≡ m
      → get S r k ≡ BTreeMap.get m k
  look_up r m k e = sym (get-snapshot S r k) ∙ ap (λ n. BTreeMap.get n k) e

  sampling_loop_accumulates_delta_into_active_pids : SamplingLoopAccumulatesDeltaIntoActivePids
  unfolding BTreeMap.get
  sampling_loop_accumulates_delta_into_active_pids =
      let registry = registry_after (100 ∷ 200 ∷ []) 5 in
      let total : total_micro_joules S registry ≡ 400_000 =
        (total-snapshot S registry).0 ∙ ap (λ m. clamp_u64 (total_of m)) snapshot_shared in
      let found =
        λ (k : ℕ). look_up registry ((100, 200_000) ∷ (200, 200_000) ∷ []) k snapshot_shared in
      (omega (arith, total), rw (found 100) (omega arith), rw (found 200) (omega arith), found 0)

  sampling_loop_buckets_to_pid_zero_when_no_active_pids :
      SamplingLoopBucketsToPidZeroWhenNoActivePids
  unfolding BTreeMap.get
  sampling_loop_buckets_to_pid_zero_when_no_active_pids =
      rw (look_up (registry_after [] 3) ((0, 200_000) ∷ []) 0 snapshot_bucket) (omega arith)
