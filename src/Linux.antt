-- ===== src/Linux.antt =====
-- src/providers/linux.rs: the Linux provider, its set of PIDs with fences in flight, and the power
-- that it derives from the RAPL energy counter. What one sample reads from its surroundings is a
-- `RaplReading`: the two sysfs files, `none` if unreadable, and the clock.
pub mod Rapl
pub mod Budget
pub mod Fences
pub mod Sync
use micro_joule_attribution.Base.{
  ℕ, ◌+◌, ◌-◌, ◌*◌, ◌/◌, List, [], ◌∷◌, ◌++◌, Bool, Option, none, some, leb, ◌==◌, if◌then◌else◌,
  saturating_add, saturating_sub, clamp_u64, u64_max, u32_max, min,
}
use micro_joule_attribution.Base.BTreeMap
use micro_joule_attribution.Base.BTreeMap.{BTreeMap}
use micro_joule_attribution.Base.Texts.{Text}
use micro_joule_attribution.Base.Parse.{trim, parse_u64}
use micro_joule_attribution.Base.Results.{Result, ok, err, Error, unwrap_or, ok_or, ◌>>=◌}
use micro_joule_attribution.Attribution.{window_energy_uj}
use micro_joule_attribution.Registry.Table.{SkipMap}
use micro_joule_attribution.Registry.{AmalgafyRegistry}
use micro_joule_attribution.Provider.{
  PowerSnapshot, PidEnergyAttribution, baseline_burst, EnergyProvider,
}
use micro_joule_attribution.Provider.Draining.{drain}

pub record DmaFenceEvent : Type 0 where
  pub submitter_pid : ℕ
  pub submitted_at_ns : ℕ
  pub signaled_at_ns : ℕ
  pub gpu_power_uw : ℕ

pub record RaplState : Type 0 where
  pub energy_uj : ℕ
  pub observed_at_ns : ℕ
  pub max_energy_uj : ℕ

-- `active_pids` maps a submitter to the number of its fences in flight.
pub record LinuxProvider : Type 0 where
  pub hardware_signature : Text
  pub pending : List PidEnergyAttribution
  pub active_pids : BTreeMap ℕ
  pub rapl_state : Option RaplState

unfoldable pub new : Text → LinuxProvider
new hardware_signature = record {
  hardware_signature = hardware_signature;
  pending = [];
  active_pids = [];
  rapl_state = none;
}

unfoldable pub enqueue_attribution : LinuxProvider → PidEnergyAttribution → LinuxProvider
enqueue_attribution p attribution = record p { pending = p.pending ++ attribution ∷ [] }

unfoldable pub mark_pid_active : LinuxProvider → ℕ → LinuxProvider
mark_pid_active p pid =
    let count = unwrap_or (BTreeMap.get p.active_pids pid) 0 in
    record p { active_pids = BTreeMap.insert pid (min (count + 1) u32_max) p.active_pids }

unfoldable pub mark_pid_idle : LinuxProvider → ℕ → LinuxProvider
mark_pid_idle p pid = record p { active_pids = BTreeMap.remove pid p.active_pids }

unfoldable pub active_pid_set : LinuxProvider → List ℕ
active_pid_set p = BTreeMap.keys p.active_pids

-- One fence of the submitter is complete; at none left the PID leaves the map.
unfoldable pub release_fence : BTreeMap ℕ → ℕ → BTreeMap ℕ
release_fence active_pids pid = elim (BTreeMap.get active_pids pid) [
  | none ↦ active_pids
  | some count ↦
      let left = saturating_sub count 1 in
      if left == 0 then BTreeMap.remove pid active_pids else BTreeMap.insert pid left active_pids
]

unfoldable pub fence_attribution : LinuxProvider → DmaFenceEvent → PidEnergyAttribution
fence_attribution p event =
    let window_ns = saturating_sub event.signaled_at_ns event.submitted_at_ns in
    record {
      pid = event.submitter_pid;
      window_start_ns = event.submitted_at_ns;
      window_end_ns = event.signaled_at_ns;
      burst_power_uw = event.gpu_power_uw;
      attributed_energy_uj = window_energy_uj event.gpu_power_uw window_ns;
      hardware_signature = p.hardware_signature;
    }

unfoldable pub correlate_fence :
    LinuxProvider → DmaFenceEvent → LinuxProvider × PidEnergyAttribution
unfolding release_fence fence_attribution
correlate_fence p event =
    let attribution = fence_attribution p event in
    (
      record p {
        active_pids = release_fence p.active_pids event.submitter_pid;
        pending = p.pending ++ attribution ∷ [];
      },
      attribution,
    )

pub record RaplReading : Type 0 where
  pub energy_file : Option Text
  pub max_range_file : Option Text
  pub unix_time_ns : Option ℕ  -- `none` if the clock stands before the epoch

-- The energy between two readings of a counter that restarts from 0 after `max_energy_uj`.
unfoldable pub counter_delta : ℕ → ℕ → ℕ → ℕ
counter_delta max_energy_uj prev_uj energy_uj =
    let to_wrap = saturating_sub max_energy_uj prev_uj in
    if leb prev_uj energy_uj
    then energy_uj - prev_uj
    else if max_energy_uj == u64_max
    then 0
    else saturating_add (saturating_add to_wrap energy_uj) 1

unfoldable pub power_uw_of : ℕ → ℕ → ℕ
power_uw_of delta_uj dt_ns = if dt_ns == 0 then 0 else clamp_u64 (delta_uj * 1_000_000_000 / dt_ns)

-- The clock as a u64; what does not fit counts as 0.
unfoldable pub clock_ns : Option ℕ → ℕ
clock_ns none = 0
clock_ns (some n) = if leb n u64_max then n else 0

unfoldable pub wrap_point : Option RaplState → Option Text → ℕ
wrap_point (some prev) file = prev.max_energy_uj
wrap_point none none = u64_max
wrap_point none (some raw) = unwrap_or (parse_u64 (trim raw)) u64_max

unfoldable pub power_since : Option RaplState → ℕ → ℕ → ℕ → ℕ
power_since none max_energy_uj energy_uj observed_at_ns = 0
power_since (some prev) max_energy_uj energy_uj observed_at_ns =
    power_uw_of (counter_delta max_energy_uj prev.energy_uj energy_uj)
      (saturating_sub observed_at_ns prev.observed_at_ns)

unfoldable pub read_energy_file : Option Text → Result ℕ Error
read_energy_file file = do raw ← ok_or file Error.io; ok_or (parse_u64 (trim raw)) Error.parse_int

-- After the counter has been read, nothing fails.
unfoldable pub record_rapl : LinuxProvider → RaplReading → ℕ → LinuxProvider × (ℕ × ℕ)
record_rapl p reading energy_uj =
    let observed_at_ns = clock_ns reading.unix_time_ns in
    let max_energy_uj = wrap_point p.rapl_state reading.max_range_file in
    let power_uw = power_since p.rapl_state max_energy_uj energy_uj observed_at_ns in
    let state : RaplState = record {
      energy_uj = energy_uj;
      observed_at_ns = observed_at_ns;
      max_energy_uj = max_energy_uj;
    } in
    (record p { rapl_state = some state }, (power_uw, observed_at_ns))

unfoldable pub read_rapl_power_uw :
    LinuxProvider → RaplReading → LinuxProvider × Result (ℕ × ℕ) Error
unfolding read_energy_file record_rapl
read_rapl_power_uw p reading = elim (read_energy_file reading.energy_file) [
  | err e ↦ (p, err e)
  | ok energy_uj ↦ let (q, values) = record_rapl p reading energy_uj in (q, ok values)
]

unfoldable pub snapshot_of : LinuxProvider → ℕ → ℕ → PowerSnapshot
snapshot_of p power_uw observed_at_ns = record {
  observed_at_ns = observed_at_ns;
  idle_power_uw = 0;
  active_power_uw = power_uw;
  cpu_power_uw = power_uw;
  gpu_power_uw = 0;
  accelerator_power_uw = 0;
  hardware_signature = p.hardware_signature;
}

-- The `match` on the reading.
unfoldable pub sampled :
    LinuxProvider × Result (ℕ × ℕ) Error → LinuxProvider × Result PowerSnapshot Error
sampled (p, err e) = (p, err Error.rapl_sampling_failed)
sampled (p, ok (power_uw, observed_at_ns)) = (p, ok (snapshot_of p power_uw observed_at_ns))

unfoldable pub sample_power_state :
    LinuxProvider → RaplReading → LinuxProvider × Result PowerSnapshot Error
unfolding sampled
sample_power_state p reading = sampled (read_rapl_power_uw p reading)

unfoldable pub attribute_joules_to_pid :
    LinuxProvider → ℕ → ℕ → ℕ → PowerSnapshot → LinuxProvider × Result PidEnergyAttribution Error
attribute_joules_to_pid p pid window_start_ns window_end_ns snapshot =
    (p, ok (baseline_burst pid window_start_ns window_end_ns snapshot))

module _ (S : SkipMap) where
  unfoldable pub sync_registry :
      LinuxProvider → AmalgafyRegistry S → LinuxProvider × AmalgafyRegistry S × Result ℕ Error
  sync_registry p registry =
      let (drained, total) = drain S p.pending registry 0 in
      (record p { pending = [] }, drained, ok total)

  -- The implementation of the trait.
  abbrev pub linux_energy_provider : EnergyProvider S
  linux_energy_provider = record {
    Provider = LinuxProvider;
    Reading = RaplReading;
    sample_power_state = sample_power_state;
    attribute_joules_to_pid = attribute_joules_to_pid;
    sync_registry = sync_registry;
    hardware_signature = λ p. p.hardware_signature;
    active_pids = active_pid_set;
  }
