-- ===== src/Windows/Snapshots.antt =====
-- The trait implementation of src/providers/windows.rs: power snapshots, the compute processes that
-- are active, and the buffer of attributions that other observers fill.
pub mod Steady
pub mod Running
pub mod Metered
use micro_joule_attribution.Base.{
  ℕ, ◌≡◌, refl, List, [], map, Option, none, some, leb, if◌then◌else◌, u64_max,
}
use micro_joule_attribution.Base.Texts.{Text}
use micro_joule_attribution.Base.Results.{Result, ok, err, Error}
use micro_joule_attribution.Registry.Table.{SkipMap}
use micro_joule_attribution.Registry.{AmalgafyRegistry}
use micro_joule_attribution.Provider.{
  PowerSnapshot, PidEnergyAttribution, EnergyProvider, baseline_burst,
}
use micro_joule_attribution.Provider.Draining.{drain}
use micro_joule_attribution.Windows.{
  WindowsProvider, NvmlProcessInfoV3, NvmlComputeProcess, Answer, Scratch, read_power_uw,
}
use micro_joule_attribution.Windows.Processes.{
  ProcessesAnswer, Run, returned, panicked, running, Allocator, sample_compute_processes,
}
use micro_joule_attribution.Windows.Window.{pids_of}

-- The clock as a u64: 0 before the epoch, and the largest u64 where it does not fit.
unfoldable pub unix_clock_ns : Option ℕ → ℕ
unix_clock_ns none = 0
unix_clock_ns (some n) = if leb n u64_max then n else u64_max

unfoldable pub compute_process : NvmlProcessInfoV3 → NvmlComputeProcess
compute_process p = record {
  pid = p.pid;
  used_gpu_memory_bytes = p.used_gpu_memory;
  gpu_instance_id = p.gpu_instance_id;
  compute_instance_id = p.compute_instance_id;
}

unfoldable pub power_snapshot : WindowsProvider → ℕ → ℕ → PowerSnapshot
power_snapshot p observed_at_ns power_uw = record {
  observed_at_ns = observed_at_ns;
  idle_power_uw = 0;
  active_power_uw = power_uw;
  cpu_power_uw = 0;
  gpu_power_uw = power_uw;
  accelerator_power_uw = power_uw;
  hardware_signature = p.hardware_signature;
}

-- The `match` on the compute processes: a failure leaves the busy state alone.
unfoldable pub refresh :
    WindowsProvider → ℕ → Result (List NvmlProcessInfoV3) Error → WindowsProvider
refresh p observed_at_ns (ok procs) = record p {
  busy_state = record { last_sample_ns = observed_at_ns; last_pids = pids_of procs };
}
refresh p observed_at_ns (err e) = p

unfoldable pub after_refresh :
    WindowsProvider
    → ℕ
    → ℕ
    → Run (Scratch × Result (List NvmlProcessInfoV3) Error)
    → Run (WindowsProvider × Result PowerSnapshot Error)
unfolding refresh
after_refresh p observed_at_ns power_uw running = running
after_refresh p observed_at_ns power_uw panicked = panicked
after_refresh p observed_at_ns power_uw (returned (scratch, procs)) = returned (
  refresh (record p { compute_scratch = scratch }) observed_at_ns procs,
  ok (power_snapshot p observed_at_ns power_uw),
)

unfoldable pub listed :
    WindowsProvider
    → Run (Scratch × Result (List NvmlProcessInfoV3) Error)
    → Run (WindowsProvider × Result (List NvmlComputeProcess) Error)
listed p running = running
listed p panicked = panicked
listed p (returned (scratch, ok procs)) =
    returned (record p { compute_scratch = scratch }, ok (map compute_process procs))
listed p (returned (scratch, err e)) = returned (record p { compute_scratch = scratch }, err e)

module _ (alloc : Allocator) (fuel : ℕ) where
  unfoldable pub list_compute_processes :
      WindowsProvider
      → (ℕ → ℕ → ProcessesAnswer)
      → Run (WindowsProvider × Result (List NvmlComputeProcess) Error)
  unfolding listed
  list_compute_processes p nvml =
      listed p (sample_compute_processes alloc fuel nvml 0 p.compute_scratch)

  unfoldable pub sample_power_state :
      WindowsProvider
      → Answer ℕ
      → (ℕ → ℕ → ProcessesAnswer)
      → Option ℕ
      → Run (WindowsProvider × Result PowerSnapshot Error)
  unfolding after_refresh
  sample_power_state p power nvml unix_time_ns = elim (read_power_uw power) [
    | err e ↦ returned (p, err e)
    | ok power_uw ↦
        after_refresh p (unix_clock_ns unix_time_ns) power_uw
          (sample_compute_processes alloc fuel nvml 0 p.compute_scratch)
  ]

unfoldable pub attribute_joules_to_pid :
    WindowsProvider
    → ℕ
    → ℕ
    → ℕ
    → PowerSnapshot
    → WindowsProvider × Result PidEnergyAttribution Error
attribute_joules_to_pid p pid window_start_ns window_end_ns snapshot =
    (p, ok (baseline_burst pid window_start_ns window_end_ns snapshot))

module _ (S : SkipMap) where
  unfoldable pub sync_registry :
      WindowsProvider → AmalgafyRegistry S → WindowsProvider × AmalgafyRegistry S × Result ℕ Error
  sync_registry p registry =
      let (drained, total) = drain S p.pending registry 0 in
      (record p { pending = [] }, drained, ok total)

unfoldable pub active_pids : WindowsProvider → List ℕ
active_pids p = p.busy_state.last_pids

unfoldable pub hardware_signature : WindowsProvider → Text
hardware_signature p = p.hardware_signature

-- What a sample has found outside of the provider when it has returned: `processes` is then what the loop
-- of `sample_compute_processes` has returned. Running is the sampling loop with that loop inside.
pub record NvmlReading : Type 0 where
  pub power : Answer ℕ
  pub processes : Scratch × Result (List NvmlProcessInfoV3) Error
  pub unix_time_ns : Option ℕ

unfoldable pub sample_returned :
    WindowsProvider → NvmlReading → WindowsProvider × Result PowerSnapshot Error
unfolding refresh
sample_returned p reading = elim (read_power_uw reading.power) [
  | err e ↦ (p, err e)
  | ok power_uw ↦
      let (scratch, procs) = reading.processes in
      let observed_at_ns = unix_clock_ns reading.unix_time_ns in
      (
        refresh (record p { compute_scratch = scratch }) observed_at_ns procs,
        ok (power_snapshot p observed_at_ns power_uw),
      )
]

module _ (S : SkipMap) where
  abbrev pub windows_energy_provider : EnergyProvider S
  windows_energy_provider = record {
    Provider = WindowsProvider;
    Reading = NvmlReading;
    sample_power_state = sample_returned;
    attribute_joules_to_pid = attribute_joules_to_pid;
    sync_registry = sync_registry S;
    hardware_signature = hardware_signature;
    active_pids = active_pids;
  }
