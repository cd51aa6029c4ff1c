-- ===== src/Windows/Window.antt =====
-- The two ways in which src/providers/windows.rs attributes the energy of a window. `power` and `nvml`
-- are what NVML answers during the call.
pub mod Shares
pub mod Busy
pub mod Failures
use micro_joule_attribution.Base.{
  ℕ, ◌+◌, ◌-◌, ◌*◌, ◌/◌, List, [], ◌∷◌, map, Bool, ltb, leb, ◌==◌, ◌||◌, if◌then◌else◌, length,
  saturating_sub, Option, u64_max, none, some, min,
}
use micro_joule_attribution.Base.Results.{Result, ok, err, Error}
use micro_joule_attribution.Attribution.{nvml_window_energy_uj, deterministic_attribution_uj}
use micro_joule_attribution.Registry.Table.{SkipMap}
use micro_joule_attribution.Registry.{AmalgafyRegistry, add_micro_joules}
use micro_joule_attribution.Provider.{PowerSnapshot, PidEnergyAttribution, baseline_burst}
use micro_joule_attribution.Windows.{
  WindowsProvider, NvmlProcessInfoV3, NvmlComputeProcess, Answer, Scratch, read_power_mw,
  read_power_uw,
}
use micro_joule_attribution.Windows.Processes.{
  ProcessesAnswer, Run, returned, panicked, running, Allocator, sample_compute_processes,
}

abbrev pub pids_of : List NvmlProcessInfoV3 → List ℕ
pids_of = map λ proc. proc.pid

unfoldable pub attribution_for : WindowsProvider → ℕ → ℕ → ℕ → ℕ → ℕ → PidEnergyAttribution
attribution_for p window_start_ns window_end_ns burst_power_uw pid attributed = record {
  pid = pid;
  window_start_ns = window_start_ns;
  window_end_ns = window_end_ns;
  burst_power_uw = burst_power_uw;
  attributed_energy_uj = attributed;
  hardware_signature = p.hardware_signature;
}

-- What the end of a window leaves behind in the provider.
unfoldable pub note_busy : WindowsProvider → ℕ → List PidEnergyAttribution → WindowsProvider
note_busy p window_end_ns result = record p {
  busy_state = record { last_sample_ns = window_end_ns; last_pids = map (λ a. a.pid) result };
}

module _ (S : SkipMap) (p : WindowsProvider)
    (window_start_ns window_end_ns burst_power_uw : ℕ) where
  -- The loop of `sample_window_energy`: the first processes get what the division leaves over.
  unfoldable pub hand_out :
      AmalgafyRegistry S
      → ℕ
      → ℕ
      → List NvmlProcessInfoV3
      → AmalgafyRegistry S × List PidEnergyAttribution
  hand_out registry share remainder [] = (registry, [])
  hand_out registry share remainder (proc ∷ processes) =
      let extra = if ltb 0 remainder then 1 else 0 in
      let attributed = share + extra in
      let (rest, result) =
        hand_out (add_micro_joules S registry proc.pid attributed).0 share (remainder - extra)
          processes in
      (
        rest,
        attribution_for p window_start_ns window_end_ns burst_power_uw proc.pid attributed ∷ result,
      )

  -- The loop of `attribute_window`: every process gets the same.
  unfoldable pub hand_even :
      AmalgafyRegistry S
      → ℕ
      → List NvmlProcessInfoV3
      → AmalgafyRegistry S × List PidEnergyAttribution
  hand_even registry attributed [] = (registry, [])
  hand_even registry attributed (proc ∷ processes) =
      let (rest, result) =
        hand_even (add_micro_joules S registry proc.pid attributed).0 attributed processes in
      (
        rest,
        attribution_for p window_start_ns window_end_ns burst_power_uw proc.pid attributed ∷ result,
      )

module _ (S : SkipMap) where
  abbrev pub Outcome : Type 0
  Outcome = WindowsProvider × AmalgafyRegistry S × Result (List PidEnergyAttribution) Error

  -- `sample_window_energy` once the power and the processes are known.
  unfoldable pub share_window :
      WindowsProvider → ℕ → ℕ → ℕ → AmalgafyRegistry S → ℕ → List NvmlProcessInfoV3 → Outcome
  share_window p window_start_ns window_end_ns dt_ms registry power_mw processes =
      let total_window_uj = nvml_window_energy_uj power_mw dt_ms in
      let num_processes = length processes in
      let share = total_window_uj / num_processes in
      let remainder = total_window_uj - share * num_processes in
      let (credited, result) =
        hand_out S p window_start_ns window_end_ns (power_mw * 1_000) registry share remainder
          processes in
      if num_processes == 0 || total_window_uj == 0
      then (p, registry, ok [])
      else (note_busy p window_end_ns result, credited, ok result)

  -- `attribute_window` once the power and the processes are known.
  unfoldable pub attribute_busy :
      WindowsProvider → ℕ → ℕ → ℕ → AmalgafyRegistry S → ℕ → List NvmlProcessInfoV3 → Outcome
  attribute_busy p window_start_ns window_end_ns idle_power_uw registry total_power_uw processes =
      let window_ns = saturating_sub window_end_ns window_start_ns in
      let num_processes = length processes in
      let per_process_ns = window_ns / num_processes in
      let attributed =
        deterministic_attribution_uj total_power_uw idle_power_uw per_process_ns window_ns in
      let (credited, result) =
        hand_even S p window_start_ns window_end_ns (saturating_sub total_power_uw idle_power_uw)
          registry attributed processes in
      if num_processes == 0
      then (p, registry, ok [])
      else (note_busy p window_end_ns result, credited, ok result)

  -- The `?` after the processes are sampled: what the rest does with them.
  unfoldable pub after_processes :
      WindowsProvider
      → AmalgafyRegistry S
      → Run (Scratch × Result (List NvmlProcessInfoV3) Error)
      → (WindowsProvider → List NvmlProcessInfoV3 → Outcome)
      → Run Outcome
  after_processes p registry running rest = running
  after_processes p registry panicked rest = panicked
  after_processes p registry (returned (scratch, ok processes)) rest =
      returned (rest (record p { compute_scratch = scratch }) processes)
  after_processes p registry (returned (scratch, err e)) rest =
      returned (record p { compute_scratch = scratch }, registry, err e)

  module _ (alloc : Allocator) (fuel : ℕ) where
    unfoldable pub sample_window_energy :
        WindowsProvider
        → Answer ℕ
        → (ℕ → ℕ → ProcessesAnswer)
        → ℕ
        → ℕ
        → ℕ
        → AmalgafyRegistry S
        → Run Outcome
    unfolding after_processes share_window
    sample_window_energy p power nvml window_start_ns window_end_ns dt_ms registry =
        elim (read_power_mw power) [
          | err e ↦ returned (p, registry, err e)
          | ok power_mw ↦
              after_processes p registry
                (sample_compute_processes alloc fuel nvml 0 p.compute_scratch)
                λ q processes.
                  share_window q window_start_ns window_end_ns dt_ms registry power_mw processes
        ]

    unfoldable pub attribute_window :
        WindowsProvider
        → Answer ℕ
        → (ℕ → ℕ → ProcessesAnswer)
        → ℕ
        → ℕ
        → ℕ
        → AmalgafyRegistry S
        → Run Outcome
    unfolding after_processes attribute_busy
    attribute_window p power nvml window_start_ns window_end_ns idle_power_uw registry =
        elim (read_power_uw power) [
          | err e ↦ returned (p, registry, err e)
          | ok total_power_uw ↦
              after_processes p registry
                (sample_compute_processes alloc fuel nvml 0 p.compute_scratch)
                λ q processes.
                  attribute_busy q window_start_ns window_end_ns idle_power_uw registry
                    total_power_uw processes
        ]
