-- ===== src/Windows/Snapshots/Steady.antt =====
-- Samples of src/providers/windows.rs while NVML answers: its power reading succeeds and the buffer
-- has room for its processes.
use micro_joule_attribution.Base.{ℕ, suc, ◌^◌, ◌≤◌, ◌<◌, ◌≡◌, ap, List, length}
use micro_joule_attribution.Registry.Table.{SkipMap}
use micro_joule_attribution.Registry.{AmalgafyRegistry}
use micro_joule_attribution.Windows.{
  WindowsProvider, NvmlProcessInfoV3, Answer, nvml_success, check_nvml, read_power_mw,
}
use micro_joule_attribution.Windows.Processes.{returned, Allocator}
use micro_joule_attribution.Windows.Processes.Growth.{steady, sample_fits}
use micro_joule_attribution.Windows.Window.{sample_window_energy, share_window, after_processes}

abbrev pub delivers : ℕ → Answer ℕ
delivers mw = record { code = nvml_success; value = mw }

module _ (alloc : Allocator) (p : WindowsProvider) (procs : List NvmlProcessInfoV3) (fuel mw : ℕ)
    (small : p.compute_scratch.capacity < 2 ^ 32)
    (room : length procs ≤ p.compute_scratch.capacity) where
  -- While NVML delivers its power and the buffer, of a capacity below 2^32, has room for its
  -- processes, `sample_window_energy` returns what the division of the energy between those
  -- processes gives.
  pub sample_window_energy-steady :
      (S : SkipMap) (window_start_ns window_end_ns dt_ms : ℕ) (registry : AmalgafyRegistry S)
      → sample_window_energy S alloc
          (suc fuel)
          p
          (delivers mw)
          (steady procs)
          window_start_ns
          window_end_ns
          dt_ms
          registry
        ≡ returned (
            share_window S
              (record p { compute_scratch = record p.compute_scratch { items = procs } })
              window_start_ns
              window_end_ns
              dt_ms
              registry
              mw
              procs)
  unfolding sample_window_energy read_power_mw check_nvml after_processes
  sample_window_energy-steady S window_start_ns window_end_ns dt_ms registry =
      ap
        (λ run.
          after_processes S p registry run λ q processes.
            share_window S q window_start_ns window_end_ns dt_ms registry mw processes)
        (sample_fits alloc procs fuel 0 p.compute_scratch small room)
