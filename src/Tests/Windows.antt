-- ===== src/Tests/Windows.antt =====
-- The Windows provider with an NVML that lists a fixed set of processes.
use micro_joule_attribution.Base.{
  ℕ, ◌*◌, ◌≤◌, ◌≡◌, refl, arith, List, [], ◌∷◌, some, saturating_add,
}
use micro_joule_attribution.Base.Texts.{text}
use micro_joule_attribution.Base.Results.{ok}
use micro_joule_attribution.Attribution.{nvml_window_energy_uj}
use micro_joule_attribution.Registry.{total_micro_joules}
use micro_joule_attribution.Provider.{PidEnergyAttribution}
use micro_joule_attribution.Provider.Draining.{energy_of}
use micro_joule_attribution.Provider.Sampling.{split_delta, Sampler, initial}
use micro_joule_attribution.Hardware.{HardwareIdentitySource}
use micro_joule_attribution.Windows.{WindowsProvider, NvmlProcessInfoV3, Scratch}
use micro_joule_attribution.Windows.Processes.{
  ProcessesAnswer, returned, running, sample_compute_processes,
}
use micro_joule_attribution.Windows.Processes.Growth.{steady, sample_stuck}
use micro_joule_attribution.Windows.Window.{share_window, attribute_busy, sample_window_energy}
use micro_joule_attribution.Windows.Window.Shares.{energies, pids, share_window-split_delta}
use micro_joule_attribution.Windows.Window.Busy.{attribute_busy-energy}
use micro_joule_attribution.Windows.Snapshots.Metered.{loop-metered}
use micro_joule_attribution.Windows.Snapshots.{windows_energy_provider, active_pids, unix_clock_ns}
use micro_joule_attribution.Windows.Snapshots.Steady.{delivers}
use micro_joule_attribution.Windows.Snapshots.Running.{NvmlRound, run_sampling_loop}
use micro_joule_attribution.Windows.{Answer, check_nvml, read_power_mw}
use micro_joule_attribution.Windows.Window.Failures.{Untouched, sample_window_energy-Untouched}
use micro_joule_attribution.Base.Results.{Error}
use micro_joule_attribution.Tests.Tables.{btree_skip_map, exact_allocator}
use micro_joule_attribution.Tests.Sampling.{empty_registry, empty-IsValid}

abbrev proc : ℕ → NvmlProcessInfoV3
proc pid = record { pid = pid; used_gpu_memory = 0; gpu_instance_id = 0; compute_instance_id = 0 }

abbrev room : ℕ → Scratch
room capacity = record { items = []; capacity = capacity }

-- The processes with the PIDs 9 and 4.
abbrev two : List NvmlProcessInfoV3
two = proc 9 ∷ proc 4 ∷ []

abbrev provider : WindowsProvider
provider = record {
  hardware_signature = text "serial";
  signature_source = HardwareIdentitySource.windows_nvml_serial;
  device_index = 0;
  busy_state = record { last_sample_ns = 0; last_pids = [] };
  compute_scratch = room 32;
  pending = [];
}

-- Three processes, and a new buffer with room for two.
sample_stuck_example :
    sample_compute_processes exact_allocator 50 (steady (proc 1 ∷ two)) 0 (room 2) ≡ running
sample_stuck_example =
    sample_stuck exact_allocator (proc 1 ∷ two) 50 0 (room 2) (omega arith) (omega arith)
      (omega arith)

share_window-split_delta_example :
    let (q, registry, result) =
      share_window btree_skip_map provider 0 100 100 empty_registry 3 two in
    (registry ≡ split_delta btree_skip_map empty_registry (9 ∷ 4 ∷ []) 300)
    × (active_pids q ≡ 9 ∷ 4 ∷ [])
    × ((rows : List PidEnergyAttribution) × (result ≡ ok rows)
        × (pids rows ≡ 9 ∷ 4 ∷ [])
        × (energies rows ≡ 150 ∷ 150 ∷ []))
unfolding nvml_window_energy_uj
share_window-split_delta_example =
    share_window-split_delta btree_skip_map provider 0 100 100 empty_registry 3 (proc 9)
      (proc 4 ∷ []) (omega arith)

attribute_busy-energy_example :
    let (q, registry, result) =
      attribute_busy btree_skip_map provider 0 1_000_000_000 50 empty_registry 250 two in
    (rows : List PidEnergyAttribution) × (result ≡ ok rows)
    × (pids rows ≡ 9 ∷ 4 ∷ [])
    × (energy_of rows ≤ 200)
    × (total_micro_joules btree_skip_map registry
        ≡ saturating_add (total_micro_joules btree_skip_map empty_registry) (energy_of rows))
attribute_busy-energy_example =
    attribute_busy-energy btree_skip_map provider 0 1_000_000_000 50 empty_registry 250 two
      empty-IsValid

-- A GPU that cannot be read.
abbrev lost : Answer ℕ
lost = record { code = 15; value = 0 }

sample_window_energy-Untouched_example :
    Untouched btree_skip_map provider empty_registry provider empty_registry
unfolding sample_window_energy read_power_mw check_nvml
sample_window_energy-Untouched_example =
    sample_window_energy-Untouched btree_skip_map exact_allocator 1 provider provider empty_registry
      empty_registry lost (steady two) 0 100 (Error.nvml 15) 100 refl

abbrev round_at : Answer ℕ → (ℕ → ℕ → ProcessesAnswer) → ℕ → NvmlRound
round_at power nvml seconds = record {
  power = power;
  nvml = nvml;
  unix_time_ns = some (seconds * 1_000_000_000);
}

-- The processes cannot be listed.
abbrev unlisted : ℕ → ℕ → ProcessesAnswer
unlisted call capacity = record { code = 999; count = 0; infos = [] }

-- Two readings a second apart at 75 W and 100 W, one that fails, and one at 100 W.
abbrev rounds : List NvmlRound
rounds =
    round_at (delivers 75_000) (steady two) 1
    ∷ round_at (delivers 100_000) unlisted 2
    ∷ round_at lost (steady two) 3
    ∷ round_at (delivers 100_000) (steady (proc 1 ∷ two)) 4
    ∷ []

loop-metered_example :
    (t : Sampler btree_skip_map (windows_energy_provider btree_skip_map)) × (run_sampling_loop
        btree_skip_map exact_allocator 1
        (initial btree_skip_map (windows_energy_provider btree_skip_map) provider empty_registry)
        rounds
      ≡ returned t)
    × (total_micro_joules btree_skip_map t.registry
        ≡ saturating_add (total_micro_joules btree_skip_map empty_registry) 100_000_000)
unfolding unix_clock_ns
loop-metered_example =
    loop-metered btree_skip_map exact_allocator 0 provider rounds empty_registry
      (refl, (refl, (refl, (refl, tt)))) (omega arith) empty-IsValid
