-- ===== src/Provider.antt =====
-- src/core/provider.rs: power snapshots, attributions, and the trait `EnergyProvider`. What a
-- provider reads from its surroundings during one call is a value of `Reading`.
pub mod Sampling
pub mod Draining
use micro_joule_attribution.Base.{ℕ, List, [], saturating_sub}
use micro_joule_attribution.Base.Texts.{Text}
use micro_joule_attribution.Base.Results.{Result, ok, Error}
use micro_joule_attribution.Attribution.{baseline_burst_power_uw, burst_energy_uj}
use micro_joule_attribution.Registry.Table.{SkipMap}
use micro_joule_attribution.Registry.{AmalgafyRegistry}

abbrev pub sampling_loop_interval_ms : ℕ
sampling_loop_interval_ms = 100

pub record PowerSnapshot : Type 0 where
  pub observed_at_ns : ℕ
  pub idle_power_uw : ℕ
  pub active_power_uw : ℕ
  pub cpu_power_uw : ℕ
  pub gpu_power_uw : ℕ
  pub accelerator_power_uw : ℕ
  pub hardware_signature : Text

pub record PidEnergyAttribution : Type 0 where
  pub pid : ℕ
  pub window_start_ns : ℕ
  pub window_end_ns : ℕ
  pub burst_power_uw : ℕ
  pub attributed_energy_uj : ℕ
  pub hardware_signature : Text

unfoldable pub baseline_burst : ℕ → ℕ → ℕ → PowerSnapshot → PidEnergyAttribution
baseline_burst pid window_start_ns window_end_ns snapshot =
    let window_ns = saturating_sub window_end_ns window_start_ns in
    record {
      pid = pid;
      window_start_ns = window_start_ns;
      window_end_ns = window_end_ns;
      burst_power_uw = baseline_burst_power_uw snapshot.active_power_uw snapshot.idle_power_uw;
      attributed_energy_uj =
          burst_energy_uj snapshot.active_power_uw snapshot.idle_power_uw window_ns;
      hardware_signature = snapshot.hardware_signature;
    }

pub record EnergyProvider (S : SkipMap) : Type 1 where
  pub Provider : Type 0
  pub Reading : Type 0
  pub sample_power_state : Provider → Reading → Provider × Result PowerSnapshot Error
  pub attribute_joules_to_pid :
      Provider → ℕ → ℕ → ℕ → PowerSnapshot → Provider × Result PidEnergyAttribution Error
  pub sync_registry : Provider → AmalgafyRegistry S → Provider × AmalgafyRegistry S × Result ℕ Error
  pub hardware_signature : Provider → Text
  pub active_pids : Provider → List ℕ

-- The bodies that the trait gives where a provider has none of its own.
unfoldable pub default_sync_registry {ℓ} :
    {P : Type ℓ} {R : Type ℓ} → P → R → P × R × Result ℕ Error
default_sync_registry provider registry = (provider, registry, ok 0)

unfoldable pub default_active_pids {ℓ} : {P : Type ℓ} → P → List ℕ
default_active_pids provider = []
