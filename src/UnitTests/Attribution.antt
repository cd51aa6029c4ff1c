-- ===== src/UnitTests/Attribution.antt =====
-- The unit tests of src/core/attribution.rs.
use micro_joule_attribution.Base.{◌≡◌, refl, u64_max}
use micro_joule_attribution.Attribution.{
  baseline_burst_power_uw, burst_energy_uj, deterministic_attribution_uj, nvml_window_energy_uj,
  rapl_fallback_uj, window_energy_uj,
}

abbrev BurstModelSubtractsIdlePower : Type 0
BurstModelSubtractsIdlePower =
    (baseline_burst_power_uw 8_500_000 3_000_000 ≡ 5_500_000)
    × (burst_energy_uj 8_500_000 3_000_000 2_000_000_000 ≡ 11_000_000)

burst_model_subtracts_idle_power : BurstModelSubtractsIdlePower
unfolding baseline_burst_power_uw burst_energy_uj window_energy_uj
burst_model_subtracts_idle_power = (refl, refl)

abbrev BurstModelSaturatesWhenSystemIsIdle : Type 0
BurstModelSaturatesWhenSystemIsIdle =
    (baseline_burst_power_uw 900_000 1_100_000 ≡ 0)
    × (burst_energy_uj 900_000 1_100_000 10_000_000 ≡ 0)

burst_model_saturates_when_system_is_idle : BurstModelSaturatesWhenSystemIsIdle
unfolding baseline_burst_power_uw burst_energy_uj window_energy_uj
burst_model_saturates_when_system_is_idle = (refl, refl)

abbrev WindowEnergyHandlesSubsecondWindowsWithU64OnlyMath : Type 0
WindowEnergyHandlesSubsecondWindowsWithU64OnlyMath =
    window_energy_uj 5_000_000 250_000_000 ≡ 1_250_000

window_energy_handles_subsecond_windows_with_u64_only_math :
    WindowEnergyHandlesSubsecondWindowsWithU64OnlyMath
unfolding window_energy_uj
window_energy_handles_subsecond_windows_with_u64_only_math = refl

abbrev DeterministicAttributionSplitsBurstEnergyByAcceleratorTime : Type 0
DeterministicAttributionSplitsBurstEnergyByAcceleratorTime =
    deterministic_attribution_uj 8_500_000 3_000_000 1_000_000_000 2_000_000_000 ≡ 5_500_000

deterministic_attribution_splits_burst_energy_by_accelerator_time :
    DeterministicAttributionSplitsBurstEnergyByAcceleratorTime
unfolding deterministic_attribution_uj
deterministic_attribution_splits_burst_energy_by_accelerator_time = refl

abbrev DeterministicAttributionReturnsZeroWhenAcceleratorIsIdle : Type 0
DeterministicAttributionReturnsZeroWhenAcceleratorIsIdle =
    deterministic_attribution_uj 8_500_000 3_000_000 0 0 ≡ 0

deterministic_attribution_returns_zero_when_accelerator_is_idle :
    DeterministicAttributionReturnsZeroWhenAcceleratorIsIdle
unfolding deterministic_attribution_uj
deterministic_attribution_returns_zero_when_accelerator_is_idle = refl

abbrev RaplFallbackScalesByCpuShare : Type 0
RaplFallbackScalesByCpuShare = rapl_fallback_uj 10_000 250_000 ≡ 2_500

rapl_fallback_scales_by_cpu_share : RaplFallbackScalesByCpuShare
unfolding rapl_fallback_uj
rapl_fallback_scales_by_cpu_share = refl

abbrev RaplFallbackClampsShareToOneHundredPercent : Type 0
RaplFallbackClampsShareToOneHundredPercent = rapl_fallback_uj 10_000 5_000_000 ≡ 10_000

rapl_fallback_clamps_share_to_one_hundred_percent : RaplFallbackClampsShareToOneHundredPercent
unfolding rapl_fallback_uj
rapl_fallback_clamps_share_to_one_hundred_percent = refl

abbrev NvmlWindowEnergyUsesMilliwattMillisecondProduct : Type 0
NvmlWindowEnergyUsesMilliwattMillisecondProduct = nvml_window_energy_uj 150_000 100 ≡ 15_000_000

nvml_window_energy_uses_milliwatt_millisecond_product :
    NvmlWindowEnergyUsesMilliwattMillisecondProduct
unfolding nvml_window_energy_uj
nvml_window_energy_uses_milliwatt_millisecond_product = refl

abbrev NvmlWindowEnergySaturatesInsteadOfOverflowing : Type 0
NvmlWindowEnergySaturatesInsteadOfOverflowing = nvml_window_energy_uj u64_max u64_max ≡ u64_max

nvml_window_energy_saturates_instead_of_overflowing : NvmlWindowEnergySaturatesInsteadOfOverflowing
unfolding nvml_window_energy_uj
nvml_window_energy_saturates_instead_of_overflowing = refl
