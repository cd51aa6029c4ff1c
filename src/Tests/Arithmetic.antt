-- ===== src/Tests/Arithmetic.antt =====
-- The arithmetic of attribution, at the values of the unit tests of src/core/attribution.rs.
use micro_joule_attribution.Base.{◌+◌, ◌≤◌, ◌≡◌, refl, arith, [], ◌∷◌, map, sum, clamp_u64, u64_max}
use micro_joule_attribution.Attribution.{
  baseline_burst_power_uw, window_energy_uj, burst_energy_uj, deterministic_attribution_uj,
  nvml_window_energy_uj,
}
use micro_joule_attribution.Attribution.Window.{exact_uj, window_energy_uj-eq, window_energy_uj-add}
use micro_joule_attribution.Attribution.Split.{sum-deterministic_attribution}

burst_subtracts_idle :
    (baseline_burst_power_uw 900_000 300_000 ≡ 600_000)
    × (burst_energy_uj 900_000 300_000 2_000_000_000 ≡ 1_200_000)
unfolding baseline_burst_power_uw burst_energy_uj window_energy_uj
burst_subtracts_idle = (refl, refl)

subsecond_window : window_energy_uj 500_000 250_000_000 ≡ 125_000
unfolding window_energy_uj
subsecond_window = refl

nvml_saturates : nvml_window_energy_uj u64_max 2 ≡ u64_max
unfolding nvml_window_energy_uj
nvml_saturates = refl

window_energy_uj-eq_example :
    window_energy_uj 500_000 2_250_000_000 ≡ clamp_u64 (exact_uj 500_000 2_250_000_000)
window_energy_uj-eq_example = window_energy_uj-eq 500_000 2_250_000_000 (omega arith)

sum-deterministic_attribution_example :
    (sum (
        map
          (λ t. deterministic_attribution_uj 900_000 300_000 t 1_000_000_000)
          (400_000_000 ∷ 600_000_000 ∷ []))
      ≤ exact_uj 600_000 1_000_000_000)
    × (exact_uj 600_000 1_000_000_000
        ≤ sum (
            map
              (λ t. deterministic_attribution_uj 900_000 300_000 t 1_000_000_000)
              (400_000_000 ∷ 600_000_000 ∷ []))
          + 2)
sum-deterministic_attribution_example =
    sum-deterministic_attribution 900_000 300_000 1_000_000_000 (400_000_000 ∷ 600_000_000 ∷ [])
      (omega arith) (omega arith)

-- Each half is rounded down, from 1.5 micro-joules to 1.
window_energy_uj-add_example :
    (window_energy_uj 3 500_000_000 + window_energy_uj 3 500_000_000
      ≤ window_energy_uj 3 1_000_000_000)
    × (window_energy_uj 3 1_000_000_000
        ≤ window_energy_uj 3 500_000_000 + window_energy_uj 3 500_000_000 + 1)
window_energy_uj-add_example =
    window_energy_uj-add 3 500_000_000 500_000_000 (omega arith, omega arith)
