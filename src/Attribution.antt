-- ===== src/Attribution.antt =====
-- src/core/attribution.rs: the energy arithmetic that every provider shares. A `u64` or `u32` is a
-- native number below its bound; intermediate `u128` products do not overflow, so they are plain
-- products.
pub mod Window
pub mod Split
use micro_joule_attribution.Base.{
  ℕ, ◌*◌, ◌/◌, ◌%◌, min, if◌then◌else◌, ◌==◌, clamp_u64, saturating_add, saturating_mul,
  saturating_sub,
}

abbrev pub nanoseconds_per_second : ℕ
nanoseconds_per_second = 1_000_000_000

unfoldable pub baseline_burst_power_uw : ℕ → ℕ → ℕ
baseline_burst_power_uw active_power_uw idle_power_uw = saturating_sub active_power_uw idle_power_uw

unfoldable pub window_energy_uj : ℕ → ℕ → ℕ
window_energy_uj power_uw window_ns =
    let whole_seconds = window_ns / nanoseconds_per_second in
    let remainder_ns = window_ns % nanoseconds_per_second in
    saturating_add (saturating_mul power_uw whole_seconds)
      (saturating_mul power_uw remainder_ns / nanoseconds_per_second)

unfoldable pub burst_energy_uj : ℕ → ℕ → ℕ → ℕ
burst_energy_uj active_power_uw idle_power_uw window_ns =
    window_energy_uj (baseline_burst_power_uw active_power_uw idle_power_uw) window_ns

unfoldable pub deterministic_attribution_uj : ℕ → ℕ → ℕ → ℕ → ℕ
deterministic_attribution_uj total_power_uw idle_power_uw process_on_accelerator_ns total_busy_ns =
    let burst_power_uw = saturating_sub total_power_uw idle_power_uw in
    let proc_ns = min process_on_accelerator_ns total_busy_ns in
    let micro_joules = burst_power_uw * proc_ns / nanoseconds_per_second in
    if total_busy_ns == 0 then 0 else clamp_u64 micro_joules

unfoldable pub rapl_fallback_uj : ℕ → ℕ → ℕ
rapl_fallback_uj rapl_uj_delta cpu_share_micros =
    let share = min cpu_share_micros 1_000_000 in clamp_u64 (rapl_uj_delta * share / 1_000_000)

unfoldable pub nvml_window_energy_uj : ℕ → ℕ → ℕ
nvml_window_energy_uj power_mw dt_ms = clamp_u64 (power_mw * dt_ms)
