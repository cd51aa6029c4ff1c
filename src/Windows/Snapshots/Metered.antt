-- ===== src/Windows/Snapshots/Metered.antt =====
-- The Windows provider (src/providers/windows.rs) under the sampling loop of src/core/provider.rs: what
-- it enters, against the readings of NVML and of the clock.
use micro_joule_attribution.Base.{
  true, false, ℕ, suc, ◌+◌, ◌-◌, ◌*◌, ◌/◌, ◌≤◌, ◌≡◌, ◌∙◌, refl, arith, Option, none, some, List, [],
  ◌∷◌, if◌then◌else◌, ◌==◌, saturating_add, clamp_u64, All, inl, inr, Bool-cases,
}
use native.Mathlib.Nat.{sub-zero}
use micro_joule_attribution.Base.Results.{Result, ok, err, Error}
use micro_joule_attribution.Attribution.{baseline_burst_power_uw}
use micro_joule_attribution.Attribution.Window.{exact_uj, window_energy_uj-eq}
use micro_joule_attribution.Registry.Table.{SkipMap}
use micro_joule_attribution.Registry.{AmalgafyRegistry, total_micro_joules}
use micro_joule_attribution.Registry.Laws.{IsValid}
use micro_joule_attribution.Provider.{PowerSnapshot}
use micro_joule_attribution.Provider.Sampling.{delta_between, Sampler, start_sampling_loop, initial}
use micro_joule_attribution.Provider.Sampling.Ledger.{delta_sum, samples_of, loop-Grown}
use micro_joule_attribution.Windows.{
  WindowsProvider, nvml_success, check_nvml, read_power_mw, read_power_uw,
}
use micro_joule_attribution.Windows.Processes.{returned, Allocator}
use micro_joule_attribution.Windows.Snapshots.Running.{
  NvmlRound, run_sampling_loop, Answers, reading_in, readings_of, run-sampled,
}
use micro_joule_attribution.Windows.Snapshots.{
  NvmlReading, sample_returned, refresh, power_snapshot, unix_clock_ns, windows_energy_provider,
}

-- A power for the time since the reading just before it.
abbrev pub since : Option ℕ → ℕ → ℕ → ℕ
since none now mw = 0
since (some before) now mw = mw * (now - before) / 1_000_000

-- The energy of a row of readings, by milli-watts and nano-seconds. A power that is not read separates
-- what stands on its two sides.
abbrev pub metered : Option ℕ → List NvmlRound → ℕ
metered previous [] = 0
metered previous (r ∷ rounds) =
    let failed = metered none rounds in
    let now = unix_clock_ns r.unix_time_ns in
    let rest = metered (some now) rounds in
    if r.power.code == nvml_success then since previous now r.power.value + rest else failed

abbrev time_of : Option PowerSnapshot → Option ℕ
time_of none = none
time_of (some s) = some s.observed_at_ns

-- The provider after a sample whose power was read.
abbrev pub refreshed : WindowsProvider → NvmlReading → WindowsProvider
refreshed p r =
    refresh (record p { compute_scratch = (r.processes).0 }) (unix_clock_ns r.unix_time_ns)
      (r.processes).1

module _ (p : WindowsProvider) (r : NvmlReading) where
  pub sample_ok :
      (r.power.code == nvml_success) ≡ true
      → sample_returned p r ≡ (
        refreshed p r,
        ok (power_snapshot p (unix_clock_ns r.unix_time_ns) (r.power.value * 1_000)),
      )
  unfolding sample_returned read_power_uw read_power_mw check_nvml
  sample_ok h = rw (h, sample_returned)

  pub sample_err :
      (r.power.code == nvml_success) ≡ false
      → sample_returned p r ≡ (p, err (Error.nvml r.power.code))
  unfolding sample_returned read_power_uw read_power_mw check_nvml
  sample_err h = rw (h, sample_returned)

-- No more than 18 kW, in milli-watts.
abbrev pub IsModest : NvmlRound → Type 0
IsModest r = r.power.value ≤ 18_000_000

nano_micro : (mw dt : ℕ) → clamp_u64 (exact_uj (mw * 1_000) dt) ≡ clamp_u64 (mw * dt / 1_000_000)
nano_micro mw dt =
    let shuffled : mw * 1_000 * dt ≡ mw * dt * 1_000 = grind arith in omega (arith, shuffled)

delta_between-power :
    (prev : PowerSnapshot) (p : WindowsProvider) (t mw : ℕ)
    → mw ≤ 18_000_000
    → delta_between prev (power_snapshot p t (mw * 1_000))
      ≡ clamp_u64 (mw * (t - prev.observed_at_ns) / 1_000_000)
unfolding delta_between power_snapshot baseline_burst_power_uw
delta_between-power prev p t mw small = rw sub-zero (
    window_energy_uj-eq (mw * 1_000) (t - prev.observed_at_ns) (omega arith)
    ∙ nano_micro mw (t - prev.observed_at_ns))

module _ (S : SkipMap) where
  -- As the registry and the loop add it up, clamped.
  first-metered :
      (p : WindowsProvider) (previous : Option PowerSnapshot) (now mw total rest : ℕ)
      (samples : List (Result PowerSnapshot Error))
      → mw ≤ 18_000_000
      → ((t : ℕ)
          → saturating_add t (delta_sum (some (power_snapshot p now (mw * 1_000))) samples)
            ≡ saturating_add t rest)
      → saturating_add total (delta_sum previous (ok (power_snapshot p now (mw * 1_000)) ∷ samples))
        ≡ saturating_add total (since (time_of previous) now mw + rest)
  first-metered p none now mw total rest samples small later = omega (arith, later total)
  first-metered p (some prev) now mw total rest samples small later =
      let d = mw * (now - prev.observed_at_ns) / 1_000_000 in
      omega (arith, delta_between-power prev p now mw small, later (total + clamp_u64 d))

  samples-metered :
      (rounds : List NvmlRound) (p : WindowsProvider) (previous : Option PowerSnapshot) (total : ℕ)
      → All IsModest rounds
      → saturating_add total
          (delta_sum previous (samples_of S (windows_energy_provider S) p (readings_of p rounds)))
        ≡ saturating_add total (metered (time_of previous) rounds)
  unfolding unix_clock_ns power_snapshot
  samples-metered [] p previous total a = refl
  samples-metered (r ∷ rounds) p previous total a =
      let reading = reading_in p r in
      elim (Bool-cases (r.power.code == nvml_success)) [
        | inl h ↦
            let now = unix_clock_ns r.unix_time_ns in
            let s = power_snapshot p now (r.power.value * 1_000) in
            let q = refreshed p reading in
            rw (sample_ok p reading h, h)
              (first-metered p previous now r.power.value total (metered (some now) rounds)
                (samples_of S (windows_energy_provider S) q (readings_of q rounds)) a.0
                (λ t. samples-metered rounds q (some s) t a.1))
        | inr h ↦ rw (sample_err p reading h, h) (samples-metered rounds p none total a.1)
      ]

  -- From a well-formed registry, at powers of up to 18 kW, and where NVML's first answer about
  -- the processes in each round does not ask for a larger buffer than the provider has, the
  -- sampling loop over a Windows provider comes back from all its rounds and has raised the
  -- registry's total by exactly a sum, up to the largest u64. The sum has, for each power that is
  -- read just after another one, its milli-watts times the nano-seconds since that one, divided
  -- by a million and rounded down; a reading of the power that fails separates what stands on its
  -- two sides, and a failure to list the processes changes nothing in the sum.
  pub loop-metered :
      (alloc : Allocator) (fuel : ℕ) (p : WindowsProvider) (rounds : List NvmlRound)
      (registry : AmalgafyRegistry S)
      → All (Answers p.compute_scratch.capacity) rounds
      → All IsModest rounds
      → IsValid S registry
      → (t : Sampler S (windows_energy_provider S)) × (run_sampling_loop S alloc
            (suc fuel)
            (initial S (windows_energy_provider S) p registry)
            rounds
          ≡ returned t)
        × (total_micro_joules S t.registry
            ≡ saturating_add (total_micro_joules S registry) (metered none rounds))
  loop-metered alloc fuel p rounds registry answers a v =
      let windows = windows_energy_provider S in
      let start = initial S windows p registry in
      let ledger = loop-Grown S windows start (readings_of p rounds) v (omega arith) in
      (
        start_sampling_loop S windows start (readings_of p rounds),
        run-sampled alloc fuel S rounds start p.compute_scratch.capacity refl answers,
        ledger.total ∙ samples-metered rounds p none (total_micro_joules S registry) a,
      )
