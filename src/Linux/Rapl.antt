-- ===== src/Linux/Rapl.antt =====
-- The RAPL counter of src/providers/linux.rs: its deltas, and the power that is derived from them.
use micro_joule_attribution.Base.{
  ℕ, zero, suc, ◌+◌, ◌-◌, ◌%◌, ◌≤◌, ◌<◌, ◌≡◌, false, ap, arith, u64_max, ◌==◌, dec_lt,
}
use native.Mathlib.Nat.{mod-eq_of_lt, mod-eq-sub-mod}
use micro_joule_attribution.Base.Results.{ok, err, Error}
use micro_joule_attribution.Attribution.{window_energy_uj}
use micro_joule_attribution.Attribution.Window.{window_energy_uj-rate, window_energy_uj_empty}
use micro_joule_attribution.Linux.{
  LinuxProvider, RaplReading, counter_delta, power_uw_of, read_energy_file, record_rapl,
  read_rapl_power_uw, sampled, sample_power_state, snapshot_of,
}

mod_wrapped : (m x : ℕ) → m < x → x ≤ m + m + 1 → x % (m + 1) ≡ x - (m + 1)
mod_wrapped m x h k = grind (arith, mod-eq-sub-mod, mod-eq_of_lt)

mod_within : (m x : ℕ) → x ≤ m → x % (m + 1) ≡ x
mod_within m x h = mod-eq_of_lt (omega arith)

-- A counter whose maximum is below the largest u64, and which stands within its range and then
-- advances by at most its maximum, is seen to have advanced by exactly that, also where it wraps.
pub counter_delta-advance :
    (max_uj prev_uj d : ℕ)
    → max_uj < u64_max
    → prev_uj ≤ max_uj
    → d ≤ max_uj
    → counter_delta max_uj prev_uj ((prev_uj + d) % (max_uj + 1)) ≡ d
unfolding counter_delta
counter_delta-advance max_uj prev_uj d small start turn = elim (dec_lt max_uj (prev_uj + d)) [
  | yes wraps ↦ rw (mod_wrapped max_uj (prev_uj + d) wraps (omega arith)) (ground arith)
  | no within ↦ rw (mod_within max_uj (prev_uj + d) (omega arith)) (ground arith)
]

-- The power that is derived from a delta and a time gives back at most that delta over the same
-- time.
pub power_uw_of-window : (delta t : ℕ) → window_energy_uj (power_uw_of delta t) t ≤ delta
unfolding power_uw_of
power_uw_of-window delta zero = omega (arith, window_energy_uj_empty 0)
power_uw_of-window delta (suc t) =
    let running : (suc t == 0) ≡ false = ground arith in
    rw running (window_energy_uj-rate delta (suc t) (omega arith))

read_rapl_ok :
    (p : LinuxProvider) (reading : RaplReading) (e : ℕ)
    → read_energy_file reading.energy_file ≡ ok e
    → read_rapl_power_uw p reading ≡ ((record_rapl p reading e).0, ok (record_rapl p reading e).1)
unfolding read_rapl_power_uw
read_rapl_ok p reading e h = rw (h, read_rapl_power_uw)

read_rapl_err :
    (p : LinuxProvider) (reading : RaplReading) (x : Error)
    → read_energy_file reading.energy_file ≡ err x
    → read_rapl_power_uw p reading ≡ (p, err x)
unfolding read_rapl_power_uw
read_rapl_err p reading x h = rw (h, read_rapl_power_uw)

-- A sample succeeds exactly when the counter's file is read and holds a number. The snapshot then
-- has an idle power of 0 and the time at which the counter was read; a failed sample changes nothing.
pub sample_power_state_ok :
    (p : LinuxProvider) (reading : RaplReading) (e : ℕ)
    → read_energy_file reading.energy_file ≡ ok e
    → let (q, (power_uw, observed_at_ns)) = record_rapl p reading e in
      sample_power_state p reading ≡ (q, ok (snapshot_of q power_uw observed_at_ns))
unfolding sample_power_state
sample_power_state_ok p reading e h = ap sampled (read_rapl_ok p reading e h)

pub sample_power_state_err :
    (p : LinuxProvider) (reading : RaplReading) (x : Error)
    → read_energy_file reading.energy_file ≡ err x
    → sample_power_state p reading ≡ (p, err Error.rapl_sampling_failed)
unfolding sample_power_state
sample_power_state_err p reading x h = ap sampled (read_rapl_err p reading x h)
