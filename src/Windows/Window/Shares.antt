-- ===== src/Windows/Window/Shares.antt =====
-- `sample_window_energy` of src/providers/windows.rs against the sampling loop of src/core/provider.rs.
use micro_joule_attribution.Base.{
  ℕ, zero, suc, ◌+◌, ◌-◌, ◌*◌, ◌/◌, ◌%◌, ◌≤◌, ◌<◌, ◌≡◌, refl, sym, ◌∙◌, ap, arith, List, [], ◌∷◌,
  ◌++◌, map, if◌then◌else◌, ltb, true, false, ◌==◌, length, length-map, replicate, saturating_mul,
  u64_max,
}
use native.Mathlib.Nat.{div-add-mod'}
use micro_joule_attribution.Base.Results.{ok}
use micro_joule_attribution.Attribution.{nvml_window_energy_uj}
use micro_joule_attribution.Registry.Table.{SkipMap}
use micro_joule_attribution.Registry.{AmalgafyRegistry, add_micro_joules}
use micro_joule_attribution.Provider.{PidEnergyAttribution}
use micro_joule_attribution.Provider.Sampling.{credit_pids, split_delta}
use micro_joule_attribution.Provider.Sampling.Split.{portions}
use micro_joule_attribution.Windows.{WindowsProvider, NvmlProcessInfoV3}
use micro_joule_attribution.Windows.Window.{
  pids_of, hand_out, share_window, attribution_for, note_busy,
}
use micro_joule_attribution.Windows.Snapshots.{active_pids}

abbrev pub energies : List PidEnergyAttribution → List ℕ
energies = map λ a. a.attributed_energy_uj

abbrev pub pids : List PidEnergyAttribution → List ℕ
pids = map λ a. a.pid

module _ (S : SkipMap) (p : WindowsProvider) (window_start_ns window_end_ns burst : ℕ) where
  -- The loop credits the registry as the sampling loop does.
  hand_out-credit_pids :
      (r : AmalgafyRegistry S) (share remainder : ℕ) (procs : List NvmlProcessInfoV3)
      → (hand_out S p window_start_ns window_end_ns burst r share remainder procs).0
        ≡ credit_pids S r share remainder (pids_of procs)
  unfolding hand_out credit_pids
  hand_out-credit_pids r share remainder [] = refl
  hand_out-credit_pids r share remainder (proc ∷ procs) =
      hand_out-credit_pids
        (add_micro_joules S r proc.pid (share + (if ltb 0 remainder then 1 else 0))).0 share
        (remainder - (if ltb 0 remainder then 1 else 0)) procs

  hand_out-pids :
      (r : AmalgafyRegistry S) (share remainder : ℕ) (procs : List NvmlProcessInfoV3)
      → pids (hand_out S p window_start_ns window_end_ns burst r share remainder procs).1
        ≡ pids_of procs
  unfolding hand_out attribution_for
  hand_out-pids r share remainder [] = refl
  hand_out-pids r share remainder (proc ∷ procs) =
      ap (λ ks. proc.pid ∷ ks)
        (hand_out-pids
          (add_micro_joules S r proc.pid (share + (if ltb 0 remainder then 1 else 0))).0 share
          (remainder - (if ltb 0 remainder then 1 else 0)) procs)

  hand_out-energies :
      (r : AmalgafyRegistry S) (share remainder : ℕ) (procs : List NvmlProcessInfoV3)
      → remainder ≤ length procs
      → energies (hand_out S p window_start_ns window_end_ns burst r share remainder procs).1
        ≡ replicate remainder (share + 1) ++ replicate (length procs - remainder) share
  unfolding hand_out attribution_for
  hand_out-energies r share zero [] h = refl
  hand_out-energies r share (suc remainder) [] h = absurd (omega arith)
  hand_out-energies r share zero (proc ∷ procs) h =
      let none_left : suc (length procs) - 0 ≡ suc (length procs - 0) = omega arith in
      let no_extra : share + 0 ≡ share = omega arith in
      rw (none_left, no_extra)
        (ap (λ es. share ∷ es)
          (hand_out-energies (add_micro_joules S r proc.pid share).0 share zero procs
            (omega arith)))
  hand_out-energies r share (suc remainder) (proc ∷ procs) h =
      let some_left : ltb 0 (suc remainder) ≡ true = ground arith in
      let one_less : suc remainder - 1 ≡ remainder = omega arith in
      let fewer : suc (length procs) - suc remainder ≡ length procs - remainder = omega arith in
      rw (some_left, one_less, fewer)
        (ap (λ es. (share + 1) ∷ es)
          (hand_out-energies (add_micro_joules S r proc.pid (share + 1)).0 share remainder procs
            (omega arith)))

module _ (S : SkipMap) where
  share_window-eq :
      (p : WindowsProvider) (window_start_ns window_end_ns dt_ms : ℕ) (r : AmalgafyRegistry S)
      (power_mw : ℕ) (proc : NvmlProcessInfoV3) (procs : List NvmlProcessInfoV3)
      → 0 < nvml_window_energy_uj power_mw dt_ms
      → let total = nvml_window_energy_uj power_mw dt_ms in
        let n = length (proc ∷ procs) in
        let (credited, rows) =
          hand_out S p window_start_ns window_end_ns
            (power_mw * 1_000)
            r
            (total / n)
            (total % n)
            (proc ∷ procs) in
        share_window S p window_start_ns window_end_ns dt_ms r power_mw (proc ∷ procs)
        ≡ (note_busy p window_end_ns rows, credited, ok rows)
  unfolding share_window
  share_window-eq p window_start_ns window_end_ns dt_ms r power_mw proc procs h =
      let total = nvml_window_energy_uj power_mw dt_ms in
      let n = length (proc ∷ procs) in
      let shared = div-add-mod' total n in
      let remainder : total - total / n * n ≡ total % n = omega arith in
      let some_processes : (n == 0) ≡ false = ground arith in
      let some_energy : (total == 0) ≡ false = ground arith in
      rw (remainder, some_processes, some_energy)

  split_delta-pids_of :
      (r : AmalgafyRegistry S) (proc : NvmlProcessInfoV3) (procs : List NvmlProcessInfoV3)
      (delta : ℕ)
      → delta ≤ u64_max
      → let n = length (proc ∷ procs) in
        split_delta S r (pids_of (proc ∷ procs)) delta
        ≡ credit_pids S r (delta / n) (delta % n) (pids_of (proc ∷ procs))
  unfolding split_delta
  split_delta-pids_of r proc procs delta h =
      let n = suc (length procs) in
      let shared = div-add-mod' delta n in
      let remainder : delta - saturating_mul (delta / n) n ≡ delta % n = omega arith in
      rw (length-map (λ q. q.pid) procs, remainder)

  -- With at least one process and some energy, the registry is credited as the sampling loop
  -- would credit it for the same PIDs and the same energy; the rows that are returned name the
  -- processes in order, with the parts of the energy, and the processes are the active PIDs
  -- afterwards.
  pub share_window-split_delta :
      (p : WindowsProvider) (window_start_ns window_end_ns dt_ms : ℕ) (r : AmalgafyRegistry S)
      (power_mw : ℕ) (proc : NvmlProcessInfoV3) (procs : List NvmlProcessInfoV3)
      → 0 < nvml_window_energy_uj power_mw dt_ms
      → let total = nvml_window_energy_uj power_mw dt_ms in
        let (q, registry, result) =
          share_window S p window_start_ns window_end_ns dt_ms r power_mw (proc ∷ procs) in
        (registry ≡ split_delta S r (pids_of (proc ∷ procs)) total)
        × (active_pids q ≡ pids_of (proc ∷ procs))
        × ((rows : List PidEnergyAttribution) × (result ≡ ok rows)
            × (pids rows ≡ pids_of (proc ∷ procs))
            × (energies rows ≡ portions total (length (proc ∷ procs))))
  unfolding nvml_window_energy_uj active_pids note_busy
  share_window-split_delta p window_start_ns window_end_ns dt_ms r power_mw proc procs h =
      let total = nvml_window_energy_uj power_mw dt_ms in
      let n = length (proc ∷ procs) in
      let small : total ≤ u64_max = omega arith in
      let handed =
        hand_out S p window_start_ns window_end_ns (power_mw * 1_000) r (total / n) (total % n)
          (proc ∷ procs) in
      let named =
        hand_out-pids S p window_start_ns window_end_ns (power_mw * 1_000) r (total / n) (total % n)
          (proc ∷ procs) in
      let credits =
        hand_out-credit_pids S p window_start_ns window_end_ns (power_mw * 1_000) r (total / n)
          (total % n) (proc ∷ procs) in
      let parts =
        hand_out-energies S p window_start_ns window_end_ns (power_mw * 1_000) r (total / n)
          (total % n) (proc ∷ procs) (omega arith) in
      rw (share_window-eq p window_start_ns window_end_ns dt_ms r power_mw proc procs h) (
        credits ∙ sym (split_delta-pids_of r proc procs total small),
        named,
        (handed.1, refl, named, parts),
      )
