-- ===== src/Windows/Window/Busy.antt =====
-- `attribute_window` of src/providers/windows.rs: the even split of the energy over the idle baseline.
use micro_joule_attribution.Base.{
  ℕ, zero, suc, ◌+◌, ◌-◌, ◌*◌, ◌/◌, ◌≤◌, ◌≡◌, refl, ap, arith, List, [], ◌∷◌, false, ◌==◌, length,
  saturating_add,
}
use native.Mathlib.Nat.{div-add-mod'}
use micro_joule_attribution.Attribution.Split.{deterministic-le}
use micro_joule_attribution.Base.Results.{ok}
use micro_joule_attribution.Attribution.{deterministic_attribution_uj}
use micro_joule_attribution.Attribution.Window.{exact_uj, mul_mono}
use micro_joule_attribution.Registry.Table.{SkipMap}
use micro_joule_attribution.Registry.{AmalgafyRegistry, add_micro_joules, total_micro_joules}
use micro_joule_attribution.Registry.Laws.{IsValid, add-IsValid}
use micro_joule_attribution.Registry.Total.{total-add, total-le}
use micro_joule_attribution.Provider.{PidEnergyAttribution}
use micro_joule_attribution.Provider.Draining.{energy_of}
use micro_joule_attribution.Windows.{WindowsProvider, NvmlProcessInfoV3}
use micro_joule_attribution.Windows.Window.{pids_of, hand_even, attribute_busy, attribution_for}
use micro_joule_attribution.Windows.Window.Shares.{pids}

module _ (S : SkipMap) (p : WindowsProvider) (window_start_ns window_end_ns burst : ℕ) where
  hand_even-pids :
      (r : AmalgafyRegistry S) (attributed : ℕ) (procs : List NvmlProcessInfoV3)
      → pids (hand_even S p window_start_ns window_end_ns burst r attributed procs).1
        ≡ pids_of procs
  unfolding hand_even attribution_for
  hand_even-pids r attributed [] = refl
  hand_even-pids r attributed (proc ∷ procs) =
      ap (λ ks. proc.pid ∷ ks)
        (hand_even-pids (add_micro_joules S r proc.pid attributed).0 attributed procs)

  hand_even-energy :
      (r : AmalgafyRegistry S) (attributed : ℕ) (procs : List NvmlProcessInfoV3)
      → energy_of (hand_even S p window_start_ns window_end_ns burst r attributed procs).1
        ≡ length procs * attributed
  unfolding hand_even attribution_for
  hand_even-energy r attributed [] = omega arith
  hand_even-energy r attributed (proc ∷ procs) =
      grind (arith, hand_even-energy (add_micro_joules S r proc.pid attributed).0 attributed procs)

  hand_even-total :
      (r : AmalgafyRegistry S) (attributed : ℕ) (procs : List NvmlProcessInfoV3)
      → IsValid S r
      → let (registry, rows) =
          hand_even S p window_start_ns window_end_ns burst r attributed procs in
        total_micro_joules S registry ≡ saturating_add (total_micro_joules S r) (energy_of rows)
  unfolding hand_even attribution_for
  hand_even-total r attributed [] v = omega (arith, total-le S r)
  hand_even-total r attributed (proc ∷ procs) v = omega (
    arith,
    (total-add S r proc.pid attributed v).0,
    hand_even-total (add_micro_joules S r proc.pid attributed).0 attributed procs
        (add-IsValid S r proc.pid attributed v),
  )

multiple-le : (p t n : ℕ) → n * exact_uj p t ≤ exact_uj p (n * t)
multiple-le p t zero = omega arith
multiple-le p t (suc n) =
    let product : p * (suc n * t) ≡ p * (n * t) + p * t = grind arith in
    let multiple : suc n * exact_uj p t ≡ n * exact_uj p t + exact_uj p t = grind arith in
    omega (arith, multiple-le p t n, product, multiple)

parts_of : (w n : ℕ) → n * (w / n) ≤ w
parts_of w n =
    let whole = div-add-mod' w n in let order : n * (w / n) ≡ w / n * n = grind arith in omega arith

-- `n` equal parts of a window cost together at most what the window costs.
parts-le :
    (total idle window n : ℕ)
    → n * deterministic_attribution_uj total idle (window / n) window
      ≤ exact_uj (total - idle) window
parts-le total idle window n =
    let each = mul_mono n _ _ (deterministic-le total idle (window / n) window) in
    let whole : n * (window / n) ≤ window = omega (arith, parts_of window n) in
    omega (
      arith,
      each,
      multiple-le (total - idle) (window / n) n,
      mul_mono (total - idle) (n * (window / n)) window whole,
    )

module _ (S : SkipMap) where
  -- For a well-formed registry, the rows that are returned name the processes in order; their
  -- energy is at most the exact energy of the window over the idle baseline, and the registry's
  -- total grows by exactly their energy, up to the largest u64.
  pub attribute_busy-energy :
      (p : WindowsProvider) (window_start_ns window_end_ns idle_power_uw : ℕ)
      (r : AmalgafyRegistry S) (total_power_uw : ℕ) (procs : List NvmlProcessInfoV3)
      → IsValid S r
      → let (q, registry, result) =
          attribute_busy S p window_start_ns window_end_ns idle_power_uw r total_power_uw procs in
        (rows : List PidEnergyAttribution) × (result ≡ ok rows)
        × (pids rows ≡ pids_of procs)
        × (energy_of rows
            ≤ exact_uj (total_power_uw - idle_power_uw) (window_end_ns - window_start_ns))
        × (total_micro_joules S registry ≡ saturating_add (total_micro_joules S r) (energy_of rows))
  unfolding attribute_busy
  attribute_busy-energy p window_start_ns window_end_ns idle r total [] v =
      ([], refl, refl, omega arith, omega (arith, total-le S r))
  attribute_busy-energy p window_start_ns window_end_ns idle r total (proc ∷ procs) v =
      let window_ns = window_end_ns - window_start_ns in
      let n = length (proc ∷ procs) in
      let attributed = deterministic_attribution_uj total idle (window_ns / n) window_ns in
      let some_processes : (n == 0) ≡ false = ground arith in
      rw some_processes (
        (hand_even S p window_start_ns window_end_ns (total - idle) r attributed (proc ∷ procs)).1,
        refl,
        hand_even-pids S p window_start_ns window_end_ns (total - idle) r attributed (proc ∷ procs),
        omega (
          arith,
          hand_even-energy S p window_start_ns window_end_ns (total - idle) r attributed
              (proc ∷ procs),
          parts-le total idle window_ns n,
        ),
        hand_even-total S p window_start_ns window_end_ns (total - idle) r attributed (proc ∷ procs)
            v,
      )
