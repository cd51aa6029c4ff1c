-- ===== src/Windows/Window/Failures.antt =====
-- The errors of `sample_window_energy` and `attribute_window` of src/providers/windows.rs.
use micro_joule_attribution.Base.{
  ℕ, ◌≡◌, ◌≢◌, refl, sym, ◌∙◌, ap, List, Bool, true, false, ◌==◌, ◌||◌, length, if◌then◌else◌, ◌⊎◌,
  inl, inr,
}
use micro_joule_attribution.Base.Results.{Result, ok, err, Error}
use micro_joule_attribution.Registry.Table.{SkipMap}
use micro_joule_attribution.Registry.{AmalgafyRegistry}
use micro_joule_attribution.Provider.{PidEnergyAttribution}
use micro_joule_attribution.Attribution.{nvml_window_energy_uj}
use micro_joule_attribution.Windows.{
  WindowsProvider, NvmlProcessInfoV3, Answer, Scratch, read_power_mw, read_power_uw,
}
use micro_joule_attribution.Windows.Processes.{
  ProcessesAnswer, Run, returned, panicked, running, Allocator, sample_compute_processes,
}
use micro_joule_attribution.Windows.Window.{
  Outcome, after_processes, share_window, attribute_busy, sample_window_energy, attribute_window,
}

module _ (S : SkipMap) where
  -- The registry, the busy state and the pending attributions are as before.
  abbrev pub Untouched :
      WindowsProvider → AmalgafyRegistry S → WindowsProvider → AmalgafyRegistry S → Type 0
  Untouched p registry q after =
      (after ≡ registry) × (q.busy_state ≡ p.busy_state) × (q.pending ≡ p.pending)

  ok-err : {A : Type 0} {a : A} {e : Error} → ok a ≢ err e
  ok-err e = cc

  returned-eq : {x y : Outcome S} → returned x ≡ returned y → x ≡ y
  returned-eq e = cc

  after-Untouched :
      (p q : WindowsProvider) (registry after : AmalgafyRegistry S) (x : Error)
      (rest : WindowsProvider → List NvmlProcessInfoV3 → Outcome S)
      → ((u : WindowsProvider) (procs : List NvmlProcessInfoV3)
          → (rows : List PidEnergyAttribution) × ((rest u procs).2 ≡ ok rows))
      → (run : Run (Scratch × Result (List NvmlProcessInfoV3) Error))
      → after_processes S p registry run rest ≡ returned (q, after, err x)
      → Untouched p registry q after
  unfolding after_processes
  after-Untouched p q registry after x rest h running e = absurd (cc)
  after-Untouched p q registry after x rest h panicked e = absurd (cc)
  after-Untouched p q registry after x rest h (returned (scratch, ok procs)) e =
      let (rows, f) = h (record p { compute_scratch = scratch }) procs in
      absurd (ok-err (sym f ∙ ap (λ o. o.2) (returned-eq e)))
  after-Untouched p q registry after x rest h (returned (scratch, err y)) e =
      let same = returned-eq e in
      (
        ap (λ o. o.1) (sym same),
        ap (λ o. o.0.busy_state) (sym same),
        ap (λ o. o.0.pending) (sym same),
      )

  abbrev Succeeds : Outcome S → Type 0
  Succeeds o = (rows : List PidEnergyAttribution) × (o.2 ≡ ok rows)

  either-Succeeds :
      (b : Bool) (x y : Outcome S) → Succeeds x → Succeeds y → Succeeds (if b then x else y)
  either-Succeeds true x y f g = f
  either-Succeeds false x y f g = g

  share_window-Succeeds :
      (p : WindowsProvider) (window_start_ns window_end_ns dt_ms : ℕ) (r : AmalgafyRegistry S)
      (power_mw : ℕ) (procs : List NvmlProcessInfoV3)
      → Succeeds (share_window S p window_start_ns window_end_ns dt_ms r power_mw procs)
  unfolding share_window
  share_window-Succeeds p window_start_ns window_end_ns dt_ms r power_mw procs =
      either-Succeeds (length procs == 0 || nvml_window_energy_uj power_mw dt_ms == 0) _ _ (_, refl)
        (_, refl)

  attribute_busy-Succeeds :
      (p : WindowsProvider) (window_start_ns window_end_ns idle_power_uw : ℕ)
      (r : AmalgafyRegistry S) (power_uw : ℕ) (procs : List NvmlProcessInfoV3)
      → Succeeds (attribute_busy S p window_start_ns window_end_ns idle_power_uw r power_uw procs)
  unfolding attribute_busy
  attribute_busy-Succeeds p window_start_ns window_end_ns idle_power_uw r power_uw procs =
      either-Succeeds (length procs == 0) _ _ (_, refl) (_, refl)

  abbrev failing : WindowsProvider → AmalgafyRegistry S → Error → Outcome S
  failing p registry e = (p, registry, err e)

  failed-Untouched :
      (p q : WindowsProvider) (registry after : AmalgafyRegistry S) (x y : Error)
      → returned (failing p registry y) ≡ returned (failing q after x)
      → Untouched p registry q after
  failed-Untouched p q registry after x y e =
      let same = returned-eq e in
      (
        ap (λ o. o.1) (sym same),
        ap (λ o. o.0.busy_state) (sym same),
        ap (λ o. o.0.pending) (sym same),
      )

  Result-cases : (r : Result ℕ Error) → ((a : ℕ) × (r ≡ ok a)) ⊎ ((x : Error) × (r ≡ err x))
  Result-cases (ok a) = inl (a, refl)
  Result-cases (err x) = inr (x, refl)

  module _ (alloc : Allocator) (fuel : ℕ) (p q : WindowsProvider)
      (registry after : AmalgafyRegistry S) (power : Answer ℕ) (nvml : ℕ → ℕ → ProcessesAnswer)
      (window_start_ns window_end_ns : ℕ) (x : Error) where
    -- Where `sample_window_energy` returns an error, the registry, the busy state and the pending
    -- attributions are as before.
    pub sample_window_energy-Untouched :
        (dt_ms : ℕ)
        → sample_window_energy S alloc fuel p power nvml window_start_ns window_end_ns dt_ms
            registry
          ≡ returned (q, after, err x)
        → Untouched p registry q after
    unfolding sample_window_energy
    sample_window_energy-Untouched dt_ms e = elim (Result-cases (read_power_mw power)) [
      | inr (y, f) ↦ failed-Untouched p q registry after x y (rw (f, sample_window_energy) at e)
      | inl (mw, f) ↦
          after-Untouched p q registry after x
            (λ u procs. share_window S u window_start_ns window_end_ns dt_ms registry mw procs)
            (λ u procs.
              share_window-Succeeds u window_start_ns window_end_ns dt_ms registry mw procs)
            (sample_compute_processes alloc fuel nvml 0 p.compute_scratch)
            (rw (f, sample_window_energy) at e)
    ]

    -- Where `attribute_window` returns an error, the registry, the busy state and the pending
    -- attributions are as before.
    pub attribute_window-Untouched :
        (idle_power_uw : ℕ)
        → attribute_window S alloc fuel p power nvml window_start_ns window_end_ns idle_power_uw
            registry
          ≡ returned (q, after, err x)
        → Untouched p registry q after
    unfolding attribute_window
    attribute_window-Untouched idle_power_uw e = elim (Result-cases (read_power_uw power)) [
      | inr (y, f) ↦ failed-Untouched p q registry after x y (rw (f, attribute_window) at e)
      | inl (uw, f) ↦
          after-Untouched p q registry after x
            (λ u procs.
              attribute_busy S u window_start_ns window_end_ns idle_power_uw registry uw procs)
            (λ u procs.
              attribute_busy-Succeeds u window_start_ns window_end_ns idle_power_uw registry uw
                procs)
            (sample_compute_processes alloc fuel nvml 0 p.compute_scratch)
            (rw (f, attribute_window) at e)
    ]
