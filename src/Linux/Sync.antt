-- ===== src/Linux/Sync.antt =====
-- From signalled fences to the registry, in src/providers/linux.rs.
use micro_joule_attribution.Base.{
  ℕ, ◌+◌, ◌-◌, ◌≤◌, ◌≡◌, refl, ◌∙◌, ap, arith, List, [], ◌∷◌, ◌++◌, if◌then◌else◌, ◌==◌,
  saturating_add, clamp_u64, u64_max,
}
use micro_joule_attribution.Base.Results.{unwrap_or, ok}
use micro_joule_attribution.Attribution.{window_energy_uj}
use micro_joule_attribution.Registry.Table.{SkipMap}
use micro_joule_attribution.Registry.{AmalgafyRegistry, get, total_micro_joules}
use micro_joule_attribution.Registry.Laws.{IsValid}
use micro_joule_attribution.Provider.{PidEnergyAttribution}
use micro_joule_attribution.Provider.Draining.{
  energy_of, energy_for, drain-total, drain-get, drain-IsValid,
}
use micro_joule_attribution.Linux.{
  LinuxProvider, DmaFenceEvent, correlate_fence, fence_attribution, sync_registry,
}

-- The GPU energy of a fence's window.
abbrev pub fence_uj : DmaFenceEvent → ℕ
fence_uj event = window_energy_uj event.gpu_power_uw (event.signaled_at_ns - event.submitted_at_ns)

-- The energy that the fences of the PID `j` stand for.
abbrev pub fences_uj : ℕ → List DmaFenceEvent → ℕ
fences_uj j [] = 0
fences_uj j (event ∷ events) =
    (if event.submitter_pid == j then fence_uj event else 0) + fences_uj j events

abbrev pub correlate_all : LinuxProvider → List DmaFenceEvent → LinuxProvider
correlate_all p [] = p
correlate_all p (event ∷ events) = correlate_all (correlate_fence p event).0 events

energy_for-append :
    (j : ℕ) (a b : List PidEnergyAttribution)
    → energy_for j (a ++ b) ≡ energy_for j a + energy_for j b
energy_for-append j [] b = omega arith
energy_for-append j (x ∷ a) b = omega (arith, energy_for-append j a b)

pending-correlate :
    (j : ℕ) (p : LinuxProvider) (event : DmaFenceEvent)
    → energy_for j (correlate_fence p event).0.pending
      ≡ energy_for j p.pending + (if event.submitter_pid == j then fence_uj event else 0)
unfolding correlate_fence fence_attribution
pending-correlate j p event =
    omega (arith, energy_for-append j p.pending ((correlate_fence p event).1 ∷ []))

pending-correlate_all :
    (j : ℕ) (p : LinuxProvider) (events : List DmaFenceEvent)
    → energy_for j (correlate_all p events).pending ≡ energy_for j p.pending + fences_uj j events
pending-correlate_all j p [] = omega arith
pending-correlate_all j p (event ∷ events) =
    omega (
      arith,
      pending-correlate j p event,
      pending-correlate_all j (correlate_fence p event).0 events,
    )

module _ (S : SkipMap) where
  -- A synchronisation into a well-formed registry empties the buffer, returns the energy that was
  -- in it, clamped at the largest u64, raises the registry's total by it, up to the largest u64,
  -- and keeps the registry well formed.
  pub sync_registry_lem :
      (p : LinuxProvider) (r : AmalgafyRegistry S)
      → IsValid S r
      → let (q, registry, result) = sync_registry S p r in
        (q ≡ record p { pending = [] })
        × (result ≡ ok (clamp_u64 (energy_of p.pending)))
        × (total_micro_joules S registry
            ≡ saturating_add (total_micro_joules S r) (energy_of p.pending))
        × IsValid S registry
  unfolding sync_registry
  sync_registry_lem p r v =
      let (returned, total) = drain-total S p.pending r 0 v (omega arith) in
      (refl, ap ok (returned ∙ omega arith), total, drain-IsValid S p.pending r 0 v)

  -- Fences that are correlated and then synchronised into a well-formed registry credit each PID
  -- whose total fits into a u64 with the GPU energy of the windows of its own fences and with
  -- what was pending for it, up to the largest u64.
  pub correlate_all-sync :
      (p : LinuxProvider) (events : List DmaFenceEvent) (r : AmalgafyRegistry S) (j : ℕ)
      → IsValid S r
      → unwrap_or (get S r j) 0 ≤ u64_max
      → unwrap_or (get S (sync_registry S (correlate_all p events) r).1 j) 0
        ≡ saturating_add (unwrap_or (get S r j) 0) (energy_for j p.pending + fences_uj j events)
  unfolding sync_registry
  correlate_all-sync p events r j v fits = omega (
    arith,
    drain-get S (correlate_all p events).pending r 0 j v fits,
    pending-correlate_all j p events,
  )
