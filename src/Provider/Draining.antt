-- ===== src/Provider/Draining.antt =====
-- The `for` over `pending.drain(..)` that the `sync_registry` of every provider makes: each
-- attribution is pushed into the registry and added to the total that is returned.
use micro_joule_attribution.Base.{
  ℕ, ◌+◌, ◌≤◌, ◌≡◌, arith, List, [], ◌∷◌, sum, if◌then◌else◌, ◌==◌, saturating_add, u64_max,
}
use micro_joule_attribution.Base.Results.{unwrap_or}
use micro_joule_attribution.Registry.Table.{SkipMap}
use micro_joule_attribution.Registry.{AmalgafyRegistry, add_micro_joules, get, total_micro_joules}
use micro_joule_attribution.Registry.Laws.{IsValid, add-IsValid, get-add}
use micro_joule_attribution.Registry.Total.{total-add, total-le}
use micro_joule_attribution.Provider.{PidEnergyAttribution}

-- The energy of a row of attributions, and the part of it that the PID `j` is given.
abbrev pub energy_of : List PidEnergyAttribution → ℕ
energy_of [] = 0
energy_of (a ∷ pending) = a.attributed_energy_uj + energy_of pending

abbrev pub energy_for : ℕ → List PidEnergyAttribution → ℕ
energy_for j [] = 0
energy_for j (a ∷ pending) =
    (if a.pid == j then a.attributed_energy_uj else 0) + energy_for j pending

module _ (S : SkipMap) where
  unfoldable pub drain : List PidEnergyAttribution → AmalgafyRegistry S → ℕ → AmalgafyRegistry S × ℕ
  drain [] registry total = (registry, total)
  drain (a ∷ pending) registry total =
      drain pending (add_micro_joules S registry a.pid a.attributed_energy_uj).0
        (saturating_add total a.attributed_energy_uj)

  pub drain-IsValid :
      (pending : List PidEnergyAttribution) (r : AmalgafyRegistry S) (total : ℕ)
      → IsValid S r
      → IsValid S (drain pending r total).0
  unfolding drain
  drain-IsValid [] r total v = v
  drain-IsValid (a ∷ pending) r total v =
      drain-IsValid pending _ _ (add-IsValid S r a.pid a.attributed_energy_uj v)

  -- The total returned and the registry's total grow by the energy of the row.
  pub drain-total :
      (pending : List PidEnergyAttribution) (r : AmalgafyRegistry S) (total : ℕ)
      → IsValid S r
      → total ≤ u64_max
      → ((drain pending r total).1 ≡ saturating_add total (energy_of pending))
        × (total_micro_joules S (drain pending r total).0
            ≡ saturating_add (total_micro_joules S r) (energy_of pending))
  unfolding drain
  drain-total [] r total v h = (omega arith, omega (arith, total-le S r))
  drain-total (a ∷ pending) r total v h =
      let (sum, grown) =
        drain-total pending (add_micro_joules S r a.pid a.attributed_energy_uj).0
          (saturating_add total a.attributed_energy_uj)
          (add-IsValid S r a.pid a.attributed_energy_uj v) (omega arith) in
      (omega arith, omega (arith, (total-add S r a.pid a.attributed_energy_uj v).0))

  -- Each PID is given its part of the row.
  pub drain-get :
      (pending : List PidEnergyAttribution) (r : AmalgafyRegistry S) (total j : ℕ)
      → IsValid S r
      → unwrap_or (get S r j) 0 ≤ u64_max
      → unwrap_or (get S (drain pending r total).0 j) 0
        ≡ saturating_add (unwrap_or (get S r j) 0) (energy_for j pending)
  unfolding drain
  drain-get [] r total j v h = omega arith
  drain-get (a ∷ pending) r total j v h =
      let here = (get-add S r a.pid a.attributed_energy_uj j v).0 in
      ground (
        arith,
        here,
        drain-get pending (add_micro_joules S r a.pid a.attributed_energy_uj).0
            (saturating_add total a.attributed_energy_uj) j
            (add-IsValid S r a.pid a.attributed_energy_uj v),
      )
