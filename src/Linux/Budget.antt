-- ===== src/Linux/Budget.antt =====
-- The Linux provider (src/providers/linux.rs) under the sampling loop of src/core/provider.rs: what it
-- enters, against the energy that the package uses.
use micro_joule_attribution.Base.{
  ℕ, ◌+◌, ◌-◌, ◌%◌, ◌≤◌, ◌<◌, ◌≡◌, refl, arith, Option, none, some, u64_max, List, [], ◌∷◌, map,
  ◌⊎◌, inl, inr,
}
use native.Mathlib.Nat.{mod-add-mod, mod-lt, sub-zero, le_trans, le_of_eq}
use micro_joule_attribution.Base.Texts.{Text}
use micro_joule_attribution.Registry.{AmalgafyRegistry, total_micro_joules}
use micro_joule_attribution.Registry.Laws.{IsValid}
use micro_joule_attribution.Provider.Sampling.{start_sampling_loop, initial}
use micro_joule_attribution.Base.Results.{Result, ok, err, Error}
use micro_joule_attribution.Attribution.{baseline_burst_power_uw}
use micro_joule_attribution.Registry.Table.{SkipMap}
use micro_joule_attribution.Provider.{PowerSnapshot}
use micro_joule_attribution.Provider.Sampling.{delta_between}
use micro_joule_attribution.Provider.Sampling.Ledger.{delta_sum, samples_of, loop-Grown}
use micro_joule_attribution.Linux.{
  LinuxProvider, RaplState, RaplReading, counter_delta, power_since, clock_ns, wrap_point,
  read_energy_file, record_rapl, snapshot_of, linux_energy_provider, new,
}
use micro_joule_attribution.Linux.Rapl.{
  counter_delta-advance, power_uw_of-window, sample_power_state_ok, sample_power_state_err,
}

-- Between two rounds the package uses some energy, and the loop takes a reading.
pub record Round : Type 0 where
  pub used_uj : ℕ
  pub reading : RaplReading

abbrev pub used : List Round → ℕ
used [] = 0
used (t ∷ rounds) = t.used_uj + used rounds

-- The counter wraps after `max_uj`, shows the energy used since it was zero, and makes less than a
-- turn between two rounds. A reading may fail.
abbrev pub Counts : ℕ → ℕ → List Round → Type 0
Counts max_uj total [] = Unit {0}
Counts max_uj total (t ∷ rounds) =
    (t.used_uj ≤ max_uj)
    × (wrap_point none t.reading.max_range_file ≡ max_uj)
    × ((read_energy_file t.reading.energy_file ≡ ok ((total + t.used_uj) % (max_uj + 1)))
        ⊎ ((x : Error) × (read_energy_file t.reading.energy_file ≡ err x)))
    × Counts max_uj (total + t.used_uj) rounds

-- The wrap point that the provider has stored, if any, is the counter's.
abbrev KnowsWrap : ℕ → Option RaplState → Type 0
KnowsWrap max_uj none = Unit {0}
KnowsWrap max_uj (some st) = st.max_energy_uj ≡ max_uj

-- After a snapshot the stored reading is the counter's, taken at the snapshot's time.
abbrev InStep : ℕ → ℕ → Option RaplState → Option PowerSnapshot → Type 0
InStep max_uj total state none = KnowsWrap max_uj state
InStep max_uj total none (some s) = ⊥
InStep max_uj total (some st) (some s) =
    (st.max_energy_uj ≡ max_uj)
    × (st.energy_uj ≡ total % (max_uj + 1))
    × (s.observed_at_ns ≡ st.observed_at_ns)

module _ (S : SkipMap) (max_uj : ℕ) (small : max_uj < u64_max) where
  turn :
      (total d : ℕ)
      → d ≤ max_uj
      → counter_delta max_uj (total % (max_uj + 1)) ((total + d) % (max_uj + 1)) ≡ d
  turn total d h =
      let start : total % (max_uj + 1) < max_uj + 1 = mod-lt total (omega arith) in
      rw (← mod-add-mod total (max_uj + 1) d)
        (counter_delta-advance max_uj (total % (max_uj + 1)) d small (omega arith) h)

  wrap-knows :
      (state : Option RaplState) (t : Round)
      → KnowsWrap max_uj state
      → wrap_point none t.reading.max_range_file ≡ max_uj
      → wrap_point state t.reading.max_range_file ≡ max_uj
  unfolding wrap_point
  wrap-knows none t k h = h
  wrap-knows (some st) t k h = k

  InStep-knows :
      (total : ℕ) (state : Option RaplState) (previous : Option PowerSnapshot)
      → InStep max_uj total state previous
      → KnowsWrap max_uj state
  InStep-knows total state none i = i
  InStep-knows total none (some s) i = absurd i
  InStep-knows total (some st) (some s) i = i.0

  -- The energy entered for a round that succeeds after a snapshot.
  step_delta-le :
      (p : LinuxProvider) (t : Round) (st : RaplState) (s : PowerSnapshot) (total : ℕ)
      → p.rapl_state ≡ some st
      → InStep max_uj total (some st) (some s)
      → t.used_uj ≤ max_uj
      → let (q, (power_uw, observed_at_ns)) =
          record_rapl p t.reading ((total + t.used_uj) % (max_uj + 1)) in
        delta_between s (snapshot_of q power_uw observed_at_ns) ≤ t.used_uj
  unfolding delta_between snapshot_of record_rapl power_since baseline_burst_power_uw wrap_point
  step_delta-le p t st s total e i h =
      let e' = (total + t.used_uj) % (max_uj + 1) in
      let dt = clock_ns t.reading.unix_time_ns - st.observed_at_ns in
      rw (e, i.0, i.1, i.2, sub-zero)
        (le_trans (power_uw_of-window (counter_delta max_uj (total % (max_uj + 1)) e') dt)
          (le_of_eq (turn total t.used_uj h)))

  InStep-recorded :
      (p : LinuxProvider) (t : Round) (total : ℕ)
      → KnowsWrap max_uj p.rapl_state
      → wrap_point none t.reading.max_range_file ≡ max_uj
      → let (q, (power_uw, observed_at_ns)) =
          record_rapl p t.reading ((total + t.used_uj) % (max_uj + 1)) in
        InStep max_uj
          (total + t.used_uj)
          q.rapl_state
          (some (snapshot_of q power_uw observed_at_ns))
  unfolding record_rapl snapshot_of
  InStep-recorded p t total k w = (wrap-knows p.rapl_state t k w, refl, refl)

  first-le :
      (p : LinuxProvider) (t : Round) (state : Option RaplState) (previous : Option PowerSnapshot)
      (total : ℕ)
      → p.rapl_state ≡ state
      → InStep max_uj total state previous
      → t.used_uj ≤ max_uj
      → (samples : List (Result PowerSnapshot Error))
      → let (q, (power_uw, observed_at_ns)) =
          record_rapl p t.reading ((total + t.used_uj) % (max_uj + 1)) in
        let snapshot = snapshot_of q power_uw observed_at_ns in
        delta_sum previous (ok snapshot ∷ samples) ≤ t.used_uj + delta_sum (some snapshot) samples
  first-le p t state none total e i h samples = omega arith
  first-le p t none (some s) total e i h samples = absurd i
  first-le p t (some st) (some s) total e i h samples =
      omega (arith, step_delta-le p t st s total e i h)

  -- A row of rounds, from any state that is in step with the counter.
  entered-le :
      (rounds : List Round) (p : LinuxProvider) (previous : Option PowerSnapshot) (total : ℕ)
      → InStep max_uj total p.rapl_state previous
      → Counts max_uj total rounds
      → delta_sum previous (samples_of S (linux_energy_provider S) p (map (λ t. t.reading) rounds))
        ≤ used rounds
  entered-le [] p previous total i c = omega arith
  entered-le (t ∷ rounds) p previous total i (less, wraps, inl reads, c) =
      let e = (total + t.used_uj) % (max_uj + 1) in
      let (q, (power_uw, observed_at_ns)) = record_rapl p t.reading e in
      let snapshot = snapshot_of q power_uw observed_at_ns in
      let synced = InStep-recorded p t total (InStep-knows total p.rapl_state previous i) wraps in
      let rest = entered-le rounds q (some snapshot) (total + t.used_uj) synced c in
      rw (sample_power_state_ok p t.reading e reads) (
        le_trans
          (first-le p t p.rapl_state previous total refl i less
            (samples_of S (linux_energy_provider S) q (map (λ r. r.reading) rounds)))
          (omega arith))
  entered-le (t ∷ rounds) p previous total i (less, wraps, inr (x, fails), c) =
      let rest =
        entered-le rounds p none (total + t.used_uj) (InStep-knows total p.rapl_state previous i)
          c in
      rw (sample_power_state_err p t.reading x fails) (omega arith)

  -- From a new provider and a well-formed registry, the sampling loop raises the registry's total
  -- by at most the energy that the package uses during the rounds. The energy counter wraps after
  -- a known maximum below the largest u64 and makes less than a turn between two rounds; any of
  -- the readings may fail.
  pub loop-le-used :
      (signature : Text) (rounds : List Round) (total : ℕ) (registry : AmalgafyRegistry S)
      → Counts max_uj total rounds
      → IsValid S registry
      → total_micro_joules S
          (start_sampling_loop S
            (linux_energy_provider S)
            (initial S (linux_energy_provider S) (new signature) registry)
            (map (λ t. t.reading) rounds)).registry
        ≤ total_micro_joules S registry + used rounds
  unfolding new
  loop-le-used signature rounds total registry c v =
      let linux = linux_energy_provider S in
      let start = initial S linux (new signature) registry in
      let ledger = loop-Grown S linux start (map (λ t. t.reading) rounds) v (omega arith) in
      omega (arith, ledger.total, entered-le rounds (new signature) none total tt c)
