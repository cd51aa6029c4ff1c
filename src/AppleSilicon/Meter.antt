-- ===== src/AppleSilicon/Meter.antt =====
-- The Apple Silicon provider (src/providers/apple_silicon.rs) under the sampling loop, against a counter
-- of the energy that is used.
use micro_joule_attribution.Base.{
  ℕ, ◌+◌, ◌-◌, ◌*◌, ◌/◌, ◌≤◌, ◌≡◌, ◌≢◌, refl, sym, ◌∙◌, ap, arith, List, [], ◌∷◌, map, Bool, true,
  false, Option, none, some,
}
use micro_joule_attribution.Base.Results.{Result, ok, err, Error}
use micro_joule_attribution.Base.Texts.{Text}
use micro_joule_attribution.Attribution.{baseline_burst_power_uw}
use micro_joule_attribution.Registry.Table.{SkipMap}
use micro_joule_attribution.Registry.{AmalgafyRegistry, total_micro_joules}
use micro_joule_attribution.Registry.Laws.{IsValid}
use micro_joule_attribution.Provider.{PowerSnapshot}
use micro_joule_attribution.Provider.Sampling.{delta_between, start_sampling_loop, initial}
use micro_joule_attribution.Provider.Sampling.Ledger.{delta_sum, samples_of, loop-Grown}
use micro_joule_attribution.AppleSilicon.{
  AppleEnergyDelta, IoChannel, IoReport, fold_energy, wall_clock_ns, AppleSiliconProvider,
  IoReading, with_idle_power_uw, seed, advance, compare, delta_since, sample_energy_model_delta,
  stamp, sample_power_state, apple_energy_provider,
}
use micro_joule_attribution.AppleSilicon.Energy.{
  sum_uj, counted_nj, sum-channel_deltas, fold_energy-le, entered-le,
}

-- A counter of the energy since the subscription: the channels of a delta have counted together no
-- more than what lies between its two sets of samples.
pub record Meter (I : IoReport) : Type 0 where
  pub nj : I.Samples → ℕ
  pub delta-le :
      (prev curr : I.Samples) (slots : List (Option IoChannel))
      → I.create_samples_delta prev curr ≡ some (some slots)
      → counted_nj slots ≤ nj curr - nj prev

-- Between two rounds the machine uses some energy, and the loop takes a reading.
pub record Round (I : IoReport) : Type 0 where
  pub used_nj : ℕ
  pub reading : IoReading I

abbrev pub used_nj_of : {I : IoReport} → List (Round I) → ℕ
used_nj_of [] = 0
used_nj_of (t ∷ rounds) = t.used_nj + used_nj_of rounds

-- A set of samples that is taken shows the energy used so far.
abbrev pub Shows : {I : IoReport} → Meter I → ℕ → List (Round I) → Type 0
Shows m total [] = Unit {0}
Shows {I} m total (t ∷ rounds) =
    ((samples : I.Samples) → t.reading.samples ≡ some samples → m.nj samples ≡ total + t.used_nj)
    × Shows m (total + t.used_nj) rounds

module _ (I : IoReport) (m : Meter I) where
  -- After a snapshot the stored samples show the energy so far, and the stamp is the snapshot's.
  abbrev InStep : ℕ → AppleSiliconProvider I → Option PowerSnapshot → Type 0
  InStep total p none = Unit {0}
  InStep total p (some s) =
      ((prev : I.Samples) × (p.previous_samples ≡ some prev) × (m.nj prev ≡ total))
      × (s.observed_at_ns ≡ p.last_observed_at_ns)

  -- What a reading of IOReport has left behind, if it succeeded.
  abbrev Read :
      ℕ
      → ℕ
      → AppleSiliconProvider I
      → Option PowerSnapshot
      → AppleSiliconProvider I × Result (List AppleEnergyDelta) Error
      → Type 0
  Read total used p previous (q, err e) = Unit {0}
  Read total used p previous (q, ok deltas) =
      ((prev : I.Samples) × (q.previous_samples ≡ some prev) × (m.nj prev ≡ total + used))
      × (q.last_observed_at_ns ≡ p.last_observed_at_ns)
      × ((s : PowerSnapshot) → previous ≡ some s → sum_uj deltas * 1_000 ≤ used)

  -- The same after the stamp.
  abbrev Turn :
      ℕ → ℕ → Option PowerSnapshot → AppleSiliconProvider I × Result PowerSnapshot Error → Type 0
  Turn total used previous (q, err e) = Unit {0}
  Turn total used previous (q, ok snapshot) =
      InStep (total + used) q (some snapshot)
      × ((s : PowerSnapshot) → previous ≡ some s → delta_between s snapshot * 1_000 ≤ used)

  advance-Read :
      (p : AppleSiliconProvider I) (prev curr : I.Samples) (cf_string : Bool) (total used : ℕ)
      (previous : Option PowerSnapshot) (o : Option (Option (List (Option IoChannel))))
      → I.create_samples_delta prev curr ≡ o
      → m.nj curr ≡ total + used
      → ((s : PowerSnapshot) → previous ≡ some s → m.nj prev ≡ total)
      → Read total used p previous (advance I p curr cf_string o)
  unfolding advance
  advance-Read p prev curr cf_string total used previous none e n h = tt
  advance-Read p prev curr false total used previous (some array) e n h = tt
  advance-Read p prev curr true total used previous (some none) e n h = tt
  advance-Read p prev curr true total used previous (some (some slots)) e n h = (
    (curr, refl, n),
    refl,
    λ s f. omega (arith, m.delta-le prev curr slots e, sum-channel_deltas slots, h s f, n),
  )

  compare-Read :
      (p : AppleSiliconProvider I) (prev : I.Samples) (cf_string : Bool)
      (samples : Option I.Samples) (total used : ℕ) (previous : Option PowerSnapshot)
      → ((curr : I.Samples) → samples ≡ some curr → m.nj curr ≡ total + used)
      → ((s : PowerSnapshot) → previous ≡ some s → m.nj prev ≡ total)
      → Read total used p previous (compare I p prev cf_string samples)
  unfolding compare
  compare-Read p prev cf_string none total used previous n h = tt
  compare-Read p prev cf_string (some curr) total used previous n h =
      advance-Read p prev curr cf_string total used previous (I.create_samples_delta prev curr) refl
        (n curr refl) h

  none-some_snapshot : {s : PowerSnapshot} → none ≢ some s
  none-some_snapshot f = cc

  some_eq : {a b : I.Samples} → some a ≡ some b → a ≡ b
  some_eq e = cc

  observed_eq : {s u : PowerSnapshot} → some s ≡ some u → u.observed_at_ns ≡ s.observed_at_ns
  observed_eq f = cc

  stamp-Turn :
      (p : AppleSiliconProvider I) (total used observed_at_ns : ℕ) (previous : Option PowerSnapshot)
      (x : AppleSiliconProvider I × Result (List AppleEnergyDelta) Error)
      → InStep total p previous
      → Read total used p previous x
      → Turn total used previous (stamp I observed_at_ns x)
  unfolding stamp delta_between baseline_burst_power_uw
  stamp-Turn p total used now previous (q, err e) i r = tt
  stamp-Turn p total used now none (q, ok deltas) i (kept, same, less) =
      ((kept, refl), λ s f. absurd (cc))
  stamp-Turn p total used now (some s) (q, ok deltas) i (kept, same, less) = (
    (kept, refl),
    λ u f.
        let at : u.observed_at_ns ≡ q.last_observed_at_ns = observed_eq f ∙ i.1 ∙ sym same in
        rw at (
          omega (
            arith,
            entered-le q.last_observed_at_ns now (fold_energy 0 deltas) q.idle_power_uw,
            fold_energy-le 0 deltas,
            less u f,
          )),
  )

  seed-Read :
      (p : AppleSiliconProvider I) (cf_string catalogue subscription : Bool)
      (samples : Option I.Samples) (total used : ℕ) (previous : Option PowerSnapshot)
      → ((curr : I.Samples) → samples ≡ some curr → m.nj curr ≡ total + used)
      → Read total used p previous (seed I p cf_string catalogue subscription samples)
  unfolding seed
  seed-Read p false catalogue subscription samples total used previous n = tt
  seed-Read p true false subscription samples total used previous n = tt
  seed-Read p true true false samples total used previous n = tt
  seed-Read p true true true none total used previous n = tt
  seed-Read p true true true (some curr) total used previous n =
      ((curr, refl, n curr refl), refl, λ s g. omega arith)

  -- The stored samples of a provider that is in step show the energy so far.
  stored-nj :
      (total : ℕ) (p : AppleSiliconProvider I) (previous : Option PowerSnapshot)
      → InStep total p previous
      → (prev : I.Samples) → p.previous_samples ≡ some prev
      → (s : PowerSnapshot) → previous ≡ some s
      → m.nj prev ≡ total
  stored-nj total p none i prev e s f = absurd (none-some_snapshot f)
  stored-nj total p (some u) ((a, b, c), d) prev e s f = ap m.nj (some_eq (sym e ∙ b)) ∙ c

  delta_since-Read :
      (p : AppleSiliconProvider I) (reading : IoReading I) (o : Option I.Samples) (total used : ℕ)
      (previous : Option PowerSnapshot)
      → p.previous_samples ≡ o
      → InStep total p previous
      → ((curr : I.Samples) → reading.samples ≡ some curr → m.nj curr ≡ total + used)
      → Read total used p previous (delta_since I p reading o)
  unfolding delta_since
  delta_since-Read p reading none total used previous e i n =
      seed-Read p reading.cf_string reading.catalogue reading.subscription reading.samples total
        used previous n
  delta_since-Read p reading (some prev) total used previous e i n =
      compare-Read p prev reading.cf_string reading.samples total used previous n
        (stored-nj total p previous i prev e)

  sample-Turn :
      (p : AppleSiliconProvider I) (reading : IoReading I) (total used : ℕ)
      (previous : Option PowerSnapshot)
      → InStep total p previous
      → ((curr : I.Samples) → reading.samples ≡ some curr → m.nj curr ≡ total + used)
      → Turn total used previous (sample_power_state I p reading)
  unfolding sample_power_state sample_energy_model_delta
  sample-Turn p reading total used previous i n =
      stamp-Turn p total used (wall_clock_ns reading.unix_time_ns) previous
        (delta_since I p reading p.previous_samples) i
        (delta_since-Read p reading p.previous_samples total used previous refl i n)

  -- The energy that one sample adds, and the state after it.
  Turn-le :
      (total used : ℕ) (previous : Option PowerSnapshot) (q : AppleSiliconProvider I)
      (r : Result PowerSnapshot Error) (rest : List (Result PowerSnapshot Error)) (later : ℕ)
      → Turn total used previous (q, r)
      → ((after : Option PowerSnapshot)
          → InStep (total + used) q after
          → delta_sum after rest * 1_000 ≤ later)
      → delta_sum previous (r ∷ rest) * 1_000 ≤ used + later
  Turn-le total used none q (err x) rest later turn k = omega (arith, k none tt)
  Turn-le total used (some s) q (err x) rest later turn k = omega (arith, k none tt)
  Turn-le total used none q (ok snapshot) rest later (i, less) k =
      omega (arith, k (some snapshot) i)
  Turn-le total used (some s) q (ok snapshot) rest later (i, less) k =
      omega (arith, k (some snapshot) i, less s refl)

  -- A row of rounds from any state that is in step with the counter.
  entered-used :
      (S : SkipMap) (rounds : List (Round I)) (p : AppleSiliconProvider I)
      (previous : Option PowerSnapshot) (total : ℕ)
      → InStep total p previous
      → Shows m total rounds
      → delta_sum previous
            (samples_of S (apple_energy_provider I S) p (map (λ t. t.reading) rounds))
          * 1_000
        ≤ used_nj_of rounds
  entered-used S [] p previous total i h = omega arith
  entered-used S (t ∷ rounds) p previous total i (shows, h) =
      let (q, r) = sample_power_state I p t.reading in
      Turn-le total t.used_nj previous q r
        (samples_of S (apple_energy_provider I S) q (map (λ u. u.reading) rounds))
        (used_nj_of rounds) (sample-Turn p t.reading total t.used_nj previous i shows)
        (λ after j. entered-used S rounds q after (total + t.used_nj) j h)

  -- From a new provider and a well-formed registry, the sampling loop raises the registry's total
  -- by at most the energy, in nano-joules and then divided by a thousand, that is used during the
  -- rounds. The samples that are taken show the energy used so far, and the channels of a delta
  -- have counted together no more than what lies between its two sets of samples; any step of a
  -- reading may fail.
  pub loop-le-used_nj :
      (S : SkipMap) (signature : Text) (idle_power_uw : ℕ) (rounds : List (Round I)) (total : ℕ)
      (registry : AmalgafyRegistry S)
      → Shows m total rounds
      → IsValid S registry
      → total_micro_joules S
          (start_sampling_loop S
            (apple_energy_provider I S)
            (initial S
              (apple_energy_provider I S)
              (with_idle_power_uw I signature idle_power_uw)
              registry)
            (map (λ t. t.reading) rounds)).registry
        ≤ total_micro_joules S registry + used_nj_of rounds / 1_000
  loop-le-used_nj S signature idle_power_uw rounds total registry h v =
      let apple = apple_energy_provider I S in
      let p = with_idle_power_uw I signature idle_power_uw in
      let ledger =
        loop-Grown S apple (initial S apple p registry) (map (λ t. t.reading) rounds) v
          (omega arith) in
      omega (arith, ledger.total, entered-used S rounds p none total tt h)
