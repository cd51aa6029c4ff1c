-- ===== src/Provider/Sampling/Ledger.antt =====
-- What a run of the sampling loop of src/core/provider.rs enters in the registry.
use micro_joule_attribution.Base.{
  ℕ, ◌+◌, ◌≤◌, ◌≡◌, refl, sym, subst, arith, List, [], ◌∷◌, Option, none, some, saturating_add,
  u64_max,
}
use micro_joule_attribution.Base.Results.{Result, ok, err, Error}
use micro_joule_attribution.Attribution.{window_energy_uj}
use micro_joule_attribution.Registry.Table.{SkipMap}
use micro_joule_attribution.Registry.{total_micro_joules}
use micro_joule_attribution.Registry.Laws.{IsValid}
use micro_joule_attribution.Registry.Total.{total-le}
use micro_joule_attribution.Provider.{PowerSnapshot, EnergyProvider}
use micro_joule_attribution.Provider.Sampling.{
  delta_between, split_delta, Sampler, absorb, settle, tick, start_sampling_loop,
}
use micro_joule_attribution.Provider.Sampling.Split.{total-split_delta, split_delta-IsValid}

-- The energy of a row of samples: that between each snapshot and the one just before it. A failed
-- sample separates what stands on its two sides.
abbrev pub delta_sum : Option PowerSnapshot → List (Result PowerSnapshot Error) → ℕ
delta_sum previous [] = 0
delta_sum previous (err e ∷ samples) = delta_sum none samples
delta_sum none (ok snapshot ∷ samples) = delta_sum (some snapshot) samples
delta_sum (some prev) (ok snapshot ∷ samples) =
    delta_between prev snapshot + delta_sum (some snapshot) samples

delta_between-le : (prev snapshot : PowerSnapshot) → delta_between prev snapshot ≤ u64_max
unfolding delta_between window_energy_uj
delta_between-le prev snapshot = omega arith

module _ (S : SkipMap) (E : EnergyProvider S) where
  -- The results of the samples that the loop takes.
  abbrev pub samples_of : E.Provider → List E.Reading → List (Result PowerSnapshot Error)
  samples_of provider [] = []
  samples_of provider (reading ∷ readings) =
      (E.sample_power_state provider reading).1
      ∷ samples_of (E.sample_power_state provider reading).0 readings

  -- The registry's total and the loop's own sum have both grown by `energy`.
  pub record Grown (s t : Sampler S E) (energy : ℕ) : Type 0 where
    pub valid : IsValid S t.registry
    pub total :
        total_micro_joules S t.registry ≡ saturating_add (total_micro_joules S s.registry) energy
    pub cumulative : t.cumulative_delta_uj ≡ saturating_add s.cumulative_delta_uj energy

  pub absorb_seed :
      (s : Sampler S E) (snapshot : PowerSnapshot)
      → s.previous_snapshot ≡ none
      → absorb S E s snapshot ≡ record s { previous_snapshot = some snapshot }
  unfolding absorb
  absorb_seed s snapshot e = rw (e, absorb)

  pub absorb_delta :
      (s : Sampler S E) (prev snapshot : PowerSnapshot)
      → s.previous_snapshot ≡ some prev
      → absorb S E s snapshot ≡ record s {
        registry =
            split_delta S s.registry (E.active_pids s.provider) (delta_between prev snapshot);
        previous_snapshot = some snapshot;
        cumulative_delta_uj = saturating_add s.cumulative_delta_uj (delta_between prev snapshot);
      }
  unfolding absorb
  absorb_delta s prev snapshot e = rw (e, absorb)

  Grown-trans : {s t u : Sampler S E} {a b : ℕ} → Grown s t a → Grown t u b → Grown s u (a + b)
  Grown-trans g h = record {
    valid = h.valid;
    total = omega (arith, g.total, h.total);
    cumulative = omega (arith, g.cumulative, h.cumulative);
  }

  -- The energy that one sample adds.
  abbrev first_delta : Option PowerSnapshot → Result PowerSnapshot Error → ℕ
  first_delta previous (err e) = 0
  first_delta none (ok snapshot) = 0
  first_delta (some prev) (ok snapshot) = delta_between prev snapshot

  unchanged :
      (s t : Sampler S E)
      → IsValid S s.registry
      → s.cumulative_delta_uj ≤ u64_max
      → t.registry ≡ s.registry
      → t.cumulative_delta_uj ≡ s.cumulative_delta_uj
      → Grown s t 0
  unchanged s t v small same_registry same_sum = record {
    valid = subst (IsValid S) (sym same_registry) v;
    total = rw same_registry (omega (arith, total-le S s.registry));
    cumulative = omega arith;
  }

  settle-Grown :
      (s : Sampler S E) (sample : Result PowerSnapshot Error) (previous : Option PowerSnapshot)
      → s.previous_snapshot ≡ previous
      → IsValid S s.registry
      → s.cumulative_delta_uj ≤ u64_max
      → Grown s (settle S E s sample) (first_delta previous sample)
  unfolding settle
  settle-Grown s (err x) previous e v small = unchanged s _ v small refl refl
  settle-Grown s (ok snapshot) none e v small =
      rw (absorb_seed s snapshot e) (unchanged s _ v small refl refl)
  settle-Grown s (ok snapshot) (some prev) e v small =
      let pids = E.active_pids s.provider in
      let delta = delta_between prev snapshot in
      let fits = delta_between-le prev snapshot in
      rw (absorb_delta s prev snapshot e) (record {
        valid = split_delta-IsValid S s.registry pids delta fits v;
        total = total-split_delta S s.registry pids delta fits v;
        cumulative = refl;
      })

  delta_sum-settle :
      (s : Sampler S E) (sample : Result PowerSnapshot Error) (previous : Option PowerSnapshot)
      (rest : List (Result PowerSnapshot Error))
      → s.previous_snapshot ≡ previous
      → delta_sum previous (sample ∷ rest)
        ≡ first_delta previous sample + delta_sum (settle S E s sample).previous_snapshot rest
  unfolding settle
  delta_sum-settle s (err x) previous rest e = omega arith
  delta_sum-settle s (ok snapshot) none rest e = rw (absorb_seed s snapshot e) (omega arith)
  delta_sum-settle s (ok snapshot) (some prev) rest e = rw (absorb_delta s prev snapshot e)

  pub settle-provider :
      (s : Sampler S E) (sample : Result PowerSnapshot Error) (previous : Option PowerSnapshot)
      → s.previous_snapshot ≡ previous
      → (settle S E s sample).provider ≡ s.provider
  unfolding settle
  settle-provider s (err x) previous e = refl
  settle-provider s (ok snapshot) none e = rw (absorb_seed s snapshot e)
  settle-provider s (ok snapshot) (some prev) e = rw (absorb_delta s prev snapshot e)

  -- A run of the loop from a well-formed registry, whatever its samples and whichever PIDs are
  -- active, keeps the registry well formed and raises its total and the loop's own sum by the
  -- energies between consecutive successful samples, up to the largest u64; a failed sample
  -- separates what stands on its two sides.
  pub loop-Grown :
      (s : Sampler S E) (readings : List E.Reading)
      → IsValid S s.registry
      → s.cumulative_delta_uj ≤ u64_max
      → Grown s
          (start_sampling_loop S E s readings)
          (delta_sum s.previous_snapshot (samples_of s.provider readings))
  unfolding start_sampling_loop tick
  loop-Grown s [] v small = unchanged s s v small refl refl
  loop-Grown s (reading ∷ readings) v small =
      let (provider, sample) = E.sample_power_state s.provider reading in
      let sampled : Sampler S E = record s { provider = provider } in
      let now = settle-Grown sampled sample s.previous_snapshot refl v small in
      let after = settle S E sampled sample in
      let same = settle-provider sampled sample s.previous_snapshot refl in
      let later = loop-Grown after readings now.valid (omega (arith, now.cumulative)) in
      let whole = rw same at (Grown-trans now later) in
      rw (delta_sum-settle sampled sample s.previous_snapshot (samples_of provider readings) refl)
        (record { valid = whole.valid; total = whole.total; cumulative = whole.cumulative })
