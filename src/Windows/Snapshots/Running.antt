-- ===== src/Windows/Snapshots/Running.antt =====
-- The sampling loop of src/core/provider.rs over the provider of src/providers/windows.rs. A sample
-- may hang or panic in `sample_compute_processes`, and the sampling loop does then.
use micro_joule_attribution.Base.{
  ℕ, suc, ◌%◌, ◌^◌, ◌≡◌, ◌∙◌, refl, List, [], ◌∷◌, Option, false, if◌then◌else◌, ◌==◌, All, inl,
  inr, Bool-cases,
}
use micro_joule_attribution.Base.Results.{Result, ok, err, Error, Result-cases}
use micro_joule_attribution.Registry.Table.{SkipMap}
use micro_joule_attribution.Provider.Sampling.{Sampler, settle, tick, start_sampling_loop}
use micro_joule_attribution.Provider.Sampling.Ledger.{settle-provider}
use micro_joule_attribution.Windows.{
  WindowsProvider, NvmlProcessInfoV3, Answer, Scratch, nvml_success, nvml_error_insufficient_size,
  read_power_uw,
}
use micro_joule_attribution.Windows.Processes.{
  ProcessesAnswer, Run, returned, panicked, running, Allocator, sample_compute_processes,
}
use micro_joule_attribution.Windows.Snapshots.{
  NvmlReading, sample_power_state, sample_returned, after_refresh, refresh, windows_energy_provider,
}

-- What NVML and the clock answer in one round: the power, every call for the processes by its number
-- and the capacity that it is told, and the time.
pub record NvmlRound : Type 0 where
  pub power : Answer ℕ
  pub nvml : ℕ → ℕ → ProcessesAnswer
  pub unix_time_ns : Option ℕ

unfoldable pub and_then : {A B : Type 0} → Run A → (A → Run B) → Run B
and_then (returned a) next = next a
and_then panicked next = panicked
and_then running next = running

module _ (S : SkipMap) (alloc : Allocator) (fuel : ℕ) where
  unfoldable pub run_sampling_loop :
      Sampler S (windows_energy_provider S)
      → List NvmlRound
      → Run (Sampler S (windows_energy_provider S))
  unfolding and_then
  run_sampling_loop s [] = returned s
  run_sampling_loop s (round ∷ rounds) =
      and_then (sample_power_state alloc fuel s.provider round.power round.nvml round.unix_time_ns)
        λ (provider, sample).
          run_sampling_loop
            (settle S (windows_energy_provider S) (record s { provider = provider }) sample) rounds

-- NVML's first answer about the processes does not ask for a larger buffer than one of this capacity.
abbrev pub Answers : ℕ → NvmlRound → Type 0
Answers capacity round =
    ((round.nvml 0 (capacity % 2 ^ 32)).code == nvml_error_insufficient_size) ≡ false

-- What the first call for the processes gives.
abbrev pub first_answer :
    Scratch → ProcessesAnswer → Scratch × Result (List NvmlProcessInfoV3) Error
first_answer scratch answer =
    if answer.code == nvml_success
    then (record scratch { items = answer.infos }, ok answer.infos)
    else (scratch, err (Error.nvml answer.code))

abbrev pub reading_in : WindowsProvider → NvmlRound → NvmlReading
reading_in p round = record {
  power = round.power;
  processes = first_answer p.compute_scratch (round.nvml 0 (p.compute_scratch.capacity % 2 ^ 32));
  unix_time_ns = round.unix_time_ns;
}

abbrev pub readings_of : WindowsProvider → List NvmlRound → List NvmlReading
readings_of p [] = []
readings_of p (round ∷ rounds) =
    reading_in p round ∷ readings_of (sample_returned p (reading_in p round)).0 rounds

-- A sample as the code takes it, where its loop over the processes returns.
sample_power_state-returned :
    (alloc : Allocator) (fuel : ℕ) (p : WindowsProvider) (r : NvmlReading)
    (nvml : ℕ → ℕ → ProcessesAnswer)
    → sample_compute_processes alloc fuel nvml 0 p.compute_scratch ≡ returned r.processes
    → sample_power_state alloc fuel p r.power nvml r.unix_time_ns ≡ returned (sample_returned p r)
unfolding sample_power_state sample_returned after_refresh
sample_power_state-returned alloc fuel p r nvml e = elim (Result-cases (read_power_uw r.power)) [
  | inl (x, f) ↦ rw (f, sample_power_state, sample_returned)
  | inr (uw, f) ↦ rw (f, e, sample_power_state, sample_returned)
]

module _ (alloc : Allocator) (fuel : ℕ) where
  listed-returned :
      (p : WindowsProvider) (round : NvmlRound)
      → Answers p.compute_scratch.capacity round
      → sample_compute_processes alloc (suc fuel) round.nvml 0 p.compute_scratch
        ≡ returned (reading_in p round).processes
  unfolding sample_compute_processes
  listed-returned p round h =
      elim (Bool-cases
        ((round.nvml 0 (p.compute_scratch.capacity % 2 ^ 32)).code == nvml_success)) [
          | inl e ↦ rw (h, e)
          | inr e ↦ rw (h, e)
        ]

  -- The buffer keeps its capacity.
  sampled_capacity :
      (p : WindowsProvider) (round : NvmlRound)
      → (sample_returned p (reading_in p round)).0.compute_scratch.capacity
        ≡ p.compute_scratch.capacity
  unfolding sample_returned refresh
  sampled_capacity p round = elim (Result-cases (read_power_uw round.power)) [
    | inl (x, f) ↦ rw (f, sample_returned)
    | inr (uw, f) ↦
        elim (Bool-cases
          ((round.nvml 0 (p.compute_scratch.capacity % 2 ^ 32)).code == nvml_success)) [
            | inl e ↦ rw (f, sample_returned, e)
            | inr e ↦ rw (f, sample_returned, e)
          ]
  ]

  -- Where no answer asks for a larger buffer, the run is the loop on what the samples returned.
  pub run-sampled :
      (S : SkipMap) (rounds : List NvmlRound) (s : Sampler S (windows_energy_provider S))
      (capacity : ℕ)
      → s.provider.compute_scratch.capacity ≡ capacity
      → All (Answers capacity) rounds
      → run_sampling_loop S alloc (suc fuel) s rounds
        ≡ returned
            (start_sampling_loop S (windows_energy_provider S) s (readings_of s.provider rounds))
  unfolding run_sampling_loop start_sampling_loop and_then tick
  run-sampled S [] s capacity c a = refl
  run-sampled S (round ∷ rounds) s capacity c a =
      let windows = windows_energy_provider S in
      let (provider, sample) = sample_returned s.provider (reading_in s.provider round) in
      let sampled : Sampler S windows = record s { provider = provider } in
      let same = settle-provider S windows sampled sample s.previous_snapshot refl in
      let answers : Answers s.provider.compute_scratch.capacity round = rw c a.0 in
      let listed = listed-returned s.provider round answers in
      let rest =
        run-sampled S rounds (settle S windows sampled sample) capacity
          (rw same (sampled_capacity s.provider round ∙ c)) a.1 in
      rw
        (sample_power_state-returned alloc (suc fuel) s.provider (reading_in s.provider round)
          round.nvml listed)
        (rest ∙ rw same refl)
