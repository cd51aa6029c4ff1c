-- ===== src/AppleSilicon.antt =====
-- src/providers/apple_silicon.rs: the Apple Silicon provider over IOReport. The frameworks are not
-- part of the repository: what a call of one of them answers is an argument, and a set of samples is
-- a value of a type that the interface `IoReport` leaves open.
pub mod Channels
pub mod Handles
pub mod Energy
pub mod Meter
use micro_joule_attribution.Base.{
  ℕ, zero, suc, ◌+◌, ◌*◌, ◌/◌, ◌++◌, List, [], ◌∷◌, Bool, true, false, Option, none, some, ◌==◌,
  leb, if◌then◌else◌, saturating_add, saturating_sub, clamp_u64, u64_max,
}
use micro_joule_attribution.Base.Texts.{Text, text_eq}
use micro_joule_attribution.Base.Results.{Result, ok, err, Error}
use micro_joule_attribution.Registry.Table.{SkipMap}
use micro_joule_attribution.Registry.{AmalgafyRegistry}
use micro_joule_attribution.Provider.{
  PowerSnapshot, PidEnergyAttribution, baseline_burst, EnergyProvider,
}
use micro_joule_attribution.Provider.Draining.{drain}

abbrev pub nj_per_uj : ℕ
nj_per_uj = 1_000

pub record AppleEnergyDelta : Type 0 where
  pub channel_name : Text
  pub energy_uj : ℕ

-- An `i64`: not negative, or below zero.
pub data ℤ : Type 0 where
  pos : ℕ → ℤ
  negsuc : ℕ → ℤ

-- A channel of a delta: its name, `none` if it is missing or no UTF-8, and its simple value.
pub record IoChannel : Type 0 where
  pub name : Option Text
  pub raw_nj : ℤ

-- `IOReportCreateSamplesDelta` with its `IOReportChannels` array: the outer `none` is a null delta,
-- the inner one a delta without the array, and the one in the array a null slot.
pub record IoReport : Type 1 where
  pub Samples : Type 0
  pub create_samples_delta : Samples → Samples → Option (Option (List (Option IoChannel)))

-- The entry that a channel makes in the result; `continue` makes none.
unfoldable pub energy_entry : Option Text → ℤ → Option AppleEnergyDelta
energy_entry none raw_nj = none
energy_entry (some name) (negsuc k) = none
energy_entry (some name) (pos zero) = none
energy_entry (some name) (pos (suc k)) =
    some (record { channel_name = name; energy_uj = suc k / nj_per_uj })

unfoldable pub channel_delta : Option IoChannel → Option AppleEnergyDelta
unfolding energy_entry
channel_delta none = none
channel_delta (some channel) = energy_entry channel.name channel.raw_nj

unfoldable pub push_some : Option AppleEnergyDelta → List AppleEnergyDelta → List AppleEnergyDelta
push_some none out = out
push_some (some d) out = d ∷ out

-- The loop over the array.
unfoldable pub channel_deltas : List (Option IoChannel) → List AppleEnergyDelta
unfolding channel_delta push_some
channel_deltas [] = []
channel_deltas (slot ∷ slots) = push_some (channel_delta slot) (channel_deltas slots)

unfoldable pub fold_energy : ℕ → List AppleEnergyDelta → ℕ
fold_energy acc [] = acc
fold_energy acc (d ∷ deltas) = fold_energy (saturating_add acc d.energy_uj) deltas

unfoldable pub mean_power_uw : ℕ → ℕ → ℕ
mean_power_uw total_uj dt_ns =
    if dt_ns == 0 then 0 else clamp_u64 (total_uj * 1_000_000_000 / dt_ns)

-- The gap to the previous sample; a stamp of zero means that there is none.
unfoldable pub sample_gap_ns : ℕ → ℕ → ℕ
sample_gap_ns last_observed_at_ns observed_at_ns =
    if last_observed_at_ns == 0 then 0 else saturating_sub observed_at_ns last_observed_at_ns

unfoldable pub wall_clock_ns : Option ℕ → ℕ
wall_clock_ns none = 0
wall_clock_ns (some n) = if leb n u64_max then n else u64_max

module _ (I : IoReport) where
  pub record AppleSiliconProvider : Type 0 where
    pub hardware_signature : Text
    pub pending : List PidEnergyAttribution
    pub last_observed_at_ns : ℕ
    pub previous_samples : Option I.Samples
    pub active_pids : List ℕ
    pub idle_power_uw : ℕ

  -- What IOReport and the clock answer during one call: whether the string of the call can be made, the
  -- group's name in the first one and the key of the array in a later one, whether the other steps that
  -- open a subscription succeed, and a new set of samples.
  pub record IoReading : Type 0 where
    pub cf_string : Bool
    pub catalogue : Bool
    pub subscription : Bool
    pub samples : Option I.Samples
    pub unix_time_ns : Option ℕ

  unfoldable pub with_idle_power_uw : Text → ℕ → AppleSiliconProvider
  with_idle_power_uw hardware_signature idle_power_uw = record {
    hardware_signature = hardware_signature;
    pending = [];
    last_observed_at_ns = 0;
    previous_samples = none;
    active_pids = [];
    idle_power_uw = idle_power_uw;
  }

  unfoldable pub new : Text → AppleSiliconProvider
  unfolding with_idle_power_uw
  new hardware_signature = with_idle_power_uw hardware_signature 0

  unfoldable pub set_idle_power_uw : AppleSiliconProvider → ℕ → AppleSiliconProvider
  set_idle_power_uw p idle_power_uw = record p { idle_power_uw = idle_power_uw }

  unfoldable pub enqueue_attribution :
      AppleSiliconProvider → PidEnergyAttribution → AppleSiliconProvider
  enqueue_attribution p attribution = record p { pending = p.pending ++ attribution ∷ [] }

  unfoldable pub set_active_pids : AppleSiliconProvider → List ℕ → AppleSiliconProvider
  set_active_pids p pids = record p { active_pids = pids }

  -- The first call, step by step: the group's name, its channels, a subscription to them, and samples
  -- to compare the next ones with.
  unfoldable pub seed :
      AppleSiliconProvider
      → Bool
      → Bool
      → Bool
      → Option I.Samples
      → AppleSiliconProvider × Result (List AppleEnergyDelta) Error
  seed p false catalogue subscription samples = (p, err Error.cf_string)
  seed p true false subscription samples = (p, err Error.io_report_catalogue)
  seed p true true false samples = (p, err Error.io_report_subscription)
  seed p true true true none = (p, err Error.io_report_samples)
  seed p true true true (some samples) = (record p { previous_samples = some samples }, ok [])

  -- The delta of the new samples, and the window moved forward where it can be read: the delta is there,
  -- the key of its array can be made, and it has the array.
  unfoldable pub advance :
      AppleSiliconProvider
      → I.Samples
      → Bool
      → Option (Option (List (Option IoChannel)))
      → AppleSiliconProvider × Result (List AppleEnergyDelta) Error
  advance p curr cf_string none = (p, err Error.io_report_delta)
  advance p curr false (some array) = (p, err Error.cf_string)
  advance p curr true (some none) = (p, err Error.io_report_channels)
  advance p curr true (some (some slots)) =
      (record p { previous_samples = some curr }, ok (channel_deltas slots))

  unfoldable pub compare :
      AppleSiliconProvider
      → I.Samples
      → Bool
      → Option I.Samples
      → AppleSiliconProvider × Result (List AppleEnergyDelta) Error
  unfolding advance
  compare p prev cf_string none = (p, err Error.io_report_samples)
  compare p prev cf_string (some curr) = advance p curr cf_string (I.create_samples_delta prev curr)

  -- By the samples of the previous call, if there was one.
  unfoldable pub delta_since :
      AppleSiliconProvider
      → IoReading
      → Option I.Samples
      → AppleSiliconProvider × Result (List AppleEnergyDelta) Error
  unfolding seed compare
  delta_since p reading none =
      seed p reading.cf_string reading.catalogue reading.subscription reading.samples
  delta_since p reading (some prev) = compare p prev reading.cf_string reading.samples

  unfoldable pub sample_energy_model_delta :
      AppleSiliconProvider → IoReading → AppleSiliconProvider × Result (List AppleEnergyDelta) Error
  unfolding delta_since
  sample_energy_model_delta p reading = delta_since p reading p.previous_samples

  -- The rest of `sample_power_state` once the deltas are known.
  unfoldable pub stamp :
      ℕ
      → AppleSiliconProvider × Result (List AppleEnergyDelta) Error
      → AppleSiliconProvider × Result PowerSnapshot Error
  stamp observed_at_ns (p, err e) = (p, err Error.io_report_sampling_failed)
  stamp observed_at_ns (p, ok deltas) =
      let dt_ns = sample_gap_ns p.last_observed_at_ns observed_at_ns in
      let active_power_uw = mean_power_uw (fold_energy 0 deltas) dt_ns in
      (
        record p { last_observed_at_ns = observed_at_ns },
        ok (record {
          observed_at_ns = observed_at_ns;
          idle_power_uw = p.idle_power_uw;
          active_power_uw = active_power_uw;
          cpu_power_uw = 0;
          gpu_power_uw = 0;
          accelerator_power_uw = active_power_uw;
          hardware_signature = p.hardware_signature;
        }),
      )

  unfoldable pub sample_power_state :
      AppleSiliconProvider → IoReading → AppleSiliconProvider × Result PowerSnapshot Error
  unfolding stamp
  sample_power_state p reading =
      stamp (wall_clock_ns reading.unix_time_ns) (sample_energy_model_delta p reading)

  unfoldable pub attribute_joules_to_pid :
      AppleSiliconProvider
      → ℕ
      → ℕ
      → ℕ
      → PowerSnapshot
      → AppleSiliconProvider × Result PidEnergyAttribution Error
  attribute_joules_to_pid p pid window_start_ns window_end_ns snapshot =
      if text_eq snapshot.hardware_signature p.hardware_signature
      then (p, ok (baseline_burst pid window_start_ns window_end_ns snapshot))
      else (p, err Error.other_hardware)

  module _ (S : SkipMap) where
    unfoldable pub sync_registry :
        AppleSiliconProvider
        → AmalgafyRegistry S
        → AppleSiliconProvider × AmalgafyRegistry S × Result ℕ Error
    sync_registry p registry =
        let (drained, total) = drain S p.pending registry 0 in
        (record p { pending = [] }, drained, ok total)

    abbrev pub apple_energy_provider : EnergyProvider S
    apple_energy_provider = record {
      Provider = AppleSiliconProvider;
      Reading = IoReading;
      sample_power_state = sample_power_state;
      attribute_joules_to_pid = attribute_joules_to_pid;
      sync_registry = sync_registry;
      hardware_signature = λ p. p.hardware_signature;
      active_pids = λ p. p.active_pids;
    }
