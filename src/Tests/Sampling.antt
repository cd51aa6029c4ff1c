-- ===== src/Tests/Sampling.antt =====
-- The sampling loop and the Linux provider under it.
use micro_joule_attribution.Base.{
  ℕ, ◌+◌, ◌≤◌, ◌≡◌, refl, arith, List, [], ◌∷◌, map, none, some, inl, inr, saturating_add, u64_max,
}
use micro_joule_attribution.Base.Texts.{text}
use micro_joule_attribution.Base.Parse.{
  trim, trim_start, trim_end, is_whitespace, parse_u64, parse_digits,
}
use micro_joule_attribution.Base.Results.{Error, unwrap_or}
use micro_joule_attribution.Base.BTreeMap
use micro_joule_attribution.Registry.{AmalgafyRegistry, new, get, total_micro_joules}
use micro_joule_attribution.Registry.Laws.{IsValid, new-IsValid}
use micro_joule_attribution.Provider.Sampling.{Sampler, split_delta, start_sampling_loop, initial}
use micro_joule_attribution.Provider.Sampling.Split.{total-split_delta, get-split_delta}
use micro_joule_attribution.Provider.Sampling.Ledger.{Grown, delta_sum, samples_of, loop-Grown}
use micro_joule_attribution.Linux
use micro_joule_attribution.Linux.{
  LinuxProvider, RaplReading, counter_delta, power_uw_of, read_energy_file, wrap_point,
  linux_energy_provider,
}
use micro_joule_attribution.Linux.Budget.{Round, Counts, loop-le-used}
use micro_joule_attribution.Linux.Rapl.{counter_delta-advance}
use micro_joule_attribution.Tests.Tables.{btree_skip_map}

abbrev pub empty_registry : AmalgafyRegistry btree_skip_map
empty_registry = new btree_skip_map

pub empty-IsValid : IsValid btree_skip_map empty_registry
empty-IsValid = new-IsValid btree_skip_map

pub untracked : (j : ℕ) → unwrap_or (get btree_skip_map empty_registry j) 0 ≤ u64_max
unfolding get new BTreeMap.get
untracked j = omega arith

total-split_delta_example :
    total_micro_joules btree_skip_map
      (split_delta btree_skip_map empty_registry (4 ∷ 9 ∷ 4 ∷ []) 11)
    ≡ saturating_add (total_micro_joules btree_skip_map empty_registry) 11
total-split_delta_example =
    total-split_delta btree_skip_map empty_registry (4 ∷ 9 ∷ 4 ∷ []) 11 (omega arith) empty-IsValid

get-split_delta_example :
    unwrap_or
      (get btree_skip_map (split_delta btree_skip_map empty_registry (4 ∷ 9 ∷ 4 ∷ []) 11) 4)
      0
    ≡ 7
unfolding get new BTreeMap.get
get-split_delta_example =
    get-split_delta btree_skip_map empty_registry 4 (9 ∷ 4 ∷ []) 11 4 (omega arith) empty-IsValid
      (untracked 4)

-- Two readings of a counter that wraps after 999, with a failure after them.
abbrev rounds : List Round
rounds =
    record {
      used_uj = 990;
      reading = record {
        energy_file = some (text "990\n");
        max_range_file = some (text "999\n");
        unix_time_ns = some 1_000_000_000;
      };
    }
    ∷ record {
      used_uj = 60;
      reading = record {
        energy_file = some (text "50\n");
        max_range_file = some (text "999\n");
        unix_time_ns = some 1_100_000_000;
      };
    }
    ∷ record {
      used_uj = 5;
      reading = record {
        energy_file = none;
        max_range_file = some (text "999\n");
        unix_time_ns = some 1_200_000_000;
      };
    }
    ∷ []

rounds-Counts : Counts 999 0 rounds
unfolding wrap_point read_energy_file trim trim_start trim_end is_whitespace parse_u64 parse_digits
rounds-Counts = (
  omega arith,
  refl,
  inl refl,
  (omega arith, refl, inl refl, (omega arith, refl, inr (Error.io, refl), tt)),
)

loop-le-used_example :
    total_micro_joules btree_skip_map
      (start_sampling_loop btree_skip_map
        (linux_energy_provider btree_skip_map)
        (initial btree_skip_map
          (linux_energy_provider btree_skip_map)
          (Linux.new (text "gpu"))
          empty_registry)
        (map (λ t. t.reading) rounds)).registry
    ≤ total_micro_joules btree_skip_map empty_registry + 1055
loop-le-used_example =
    loop-le-used btree_skip_map 999 (omega arith) (text "gpu") rounds 0 empty_registry rounds-Counts
      empty-IsValid

abbrev begun : Sampler btree_skip_map (linux_energy_provider btree_skip_map)
begun =
    initial btree_skip_map (linux_energy_provider btree_skip_map) (Linux.new (text "gpu"))
      empty_registry

loop-Grown_example :
    Grown btree_skip_map
      (linux_energy_provider btree_skip_map)
      begun
      (start_sampling_loop btree_skip_map
        (linux_energy_provider btree_skip_map)
        begun
        (map (λ t. t.reading) rounds))
      (delta_sum none (
        samples_of btree_skip_map
          (linux_energy_provider btree_skip_map)
          (Linux.new (text "gpu"))
          (map (λ t. t.reading) rounds)))
loop-Grown_example =
    loop-Grown btree_skip_map (linux_energy_provider btree_skip_map) begun
      (map (λ t. t.reading) rounds) empty-IsValid (omega arith)

counter_delta-advance_example : counter_delta 999 990 50 ≡ 60
counter_delta-advance_example =
    counter_delta-advance 999 990 60 (omega arith) (omega arith) (omega arith)
