-- ===== src/Tests/Apple.antt =====
-- The Apple Silicon provider with an IOReport of one channel that counts upwards.
use micro_joule_attribution.Base.{
  ℕ, ◌+◌, ◌-◌, ◌≤◌, ◌≡◌, ◌↔◌, subst, arith, List, [], ◌∷◌, map, true, Option, none, some,
}
use micro_joule_attribution.Base.Texts.{text}
use micro_joule_attribution.Registry.{total_micro_joules}
use micro_joule_attribution.Provider.Sampling.{start_sampling_loop, initial}
use micro_joule_attribution.AppleSilicon.{
  pos, IoChannel, IoReport, IoReading, with_idle_power_uw, apple_energy_provider,
}
use micro_joule_attribution.AppleSilicon.Energy.{counted_nj}
use micro_joule_attribution.AppleSilicon.Meter.{Meter, Round, Shows, loop-le-used_nj}
use micro_joule_attribution.AppleSilicon.Channels.{contains_ignore_ascii_case}
use micro_joule_attribution.AppleSilicon.Channels.Occurrence.{
  Occurs, contains_ignore_ascii_case_iff,
}
use micro_joule_attribution.Tests.Tables.{btree_skip_map}
use micro_joule_attribution.Tests.Sampling.{empty_registry, empty-IsValid}

abbrev pub slots_between : ℕ → ℕ → List (Option IoChannel)
slots_between prev curr =
    some (record { name = some (text "GPU 0"); raw_nj = pos (curr - prev) }) ∷ []

abbrev pub counter : IoReport
counter = record {
  Samples = ℕ;
  create_samples_delta = λ prev curr. some (some (slots_between prev curr));
}

slots_eq : {a b : List (Option IoChannel)} → some (some a) ≡ some (some b) → a ≡ b
slots_eq e = cc

counter-le :
    (prev curr : ℕ) (slots : List (Option IoChannel))
    → some (some (slots_between prev curr)) ≡ some (some slots)
    → counted_nj slots ≤ curr - prev
counter-le prev curr slots e = subst (λ s. counted_nj s ≤ curr - prev) (slots_eq e) (omega arith)

abbrev meter : Meter counter
meter = record { nj = λ n. n; delta-le = counter-le }

abbrev pub reading : Option ℕ → ℕ → IoReading counter
reading samples unix_time_ns = record {
  cf_string = true;
  catalogue = true;
  subscription = true;
  samples = samples;
  unix_time_ns = some unix_time_ns;
}

-- Three samples, and a failure between the last two.
abbrev rounds : List (Round counter)
rounds =
    record { used_nj = 5_000; reading = reading (some 5_000) 1_000_000_000 }
    ∷ record { used_nj = 7_500; reading = reading (some 12_500) 1_100_000_000 }
    ∷ record { used_nj = 100; reading = reading none 1_200_000_000 }
    ∷ record { used_nj = 900; reading = reading (some 13_500) 1_300_000_000 }
    ∷ []

some_eq : {a b : ℕ} → some a ≡ some b → b ≡ a
some_eq e = cc

absent : {b : ℕ} → none ≡ some b → b ≡ 12_600
absent e = cc

rounds-Shows : Shows meter 0 rounds
rounds-Shows =
    ((λ s e. some_eq e), ((λ s e. some_eq e), ((λ s e. absent e), ((λ s e. some_eq e), tt))))

loop-le-used_nj_example :
    total_micro_joules btree_skip_map
      (start_sampling_loop btree_skip_map
        (apple_energy_provider counter btree_skip_map)
        (initial btree_skip_map
          (apple_energy_provider counter btree_skip_map)
          (with_idle_power_uw counter (text "M4") 10)
          empty_registry)
        (map (λ t. t.reading) rounds)).registry
    ≤ total_micro_joules btree_skip_map empty_registry + 13
loop-le-used_nj_example =
    loop-le-used_nj counter meter btree_skip_map (text "M4") 10 rounds 0 empty_registry rounds-Shows
      empty-IsValid

contains_ignore_ascii_case_iff_example :
    contains_ignore_ascii_case (text "agx-gpu0") (text "GPU") ≡ true
    ↔ Occurs (text "GPU") (text "agx-gpu0")
contains_ignore_ascii_case_iff_example =
    contains_ignore_ascii_case_iff (text "agx-gpu0") (text "GPU")
