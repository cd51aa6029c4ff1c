-- ===== src/Tests/Linux.antt =====
-- Fences of the Linux provider, and the hardware probe.
use micro_joule_attribution.Base.{
  ℕ, ◌<◌, ◌≡◌, ◌≢◌, ◌↔◌, List, [], ◌∷◌, none, some, saturating_add, All,
}
use micro_joule_attribution.Base.Texts.{text}
use micro_joule_attribution.Base.Results.{unwrap_or, map_option}
use micro_joule_attribution.Attribution.{window_energy_uj}
use micro_joule_attribution.Registry.{get}
use micro_joule_attribution.Linux
use micro_joule_attribution.Linux.{
  LinuxProvider, DmaFenceEvent, active_pid_set, sync_registry, correlate_fence, fence_attribution,
  release_fence,
}
use micro_joule_attribution.Linux.Fences.{
  FenceCall, submitted, signaled, exited, run, Rises, In, active_pid_set_iff,
}
use micro_joule_attribution.Linux.Sync.{correlate_all, correlate_all-sync}
use micro_joule_attribution.Hardware.{Host, HardwareIdentitySource, probe, probe_linux, first_uuid}
use micro_joule_attribution.Hardware.Probe.{id_files, IsBlank, probe_linux_lem}
use micro_joule_attribution.Tests.Tables.{btree_skip_map}
use micro_joule_attribution.Tests.Sampling.{empty_registry, empty-IsValid, untracked}

abbrev fence : ℕ → ℕ → DmaFenceEvent
fence pid signaled_at_ns = record {
  submitter_pid = pid;
  submitted_at_ns = 1_000;
  signaled_at_ns = signaled_at_ns;
  gpu_power_uw = 250_000_000;
}

abbrev calls : List FenceCall
calls =
    submitted 9
    ∷ submitted 4
    ∷ submitted 9
    ∷ signaled (fence 9 2_000)
    ∷ submitted 7
    ∷ exited 4
    ∷ signaled (fence 7 3_000)
    ∷ []

active_pid_set_iff_example :
    Rises 0 (active_pid_set (run (Linux.new (text "gpu")) calls))
    × (In 9 (active_pid_set (run (Linux.new (text "gpu")) calls)) ↔ (0 < 1))
active_pid_set_iff_example = active_pid_set_iff (text "gpu") calls 9

abbrev correlated : LinuxProvider
correlated =
    correlate_all (Linux.new (text "gpu")) (fence 9 2_000_001_000 ∷ fence 4 1_000_001_000 ∷ [])

correlate_all-sync_example :
    unwrap_or (get btree_skip_map (sync_registry btree_skip_map correlated empty_registry).1 9) 0
    ≡ saturating_add (unwrap_or (get btree_skip_map empty_registry 9) 0) 500_000_000
unfolding Linux.new window_energy_uj
correlate_all-sync_example =
    correlate_all-sync btree_skip_map (Linux.new (text "gpu"))
      (fence 9 2_000_001_000 ∷ fence 4 1_000_001_000 ∷ []) empty_registry 9 empty-IsValid
      (untracked 9)

abbrev host : Host
host = record {
  hostname_var = none;
  computername_var = none;
  hostname_file = some (text "node-1\n");
  process_id = 42;
  machine_id_file = some (text " \n");
  gpu_uuid_files = some (none ∷ some (text "GPU-1\n") ∷ []);
}

probe_linux_lem_example :
    (map_option (λ i. i.fingerprint) (probe_linux host) ≡ first_uuid (id_files host))
    × ((probe host (probe_linux host)).fingerprint ≢ [])
    × ((probe host (probe_linux host)).source ≡ HardwareIdentitySource.synthetic
        ↔ All IsBlank (id_files host))
probe_linux_lem_example = probe_linux_lem host
