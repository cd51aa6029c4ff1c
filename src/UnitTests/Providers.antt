-- ===== src/UnitTests/Providers.antt =====
-- The unit tests of src/providers, and those of src/core/hardware.rs.
use micro_joule_attribution.Base.{
  ◌≡◌, ◌≢◌, ◌∙◌, sym, ap, refl, occurs, ◌++◌, [], ◌∷◌, some, true, false,
}
use micro_joule_attribution.Base.Texts.{Text, text}
use micro_joule_attribution.Base.Results.{ok}
use micro_joule_attribution.Base.BTreeMap
use micro_joule_attribution.Base.BTreeMap.{BTreeMap}
use micro_joule_attribution.Attribution.{window_energy_uj}
use micro_joule_attribution.Registry.Table.{SkipMap}
use micro_joule_attribution.Registry.{new as new_registry, get}
use micro_joule_attribution.Registry.Total.{adds, run, run-new-snapshot, get-snapshot}
use micro_joule_attribution.Provider.Draining.{drain}
use micro_joule_attribution.Linux.{
  LinuxProvider, DmaFenceEvent, new, enqueue_attribution, sync_registry, mark_pid_active,
  mark_pid_idle, active_pid_set, correlate_fence, fence_attribution, release_fence,
}
use micro_joule_attribution.AppleSilicon.Channels.{is_gpu_or_ane_energy_channel}
use micro_joule_attribution.Hardware.{
  HardwareIdentity, HardwareIdentitySource, Host, manual_identity, synthetic_identity, probe,
  probe_linux,
}
use micro_joule_attribution.Signer.Keys.{Bytes}
use micro_joule_attribution.Signer.Json.{Value}
use micro_joule_attribution.Signer.Json.Same.{same_self}
use micro_joule_attribution.Signer.Encoding.{Serde}
use micro_joule_attribution.Hardware.Probe.{probe_linux_lem}

abbrev fresh_linux : LinuxProvider
fresh_linux = new (text "NV-H100")

-- Two attributions to the PID 100.
abbrev filled : LinuxProvider
filled =
    enqueue_attribution
      (enqueue_attribution fresh_linux (record {
        pid = 100;
        window_start_ns = 0;
        window_end_ns = 1_000;
        burst_power_uw = 5_000_000;
        attributed_energy_uj = 5;
        hardware_signature = text "NV-H100";
      }))
      (record {
        pid = 100;
        window_start_ns = 1_000;
        window_end_ns = 2_000;
        burst_power_uw = 5_000_000;
        attributed_energy_uj = 7;
        hardware_signature = text "NV-H100";
      })

abbrev dma_fence_event : DmaFenceEvent
dma_fence_event = record {
  submitter_pid = 4242;
  submitted_at_ns = 1_000_000_000;
  signaled_at_ns = 1_200_000_000;
  gpu_power_uw = 250_000_000;
}

module _ (S : SkipMap) where
  abbrev SyncRegistryDrainsPendingAttributions : Type 0
  SyncRegistryDrainsPendingAttributions =
      let (provider, registry, pushed) = sync_registry S filled (new_registry S) in
      (pushed ≡ ok 12) × (get S registry 100 ≡ some 12) × (provider.pending ≡ [])

  sync_registry_drains_pending_attributions : SyncRegistryDrainsPendingAttributions
  unfolding sync_registry drain enqueue_attribution new BTreeMap.insert BTreeMap.get
  sync_registry_drains_pending_attributions =
      let calls = adds 100 5 ∷ adds 100 7 ∷ [] in
      let found = get-snapshot S (run S (new_registry S) calls) 100 in
      (refl, sym found ∙ ap (λ m. BTreeMap.get m 100) (run-new-snapshot S calls), refl)

  abbrev CorrelateFenceAttributesGpuWindowToSubmitter : Type 0
  CorrelateFenceAttributesGpuWindowToSubmitter =
      let (provider, attribution) =
        correlate_fence (mark_pid_active fresh_linux 4242) dma_fence_event in
      let (_, registry, _) = sync_registry S provider (new_registry S) in
      (attribution.pid ≡ 4242)
      × (attribution.attributed_energy_uj ≡ 50_000_000)
      × (attribution.hardware_signature ≡ text "NV-H100")
      × (occurs 4242 (active_pid_set provider) ≡ false)
      × (get S registry 4242 ≡ some 50_000_000)

  correlate_fence_attributes_gpu_window_to_submitter : CorrelateFenceAttributesGpuWindowToSubmitter
  unfolding sync_registry drain new mark_pid_active correlate_fence fence_attribution release_fence
      active_pid_set window_energy_uj BTreeMap.insert BTreeMap.get BTreeMap.remove BTreeMap.keys
  correlate_fence_attributes_gpu_window_to_submitter =
      let calls = adds 4242 50_000_000 ∷ [] in
      let found = get-snapshot S (run S (new_registry S) calls) 4242 in
      (refl, refl, refl, refl, sym found ∙ ap (λ m. BTreeMap.get m 4242) (run-new-snapshot S calls))

abbrev marked : LinuxProvider
marked = mark_pid_active (mark_pid_active (mark_pid_active (mark_pid_active fresh_linux 9) 1) 9) 4

-- `active_pids` of the trait is the same function.
abbrev ActivePidSetIsSortedAndDeduplicated : Type 0
ActivePidSetIsSortedAndDeduplicated =
    (active_pid_set marked ≡ 1 ∷ 4 ∷ 9 ∷ [])
    × (active_pid_set (mark_pid_idle marked 4) ≡ 1 ∷ 9 ∷ [])

active_pid_set_is_sorted_and_deduplicated : ActivePidSetIsSortedAndDeduplicated
unfolding new mark_pid_active mark_pid_idle active_pid_set BTreeMap.insert BTreeMap.get
    BTreeMap.remove BTreeMap.keys
active_pid_set_is_sorted_and_deduplicated = (refl, refl)

abbrev ChannelClassifierPicksUpGpuAndAne : Type 0
ChannelClassifierPicksUpGpuAndAne =
    let classify =
      λ (subgroup name : Text). is_gpu_or_ane_energy_channel (text "Energy Model") subgroup name in
    (classify (text "GPU") (text "GPU 0") ≡ true)
    × (classify (text "ANE") (text "ANE 0") ≡ true)
    × (classify (text "compute") (text "GPU SLC") ≡ true)
    × (is_gpu_or_ane_energy_channel (text "Foo") (text "GPU") (text "GPU 0") ≡ false)
    × (classify (text "cpu") (text "CPU 0") ≡ false)

channel_classifier_picks_up_gpu_and_ane : ChannelClassifierPicksUpGpuAndAne
unfolding is_gpu_or_ane_energy_channel
channel_classifier_picks_up_gpu_and_ane = (refl, refl, refl, refl, refl)

abbrev SyntheticIdentityIsMarkedAsUnverifiable : Host → Type 0
SyntheticIdentityIsMarkedAsUnverifiable h =
    let id = synthetic_identity h (text "no_probe") in
    (id.source ≡ HardwareIdentitySource.synthetic)
    × ((rest : Text) × (id.fingerprint ≡ text "synthetic:" ++ rest))

synthetic_identity_is_marked_as_unverifiable :
    (h : Host) → SyntheticIdentityIsMarkedAsUnverifiable h
unfolding synthetic_identity
synthetic_identity_is_marked_as_unverifiable h = (refl, (_, refl))

abbrev LinuxProbeReturnsARealOrSyntheticIdentity : Host → Type 0
LinuxProbeReturnsARealOrSyntheticIdentity h = (probe h (probe_linux h)).fingerprint ≢ []

linux_probe_returns_a_real_or_synthetic_identity :
    (h : Host) → LinuxProbeReturnsARealOrSyntheticIdentity h
linux_probe_returns_a_real_or_synthetic_identity h = (probe_linux_lem h).1

module _ (serde : Serde HardwareIdentity) where
  -- The text that the identity is written as.
  abbrev ManualIdentityRoundTripsThroughSerde : Bytes → Type 0
  ManualIdentityRoundTripsThroughSerde json =
      let id = manual_identity (text "NV-H100-SXM5-SN-0001") in
      (id.source ≡ HardwareIdentitySource.manual)
      × (id.fingerprint ≡ text "NV-H100-SXM5-SN-0001")
      × (serde.from_slice json ≡ some id)

  manual_identity_round_trips_through_serde :
      (v : Value) (json : Bytes)
      → serde.to_value (manual_identity (text "NV-H100-SXM5-SN-0001")) ≡ ok v
      → serde.to_vec v ≡ ok json
      → ManualIdentityRoundTripsThroughSerde json
  unfolding manual_identity
  manual_identity_round_trips_through_serde v json h k =
      (refl, refl, serde.from_slice-to_vec _ v v json h same_self k)
