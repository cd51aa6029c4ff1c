-- ===== src/UnitTests/Signer.antt =====
-- The unit tests of src/core/signer.rs and src/core/manifest.rs, for all keys and encodings with the
-- documented laws. A test that expects a call to succeed takes the seal or manifest that it gives.
use micro_joule_attribution.Base.{
  ℕ, ◌≡◌, ◌≢◌, ◌∙◌, sym, ap, arith, subst, List, [], ◌∷◌, map, length, Option, inl, inr,
}
use micro_joule_attribution.Base.Texts.{Text, text}
use micro_joule_attribution.Base.Results.{Result, ok, Error, Result-cases}
use micro_joule_attribution.Base.Sorting.{sort_by, place}
use micro_joule_attribution.Hardware.{HardwareIdentity, manual_identity}
use micro_joule_attribution.Provider.{PidEnergyAttribution}
use micro_joule_attribution.Signer.Keys.{Ed25519, Bytes}
use micro_joule_attribution.Signer.Encoding.{Serde}
use micro_joule_attribution.Signer.{
  AmalgafySeal, AmalgafySealPayload, new, compare_attributions, seal_payload, seal, verify,
}
use micro_joule_attribution.Signer.Sealing.{
  verify-seal, verify-tampered, length-signature_of_verify,
}
use micro_joule_attribution.Manifest.{EnergyManifestPayload, EnergyManifest, sign}
use micro_joule_attribution.Manifest as Manifest
use micro_joule_attribution.Manifest.Signing.{sign-verify}

abbrev fixture_serial : Text
fixture_serial = text "NV-H100-SXM5-SN-0001"

abbrev first_attribution : PidEnergyAttribution
first_attribution = record {
  pid = 4242;
  window_start_ns = 100;
  window_end_ns = 200;
  burst_power_uw = 5_500_000;
  attributed_energy_uj = 550;
  hardware_signature = fixture_serial;
}

abbrev second_attribution : PidEnergyAttribution
second_attribution = record {
  pid = 7;
  window_start_ns = 100;
  window_end_ns = 200;
  burst_power_uw = 1_000_000;
  attributed_energy_uj = 100;
  hardware_signature = fixture_serial;
}

abbrev fixture_attributions : List PidEnergyAttribution
fixture_attributions = first_attribution ∷ second_attribution ∷ []

abbrev reversed_attributions : List PidEnergyAttribution
reversed_attributions = second_attribution ∷ first_attribution ∷ []

abbrev fixture_identity : HardwareIdentity
fixture_identity = manual_identity fixture_serial

-- The PIDs that a seal lists.
abbrev sealed_pids : AmalgafySeal → List ℕ
sealed_pids s = map (λ (a : PidEnergyAttribution). a.pid) s.payload.attributions

module _ (keys : Ed25519) (serde : Serde AmalgafySealPayload) (key : keys.SigningKey)
    (since_epoch : Option ℕ) where
  abbrev sealed : List PidEnergyAttribution → Text → Result AmalgafySeal Error
  sealed attributions serial =
      seal keys serde (new keys key) since_epoch attributions serial 650 fixture_identity

  abbrev SignerProducesAVerifiableSeal : AmalgafySeal → Type 0
  SignerProducesAVerifiableSeal s =
      (verify keys serde s ≡ ok tt)
      × (s.payload.total_micro_joules ≡ 650)
      × (s.payload.hardware_serial ≡ fixture_serial)
      × (s.payload.hardware_identity ≡ fixture_identity)
      × (length s.payload.attributions ≡ 2)
      × (length s.signature ≡ 64)

  signer_produces_a_verifiable_seal :
      (s : AmalgafySeal)
      → sealed fixture_attributions fixture_serial ≡ ok s
      → SignerProducesAVerifiableSeal s
  unfolding seal_payload sort_by place compare_attributions new
  signer_produces_a_verifiable_seal s h =
      let (payload, verified) =
        verify-seal keys serde (new keys key) since_epoch fixture_attributions fixture_serial 650
          fixture_identity s h in
      (
        verified,
        ap (λ (p : AmalgafySealPayload). p.total_micro_joules) payload,
        ap (λ (p : AmalgafySealPayload). p.hardware_serial) payload,
        ap (λ (p : AmalgafySealPayload). p.hardware_identity) payload,
        ap (λ (p : AmalgafySealPayload). length p.attributions) payload,
        length-signature_of_verify keys serde s verified,
      )

  -- The three tests that change the payload of a seal and expect it not to verify any more.
  abbrev SealVerificationFailsAfterTamperingWithTotalJoules : AmalgafySeal → Type 0
  SealVerificationFailsAfterTamperingWithTotalJoules s =
      verify keys serde (record s { payload = record s.payload { total_micro_joules = 1 } }) ≢ ok tt

  abbrev SealVerificationFailsAfterSwappingHardwareSerial : AmalgafySeal → Type 0
  SealVerificationFailsAfterSwappingHardwareSerial s =
      verify keys serde
        (record s { payload = record s.payload { hardware_serial = text "WRONG-SERIAL" } })
      ≢ ok tt

  abbrev SealVerificationFailsAfterSwappingHardwareIdentity : AmalgafySeal → Type 0
  SealVerificationFailsAfterSwappingHardwareIdentity s =
      verify keys serde (record s {
        payload = record s.payload { hardware_identity = manual_identity (text "OTHER-MACHINE") };
      })
      ≢ ok tt

  module _ (s : AmalgafySeal) (h : sealed fixture_attributions (text "NV-H100") ≡ ok s) where
    sealed_payload :
        (s.payload
          ≡ seal_payload keys
              (new keys key)
              since_epoch
              fixture_attributions
              (text "NV-H100")
              650
              fixture_identity)
        × (verify keys serde s ≡ ok tt)
    sealed_payload =
        verify-seal keys serde (new keys key) since_epoch fixture_attributions (text "NV-H100") 650
          fixture_identity s h

    seal_verification_fails_after_tampering_with_total_joules :
        SealVerificationFailsAfterTamperingWithTotalJoules s
    unfolding seal_payload
    seal_verification_fails_after_tampering_with_total_joules =
        let (payload, verified) = sealed_payload in
        verify-tampered keys serde s (record s.payload { total_micro_joules = 1 }) verified
          λ e. absurd (
            omega (
              arith,
              ap (λ (p : AmalgafySealPayload). p.total_micro_joules) e,
              ap (λ (p : AmalgafySealPayload). p.total_micro_joules) payload,
            ))

    seal_verification_fails_after_swapping_hardware_serial :
        SealVerificationFailsAfterSwappingHardwareSerial s
    unfolding seal_payload
    seal_verification_fails_after_swapping_hardware_serial =
        let (payload, verified) = sealed_payload in
        verify-tampered keys serde s (record s.payload { hardware_serial = text "WRONG-SERIAL" })
          verified
          λ e.
            let lengths =
              ap (λ (p : AmalgafySealPayload). length p.hardware_serial) e
              ∙ ap (λ (p : AmalgafySealPayload). length p.hardware_serial) payload in
            absurd (omega (arith, lengths))

    seal_verification_fails_after_swapping_hardware_identity :
        SealVerificationFailsAfterSwappingHardwareIdentity s
    unfolding seal_payload manual_identity
    seal_verification_fails_after_swapping_hardware_identity =
        let (payload, verified) = sealed_payload in
        verify-tampered keys serde s
          (record s.payload { hardware_identity = manual_identity (text "OTHER-MACHINE") }) verified
          λ e.
            let lengths =
              ap (λ (p : AmalgafySealPayload). length p.hardware_identity.fingerprint) e
              ∙ ap (λ (p : AmalgafySealPayload). length p.hardware_identity.fingerprint) payload in
            absurd (omega (arith, lengths))

  abbrev SealIsOrderIndependentAcrossAttributionInputs : AmalgafySeal → AmalgafySeal → Type 0
  SealIsOrderIndependentAcrossAttributionInputs a b =
      (a.payload.attributions ≡ b.payload.attributions) × (sealed_pids a ≡ 7 ∷ 4242 ∷ [])

  seal_is_order_independent_across_attribution_inputs :
      (a b : AmalgafySeal)
      → sealed fixture_attributions fixture_serial ≡ ok a
      → sealed reversed_attributions fixture_serial ≡ ok b
      → SealIsOrderIndependentAcrossAttributionInputs a b
  unfolding seal_payload sort_by place compare_attributions
  seal_is_order_independent_across_attribution_inputs a b h k =
      let (p, _) =
        verify-seal keys serde (new keys key) since_epoch fixture_attributions fixture_serial 650
          fixture_identity a h in
      let (q, _) =
        verify-seal keys serde (new keys key) since_epoch reversed_attributions fixture_serial 650
          fixture_identity b k in
      let rows = λ (u : AmalgafySealPayload). u.attributions in
      (
        ap rows p ∙ sym (ap rows q),
        ap (λ (u : AmalgafySealPayload). map (λ (x : PidEnergyAttribution). x.pid) u.attributions)
            p,
      )

-- The tests of the legacy manifest.
abbrev sample_payload : EnergyManifestPayload
sample_payload = record {
  manifest_version = 1;
  provider = text "linux-ebpf";
  hardware_signature = text "NV-H100";
  workload_pid = 4242;
  window_start_ns = 10;
  window_end_ns = 20;
  sampled_at_ns = 20;
  idle_power_uw = 3_000_000;
  active_power_uw = 9_500_000;
  attributed_energy_uj = 65;
}

module _ (keys : Ed25519) (to_vec : EnergyManifestPayload → Result Bytes Error)
    (key : keys.SigningKey) where
  abbrev ManifestRoundTripsASignature : EnergyManifest → Type 0
  ManifestRoundTripsASignature m =
      (Manifest.verify keys to_vec m ≡ ok tt)
      × (m.signing_public_key ≡ keys.key_to_bytes (keys.verifying_key key))

  signed_with :
      (m : EnergyManifest)
      → sign keys to_vec sample_payload key ≡ ok m
      → m.signing_public_key ≡ keys.key_to_bytes (keys.verifying_key key)
  unfolding sign
  signed_with m h = elim (Result-cases (to_vec sample_payload)) [
    | inl (e, failed) ↦ absurd (ground (arith, h, failed))
    | inr (bytes, made) ↦ ground (arith, h, made)
  ]

  manifest_round_trips_a_signature :
      (m : EnergyManifest)
      → sign keys to_vec sample_payload key ≡ ok m
      → ManifestRoundTripsASignature m
  manifest_round_trips_a_signature m h = elim (sign-verify keys to_vec sample_payload key) [
    | inl (e, (failed, result)) ↦ absurd (cc)
    | inr (n, (result, (payload, verified))) ↦
        let same : n ≡ m = cc in
        (subst (λ u. Manifest.verify keys to_vec u ≡ ok tt) same verified, signed_with m h)
  ]
