-- ===== src/Tests/Seals.antt =====
-- Seals and manifests with summing keys, of the attributions that the tests of the crate use.
use micro_joule_attribution.Base.{ℕ, ◌≡◌, ◌≢◌, ◌↔◌, ◌⊎◌, refl, List, [], ◌∷◌, some, map, arith, ap}
use micro_joule_attribution.Base.Texts.{Text, text, text_eq, compare_text}
use micro_joule_attribution.Base.Results.{Result, ok, err, Error}
use micro_joule_attribution.Base.Sorting.{sort_by, place}
use micro_joule_attribution.Hardware.{HardwareIdentity, HardwareIdentitySource}
use micro_joule_attribution.Provider.{PidEnergyAttribution}
use micro_joule_attribution.Signer.Json.{
  Value, number, object, end, field, canonicalize_value, insert_all,
}
use micro_joule_attribution.Signer.Json.Same.{Same}
use micro_joule_attribution.Signer.Json.Canonical.{canonicalize_value_iff}
use micro_joule_attribution.Signer.Sealing.{Holds, verify_iff, verify-binds, seal-verify}
use micro_joule_attribution.Signer.Reordering.{seal-Permᴰ, seal_order_kept}
use micro_joule_attribution.Signer.{
  AmalgafySeal, AmalgafySealPayload, AmalgafySigner, new, canonical_json, compare_attributions,
  seal_payload, seal, verify,
}
use micro_joule_attribution.Manifest.{
  EnergyManifestPayload, EnergyManifest, sign, verify as verify_manifest,
}
use micro_joule_attribution.Manifest.Signing.{sign-verify}
use micro_joule_attribution.Tests.Keys.{summing_keys, read_key}
use micro_joule_attribution.Tests.Encodings.{sorted_map, print}
use micro_joule_attribution.Tests.Payloads.{payload_serde, print_canonical, valid, valid-IsValid}
use mathlib.Core.List.Permᴰ.{swap}

abbrev signature_text : Text
signature_text = text "NV-H100-SXM5-SN-0001"

abbrev row : ℕ → ℕ → ℕ → PidEnergyAttribution
row pid burst energy = record {
  pid = pid;
  window_start_ns = 100;
  window_end_ns = 200;
  burst_power_uw = burst;
  attributed_energy_uj = energy;
  hardware_signature = signature_text;
}

abbrev high : PidEnergyAttribution
high = row 4242 5500000 550

abbrev low : PidEnergyAttribution
low = row 7 1000000 100

abbrev low_again : PidEnergyAttribution
low_again = row 7 1000000 99

abbrev fixture_identity : HardwareIdentity
fixture_identity = record { fingerprint = signature_text; source = HardwareIdentitySource.manual }

abbrev signer : ℕ → AmalgafySigner summing_keys
signer key = new summing_keys key

abbrev sealed_by : ℕ → List PidEnergyAttribution → Result AmalgafySeal Error
sealed_by key l =
    seal summing_keys payload_serde (signer key) (some 77) l signature_text 650 fixture_identity

abbrev payload_of : List PidEnergyAttribution → AmalgafySealPayload
payload_of l = seal_payload summing_keys (signer 3) (some 77) l signature_text 650 fixture_identity

abbrev text_of : List PidEnergyAttribution → List ℕ
text_of l = elim (canonical_json payload_serde (payload_of l)) [ ok b ↦ b | err e ↦ [] ]

abbrev seal_of : ℕ → List PidEnergyAttribution → AmalgafySeal
seal_of key l = elim (sealed_by key l) [
  | ok s ↦ s
  | err e ↦ record {
    payload = payload_of l;
    signing_public_key = [];
    signature = [];
    canonical_payload = [];
  }
]

sorted_pids :
    map (λ (a : PidEnergyAttribution). a.pid) (payload_of (high ∷ low ∷ [])).attributions
    ≡ 7 ∷ 4242 ∷ []
unfolding seal_payload sort_by place compare_attributions
sorted_pids = refl

abbrev nested : Value
nested = object (
    field (text "z") (number 1) (
      field (text "a") (number 2) (
        field (text "m") (object (field (text "y") (number 3) (field (text "b") (number 4) end)))
          end)))

abbrev nested_again : Value
nested_again = object (
    field (text "m") (object (field (text "b") (number 4) (field (text "y") (number 3) end)))
      (field (text "z") (number 1) (field (text "a") (number 2) end)))

canonical_nested :
    canonicalize_value sorted_map nested
    ≡ object (
        field (text "a") (number 2) (
          field
            (text "m")
            (object (field (text "b") (number 4) (field (text "y") (number 3) end)))
            (field (text "z") (number 1) end)))
unfolding canonicalize_value insert_all sort_by place compare_text
canonical_nested = refl

canonicalize_value_iff_example :
    (canonicalize_value sorted_map nested ≡ canonicalize_value sorted_map nested_again)
    ↔ Same nested nested_again
unfolding valid text_eq
canonicalize_value_iff_example =
    canonicalize_value_iff sorted_map nested nested_again (valid-IsValid nested refl)
      (valid-IsValid nested_again refl)

seal-verify_example :
    ((e : Error) × ((canonical_json payload_serde (payload_of (high ∷ low ∷ [])) ≡ err e)
        × (sealed_by 3 (high ∷ low ∷ []) ≡ err e)))
    ⊎ ((s : AmalgafySeal) × ((sealed_by 3 (high ∷ low ∷ []) ≡ ok s)
          × ((s.payload ≡ payload_of (high ∷ low ∷ []))
              × (verify summing_keys payload_serde s ≡ ok tt))))
seal-verify_example =
    seal-verify summing_keys payload_serde (signer 3) (some 77) (high ∷ low ∷ []) signature_text 650
      fixture_identity

seal-Permᴰ_example : sealed_by 3 (high ∷ low ∷ []) ≡ sealed_by 3 (low ∷ high ∷ [])
seal-Permᴰ_example =
    seal-Permᴰ summing_keys payload_serde (signer 3) (some 77) signature_text 650 fixture_identity
      (swap refl refl) (((λ same. omega (arith, same.0)), tt), (tt, tt))

both_sealed : sealed_by 3 (high ∷ low ∷ []) ≡ ok (seal_of 3 (high ∷ low ∷ []))
unfolding seal canonical_json print_canonical canonicalize_value seal_payload print
both_sealed = refl

verified : verify summing_keys payload_serde (seal_of 3 (high ∷ low ∷ [])) ≡ ok tt
unfolding verify seal canonical_json print_canonical canonicalize_value seal_payload print text_eq
    compare_text new
verified = refl

verified_too : verify summing_keys payload_serde (seal_of 5 (low ∷ high ∷ [])) ≡ ok tt
unfolding verify seal canonical_json print_canonical canonicalize_value seal_payload print text_eq
    compare_text new
verified_too = refl

same_text :
    (seal_of 3 (high ∷ low ∷ [])).canonical_payload
    ≡ (seal_of 5 (low ∷ high ∷ [])).canonical_payload
unfolding seal canonical_json print_canonical canonicalize_value seal_payload print compare_text new
same_text = refl

verify_iff_example : (verify summing_keys payload_serde (seal_of 3 (high ∷ low ∷ [])) ≡ ok tt) ↔ (
    (k : ℕ) × ((read_key (seal_of 3 (high ∷ low ∷ [])).signing_public_key ≡ some k)
      × Holds summing_keys payload_serde (seal_of 3 (high ∷ low ∷ [])) k))
verify_iff_example = verify_iff summing_keys payload_serde (seal_of 3 (high ∷ low ∷ []))

verify-binds_example : (seal_of 3 (high ∷ low ∷ [])).payload ≡ (seal_of 5 (low ∷ high ∷ [])).payload
verify-binds_example =
    verify-binds summing_keys payload_serde (seal_of 3 (high ∷ low ∷ []))
      (seal_of 5 (low ∷ high ∷ [])) verified verified_too same_text

twice_sealed : sealed_by 3 (low ∷ low_again ∷ []) ≡ ok (seal_of 3 (low ∷ low_again ∷ []))
unfolding seal canonical_json print_canonical canonicalize_value seal_payload print
twice_sealed = refl

twice_sealed_back : sealed_by 3 (low_again ∷ low ∷ []) ≡ ok (seal_of 3 (low_again ∷ low ∷ []))
unfolding seal canonical_json print_canonical canonicalize_value seal_payload print
twice_sealed_back = refl

low≢low_again : low ≢ low_again
low≢low_again same =
    let energies : low.attributed_energy_uj ≡ low_again.attributed_energy_uj =
      ap (λ (a : PidEnergyAttribution). a.attributed_energy_uj) same in
    omega (arith, energies)

seal_order_kept_example :
    (seal_of 3 (low ∷ low_again ∷ [])).canonical_payload
    ≢ (seal_of 3 (low_again ∷ low ∷ [])).canonical_payload
seal_order_kept_example =
    seal_order_kept summing_keys payload_serde (signer 3) (some 77) signature_text 650
      fixture_identity low low_again (seal_of 3 (low ∷ low_again ∷ []))
      (seal_of 3 (low_again ∷ low ∷ [])) (refl, (refl, refl)) low≢low_again twice_sealed
      twice_sealed_back

abbrev manifest_payload : EnergyManifestPayload
manifest_payload = record {
  manifest_version = 1;
  provider = text "linux-ebpf";
  hardware_signature = text "NV-H100";
  workload_pid = 4242;
  window_start_ns = 10;
  window_end_ns = 20;
  sampled_at_ns = 20;
  idle_power_uw = 3000000;
  active_power_uw = 9500000;
  attributed_energy_uj = 65;
}

abbrev manifest_text : EnergyManifestPayload → Result (List ℕ) Error
manifest_text p = ok (
    p.manifest_version ∷ p.workload_pid ∷ p.window_start_ns ∷ p.window_end_ns
    ∷ p.attributed_energy_uj ∷ p.provider)

sign-verify_example :
    ((e : Error) × ((manifest_text manifest_payload ≡ err e)
        × (sign summing_keys manifest_text manifest_payload 7 ≡ err e)))
    ⊎ ((m : EnergyManifest) × ((sign summing_keys manifest_text manifest_payload 7 ≡ ok m)
          × ((m.payload ≡ manifest_payload)
              × (verify_manifest summing_keys manifest_text m ≡ ok tt))))
sign-verify_example = sign-verify summing_keys manifest_text manifest_payload 7
