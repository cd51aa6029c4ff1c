-- ===== src/Manifest/Signing.antt =====
-- Signing and verifying a manifest.
use micro_joule_attribution.Base.{
  ==_iff, ◌≡◌, ◌↔◌, ◌⊎◌, inl, inr, refl, true, some, length, arith, Option-cases,
}
use micro_joule_attribution.Base.Results.{Result, ok, err, Error, Result-cases}
use micro_joule_attribution.Signer.Keys.{Ed25519, Bytes}
use micro_joule_attribution.Manifest.{EnergyManifestPayload, EnergyManifest, sign, verify}

module _ (keys : Ed25519) (to_vec : EnergyManifestPayload → Result Bytes Error) where
  -- The signature is one of the key for the bytes of the payload.
  abbrev pub Holds : EnergyManifest → keys.VerifyingKey → Bytes → Type 0
  Holds m k bytes =
      (length m.signature ≡ 64)
      × ((to_vec m.payload ≡ ok bytes)
          × (keys.verify k bytes (keys.signature_from_bytes m.signature) ≡ true))

  verify-Holds :
      (m : EnergyManifest) (k : keys.VerifyingKey) (bytes : Bytes)
      → keys.key_from_bytes m.signing_public_key ≡ some k
      → Holds m k bytes
      → verify keys to_vec m ≡ ok tt
  unfolding verify
  verify-Holds m k bytes h holds =
      let size = (==_iff (length m.signature) 64).1 holds.0 in
      rw (h, size, holds.1.0, holds.1.1) refl

  Holds-verify :
      (m : EnergyManifest)
      → verify keys to_vec m ≡ ok tt
      → (k : keys.VerifyingKey) × ((bytes : Bytes) × ((keys.key_from_bytes m.signing_public_key
              ≡ some k)
            × Holds m k bytes))
  unfolding verify
  Holds-verify m h = elim (Option-cases (keys.key_from_bytes m.signing_public_key)) [
    | inl unread ↦ absurd (ground (arith, h, unread))
    | inr (k, read) ↦ elim (Result-cases (to_vec m.payload)) [
      | inl (e, failed) ↦ absurd (ground (arith, h, read, failed))
      | inr (bytes, made) ↦
          let size : length m.signature ≡ 64 = ground (arith, h, read, made) in
          let verified : keys.verify k bytes (keys.signature_from_bytes m.signature) ≡ true =
            ground (arith, h, read, made) in
          (k, (bytes, (read, (size, (made, verified)))))
    ]
  ]

  pub verify_manifest_iff :
      (m : EnergyManifest)
      → (verify keys to_vec m ≡ ok tt) ↔ (
          (k : keys.VerifyingKey) × ((bytes : Bytes) × ((keys.key_from_bytes m.signing_public_key
                ≡ some k)
              × Holds m k bytes)))
  verify_manifest_iff m =
      (Holds-verify m, (λ (k, (bytes, (read, holds))). verify-Holds m k bytes read holds))

  -- Signing a manifest fails with the error of the encoding of its payload, or it gives a
  -- manifest of exactly that payload and the manifest verifies.
  pub sign-verify :
      (payload : EnergyManifestPayload) (signing_key : keys.SigningKey)
      → ((e : Error) × ((to_vec payload ≡ err e) × (sign keys to_vec payload signing_key ≡ err e)))
        ⊎ ((m : EnergyManifest) × ((sign keys to_vec payload signing_key ≡ ok m)
              × ((m.payload ≡ payload) × (verify keys to_vec m ≡ ok tt))))
  unfolding sign
  sign-verify payload signing_key = elim (Result-cases (to_vec payload)) [
    | inl (e, failed) ↦ inl (e, (failed, rw failed refl))
    | inr (bytes, made) ↦
        let public_key = keys.verifying_key signing_key in
        let signature = keys.sign signing_key bytes in
        let manifest : EnergyManifest = record {
          payload = payload;
          signing_public_key = keys.key_to_bytes public_key;
          signature = keys.signature_to_bytes signature;
        } in
        let holds : Holds manifest public_key bytes = (
          keys.length-signature signature,
          (made, rw (keys.signature_from-to signature) (keys.verify-sign signing_key bytes)),
        ) in
        let verified = verify-Holds manifest public_key bytes (keys.key_from-to public_key) holds in
        inr (manifest, (rw made refl, (refl, verified)))
  ]
