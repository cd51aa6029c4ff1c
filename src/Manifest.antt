-- ===== src/Manifest.antt =====
-- src/core/manifest.rs: the legacy manifest of one PID, signed over the plain JSON of its payload.
-- `serde_json::to_vec` on the payload is a parameter, as the keys are.
pub mod Signing
use micro_joule_attribution.Base.{ℕ, ◌==◌, if◌then◌else◌, length}
use micro_joule_attribution.Base.Texts.{Text}
use micro_joule_attribution.Base.Results.{Result, ok, err, Error, ◌>>=◌, ok_or}
use micro_joule_attribution.Signer.Keys.{Ed25519, Bytes}

pub record EnergyManifestPayload : Type 0 where
  pub manifest_version : ℕ
  pub provider : Text
  pub hardware_signature : Text
  pub workload_pid : ℕ
  pub window_start_ns : ℕ
  pub window_end_ns : ℕ
  pub sampled_at_ns : ℕ
  pub idle_power_uw : ℕ
  pub active_power_uw : ℕ
  pub attributed_energy_uj : ℕ

pub record EnergyManifest : Type 0 where
  pub payload : EnergyManifestPayload
  pub signing_public_key : Bytes
  pub signature : Bytes

module _ (keys : Ed25519) (to_vec : EnergyManifestPayload → Result Bytes Error) where
  unfoldable pub sign : EnergyManifestPayload → keys.SigningKey → Result EnergyManifest Error
  sign payload signing_key = do
    bytes ← to_vec payload
    let signature = keys.signature_to_bytes (keys.sign signing_key bytes)
    ok (record {
      payload = payload;
      signing_public_key = keys.key_to_bytes (keys.verifying_key signing_key);
      signature = signature;
    })

  unfoldable pub verify : EnergyManifest → Result Unit Error
  verify self = do
    verifying_key ← ok_or (keys.key_from_bytes self.signing_public_key) Error.verifying_key
    signature_bytes ←
        if length self.signature == 64 then ok self.signature else err Error.signature_length
    let signature = keys.signature_from_bytes signature_bytes
    bytes ← to_vec self.payload
    if keys.verify verifying_key bytes signature then ok tt else err Error.signature
