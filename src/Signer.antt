-- ===== src/Signer.antt =====
-- src/core/signer.rs: the Amalgafy Seal, a signature over the canonical JSON of a payload. The keys and
-- `serde_json` are parameters, and the clock is an argument: the nanoseconds since the epoch, or `none`
-- before it.
pub mod Json
pub mod Keys
pub mod Encoding
pub mod Sealing
pub mod Reordering
use micro_joule_attribution.Base.{ℕ, ◌==◌, List, Bool, if◌then◌else◌, Option, clamp_u64, length}
use micro_joule_attribution.Base.Texts.{Text, text_eq}
use micro_joule_attribution.Base.Results.{Result, ok, err, Error, ◌>>=◌, ok_or, unwrap_or}
use micro_joule_attribution.Base.Sorting.{then_with, sort_by}
use micro_joule_attribution.Hardware.{HardwareIdentity}
use micro_joule_attribution.Provider.{PidEnergyAttribution}
use micro_joule_attribution.Signer.Keys.{Ed25519, Bytes}
use micro_joule_attribution.Signer.Json.{canonicalize_value}
use micro_joule_attribution.Signer.Encoding.{Serde}
use Prim.Native.Nat.{Ordering, compare}

abbrev pub amalgafy_seal_interval_secs : ℕ
amalgafy_seal_interval_secs = 60

pub record AmalgafySealPayload : Type 0 where
  pub manifest_version : ℕ
  pub hardware_serial : Text
  pub hardware_identity : HardwareIdentity
  pub sealed_at_unix_ns : ℕ
  pub total_micro_joules : ℕ
  pub attributions : List PidEnergyAttribution

pub record AmalgafySeal : Type 0 where
  pub payload : AmalgafySealPayload
  pub signing_public_key : Bytes
  pub signature : Bytes
  pub canonical_payload : Bytes

unfoldable pub canonical_json : {T : Type 0} → Serde T → T → Result Bytes Error
canonical_json serde payload = do
  value ← serde.to_value payload
  let canonical = canonicalize_value serde.map value
  serde.to_vec canonical

unfoldable pub compare_attributions : PidEnergyAttribution → PidEnergyAttribution → Ordering
compare_attributions a b =
    then_with (then_with (compare a.pid b.pid) (compare a.window_start_ns b.window_start_ns))
      (compare a.window_end_ns b.window_end_ns)

module _ (keys : Ed25519) where
  pub record AmalgafySigner : Type 0 where
    pub signing_key : keys.SigningKey
    pub manifest_version : ℕ

  unfoldable pub new : keys.SigningKey → AmalgafySigner
  new signing_key = record { signing_key = signing_key; manifest_version = 1 }

  unfoldable pub with_manifest_version : AmalgafySigner → ℕ → AmalgafySigner
  with_manifest_version self version = record {
    signing_key = self.signing_key;
    manifest_version = version;
  }

  unfoldable pub verifying_key : AmalgafySigner → keys.VerifyingKey
  verifying_key self = keys.verifying_key self.signing_key

  -- The payload that `seal` builds.
  unfoldable pub seal_payload :
      AmalgafySigner
      → Option ℕ
      → List PidEnergyAttribution
      → Text
      → ℕ
      → HardwareIdentity
      → AmalgafySealPayload
  unfolding compare_attributions sort_by
  seal_payload self since_epoch attributions serial total identity = record {
    manifest_version = self.manifest_version;
    hardware_serial = serial;
    hardware_identity = identity;
    sealed_at_unix_ns = clamp_u64 (unwrap_or since_epoch 0);
    total_micro_joules = total;
    attributions = sort_by compare_attributions attributions;
  }

  module _ (serde : Serde AmalgafySealPayload) where
    unfoldable pub seal :
        AmalgafySigner
        → Option ℕ
        → List PidEnergyAttribution
        → Text
        → ℕ
        → HardwareIdentity
        → Result AmalgafySeal Error
    unfolding canonical_json seal_payload
    seal self since_epoch attributions serial total identity = do
      let payload = seal_payload self since_epoch attributions serial total identity
      canonical ← canonical_json serde payload
      let signature = keys.signature_to_bytes (keys.sign self.signing_key canonical)
      ok (record {
        payload = payload;
        signing_public_key = keys.key_to_bytes (keys.verifying_key self.signing_key);
        signature = signature;
        canonical_payload = canonical;
      })

    unfoldable pub verify : AmalgafySeal → Result Unit Error
    unfolding canonical_json text_eq
    verify self = do
      verifying_key ← ok_or (keys.key_from_bytes self.signing_public_key) Error.verifying_key
      signature_bytes ←
          if length self.signature == 64 then ok self.signature else err Error.signature_length
      let signature = keys.signature_from_bytes signature_bytes
      re_canonical ← canonical_json serde self.payload
      matching ←
          if text_eq re_canonical self.canonical_payload then ok tt else err Error.canonical_payload
      if keys.verify verifying_key self.canonical_payload signature
          then ok tt
          else err Error.signature
