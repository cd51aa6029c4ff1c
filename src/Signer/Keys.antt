-- ===== src/Signer/Keys.antt =====
-- `ed25519_dalek` as the signers use it. Its documentation promises that what is written as bytes can
-- be read back, that a signature has 64 bytes, and that a signature which a key has made verifies;
-- nothing is assumed of what does not verify.
use micro_joule_attribution.Base.{ℕ, ◌≡◌, List, Bool, true, Option, some, length}

-- `Vec<u8>` and `[u8; n]`.
abbrev pub Bytes : Type 0
Bytes = List ℕ

pub record Ed25519 : Type 1 where
  pub SigningKey : Type 0
  pub VerifyingKey : Type 0
  pub Signature : Type 0
  pub verifying_key : SigningKey → VerifyingKey
  pub sign : SigningKey → Bytes → Signature
  pub key_to_bytes : VerifyingKey → Bytes
  pub key_from_bytes : Bytes → Option VerifyingKey
  pub signature_to_bytes : Signature → Bytes
  pub signature_from_bytes : Bytes → Signature
  pub verify : VerifyingKey → Bytes → Signature → Bool
  pub key_from-to : (k : VerifyingKey) → key_from_bytes (key_to_bytes k) ≡ some k
  pub signature_from-to : (s : Signature) → signature_from_bytes (signature_to_bytes s) ≡ s
  pub length-signature : (s : Signature) → length (signature_to_bytes s) ≡ 64
  pub verify-sign : (k : SigningKey) (m : Bytes) → verify (verifying_key k) m (sign k m) ≡ true
