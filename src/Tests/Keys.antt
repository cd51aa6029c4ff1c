-- ===== src/Tests/Keys.antt =====
-- Keys for the signers: a signature is the sum of the signed bytes and of the key.
use micro_joule_attribution.Base.{
  ℕ, ◌+◌, ◌==◌, ==_iff, ◌≡◌, refl, [], ◌∷◌, Option, some, none, replicate, sum, true,
}
use micro_joule_attribution.Signer.Keys.{Ed25519, Bytes}

abbrev pub first_byte : Bytes → ℕ
first_byte [] = 0
first_byte (b ∷ l) = b

abbrev pub read_key : Bytes → Option ℕ
read_key [] = none
read_key (b ∷ l) = some b

pub summing-verify : (k : ℕ) (m : Bytes) → (k + sum m == k + sum m) ≡ true
summing-verify k m = (==_iff (k + sum m) (k + sum m)).1 refl

abbrev pub summing_keys : Ed25519
summing_keys = record {
  SigningKey = ℕ;
  VerifyingKey = ℕ;
  Signature = ℕ;
  verifying_key = λ k. k;
  sign = λ k m. k + sum m;
  key_to_bytes = λ k. k ∷ replicate 31 0;
  key_from_bytes = read_key;
  signature_to_bytes = λ s. s ∷ replicate 63 0;
  signature_from_bytes = first_byte;
  verify = λ k m s. s == k + sum m;
  key_from-to = λ k. refl;
  signature_from-to = λ s. refl;
  length-signature = λ s. refl;
  verify-sign = summing-verify;
}
