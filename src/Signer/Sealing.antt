-- ===== src/Signer/Sealing.antt =====
-- Sealing and verifying: what is sealed verifies, and what verifies has not been changed.
use micro_joule_attribution.Base.{
  ℕ, ==_iff, ◌≡◌, ◌≢◌, ◌↔◌, ◌⊎◌, inl, inr, refl, sym, ap, ◌∙◌, subst, List, true, Option, some,
  length, arith, Option-cases,
}
use micro_joule_attribution.Base.Texts.{Text, text_eq_self, eq_of_text_eq}
use micro_joule_attribution.Base.Results.{Result, ok, err, Error, ◌>>=◌, Result-cases}
use micro_joule_attribution.Hardware.{HardwareIdentity}
use micro_joule_attribution.Provider.{PidEnergyAttribution}
use micro_joule_attribution.Signer.Keys.{Ed25519, Bytes}
use micro_joule_attribution.Signer.Json.{canonicalize_value}
use micro_joule_attribution.Signer.Json.Canonical.{Same-canonicalize_value}
use micro_joule_attribution.Signer.Encoding.{Serde}
use micro_joule_attribution.Signer.{
  AmalgafySeal, AmalgafySealPayload, AmalgafySigner, canonical_json, seal_payload, seal, verify,
}

ok_of-bind :
    {A B : Type 0} (r : Result A Error) (f : A → Result B Error) (b : B)
    → (r >>= f) ≡ ok b
    → (a : A) × (r ≡ ok a) × (f a ≡ ok b)
ok_of-bind (ok a) f b h = (a, refl, h)
ok_of-bind (err e) f b h = absurd (cc)

-- The canonical text determines the payload.
pub canonical_json-injective :
    {T : Type 0} (serde : Serde T) (x y : T) (b : Bytes)
    → canonical_json serde x ≡ ok b
    → canonical_json serde y ≡ ok b
    → x ≡ y
unfolding canonical_json
canonical_json-injective serde x y b h k = cc (read_back x h, read_back y k)
  where
    read_back : (z : _) → canonical_json serde z ≡ ok b → serde.from_slice b ≡ some z
    read_back z e =
        let (v, p, q) = ok_of-bind (serde.to_value z) _ b e in
        serde.from_slice-to_vec z v (canonicalize_value serde.map v) b p
          (Same-canonicalize_value serde.map v (serde.to_value-IsValid z v p)) q

module _ (keys : Ed25519) (serde : Serde AmalgafySealPayload) where
  -- The signature and the key of a seal are those of the canonical bytes of its payload.
  abbrev pub Holds : AmalgafySeal → keys.VerifyingKey → Type 0
  Holds s k =
      (length s.signature ≡ 64)
      × ((canonical_json serde s.payload ≡ ok s.canonical_payload)
          × (keys.verify k s.canonical_payload (keys.signature_from_bytes s.signature) ≡ true))

  verify-Holds :
      (s : AmalgafySeal) (k : keys.VerifyingKey)
      → keys.key_from_bytes s.signing_public_key ≡ some k
      → Holds s k
      → verify keys serde s ≡ ok tt
  unfolding verify
  verify-Holds s k h holds =
      let size = (==_iff (length s.signature) 64).1 holds.0 in
      rw (h, size, holds.1.0, text_eq_self s.canonical_payload, holds.1.1) refl

  Holds-canonical_json :
      (s : AmalgafySeal) (k : keys.VerifyingKey) (b : Bytes)
      → keys.key_from_bytes s.signing_public_key ≡ some k
      → canonical_json serde s.payload ≡ ok b
      → verify keys serde s ≡ ok tt
      → Holds s k
  unfolding verify
  Holds-canonical_json s k b read made h =
      let matching = eq_of_text_eq b s.canonical_payload in
      let same : b ≡ s.canonical_payload = ground (arith, h, read, made, matching) in
      (ground (arith, h, read, made), (made ∙ ap ok same, ground (arith, h, read, made, matching)))

  Holds-verify :
      (s : AmalgafySeal)
      → verify keys serde s ≡ ok tt
      → (k : keys.VerifyingKey) × ((keys.key_from_bytes s.signing_public_key ≡ some k) × Holds s k)
  unfolding verify
  Holds-verify s h = elim (Option-cases (keys.key_from_bytes s.signing_public_key)) [
    | inl unread ↦ absurd (ground (arith, h, unread))
    | inr (k, read) ↦ elim (Result-cases (canonical_json serde s.payload)) [
      | inl (e, failed) ↦ absurd (ground (arith, h, read, failed))
      | inr (b, made) ↦ (k, (read, Holds-canonical_json s k b read made h))
    ]
  ]

  -- A seal verifies exactly when its public key can be read, its signature has 64 bytes, the
  -- bytes that it holds are the canonical encoding of its payload, and the key accepts the
  -- signature for these bytes.
  pub verify_iff :
      (s : AmalgafySeal)
      → (verify keys serde s ≡ ok tt) ↔ (
          (k : keys.VerifyingKey) × ((keys.key_from_bytes s.signing_public_key ≡ some k)
            × Holds s k))
  verify_iff s = (Holds-verify s, (λ (k, (read, holds)). verify-Holds s k read holds))

  -- Sealing fails with the error of the canonical encoding of its payload, or it gives a seal of
  -- exactly that payload and the seal verifies.
  pub seal-verify :
      (signer : AmalgafySigner keys) (since_epoch : Option ℕ)
      (attributions : List PidEnergyAttribution) (serial : Text) (total : ℕ)
      (identity : HardwareIdentity)
      → let payload = seal_payload keys signer since_epoch attributions serial total identity in
        let result = seal keys serde signer since_epoch attributions serial total identity in
        ((e : Error) × ((canonical_json serde payload ≡ err e) × (result ≡ err e)))
        ⊎ ((s : AmalgafySeal) × ((result ≡ ok s)
              × ((s.payload ≡ payload) × (verify keys serde s ≡ ok tt))))
  unfolding seal
  seal-verify signer since_epoch attributions serial total identity =
      let payload = seal_payload keys signer since_epoch attributions serial total identity in
      elim (Result-cases (canonical_json serde payload)) [
        | inl (e, failed) ↦ inl (e, (failed, rw failed refl))
        | inr (canonical, made) ↦
            let signature = keys.sign signer.signing_key canonical in
            let sealed : AmalgafySeal = record {
              payload = payload;
              signing_public_key = keys.key_to_bytes (keys.verifying_key signer.signing_key);
              signature = keys.signature_to_bytes signature;
              canonical_payload = canonical;
            } in
            let public_key = keys.verifying_key signer.signing_key in
            inr (
              sealed,
              (
                rw made refl,
                (
                  refl,
                  verify-Holds sealed public_key (keys.key_from-to public_key) (
                    keys.length-signature signature,
                    (
                      made,
                      rw (keys.signature_from-to signature)
                          (keys.verify-sign signer.signing_key canonical),
                    ),
                  ),
                ),
              ),
            )
      ]

  -- Two seals that verify and hold the same canonical bytes have the same payload.
  pub verify-binds :
      (s t : AmalgafySeal)
      → verify keys serde s ≡ ok tt
      → verify keys serde t ≡ ok tt
      → s.canonical_payload ≡ t.canonical_payload
      → s.payload ≡ t.payload
  verify-binds s t h k e =
      let (a, (r, holds)) = Holds-verify s h in
      let (b, (q, holding)) = Holds-verify t k in
      canonical_json-injective serde s.payload t.payload s.canonical_payload holds.1.0
        (holding.1.0 ∙ ap ok (sym e))

  pub verify-seal :
      (signer : AmalgafySigner keys) (since_epoch : Option ℕ)
      (attributions : List PidEnergyAttribution) (serial : Text) (total : ℕ)
      (identity : HardwareIdentity) (s : AmalgafySeal)
      → seal keys serde signer since_epoch attributions serial total identity ≡ ok s
      → (s.payload ≡ seal_payload keys signer since_epoch attributions serial total identity)
        × (verify keys serde s ≡ ok tt)
  verify-seal signer since_epoch attributions serial total identity s h =
      elim (seal-verify signer since_epoch attributions serial total identity) [
        | inl (e, (failed, result)) ↦ absurd (cc)
        | inr (t, (result, (payload, verified))) ↦
            let same : t ≡ s = cc in
            (
              ap (λ (u : AmalgafySeal). u.payload) (sym same) ∙ payload,
              subst (λ u. verify keys serde u ≡ ok tt) same verified,
            )
      ]

  -- A seal that verifies does not verify any more with another payload.
  pub verify-tampered :
      (s : AmalgafySeal) (p : AmalgafySealPayload)
      → verify keys serde s ≡ ok tt
      → p ≢ s.payload
      → verify keys serde (record s { payload = p }) ≢ ok tt
  verify-tampered s p h differ k = differ (verify-binds (record s { payload = p }) s k h refl)

  pub length-signature_of_verify :
      (s : AmalgafySeal) → verify keys serde s ≡ ok tt → length s.signature ≡ 64
  length-signature_of_verify s h = let (k, (read, holds)) = Holds-verify s h in holds.0
