-- ===== src/Signer/Reordering.antt =====
-- What a seal keeps of the order in which the caller lists the attributions.
use micro_joule_attribution.Base.{
  ℕ, ◌≡◌, ◌≢◌, refl, sym, ap, ◌∙◌, List, [], ◌∷◌, Option, arith, All, All-mono,
}
use micro_joule_attribution.Base.Texts.{Text}
use micro_joule_attribution.Base.Results.{ok}
use micro_joule_attribution.Base.Sorting.{
  then_with, IsTotalOrder, then_with-Chains, compare-Chains, compare_flips, place, sort_by,
}
use micro_joule_attribution.Base.Sorting.Permuted.{Apart, sort_by-Permᴰ}
use micro_joule_attribution.Hardware.{HardwareIdentity}
use micro_joule_attribution.Provider.{PidEnergyAttribution}
use micro_joule_attribution.Signer.Keys.{Ed25519}
use micro_joule_attribution.Signer.Encoding.{Serde}
use micro_joule_attribution.Signer.Sealing.{verify-seal, verify-binds}
use micro_joule_attribution.Signer.{
  AmalgafySeal, AmalgafySealPayload, AmalgafySigner, compare_attributions, seal_payload, seal,
}
use Prim.Native.Nat.{Ordering, compare}
use mathlib.Core.List.{Permᴰ}

compare_attributions-IsTotalOrder : IsTotalOrder compare_attributions
unfolding compare_attributions
compare_attributions-IsTotalOrder = record {
  flips = λ a b. ground (
    arith,
    compare_flips a.pid b.pid,
    compare_flips a.window_start_ns b.window_start_ns,
    compare_flips a.window_end_ns b.window_end_ns,
  );
  chains = λ a b c.
      then_with-Chains
        (then_with (compare a.pid b.pid) (compare a.window_start_ns b.window_start_ns))
        (then_with (compare b.pid c.pid) (compare b.window_start_ns c.window_start_ns))
        (then_with (compare a.pid c.pid) (compare a.window_start_ns c.window_start_ns))
        (compare a.window_end_ns b.window_end_ns) (compare b.window_end_ns c.window_end_ns)
        (compare a.window_end_ns c.window_end_ns)
        (then_with-Chains (compare a.pid b.pid) (compare b.pid c.pid) (compare a.pid c.pid)
          (compare a.window_start_ns b.window_start_ns)
          (compare b.window_start_ns c.window_start_ns)
          (compare a.window_start_ns c.window_start_ns) (compare-Chains a.pid b.pid c.pid)
          (compare-Chains a.window_start_ns b.window_start_ns c.window_start_ns))
        (compare-Chains a.window_end_ns b.window_end_ns c.window_end_ns);
}

-- Two attributions that agree on the PID and on the window.
abbrev pub SameWindow : PidEnergyAttribution → PidEnergyAttribution → Type 0
SameWindow a b =
    (a.pid ≡ b.pid)
    × ((a.window_start_ns ≡ b.window_start_ns) × (a.window_end_ns ≡ b.window_end_ns))

-- No two attributions of a list agree on the PID and on the window.
abbrev pub AreDistinct : List PidEnergyAttribution → Type 0
AreDistinct [] = Unit
AreDistinct (a ∷ l) = All (λ b. ¬ SameWindow a b) l × AreDistinct l

SameWindow-compare_attributions :
    (a b : PidEnergyAttribution) → compare_attributions a b ≡ Ordering.eq → SameWindow a b
unfolding compare_attributions
SameWindow-compare_attributions a b h = ground (arith, h)

Apart-AreDistinct : (l : List PidEnergyAttribution) → AreDistinct l → Apart compare_attributions l
Apart-AreDistinct [] d = tt
Apart-AreDistinct (a ∷ l) d = (
  All-mono (λ b. ¬ SameWindow a b) (λ b. compare_attributions a b ≢ Ordering.eq) l
      (λ b h e. h (SameWindow-compare_attributions a b e)) d.0,
  Apart-AreDistinct l d.1,
)

-- The sort is stable.
sorted_heads :
    (a b : PidEnergyAttribution)
    → SameWindow a b
    → sort_by compare_attributions (a ∷ b ∷ []) ≡ sort_by compare_attributions (b ∷ a ∷ [])
    → a ≡ b
unfolding sort_by place compare_attributions
sorted_heads a b same h = ground (arith, same, h)

module _ (keys : Ed25519) (serde : Serde AmalgafySealPayload) where
  -- If no two attributions of a list agree on the PID and on both ends of the window, then
  -- sealing any permutation of it gives the same, by the same signer at the same time and with
  -- the same serial, total and identity.
  pub seal-Permᴰ :
      (signer : AmalgafySigner keys) (since_epoch : Option ℕ) (serial : Text) (total : ℕ)
      (identity : HardwareIdentity) {l r : List PidEnergyAttribution}
      → Permᴰ l r
      → AreDistinct l
      → seal keys serde signer since_epoch l serial total identity
        ≡ seal keys serde signer since_epoch r serial total identity
  unfolding seal
  seal-Permᴰ signer since_epoch serial total identity p d =
      rw
        (sort_by-Permᴰ compare_attributions compare_attributions-IsTotalOrder p
          (Apart-AreDistinct _ d))
        refl

  -- Two different attributions that agree on the PID and on both ends of the window are sealed in
  -- either order, by the same signer at the same time and with the same serial, total and
  -- identity. If both calls give a seal, the two hold different canonical bytes.
  pub seal_order_kept :
      (signer : AmalgafySigner keys) (since_epoch : Option ℕ) (serial : Text) (total : ℕ)
      (identity : HardwareIdentity) (a b : PidEnergyAttribution) (s t : AmalgafySeal)
      → SameWindow a b
      → a ≢ b
      → seal keys serde signer since_epoch (a ∷ b ∷ []) serial total identity ≡ ok s
      → seal keys serde signer since_epoch (b ∷ a ∷ []) serial total identity ≡ ok t
      → s.canonical_payload ≢ t.canonical_payload
  unfolding seal_payload
  seal_order_kept signer since_epoch serial total identity a b s t same differ h k e =
      let (p, verified) =
        verify-seal keys serde signer since_epoch (a ∷ b ∷ []) serial total identity s h in
      let (q, verifying) =
        verify-seal keys serde signer since_epoch (b ∷ a ∷ []) serial total identity t k in
      let payloads = sym p ∙ verify-binds keys serde s t verified verifying e ∙ q in
      differ (sorted_heads a b same (ap (λ (u : AmalgafySealPayload). u.attributions) payloads))
