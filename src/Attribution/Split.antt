-- ===== src/Attribution/Split.antt =====
-- The functions of src/core/attribution.rs that divide energy between processes.
use micro_joule_attribution.Base.{
  ℕ, ◌+◌, ◌-◌, ◌*◌, ◌/◌, ◌≤◌, ◌≡◌, refl, ap, arith, min, zero, suc, u64_max, List, [], ◌∷◌, map,
  sum, length,
}
use native.Mathlib.Nat.{min-eq_left}
use micro_joule_attribution.Attribution.{
  deterministic_attribution_uj, rapl_fallback_uj, burst_energy_uj, baseline_burst_power_uw,
}
use micro_joule_attribution.Attribution.Window.{exact_uj, mul_mono, Fits, window_energy_uj-eq}

pub deterministic-le :
    (total idle t busy : ℕ)
    → deterministic_attribution_uj total idle t busy ≤ exact_uj (total - idle) t
unfolding deterministic_attribution_uj
deterministic-le total idle t busy = ground (arith, mul_mono (total - idle) (min t busy) t)

sum-exact_uj-le : (p : ℕ) (ts : List ℕ) → sum (map (exact_uj p) ts) ≤ exact_uj p (sum ts)
sum-exact_uj-le p [] = omega arith
sum-exact_uj-le p (t ∷ ts) = omega (arith, sum-exact_uj-le p ts)

exact_uj-le-sum :
    (p : ℕ) (ts : List ℕ) → exact_uj p (sum ts) ≤ sum (map (exact_uj p) ts) + length ts
exact_uj-le-sum p [] = omega arith
exact_uj-le-sum p (t ∷ ts) = omega (arith, exact_uj-le-sum p ts)

sum-deterministic-le :
    (total idle busy : ℕ) (ts : List ℕ)
    → sum (map (λ t. deterministic_attribution_uj total idle t busy) ts)
      ≤ sum (map (exact_uj (total - idle)) ts)
sum-deterministic-le total idle busy [] = omega arith
sum-deterministic-le total idle busy (t ∷ ts) =
    omega (arith, deterministic-le total idle t busy, sum-deterministic-le total idle busy ts)

-- Within the busy time nothing is clamped, and the result is exact.
pub deterministic-eq :
    (total idle t busy : ℕ)
    → t ≤ busy
    → exact_uj (total - idle) busy ≤ u64_max
    → deterministic_attribution_uj total idle t busy ≡ exact_uj (total - idle) t
unfolding deterministic_attribution_uj
deterministic-eq total idle t zero h fits =
    let none_held : t ≡ 0 = omega arith in rw none_held (omega arith)
deterministic-eq total idle t (suc busy) h fits = ground (
  arith,
  mul_mono (total - idle) t (suc busy) h,
  ap (λ (x : ℕ). (total - idle) * x) (min-eq_left h),
)

map-deterministic-eq :
    (total idle busy : ℕ) (ts : List ℕ)
    → sum ts ≤ busy
    → exact_uj (total - idle) busy ≤ u64_max
    → map (λ t. deterministic_attribution_uj total idle t busy) ts
      ≡ map (exact_uj (total - idle)) ts
map-deterministic-eq total idle busy [] h fits = refl
map-deterministic-eq total idle busy (t ∷ ts) h fits = cc (
  deterministic-eq total idle t busy (omega arith) fits,
  map-deterministic-eq total idle busy ts (omega arith) fits,
)

-- When the processes held the accelerator for at most the busy time, and the exact burst energy
-- of that time fits into a u64, what they are given together is at most the burst energy of the
-- time that they held it, and falls short of it by at most one micro-joule for each process.
pub sum-deterministic_attribution :
    (total idle busy : ℕ) (ts : List ℕ)
    → sum ts ≤ busy
    → exact_uj (total - idle) busy ≤ u64_max
    → (sum (map (λ t. deterministic_attribution_uj total idle t busy) ts)
        ≤ exact_uj (total - idle) (sum ts))
      × (exact_uj (total - idle) (sum ts)
          ≤ sum (map (λ t. deterministic_attribution_uj total idle t busy) ts) + length ts)
sum-deterministic_attribution total idle busy ts h fits =
    rw (map-deterministic-eq total idle busy ts h fits)
      (sum-exact_uj-le (total - idle) ts, exact_uj-le-sum (total - idle) ts)

deterministic-le-whole :
    (total idle t busy : ℕ)
    → exact_uj (total - idle) busy ≤ u64_max
    → deterministic_attribution_uj total idle t busy ≤ exact_uj (total - idle) busy
unfolding deterministic_attribution_uj
deterministic-le-whole total idle t busy fits =
    ground (arith, mul_mono (total - idle) (min t busy) busy)

-- Where the burst energy of the busy time and its products fit into a u64, a process that held
-- the accelerator for all of it is given the burst energy, and any other process is given no
-- more.
pub deterministic-burst_energy :
    (total idle t busy : ℕ)
    → Fits (total - idle) busy
    → (deterministic_attribution_uj total idle busy busy ≡ burst_energy_uj total idle busy)
      × (deterministic_attribution_uj total idle t busy ≤ burst_energy_uj total idle busy)
unfolding burst_energy_uj baseline_burst_power_uw
deterministic-burst_energy total idle t busy (small, fits) = omega (
  arith,
  window_energy_uj-eq (total - idle) busy small,
  deterministic-eq total idle busy busy (omega arith) fits,
  deterministic-le-whole total idle t busy fits,
)

rapl_fallback-le : (delta share : ℕ) → rapl_fallback_uj delta share ≤ delta * share / 1_000_000
unfolding rapl_fallback_uj
rapl_fallback-le delta share =
    omega (arith, mul_mono delta (min share 1_000_000) share (omega arith))

sum-rapl_fallback-le :
    (delta : ℕ) (shares : List ℕ)
    → sum (map (rapl_fallback_uj delta) shares) ≤ delta * sum shares / 1_000_000
sum-rapl_fallback-le delta [] = omega arith
sum-rapl_fallback-le delta (s ∷ shares) =
    omega (arith, rapl_fallback-le delta s, sum-rapl_fallback-le delta shares)

rapl_fallback_whole :
    (delta extra : ℕ) → delta ≤ u64_max → rapl_fallback_uj delta (1_000_000 + extra) ≡ delta
unfolding rapl_fallback_uj
rapl_fallback_whole delta extra h =
    let clamped : min (1_000_000 + extra) 1_000_000 ≡ 1_000_000 = omega arith in
    rw clamped (omega arith)

-- CPU shares of at most a million parts together are given at most a RAPL delta that fits into a
-- u64, and the whole share, or a claim to more, is given all of it.
pub sum-rapl_fallback :
    (delta extra : ℕ) (shares : List ℕ)
    → delta ≤ u64_max
    → sum shares ≤ 1_000_000
    → (sum (map (rapl_fallback_uj delta) shares) ≤ delta)
      × (rapl_fallback_uj delta (1_000_000 + extra) ≡ delta)
sum-rapl_fallback delta extra shares h few = (
  omega (arith, sum-rapl_fallback-le delta shares, mul_mono delta (sum shares) 1_000_000 few),
  rapl_fallback_whole delta extra h,
)
