-- ===== src/Attribution/Window.antt =====
-- The energy of a window (src/core/attribution.rs) against the exact product of power and time.
use micro_joule_attribution.Base.{
  ℕ, ◌+◌, ◌*◌, ◌/◌, ◌%◌, ◌≤◌, ◌<◌, ◌≡◌, ap, arith, dec_lt, u64_max, clamp_u64,
}
use native.Mathlib.Nat.{le_trans, div-add-mod', mod-lt}
use micro_joule_attribution.Attribution.{nanoseconds_per_second, window_energy_uj}

-- The exact energy of a window, in micro-joules rounded down.
abbrev pub exact_uj : ℕ → ℕ → ℕ
exact_uj power_uw window_ns = power_uw * window_ns / nanoseconds_per_second

-- The window as whole seconds and a rest, multiplied by the power.
split_product :
    (p t : ℕ)
    → p * t
      ≡ p * (t / nanoseconds_per_second) * nanoseconds_per_second + p * (t % nanoseconds_per_second)
split_product p t =
    let parts : t
        ≡ t / nanoseconds_per_second * nanoseconds_per_second + t % nanoseconds_per_second =
      omega arith in
    omega (arith, ap (λ (x : ℕ). p * x) parts)

exact_uj-split :
    (p t : ℕ)
    → exact_uj p t
      ≡ p * (t / nanoseconds_per_second) + p * (t % nanoseconds_per_second) / nanoseconds_per_second
exact_uj-split p t = omega (arith, split_product p t)

pub window_energy_uj-le-exact_uj : (p t : ℕ) → window_energy_uj p t ≤ exact_uj p t
unfolding window_energy_uj
window_energy_uj-le-exact_uj p t = omega (arith, split_product p t)

rest-le :
    (p t : ℕ) → p * nanoseconds_per_second ≤ u64_max → p * (t % nanoseconds_per_second) ≤ u64_max
rest-le p t h =
    let small : t % nanoseconds_per_second ≤ nanoseconds_per_second = omega arith in grind arith

-- For a power whose energy in a second, in units of micro-watt nano-seconds, fits into a u64, the
-- energy of a window is the exact energy rounded down, clamped at the largest u64.
pub window_energy_uj-eq :
    (p t : ℕ)
    → p * nanoseconds_per_second ≤ u64_max
    → window_energy_uj p t ≡ clamp_u64 (exact_uj p t)
unfolding window_energy_uj
window_energy_uj-eq p t h = omega (arith, split_product p t, rest-le p t h)

pub mul_mono_left : (t p q : ℕ) → p ≤ q → p * t ≤ q * t
mul_mono_left t p q h = grind arith

pub mul_mono : (p a b : ℕ) → a ≤ b → p * a ≤ p * b
mul_mono p a b h = grind arith

-- A part of a second yields at most what the second yields.
rest-le-second : (p t : ℕ) → p * (t % nanoseconds_per_second) / nanoseconds_per_second ≤ p
rest-le-second p t =
    omega (arith, mul_mono p (t % nanoseconds_per_second) nanoseconds_per_second (omega arith))

power_mono : (p q t : ℕ) → p ≤ q → window_energy_uj p t ≤ window_energy_uj q t
unfolding window_energy_uj
power_mono p q t h =
    let whole : p * (t / nanoseconds_per_second) ≤ q * (t / nanoseconds_per_second) = grind arith in
    let rest : p * (t % nanoseconds_per_second) ≤ q * (t % nanoseconds_per_second) = grind arith in
    omega arith

-- Either a whole second more passes, or the rest of the second grows.
window_mono : (p s t : ℕ) → s ≤ t → window_energy_uj p s ≤ window_energy_uj p t
unfolding window_energy_uj
window_mono p s t h = elim (dec_lt (s / nanoseconds_per_second) (t / nanoseconds_per_second)) [
  | yes later ↦ omega (
    arith,
    rest-le-second p s,
    mul_mono p (s / nanoseconds_per_second + 1) (t / nanoseconds_per_second) (omega arith),
  )
  | no same ↦ omega (
    arith,
    mul_mono p (s % nanoseconds_per_second) (t % nanoseconds_per_second) (omega arith),
    mul_mono p (s / nanoseconds_per_second) (t / nanoseconds_per_second) (omega arith),
  )
]

-- More power, or a longer window, never yields less energy, also where the products saturate.
pub window_energy_uj_mono :
    (p q s t : ℕ) → p ≤ q → s ≤ t → window_energy_uj p s ≤ window_energy_uj q t
window_energy_uj_mono p q s t h k = le_trans (window_mono p s t k) (power_mono p q t h)

-- The products stay below 2^64: the power is at most 18 kW and the window's energy fits.
abbrev pub Fits : ℕ → ℕ → Type 0
Fits p t = (p * nanoseconds_per_second ≤ u64_max) × (exact_uj p t ≤ u64_max)

-- Where nothing saturates, cutting a window in two loses at most one micro-joule and never gains
-- any.
pub window_energy_uj-add :
    (p s t : ℕ)
    → Fits p (s + t)
    → (window_energy_uj p s + window_energy_uj p t ≤ window_energy_uj p (s + t))
      × (window_energy_uj p (s + t) ≤ window_energy_uj p s + window_energy_uj p t + 1)
window_energy_uj-add p s t (small, fits) = omega (
  arith,
  window_energy_uj-eq p s small,
  window_energy_uj-eq p t small,
  window_energy_uj-eq p (s + t) small,
)

-- The mean power of an energy over a time that is not zero gives back at most that energy over
-- the same time.
pub window_energy_uj-rate :
    (delta t : ℕ)
    → 0 < t
    → window_energy_uj (clamp_u64 (delta * nanoseconds_per_second / t)) t ≤ delta
window_energy_uj-rate delta t h =
    let power = clamp_u64 (delta * nanoseconds_per_second / t) in
    let mean = delta * nanoseconds_per_second / t in
    let bounded : mean * t ≤ delta * nanoseconds_per_second =
      omega (arith, div-add-mod' (delta * nanoseconds_per_second) t) in
    let less : power * t ≤ mean * t = mul_mono_left t power mean (omega arith) in
    omega (arith, window_energy_uj-le-exact_uj power t)

-- Without saturation the way there and back loses less than the energy of one micro-watt over the
-- window, and one micro-joule.
pub window_energy_uj-rate_ge :
    (delta t : ℕ)
    → 0 < t
    → Fits (delta * nanoseconds_per_second / t) t
    → delta * nanoseconds_per_second
      < (window_energy_uj (delta * nanoseconds_per_second / t) t + 1) * nanoseconds_per_second + t
window_energy_uj-rate_ge delta t h (small, fits) =
    let mean = delta * nanoseconds_per_second / t in
    omega (
      arith,
      div-add-mod' (delta * nanoseconds_per_second) t,
      mod-lt (delta * nanoseconds_per_second) h,
      window_energy_uj-eq mean t small,
    )

pub window_energy_uj_empty : (p : ℕ) → window_energy_uj p 0 ≡ 0
window_energy_uj_empty p =
    let none_left : p * 0 ≡ 0 = omega arith in
    omega (arith, window_energy_uj-le-exact_uj p 0, none_left)
