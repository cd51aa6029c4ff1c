-- ===== src/AppleSilicon/Energy.antt =====
-- The energy of one sample in src/providers/apple_silicon.rs: what its channels have counted, and its
-- conversion to a power.
use micro_joule_attribution.Base.{
  ℕ, zero, suc, ◌+◌, ◌-◌, ◌*◌, ◌≤◌, ◌≡◌, arith, List, [], ◌∷◌, false, Option, none, some, ◌==◌,
  saturating_add,
}
use native.Mathlib.Nat.{le_trans}
use micro_joule_attribution.Base.Texts.{Text}
use micro_joule_attribution.Attribution.{window_energy_uj}
use micro_joule_attribution.Attribution.Window.{
  window_energy_uj-rate, window_energy_uj-le-exact_uj, window_energy_uj_empty,
  window_energy_uj_mono,
}
use micro_joule_attribution.AppleSilicon.{
  AppleEnergyDelta, ℤ, pos, negsuc, IoChannel, energy_entry, channel_delta, push_some,
  channel_deltas, fold_energy, mean_power_uw, sample_gap_ns,
}

-- The energy of a row of deltas, without a bound.
abbrev pub sum_uj : List AppleEnergyDelta → ℕ
sum_uj [] = 0
sum_uj (d ∷ deltas) = d.energy_uj + sum_uj deltas

abbrev pub counted : ℤ → ℕ
counted (pos n) = n
counted (negsuc k) = 0

-- What the channels of a delta have counted; what is below zero counts as nothing.
abbrev pub counted_nj : List (Option IoChannel) → ℕ
counted_nj [] = 0
counted_nj (none ∷ slots) = counted_nj slots
counted_nj (some channel ∷ slots) = counted channel.raw_nj + counted_nj slots

push-le :
    (name : Option Text) (raw : ℤ) (out : List AppleEnergyDelta)
    → sum_uj (push_some (energy_entry name raw) out) * 1_000 ≤ counted raw + sum_uj out * 1_000
unfolding push_some energy_entry
push-le none (pos n) out = omega arith
push-le none (negsuc k) out = omega arith
push-le (some name) (negsuc k) out = omega arith
push-le (some name) (pos zero) out = omega arith
push-le (some name) (pos (suc k)) out = omega arith

pub sum-channel_deltas :
    (slots : List (Option IoChannel)) → sum_uj (channel_deltas slots) * 1_000 ≤ counted_nj slots
unfolding channel_deltas channel_delta push_some
sum-channel_deltas [] = omega arith
sum-channel_deltas (none ∷ slots) = sum-channel_deltas slots
sum-channel_deltas (some channel ∷ slots) =
    omega
      (arith, push-le channel.name channel.raw_nj (channel_deltas slots), sum-channel_deltas slots)

pub fold_energy-le :
    (acc : ℕ) (deltas : List AppleEnergyDelta) → fold_energy acc deltas ≤ acc + sum_uj deltas
unfolding fold_energy
fold_energy-le acc [] = omega arith
fold_energy-le acc (d ∷ deltas) =
    omega (arith, fold_energy-le (saturating_add acc d.energy_uj) deltas)

-- The check that `sample_power_state` makes of its own power holds, without its allowance of one:
-- the power of an energy over a gap, zero for an empty gap, gives back at most that energy over
-- the gap.
pub mean_power_uw-window :
    (total_uj dt_ns : ℕ) → window_energy_uj (mean_power_uw total_uj dt_ns) dt_ns ≤ total_uj
unfolding mean_power_uw
mean_power_uw-window total_uj zero = omega (arith, window_energy_uj_empty 0)
mean_power_uw-window total_uj (suc t) =
    let running : (suc t == 0) ≡ false = ground arith in
    rw running (window_energy_uj-rate total_uj (suc t) (omega arith))

window_unpowered : (t : ℕ) → window_energy_uj 0 t ≡ 0
window_unpowered t =
    let nothing : 0 * t ≡ 0 = omega arith in
    omega (arith, window_energy_uj-le-exact_uj 0 t, nothing)

-- The energy that the loop enters for a gap is at most what the channels gave for it.
pub entered-le :
    (last now total_uj idle : ℕ)
    → window_energy_uj (mean_power_uw total_uj (sample_gap_ns last now) - idle) (now - last)
      ≤ total_uj
unfolding sample_gap_ns mean_power_uw
entered-le zero now total_uj idle =
    let unpowered : 0 - idle ≡ 0 = omega arith in
    rw unpowered (omega (arith, window_unpowered (now - 0)))
entered-le (suc last) now total_uj idle =
    let stamped : (suc last == 0) ≡ false = ground arith in
    rw stamped (
      le_trans
        (window_energy_uj_mono _ (mean_power_uw total_uj (now - suc last)) _ (now - suc last)
          (omega arith) (omega arith))
        (mean_power_uw-window total_uj (now - suc last)))
