-- ===== src/Base/Sums.antt =====
-- Sums of the values of a function below a bound.
use Prim.Native.Nat.{ℕ, zero, suc, ◌+◌, ◌*◌, ◌≤◌, ◌<◌}
use mathlib.Core.Path.{◌≡◌}
use mathlib.Core.Logic.{◌≢◌}
use native.Mathlib.Omega.{arith}
use native.Mathlib.Decide.{dec_lt}

abbrev pub sum_below : ℕ → (ℕ → ℕ) → ℕ
sum_below zero f = 0
sum_below (suc n) f = sum_below n f + f n

-- Some values change: the one at `i` in any way, the others grow by `e` at most.
module _ (f g : ℕ → ℕ) (i e : ℕ) (h : (j : ℕ) → i ≢ j → g j ≤ f j + e) where
  sum_below_above : (n : ℕ) → n ≤ i → sum_below n g ≤ sum_below n f + n * e
  sum_below_above zero le = omega arith
  sum_below_above (suc n) le =
      let rest = sum_below_above n (omega arith) in
      let last = h n (omega arith) in
      let product : suc n * e ≡ n * e + e = grind arith in omega arith

  pub sum_below_shift : (n : ℕ) → i < n → sum_below n g + f i + e ≤ sum_below n f + g i + n * e
  sum_below_shift zero lt = absurd (omega arith)
  sum_below_shift (suc n) lt =
      let product : suc n * e ≡ n * e + e = grind arith in
      elim (dec_lt i n) [
        | yes below ↦
            let rest = sum_below_shift n below in let last = h n (omega arith) in omega arith
        | no above ↦
            let rest = sum_below_above n (omega arith) in
            let same : i ≡ n = omega arith in rw same (omega (arith, same))
      ]

-- One value changes.
pub sum_below-change :
    (f g : ℕ → ℕ) (i n : ℕ)
    → ((j : ℕ) → i ≢ j → g j ≡ f j)
    → i < n
    → sum_below n g + f i ≡ sum_below n f + g i
sum_below-change f g i n h lt =
    let up = sum_below_shift f g i 0 (λ j d. omega (arith, h j d)) n lt in
    let down = sum_below_shift g f i 0 (λ j d. omega (arith, h j d)) n lt in omega (arith, up, down)
