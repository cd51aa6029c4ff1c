-- ===== src/Base/Sorting.antt =====
-- `Ordering`, `Ord::cmp` and `Ordering::then` of the standard library, and its `slice::sort_by`,
-- which its documentation promises to be a stable sort.
pub mod Permuted
pub mod Ascending
use Prim.Native.Nat.{ℕ, Ordering, compare}
use micro_joule_attribution.Base.Tests.{if◌then◌else◌}
use mathlib.Core.Bool.{Bool, true, false}
use mathlib.Core.Path.{◌≡◌, refl}
use mathlib.Core.List.{List, [], ◌∷◌}
use native.Mathlib.Omega.{arith}

abbrev pub reverse : Ordering → Ordering
reverse Ordering.lt = Ordering.gt
reverse Ordering.eq = Ordering.eq
reverse Ordering.gt = Ordering.lt

-- `Ordering::then`: the second comparison decides where the first one sees no difference.
abbrev pub then_with : Ordering → Ordering → Ordering
then_with Ordering.lt o = Ordering.lt
then_with Ordering.eq o = o
then_with Ordering.gt o = Ordering.gt

-- What comparisons of `x` with `y` and of `y` with `z` say of `x` and `z`.
abbrev pub Chains : Ordering → Ordering → Ordering → Type 0
Chains Ordering.eq o r = r ≡ o
Chains Ordering.lt Ordering.gt r = Unit
Chains Ordering.lt Ordering.eq r = r ≡ Ordering.lt
Chains Ordering.lt Ordering.lt r = r ≡ Ordering.lt
Chains Ordering.gt Ordering.lt r = Unit
Chains Ordering.gt Ordering.eq r = r ≡ Ordering.gt
Chains Ordering.gt Ordering.gt r = r ≡ Ordering.gt

-- The documented requirements on the comparison that `sort_by` is given.
pub record IsTotalOrder {ℓ} {A : Type ℓ} (cmp : A → A → Ordering) : Type ℓ where
  pub flips : (x y : A) → cmp y x ≡ reverse (cmp x y)
  pub chains : (x y z : A) → Chains (cmp x y) (cmp y z) (cmp x z)

pub compare-Chains : (x y z : ℕ) → Chains (compare x y) (compare y z) (compare x z)
compare-Chains x y z = ground arith

pub compare_flips : (x y : ℕ) → compare y x ≡ reverse (compare x y)
compare_flips x y = ground arith

pub lt-Chains : (o : Ordering) → Chains Ordering.lt o Ordering.lt
lt-Chains Ordering.lt = refl
lt-Chains Ordering.eq = refl
lt-Chains Ordering.gt = tt

gt-Chains : (o : Ordering) → Chains Ordering.gt o Ordering.gt
gt-Chains Ordering.lt = tt
gt-Chains Ordering.eq = refl
gt-Chains Ordering.gt = refl

pub Chains-gt : (o : Ordering) → Chains o Ordering.gt Ordering.gt
Chains-gt Ordering.lt = tt
Chains-gt Ordering.eq = refl
Chains-gt Ordering.gt = refl

pub then_with-Chains :
    (a b c d e f : Ordering)
    → Chains a b c
    → Chains d e f
    → Chains (then_with a d) (then_with b e) (then_with c f)
then_with-Chains Ordering.lt Ordering.lt c d e f h k = rw h refl
then_with-Chains Ordering.lt Ordering.eq c d e f h k = rw h (lt-Chains e)
then_with-Chains Ordering.lt Ordering.gt c d e f h k = tt
then_with-Chains Ordering.eq Ordering.lt c Ordering.lt e f h k = rw h refl
then_with-Chains Ordering.eq Ordering.lt c Ordering.eq e f h k = rw h refl
then_with-Chains Ordering.eq Ordering.lt c Ordering.gt e f h k = tt
then_with-Chains Ordering.eq Ordering.eq c d e f h k = rw h k
then_with-Chains Ordering.eq Ordering.gt c Ordering.lt e f h k = tt
then_with-Chains Ordering.eq Ordering.gt c Ordering.eq e f h k = rw h refl
then_with-Chains Ordering.eq Ordering.gt c Ordering.gt e f h k = rw h refl
then_with-Chains Ordering.gt Ordering.lt c d e f h k = tt
then_with-Chains Ordering.gt Ordering.eq c d e f h k = rw h (gt-Chains e)
then_with-Chains Ordering.gt Ordering.gt c d e f h k = rw h refl

pub then_with_flips : (a b : Ordering) → then_with (reverse a) (reverse b) ≡ reverse (then_with a b)
then_with_flips Ordering.lt b = refl
then_with_flips Ordering.eq b = refl
then_with_flips Ordering.gt b = refl

abbrev pub is_le : Ordering → Bool
is_le Ordering.lt = true
is_le Ordering.eq = true
is_le Ordering.gt = false

module _ {ℓ} {A : Type ℓ} (cmp : A → A → Ordering) where
  unfoldable pub place : A → List A → List A
  place x [] = x ∷ []
  place x (y ∷ l) = if is_le (cmp x y) then x ∷ y ∷ l else y ∷ place x l

  -- Each element goes in front of the first one that it does not exceed, so equal ones keep their
  -- order.
  unfoldable pub sort_by : List A → List A
  unfolding place
  sort_by [] = []
  sort_by (x ∷ l) = place x (sort_by l)
