-- ===== src/Base/Sorting/Ascending.antt =====
-- The sort of elements that all compare as different rises strictly.
use micro_joule_attribution.Base.Tests.{Bool-cases}
use micro_joule_attribution.Base.Lists.{All}
use micro_joule_attribution.Base.Sorting.{IsTotalOrder, is_le, place, sort_by}
use micro_joule_attribution.Base.Sorting.Permuted.{Apart, All-place, All-sort_by}
use Prim.Native.Nat.{Ordering}
use mathlib.Core.Path.{◌≡◌}
use mathlib.Core.Logic.{◌≢◌, inl, inr}
use mathlib.Core.List.{List, [], ◌∷◌}
use native.Mathlib.Omega.{arith}

module _ {ℓ} {A : Type ℓ} (cmp : A → A → Ordering) where
  abbrev pub IsAscending : List A → Type 0
  IsAscending [] = Unit
  IsAscending (x ∷ l) = All (λ y. cmp x y ≡ Ordering.lt) l × IsAscending l

module _ {ℓ} {A : Type ℓ} (cmp : A → A → Ordering) (order : IsTotalOrder cmp) where
  All-below :
      (x y : A) (l : List A)
      → cmp x y ≡ Ordering.lt
      → All (λ z. cmp y z ≡ Ordering.lt) l
      → All (λ z. cmp x z ≡ Ordering.lt) l
  All-below x y [] h a = tt
  All-below x y (z ∷ l) h a = (ground (arith, h, a.0, order.chains x y z), All-below x y l h a.1)

  place-IsAscending :
      (x : A) (l : List A)
      → All (λ y. cmp x y ≢ Ordering.eq) l
      → IsAscending cmp l
      → IsAscending cmp (place cmp x l)
  unfolding place
  place-IsAscending x [] h a = (tt, tt)
  place-IsAscending x (y ∷ l) h a = elim (Bool-cases (is_le (cmp x y))) [
    | inl e ↦
        let below : cmp x y ≡ Ordering.lt = ground (arith, e, h.0) in
        rw e ((below, All-below x y l below a.0), a)
    | inr e ↦
        let above : cmp y x ≡ Ordering.lt = ground (arith, e, order.flips x y) in
        rw e
          (All-place cmp (λ z. cmp y z ≡ Ordering.lt) x l above a.0, place-IsAscending x l h.1 a.1)
  ]

  pub sort_by-IsAscending : (l : List A) → Apart cmp l → IsAscending cmp (sort_by cmp l)
  unfolding sort_by
  sort_by-IsAscending [] a = tt
  sort_by-IsAscending (x ∷ l) a =
      place-IsAscending x (sort_by cmp l) (All-sort_by cmp (λ y. cmp x y ≢ Ordering.eq) l a.0)
        (sort_by-IsAscending l a.1)
