-- ===== src/Base/Sorting/Permuted.antt =====
-- The sort forgets the order of a list whose elements all compare as different.
use micro_joule_attribution.Base.Tests.{Bool-cases}
use micro_joule_attribution.Base.Lists.{All}
use micro_joule_attribution.Base.Sorting.{reverse, IsTotalOrder, is_le, place, sort_by}
use Prim.Native.Nat.{Ordering}
use mathlib.Core.Path.{◌≡◌, refl, sym, ap, ◌∙◌, subst}
use mathlib.Core.Logic.{◌≢◌, ◌⊎◌, inl, inr}
use mathlib.Core.List.{List, [], ◌∷◌, Permᴰ}
use mathlib.Core.List.Permᴰ.{nil, cons, swap, trans}
use native.Mathlib.Omega.{arith}

module _ {ℓ} {A : Type ℓ} (cmp : A → A → Ordering) where
  pub All-place {κ} : (P : A → Type κ) (x : A) (l : List A) → P x → All P l → All P (place cmp x l)
  unfolding place
  All-place P x [] h a = (h, tt)
  All-place P x (y ∷ l) h a = elim (Bool-cases (is_le (cmp x y))) [
    | inl e ↦ rw e (h, a)
    | inr e ↦ rw e (a.0, All-place P x l h a.1)
  ]

  pub All-sort_by {κ} : (P : A → Type κ) (l : List A) → All P l → All P (sort_by cmp l)
  unfolding sort_by
  All-sort_by P [] a = tt
  All-sort_by P (x ∷ l) a = All-place P x (sort_by cmp l) a.0 (All-sort_by P l a.1)

  -- All elements compare as different.
  abbrev pub Apart : List A → Type 0
  Apart [] = Unit
  Apart (x ∷ l) = All (λ y. cmp x y ≢ Ordering.eq) l × Apart l

Ordering-cases : (o : Ordering) → (o ≡ Ordering.lt) ⊎ ((o ≡ Ordering.eq) ⊎ (o ≡ Ordering.gt))
Ordering-cases Ordering.lt = inl refl
Ordering-cases Ordering.eq = inr (inl refl)
Ordering-cases Ordering.gt = inr (inr refl)

module _ {ℓ} {A : Type ℓ} (cmp : A → A → Ordering) (order : IsTotalOrder cmp) where
  place_comm_lt :
      (x y : A) (l : List A)
      → cmp x y ≡ Ordering.lt
      → place cmp x (place cmp y l) ≡ place cmp y (place cmp x l)
  unfolding place
  place_comm_lt x y [] h = ground (arith, h, order.flips x y)
  place_comm_lt x y (z ∷ l) h =
      ground (arith, h, order.flips x y, order.chains x y z, place_comm_lt x y l h)

  pub place_comm :
      (x y : A) (l : List A)
      → cmp x y ≢ Ordering.eq
      → place cmp x (place cmp y l) ≡ place cmp y (place cmp x l)
  place_comm x y l h = elim (Ordering-cases (cmp x y)) [
    | inl e ↦ place_comm_lt x y l e
    | inr (inl e) ↦ absurd (h e)
    | inr (inr e) ↦ sym (place_comm_lt y x l (order.flips x y ∙ ap reverse e))
  ]

  apart_comm : (x y : A) → cmp x y ≢ Ordering.eq → cmp y x ≢ Ordering.eq
  apart_comm x y h = ground (arith, h, order.flips x y)

  All-Permᴰ {κ} : (P : A → Type κ) {l r : List A} → Permᴰ l r → All P l → All P r
  All-Permᴰ P nil a = a
  All-Permᴰ P (cons e d) a = (subst P e a.0, All-Permᴰ P d a.1)
  All-Permᴰ P (swap e f) a = (subst P f a.1.0, (subst P e a.0, a.1.1))
  All-Permᴰ P (trans d e) a = All-Permᴰ P e (All-Permᴰ P d a)

  ApartFrom : A → List A → Type 0
  ApartFrom x l = All (λ y. cmp x y ≢ Ordering.eq) l

  Apart-Permᴰ : {l r : List A} → Permᴰ l r → Apart cmp l → Apart cmp r
  unfolding ApartFrom
  Apart-Permᴰ nil a = a
  Apart-Permᴰ (cons {b = b} {l₂ = r} e d) a = (
    subst (λ x. ApartFrom x r) e (All-Permᴰ (λ y. cmp _ y ≢ Ordering.eq) d a.0),
    Apart-Permᴰ d a.1,
  )
  Apart-Permᴰ (swap {a = x} {b = y} {l = l} e f) a = (
    ((λ h. apart_comm x y a.0.0 (cc)), subst (λ z. ApartFrom z l) f a.1.0),
    (subst (λ z. ApartFrom z l) e a.0.1, a.1.1),
  )
  Apart-Permᴰ (trans d e) a = Apart-Permᴰ e (Apart-Permᴰ d a)

  pub sort_by-Permᴰ : {l r : List A} → Permᴰ l r → Apart cmp l → sort_by cmp l ≡ sort_by cmp r
  unfolding sort_by
  sort_by-Permᴰ nil a = refl
  sort_by-Permᴰ (cons e d) a = λ i. place cmp (e i) (sort_by-Permᴰ d a.1 i)
  sort_by-Permᴰ (swap {a = x} {b = y} {l = l} e f) a =
      place_comm x y (sort_by cmp l) a.0.0
      ∙ (λ i. place cmp (f i) (place cmp (e i) (sort_by cmp l)))
  sort_by-Permᴰ (trans d e) a = sort_by-Permᴰ d a ∙ sort_by-Permᴰ e (Apart-Permᴰ d a)
