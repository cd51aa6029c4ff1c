-- ===== src/Base/Texts.antt =====
-- `String` and `&str` as the list of the code points of a text.
use Prim.Native.Nat.{ℕ, Ordering, compare}
use micro_joule_attribution.Base.Sorting.{
  then_with, reverse, Chains, IsTotalOrder, then_with-Chains, then_with_flips, compare-Chains,
  compare_flips, lt-Chains, Chains-gt,
}
use Prim.Native.Char.{code}
use Prim.Native.String.{String}
use micro_joule_attribution.Base.Tests.{◌==◌}
use mathlib.Core.Path.{◌≡◌, refl}
use mathlib.Core.Bool.{Bool, true, false, ◌&&◌}
use mathlib.Core.List.{List, [], ◌∷◌}
use native.Mathlib.Omega.{arith}

abbrev pub Text : Type 0
Text = List ℕ

abbrev pub text : String → Text
text String.[] = []
text (String.◌∷◌ c s) = code c ∷ text s

unfoldable pub text_eq : Text → Text → Bool
text_eq [] [] = true
text_eq [] (d ∷ t) = false
text_eq (c ∷ s) [] = false
text_eq (c ∷ s) (d ∷ t) = c == d && text_eq s t

pub text_eq_self : (s : Text) → text_eq s s ≡ true
unfolding text_eq
text_eq_self [] = refl
text_eq_self (c ∷ s) = ground (arith, text_eq_self s)

pub eq_of_text_eq : (s t : Text) → text_eq s t ≡ true → s ≡ t
unfolding text_eq
eq_of_text_eq [] [] h = refl
eq_of_text_eq [] (d ∷ t) h = cc
eq_of_text_eq (c ∷ s) [] h = cc
eq_of_text_eq (c ∷ s) (d ∷ t) h = ground (arith, eq_of_text_eq s t)

-- `Ord` of the texts, which compares their bytes in UTF-8: the code points decide in the same way.
unfoldable pub compare_text : Text → Text → Ordering
compare_text [] [] = Ordering.eq
compare_text [] (d ∷ t) = Ordering.lt
compare_text (c ∷ s) [] = Ordering.gt
compare_text (c ∷ s) (d ∷ t) = then_with (compare c d) (compare_text s t)

compare_text-Chains :
    (s t u : Text) → Chains (compare_text s t) (compare_text t u) (compare_text s u)
unfolding compare_text
compare_text-Chains [] [] [] = refl
compare_text-Chains [] [] (e ∷ u) = refl
compare_text-Chains [] (d ∷ t) [] = tt
compare_text-Chains [] (d ∷ t) (e ∷ u) = lt-Chains (then_with (compare d e) (compare_text t u))
compare_text-Chains (c ∷ s) [] [] = refl
compare_text-Chains (c ∷ s) [] (e ∷ u) = tt
compare_text-Chains (c ∷ s) (d ∷ t) [] = Chains-gt (then_with (compare c d) (compare_text s t))
compare_text-Chains (c ∷ s) (d ∷ t) (e ∷ u) =
    then_with-Chains (compare c d) (compare d e) (compare c e) (compare_text s t) (compare_text t u)
      (compare_text s u) (compare-Chains c d e) (compare_text-Chains s t u)

compare_text_flips : (s t : Text) → compare_text t s ≡ reverse (compare_text s t)
unfolding compare_text
compare_text_flips [] [] = refl
compare_text_flips [] (d ∷ t) = refl
compare_text_flips (c ∷ s) [] = refl
compare_text_flips (c ∷ s) (d ∷ t) =
    rw (compare_flips c d, compare_text_flips s t)
      (then_with_flips (compare c d) (compare_text s t))

pub compare_text-IsTotalOrder : IsTotalOrder compare_text
compare_text-IsTotalOrder = record { flips = compare_text_flips; chains = compare_text-Chains }

pub eq_of_compare_text : (s t : Text) → compare_text s t ≡ Ordering.eq → s ≡ t
unfolding compare_text
eq_of_compare_text [] [] h = refl
eq_of_compare_text [] (d ∷ t) h = cc
eq_of_compare_text (c ∷ s) [] h = cc
eq_of_compare_text (c ∷ s) (d ∷ t) h = ground (arith, h, eq_of_compare_text s t)
