-- ===== src/AppleSilicon/Channels/Occurrence.antt =====
-- The search without regard to case in src/providers/apple_silicon.rs.
use micro_joule_attribution.Base.{
  ℕ, zero, suc, ◌+◌, ◌≤◌, ◌<◌, ◌≡◌, ◌↔◌, refl, sym, ◌∙◌, ap, arith, [], ◌∷◌, ◌++◌, map, Bool, true,
  false, ◌==◌, leb, length, length-map, length-append, Bool-cases, inl, inr,
}
use micro_joule_attribution.Base.Texts.{Text}
use micro_joule_attribution.AppleSilicon.Channels.{
  to_ascii_lowercase, eq_ignore_ascii_case, take, windows, any, contains_ignore_ascii_case,
}

-- Equal up to the case of ASCII letters.
abbrev pub SameLetters : Text → Text → Type 0
SameLetters s t = map to_ascii_lowercase s ≡ map to_ascii_lowercase t

-- The needle stands somewhere in the haystack, up to the case of ASCII letters.
abbrev pub Occurs : Text → Text → Type 0
Occurs needle haystack =
    (before : Text) × (part : Text) × (after : Text) × (haystack ≡ before ++ part ++ after)
    × SameLetters part needle

eq_ignore-SameLetters : (s t : Text) → eq_ignore_ascii_case s t ≡ true → SameLetters s t
unfolding eq_ignore_ascii_case
eq_ignore-SameLetters [] [] h = refl
eq_ignore-SameLetters [] (d ∷ t) h = cc
eq_ignore-SameLetters (c ∷ s) [] h = cc
eq_ignore-SameLetters (c ∷ s) (d ∷ t) h = ground (arith, eq_ignore-SameLetters s t)

SameLetters-eq_ignore : (s t : Text) → SameLetters s t → eq_ignore_ascii_case s t ≡ true
unfolding eq_ignore_ascii_case
SameLetters-eq_ignore [] [] h = refl
SameLetters-eq_ignore [] (d ∷ t) h = cc
SameLetters-eq_ignore (c ∷ s) [] h = cc
SameLetters-eq_ignore (c ∷ s) (d ∷ t) h = ground (arith, SameLetters-eq_ignore s t)

abbrev drop : ℕ → Text → Text
drop zero s = s
drop (suc n) [] = []
drop (suc n) (c ∷ s) = drop n s

take-drop : (n : ℕ) (s : Text) → s ≡ take n s ++ drop n s
unfolding take
take-drop zero s = refl
take-drop (suc n) [] = refl
take-drop (suc n) (c ∷ s) = ap (λ r. c ∷ r) (take-drop n s)

take-append : (s t : Text) → take (length s) (s ++ t) ≡ s
unfolding take
take-append [] t = refl
take-append (c ∷ s) t = ap (λ r. c ∷ r) (take-append s t)

module _ (p : Text → Bool) where
  windows-any :
      (n : ℕ) (s : Text)
      → any p (windows n s) ≡ true
      → (before : Text) × (part : Text) × (after : Text) × (s ≡ before ++ part ++ after)
        × (p part ≡ true)
  unfolding any windows
  windows-any n [] h = absurd (ground arith)
  windows-any n (c ∷ s) h = elim (Bool-cases (leb n (suc (length s)))) [
    | inr e ↦ absurd (ground arith)
    | inl e ↦ elim (Bool-cases (p (take n (c ∷ s)))) [
      | inl f ↦ ([], take n (c ∷ s), drop n (c ∷ s), take-drop n (c ∷ s), f)
      | inr f ↦
          let (before, part, after, same, found) = windows-any n s (ground arith) in
          (c ∷ before, part, after, ap (λ r. c ∷ r) same, found)
    ]
  ]

  any-windows :
      (before part after : Text)
      → 0 < length part
      → p part ≡ true
      → any p (windows (length part) (before ++ part ++ after)) ≡ true
  unfolding any windows
  any-windows [] [] after h f = absurd (omega arith)
  any-windows [] (c ∷ part) after h f =
      ground (arith, length-append part after, take-append (c ∷ part) after)
  any-windows (c ∷ before) part after h f =
      let longer =
        length-append (before ++ part) after
        ∙ ap (λ n. n + length after) (length-append before part) in
      let room : leb (length part) (suc (length (before ++ part ++ after))) ≡ true = ground arith in
      rw room (ground (arith, any-windows before part after h f))

same-length : (s t : Text) → SameLetters s t → length s ≡ length t
same-length s t e =
    sym (length-map to_ascii_lowercase s) ∙ ap length e ∙ length-map to_ascii_lowercase t

search-eq :
    (haystack : Text) (d : ℕ) (needle : Text)
    → length (d ∷ needle) ≤ length haystack
    → contains_ignore_ascii_case haystack (d ∷ needle)
      ≡ any (λ w. eq_ignore_ascii_case w (d ∷ needle)) (windows (length (d ∷ needle)) haystack)
unfolding contains_ignore_ascii_case
search-eq haystack d needle h =
    let room : leb (suc (length needle)) (length haystack) ≡ true = ground arith in
    let filled : (suc (length needle) == 0) ≡ false = ground arith in rw (filled, room)

found :
    (before part after : Text) (d : ℕ) (needle : Text)
    → SameLetters part (d ∷ needle)
    → contains_ignore_ascii_case (before ++ part ++ after) (d ∷ needle) ≡ true
found before part after d needle letters =
    let size = same-length part (d ∷ needle) letters in
    let longer =
      length-append (before ++ part) after
      ∙ ap (λ n. n + length after) (length-append before part) in
    let hit =
      any-windows (λ w. eq_ignore_ascii_case w (d ∷ needle)) before part after (omega arith)
        (SameLetters-eq_ignore part (d ∷ needle) letters) in
    search-eq (before ++ part ++ after) d needle (omega arith)
    ∙ ap (λ n. any (λ w. eq_ignore_ascii_case w (d ∷ needle)) (windows n (before ++ part ++ after)))
        (sym size)
    ∙ hit

-- The search succeeds exactly where the needle stands somewhere in the haystack, up to the case
-- of ASCII letters.
pub contains_ignore_ascii_case_iff :
    (haystack needle : Text)
    → contains_ignore_ascii_case haystack needle ≡ true ↔ Occurs needle haystack
unfolding contains_ignore_ascii_case
contains_ignore_ascii_case_iff haystack [] = (λ h. ([], [], haystack, refl, refl), λ o. refl)
contains_ignore_ascii_case_iff haystack (d ∷ needle) = (
  λ h.
      let (before, part, after, same, found) =
        windows-any (λ w. eq_ignore_ascii_case w (d ∷ needle)) (length (d ∷ needle)) haystack
          (ground arith) in
      (before, part, after, same, eq_ignore-SameLetters part (d ∷ needle) found),
  λ (before, part, after, same, letters). rw same (found before part after d needle letters),
)
