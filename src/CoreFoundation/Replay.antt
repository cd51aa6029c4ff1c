-- ===== src/CoreFoundation/Replay.antt =====
-- What the events of an object do to the references to it.
use micro_joule_attribution.Base.{
  ℕ, zero, suc, ◌+◌, ◌≤◌, ◌≡◌, refl, ap, arith, List, ◌∷◌, Bool, if◌then◌else◌, some, none, Option,
  [], ◌++◌, sym, ◌∙◌,
}
use micro_joule_attribution.CoreFoundation.{
  Handle, Event, create, access, release, is_same, replay, replay-append, owning,
}

-- One reference, if the handle is `r`.
abbrev pub mine : Handle → Handle → ℕ
mine r x = if is_same x r then 1 else 0

module _ (r : Handle) where
  pub replay-create :
      (x : Handle) (n : ℕ) (l : List Event)
      → replay r (some n) (create x ∷ l) ≡ replay r (some (mine r x + n)) l
  unfolding replay
  replay-create x n l = ap (λ o. replay r o l) (one (is_same x r))
    where
      one : (b : Bool) → (if b then some (suc n) else some n) ≡ some ((if b then 1 else 0) + n)
      one b = ground arith

  pub replay-release :
      (x : Handle) (n : ℕ) (l : List Event)
      → replay r (some (mine r x + n)) (release x ∷ l) ≡ replay r (some n) l
  unfolding replay
  replay-release x n l = ap (λ o. replay r o l) (ground arith)

  pub replay-access :
      (x : Handle) (n : ℕ) (l : List Event)
      → mine r x ≤ n
      → replay r (some n) (access x ∷ l) ≡ replay r (some n) l
  unfolding replay
  replay-access x zero l h = ap (λ o. replay r o l) (ground (arith, h))
  replay-access x (suc n) l h = refl

  pub replay-owning {ℓ} :
      {B : Type ℓ} (final : B → ℕ) (n : ℕ) (o : Option Handle) (failed : B)
      (body : Handle → List Event × B)
      → final failed ≡ n
      → ((x : Handle)
          → replay r (some (mine r x + n)) (body x).0 ≡ some (mine r x + final (body x).1))
      → replay r (some n) (owning o failed body).0 ≡ some (final (owning o failed body).1)
  unfolding replay owning
  replay-owning final n none failed body e h = ap some (sym e)
  replay-owning final n (some x) failed body e h =
      replay-create x n ((body x).0 ++ release x ∷ [])
      ∙ replay-append r (some (mine r x + n)) (body x).0 (release x ∷ [])
      ∙ ap (λ o. replay r o (release x ∷ [])) (h x)
      ∙ replay-release x (final (body x).1) []
