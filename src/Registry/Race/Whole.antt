-- ===== src/Registry/Race/Whole.antt =====
-- The total of the registry after concurrent calls of `add_micro_joules` of src/core/registry.rs.
use micro_joule_attribution.Base.{
  ℕ, zero, suc, ◌<◌, ◌≡◌, ◌∙◌, refl, sym, ap, arith, List, [], ◌∷◌, ◌++◌, map, sum, All, true,
  if◌then◌else◌, occurs, sum_below, sum_below-change, clamp_u64,
}
use micro_joule_attribution.Registry.Table.{SkipMap}
use micro_joule_attribution.Registry.{new, total_micro_joules}
use micro_joule_attribution.Registry.Total.{total-add, total-snapshot, total_of, snapshot-new}
use micro_joule_attribution.Registry.Race.{Job, System, Reach, here}
use micro_joule_attribution.Registry.Race.Counting.{IsDone}
use micro_joule_attribution.Registry.Race.Replay.{Once, replayed, replayed-IsValid}
use micro_joule_attribution.Registry.Race.Linear.{linearizable}

module _ (f : ℕ → ℕ) where
  -- The values of the numbers that occur in a list.
  abbrev chosen : List ℕ → ℕ → ℕ
  chosen l i = if occurs i l then f i else 0

  sum_below-none : (n : ℕ) → sum_below n (chosen []) ≡ 0
  sum_below-none zero = refl
  sum_below-none (suc n) = omega (arith, sum_below-none n)

  sum-chosen :
      (n : ℕ) (l : List ℕ) → Once l → All (λ i. i < n) l → sum (map f l) ≡ sum_below n (chosen l)
  sum-chosen n [] o a = sym (sum_below-none n)
  sum-chosen n (i ∷ l) o a =
      let change =
        sum_below-change (chosen l) (chosen (i ∷ l)) i n (λ j d. ground (arith, d)) a.0 in
      let rest = sum-chosen n l o.1 a.1 in ground (arith, o.0, change, rest)

  sum_below-chosen :
      (n : ℕ) (l : List ℕ)
      → ((i : ℕ) → i < n → occurs i l ≡ true)
      → sum_below n (chosen l) ≡ sum_below n f
  sum_below-chosen zero l h = refl
  sum_below-chosen (suc n) l h =
      let rest = sum_below-chosen n l (λ i lt. h i (omega arith)) in
      let last = h n (omega arith) in ground (arith, rest, last)

module _ (S : SkipMap) (n : ℕ) (jobs : ℕ → Job) where
  abbrev delta_of : ℕ → ℕ
  delta_of i = (jobs i).delta_uj

  total-new : total_micro_joules S (new S) ≡ 0
  total-new = (total-snapshot S (new S)).0 ∙ ap (λ m. clamp_u64 (total_of m)) (snapshot-new S)

  total-replayed :
      (order : List ℕ)
      → total_micro_joules S (replayed S jobs order) ≡ clamp_u64 (sum (map delta_of order))
  total-replayed [] = total-new
  total-replayed (i ∷ order) =
      let step =
        (total-add S (replayed S jobs order) (jobs i).pid (jobs i).delta_uj
          (replayed-IsValid S jobs order)).0 in
      omega (arith, step, total-replayed order)

  -- Where `n` concurrent calls of `add_micro_joules` on a new registry have all returned, by any
  -- interleaving of their shared accesses, the total of the registry is the sum of all their
  -- deltas, up to the largest u64; no `remove` runs.
  pub total-requested :
      {s : System S}
      → Reach S n jobs s
      → ((i : ℕ) → i < n → IsDone (s.pc i))
      → total_micro_joules S s.registry ≡ clamp_u64 (sum_below n delta_of)
  total-requested {s} r all =
      let (older, newer, _, ex, same) = linearizable S n jobs r here all in
      let order = newer ++ older in
      let every = λ (i : ℕ) (lt : i < n). ex.complete i (all i lt) in
      let shares =
        sum-chosen delta_of n order ex.once ex.below ∙ sum_below-chosen delta_of n order every in
      (total-snapshot S s.registry).0
      ∙ ap (λ m. clamp_u64 (total_of m)) same
      ∙ sym (total-snapshot S (replayed S jobs order)).0
      ∙ total-replayed order
      ∙ ap clamp_u64 shares
