-- ===== src/Registry/Race/Removal/Potential.antt =====
-- How many shared accesses the concurrent calls of `add_micro_joules` of src/core/registry.rs make,
-- among any removals.
use micro_joule_attribution.Base.{
  ℕ, zero, suc, ◌+◌, ◌*◌, ◌≤◌, ◌<◌, ◌≡◌, ◌∙◌, refl, ap, arith, some, if◌then◌else◌, ◌==◌, update,
  sum_below, sum_below_shift,
}
use micro_joule_attribution.Registry.Table.{SkipMap}
use micro_joule_attribution.Registry.{AmalgafyRegistry, new}
use micro_joule_attribution.Registry.Race.{
  Job, Pc, idle, missed, holding, loaded, done, Move, hit, miss, offer, load, win, lose,
}
use micro_joule_attribution.Registry.Race.Invariant.{held}
use micro_joule_attribution.Registry.Race.Removal.{
  Churning, Churn, moves, unlinks, returns, Churned, at_first, and_then,
}
use micro_joule_attribution.Registry.Race.Removal.Preservation.{Churned-Tied}

-- What a call still has to do, if no other one interferes; `stale` says that its next exchange fails.
abbrev weight : ℕ → (ℕ → ℕ) → Pc → ℕ
weight n cells idle = n + 3
weight n cells missed = n + 2
weight n cells (holding c) = n + 1
weight n cells (loaded c current) = if cells c == current then n else n + 1
weight n cells (done total) = 0

abbrev potential : ℕ → (ℕ → ℕ) → (ℕ → Pc) → ℕ
potential n cells pc = sum_below n (λ i. weight n cells (pc i))

module _ (S : SkipMap) (n : ℕ) (jobs : ℕ → Job) where
  -- An exchange that fails although the cell holds what was loaded.
  abbrev pub spurious_move :
      {r : AmalgafyRegistry S} {job : Job} {p : Pc} {r' : AmalgafyRegistry S} {p' : Pc}
      → Move S r job p r' p'
      → ℕ
  spurious_move (hit _) = 0
  spurious_move (miss _) = 0
  spurious_move offer = 0
  spurious_move load = 0
  spurious_move (win _) = 0
  spurious_move {r = r} (lose {c} {current}) = if r.cells c == current then 1 else 0

  abbrev pub spurious_step : {s u : Churning S} → Churn S n jobs s u → ℕ
  spurious_step (moves i lt mv) = spurious_move mv
  spurious_step (unlinks pid h) = 0
  spurious_step (returns taken) = 0

  -- How many exchanges have failed in that way.
  abbrev pub spurious : {s : Churning S} → Churned S n jobs s → ℕ
  spurious at_first = 0
  spurious (and_then c st) = spurious c + spurious_step st

  abbrev pub accesses_step : {s u : Churning S} → Churn S n jobs s u → ℕ
  accesses_step (moves i lt mv) = 1
  accesses_step (unlinks pid h) = 0
  accesses_step (returns taken) = 0

  -- How many shared accesses the calls have made, those of the removals not counted.
  abbrev pub accesses : {s : Churning S} → Churned S n jobs s → ℕ
  accesses at_first = 0
  accesses (and_then c st) = accesses c + accesses_step st

  module _ (r : AmalgafyRegistry S) (pc : ℕ → Pc)
      (made : (j c : ℕ) → held (pc j) ≡ some c → c < r.next) (i : ℕ) (lt : i < n) where
    quiet :
        (p : Pc)
        → potential n r.cells (update pc i p) + weight n r.cells (pc i)
          ≤ potential n r.cells pc + weight n r.cells p
    quiet p =
        let shift =
          sum_below_shift (λ j. weight n r.cells (pc j)) (λ j. weight n r.cells (update pc i p j)) i
            0 (λ j h. ground arith) n lt in
        ground (arith, shift)

    -- The other calls work on cells that were allocated before.
    weight-offered :
        (j : ℕ) (p : Pc) → pc j ≡ p → weight n (update r.cells r.next 0) p ≡ weight n r.cells p
    weight-offered j idle e = refl
    weight-offered j missed e = refl
    weight-offered j (holding c) e = refl
    weight-offered j (loaded c current) e = let old = made j c (ap held e) in ground (arith, old)
    weight-offered j (done total) e = refl

    offer-potential :
        (c : ℕ)
        → pc i ≡ missed
        → potential n (update r.cells r.next 0) (update pc i (holding c)) + 1
          ≤ potential n r.cells pc
    offer-potential c e =
        let shift =
          sum_below_shift (λ j. weight n r.cells (pc j))
            (λ j. weight n (update r.cells r.next 0) (update pc i (holding c) j)) i 0
            (λ j h. ground (arith, weight-offered j (pc j) refl)) n lt in
        let before : weight n r.cells (pc i) ≡ n + 2 = ap (weight n r.cells) e in
        ground (arith, shift)

    weight-stored :
        (c total : ℕ) (p : Pc) → weight n (update r.cells c total) p ≤ weight n r.cells p + 1
    weight-stored c total idle = omega arith
    weight-stored c total missed = omega arith
    weight-stored c total (holding d) = omega arith
    weight-stored c total (loaded d current) = ground arith
    weight-stored c total (done _) = omega arith

    win-potential :
        (c current total : ℕ)
        → pc i ≡ loaded c current
        → r.cells c ≡ current
        → potential n (update r.cells c total) (update pc i (done total)) + 1
          ≤ potential n r.cells pc
    win-potential c current total e h =
        let shift =
          sum_below_shift (λ j. weight n r.cells (pc j))
            (λ j. weight n (update r.cells c total) (update pc i (done total) j)) i 1
            (λ j g. ground (arith, weight-stored c total (pc j))) n lt in
        let fresh : weight n r.cells (loaded c current) ≡ n = ground arith in
        let before : weight n r.cells (pc i) ≡ n = ap (weight n r.cells) e ∙ fresh in
        ground (arith, shift)

    Move-potential :
        {p : Pc} {r' : AmalgafyRegistry S} {p' : Pc}
        → (mv : Move S r (jobs i) p r' p') → pc i ≡ p
        → potential n r'.cells (update pc i p') + 1 ≤ potential n r.cells pc + spurious_move mv
    Move-potential (hit {c} g) e = omega (arith, quiet (holding c), ap (weight n r.cells) e)
    Move-potential (miss g) e = omega (arith, quiet missed, ap (weight n r.cells) e)
    Move-potential offer e = omega (arith, offer-potential _ e)
    Move-potential (load {c}) e =
        ground (arith, quiet (loaded c (r.cells c)), ap (weight n r.cells) e)
    Move-potential (win h) e = omega (arith, win-potential _ _ _ e h)
    Move-potential (lose {c} {current}) e =
        ground (arith, quiet (loaded c (r.cells c)), ap (weight n r.cells) e)

  Churn-potential :
      {s u : Churning S}
      → (st : Churn S n jobs s u) → ((j c : ℕ) → held (s.pc j) ≡ some c → c < s.registry.next)
      → accesses_step st + potential n u.registry.cells u.pc
        ≤ potential n s.registry.cells s.pc + spurious_step st
  Churn-potential {s} (moves i lt mv) made =
      omega (arith, Move-potential s.registry s.pc made i lt mv refl)
  Churn-potential (unlinks pid h) made = omega arith
  Churn-potential (returns taken) made = omega arith

  sum_below_idle : (m : ℕ) → sum_below m (λ i. weight n (λ _. 0) idle) ≡ m * (n + 3)
  sum_below_idle zero = omega arith
  sum_below_idle (suc m) =
      let product : suc m * (n + 3) ≡ m * (n + 3) + (n + 3) = grind arith in
      omega (arith, sum_below_idle m)

  Churned-potential :
      {s : Churning S}
      → (c : Churned S n jobs s)
      → accesses c + potential n s.registry.cells s.pc ≤ n * (n + 3) + spurious c
  unfolding new
  Churned-potential at_first = omega (arith, sum_below_idle n)
  Churned-potential (and_then c st) =
      omega (arith, Churned-potential c, Churn-potential st (Churned-Tied S n jobs c).made)

  -- In any run of `n` concurrent calls of `add_micro_joules` and any concurrent removals on a new
  -- registry, by any interleaving, the calls make together at most `n * (n + 3)` shared accesses,
  -- and one more for each exchange that fails although the cell holds what was loaded.
  pub accesses-le :
      {s : Churning S} → (c : Churned S n jobs s) → accesses c ≤ n * (n + 3) + spurious c
  accesses-le c = omega (arith, Churned-potential c)
