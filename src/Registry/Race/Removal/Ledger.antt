-- ===== src/Registry/Race/Removal/Ledger.antt =====
-- Where the energy of concurrent calls of `add_micro_joules` of src/core/registry.rs goes, among any
-- removals.
use micro_joule_attribution.Base.{
  ℕ, ◌+◌, ◌-◌, ◌≤◌, ◌<◌, ◌≡◌, refl, ap, List, [], arith, if◌then◌else◌, ◌==◌, update,
  saturating_add, u64_max,
}
use micro_joule_attribution.Registry.Table.{SkipMap}
use micro_joule_attribution.Registry.{AmalgafyRegistry, new, get}
use micro_joule_attribution.Registry.Race.{
  Job, Pc, idle, loaded, done, Move, hit, miss, offer, load, win, lose, stored,
}
use micro_joule_attribution.Registry.Race.Counting.{
  share, credit, credited, credited-update, credited-init,
}
use micro_joule_attribution.Registry.Race.Invariant.{held}
use micro_joule_attribution.Registry.Race.Removal.{
  Unlinked, Churning, Churn, moves, unlinks, returns, Churned, at_first, and_then,
}
use micro_joule_attribution.Registry.Race.Removal.Ties.{Tied}
use micro_joule_attribution.Registry.Race.Removal.Preservation.{Churned-Tied}
use micro_joule_attribution.Registry.Race.Removal.Readers.{
  is_read, kept, unlinks-kept, returns-kept, offer-kept, stored-kept,
}

module _ (S : SkipMap) (n : ℕ) (jobs : ℕ → Job) where
  -- What is lost for the PID `k`: the delta of a call that returns where nothing reads its cell.
  abbrev pub lost_move :
      {r : AmalgafyRegistry S} {job : Job} {p : Pc} {r' : AmalgafyRegistry S} {p' : Pc}
      → List Unlinked
      → ℕ
      → Move S r job p r' p'
      → ℕ
  lost_move pending k (hit _) = 0
  lost_move pending k (miss _) = 0
  lost_move pending k offer = 0
  lost_move pending k load = 0
  lost_move {r = r} {job = job} pending k (win {c} _) =
      if is_read S n jobs r pending job.pid c then 0 else share job k
  lost_move pending k lose = 0

  -- What is cut off for the PID `k`: the part of a delta that exceeds the largest u64.
  abbrev pub cut_move :
      {r : AmalgafyRegistry S} {job : Job} {p : Pc} {r' : AmalgafyRegistry S} {p' : Pc}
      → List Unlinked
      → ℕ
      → Move S r job p r' p'
      → ℕ
  cut_move pending k (hit _) = 0
  cut_move pending k (miss _) = 0
  cut_move pending k offer = 0
  cut_move pending k load = 0
  cut_move {r = r} {job = job} pending k (win {c} {current} _) =
      if is_read S n jobs r pending job.pid c
      then (if job.pid == k
          then current + job.delta_uj - saturating_add current job.delta_uj
          else 0)
      else 0
  cut_move pending k lose = 0

  abbrev pub lost_step : {s u : Churning S} → ℕ → Churn S n jobs s u → ℕ
  lost_step {s} k (moves i lt mv) = lost_move s.pending k mv
  lost_step k (unlinks pid h) = 0
  lost_step k (returns taken) = 0

  abbrev pub cut_step : {s u : Churning S} → ℕ → Churn S n jobs s u → ℕ
  cut_step {s} k (moves i lt mv) = cut_move s.pending k mv
  cut_step k (unlinks pid h) = 0
  cut_step k (returns taken) = 0

  abbrev pub lost : {s : Churning S} → ℕ → Churned S n jobs s → ℕ
  lost k at_first = 0
  lost k (and_then c st) = lost k c + lost_step k st

  abbrev pub cut : {s : Churning S} → ℕ → Churned S n jobs s → ℕ
  cut k at_first = 0
  cut k (and_then c st) = cut k c + cut_step k st

  module _ (s : Churning S) (t : Tied S n jobs s.registry s.pc s.pending) (k i : ℕ) (lt : i < n)
      (fits : (c : ℕ) → s.registry.cells c ≤ u64_max) where
    -- What a step of the call `i` moves from what is asked for to where it goes.
    abbrev Enters : AmalgafyRegistry S → Pc → ℕ → Type 0
    Enters r p away =
        kept S n jobs (record s { registry = r }) k + away + credit (jobs i) (s.pc i) k
        ≡ kept S n jobs s k + credit (jobs i) p k

    Enters-credited :
        (r : AmalgafyRegistry S) (p : Pc) (away : ℕ)
        → Enters r p away
        → kept S n jobs (record s { registry = r }) k + away + credited jobs n s.pc k
          ≡ kept S n jobs s k + credited jobs n (update s.pc i p) k
    Enters-credited r p away h = omega (arith, h, credited-update jobs n s.pc i p k lt)

    win-Enters :
        (c current : ℕ)
        → s.pc i ≡ loaded c current
        → s.registry.cells c ≡ current
        → Enters
            (stored S s.registry c (saturating_add current (jobs i).delta_uj))
            (done (saturating_add current (jobs i).delta_uj))
            ((if is_read S n jobs s.registry s.pending (jobs i).pid c then 0 else share (jobs i) k)
              + (if is_read S n jobs s.registry s.pending (jobs i).pid c
                  then (if (jobs i).pid == k
                      then current + (jobs i).delta_uj - saturating_add current (jobs i).delta_uj
                      else 0)
                  else 0))
    win-Enters c current e h =
        let total = saturating_add current (jobs i).delta_uj in
        let grows = fits c in
        let growth = stored-kept S n jobs s t k i c total (ap held e) (omega arith) in
        rw e (ground (arith, h, growth))

    Move-Enters :
        {p : Pc} {r' : AmalgafyRegistry S} {p' : Pc}
        → (mv : Move S s.registry (jobs i) p r' p') → s.pc i ≡ p
        → Enters r' p' (lost_move s.pending k mv + cut_move s.pending k mv)
    Move-Enters (hit {c} g) e = rw e (omega arith)
    Move-Enters (miss g) e = rw e (omega arith)
    Move-Enters offer e = rw e (omega (arith, offer-kept S n jobs s t k i))
    Move-Enters (load {c}) e = rw e (omega arith)
    Move-Enters (win {c} {current} h) e = win-Enters c current e h
    Move-Enters (lose {c} {current}) e = rw e (omega arith)

  Move-fits :
      {r : AmalgafyRegistry S} {job : Job} {p : Pc} {r' : AmalgafyRegistry S} {p' : Pc}
      → Move S r job p r' p'
      → ((c : ℕ) → r.cells c ≤ u64_max)
      → (c : ℕ) → r'.cells c ≤ u64_max
  Move-fits (hit g) f c = f c
  Move-fits (miss g) f c = f c
  Move-fits offer f c = ground (arith, f c)
  Move-fits load f c = f c
  Move-fits (win h) f c = ground (arith, f c)
  Move-fits lose f c = f c

  Churned-fits : {s : Churning S} → Churned S n jobs s → (c : ℕ) → s.registry.cells c ≤ u64_max
  unfolding new
  Churned-fits at_first c = omega arith
  Churned-fits (and_then r (moves i lt mv)) c = Move-fits mv (Churned-fits r) c
  Churned-fits (and_then r (unlinks pid h)) c = Churned-fits r c
  Churned-fits (and_then r (returns taken)) c = Churned-fits r c

  kept-init :
      (k : ℕ)
      → kept S n jobs
          (record { registry = new S; pc = λ _. idle; pending = []; returned = λ _. 0 })
          k
        ≡ 0
  unfolding new get
  kept-init k = ground (arith, S.get-empty k)

  -- In a state that `n` concurrent calls of `add_micro_joules` and any concurrent removals on a
  -- new registry reach by any interleaving of their shared accesses, five amounts are for each
  -- PID together exactly what the calls that have returned asked for it: what the removals have
  -- returned, what stands in the cells that removals have taken out and not yet loaded, what the
  -- PID holds, the deltas of calls that returned when neither the table nor such a removal had
  -- their cell, and what of the other deltas was cut off above the largest u64.
  pub kept-credited :
      {s : Churning S}
      → (c : Churned S n jobs s) → (k : ℕ)
      → kept S n jobs s k + (lost k c + cut k c) ≡ credited jobs n s.pc k
  kept-credited at_first k = omega (arith, kept-init k, credited-init jobs n k)
  kept-credited (and_then {s = s} c (moves i {r} {p} lt mv)) k =
      let t = Churned-Tied S n jobs c in
      let entered = Move-Enters s t k i lt (Churned-fits c) mv refl in
      omega (
        arith,
        kept-credited c k,
        Enters-credited s t k i lt (Churned-fits c) r p
            (lost_move s.pending k mv + cut_move s.pending k mv) entered,
      )
  kept-credited (and_then {s = s} c (unlinks pid h)) k =
      omega (arith, kept-credited c k, unlinks-kept S n jobs s (Churned-Tied S n jobs c) k pid h)
  kept-credited (and_then {s = s} c (returns taken)) k =
      omega (arith, kept-credited c k, returns-kept S n jobs s (Churned-Tied S n jobs c) k taken)

  -- For each PID, what the removals have returned, what stands in the cells that removals have taken
  -- out and not yet loaded, and what the PID holds are together at most what the calls that have
  -- returned asked for it.
  pub returned-le_credited :
      {s : Churning S} → Churned S n jobs s → (k : ℕ) → kept S n jobs s k ≤ credited jobs n s.pc k
  returned-le_credited c k = omega (arith, kept-credited c k)
