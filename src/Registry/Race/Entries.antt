-- ===== src/Registry/Race/Entries.antt =====
-- Whose PIDs the table holds during the concurrent calls of `add_micro_joules` of
-- src/core/registry.rs.
use micro_joule_attribution.Base.{
  ℕ, ◌<◌, ◌≡◌, ◌≢◌, refl, Bool, true, false, none, some, arith, update, saturating_add, ℕ_discrete,
}
use micro_joule_attribution.Registry.Table.{SkipMap}
use micro_joule_attribution.Registry.{AmalgafyRegistry, new}
use micro_joule_attribution.Registry.Race.{
  Job, Pc, idle, missed, holding, loaded, done, Move, hit, miss, offer, load, win, lose, System,
  offered, Step, pick, Reach, start, later,
}
use micro_joule_attribution.Registry.Race.Counting.{IsDone}

-- Whether the call has its cell, or has returned.
abbrev pub entered : Pc → Bool
entered idle = false
entered missed = false
entered (holding _) = true
entered (loaded _ _) = true
entered (done _) = true

pub entered_done : (p : Pc) → IsDone p → entered p ≡ true
entered_done idle d = absurd d
entered_done missed d = absurd d
entered_done (holding _) d = absurd d
entered_done (loaded _ _) d = absurd d
entered_done (done _) d = refl

module _ (S : SkipMap) (n : ℕ) (jobs : ℕ → Job) where
  -- The table holds the PIDs of the calls that have a cell, and no others.
  pub record Entries (r : AmalgafyRegistry S) (pc : ℕ → Pc) : Type 0 where
    pub owner :
        (k c : ℕ)
        → S.get r.table k ≡ some c
        → (i : ℕ) × (i < n) × ((jobs i).pid ≡ k) × (entered (pc i) ≡ true)
    pub kept : (i : ℕ) → entered (pc i) ≡ true → S.get r.table (jobs i).pid ≢ none

  Entries-init : Entries (new S) (λ _. idle)
  unfolding new
  Entries-init = record {
    owner = λ k c e. absurd (ground (arith, S.get-empty k));
    kept = λ i e. absurd (cc);
  }

  module _ {r : AmalgafyRegistry S} {pc : ℕ → Pc} (es : Entries r pc) (i : ℕ) (lt : i < n) where
    -- A move that leaves the table alone.
    quiet :
        (cells : ℕ → ℕ) (p : Pc)
        → (entered (pc i) ≡ true → entered p ≡ true)
        → (entered p ≡ true → S.get r.table (jobs i).pid ≢ none)
        → Entries (record r { cells = cells }) (update pc i p)
    quiet cells p f g = record {
      owner = λ k c e. let (j, below, pid, ent) = es.owner k c e in (j, below, pid, ground arith);
      kept = λ j e. ground (arith, es.kept j);
    }

    offer-Entries :
        pc i ≡ missed
        → Entries
            (offered S r (jobs i).pid)
            (update pc i (holding ((S.get_or_insert r.table (jobs i).pid r.next).1)))
    offer-Entries h = record {
      owner = λ k c e. elim (ℕ_discrete (jobs i).pid k) [
        | yes g ↦ (i, lt, g, ground arith)
        | no g ↦
            let (j, below, pid, ent) =
              es.owner k c (ground (arith, S.get-get_or_insert r.table (jobs i).pid r.next k)) in
            (j, below, pid, ground arith)
      ];
      kept = λ j e.
          ground (arith, es.kept j, S.get-get_or_insert r.table (jobs i).pid r.next (jobs j).pid);
    }

    pub Move-Entries :
        {p p' : Pc} {r' : AmalgafyRegistry S}
        → Move S r (jobs i) p r' p'
        → pc i ≡ p
        → Entries r' (update pc i p')
    Move-Entries (hit {c} g) e = quiet r.cells (holding c) (λ _. refl) (λ _ f. cc)
    Move-Entries (miss g) e = quiet r.cells missed (λ f. ground arith) (λ f. absurd (cc))
    Move-Entries offer e = offer-Entries e
    Move-Entries (load {c}) e =
        quiet r.cells (loaded c (r.cells c)) (λ _. refl) (λ _. es.kept i (ground arith))
    Move-Entries (win {c} {current} h) e =
        quiet _ (done (saturating_add current (jobs i).delta_uj)) (λ _. refl)
          (λ _. es.kept i (ground arith))
    Move-Entries (lose {c} {current}) e =
        quiet r.cells (loaded c (r.cells c)) (λ _. refl) (λ _. es.kept i (ground arith))

  Step-Entries :
      {s t : System S} → Step S n jobs s t → Entries s.registry s.pc → Entries t.registry t.pc
  Step-Entries (pick i lt mv) es = Move-Entries es i lt mv refl

  pub Reach-Entries : {s : System S} → Reach S n jobs s → Entries s.registry s.pc
  Reach-Entries start = Entries-init
  Reach-Entries (later r st) = Step-Entries st (Reach-Entries r)
