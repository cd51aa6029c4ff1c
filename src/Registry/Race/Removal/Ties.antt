-- ===== src/Registry/Race/Removal/Ties.antt =====
-- The invariant of calls and removals of src/core/registry.rs: which cells are in the table, which ones
-- removals have taken out, and for which PIDs. A removal keeps it.
use micro_joule_attribution.Base.{
  ℕ, ◌<◌, ◌≡◌, ◌≢◌, ◌∙◌, ap, List, [], ◌∷◌, All, All-mono, some, arith,
}
use micro_joule_attribution.Registry.Table.{SkipMap}
use micro_joule_attribution.Registry.{AmalgafyRegistry, new, get, remove}
use micro_joule_attribution.Registry.Laws.{IsValid, new-IsValid, remove-IsValid}
use micro_joule_attribution.Registry.Race.{Job, Pc, idle}
use micro_joule_attribution.Registry.Race.Invariant.{held}
use micro_joule_attribution.Registry.Race.Removal.{Unlinked, Takes, unlinked}
use micro_joule_attribution.Registry.Race.Removal.Pending.{AreApart, All-Takes, AreApart-Takes}

module _ (S : SkipMap) (n : ℕ) (jobs : ℕ → Job) where
  -- A cell that waits for its removal has left the table for good.
  abbrev pub Left : AmalgafyRegistry S → Unlinked → Type 0
  Left r e = (e.1 < r.next) × ((k : ℕ) → S.get r.table k ≢ some e.1)

  -- A call that holds such a cell is one for its PID.
  abbrev pub Owned : (ℕ → Pc) → Unlinked → Type 0
  Owned pc e = (i : ℕ) → held (pc i) ≡ some e.1 → (jobs i).pid ≡ e.0

  pub record Tied (r : AmalgafyRegistry S) (pc : ℕ → Pc) (pending : List Unlinked) : Type 0 where
    pub valid : IsValid S r
    pub made : (i c : ℕ) → held (pc i) ≡ some c → c < r.next
    pub tied : (i c k : ℕ) → held (pc i) ≡ some c → S.get r.table k ≡ some c → k ≡ (jobs i).pid
    pub apart : AreApart pending
    pub gone : All (Left r) pending
    pub owned : All (Owned pc) pending

  pub Tied-init : Tied (new S) (λ _. idle) []
  unfolding new get
  Tied-init = record {
    valid = new-IsValid S;
    made = λ i c e. absurd (cc);
    tied = λ i c k e. absurd (cc);
    apart = tt;
    gone = tt;
    owned = tt;
  }

  pub unlinks-Tied :
      {r : AmalgafyRegistry S} {pc : ℕ → Pc} {pending : List Unlinked} (pid : ℕ) {c : ℕ}
      → (S.remove r.table pid).1 ≡ some c
      → Tied r pc pending
      → Tied (unlinked S r pid) pc ((pid, c) ∷ pending)
  unfolding get remove
  unlinks-Tied {r} {pc} {pending} pid {c} h t =
      let found : S.get r.table pid ≡ some c = cc (S.remove_entry r.table pid, h) in
      record {
        valid = remove-IsValid S r pid t.valid;
        made = t.made;
        tied = λ i d k e f. ground (arith, t.tied i d k e, f, S.get-remove r.table pid k);
        apart = (
          All-mono (Left r) (λ (e : Unlinked). c ≢ e.1) pending
              (λ e left same. left.1 pid (found ∙ ap some same)) t.gone,
          t.apart,
        );
        gone = (
          (
            t.valid.allocated pid c found,
            λ k f. ground (arith, f, S.get-remove r.table pid k, t.valid.distinct k pid c),
          ),
          All-mono (Left r) (Left (unlinked S r pid)) pending
              (λ e left. (left.0, λ k f. ground (arith, f, S.get-remove r.table pid k, left.1 k)))
              t.gone,
        );
        owned = ((λ i e. ground (arith, t.tied i c pid e found)), t.owned);
      }

  pub returns-Tied :
      {r : AmalgafyRegistry S} {pc : ℕ → Pc} {pending rest : List Unlinked} {pid c : ℕ}
      → Takes (pid, c) pending rest
      → Tied r pc pending
      → Tied r pc rest
  returns-Tied {r} {pc} {pending} {rest} {pid} {c} taken t = record {
    valid = t.valid;
    made = t.made;
    tied = t.tied;
    apart = AreApart-Takes taken t.apart;
    gone = All-Takes (Left r) taken t.gone;
    owned = All-Takes (Owned pc) taken t.owned;
  }
