-- ===== src/Registry/Race/Removal/Preservation.antt =====
-- The calls of `add_micro_joules` and the removals of src/core/registry.rs keep their invariant.
use micro_joule_attribution.Registry.Race.Removal.Ties.{
  Left, Owned, Tied, Tied-init, unlinks-Tied, returns-Tied,
}
use micro_joule_attribution.Base.{
  ℕ, ◌≡◌, ◌∙◌, refl, List, All, All-mono, All-zip, ◌⊎◌, some, arith, update, saturating_add,
  Option-cases, inl, inr,
}
use micro_joule_attribution.Registry.Table.{SkipMap}
use micro_joule_attribution.Registry.{AmalgafyRegistry}
use micro_joule_attribution.Registry.Race.{
  Job, Pc, missed, holding, loaded, done, Move, hit, miss, offer, load, win, lose, offered, stored,
}
use micro_joule_attribution.Registry.Race.Invariant.{held, offered-IsValid}
use micro_joule_attribution.Registry.Race.Removal.{
  Unlinked, Churning, Churn, moves, unlinks, returns, Churned, at_first, and_then,
}

module _ (S : SkipMap) (n : ℕ) (jobs : ℕ → Job) where
  module _ {r : AmalgafyRegistry S} {pc : ℕ → Pc} {pending : List Unlinked}
      (t : Tied S n jobs r pc pending) (i : ℕ) where
    -- A call that takes a cell from the table, or holds the one that it held, owns what it owned.
    Owned-update :
        (p : Pc) (r' : AmalgafyRegistry S)
        → All (Left S n jobs r') pending
        → ((c : ℕ)
            → held p ≡ some c
            → (held (pc i) ≡ some c) ⊎ (S.get r'.table (jobs i).pid ≡ some c))
        → All (Owned S n jobs (update pc i p)) pending
    Owned-update p r' gone source =
        All-zip (Left S n jobs r') (Owned S n jobs pc) (Owned S n jobs (update pc i p)) pending
          (λ e left own j h. ground (arith, h, own j, own i, source e.1, left.1 (jobs i).pid)) gone
          t.owned

    quiet :
        (p : Pc)
        → ((c : ℕ)
            → held p ≡ some c
            → (held (pc i) ≡ some c) ⊎ (S.get r.table (jobs i).pid ≡ some c))
        → Tied S n jobs r (update pc i p) pending
    quiet p source = record {
      valid = t.valid;
      made = λ j c e.
          ground (arith, t.made j c, t.made i c, source c, t.valid.allocated (jobs i).pid c);
      tied = λ j c k e f.
          ground
            (arith, f, t.tied j c k, t.tied i c k, source c, t.valid.distinct k (jobs i).pid c);
      apart = t.apart;
      gone = t.gone;
      owned = Owned-update p r t.gone source;
    }

    -- A cell that is offered is a new one, or one that is in the table.
    Left-offered : All (Left S n jobs (offered S r (jobs i).pid)) pending
    Left-offered =
        let pid = (jobs i).pid in
        All-mono (Left S n jobs r) (Left S n jobs (offered S r pid)) pending
          (λ e left. (
            omega (arith, left.0),
            λ k f. ground (
              arith,
              f,
              left.0,
              left.1 k,
              left.1 pid,
              S.get_or_insert_entry r.table pid r.next,
              S.get-get_or_insert r.table pid r.next k,
              Option-cases (S.get r.table pid),
            ),
          ))
          t.gone

    offer-Tied :
        pc i ≡ missed
        → Tied S n jobs
            (offered S r (jobs i).pid)
            (update pc i (holding ((S.get_or_insert r.table (jobs i).pid r.next).1)))
            pending
    offer-Tied e =
        let pid = (jobs i).pid in
        let cell = (S.get_or_insert r.table pid r.next).1 in
        let entry = S.get_or_insert_entry r.table pid r.next in
        let look_up = S.get-get_or_insert r.table pid r.next in
        record {
          valid = offered-IsValid S r t.valid pid;
          made = λ j c h.
              ground (
                arith,
                t.made j c,
                entry,
                Option-cases (S.get r.table pid),
                t.valid.allocated pid c,
              );
          tied = λ j c k h f. ground (
            arith,
            h,
            f,
            entry,
            look_up k,
            Option-cases (S.get r.table pid),
            t.made j c,
            t.tied j c k,
            t.tied j c pid,
            t.valid.allocated k c,
            t.valid.distinct k pid c,
          );
          apart = t.apart;
          gone = Left-offered;
          owned =
              Owned-update (holding cell) (offered S r pid) Left-offered
                (λ c h. inr (look_up pid ∙ ground (arith, h)));
        }

    win-Tied :
        {c current : ℕ}
        → pc i ≡ loaded c current
        → r.cells c ≡ current
        → Tied S n jobs
            (stored S r c (saturating_add current (jobs i).delta_uj))
            (update pc i (done (saturating_add current (jobs i).delta_uj)))
            pending
    win-Tied {c} {current} e h =
        let total = saturating_add current (jobs i).delta_uj in
        record {
          valid = record { allocated = t.valid.allocated; distinct = t.valid.distinct };
          made = λ j d f. ground (arith, t.made j d);
          tied = λ j d k f g. ground (arith, t.tied j d k, g);
          apart = t.apart;
          gone = t.gone;
          owned = Owned-update (done total) (stored S r c total) t.gone (λ d f. absurd (cc));
        }

    Move-Tied :
        {p p' : Pc} {r' : AmalgafyRegistry S}
        → Move S r (jobs i) p r' p'
        → pc i ≡ p
        → Tied S n jobs r' (update pc i p') pending
    Move-Tied (hit {c} g) e = quiet (holding c) (λ d f. inr (cc))
    Move-Tied (miss g) e = quiet missed (λ d f. absurd (cc))
    Move-Tied offer e = offer-Tied e
    Move-Tied (load {c}) e = quiet (loaded c (r.cells c)) (λ d f. inl (ground arith))
    Move-Tied (win h) e = win-Tied e h
    Move-Tied (lose {c} {current}) e = quiet (loaded c (r.cells c)) (λ d f. inl (ground arith))

  Churn-Tied :
      {s u : Churning S}
      → Churn S n jobs s u
      → Tied S n jobs s.registry s.pc s.pending
      → Tied S n jobs u.registry u.pc u.pending
  Churn-Tied (moves i lt mv) t = Move-Tied t i mv refl
  Churn-Tied (unlinks pid h) t = unlinks-Tied S n jobs pid h t
  Churn-Tied (returns taken) t = returns-Tied S n jobs taken t

  pub Churned-Tied : {s : Churning S} → Churned S n jobs s → Tied S n jobs s.registry s.pc s.pending
  Churned-Tied at_first = Tied-init S n jobs
  Churned-Tied (and_then c st) = Churn-Tied st (Churned-Tied c)
