-- ===== src/Registry/Race/Invariant.antt =====
-- The invariant of the concurrent calls of `add_micro_joules` of src/core/registry.rs.
use micro_joule_attribution.Base.{
  ℕ, ◌<◌, ◌≡◌, ◌∙◌, refl, ap, Option, none, some, arith, if◌then◌else◌, ◌==◌, update,
  saturating_add, clamp_u64, Option-cases, inl, inr,
}
use micro_joule_attribution.Base.Results.{unwrap_or}
use micro_joule_attribution.Registry.Table.{SkipMap}
use micro_joule_attribution.Registry.{AmalgafyRegistry, new, get}
use micro_joule_attribution.Registry.Laws.{IsValid, new-IsValid}
use micro_joule_attribution.Registry.Race.{
  Job, Pc, idle, missed, holding, loaded, done, Move, hit, miss, offer, load, win, lose, System,
  offered, stored, Step, pick, Reach, start, later,
}
use micro_joule_attribution.Registry.Race.Counting.{
  credit, credited, requested, credited-update, credited-init, credited_done, IsDone,
}

-- The cell that a call works on.
abbrev pub held : Pc → Option ℕ
held (holding c) = some c
held (loaded c _) = some c
held _ = none

module _ (S : SkipMap) (r : AmalgafyRegistry S) (v : IsValid S r) where
  pub offered-IsValid : (pid : ℕ) → IsValid S (offered S r pid)
  offered-IsValid pid =
      let entry = S.get_or_insert_entry r.table pid r.next in
      let look_up = S.get-get_or_insert r.table pid r.next in
      record {
        allocated = λ k c f. ground (
          arith,
          entry,
          look_up k,
          Option-cases (S.get r.table pid),
          v.allocated k c,
          v.allocated pid c,
        );
        distinct = λ j k c f g. ground (
          arith,
          entry,
          look_up k,
          look_up j,
          Option-cases (S.get r.table pid),
          v.allocated k c,
          v.allocated j c,
          v.distinct j k c,
          v.distinct j pid c,
          v.distinct pid k c,
        );
      }

  pub get-offered : (pid k : ℕ) → unwrap_or (get S (offered S r pid) k) 0 ≡ unwrap_or (get S r k) 0
  unfolding get
  get-offered pid k =
      let entry = S.get_or_insert_entry r.table pid r.next in
      let look_up = S.get-get_or_insert r.table pid r.next k in
      elim (Option-cases (S.get r.table k)) [
        | inl f ↦ ground (arith, entry, look_up, f)
        | inr (c, f) ↦ ground (arith, entry, look_up, f, v.allocated k c)
      ]

  pub get-tracked : (pid c : ℕ) → S.get r.table pid ≡ some c → unwrap_or (get S r pid) 0 ≡ r.cells c
  unfolding get
  get-tracked pid c e = ground arith

  pub get-stored :
      (pid c total k : ℕ)
      → S.get r.table pid ≡ some c
      → unwrap_or (get S (stored S r c total) k) 0
        ≡ (if pid == k then total else unwrap_or (get S r k) 0)
  unfolding get
  get-stored pid c total k e = elim (Option-cases (S.get r.table k)) [
    | inl f ↦ ground (arith, f)
    | inr (d, f) ↦ ground (arith, f, v.distinct k pid c)
  ]

module _ (S : SkipMap) (n : ℕ) (jobs : ℕ → Job) where
  pub record Inv (r : AmalgafyRegistry S) (pc : ℕ → Pc) : Type 0 where
    pub valid : IsValid S r
    pub canonical : (i c : ℕ) → held (pc i) ≡ some c → S.get r.table (jobs i).pid ≡ some c
    pub counted : (k : ℕ) → unwrap_or (get S r k) 0 ≡ clamp_u64 (credited jobs n pc k)

  Inv-init : Inv (new S) (λ _. idle)
  unfolding new get
  Inv-init = record {
    valid = new-IsValid S;
    canonical = λ i c e. cc;
    counted = λ k. ground (arith, S.get-empty k, credited-init jobs n k);
  }

  module _ {r : AmalgafyRegistry S} {pc : ℕ → Pc} (inv : Inv r pc) (i : ℕ) (lt : i < n) where
    -- A move that leaves the registry and the credit of its call alone.
    quiet :
        (p : Pc)
        → ((k : ℕ) → credit (jobs i) p k ≡ credit (jobs i) (pc i) k)
        → ((c : ℕ) → held p ≡ some c → S.get r.table (jobs i).pid ≡ some c)
        → Inv r (update pc i p)
    quiet p same found = record {
      valid = inv.valid;
      canonical = λ j c e. ground (arith, inv.canonical j c, found c);
      counted = λ k. omega (arith, inv.counted k, credited-update jobs n pc i p k lt, same k);
    }

    offer-Inv :
        pc i ≡ missed
        → Inv
            (offered S r (jobs i).pid)
            (update pc i (holding ((S.get_or_insert r.table (jobs i).pid r.next).1)))
    offer-Inv e = record {
      valid = offered-IsValid S r inv.valid (jobs i).pid;
      canonical = λ j c f. ground (
        arith,
        S.get_or_insert_entry r.table (jobs i).pid r.next,
        S.get-get_or_insert r.table (jobs i).pid r.next (jobs j).pid,
        inv.canonical j c,
      );
      counted = λ k. omega (
        arith,
        get-offered S r inv.valid (jobs i).pid k,
        inv.counted k,
        credited-update jobs n pc i (holding ((S.get_or_insert r.table (jobs i).pid r.next).1)) k
            lt,
        ap (λ p. credit (jobs i) p k) e,
      );
    }

    win-Inv :
        {c current : ℕ}
        → pc i ≡ loaded c current
        → r.cells c ≡ current
        → Inv
            (stored S r c (saturating_add current (jobs i).delta_uj))
            (update pc i (done (saturating_add current (jobs i).delta_uj)))
    win-Inv {c} {current} e h =
        let found : S.get r.table (jobs i).pid ≡ some c = inv.canonical i c (ap held e) in
        record {
          valid = record { allocated = inv.valid.allocated; distinct = inv.valid.distinct };
          canonical = λ j d f. ground (arith, inv.canonical j d);
          counted = λ k. ground (
            arith,
            get-stored S r inv.valid (jobs i).pid c (saturating_add current (jobs i).delta_uj) k
                found,
            get-tracked S r inv.valid (jobs i).pid c found,
            inv.counted k,
            credited-update jobs n pc i (done (saturating_add current (jobs i).delta_uj)) k lt,
            ap (λ p. credit (jobs i) p k) e,
          );
        }

    Move-Inv :
        {p p' : Pc} {r' : AmalgafyRegistry S}
        → Move S r (jobs i) p r' p'
        → pc i ≡ p
        → Inv r' (update pc i p')
    Move-Inv (hit {c} g) e = quiet (holding c) (λ k. ground arith) (λ d f. cc)
    Move-Inv (miss g) e = quiet missed (λ k. ground arith) (λ d f. cc)
    Move-Inv offer e = offer-Inv e
    Move-Inv (load {c}) e =
        quiet (loaded c (r.cells c)) (λ k. ground arith) (λ d f. inv.canonical i d (ground arith))
    Move-Inv (win h) e = win-Inv e h
    Move-Inv (lose {c} {current}) e =
        quiet (loaded c (r.cells c)) (λ k. ground arith) (λ d f. inv.canonical i d (ground arith))

  Step-Inv : {s t : System S} → Step S n jobs s t → Inv s.registry s.pc → Inv t.registry t.pc
  Step-Inv (pick i lt mv) inv = Move-Inv inv i lt mv refl

  pub Reach-Inv : {s : System S} → Reach S n jobs s → Inv s.registry s.pc
  Reach-Inv start = Inv-init
  Reach-Inv (later r st) = Step-Inv st (Reach-Inv r)

  -- In every reachable state each PID holds what the calls that have returned asked for it.
  pub credited-get :
      {s : System S}
      → Reach S n jobs s
      → (k : ℕ) → unwrap_or (get S s.registry k) 0 ≡ clamp_u64 (credited jobs n s.pc k)
  credited-get r k = (Reach-Inv r).counted k

  -- In a state that `n` concurrent calls of `add_micro_joules` on a new registry reach by any
  -- interleaving of their shared accesses, and in which all of them have returned, each PID holds
  -- the sum of all that they asked for it, clamped at the largest u64; no `remove` runs
  -- meanwhile.
  pub no_delta_lost :
      {s : System S}
      → Reach S n jobs s
      → ((i : ℕ) → i < n → IsDone (s.pc i))
      → (k : ℕ) → unwrap_or (get S s.registry k) 0 ≡ clamp_u64 (requested jobs n k)
  no_delta_lost {s} r all k = credited-get r k ∙ ap clamp_u64 (credited_done jobs n s.pc k all)
