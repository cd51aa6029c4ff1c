-- ===== src/Registry/Race/Removal/Readers.antt =====
-- Who still reads the cell that a call of `add_micro_joules` (src/core/registry.rs) works on, and what
-- a step leaves for a PID.
use micro_joule_attribution.Base.{
  ℕ, ◌+◌, ◌-◌, ◌≤◌, ◌≡◌, ◌≢◌, ◌∙◌, sym, ap, List, [], ◌∷◌, All, All-mono, Bool, true, false, Option,
  none, some, arith, if◌then◌else◌, ◌==◌, ◌||◌, ==_iff, update, Option-cases, Bool-cases, inl, inr,
  subst,
}
use micro_joule_attribution.Base.Results.{unwrap_or}
use micro_joule_attribution.Registry.Table.{SkipMap}
use micro_joule_attribution.Registry.{AmalgafyRegistry, get, remove}
use micro_joule_attribution.Registry.Race.{Job, offered, stored}
use micro_joule_attribution.Registry.Race.Invariant.{held, get-offered, get-tracked, get-stored}
use micro_joule_attribution.Registry.Race.Removal.{Unlinked, Takes, Churning, unlinked}
use micro_joule_attribution.Registry.Race.Removal.Pending.{owed, AreApart, owed-absent, owed-Takes}
use micro_joule_attribution.Registry.Race.Removal.Ties.{Left, Owned, Tied}

-- Whether a removal under way is going to load the cell.
abbrev pub awaited : ℕ → List Unlinked → Bool
awaited c [] = false
awaited c ((pid, d) ∷ l) = c == d || awaited c l

awaited-absent :
    (c : ℕ) (l : List Unlinked) → awaited c l ≡ false → All (λ (e : Unlinked). c ≢ e.1) l
awaited-absent c [] h = tt
awaited-absent c ((pid, d) ∷ l) h = (ground (arith), awaited-absent c l (ground arith))

-- A cell that a removal is going to load grows by `total - cells c` for the PID `p`.
owed-stored :
    (cells : ℕ → ℕ) (c total p : ℕ) (l : List Unlinked) (k : ℕ)
    → cells c ≤ total
    → awaited c l ≡ true
    → AreApart l
    → All (λ (e : Unlinked). c ≡ e.1 → p ≡ e.0) l
    → owed (update cells c total) l k ≡ owed cells l k + (if p == k then total - cells c else 0)
owed-stored cells c total p [] k h w a own = absurd (cc)
owed-stored cells c total p ((pid, e) ∷ l) k h w a own = elim (Bool-cases (c == e)) [
  | inl same ↦
      let e_same : c ≡ e = (==_iff c e).0 same in
      let away = subst (λ x. All (λ (d : Unlinked). x ≢ d.1) l) (sym e_same) a.0 in
      ground (arith, h, e_same, own.0 e_same, owed-absent cells c total l k away)
  | inr other ↦ ground (arith, other, owed-stored cells c total p l k h (ground arith) a.1 own.1)
]

-- Whether an entry is for the cell.
abbrev pub points : Option ℕ → ℕ → Bool
points none c = false
points (some d) c = d == c

points-some : (o : Option ℕ) (c : ℕ) → points o c ≡ true → o ≡ some c
points-some none c h = absurd (cc)
points-some (some d) c h = ap some ((==_iff d c).0 h)

module _ (S : SkipMap) (n : ℕ) (jobs : ℕ → Job) where
  -- Whether the table or a removal under way still reads the cell that a call for `pid` works on.
  abbrev pub is_read : AmalgafyRegistry S → List Unlinked → ℕ → ℕ → Bool
  is_read r pending pid c = points (S.get r.table pid) c || awaited c pending

  -- What the removals have returned or are going to return for a PID, and what it holds.
  abbrev pub kept : Churning S → ℕ → ℕ
  kept s k = s.returned k + (owed s.registry.cells s.pending k + unwrap_or (get S s.registry k) 0)

  module _ (s : Churning S) (t : Tied S n jobs s.registry s.pc s.pending) (k : ℕ) where
    pub unlinks-kept :
        (pid : ℕ) {c : ℕ}
        → (S.remove s.registry.table pid).1 ≡ some c
        → kept (record s { registry = unlinked S s.registry pid; pending = (pid, c) ∷ s.pending }) k
          ≡ kept s k
    unfolding get remove
    unlinks-kept pid {c} h =
        let found : S.get s.registry.table pid ≡ some c =
          cc (S.remove_entry s.registry.table pid, h) in
        ground (arith, S.get-remove s.registry.table pid k, found)

    pub returns-kept :
        {pid c : ℕ} {rest : List Unlinked}
        → Takes (pid, c) s.pending rest
        → kept
            (record s {
              pending = rest;
              returned = update s.returned pid (s.returned pid + s.registry.cells c);
            })
            k
          ≡ kept s k
    returns-kept taken = ground (arith, owed-Takes s.registry.cells k taken)

    module _ (i : ℕ) where
      pub offer-kept : kept (record s { registry = offered S s.registry (jobs i).pid }) k ≡ kept s k
      offer-kept =
          let away =
            All-mono (Left S n jobs s.registry) (λ (d : Unlinked). s.registry.next ≢ d.1) s.pending
              (λ d left. omega (arith, left.0)) t.gone in
          omega (
            arith,
            get-offered S s.registry t.valid (jobs i).pid k,
            owed-absent s.registry.cells s.registry.next 0 s.pending k away,
          )

      -- No other PID has the cell of a call in the table.
      get-unread :
          (c total : ℕ)
          → held (s.pc i) ≡ some c
          → points (S.get s.registry.table (jobs i).pid) c ≡ false
          → unwrap_or (get S (stored S s.registry c total) k) 0 ≡ unwrap_or (get S s.registry k) 0
      unfolding get
      get-unread c total h away = elim (Option-cases (S.get s.registry.table k)) [
        | inl nothing ↦ ground (arith, nothing)
        | inr (d, found) ↦ ground (arith, found, t.tied i c k h, away)
      ]

      get-read :
          (c total : ℕ)
          → S.get s.registry.table (jobs i).pid ≡ some c
          → s.registry.cells c ≤ total
          → unwrap_or (get S (stored S s.registry c total) k) 0
            ≡ unwrap_or (get S s.registry k) 0
              + (if (jobs i).pid == k then total - s.registry.cells c else 0)
      get-read c total found grown = ground (
        arith,
        grown,
        get-stored S s.registry t.valid (jobs i).pid c total k found,
        get-tracked S s.registry t.valid (jobs i).pid c found,
      )

      -- The cell of a call after an addition to it, by who reads it.
      pub stored-kept :
          (c total : ℕ)
          → held (s.pc i) ≡ some c
          → s.registry.cells c ≤ total
          → kept (record s { registry = stored S s.registry c total }) k
            ≡ kept s k
              + (if is_read s.registry s.pending (jobs i).pid c
                  then (if (jobs i).pid == k then total - s.registry.cells c else 0)
                  else 0)
      stored-kept c total h grown =
          elim (Bool-cases (points (S.get s.registry.table (jobs i).pid) c)) [
            | inl here ↦
                let found = points-some (S.get s.registry.table (jobs i).pid) c here in
                let apart =
                  All-mono (Left S n jobs s.registry) (λ (e : Unlinked). c ≢ e.1) s.pending
                    (λ e left same. left.1 (jobs i).pid (found ∙ ap some same)) t.gone in
                rw here (
                  omega (
                    arith,
                    get-read c total found grown,
                    owed-absent s.registry.cells c total s.pending k apart,
                  ))
            | inr away ↦ elim (Bool-cases (awaited c s.pending)) [
              | inl waits ↦
                  let owner =
                    All-mono (Owned S n jobs s.pc) (λ (e : Unlinked). c ≡ e.1 → (jobs i).pid ≡ e.0)
                      s.pending (λ e own same. own i (h ∙ ap some same)) t.owned in
                  rw (away, waits)
                    (omega (
                      arith,
                      get-unread c total h away,
                      owed-stored s.registry.cells c total (jobs i).pid s.pending k grown waits
                          t.apart owner,
                    ))
              | inr nothing ↦
                  rw (away, nothing)
                    (omega (
                      arith,
                      get-unread c total h away,
                      owed-absent s.registry.cells c total s.pending k
                          (awaited-absent c s.pending nothing),
                    ))
            ]
          ]
