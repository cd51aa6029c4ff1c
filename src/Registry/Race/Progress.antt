-- ===== src/Registry/Race/Progress.antt =====
-- Progress of the concurrent calls of `add_micro_joules` of src/core/registry.rs.
use micro_joule_attribution.Base.{
  ℕ, zero, suc, ◌≤◌, ◌<◌, ◌≡◌, ◌≢◌, refl, sym, subst, ◌∙◌, arith, update, Option-cases, inl, inr,
  ℕ_discrete,
}
use native.Mathlib.Nat.{le_refl}
use micro_joule_attribution.Registry.Table.{SkipMap}
use micro_joule_attribution.Registry.{AmalgafyRegistry}
use micro_joule_attribution.Registry.Race.{
  Job, Pc, idle, missed, holding, loaded, done, Move, hit, miss, offer, load, win, lose, System,
  pick, Leads, go,
}
use micro_joule_attribution.Registry.Race.Counting.{IsDone}

module _ (S : SkipMap) (n : ℕ) (jobs : ℕ → Job) (origin : System S) where
  -- A state further on, in which the other calls stand where they stood.
  record After (s : System S) (i : ℕ) (p : Pc) : Type 0 where
    last : System S
    reach : Leads S n jobs origin last
    here : last.pc i ≡ p
    others : (j : ℕ) → j ≢ i → last.pc j ≡ s.pc j

  advance :
      {s : System S} {p p' : Pc} {r' : AmalgafyRegistry S}
      → Leads S n jobs origin s
      → (i : ℕ) → i < n
      → Move S s.registry (jobs i) p r' p'
      → s.pc i ≡ p
      → After s i p'
  advance {s} {p} {p'} {r'} r i lt mv e = record {
    last = record { registry = r'; pc = update s.pc i p' };
    reach = go r (pick i lt (subst (λ q. Move S s.registry (jobs i) q r' p') (sym e) mv));
    here = ground arith;
    others = λ j h. ground arith;
  }

  chain : {s : System S} {i : ℕ} {p q : Pc} → (t : After s i p) → After t.last i q → After s i q
  chain t u = record {
    last = u.last;
    reach = u.reach;
    here = u.here;
    others = λ j h. u.others j h ∙ t.others j h;
  }

  -- Alone, a call passes its exchange: a failed round shows it what the cell holds.
  abbrev Finished : System S → ℕ → Type 0
  Finished s i = (total : ℕ) × After s i (done total)

  lift : {s : System S} {i : ℕ} {p : Pc} → (t : After s i p) → Finished t.last i → Finished s i
  lift t (total, u) = (total, chain t u)

  finish_refreshed :
      {s : System S} {c : ℕ}
      → Leads S n jobs origin s
      → (i : ℕ) → i < n
      → s.pc i ≡ loaded c (s.registry.cells c)
      → Finished s i
  finish_refreshed r i lt e = (_, advance r i lt (win refl) e)

  finish_loaded :
      {s : System S} {c current : ℕ}
      → Leads S n jobs origin s
      → (i : ℕ) → i < n
      → s.pc i ≡ loaded c current
      → Finished s i
  unfolding advance
  finish_loaded {s} {c} {current} r i lt e =
      let t : After s i (loaded c (s.registry.cells c)) = advance r i lt lose e in
      lift t (finish_refreshed t.reach i lt t.here)

  finish_holding :
      {s : System S} {c : ℕ}
      → Leads S n jobs origin s
      → (i : ℕ) → i < n
      → s.pc i ≡ holding c
      → Finished s i
  finish_holding {s} {c} r i lt e =
      let t : After s i (loaded c (s.registry.cells c)) = advance r i lt load e in
      lift t (finish_loaded t.reach i lt t.here)

  finish_missed :
      {s : System S} → Leads S n jobs origin s → (i : ℕ) → i < n → s.pc i ≡ missed → Finished s i
  finish_missed {s} r i lt e =
      let t = advance r i lt offer e in lift t (finish_holding t.reach i lt t.here)

  finish_idle :
      {s : System S} → Leads S n jobs origin s → (i : ℕ) → i < n → s.pc i ≡ idle → Finished s i
  finish_idle {s} r i lt e = elim (Option-cases (S.get s.registry.table (jobs i).pid)) [
    | inl f ↦ let t = advance r i lt (miss f) e in lift t (finish_missed t.reach i lt t.here)
    | inr (c, f) ↦ let t = advance r i lt (hit f) e in lift t (finish_holding t.reach i lt t.here)
  ]

  finish :
      {s : System S}
      → Leads S n jobs origin s
      → (i : ℕ) → i < n
      → (p : Pc) → s.pc i ≡ p
      → Finished s i
  finish r i lt idle e = finish_idle r i lt e
  finish r i lt missed e = finish_missed r i lt e
  finish r i lt (holding c) e = finish_holding r i lt e
  finish r i lt (loaded c current) e = finish_loaded r i lt e
  finish {s} r i lt (done total) e =
      (total, record { last = s; reach = r; here = e; others = λ j h. refl })

  IsDone-eq : (p : Pc) {total : ℕ} → p ≡ done total → IsDone p
  IsDone-eq p e = rw e tt

  finish_below :
      {s : System S}
      → Leads S n jobs origin s
      → (k : ℕ) → k ≤ n
      → (t : System S) × Leads S n jobs origin t × ((i : ℕ) → i < k → IsDone (t.pc i))
  finish_below {s} r zero h = (s, r, λ i lt. absurd (omega arith))
  finish_below r (suc k) h =
      let (t, reach, below) = finish_below r k (omega arith) in
      let (total, u) = finish reach k h (t.pc k) refl in
      (
        u.last,
        u.reach,
        λ i lt. elim (ℕ_discrete i k) [
          | yes e ↦ rw e (IsDone-eq (u.last.pc k) u.here)
          | no e ↦ rw (u.others i e) (below i (omega arith))
        ],
      )

  -- From every state of `n` concurrent calls a row of moves leads to a state in which all of them
  -- have returned.
  pub all_can_return :
      (t : System S) × Leads S n jobs origin t × ((i : ℕ) → i < n → IsDone (t.pc i))
  all_can_return = finish_below Leads.here n (le_refl n)
