-- ===== src/Registry/Race/Linear.antt =====
-- The concurrent calls of `add_micro_joules` of src/core/registry.rs against the same calls run one
-- after the other.
use mathlib.Core.List.{append_assoc}
use micro_joule_attribution.Base.{
  ℕ, ◌<◌, ◌≡◌, ◌≢◌, ◌∙◌, refl, sym, ap, List, [], ◌∷◌, ◌++◌, true, false, none, some, arith, update,
  saturating_add, Option-cases, Bool-cases, inl, inr, occurs, All,
}
use micro_joule_attribution.Base.Results.{unwrap_or}
use micro_joule_attribution.Base.BTreeMap.{BTreeMap-ext}
use micro_joule_attribution.Registry.Table.{SkipMap}
use micro_joule_attribution.Registry.{AmalgafyRegistry, new, get, snapshot}
use micro_joule_attribution.Registry.Total.{snapshot-ascends, get-snapshot}
use micro_joule_attribution.Registry.Race.{
  Job, Pc, idle, missed, holding, loaded, done, Move, hit, miss, offer, load, win, lose, System,
  offered, stored, Step, pick, Reach, start, later, Leads, here, go,
}
use micro_joule_attribution.Registry.Race.Counting.{IsDone}
use micro_joule_attribution.Registry.Race.Invariant.{
  Inv, Reach-Inv, held, get-offered, get-tracked, get-stored,
}
use micro_joule_attribution.Registry.Race.Replay.{
  Once, replayed, Answered, get-replayed, answer_lem, Answered-update, occurs-IsDone, occurs-get,
  get-occurs,
}
use micro_joule_attribution.Registry.Race.Entries.{Entries, Reach-Entries, entered_done}

module _ (S : SkipMap) (n : ℕ) (jobs : ℕ → Job) where
  -- The calls of `order`, the newest first, run one after the other, explain where the concurrent
  -- calls stand.
  pub record Explains (r : AmalgafyRegistry S) (pc : ℕ → Pc) (order : List ℕ) : Type 0 where
    pub once : Once order
    pub below : All (λ i. i < n) order
    pub answered : Answered S jobs pc order
    pub complete : (i : ℕ) → IsDone (pc i) → occurs i order ≡ true
    pub same : (k : ℕ) → unwrap_or (get S r k) 0 ≡ unwrap_or (get S (replayed S jobs order) k) 0

  Explains-init : Explains (new S) (λ _. idle) []
  Explains-init = record {
    once = tt;
    below = tt;
    answered = tt;
    complete = λ i d. absurd d;
    same = λ k. refl;
  }

  module _ {r : AmalgafyRegistry S} {pc : ℕ → Pc} {order : List ℕ} (inv : Inv S n jobs r pc)
      (ex : Explains r pc order) (i : ℕ) (lt : i < n) where
    not_yet : ¬ IsDone (pc i) → occurs i order ≡ false
    not_yet h = elim (Bool-cases (occurs i order)) [
      | inl e ↦ absurd (h (occurs-IsDone S jobs pc i order ex.answered e))
      | inr e ↦ e
    ]

    -- A move that no call returns by, and that changes no total.
    quiet :
        (r' : AmalgafyRegistry S) (p : Pc)
        → ¬ IsDone (pc i)
        → ¬ IsDone p
        → ((k : ℕ) → unwrap_or (get S r' k) 0 ≡ unwrap_or (get S r k) 0)
        → Explains r' (update pc i p) order
    quiet r' p h g eq = record {
      once = ex.once;
      below = ex.below;
      answered = Answered-update S jobs pc i p order (not_yet h) ex.answered;
      complete = λ j d. ground (arith, ex.complete j);
      same = λ k. eq k ∙ ex.same k;
    }

    win-Explains :
        {c current : ℕ}
        → pc i ≡ loaded c current
        → r.cells c ≡ current
        → Explains
            (stored S r c (saturating_add current (jobs i).delta_uj))
            (update pc i (done (saturating_add current (jobs i).delta_uj)))
            (i ∷ order)
    win-Explains {c} {current} e h =
        let found : S.get r.table (jobs i).pid ≡ some c = inv.canonical i c (ap held e) in
        let fresh = not_yet (λ d. rw e at d) in
        let total : current ≡ unwrap_or (get S (replayed S jobs order) (jobs i).pid) 0 =
          sym (get-tracked S r inv.valid (jobs i).pid c found ∙ h) ∙ ex.same (jobs i).pid in
        record {
          once = (fresh, ex.once);
          below = (lt, ex.below);
          answered = (
            ground (arith, answer_lem S jobs i order),
            Answered-update S jobs pc i _ order fresh ex.answered,
          );
          complete = λ j d. ground (arith, ex.complete j);
          same = λ k. ground (
            arith,
            get-stored S r inv.valid (jobs i).pid c (saturating_add current (jobs i).delta_uj) k
                found,
            get-replayed S jobs i order k,
            ex.same k,
          );
        }

    -- What a move adds to the order: the call, if it returns.
    abbrev Moved : AmalgafyRegistry S → Pc → Type 0
    Moved r' p = (newer : List ℕ) × Explains r' (update pc i p) (newer ++ order)

    Move-Explains :
        {p p' : Pc} {r' : AmalgafyRegistry S} → Move S r (jobs i) p r' p' → pc i ≡ p → Moved r' p'
    Move-Explains (hit {c} g) e = ([], quiet r (holding c) (λ d. rw e at d) (λ d. d) (λ k. refl))
    Move-Explains (miss g) e = ([], quiet r missed (λ d. rw e at d) (λ d. d) (λ k. refl))
    Move-Explains offer e = (
      [],
      quiet (offered S r (jobs i).pid) _ (λ d. rw e at d) (λ d. d)
          (get-offered S r inv.valid (jobs i).pid),
    )
    Move-Explains (load {c}) e =
        ([], quiet r (loaded c (r.cells c)) (λ d. rw e at d) (λ d. d) (λ k. refl))
    Move-Explains (win h) e = (i ∷ [], win-Explains e h)
    Move-Explains (lose {c} {current}) e =
        ([], quiet r (loaded c (r.cells c)) (λ d. rw e at d) (λ d. d) (λ k. refl))

  -- An order that explains `s` and is `older` with later calls put in front.
  abbrev Extended : System S → List ℕ → Type 0
  Extended s older =
      (order : List ℕ) × Explains s.registry s.pc order
      × (newer : List ℕ) × (order ≡ newer ++ older)

  extend :
      {s t : System S} (older : List ℕ)
      → Inv S n jobs s.registry s.pc
      → Step S n jobs s t
      → Extended s older
      → Extended t older
  extend older inv (pick i lt mv) (order, ex, newer, e) =
      let (more, ex') = Move-Explains inv ex i lt mv refl in
      (
        more ++ order,
        ex',
        more ++ newer,
        ap (λ o. more ++ o) e ∙ sym (append_assoc more newer older),
      )

  Reach-Extended : {s : System S} → Reach S n jobs s → Extended s []
  Reach-Extended start = ([], Explains-init, [], refl)
  Reach-Extended (later r st) = extend [] (Reach-Inv S n jobs r) st (Reach-Extended r)

  pub Reach-Leads : {s t : System S} → Reach S n jobs s → Leads S n jobs s t → Reach S n jobs t
  Reach-Leads r here = r
  Reach-Leads r (go l st) = later (Reach-Leads r l) st

  Leads-Extended :
      {s t : System S} {older : List ℕ}
      → Reach S n jobs s
      → Explains s.registry s.pc older
      → Leads S n jobs s t
      → Extended t older
  Leads-Extended {older = older} r ex here = (older, ex, [], refl)
  Leads-Extended {older = older} r ex (go l st) =
      extend older (Reach-Inv S n jobs (Reach-Leads r l)) st (Leads-Extended r ex l)

  -- Where all calls have returned, the registry holds what the calls run one after the other leave.
  module _ {r : AmalgafyRegistry S} {pc : ℕ → Pc} {order : List ℕ} (es : Entries S n jobs r pc)
      (ex : Explains r pc order) (all : (i : ℕ) → i < n → IsDone (pc i)) where
    tracked_replayed : (k c : ℕ) → S.get r.table k ≡ some c → get S (replayed S jobs order) k ≢ none
    tracked_replayed k c e =
        let (i, below, pid, _) = es.owner k c e in
        rw (← pid) (occurs-get S jobs i order (ex.complete i (all i below)))

    replayed_tracked : (k v : ℕ) → get S (replayed S jobs order) k ≡ some v → S.get r.table k ≢ none
    replayed_tracked k v e =
        let (i, among, pid) = get-occurs S jobs order k v e in
        let here = entered_done (pc i) (occurs-IsDone S jobs pc i order ex.answered among) in
        rw (← pid) (es.kept i here)

    get-settled : (k : ℕ) → get S r k ≡ get S (replayed S jobs order) k
    unfolding get
    get-settled k = elim (Option-cases (S.get r.table k)) [
      | inl e ↦ elim (Option-cases (get S (replayed S jobs order) k)) [
        | inl f ↦ ground arith
        | inr (v, f) ↦ absurd (replayed_tracked k v f e)
      ]
      | inr (c, e) ↦ elim (Option-cases (get S (replayed S jobs order) k)) [
        | inl f ↦ absurd (tracked_replayed k c e f)
        | inr (v, f) ↦ ground (arith, ex.same k)
      ]
    ]

    snapshot-settled : snapshot S r ≡ snapshot S (replayed S jobs order)
    snapshot-settled =
        BTreeMap-ext 0 0 _ _ (snapshot-ascends S r) (snapshot-ascends S (replayed S jobs order))
          λ k. get-snapshot S r k ∙ get-settled k ∙ sym (get-snapshot S (replayed S jobs order) k)

  -- `n` concurrent calls of `add_micro_joules` on a new registry have reached a state, and from
  -- there, by any interleaving of their shared accesses, one in which all of them have returned;
  -- no `remove` runs. Then the calls have an order of which this holds, and the calls that had
  -- returned in the earlier state come first in it. Run one after the other in this order on a
  -- new registry, they return what the concurrent calls returned, and leave the same snapshot. In
  -- the earlier state too, the calls that have returned so far, each once and no others, returned
  -- what they return in the first part of the order, and each PID has the total that this part
  -- leaves, where a PID without an entry counts as zero.
  pub linearizable :
      {s t : System S}
      → Reach S n jobs s
      → Leads S n jobs s t
      → ((i : ℕ) → i < n → IsDone (t.pc i))
      → (older newer : List ℕ) × Explains s.registry s.pc older
        × Explains t.registry t.pc (newer ++ older)
        × (snapshot S t.registry ≡ snapshot S (replayed S jobs (newer ++ older)))
  linearizable {s} {t} r l all =
      let (older, ex, _, _) = Reach-Extended r in
      let (order, ex', newer, e) = Leads-Extended r ex l in
      let final : Explains t.registry t.pc (newer ++ older) = rw (← e) ex' in
      let entries = Reach-Entries S n jobs (Reach-Leads r l) in
      (older, newer, ex, final, snapshot-settled entries final all)
