-- ===== src/Registry/Race/Replay.antt =====
-- Calls of `add_micro_joules` (src/core/registry.rs) that run one after the other on a new registry.
use micro_joule_attribution.Base.{
  ℕ, ◌≡◌, ◌≢◌, List, [], ◌∷◌, true, false, none, some, arith, if◌then◌else◌, ◌==◌, update,
  ℕ_discrete, occurs,
}
use micro_joule_attribution.Registry.Table.{SkipMap}
use micro_joule_attribution.Registry.{AmalgafyRegistry, new, add_micro_joules, get}
use micro_joule_attribution.Registry.Laws.{IsValid, new-IsValid, add-IsValid, grown, get-add}
use micro_joule_attribution.Registry.Total.{get-new}
use micro_joule_attribution.Registry.Race.{Job, Pc, done}
use micro_joule_attribution.Registry.Race.Counting.{IsDone}

abbrev pub Once : List ℕ → Type 0
Once [] = Unit
Once (i ∷ order) = (occurs i order ≡ false) × Once order

module _ (S : SkipMap) (jobs : ℕ → Job) where
  -- The registry after the calls of `order`, the newest of them first.
  abbrev pub replayed : List ℕ → AmalgafyRegistry S
  replayed [] = new S
  replayed (i ∷ order) = (add_micro_joules S (replayed order) (jobs i).pid (jobs i).delta_uj).0

  -- What the call `i` returns when it runs after those of `order`.
  abbrev pub answer : ℕ → List ℕ → ℕ
  answer i order = (add_micro_joules S (replayed order) (jobs i).pid (jobs i).delta_uj).1

  -- Every call of `order` has returned what it returns in this order.
  abbrev pub Answered : (ℕ → Pc) → List ℕ → Type 0
  Answered pc [] = Unit
  Answered pc (i ∷ order) = (pc i ≡ done (answer i order)) × Answered pc order

  pub replayed-IsValid : (order : List ℕ) → IsValid S (replayed order)
  replayed-IsValid [] = new-IsValid S
  replayed-IsValid (i ∷ order) = add-IsValid S _ _ _ (replayed-IsValid order)

  pub get-replayed :
      (i : ℕ) (order : List ℕ) (k : ℕ)
      → get S (replayed (i ∷ order)) k ≡ (
          if (jobs i).pid == k
          then some (grown S (get S (replayed order) (jobs i).pid) (jobs i).delta_uj)
          else get S (replayed order) k)
  get-replayed i order k = (get-add S _ _ _ k (replayed-IsValid order)).0

  pub answer_lem :
      (i : ℕ) (order : List ℕ)
      → answer i order ≡ grown S (get S (replayed order) (jobs i).pid) (jobs i).delta_uj
  answer_lem i order = (get-add S _ _ _ 0 (replayed-IsValid order)).1

  pub Answered-update :
      (pc : ℕ → Pc) (i : ℕ) (p : Pc) (order : List ℕ)
      → occurs i order ≡ false
      → Answered pc order
      → Answered (update pc i p) order
  Answered-update pc i p [] h a = tt
  Answered-update pc i p (j ∷ order) h a =
      (ground (arith), Answered-update pc i p order (ground arith) a.1)

  IsDone_done : (p : Pc) (total : ℕ) → p ≡ done total → IsDone p
  IsDone_done p total e = rw e tt

  pub occurs-IsDone :
      (pc : ℕ → Pc) (i : ℕ) (order : List ℕ)
      → Answered pc order
      → occurs i order ≡ true
      → IsDone (pc i)
  occurs-IsDone pc i [] a h = absurd (cc)
  occurs-IsDone pc i (j ∷ order) a h =
      let rest = occurs-IsDone pc i order a.1 in
      let here = IsDone_done (pc j) (answer j order) a.0 in ground (arith)

  -- A call that has run has left its PID in the registry.
  pub occurs-get :
      (i : ℕ) (order : List ℕ) → occurs i order ≡ true → get S (replayed order) (jobs i).pid ≢ none
  occurs-get i [] h e = absurd (cc)
  occurs-get i (j ∷ order) h e =
      ground (arith, get-replayed j order (jobs i).pid, occurs-get i order)

  -- A PID in the registry is there on behalf of a call that has run.
  pub get-occurs :
      (order : List ℕ) (k v : ℕ)
      → get S (replayed order) k ≡ some v
      → (i : ℕ) × (occurs i order ≡ true) × ((jobs i).pid ≡ k)
  get-occurs [] k v e = absurd (ground (arith, get-new S k))
  get-occurs (j ∷ order) k v e = elim (ℕ_discrete (jobs j).pid k) [
    | yes h ↦ (j, ground arith, h)
    | no h ↦
        let (i, among, pid) = get-occurs order k v (ground (arith, get-replayed j order k)) in
        (i, ground arith, pid)
  ]
