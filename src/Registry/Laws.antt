-- ===== src/Registry/Laws.antt =====
-- The operations of src/core/registry.rs against look-ups by PID, and when a registry is well formed.
use micro_joule_attribution.Base.{
  suc, ◌∙◌, ap, ℕ, ◌≡◌, refl, ◌<◌, Option, none, some, arith, if◌then◌else◌, ◌==◌, saturating_add,
  Option-cases, inl, inr, map, [], ◌∷◌,
}
use micro_joule_attribution.Base.Results.{unwrap_or, map_option}
use micro_joule_attribution.Base.BTreeMap
use micro_joule_attribution.Base.BTreeMap.{
  BTreeMap, AscendsFrom, IsAscending, insert, BTreeMap-ext, get-insert, insert-AscendsFrom,
}
use micro_joule_attribution.Registry.Table.{SkipMap}
use micro_joule_attribution.Registry.{
  AmalgafyRegistry, new, add_micro_joules, add_cold, add_hot, get, remove, snapshot,
  saturating_add_cell,
}

module _ (S : SkipMap) where
  -- Every entry has a cell that was allocated, and no two PIDs share one.
  pub record IsValid (r : AmalgafyRegistry S) : Type 0 where
    pub allocated : (k c : ℕ) → S.get r.table k ≡ some c → c < r.next
    pub distinct : (j k c : ℕ) → S.get r.table j ≡ some c → S.get r.table k ≡ some c → j ≡ k

  pub new-IsValid : IsValid (new S)
  unfolding new
  new-IsValid = record {
    allocated = λ k c e. ground (arith, S.get-empty k);
    distinct = λ j k c e f. ground (arith, S.get-empty j);
  }

  pub add_cold-IsValid :
      (r : AmalgafyRegistry S) (pid delta : ℕ)
      → IsValid r
      → S.get r.table pid ≡ none
      → IsValid (add_cold S r pid delta).0
  unfolding add_cold
  add_cold-IsValid r pid delta v e = record {
    allocated = λ k c f. ground (
      arith,
      S.get_or_insert_entry r.table pid r.next,
      S.get-get_or_insert r.table pid r.next k,
      v.allocated k c,
    );
    distinct = λ j k c f g. ground (
      arith,
      S.get_or_insert_entry r.table pid r.next,
      S.get-get_or_insert r.table pid r.next k,
      S.get-get_or_insert r.table pid r.next j,
      v.allocated k c,
      v.allocated j c,
      v.distinct j k c,
    );
  }

  pub add-IsValid :
      (r : AmalgafyRegistry S) (pid delta : ℕ)
      → IsValid r
      → IsValid (add_micro_joules S r pid delta).0
  unfolding add_micro_joules
  add-IsValid r pid delta v = elim (Option-cases (S.get r.table pid)) [
    | inl e ↦ rw (e, add_micro_joules) (add_cold-IsValid r pid delta v e)
    | inr (c, e) ↦
        rw (e, add_micro_joules) (record { allocated = v.allocated; distinct = v.distinct })
  ]

  pub remove-IsValid : (r : AmalgafyRegistry S) (pid : ℕ) → IsValid r → IsValid (remove S r pid).0
  unfolding remove
  remove-IsValid r pid v = record {
    allocated = λ k c f. ground (arith, S.get-remove r.table pid k, v.allocated k c);
    distinct = λ j k c f g.
        ground (arith, S.get-remove r.table pid j, S.get-remove r.table pid k, v.distinct j k c);
  }

  -- The total of a PID after `delta` more; a PID that is not tracked starts from zero.
  abbrev pub grown : Option ℕ → ℕ → ℕ
  grown old delta = saturating_add (unwrap_or old 0) delta

  get-add_cold :
      (r : AmalgafyRegistry S) (pid delta j : ℕ)
      → IsValid r
      → S.get r.table pid ≡ none
      → (get S (add_cold S r pid delta).0 j
          ≡ (if pid == j then some (grown none delta) else get S r j))
        × ((add_cold S r pid delta).1 ≡ grown none delta)
  unfolding get add_cold saturating_add_cell
  get-add_cold r pid delta j v e =
      let entry = S.get_or_insert_entry r.table pid r.next in
      let look_up = S.get-get_or_insert r.table pid r.next j in
      elim (Option-cases (S.get r.table j)) [
        | inl f ↦ (ground (arith, entry, look_up, f), ground (arith, entry))
        | inr (c, f) ↦ (ground (arith, entry, look_up, f, v.allocated j c), ground (arith, entry))
      ]

  get-add_hot :
      (r : AmalgafyRegistry S) (pid delta j c : ℕ)
      → IsValid r
      → S.get r.table pid ≡ some c
      → (get S (add_hot S r c delta).0 j
          ≡ (if pid == j then some (grown (get S r pid) delta) else get S r j))
        × ((add_hot S r c delta).1 ≡ grown (get S r pid) delta)
  unfolding get add_hot saturating_add_cell
  get-add_hot r pid delta j c v e = elim (Option-cases (S.get r.table j)) [
    | inl f ↦ (ground (arith, f), ground arith)
    | inr (d, f) ↦ (ground (arith, f, v.distinct j pid c), ground arith)
  ]

  get-untracked : (r : AmalgafyRegistry S) (pid : ℕ) → S.get r.table pid ≡ none → get S r pid ≡ none
  unfolding get
  get-untracked r pid e = ground arith

  add-eq_cold :
      (r : AmalgafyRegistry S) (pid delta : ℕ)
      → S.get r.table pid ≡ none
      → add_micro_joules S r pid delta ≡ add_cold S r pid delta
  unfolding add_micro_joules
  add-eq_cold r pid delta e = rw (e, add_micro_joules)

  add-eq_hot :
      (r : AmalgafyRegistry S) (pid delta c : ℕ)
      → S.get r.table pid ≡ some c
      → add_micro_joules S r pid delta ≡ add_hot S r c delta
  unfolding add_micro_joules
  add-eq_hot r pid delta c e = rw (e, add_micro_joules)

  -- In a well-formed registry an addition gives its PID the grown total, returns that total, and
  -- leaves every other PID alone.
  pub get-add :
      (r : AmalgafyRegistry S) (pid delta j : ℕ)
      → IsValid r
      → (get S (add_micro_joules S r pid delta).0 j
          ≡ (if pid == j then some (grown (get S r pid) delta) else get S r j))
        × ((add_micro_joules S r pid delta).1 ≡ grown (get S r pid) delta)
  get-add r pid delta j v = elim (Option-cases (S.get r.table pid)) [
    | inl e ↦ rw (add-eq_cold r pid delta e, get-untracked r pid e) (get-add_cold r pid delta j v e)
    | inr (c, e) ↦ rw (add-eq_hot r pid delta c e) (get-add_hot r pid delta j c v e)
  ]

  -- Removing a PID returns its total and forgets it, and leaves every other PID alone.
  pub get-remove :
      (r : AmalgafyRegistry S) (pid j : ℕ)
      → (get S (remove S r pid).0 j ≡ (if pid == j then none else get S r j))
        × ((remove S r pid).1 ≡ get S r pid)
  unfolding get remove
  get-remove r pid j = ground (arith, S.get-remove r.table pid j, S.remove_entry r.table pid)

  AscendsFrom-map :
      (f : ℕ → ℕ) (lo : ℕ) (m : BTreeMap ℕ)
      → AscendsFrom lo m
      → AscendsFrom lo (map (λ (k, c). (k, f c)) m)
  AscendsFrom-map f lo [] a = tt
  AscendsFrom-map f lo ((k, c) ∷ m) a = (a.0, AscendsFrom-map f (suc k) m a.1)

  get-map :
      (f : ℕ → ℕ) (m : BTreeMap ℕ) (j : ℕ)
      → BTreeMap.get (map (λ (k, c). (k, f c)) m) j ≡ map_option f (BTreeMap.get m j)
  unfolding BTreeMap.get
  get-map f [] j = refl
  get-map f ((k, c) ∷ m) j = ground (arith, get-map f m j)

  -- The snapshot lists each tracked PID once, in ascending order, with its total.
  pub snapshot-get :
      (r : AmalgafyRegistry S)
      → IsAscending (snapshot S r) × ((j : ℕ) → BTreeMap.get (snapshot S r) j ≡ get S r j)
  unfolding snapshot get
  snapshot-get r = (
    AscendsFrom-map r.cells 0 (S.iter r.table) (S.iter-IsAscending r.table),
    λ j. get-map r.cells (S.iter r.table) j ∙ ap (map_option r.cells) (S.get-iter r.table j),
  )
