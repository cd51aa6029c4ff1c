-- ===== src/Provider/Sampling/Split.antt =====
-- The division of a delta between the active PIDs in the sampling loop of src/core/provider.rs.
use micro_joule_attribution.Base.{
  ℕ, zero, suc, ◌+◌, ◌-◌, ◌*◌, ◌/◌, ◌%◌, ◌≤◌, ◌<◌, ◌≡◌, refl, ◌∙◌, ap, sym, arith, List, [], ◌∷◌,
  ◌++◌, ltb, ◌==◌, if◌then◌else◌, length, length-append, saturating_add, saturating_mul, true,
  u64_max, sum, sum-append, replicate, length-replicate, sum-replicate,
}
use native.Mathlib.Nat.{div-add-mod, div-add-mod'}
use micro_joule_attribution.Registry.Table.{SkipMap}
use micro_joule_attribution.Registry.{AmalgafyRegistry, add_micro_joules, total_micro_joules, get}
use micro_joule_attribution.Registry.Laws.{IsValid, add-IsValid, get-add}
use micro_joule_attribution.Base.Results.{unwrap_or}
use micro_joule_attribution.Registry.Total.{total-add, total-le}
use micro_joule_attribution.Provider.Sampling.{credit_pids, split_delta}

-- The parts of `delta` among `n`: the first `delta % n` get one micro-joule more than the rest.
abbrev pub portions : ℕ → ℕ → List ℕ
portions delta n = replicate (delta % n) (delta / n + 1) ++ replicate (n - delta % n) (delta / n)

the_rest : {r n : ℕ} → r < n → r + (n - r) ≡ n
the_rest h = omega arith

pub sum-portions : (delta n : ℕ) → 0 < n → sum (portions delta n) ≡ delta
sum-portions delta n h =
    let whole = div-add-mod delta n in
    let less : delta % n < n = omega arith in
    sum-append (replicate (delta % n) (delta / n + 1)) (replicate (n - delta % n) (delta / n))
    ∙ omega (
      arith,
      sum-replicate (delta % n) (delta / n + 1),
      sum-replicate (n - delta % n) (delta / n),
      ap (λ (x : ℕ). x * (delta / n)) (the_rest less),
      whole,
    )

pub length-portions : (delta n : ℕ) → 0 < n → length (portions delta n) ≡ n
length-portions delta n h =
    length-append (replicate (delta % n) (delta / n + 1)) (replicate (n - delta % n) (delta / n))
    ∙ omega (
      arith,
      length-replicate {0} (delta % n) (delta / n + 1),
      length-replicate {0} (n - delta % n) (delta / n),
    )

module _ (S : SkipMap) where
  -- Each PID is credited with its part.
  abbrev pub credit_all : AmalgafyRegistry S → List ℕ → List ℕ → AmalgafyRegistry S
  credit_all r [] parts = r
  credit_all r (pid ∷ pids) [] = r
  credit_all r (pid ∷ pids) (part ∷ parts) = credit_all (add_micro_joules S r pid part).0 pids parts

  credit_pids-eq :
      (r : AmalgafyRegistry S) (share remainder : ℕ) (pids : List ℕ)
      → remainder ≤ length pids
      → credit_pids S r share remainder pids
        ≡ credit_all r pids
            (replicate remainder (share + 1) ++ replicate (length pids - remainder) share)
  unfolding credit_pids
  credit_pids-eq r share remainder [] h = refl
  credit_pids-eq r share zero (pid ∷ pids) h =
      let none_left : suc (length pids) - 0 ≡ suc (length pids - 0) = omega arith in
      let no_extra : share + 0 ≡ share = omega arith in
      rw (none_left, no_extra)
        (credit_pids-eq (add_micro_joules S r pid share).0 share zero pids (omega arith))
  credit_pids-eq r share (suc remainder) (pid ∷ pids) h =
      let some_left : ltb 0 (suc remainder) ≡ true = ground arith in
      let one_less : suc remainder - 1 ≡ remainder = omega arith in
      let fewer : suc (length pids) - suc remainder ≡ length pids - remainder = omega arith in
      rw (some_left, one_less, fewer)
        (credit_pids-eq (add_micro_joules S r pid (share + 1)).0 share remainder pids (omega arith))

  pub credit_all-IsValid :
      (r : AmalgafyRegistry S) (pids parts : List ℕ)
      → IsValid S r
      → IsValid S (credit_all r pids parts)
  credit_all-IsValid r [] parts v = v
  credit_all-IsValid r (pid ∷ pids) [] v = v
  credit_all-IsValid r (pid ∷ pids) (part ∷ parts) v =
      credit_all-IsValid (add_micro_joules S r pid part).0 pids parts (add-IsValid S r pid part v)

  total-credit_all :
      (r : AmalgafyRegistry S) (pids parts : List ℕ)
      → IsValid S r
      → length pids ≡ length parts
      → total_micro_joules S (credit_all r pids parts)
        ≡ saturating_add (total_micro_joules S r) (sum parts)
  total-credit_all r [] [] v h = omega (arith, total-le S r)
  total-credit_all r [] (part ∷ parts) v h = absurd (omega arith)
  total-credit_all r (pid ∷ pids) [] v h = absurd (omega arith)
  total-credit_all r (pid ∷ pids) (part ∷ parts) v h = omega (
    arith,
    (total-add S r pid part v).0,
    total-credit_all (add_micro_joules S r pid part).0 pids parts (add-IsValid S r pid part v)
        (omega arith),
  )

  -- The code's share and remainder give the parts: no subtraction underflows.
  pub split_delta-eq :
      (r : AmalgafyRegistry S) (pid : ℕ) (pids : List ℕ) (delta : ℕ)
      → delta ≤ u64_max
      → split_delta S r (pid ∷ pids) delta
        ≡ credit_all r (pid ∷ pids) (portions delta (length (pid ∷ pids)))
  unfolding split_delta
  split_delta-eq r pid pids delta h =
      let n = suc (length pids) in
      let shared = div-add-mod' delta n in
      let remainder : delta - saturating_mul (delta / n) n ≡ delta % n = omega arith in
      rw remainder (credit_pids-eq r (delta / n) (delta % n) (pid ∷ pids) (omega arith))

  pub split_delta-IsValid :
      (r : AmalgafyRegistry S) (pids : List ℕ) (delta : ℕ)
      → delta ≤ u64_max
      → IsValid S r
      → IsValid S (split_delta S r pids delta)
  unfolding split_delta
  split_delta-IsValid r [] delta h v = add-IsValid S r 0 delta v
  split_delta-IsValid r (pid ∷ pids) delta h v =
      rw (split_delta-eq r pid pids delta h)
        (credit_all-IsValid r (pid ∷ pids) (portions delta (length (pid ∷ pids))) v)

  -- Whatever the active PIDs are, repeated or none, a well-formed registry's total grows by
  -- exactly a delta that fits into a u64, up to the largest u64.
  pub total-split_delta :
      (r : AmalgafyRegistry S) (pids : List ℕ) (delta : ℕ)
      → delta ≤ u64_max
      → IsValid S r
      → total_micro_joules S (split_delta S r pids delta)
        ≡ saturating_add (total_micro_joules S r) delta
  unfolding split_delta
  total-split_delta r [] delta h v = (total-add S r 0 delta v).0
  total-split_delta r (pid ∷ pids) delta h v =
      let n = length (pid ∷ pids) in
      rw (split_delta-eq r pid pids delta h) (
        total-credit_all r (pid ∷ pids) (portions delta n) v
          (sym (length-portions delta n (omega arith)))
        ∙ ap (saturating_add (total_micro_joules S r)) (sum-portions delta n (omega arith)))

  -- What the parts give to the PID `j`, which may stand more than once among the PIDs.
  abbrev pub given : ℕ → List ℕ → List ℕ → ℕ
  given j [] parts = 0
  given j (pid ∷ pids) [] = 0
  given j (pid ∷ pids) (part ∷ parts) = (if pid == j then part else 0) + given j pids parts

  get-credit_all :
      (r : AmalgafyRegistry S) (pids parts : List ℕ) (j : ℕ)
      → IsValid S r
      → unwrap_or (get S r j) 0 ≤ u64_max
      → unwrap_or (get S (credit_all r pids parts) j) 0
        ≡ saturating_add (unwrap_or (get S r j) 0) (given j pids parts)
  get-credit_all r [] parts j v h = omega arith
  get-credit_all r (pid ∷ pids) [] j v h = omega arith
  get-credit_all r (pid ∷ pids) (part ∷ parts) j v h =
      let next = (add_micro_joules S r pid part).0 in
      let here = (get-add S r pid part j v).0 in
      ground (arith, here, get-credit_all next pids parts j (add-IsValid S r pid part v))

  -- In a well-formed registry, of a delta that fits into a u64 and is split between `n` active
  -- PIDs, each occurrence of a PID is credited `delta / n`, and one micro-joule more if it is
  -- among the first `delta % n`, up to the largest u64; the total of a PID that is not among them
  -- does not change.
  pub get-split_delta :
      (r : AmalgafyRegistry S) (pid : ℕ) (pids : List ℕ) (delta j : ℕ)
      → delta ≤ u64_max
      → IsValid S r
      → unwrap_or (get S r j) 0 ≤ u64_max
      → unwrap_or (get S (split_delta S r (pid ∷ pids) delta) j) 0
        ≡ saturating_add
            (unwrap_or (get S r j) 0)
            (given j (pid ∷ pids) (portions delta (length (pid ∷ pids))))
  get-split_delta r pid pids delta j h v fits =
      rw (split_delta-eq r pid pids delta h)
        (get-credit_all r (pid ∷ pids) (portions delta (length (pid ∷ pids))) j v fits)
