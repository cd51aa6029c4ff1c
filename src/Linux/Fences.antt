-- ===== src/Linux/Fences.antt =====
-- The PIDs with fences in flight (src/providers/linux.rs), against a plain count of submissions and
-- signals.
use micro_joule_attribution.Base.{
  ℕ, suc, ◌+◌, ◌-◌, ◌≤◌, ◌<◌, ◌≡◌, ◌↔◌, refl, ◌∙◌, ap, arith, none, some, List, [], ◌∷◌, ◌≢◌,
  u32_max, min, ==_iff, if◌then◌else◌, ◌==◌, Option-cases, ◌⊎◌, inl, inr, Bool-cases,
}
use micro_joule_attribution.Base.Results.{unwrap_or}
use micro_joule_attribution.Base.BTreeMap
use micro_joule_attribution.Base.BTreeMap.{
  BTreeMap, AscendsFrom, IsAscending, get-insert, insert-AscendsFrom, remove-AscendsFrom,
}
use micro_joule_attribution.Base.Texts.{Text}
use micro_joule_attribution.Linux.{
  LinuxProvider, DmaFenceEvent, new, mark_pid_active, mark_pid_idle, active_pid_set, release_fence,
  correlate_fence,
}

-- What the eBPF callbacks report: a submission, a signalled fence, the exit of a process.
pub data FenceCall : Type 0 where
  submitted : ℕ → FenceCall
  signaled : DmaFenceEvent → FenceCall
  exited : ℕ → FenceCall

abbrev pub apply : LinuxProvider → FenceCall → LinuxProvider
apply p (submitted pid) = mark_pid_active p pid
apply p (signaled event) = (correlate_fence p event).0
apply p (exited pid) = mark_pid_idle p pid

abbrev pub run : LinuxProvider → List FenceCall → LinuxProvider
run p [] = p
run p (c ∷ calls) = run (apply p c) calls

-- The fences of `j` in flight after a call: a u32 that stops at its bounds.
abbrev pub in_flight_after : ℕ → ℕ → FenceCall → ℕ
in_flight_after j n (submitted pid) = if pid == j then min (n + 1) u32_max else n
in_flight_after j n (signaled event) = if event.submitter_pid == j then n - 1 else n
in_flight_after j n (exited pid) = if pid == j then 0 else n

abbrev pub in_flight : ℕ → ℕ → List FenceCall → ℕ
in_flight j n [] = n
in_flight j n (c ∷ calls) = in_flight j (in_flight_after j n c) calls

-- The map is in order and holds no zero.
pub record IsCounting (m : BTreeMap ℕ) : Type 0 where
  pub ascending : IsAscending m
  pub positive : (k n : ℕ) → BTreeMap.get m k ≡ some n → 0 < n

abbrev pub count : BTreeMap ℕ → ℕ → ℕ
count m j = unwrap_or (BTreeMap.get m j) 0

insert-IsCounting :
    (m : BTreeMap ℕ) (k n : ℕ) → 0 < n → IsCounting m → IsCounting (BTreeMap.insert k n m)
insert-IsCounting m k n h v = record {
  ascending = insert-AscendsFrom 0 k n m (omega arith) v.ascending;
  positive = λ j i e. ground (arith, get-insert k n m j, v.positive j i);
}

remove-IsCounting : (m : BTreeMap ℕ) (k : ℕ) → IsCounting m → IsCounting (BTreeMap.remove k m)
remove-IsCounting m k v = record {
  ascending = remove-AscendsFrom 0 k m v.ascending;
  positive = λ j i e. ground (arith, BTreeMap.get-remove k m j v.ascending, v.positive j i);
}

count-insert :
    (m : BTreeMap ℕ) (k n j : ℕ)
    → count (BTreeMap.insert k n m) j ≡ (if k == j then n else count m j)
count-insert m k n j = ground (arith, get-insert k n m j)

count-remove :
    (m : BTreeMap ℕ) (k j : ℕ)
    → IsAscending m
    → count (BTreeMap.remove k m) j ≡ (if k == j then 0 else count m j)
count-remove m k j a = ground (arith, BTreeMap.get-remove k m j a)

release-eq :
    (m : BTreeMap ℕ) (pid n : ℕ)
    → BTreeMap.get m pid ≡ some n
    → release_fence m pid
      ≡ (if n - 1 == 0 then BTreeMap.remove pid m else BTreeMap.insert pid (n - 1) m)
unfolding release_fence
release-eq m pid n e = rw (e, release_fence)

release-idle : (m : BTreeMap ℕ) (pid : ℕ) → BTreeMap.get m pid ≡ none → release_fence m pid ≡ m
unfolding release_fence
release-idle m pid e = rw (e, release_fence)

release_fence-IsCounting :
    (m : BTreeMap ℕ) (pid : ℕ) → IsCounting m → IsCounting (release_fence m pid)
release_fence-IsCounting m pid v = elim (Option-cases (BTreeMap.get m pid)) [
  | inl e ↦ rw (release-idle m pid e) v
  | inr (n, e) ↦ rw (release-eq m pid n e) (elim (Bool-cases (n - 1 == 0)) [
    | inl last ↦ rw last (remove-IsCounting m pid v)
    | inr more ↦ rw more (insert-IsCounting m pid (n - 1) (ground arith) v)
  ])
]

count-release_fence :
    (m : BTreeMap ℕ) (pid j : ℕ)
    → IsCounting m
    → count (release_fence m pid) j ≡ (if pid == j then count m j - 1 else count m j)
count-release_fence m pid j v = elim (Option-cases (BTreeMap.get m pid)) [
  | inl e ↦ rw (release-idle m pid e) (ground arith)
  | inr (n, e) ↦
      rw (release-eq m pid n e)
        (ground (arith, count-remove m pid j v.ascending, count-insert m pid (n - 1) j))
]

apply-IsCounting :
    (p : LinuxProvider) (c : FenceCall)
    → IsCounting p.active_pids
    → IsCounting (apply p c).active_pids
unfolding mark_pid_active mark_pid_idle correlate_fence
apply-IsCounting p (submitted pid) v =
    insert-IsCounting p.active_pids pid (min (count p.active_pids pid + 1) u32_max) (omega arith) v
apply-IsCounting p (signaled event) v = release_fence-IsCounting p.active_pids event.submitter_pid v
apply-IsCounting p (exited pid) v = remove-IsCounting p.active_pids pid v

count-apply :
    (p : LinuxProvider) (c : FenceCall) (j : ℕ)
    → IsCounting p.active_pids
    → count (apply p c).active_pids j ≡ in_flight_after j (count p.active_pids j) c
unfolding mark_pid_active mark_pid_idle correlate_fence
count-apply p (submitted pid) j v =
    ground (arith, count-insert p.active_pids pid (min (count p.active_pids pid + 1) u32_max) j)
count-apply p (signaled event) j v = count-release_fence p.active_pids event.submitter_pid j v
count-apply p (exited pid) j v = count-remove p.active_pids pid j v.ascending

run-IsCounting :
    (p : LinuxProvider) (calls : List FenceCall)
    → IsCounting p.active_pids
    → IsCounting (run p calls).active_pids
run-IsCounting p [] v = v
run-IsCounting p (c ∷ calls) v = run-IsCounting (apply p c) calls (apply-IsCounting p c v)

count-run :
    (p : LinuxProvider) (calls : List FenceCall) (j : ℕ)
    → IsCounting p.active_pids
    → count (run p calls).active_pids j ≡ in_flight j (count p.active_pids j) calls
count-run p [] j v = refl
count-run p (c ∷ calls) j v =
    count-run (apply p c) calls j (apply-IsCounting p c v)
    ∙ ap (λ n. in_flight j n calls) (count-apply p c j v)

abbrev pub In : ℕ → List ℕ → Type 0
In j [] = ⊥
In j (k ∷ ks) = (k ≡ j) ⊎ In j ks

abbrev pub Rises : ℕ → List ℕ → Type 0
Rises lo [] = Unit {0}
Rises lo (k ∷ ks) = (lo ≤ k) × Rises (suc k) ks

keys-Rises : (lo : ℕ) (m : BTreeMap ℕ) → AscendsFrom lo m → Rises lo (BTreeMap.keys m)
unfolding BTreeMap.keys
keys-Rises lo [] a = tt
keys-Rises lo ((k, n) ∷ m) a = (a.0, keys-Rises (suc k) m a.1)

In-keys : (m : BTreeMap ℕ) (j : ℕ) → In j (BTreeMap.keys m) → BTreeMap.get m j ≢ none
unfolding BTreeMap.keys BTreeMap.get
In-keys [] j i = absurd i
In-keys ((k, n) ∷ m) j (inl e) = ground arith
In-keys ((k, n) ∷ m) j (inr i) = ground (arith, In-keys m j i)

keys-In : (m : BTreeMap ℕ) (j n : ℕ) → BTreeMap.get m j ≡ some n → In j (BTreeMap.keys m)
unfolding BTreeMap.keys BTreeMap.get
keys-In [] j n e = cc
keys-In ((k, i) ∷ m) j n e = elim (Bool-cases (k == j)) [
  | inl here ↦ inl ((==_iff k j).0 here)
  | inr below ↦ inr (keys-In m j n (ground arith))
]

active_iff : (m : BTreeMap ℕ) (j : ℕ) → IsCounting m → In j (BTreeMap.keys m) ↔ (0 < count m j)
active_iff m j v = (
  λ i. elim (Option-cases (BTreeMap.get m j)) [
    | inl e ↦ absurd (In-keys m j i e)
    | inr (n, e) ↦ ground (arith, v.positive j n)
  ],
  λ h. elim (Option-cases (BTreeMap.get m j)) [
    | inl e ↦ absurd (ground arith)
    | inr (n, e) ↦ keys-In m j n e
  ],
)

-- After any row of submissions, signals and exits on a new provider, the active PIDs are listed
-- in ascending order, each once, and they are exactly those whose count of fences in flight is
-- not zero. That count goes up by one at a submission, down by one at a signal, and to zero when
-- the process exits; it stops at the bounds of a u32.
pub active_pid_set_iff :
    (signature : Text) (calls : List FenceCall) (j : ℕ)
    → Rises 0 (active_pid_set (run (new signature) calls))
      × (In j (active_pid_set (run (new signature) calls)) ↔ (0 < in_flight j 0 calls))
unfolding active_pid_set new BTreeMap.get
active_pid_set_iff signature calls j =
    let start : IsCounting [] = record { ascending = tt; positive = λ k n e. cc } in
    let v = run-IsCounting (new signature) calls start in
    let m = (run (new signature) calls).active_pids in
    (keys-Rises 0 m v.ascending, rw (← count-run (new signature) calls j start) (active_iff m j v))
