-- ===== src/Registry/Race/Removal/Pending.antt =====
-- What the removals under way (src/core/registry.rs) are going to return.
use micro_joule_attribution.Base.{
  ℕ, ◌+◌, ◌≡◌, ◌≢◌, refl, arith, List, [], ◌∷◌, All, if◌then◌else◌, ◌==◌, update,
}
use micro_joule_attribution.Registry.Race.Removal.{Unlinked, Takes, first, behind}

-- The values in the cells of the removals of the PID `k`.
abbrev pub owed : (ℕ → ℕ) → List Unlinked → ℕ → ℕ
owed cells [] k = 0
owed cells ((pid, c) ∷ l) k = (if pid == k then cells c else 0) + owed cells l k

-- No two removals have the same cell.
abbrev pub AreApart : List Unlinked → Type 0
AreApart [] = Unit
AreApart (e ∷ l) = All (λ (d : Unlinked). e.1 ≢ d.1) l × AreApart l

pub owed-absent :
    (cells : ℕ → ℕ) (c total : ℕ) (l : List Unlinked) (k : ℕ)
    → All (λ (d : Unlinked). c ≢ d.1) l
    → owed (update cells c total) l k ≡ owed cells l k
owed-absent cells c total [] k a = refl
owed-absent cells c total ((pid, e) ∷ l) k a =
    ground (arith, a.0, owed-absent cells c total l k a.1)

pub owed-Takes :
    (cells : ℕ → ℕ) {pid c : ℕ} {l m : List Unlinked} (k : ℕ)
    → Takes (pid, c) l m
    → owed cells l k ≡ (if pid == k then cells c else 0) + owed cells m k
owed-Takes cells k first = refl
owed-Takes cells k (behind t) = omega (arith, owed-Takes cells k t)

pub All-Takes {κ} :
    (P : Unlinked → Type κ) {e : Unlinked} {l m : List Unlinked} → Takes e l m → All P l → All P m
All-Takes P first a = a.1
All-Takes P (behind t) a = (a.0, All-Takes P t a.1)

pub AreApart-Takes : {e : Unlinked} {l m : List Unlinked} → Takes e l m → AreApart l → AreApart m
AreApart-Takes first a = a.1
AreApart-Takes (behind {d} t) a =
    (All-Takes (λ (x : Unlinked). d.1 ≢ x.1) t a.0, AreApart-Takes t a.1)
