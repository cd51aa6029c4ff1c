-- ===== src/Base/BTreeMap.antt =====
-- `BTreeMap<u32, V>` of the standard library as the list of its entries in the order of the keys.
use micro_joule_attribution.Base.Tests.{ltb, ◌==◌, if◌then◌else◌, ==_iff}
use Prim.Native.Nat.{ℕ, suc, ◌≤◌, ◌<◌}
use mathlib.Core.Path.{◌≡◌, refl}
use mathlib.Core.Option.{Option, none, some}
use mathlib.Core.List.{List, [], ◌∷◌}
use native.Mathlib.Omega.{arith}

abbrev pub BTreeMap {ℓ} : Type ℓ → Type ℓ
BTreeMap V = List (ℕ × V)

module _ {ℓ} {V : Type ℓ} where
  unfoldable pub get : BTreeMap V → ℕ → Option V
  get [] k = none
  get ((j, v) ∷ m) k = if j == k then some v else get m k

  unfoldable pub insert : ℕ → V → BTreeMap V → BTreeMap V
  insert k v [] = (k, v) ∷ []
  insert k v ((j, w) ∷ m) =
      if ltb k j then (k, v) ∷ (j, w) ∷ m else if j == k then (k, v) ∷ m else (j, w) ∷ insert k v m

  unfoldable pub remove : ℕ → BTreeMap V → BTreeMap V
  remove k [] = []
  remove k ((j, w) ∷ m) = if j == k then m else (j, w) ∷ remove k m

  unfoldable pub keys : BTreeMap V → List ℕ
  keys [] = []
  keys ((j, w) ∷ m) = j ∷ keys m

  -- The keys rise strictly, from `lo` on.
  abbrev pub AscendsFrom : ℕ → BTreeMap V → Type 0
  AscendsFrom lo [] = Unit
  AscendsFrom lo ((j, w) ∷ m) = (lo ≤ j) × AscendsFrom (suc j) m

  abbrev pub IsAscending : BTreeMap V → Type 0
  IsAscending = AscendsFrom 0

  pub AscendsFrom-mono :
      (lo hi : ℕ) (m : BTreeMap V) → lo ≤ hi → AscendsFrom hi m → AscendsFrom lo m
  AscendsFrom-mono lo hi [] h a = tt
  AscendsFrom-mono lo hi ((j, w) ∷ m) h a = (omega arith, a.1)

  pub get_below : (lo k : ℕ) (m : BTreeMap V) → AscendsFrom lo m → k < lo → get m k ≡ none
  unfolding get
  get_below lo k [] a h = refl
  get_below lo k ((j, w) ∷ m) a h = ground (arith, get_below (suc j) k m a.1)

  pub get-insert :
      (k : ℕ) (v : V) (m : BTreeMap V) (j : ℕ)
      → get (insert k v m) j ≡ (if k == j then some v else get m j)
  unfolding get insert
  get-insert k v [] j = refl
  get-insert k v ((i, w) ∷ m) j = ground (arith, get-insert k v m j)

  pub insert-AscendsFrom :
      (lo k : ℕ) (v : V) (m : BTreeMap V)
      → lo ≤ k
      → AscendsFrom lo m
      → AscendsFrom lo (insert k v m)
  unfolding insert
  insert-AscendsFrom lo k v [] h a = (h, tt)
  insert-AscendsFrom lo k v ((j, w) ∷ m) h a = ground (arith, insert-AscendsFrom (suc j) k v m)

  pub get-remove :
      (k : ℕ) (m : BTreeMap V) (j : ℕ)
      → IsAscending m
      → get (remove k m) j ≡ (if k == j then none else get m j)
  unfolding get remove
  get-remove k [] j a = ground arith
  get-remove k ((i, w) ∷ m) j a = ground (
    arith,
    get-remove k m j (AscendsFrom-mono 0 (suc i) m (omega arith) a.1),
    get_below (suc i) j m a.1,
  )

  pub remove-AscendsFrom :
      (lo k : ℕ) (m : BTreeMap V) → AscendsFrom lo m → AscendsFrom lo (remove k m)
  unfolding remove
  remove-AscendsFrom lo k [] a = tt
  remove-AscendsFrom lo k ((j, w) ∷ m) a =
      ground (arith, remove-AscendsFrom (suc j) k m a.1, AscendsFrom-mono lo (suc j) m)

  get-head : (i : ℕ) (v : V) (m : BTreeMap V) → get ((i, v) ∷ m) i ≡ some v
  unfolding get
  get-head i v m = rw ((==_iff i i).1 refl)

  head_keys-eq :
      (i j : ℕ) (v w : V) (m n : BTreeMap V)
      → AscendsFrom (suc i) m
      → AscendsFrom (suc j) n
      → ((k : ℕ) → get ((i, v) ∷ m) k ≡ get ((j, w) ∷ n) k)
      → i ≡ j
  unfolding get
  head_keys-eq i j v w m n a b e =
      ground (arith, e i, e j, get_below (suc i) j m a, get_below (suc j) i n b)

  heads-eq :
      (i j : ℕ) (v w : V) (m n : BTreeMap V)
      → i ≡ j
      → ((k : ℕ) → get ((i, v) ∷ m) k ≡ get ((j, w) ∷ n) k)
      → v ≡ w
  heads-eq i j v w m n h e = cc (get-head i v m, get-head j w n, e i)

  tails-eq :
      (i j : ℕ) (v w : V) (m n : BTreeMap V)
      → AscendsFrom (suc i) m
      → AscendsFrom (suc j) n
      → i ≡ j
      → ((k : ℕ) → get ((i, v) ∷ m) k ≡ get ((j, w) ∷ n) k)
      → (k : ℕ) → get m k ≡ get n k
  unfolding get
  tails-eq i j v w m n a b h e k =
      ground (arith, e k, get_below (suc i) k m a, get_below (suc j) k n b)

  -- A map is determined by its look-ups.
  pub BTreeMap-ext :
      (lo hi : ℕ) (m n : BTreeMap V)
      → AscendsFrom lo m
      → AscendsFrom hi n
      → ((k : ℕ) → get m k ≡ get n k)
      → m ≡ n
  unfolding get
  BTreeMap-ext lo hi [] [] a b e = refl
  BTreeMap-ext lo hi [] ((j, w) ∷ n) a b e = absurd (ground (arith, e j))
  BTreeMap-ext lo hi ((i, v) ∷ m) [] a b e = absurd (ground (arith, e i))
  BTreeMap-ext lo hi ((i, v) ∷ m) ((j, w) ∷ n) a b e =
      let key = head_keys-eq i j v w m n a.1 b.1 e in
      let value = heads-eq i j v w m n key e in
      let tails = BTreeMap-ext (suc i) (suc j) m n a.1 b.1 (tails-eq i j v w m n a.1 b.1 key e) in
      λ t. (key t, value t) ∷ tails t
