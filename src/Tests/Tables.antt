-- ===== src/Tests/Tables.antt =====
-- A skip list that the tests can run: the ascending list of its entries.
use micro_joule_attribution.Base.{
  ℕ, ◌≡◌, refl, arith, [], Option, none, some, ◌==◌, length, leb, true, if◌then◌else◌,
}
use micro_joule_attribution.Base.Results.{unwrap_or}
use micro_joule_attribution.Base.BTreeMap
use micro_joule_attribution.Base.BTreeMap.{
  BTreeMap, IsAscending, get-insert, insert-AscendsFrom, remove-AscendsFrom,
}
use micro_joule_attribution.Registry.Table.{SkipMap}
use micro_joule_attribution.Windows.Processes.{Allocator}

abbrev pub Entries : Type 0
Entries = (m : BTreeMap ℕ) × IsAscending m

unfoldable pub insert_absent : Entries → ℕ → ℕ → Option ℕ → Entries × ℕ
insert_absent t k v (some c) = (t, c)
insert_absent (m, a) k v none =
    ((BTreeMap.insert k v m, insert-AscendsFrom 0 k v m (omega arith) a), v)

pub insert_absent-entry :
    (t : Entries) (k v : ℕ) (o : Option ℕ) → (insert_absent t k v o).1 ≡ unwrap_or o v
unfolding insert_absent
insert_absent-entry t k v (some c) = refl
insert_absent-entry t k v none = refl

pub get-insert_absent :
    (t : Entries) (k v j : ℕ) (o : Option ℕ)
    → BTreeMap.get t.0 k ≡ o
    → BTreeMap.get (insert_absent t k v o).0.0 j
      ≡ (if k == j then some ((insert_absent t k v o).1) else BTreeMap.get t.0 j)
unfolding insert_absent
get-insert_absent t k v j (some c) e = ground arith
get-insert_absent t k v j none e = get-insert k v t.0 j

abbrev pub nothing : BTreeMap ℕ
nothing = []

pub get_nothing : (k : ℕ) → BTreeMap.get nothing k ≡ none
unfolding BTreeMap.get
get_nothing k = refl

abbrev pub btree_skip_map : SkipMap
btree_skip_map = record {
  Table = Entries;
  empty = ([], tt);
  get = λ t k. BTreeMap.get t.0 k;
  get_or_insert = λ t k v. insert_absent t k v (BTreeMap.get t.0 k);
  remove = λ t k. ((BTreeMap.remove k t.0, remove-AscendsFrom 0 k t.0 t.1), BTreeMap.get t.0 k);
  iter = λ t. t.0;
  len = λ t. length t.0;
  is_empty = λ t. length t.0 == 0;
  get-empty = get_nothing;
  get_or_insert_entry = λ t k v. insert_absent-entry t k v (BTreeMap.get t.0 k);
  get-get_or_insert = λ t k v j. get-insert_absent t k v j (BTreeMap.get t.0 k) refl;
  remove_entry = λ t k. refl;
  get-remove = λ t k j. BTreeMap.get-remove k t.0 j t.1;
  get-iter = λ t k. refl;
  iter-IsAscending = λ t. t.1;
  len-iter = λ t. refl;
  is_empty-len = λ t. refl;
}

pub exactly : (n : ℕ) → leb n n ≡ true
exactly n = ground arith

-- A `Vec` that allocates exactly what it needs.
abbrev pub exact_allocator : Allocator
exact_allocator = record {
  grow = λ capacity required. required;
  grow_enough = λ capacity required. exactly required;
}
