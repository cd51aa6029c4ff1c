-- ===== src/Registry/Table.antt =====
-- What src/core/registry.rs uses of `crossbeam_skiplist::SkipMap`, an ordered map of a third party:
-- its operations, and what its documentation says of them. A value is the address of an `AtomicU64`.
use micro_joule_attribution.Base.{ℕ, ◌≡◌, Bool, Option, none, some, if◌then◌else◌, ◌==◌, length}
use micro_joule_attribution.Base.Results.{unwrap_or}
use micro_joule_attribution.Base.BTreeMap
use micro_joule_attribution.Base.BTreeMap.{BTreeMap, IsAscending}

pub record SkipMap : Type 1 where
  pub Table : Type 0
  pub empty : Table
  pub get : Table → ℕ → Option ℕ
  -- Inserts only if the key is absent, and returns the entry that is then in the map.
  pub get_or_insert : Table → ℕ → ℕ → Table × ℕ
  pub remove : Table → ℕ → Table × Option ℕ
  pub iter : Table → BTreeMap ℕ
  pub len : Table → ℕ
  pub is_empty : Table → Bool
  pub get-empty : (k : ℕ) → get empty k ≡ none
  pub get_or_insert_entry : (t : Table) (k v : ℕ) → (get_or_insert t k v).1 ≡ unwrap_or (get t k) v
  pub get-get_or_insert :
      (t : Table) (k v j : ℕ)
      → get (get_or_insert t k v).0 j ≡ (if k == j then some ((get_or_insert t k v).1) else get t j)
  pub remove_entry : (t : Table) (k : ℕ) → (remove t k).1 ≡ get t k
  pub get-remove : (t : Table) (k j : ℕ) → get (remove t k).0 j ≡ (if k == j then none else get t j)
  pub get-iter : (t : Table) (k : ℕ) → BTreeMap.get (iter t) k ≡ get t k
  pub iter-IsAscending : (t : Table) → IsAscending (iter t)
  pub len-iter : (t : Table) → len t ≡ length (iter t)
  pub is_empty-len : (t : Table) → is_empty t ≡ (len t == 0)
