-- ===== src/Signer/Json.antt =====
-- `canonicalize_value` of src/core/signer.rs on the JSON values of `serde_json`. An object is the
-- list of its fields in the order in which its map is read; a number is its value.
pub mod Same
pub mod Canonical
use micro_joule_attribution.Base.{ℕ, ◌≡◌, ◌≢◌, refl, ap, ◌∙◌, List, [], ◌∷◌, ◌++◌, map, Bool, All}
use micro_joule_attribution.Base.Texts.{Text, compare_text}
use micro_joule_attribution.Base.Sorting.{place, sort_by}
use Prim.Native.Nat.{Ordering}

mutual
  pub data Value : Type 0 where
    null : Value
    bool : Bool → Value
    number : ℕ → Value
    string : Text → Value
    array : Items → Value
    object : Fields → Value

  pub data Items : Type 0 where
    nil : Items
    cons : Value → Items → Items

  pub data Fields : Type 0 where
    end : Fields
    field : Text → Value → Fields → Fields

abbrev pub Entry : Type 0
Entry = Text × Value

abbrev pub entries : Fields → List Entry
entries end = []
entries (field k v m) = (k, v) ∷ entries m

abbrev pub fields_of : List Entry → Fields
fields_of [] = end
fields_of ((k, v) ∷ l) = field k v (fields_of l)

-- `a.0.cmp(&b.0)`
abbrev pub compare_keys : Entry → Entry → Ordering
compare_keys a b = compare_text a.0 b.0

-- `serde_json::Map`: reading it back gives the entries in the order of their keys or of their
-- insertion, as the crate is built; in both, a new key above all the others comes last.
pub record JsonMap : Type 0 where
  pub insert : Text → Value → Fields → Fields
  pub insert_last :
      (k : Text) (v : Value) (m : Fields)
      → All (λ (e : Entry). compare_keys e (k, v) ≡ Ordering.lt) (entries m)
      → entries (insert k v m) ≡ entries m ++ ((k, v) ∷ [])

module _ (json : JsonMap) where
  -- The loop that fills the new map.
  unfoldable pub insert_all : List Entry → Fields → Fields
  insert_all [] m = m
  insert_all ((k, v) ∷ l) m = insert_all l (json.insert k v m)

  -- The values are made canonical before the sort, which reads only the keys, and not after it.
  unfoldable mutual
    unfolding insert_all sort_by place

    pub canonicalize_value : Value → Value
    canonicalize_value (object m) =
        object (insert_all (sort_by compare_keys (canonical_entries m)) end)
    canonicalize_value (array items) = array (canonicalize_items items)
    canonicalize_value null = null
    canonicalize_value (bool b) = bool b
    canonicalize_value (number n) = number n
    canonicalize_value (string s) = string s

    pub canonicalize_items : Items → Items
    canonicalize_items nil = nil
    canonicalize_items (cons v items) = cons (canonicalize_value v) (canonicalize_items items)

    pub canonical_entries : Fields → List Entry
    canonical_entries end = []
    canonical_entries (field k v m) = (k, canonicalize_value v) ∷ canonical_entries m

-- No key occurs twice in an object: a map holds each key once.
abbrev mutual
  pub IsValid : Value → Type 0
  IsValid (object m) = AreValidFields m
  IsValid (array items) = AreValidItems items
  IsValid null = Unit
  IsValid (bool b) = Unit
  IsValid (number n) = Unit
  IsValid (string s) = Unit

  pub AreValidItems : Items → Type 0
  AreValidItems nil = Unit
  AreValidItems (cons v items) = IsValid v × AreValidItems items

  pub AreValidFields : Fields → Type 0
  AreValidFields end = Unit
  AreValidFields (field k v m) =
      IsValid v × (All (λ (e : Entry). k ≢ e.0) (entries m) × AreValidFields m)
