-- ===== src/Signer/Json/Canonical.antt =====
-- The canonical form of a JSON value: it is the same value, and the same for all that are.
use micro_joule_attribution.Base.{
  ◌≡◌, ◌≢◌, ◌↔◌, refl, sym, ap, ◌∙◌, List, [], ◌∷◌, ◌++◌, All, subst, inl, inr, Bool-cases,
  All-mono,
}
use micro_joule_attribution.Base.Texts.{Text, compare_text, eq_of_compare_text}
use micro_joule_attribution.Base.Sorting.{place, sort_by, is_le}
use micro_joule_attribution.Base.Sorting.Permuted.{Apart, All-sort_by}
use micro_joule_attribution.Base.Sorting.Ascending.{IsAscending, sort_by-IsAscending}
use micro_joule_attribution.Signer.Json.{
  Value, Items, Fields, null, bool, number, string, array, object, nil, cons, end, field, Entry,
  entries, fields_of, compare_keys, JsonMap, insert_all, canonicalize_value, canonicalize_items,
  canonical_entries, IsValid, AreValidItems, AreValidFields,
}
use micro_joule_attribution.Signer.Json.Same.{
  Same, SameItems, SameFields, same_self, same_back, same_through, same_array, same_object,
  same_nil, same_cons, same_end, same_field, same_swap, same_fields_through,
  compare_keys-IsTotalOrder, canonicalize_value-Same,
}
use Prim.Native.Nat.{Ordering}
use mathlib.Core.List.{append_assoc, append-nil}

fields_of-entries : (m : Fields) → fields_of (entries m) ≡ m
fields_of-entries end = refl
fields_of-entries (field k v m) = ap (field k v) (fields_of-entries m)

-- The entries of a list whose concatenation rises stand below what follows.
All-below_middle :
    (l : List Entry) (e : Entry) (r : List Entry)
    → IsAscending compare_keys (l ++ (e ∷ r))
    → All (λ (d : Entry). compare_keys d e ≡ Ordering.lt) l
All-below_middle [] e r a = tt
All-below_middle (d ∷ l) e r a = (last_of l a.0, All-below_middle l e r a.1)
  where
    last_of :
        (l : List Entry)
        → All (λ (c : Entry). compare_keys d c ≡ Ordering.lt) (l ++ (e ∷ r))
        → compare_keys d e ≡ Ordering.lt
    last_of [] b = b.0
    last_of (c ∷ l) b = last_of l b.1

SameFields-self : (m : Fields) → SameFields m m
SameFields-self end = same_end
SameFields-self (field k v m) = same_field same_self (SameFields-self m)

SameFields-place :
    (e : Entry) (l : List Entry)
    → All (λ (d : Entry). e.0 ≢ d.0) l
    → SameFields (fields_of (e ∷ l)) (fields_of (place compare_keys e l))
unfolding place
SameFields-place e [] h = SameFields-self (fields_of (e ∷ []))
SameFields-place e (d ∷ l) h = elim (Bool-cases (is_le (compare_keys e d))) [
  | inl t ↦ rw t (SameFields-self (fields_of (e ∷ d ∷ l)))
  | inr t ↦
      rw t (same_fields_through (same_swap h.0) (same_field same_self (SameFields-place e l h.1)))
]

module _ (json : JsonMap) where
  entries-insert_all :
      (l : List Entry) (m : Fields)
      → IsAscending compare_keys (entries m ++ l)
      → entries (insert_all json l m) ≡ entries m ++ l
  unfolding insert_all
  entries-insert_all [] m a = sym (append-nil (entries m))
  entries-insert_all (e ∷ l) m a =
      let grown = json.insert_last e.0 e.1 m (All-below_middle (entries m) e l a) in
      let assoc = append_assoc (entries m) (e ∷ []) l in
      entries-insert_all l (json.insert e.0 e.1 m)
        (subst (IsAscending compare_keys) (sym (ap (λ k. k ++ l) grown ∙ assoc)) a)
      ∙ ap (λ k. k ++ l) grown
      ∙ assoc

  insert_all-new :
      (l : List Entry) → IsAscending compare_keys l → insert_all json l end ≡ fields_of l
  insert_all-new l a =
      sym (fields_of-entries (insert_all json l end)) ∙ ap fields_of (entries-insert_all l end a)

  All-canonical_entries {κ} :
      (P : Text → Type κ) (m : Fields)
      → All (λ (e : Entry). P e.0) (entries m)
      → All (λ (e : Entry). P e.0) (canonical_entries json m)
  unfolding canonicalize_value
  All-canonical_entries P end a = tt
  All-canonical_entries P (field k v m) a = (a.0, All-canonical_entries P m a.1)

  Apart-canonical_entries :
      (m : Fields) → AreValidFields m → Apart compare_keys (canonical_entries json m)
  unfolding canonicalize_value
  Apart-canonical_entries end a = tt
  Apart-canonical_entries (field k v m) a = (
    All-canonical_entries (λ j. compare_text k j ≢ Ordering.eq) m
        (All-mono (λ (e : Entry). k ≢ e.0) (λ (e : Entry). compare_text k e.0 ≢ Ordering.eq)
          (entries m) (λ e h q. h (eq_of_compare_text k e.0 q)) a.1.0),
    Apart-canonical_entries m a.1.1,
  )

  -- A canonical object is its canonical entries in the order of the keys.
  pub canonicalize_value-object :
      (m : Fields)
      → AreValidFields m
      → canonicalize_value json (object m)
        ≡ object (fields_of (sort_by compare_keys (canonical_entries json m)))
  unfolding canonicalize_value
  canonicalize_value-object m a = ap object (
      insert_all-new (sort_by compare_keys (canonical_entries json m)) (
        sort_by-IsAscending compare_keys compare_keys-IsTotalOrder (canonical_entries json m)
          (Apart-canonical_entries m a)))

  mutual
    unfolding canonicalize_value sort_by

    pub Same-canonicalize_value : (v : Value) → IsValid v → Same v (canonicalize_value json v)
    Same-canonicalize_value (object m) a =
        subst (Same (object m)) (sym (canonicalize_value-object m a))
          (same_object (SameFields-sorted m a))
    Same-canonicalize_value (array items) a = same_array (SameItems-canonicalize_items items a)
    Same-canonicalize_value null a = same_self
    Same-canonicalize_value (bool b) a = same_self
    Same-canonicalize_value (number n) a = same_self
    Same-canonicalize_value (string s) a = same_self

    SameItems-canonicalize_items :
        (items : Items) → AreValidItems items → SameItems items (canonicalize_items json items)
    SameItems-canonicalize_items nil a = same_nil
    SameItems-canonicalize_items (cons v items) a =
        same_cons (Same-canonicalize_value v a.0) (SameItems-canonicalize_items items a.1)

    SameFields-sorted :
        (m : Fields)
        → AreValidFields m
        → SameFields m (fields_of (sort_by compare_keys (canonical_entries json m)))
    SameFields-sorted end a = same_end
    SameFields-sorted (field k v m) a =
        same_fields_through (same_field (Same-canonicalize_value v a.0) (SameFields-sorted m a.1.1))
          (SameFields-place (k, canonicalize_value json v)
            (sort_by compare_keys (canonical_entries json m))
            (All-sort_by compare_keys (λ (e : Entry). k ≢ e.0) (canonical_entries json m)
              (All-canonical_entries (λ j. k ≢ j) m a.1.0)))

  -- Two JSON values whose objects hold each key once have the same canonical form exactly when
  -- they differ in the order of the fields of their objects only, at any depth.
  pub canonicalize_value_iff :
      (v w : Value)
      → IsValid v
      → IsValid w
      → (canonicalize_value json v ≡ canonicalize_value json w) ↔ Same v w
  canonicalize_value_iff v w a b = (
    (λ e.
        same_through (subst (Same v) e (Same-canonicalize_value v a))
          (same_back (Same-canonicalize_value w b))),
    (λ s. canonicalize_value-Same json s),
  )

  pub canonicalize_value_twice :
      (v : Value)
      → IsValid v
      → canonicalize_value json (canonicalize_value json v) ≡ canonicalize_value json v
  canonicalize_value_twice v a = sym (canonicalize_value-Same json (Same-canonicalize_value v a))
