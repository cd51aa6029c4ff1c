-- ===== src/Signer/Json/Same.antt =====
-- Two JSON values are the same if they differ in the order of the fields of their objects only.
use micro_joule_attribution.Base.{◌≡◌, ◌≢◌, refl, sym, ap, ◌∙◌}
use micro_joule_attribution.Base.Texts.{Text, eq_of_compare_text, compare_text-IsTotalOrder}
use micro_joule_attribution.Base.Sorting.{place, sort_by, IsTotalOrder}
use micro_joule_attribution.Base.Sorting.Permuted.{place_comm}
use micro_joule_attribution.Signer.Json.{
  Value, Items, Fields, array, object, nil, cons, end, field, compare_keys, JsonMap, insert_all,
  canonicalize_value, canonicalize_items, canonical_entries,
}

mutual
  pub data Same : Value → Value → Type 0 where
    same_self : {v : Value} → Same v v
    same_back : {v w : Value} → Same v w → Same w v
    same_through : {u v w : Value} → Same u v → Same v w → Same u w
    same_array : {xs ys : Items} → SameItems xs ys → Same (array xs) (array ys)
    same_object : {m n : Fields} → SameFields m n → Same (object m) (object n)

  pub data SameItems : Items → Items → Type 0 where
    same_nil : SameItems nil nil
    same_cons :
        {v w : Value} {xs ys : Items}
        → Same v w
        → SameItems xs ys
        → SameItems (cons v xs) (cons w ys)

  pub data SameFields : Fields → Fields → Type 0 where
    same_end : SameFields end end
    same_field :
        {k : Text} {v w : Value} {m n : Fields}
        → Same v w
        → SameFields m n
        → SameFields (field k v m) (field k w n)
    same_swap :
        {j k : Text} {v w : Value} {m : Fields}
        → j ≢ k
        → SameFields (field j v (field k w m)) (field k w (field j v m))
    same_fields_through : {l m n : Fields} → SameFields l m → SameFields m n → SameFields l n

pub compare_keys-IsTotalOrder : IsTotalOrder compare_keys
compare_keys-IsTotalOrder = record {
  flips = λ a b. compare_text-IsTotalOrder.flips a.0 b.0;
  chains = λ a b c. compare_text-IsTotalOrder.chains a.0 b.0 c.0;
}

module _ (json : JsonMap) where
  mutual
    unfolding canonicalize_value

    pub canonicalize_value-Same :
        {v w : Value} → Same v w → canonicalize_value json v ≡ canonicalize_value json w
    canonicalize_value-Same same_self = refl
    canonicalize_value-Same (same_back s) = sym (canonicalize_value-Same s)
    canonicalize_value-Same (same_through s t) =
        canonicalize_value-Same s ∙ canonicalize_value-Same t
    canonicalize_value-Same (same_array s) = ap array (canonicalize_items-SameItems s)
    canonicalize_value-Same (same_object s) =
        ap (λ l. object (insert_all json l end)) (sort-SameFields s)

    canonicalize_items-SameItems :
        {xs ys : Items} → SameItems xs ys → canonicalize_items json xs ≡ canonicalize_items json ys
    canonicalize_items-SameItems same_nil = refl
    canonicalize_items-SameItems (same_cons s t) =
        λ i. cons (canonicalize_value-Same s i) (canonicalize_items-SameItems t i)

    sort-SameFields :
        {m n : Fields}
        → SameFields m n
        → sort_by compare_keys (canonical_entries json m)
          ≡ sort_by compare_keys (canonical_entries json n)
    sort-SameFields same_end = refl
    sort-SameFields (same_field {k = k} s t) =
        λ i. place compare_keys (k, canonicalize_value-Same s i) (sort-SameFields t i)
    sort-SameFields (same_swap {j = j} {k = k} {v = v} {w = w} {m = m} h) =
        place_comm compare_keys compare_keys-IsTotalOrder (j, canonicalize_value json v)
          (k, canonicalize_value json w) (sort_by compare_keys (canonical_entries json m))
          (λ e. h (eq_of_compare_text j k e))
    sort-SameFields (same_fields_through s t) = sort-SameFields s ∙ sort-SameFields t
