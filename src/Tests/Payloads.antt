-- ===== src/Tests/Payloads.antt =====
-- The JSON of a payload, with the laws that the signer asks of it.
use micro_joule_attribution.Tests.Parsing.{parse_payload_lem}
use micro_joule_attribution.Tests.Encodings.{
  sorted_map, attribution_items, payload_value, print, parse_payload,
}
use micro_joule_attribution.Base.{
  ◌≡◌, refl, ap, sym, ◌∙◌, subst, List, [], ◌∷◌, some, All, arith, true, Bool, not, ◌&&◌, ◌≢◌,
}
use micro_joule_attribution.Base.Texts.{Text, text_eq, text_eq_self}
use micro_joule_attribution.Base.Results.{Result, ok, Error}
use micro_joule_attribution.Provider.{PidEnergyAttribution}
use micro_joule_attribution.Signer.Json.{
  Value, Items, Fields, null, bool, number, string, array, object, nil, cons, end, field, Entry,
  entries, canonicalize_value, IsValid, AreValidItems, AreValidFields,
}
use micro_joule_attribution.Signer.Json.Same.{Same, canonicalize_value-Same}
use micro_joule_attribution.Signer.Keys.{Bytes}
use micro_joule_attribution.Signer.Encoding.{Serde}
use micro_joule_attribution.Signer.{AmalgafySealPayload}

unfoldable pub absent : Text → Fields → Bool
absent k end = true
absent k (field j v m) = not (text_eq k j) && absent k m

absent_lem : (k : Text) (m : Fields) → absent k m ≡ true → All (λ (e : Entry). k ≢ e.0) (entries m)
unfolding absent
absent_lem k end h = tt
absent_lem k (field j v m) h = (
  (λ same. ground (arith, h, text_eq_self k ∙ refl, ap (text_eq k) same, text_eq_self k)),
  absent_lem k m (ground (arith, h)),
)

unfoldable mutual
  unfolding absent

  pub valid : Value → Bool
  valid (object m) = valid_fields m
  valid (array items) = valid_items items
  valid null = true
  valid (bool b) = true
  valid (number n) = true
  valid (string s) = true

  pub valid_items : Items → Bool
  valid_items nil = true
  valid_items (cons v items) = valid v && valid_items items

  pub valid_fields : Fields → Bool
  valid_fields end = true
  valid_fields (field k v m) = valid v && (absent k m && valid_fields m)

mutual
  unfolding valid

  pub valid-IsValid : (v : Value) → valid v ≡ true → IsValid v
  valid-IsValid (object m) h = valid_fields-AreValid m h
  valid-IsValid (array items) h = valid_items-AreValid items h
  valid-IsValid null h = tt
  valid-IsValid (bool b) h = tt
  valid-IsValid (number n) h = tt
  valid-IsValid (string s) h = tt

  valid_items-AreValid : (items : Items) → valid_items items ≡ true → AreValidItems items
  valid_items-AreValid nil h = tt
  valid_items-AreValid (cons v items) h =
      (valid-IsValid v (ground (arith, h)), valid_items-AreValid items (ground (arith, h)))

  valid_fields-AreValid : (m : Fields) → valid_fields m ≡ true → AreValidFields m
  valid_fields-AreValid end h = tt
  valid_fields-AreValid (field k v m) h = (
    valid-IsValid v (ground (arith, h)),
    (absent_lem k m (ground (arith, h)), valid_fields-AreValid m (ground (arith, h))),
  )

valid-attribution_items : (l : List PidEnergyAttribution) → valid_items (attribution_items l) ≡ true
unfolding valid text_eq
valid-attribution_items [] = refl
valid-attribution_items (a ∷ l) = valid-attribution_items l

payload_value-IsValid : (p : AmalgafySealPayload) → IsValid (payload_value p)
unfolding valid text_eq
payload_value-IsValid p = valid-IsValid (payload_value p) (valid-payload_value p)
  where
    valid-payload_value : (p : AmalgafySealPayload) → valid (payload_value p) ≡ true
    valid-payload_value p = rw (valid-attribution_items p.attributions) refl

pub payload_to_value-IsValid :
    (p : AmalgafySealPayload) (v : Value)
    → ◌≡◌ {A = Result Value Error} (ok (payload_value p)) (ok v)
    → IsValid v
payload_to_value-IsValid p v h =
    let same : payload_value p ≡ v = cc in subst IsValid same (payload_value-IsValid p)

unfoldable pub print_canonical : Value → Result Bytes Error
unfolding print
print_canonical v = ok (print (canonicalize_value sorted_map v) [])

pub payload_from_slice-to_vec :
    (p : AmalgafySealPayload) (v w : Value) (b : Bytes)
    → ◌≡◌ {A = Result Value Error} (ok (payload_value p)) (ok v)
    → Same v w
    → print_canonical w ≡ ok b
    → parse_payload b ≡ some p
unfolding print_canonical
payload_from_slice-to_vec p v w b h same printed =
    let value : payload_value p ≡ v = cc in
    let canonical =
      ap (canonicalize_value sorted_map) value ∙ canonicalize_value-Same sorted_map same in
    let text : print (canonicalize_value sorted_map w) [] ≡ b = cc in
    ap parse_payload (sym (ap (λ c. print c []) canonical ∙ text)) ∙ parse_payload_lem p

abbrev pub payload_serde : Serde AmalgafySealPayload
payload_serde = record {
  map = sorted_map;
  to_value = λ p. ok (payload_value p);
  to_vec = print_canonical;
  from_slice = parse_payload;
  to_value-IsValid = payload_to_value-IsValid;
  from_slice-to_vec = payload_from_slice-to_vec;
}
