-- ===== src/Tests/Parsing.antt =====
-- The text of a payload is parsed back to it.
use micro_joule_attribution.Tests.Encodings.{
  sorted_map, source_number, source_of-source_number, attribution_value, attribution_items,
  payload_value, print, print_items, count, take_text, parse_attribution, parse_attributions,
  parse_payload,
}
use micro_joule_attribution.Base.{ℕ, suc, ◌≡◌, refl, ap, List, [], ◌∷◌, ◌++◌, some, length}
use micro_joule_attribution.Base.Texts.{compare_text}
use micro_joule_attribution.Base.Sorting.{sort_by, place}
use micro_joule_attribution.Provider.{PidEnergyAttribution}
use micro_joule_attribution.Signer.Json.{Items, canonicalize_value, canonicalize_items, insert_all}
use micro_joule_attribution.Signer.Keys.{Bytes}
use micro_joule_attribution.Signer.{AmalgafySealPayload}

take_text_lem : (s r : Bytes) → take_text (length s) (s ++ r) ≡ some (s, r)
unfolding take_text
take_text_lem [] r = refl
take_text_lem (c ∷ s) r = rw (take_text_lem s r) refl

parse_attribution_lem :
    (a : PidEnergyAttribution) (r : Bytes)
    → parse_attribution (print (canonicalize_value sorted_map (attribution_value a)) r)
      ≡ some (a, r)
unfolding parse_attribution print canonicalize_value sort_by place insert_all compare_text
parse_attribution_lem a r =
    let rest = a.pid ∷ a.window_end_ns ∷ a.window_start_ns ∷ r in
    rw (take_text_lem a.hardware_signature rest, parse_attribution) refl

parse_attributions_step :
    (n : ℕ) (bytes rest r : Bytes) (a : PidEnergyAttribution) (l : List PidEnergyAttribution)
    → parse_attribution bytes ≡ some (a, rest)
    → parse_attributions n rest ≡ some (l, r)
    → parse_attributions (suc n) bytes ≡ some (a ∷ l, r)
unfolding parse_attributions
parse_attributions_step n bytes rest r a l h k = rw (h, k, parse_attributions) refl

canonical_items : List PidEnergyAttribution → Items
unfolding canonicalize_value
canonical_items l = canonicalize_items sorted_map (attribution_items l)

count_lem : (l : List PidEnergyAttribution) → count (canonical_items l) ≡ length l
unfolding canonical_items print
count_lem [] = refl
count_lem (a ∷ l) = ap suc (count_lem l)

parse_attributions_lem :
    (l : List PidEnergyAttribution) (r : Bytes)
    → parse_attributions (length l) (print_items (canonical_items l) r) ≡ some (l, r)
unfolding parse_attributions print canonical_items
parse_attributions_lem [] r = refl
parse_attributions_lem (a ∷ l) r =
    let rest = print_items (canonical_items l) r in
    parse_attributions_step (length l)
      (print (canonicalize_value sorted_map (attribution_value a)) rest) rest r a l
      (parse_attribution_lem a rest) (parse_attributions_lem l r)

pub parse_payload_lem :
    (p : AmalgafySealPayload)
    → parse_payload (print (canonicalize_value sorted_map (payload_value p)) []) ≡ some p
unfolding parse_payload print canonicalize_value sort_by place insert_all compare_text
    canonical_items
parse_payload_lem p =
    let rest2 = p.manifest_version ∷ p.sealed_at_unix_ns ∷ p.total_micro_joules ∷ [] in
    let rest1 =
      source_number p.hardware_identity.source
      ∷ length p.hardware_serial
      ∷ (p.hardware_serial ++ rest2) in
    let name = p.hardware_identity.fingerprint in
    rw
      (
        count_lem p.attributions,
        parse_attributions_lem p.attributions (length name ∷ (name ++ rest1)),
        take_text_lem name rest1,
        take_text_lem p.hardware_serial rest2,
        source_of-source_number p.hardware_identity.source,
        parse_payload,
      )
      refl
