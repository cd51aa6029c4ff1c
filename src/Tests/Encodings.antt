-- ===== src/Tests/Encodings.antt =====
-- JSON for the signers: a map that is read in the order of its keys, the value of a payload, and a
-- text that has the numbers and the texts of a value in order, each text after its length.
use micro_joule_attribution.Base.{
  ℕ, zero, suc, ◌==◌, ◌≡◌, refl, ap, ◌∙◌, List, [], ◌∷◌, ◌++◌, Option, some, none, length, All,
  if◌then◌else◌,
}
use micro_joule_attribution.Base.Texts.{Text, text, compare_text}
use micro_joule_attribution.Hardware.{HardwareIdentity, HardwareIdentitySource}
use micro_joule_attribution.Provider.{PidEnergyAttribution}
use micro_joule_attribution.Signer.Json.{
  Value, Items, Fields, null, bool, number, string, array, object, nil, cons, end, field, Entry,
  entries, compare_keys, JsonMap,
}
use micro_joule_attribution.Signer.Keys.{Bytes}
use micro_joule_attribution.Signer.{AmalgafySealPayload}
use Prim.Native.Nat.{Ordering}

abbrev pub by_order {ℓ} : {A : Type ℓ} → Ordering → A → A → A → A
by_order Ordering.lt a b c = a
by_order Ordering.eq a b c = b
by_order Ordering.gt a b c = c

-- A map that is read in the order of its keys.
abbrev pub insert_sorted : Text → Value → Fields → Fields
insert_sorted k v end = field k v end
insert_sorted k v (field j w m) =
    by_order (compare_text j k) (field j w (insert_sorted k v m)) (field k v m)
      (field k v (field j w m))

pub insert_sorted-last :
    (k : Text) (v : Value) (m : Fields)
    → All (λ (e : Entry). compare_keys e (k, v) ≡ Ordering.lt) (entries m)
    → entries (insert_sorted k v m) ≡ entries m ++ ((k, v) ∷ [])
insert_sorted-last k v end a = refl
insert_sorted-last k v (field j w m) a =
    ap
      (λ o.
        entries
          (by_order o (field j w (insert_sorted k v m)) (field k v m) (field k v (field j w m))))
      a.0
    ∙ ap {B = List Entry} (λ l. (j, w) ∷ l) (insert_sorted-last k v m a.1)

abbrev pub sorted_map : JsonMap
sorted_map = record { insert = insert_sorted; insert_last = insert_sorted-last }

abbrev pub source_number : HardwareIdentitySource → ℕ
source_number HardwareIdentitySource.macos_io_kit_serial = 0
source_number HardwareIdentitySource.linux_machine_id = 1
source_number HardwareIdentitySource.linux_gpu_uuid = 2
source_number HardwareIdentitySource.windows_nvml_uuid = 3
source_number HardwareIdentitySource.windows_nvml_serial = 4
source_number HardwareIdentitySource.manual = 5
source_number HardwareIdentitySource.synthetic = 6

abbrev pub source_of : ℕ → HardwareIdentitySource
source_of n =
    if n == 0
    then HardwareIdentitySource.macos_io_kit_serial
    else if n == 1
    then HardwareIdentitySource.linux_machine_id
    else if n == 2
    then HardwareIdentitySource.linux_gpu_uuid
    else if n == 3
    then HardwareIdentitySource.windows_nvml_uuid
    else if n == 4
    then HardwareIdentitySource.windows_nvml_serial
    else if n == 5
    then HardwareIdentitySource.manual
    else HardwareIdentitySource.synthetic

unfoldable pub source_of-source_number :
    (s : HardwareIdentitySource) → source_of (source_number s) ≡ s
source_of-source_number HardwareIdentitySource.macos_io_kit_serial = refl
source_of-source_number HardwareIdentitySource.linux_machine_id = refl
source_of-source_number HardwareIdentitySource.linux_gpu_uuid = refl
source_of-source_number HardwareIdentitySource.windows_nvml_uuid = refl
source_of-source_number HardwareIdentitySource.windows_nvml_serial = refl
source_of-source_number HardwareIdentitySource.manual = refl
source_of-source_number HardwareIdentitySource.synthetic = refl

abbrev pub attribution_value : PidEnergyAttribution → Value
attribution_value a = object (
    field (text "pid") (number a.pid) (
      field (text "window_start_ns") (number a.window_start_ns) (
        field (text "window_end_ns") (number a.window_end_ns) (
          field (text "burst_power_uw") (number a.burst_power_uw) (
            field (text "attributed_energy_uj") (number a.attributed_energy_uj)
              (field (text "hardware_signature") (string a.hardware_signature) end))))))

abbrev pub attribution_items : List PidEnergyAttribution → Items
attribution_items [] = nil
attribution_items (a ∷ l) = cons (attribution_value a) (attribution_items l)

abbrev pub identity_value : HardwareIdentity → Value
identity_value i = object (
    field (text "fingerprint") (string i.fingerprint)
      (field (text "source") (number (source_number i.source)) end))

abbrev pub payload_value : AmalgafySealPayload → Value
payload_value p = object (
    field (text "manifest_version") (number p.manifest_version) (
      field (text "hardware_serial") (string p.hardware_serial) (
        field (text "hardware_identity") (identity_value p.hardware_identity) (
          field (text "sealed_at_unix_ns") (number p.sealed_at_unix_ns) (
            field (text "total_micro_joules") (number p.total_micro_joules)
              (field (text "attributions") (array (attribution_items p.attributions)) end))))))

-- The text of a value in front of a rest.
unfoldable mutual
  pub print : Value → Bytes → Bytes
  print null r = r
  print (bool b) r = r
  print (number n) r = n ∷ r
  print (string s) r = length s ∷ (s ++ r)
  print (array items) r = count items ∷ print_items items r
  print (object m) r = print_fields m r

  pub print_items : Items → Bytes → Bytes
  print_items nil r = r
  print_items (cons v items) r = print v (print_items items r)

  pub print_fields : Fields → Bytes → Bytes
  print_fields end r = r
  print_fields (field k v m) r = print v (print_fields m r)

  pub count : Items → ℕ
  count nil = 0
  count (cons v items) = suc (count items)

unfoldable pub take_text : ℕ → Bytes → Option (Text × Bytes)
take_text zero r = some ([], r)
take_text (suc n) [] = none
take_text (suc n) (c ∷ r) = elim (take_text n r) [
  | some (s, rest) ↦ some (c ∷ s, rest)
  | none ↦ none
]

unfoldable pub parse_text : Bytes → Option (Text × Bytes)
unfolding take_text
parse_text [] = none
parse_text (n ∷ r) = take_text n r

unfoldable pub parse_attribution : Bytes → Option (PidEnergyAttribution × Bytes)
unfolding parse_text
parse_attribution (energy ∷ burst ∷ r) = elim (parse_text r) [
  | some (signature, (pid ∷ last ∷ start ∷ rest)) ↦ some (
    (record {
      pid = pid;
      window_start_ns = start;
      window_end_ns = last;
      burst_power_uw = burst;
      attributed_energy_uj = energy;
      hardware_signature = signature;
    }),
    rest,
  )
  | other ↦ none
]
parse_attribution other = none

unfoldable pub parse_attributions : ℕ → Bytes → Option (List PidEnergyAttribution × Bytes)
unfolding parse_attribution
parse_attributions zero r = some ([], r)
parse_attributions (suc n) r = elim (parse_attribution r) [
  | some (a, rest) ↦ elim (parse_attributions n rest) [
    | some (l, end_of) ↦ some (a ∷ l, end_of)
    | none ↦ none
  ]
  | none ↦ none
]

unfoldable pub parse_payload : Bytes → Option AmalgafySealPayload
unfolding parse_attributions
parse_payload [] = none
parse_payload (n ∷ r) = elim (parse_attributions n r) [
  | some (l, r1) ↦ elim (parse_text r1) [
    | some (fingerprint, (source ∷ r2)) ↦ elim (parse_text r2) [
      | some (serial, (version ∷ sealed_at ∷ total ∷ r3)) ↦ some (record {
        manifest_version = version;
        hardware_serial = serial;
        hardware_identity = record { fingerprint = fingerprint; source = source_of source };
        sealed_at_unix_ns = sealed_at;
        total_micro_joules = total;
        attributions = l;
      })
      | other ↦ none
    ]
    | other ↦ none
  ]
  | none ↦ none
]
