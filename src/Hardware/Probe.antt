-- ===== src/Hardware/Probe.antt =====
-- The Linux probe of src/core/hardware.rs, with its fall-back.
use micro_joule_attribution.Base.{
  ◌≡◌, ◌≢◌, ◌↔◌, refl, sym, ◌∙◌, List, [], ◌∷◌, Option, none, some, Option-cases, inl, inr,
  if◌then◌else◌, All,
}
use micro_joule_attribution.Base.Texts.{Text, text}
use micro_joule_attribution.Base.Parse.{trim}
use micro_joule_attribution.Base.Results.{map_option}
use micro_joule_attribution.Hardware.{
  HardwareIdentitySource, Host, is_empty, non_blank, read_gpu_uuid, first_uuid, probe_linux, probe,
  synthetic_identity,
}

abbrev gpu_files : Option (List (Option Text)) → List (Option Text)
gpu_files none = []
gpu_files (some files) = files

abbrev pub IsBlank : Option Text → Type 0
IsBlank file = non_blank file ≡ none

none-some : {s : Text} → none ≢ some s
none-some e = cc

-- The files that identify the host, in the order in which they are tried.
abbrev pub id_files : Host → List (Option Text)
id_files h = h.machine_id_file ∷ gpu_files h.gpu_uuid_files

filled-of_is_empty : (t s : Text) → (if is_empty t then none else some t) ≡ some s → s ≢ []
unfolding is_empty
filled-of_is_empty [] s e = cc
filled-of_is_empty (c ∷ t) s e = cc

non_blank-filled : (file : Option Text) (s : Text) → non_blank file ≡ some s → s ≢ []
unfolding non_blank
non_blank-filled none s e = cc
non_blank-filled (some raw) s e = filled-of_is_empty (trim raw) s e

first_uuid_found :
    (file : Option Text) (files : List (Option Text)) (t : Text)
    → non_blank file ≡ some t
    → first_uuid (file ∷ files) ≡ some t
unfolding first_uuid
first_uuid_found file files t h = rw (h, first_uuid)

first_uuid_next :
    (file : Option Text) (files : List (Option Text))
    → non_blank file ≡ none
    → first_uuid (file ∷ files) ≡ first_uuid files
unfolding first_uuid
first_uuid_next file files h = rw (h, first_uuid)

first_uuid-filled : (files : List (Option Text)) (s : Text) → first_uuid files ≡ some s → s ≢ []
unfolding first_uuid
first_uuid-filled [] s e = cc
first_uuid-filled (file ∷ files) s e = elim (Option-cases (non_blank file)) [
  | inl h ↦ first_uuid-filled files s (sym (first_uuid_next file files h) ∙ e)
  | inr (t, h) ↦ non_blank-filled file s (h ∙ sym (first_uuid_found file files t h) ∙ e)
]

first_uuid-none : (files : List (Option Text)) → first_uuid files ≡ none → All IsBlank files
unfolding first_uuid
first_uuid-none [] e = tt
first_uuid-none (file ∷ files) e = elim (Option-cases (non_blank file)) [
  | inl h ↦ (h, first_uuid-none files (sym (first_uuid_next file files h) ∙ e))
  | inr (t, h) ↦ absurd (none-some (sym e ∙ first_uuid_found file files t h))
]

first_uuid_blank : (files : List (Option Text)) → All IsBlank files → first_uuid files ≡ none
unfolding first_uuid
first_uuid_blank [] a = refl
first_uuid_blank (file ∷ files) (h, a) = first_uuid_next file files h ∙ first_uuid_blank files a

synthetic-filled : (h : Host) (reason : Text) → (synthetic_identity h reason).fingerprint ≢ []
unfolding synthetic_identity
synthetic-filled h reason e = cc

read_gpu_uuid-eq : (h : Host) → read_gpu_uuid h ≡ first_uuid (gpu_files h.gpu_uuid_files)
unfolding read_gpu_uuid
read_gpu_uuid-eq h = by_listing h.gpu_uuid_files refl
  where
    by_listing :
        (o : Option (List (Option Text)))
        → h.gpu_uuid_files ≡ o
        → read_gpu_uuid h ≡ first_uuid (gpu_files o)
    by_listing none e = rw (e, read_gpu_uuid)
    by_listing (some files) e = rw (e, read_gpu_uuid)

probe-machine :
    (h : Host) (id : Text)
    → non_blank h.machine_id_file ≡ some id
    → probe_linux h
      ≡ some (record { fingerprint = id; source = HardwareIdentitySource.linux_machine_id })
unfolding probe_linux
probe-machine h id e = rw (e, probe_linux)

probe-gpu :
    (h : Host) (uuid : Text)
    → non_blank h.machine_id_file ≡ none
    → first_uuid (gpu_files h.gpu_uuid_files) ≡ some uuid
    → probe_linux h
      ≡ some (record { fingerprint = uuid; source = HardwareIdentitySource.linux_gpu_uuid })
unfolding probe_linux
probe-gpu h uuid e f = rw (e, read_gpu_uuid-eq h ∙ f, probe_linux)

probe-nothing :
    (h : Host)
    → non_blank h.machine_id_file ≡ none
    → first_uuid (gpu_files h.gpu_uuid_files) ≡ none
    → probe_linux h ≡ none
unfolding probe_linux
probe-nothing h e f = rw (e, read_gpu_uuid-eq h ∙ f, probe_linux)

-- The Linux probe takes the first file that holds more than white space, `/etc/machine-id` before
-- the GPUs' in the order of their listing. With its fall-back it always answers, the fingerprint
-- is never empty, and the source is the synthetic one exactly when every file is unreadable or
-- blank.
pub probe_linux_lem :
    (h : Host)
    → (map_option (λ i. i.fingerprint) (probe_linux h) ≡ first_uuid (id_files h))
      × ((probe h (probe_linux h)).fingerprint ≢ [])
      × ((probe h (probe_linux h)).source ≡ HardwareIdentitySource.synthetic
          ↔ All IsBlank (id_files h))
unfolding probe synthetic_identity
probe_linux_lem h = elim (Option-cases (non_blank h.machine_id_file)) [
  | inr (id, e) ↦
      rw (probe-machine h id e, first_uuid_found _ (gpu_files h.gpu_uuid_files) id e)
        (refl, non_blank-filled _ id e, ((λ s. cc), λ a. absurd (none-some (sym a.0 ∙ e))))
  | inl e ↦ elim (Option-cases (first_uuid (gpu_files h.gpu_uuid_files))) [
    | inr (uuid, f) ↦
        rw (probe-gpu h uuid e f, first_uuid_next _ (gpu_files h.gpu_uuid_files) e, f)
          (
            refl,
            first_uuid-filled _ uuid f,
            ((λ s. cc), λ a. absurd (none-some (sym (first_uuid_blank _ a.1) ∙ f))),
          )
    | inl f ↦
        rw (probe-nothing h e f, first_uuid_next _ (gpu_files h.gpu_uuid_files) e, f)
          (
            refl,
            synthetic-filled h (text "probe_failed"),
            ((λ s. (e, first_uuid-none _ f)), λ a. refl),
          )
  ]
]
