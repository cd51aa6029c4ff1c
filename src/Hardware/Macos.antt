-- ===== src/Hardware/Macos.antt =====
-- The probe of macOS in src/core/hardware.rs: the serial number that IOKit has for the platform, with
-- the objects that are created and released on the way. What a call answers is an argument.
pub mod Release
use micro_joule_attribution.Base.{ℕ, List, [], ◌∷◌, ◌++◌, Option, none, some, ◌==◌, if◌then◌else◌}
use micro_joule_attribution.Base.Texts.{Text}
use micro_joule_attribution.Base.Results.{Result, ok, err, Error, ◌>>=◌}
use micro_joule_attribution.CoreFoundation.{
  Handle, Event, create, access, release, owning, CfString, cfstring_to_string,
}
use micro_joule_attribution.Hardware.{HardwareIdentity, HardwareIdentitySource}

-- `none` for a null pointer, and for a service of zero.
pub record IoKitAnswers : Type 0 where
  pub matching : Option Handle
  pub service : Option Handle
  pub key : Option Handle
  pub property : Option CfString
  pub release_code : ℕ

abbrev pub k_io_return_success : ℕ
k_io_return_success = 0

-- `IOObjectRelease` by the code that it answers: one that is not a success has used the object and left
-- the reference, as the warning of the source says.
unfoldable pub io_object_release : Handle → ℕ → Event
io_object_release service code =
    if code == k_io_return_success then release service else access service

module _ (to_string_lossy : List ℕ → Text) where
  -- The calls on the service with the key, up to the release of both the service and the property.
  unfoldable pub read_property :
      Handle → ℕ → Option CfString → Handle → List Event × Result Text Error
  unfolding cfstring_to_string io_object_release
  read_property service code none key =
      (access service ∷ access key ∷ io_object_release service code ∷ [], err Error.io_kit)
  read_property service code (some property) key =
      let (events, serial) = cfstring_to_string to_string_lossy (some property) in
      (
        access service
            ∷ access key
            ∷ create property.handle
            ∷ io_object_release service code
            ∷ (events ++ release property.handle ∷ []),
        serial,
      )

  unfoldable pub read_service :
      Option Handle → ℕ → Option Handle → Option CfString → List Event × Result Text Error
  unfolding owning read_property
  read_service none code key property = ([], err Error.io_kit)
  read_service (some service) code key property =
      let (events, serial) =
        owning key (err Error.cf_string) (read_property service code property) in
      (create service ∷ events, serial)

  -- `IOServiceGetMatchingService` takes the reference to the matching dictionary.
  unfoldable pub read_platform_serial : IoKitAnswers → List Event × Result Text Error
  unfolding read_service
  read_platform_serial a = elim a.matching [
    | none ↦ ([], err Error.io_kit)
    | some matching ↦
        let (events, serial) = read_service a.service a.release_code a.key a.property in
        (create matching ∷ access matching ∷ release matching ∷ events, serial)
  ]

  unfoldable pub probe_macos : IoKitAnswers → List Event × Result HardwareIdentity Error
  unfolding read_platform_serial
  probe_macos a =
      let (events, serial) = read_platform_serial a in
      (
        events,
        serial >>= λ fingerprint. ok (record {
          fingerprint = fingerprint;
          source = HardwareIdentitySource.macos_io_kit_serial;
        }),
      )
