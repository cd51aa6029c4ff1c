-- ===== src/Hardware.antt =====
-- src/core/hardware.rs: the identity of the machine that a seal is bound to. What a probe reads
-- from the host is a `Host`: a variable or a file is `none` where reading it fails.
pub mod Probe
pub mod Macos
use micro_joule_attribution.Base.{
  ℕ, ◌++◌, List, [], ◌∷◌, Option, none, some, Bool, true, false, if◌then◌else◌,
}
use micro_joule_attribution.Base.Texts.{Text, text}
use micro_joule_attribution.Base.Parse.{trim}
use micro_joule_attribution.Base.Decimal.{decimal}
use micro_joule_attribution.Base.Results.{Result, ok, err, Error}

pub data HardwareIdentitySource : Type 0 where
  macos_io_kit_serial : HardwareIdentitySource
  linux_machine_id : HardwareIdentitySource
  linux_gpu_uuid : HardwareIdentitySource
  windows_nvml_uuid : HardwareIdentitySource
  windows_nvml_serial : HardwareIdentitySource
  manual : HardwareIdentitySource
  synthetic : HardwareIdentitySource

pub record HardwareIdentity : Type 0 where
  pub fingerprint : Text
  pub source : HardwareIdentitySource

-- The name that `Debug` prints.
unfoldable pub source_name : HardwareIdentitySource → Text
source_name HardwareIdentitySource.macos_io_kit_serial = text "MacosIoKitSerial"
source_name HardwareIdentitySource.linux_machine_id = text "LinuxMachineId"
source_name HardwareIdentitySource.linux_gpu_uuid = text "LinuxGpuUuid"
source_name HardwareIdentitySource.windows_nvml_uuid = text "WindowsNvmlUuid"
source_name HardwareIdentitySource.windows_nvml_serial = text "WindowsNvmlSerial"
source_name HardwareIdentitySource.manual = text "Manual"
source_name HardwareIdentitySource.synthetic = text "Synthetic"

-- `Display`
unfoldable pub fmt : HardwareIdentity → Text
unfolding source_name
fmt identity =
    identity.fingerprint ++ (text " (source: " ++ (source_name identity.source ++ text ")"))

pub record Host : Type 0 where
  pub hostname_var : Option Text
  pub computername_var : Option Text
  pub hostname_file : Option Text
  pub process_id : ℕ
  pub machine_id_file : Option Text
  -- `none` if `/sys/class/drm` cannot be listed; else the file `device/uuid` of each entry.
  pub gpu_uuid_files : Option (List (Option Text))

unfoldable pub is_empty : Text → Bool
is_empty [] = true
is_empty (c ∷ s) = false

unfoldable pub manual_identity : Text → HardwareIdentity
manual_identity fingerprint = record {
  fingerprint = fingerprint;
  source = HardwareIdentitySource.manual;
}

-- The first of the three that can be read; the file is trimmed.
unfoldable pub host_name : Host → Text
host_name h = elim h.hostname_var [
  | some name ↦ name
  | none ↦ elim h.computername_var [
    | some name ↦ name
    | none ↦ elim h.hostname_file [ some name ↦ trim name | none ↦ text "unknown-host" ]
  ]
]

unfoldable pub synthetic_identity : Host → Text → HardwareIdentity
unfolding host_name is_empty
synthetic_identity h reason =
    let name = trim (host_name h) in
    let host = if is_empty name then text "unknown-host" else name in
    record {
      fingerprint =
          text "synthetic:"
          ++ reason
          ++ text ":host="
          ++ host
          ++ text ":pid="
          ++ decimal h.process_id;
      source = HardwareIdentitySource.synthetic;
    }

-- A file that must hold more than white space.
unfoldable pub non_blank : Option Text → Option Text
unfolding is_empty
non_blank none = none
non_blank (some raw) = let trimmed = trim raw in if is_empty trimmed then none else some trimmed

-- The loop over the entries: the first file that holds more than white space.
unfoldable pub first_uuid : List (Option Text) → Option Text
unfolding non_blank
first_uuid [] = none
first_uuid (file ∷ files) = elim (non_blank file) [
  | some uuid ↦ some uuid
  | none ↦ first_uuid files
]

unfoldable pub read_gpu_uuid : Host → Option Text
unfolding first_uuid
read_gpu_uuid h = elim h.gpu_uuid_files [ some files ↦ first_uuid files | none ↦ none ]

-- The Linux probe; its error carries no more than that there was one.
unfoldable pub probe_linux : Host → Option HardwareIdentity
unfolding non_blank read_gpu_uuid
probe_linux h = elim (non_blank h.machine_id_file) [
  | some id ↦ some (record { fingerprint = id; source = HardwareIdentitySource.linux_machine_id })
  | none ↦ elim (read_gpu_uuid h) [
    | some uuid ↦
        some (record { fingerprint = uuid; source = HardwareIdentitySource.linux_gpu_uuid })
    | none ↦ none
  ]
]

-- `try_probe` of the platform, with the fall-back.
unfoldable pub probe : Host → Option HardwareIdentity → HardwareIdentity
unfolding synthetic_identity
probe h (some identity) = identity
probe h none = synthetic_identity h (text "probe_failed")
