-- ===== src/Windows/Identity.antt =====
-- The Windows probe of src/core/hardware.rs, and what it reads of the provider.
use micro_joule_attribution.Base.{ℕ, List, Option}
use micro_joule_attribution.Base.Texts.{Text}
use micro_joule_attribution.Base.Results.{Result, ok, Error, ◌>>=◌}
use micro_joule_attribution.Hardware.{HardwareIdentity}
use micro_joule_attribution.Windows.Strings.{read_nvml_serial, read_nvml_uuid}
use micro_joule_attribution.Windows.{WindowsProvider, Answer, new}

-- `hardware_signature_string` and `signature_source` of the provider.
unfoldable pub identity_of : WindowsProvider → HardwareIdentity
identity_of provider = record {
  fingerprint = provider.hardware_signature;
  source = provider.signature_source;
}

unfoldable pub probe_device :
    (List ℕ → Text)
    → Option ℕ
    → ℕ
    → ℕ
    → ℕ
    → Answer (ℕ → List ℕ)
    → Answer (ℕ → List ℕ)
    → Option ℕ × Result HardwareIdentity Error
unfolding identity_of new read_nvml_serial read_nvml_uuid
probe_device to_string_lossy nvml_init init_code device_index handle_code serial uuid =
    let (nvml_init_result, provider) =
      new nvml_init init_code device_index handle_code (read_nvml_serial to_string_lossy serial)
        (read_nvml_uuid to_string_lossy uuid) in
    (nvml_init_result, provider >>= λ p. ok (identity_of p))
