-- ===== src/Windows/Strings.antt =====
-- The texts that src/providers/windows.rs reads from NVML. What a call writes into a buffer of a given
-- size is an argument, with the NUL that ends it; `to_string_lossy` is the library's.
use micro_joule_attribution.Base.{ℕ, ◌++◌, List, Option, none, some}
use micro_joule_attribution.Base.Texts.{Text, text}
use micro_joule_attribution.Base.Decimal.{decimal}
use micro_joule_attribution.Base.Results.{Result, ok, Error, ◌>>=◌}
use micro_joule_attribution.CoreFoundation.{until_nul}
use micro_joule_attribution.Windows.{Answer, check_nvml}

abbrev pub nvml_device_uuid_buffer_size : ℕ
nvml_device_uuid_buffer_size = 80

abbrev pub nvml_device_serial_buffer_size : ℕ
nvml_device_serial_buffer_size = 30

module _ (to_string_lossy : List ℕ → Text) where
  unfoldable pub read_nvml_serial : Answer (ℕ → List ℕ) → Result Text Error
  unfolding check_nvml until_nul
  read_nvml_serial a = do
    checked ← check_nvml a.code
    ok (to_string_lossy (until_nul (a.value nvml_device_serial_buffer_size)))

  unfoldable pub read_nvml_uuid : Answer (ℕ → List ℕ) → Result Text Error
  unfolding check_nvml until_nul
  read_nvml_uuid a = do
    checked ← check_nvml a.code
    ok (to_string_lossy (until_nul (a.value nvml_device_uuid_buffer_size)))

  -- A code that NVML has no text for is printed as a number.
  unfoldable pub nvml_error_string : ℕ → Option (List ℕ) → Text
  unfolding until_nul
  nvml_error_string code none = text "nvml error " ++ decimal code
  nvml_error_string code (some bytes) = to_string_lossy (until_nul bytes)
