-- ===== src/Windows.antt =====
-- src/providers/windows.rs: the Windows provider over NVML. The foreign functions are not part of
-- the repository: what a call of one of them answers is an argument. A `c_int` code and a `c_uint`
-- are native numbers.
pub mod Processes
pub mod Window
pub mod Snapshots
pub mod Identity
pub mod Strings
use micro_joule_attribution.Base.{
  ℕ, ◌*◌, ◌++◌, List, [], ◌∷◌, Option, none, some, ◌==◌, if◌then◌else◌,
}
use micro_joule_attribution.Base.Texts.{Text, text}
use micro_joule_attribution.Base.Decimal.{decimal}
use micro_joule_attribution.Base.Results.{Result, ok, err, Error, ◌>>=◌}
use micro_joule_attribution.Provider.{PidEnergyAttribution}
use micro_joule_attribution.Hardware.{HardwareIdentitySource}

abbrev pub nvml_success : ℕ
nvml_success = 0

abbrev pub nvml_error_insufficient_size : ℕ
nvml_error_insufficient_size = 7

pub record NvmlProcessInfoV3 : Type 0 where
  pub pid : ℕ
  pub used_gpu_memory : ℕ
  pub gpu_instance_id : ℕ
  pub compute_instance_id : ℕ

pub record NvmlComputeProcess : Type 0 where
  pub pid : ℕ
  pub used_gpu_memory_bytes : ℕ
  pub gpu_instance_id : ℕ
  pub compute_instance_id : ℕ

-- What a call with one output value answers: its code, and the value that it wrote.
pub record Answer {ℓ} (A : Type ℓ) : Type ℓ where
  pub code : ℕ
  pub value : A

unfoldable pub check_nvml : ℕ → Result (Unit {0}) Error
check_nvml code = if code == nvml_success then ok tt else err (Error.nvml code)

-- The value of a call that must succeed.
abbrev pub checked : {A : Type 0} → Answer A → Result A Error
unfolding check_nvml
checked a = check_nvml a.code >>= λ _. ok a.value

-- `NVML_INIT` and `NVML_INIT_RESULT`: `none` until `nvmlInit_v2` has run, then its code.
unfoldable pub ensure_nvml_initialized : Option ℕ → ℕ → Option ℕ × Result (Unit {0}) Error
unfolding check_nvml
ensure_nvml_initialized none init_code = (some init_code, check_nvml init_code)
ensure_nvml_initialized (some result) init_code = (some result, check_nvml result)

pub record GpuBusyState : Type 0 where
  pub last_sample_ns : ℕ
  pub last_pids : List ℕ

-- `Vec<NvmlProcessInfoV3>`: its contents and its capacity.
pub record Scratch : Type 0 where
  pub items : List NvmlProcessInfoV3
  pub capacity : ℕ

pub record WindowsProvider : Type 0 where
  pub hardware_signature : Text
  pub signature_source : HardwareIdentitySource
  pub device_index : ℕ
  pub busy_state : GpuBusyState
  pub compute_scratch : Scratch
  pub pending : List PidEnergyAttribution

-- What `read_nvml_serial` returns, or else what `read_nvml_uuid` does, or else a name made of the
-- index.
unfoldable pub nvml_signature :
    ℕ → Result Text Error → Result Text Error → Text × HardwareIdentitySource
nvml_signature device_index serial uuid = elim serial [
  | ok s ↦ (s, HardwareIdentitySource.windows_nvml_serial)
  | err e ↦ elim uuid [
    | ok u ↦ (u, HardwareIdentitySource.windows_nvml_uuid)
    | err f ↦ (text "nvml-device-" ++ decimal device_index, HardwareIdentitySource.synthetic)
  ]
]

abbrev pub scratch_capacity : ℕ
scratch_capacity = 32

-- `WindowsProvider::new` once NVML has been initialised.
unfoldable pub new_on_device :
    ℕ → ℕ → Result Text Error → Result Text Error → Result WindowsProvider Error
unfolding check_nvml nvml_signature
new_on_device device_index handle_code serial uuid = do
  _ ← check_nvml handle_code
  let (signature, signature_source) = nvml_signature device_index serial uuid
  ok (record {
    hardware_signature = signature;
    signature_source = signature_source;
    device_index = device_index;
    busy_state = record { last_sample_ns = 0; last_pids = [] };
    compute_scratch = record { items = []; capacity = scratch_capacity };
    pending = [];
  })

unfoldable pub new :
    Option ℕ
    → ℕ
    → ℕ
    → ℕ
    → Result Text Error
    → Result Text Error
    → Option ℕ × Result WindowsProvider Error
unfolding ensure_nvml_initialized new_on_device
new nvml_init init_code device_index handle_code serial uuid =
    let (nvml_init_result, initialized) = ensure_nvml_initialized nvml_init init_code in
    (nvml_init_result, initialized >>= λ _. new_on_device device_index handle_code serial uuid)

unfoldable pub device_count : Option ℕ → ℕ → Answer ℕ → Option ℕ × Result ℕ Error
unfolding ensure_nvml_initialized check_nvml
device_count nvml_init init_code count =
    let (nvml_init_result, initialized) = ensure_nvml_initialized nvml_init init_code in
    (nvml_init_result, initialized >>= λ _. checked count)

unfoldable pub read_power_mw : Answer ℕ → Result ℕ Error
unfolding check_nvml
read_power_mw milliwatts = checked milliwatts

unfoldable pub read_power_uw : Answer ℕ → Result ℕ Error
unfolding read_power_mw
read_power_uw milliwatts = do mw ← read_power_mw milliwatts; ok (mw * 1_000)

unfoldable pub enqueue_attribution : WindowsProvider → PidEnergyAttribution → WindowsProvider
enqueue_attribution p attribution = record p { pending = p.pending ++ attribution ∷ [] }
