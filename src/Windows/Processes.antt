-- ===== src/Windows/Processes.antt =====
-- `sample_compute_processes` of src/providers/windows.rs: the loop that asks NVML for the compute
-- processes until its buffer is large enough. The loop has no bound of its own, so it runs on fuel.
pub mod Growth
use micro_joule_attribution.Base.{
  ℕ, zero, suc, ◌+◌, ◌-◌, ◌%◌, ◌^◌, List, leb, ltb, ◌==◌, if◌then◌else◌, length, true, ◌≡◌,
}
use micro_joule_attribution.Base.Results.{Result, ok, err, Error}
use micro_joule_attribution.Windows.{
  NvmlProcessInfoV3, NvmlComputeProcess, Scratch, nvml_success, nvml_error_insufficient_size,
}

-- What a call of `nvmlDeviceGetComputeRunningProcesses_v3` answers: its code, the count that it
-- wrote, and the records that it wrote.
pub record ProcessesAnswer : Type 0 where
  pub code : ℕ
  pub count : ℕ
  pub infos : List NvmlProcessInfoV3

-- A function that returned, one that panicked, and one that is still looping.
pub data Run (A : Type 0) : Type 0 where
  returned : A → Run A
  panicked : Run A
  running : Run A

-- How much a `Vec` of the given capacity allocates where `required` elements do not fit: at least
-- `required`, and the rest is its own choice.
pub record Allocator : Type 0 where
  pub grow : ℕ → ℕ → ℕ
  pub grow_enough : (capacity required : ℕ) → leb required (grow capacity required) ≡ true

module _ (alloc : Allocator) where
  -- `Vec::reserve`: room for `additional` elements beyond the length, not beyond the capacity.
  unfoldable pub reserve : Scratch → ℕ → Scratch
  reserve scratch additional =
      let required = length scratch.items + additional in
      if leb required scratch.capacity
      then scratch
      else record scratch { capacity = alloc.grow scratch.capacity required }

  -- One call, by its number and the capacity that it is told: NVML's answer.
  -- A count below the capacity underflows: that panics, or asks `reserve` for more than memory can
  -- hold, which panics too.
  unfoldable pub sample_compute_processes :
      ℕ
      → (ℕ → ℕ → ProcessesAnswer)
      → ℕ
      → Scratch
      → Run (Scratch × Result (List NvmlProcessInfoV3) Error)
  sample_compute_processes zero nvml call scratch = running
  sample_compute_processes (suc fuel) nvml call scratch =
      let again = sample_compute_processes fuel nvml (suc call) in
      let answer = nvml call (scratch.capacity % 2 ^ 32) in
      if answer.code == nvml_error_insufficient_size
      then (if ltb answer.count scratch.capacity
          then panicked
          else again (reserve scratch (answer.count - scratch.capacity)))
      else (if answer.code == nvml_success
          then returned (record scratch { items = answer.infos }, ok answer.infos)
          else returned (scratch, err (Error.nvml answer.code)))
