-- ===== src/Windows/Processes/Growth.antt =====
-- The growth of the buffer in `sample_compute_processes` of src/providers/windows.rs.
use micro_joule_attribution.Base.{
  ℕ, zero, suc, ◌+◌, ◌-◌, ◌%◌, ◌^◌, ◌≤◌, ◌<◌, ◌≡◌, ◌∙◌, refl, true, false, arith, List, [], leb,
  ltb, if◌then◌else◌, length, ◌⊎◌,
}
use micro_joule_attribution.Base.Results.{Result, ok, Error}
use micro_joule_attribution.Windows.{
  NvmlProcessInfoV3, Scratch, nvml_success, nvml_error_insufficient_size,
}
use micro_joule_attribution.Windows.Processes.{
  ProcessesAnswer, Run, returned, running, Allocator, reserve, sample_compute_processes,
}

-- NVML with a fixed set of processes: it writes them all, or asks for room for all.
abbrev pub steady : List NvmlProcessInfoV3 → ℕ → ℕ → ProcessesAnswer
steady procs call capacity =
    if ltb capacity (length procs)
    then record { code = nvml_error_insufficient_size; count = length procs; infos = [] }
    else record { code = nvml_success; count = length procs; infos = procs }

module _ (alloc : Allocator) (procs : List NvmlProcessInfoV3) where
  -- A buffer of a capacity below 2^32 with room for all the processes is filled by the first call
  -- of NVML, and the processes are returned.
  pub sample_fits :
      (fuel call : ℕ) (scratch : Scratch)
      → scratch.capacity < 2 ^ 32
      → length procs ≤ scratch.capacity
      → sample_compute_processes alloc (suc fuel) (steady procs) call scratch
        ≡ returned (record scratch { items = procs }, ok procs)
  unfolding sample_compute_processes
  sample_fits fuel call scratch small fits =
      let same : scratch.capacity % 2 ^ 32 ≡ scratch.capacity = omega arith in
      let room : ltb scratch.capacity (length procs) ≡ false = ground arith in rw (same, room)

  again-eq :
      (fuel call : ℕ) (scratch : Scratch)
      → scratch.capacity < 2 ^ 32
      → scratch.capacity < length procs
      → sample_compute_processes alloc (suc fuel) (steady procs) call scratch
        ≡ sample_compute_processes alloc fuel
            (steady procs)
            (suc call)
            (reserve alloc scratch (length procs - scratch.capacity))
  unfolding sample_compute_processes
  again-eq fuel call scratch small short =
      let same : scratch.capacity % 2 ^ 32 ≡ scratch.capacity = omega arith in
      let no_room : ltb scratch.capacity (length procs) ≡ true = ground arith in
      let asks_more : ltb (length procs) scratch.capacity ≡ false = ground arith in
      rw (same, no_room, asks_more)

  -- The request counts from the length, so it may be met already: then nothing is allocated.
  reserve_idle :
      (scratch : Scratch) (additional : ℕ)
      → length scratch.items + additional ≤ scratch.capacity
      → reserve alloc scratch additional ≡ scratch
  unfolding reserve
  reserve_idle scratch additional h =
      let met : leb (length scratch.items + additional) scratch.capacity ≡ true = ground arith in
      rw met

  -- The buffer has room for less than 2^32 elements and for fewer than there are processes, and
  -- yet the room that the code asks of `reserve` is there already: the loop is still running
  -- after any number of rounds.
  pub sample_stuck :
      (fuel call : ℕ) (scratch : Scratch)
      → scratch.capacity < 2 ^ 32
      → scratch.capacity < length procs
      → length scratch.items + (length procs - scratch.capacity) ≤ scratch.capacity
      → sample_compute_processes alloc fuel (steady procs) call scratch ≡ running
  unfolding sample_compute_processes
  sample_stuck zero call scratch small short met = refl
  sample_stuck (suc fuel) call scratch small short met =
      again-eq fuel call scratch small short
      ∙ rw (reserve_idle scratch (length procs - scratch.capacity) met)
          (sample_stuck fuel (suc call) scratch small short met)

  -- All the processes are returned, in a buffer with room for them.
  abbrev pub ListsAll : Run (Scratch × Result (List NvmlProcessInfoV3) Error) → Type 0
  ListsAll run =
      (capacity : ℕ) × (length procs ≤ capacity)
      × (run ≡ returned (record { items = procs; capacity = capacity }, ok procs))

  -- The run returns in these rounds, or in no number of them.
  abbrev pub Decided : ℕ → ℕ → Scratch → Type 0
  Decided fuel call scratch =
      ListsAll (sample_compute_processes alloc fuel (steady procs) call scratch)
      ⊎ ((more : ℕ) → sample_compute_processes alloc more (steady procs) call scratch ≡ running)
