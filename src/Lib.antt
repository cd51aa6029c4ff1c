-- ===== src/Lib.antt =====
-- A model of the Micro-Joule Attribution Engine (MJAE), the Rust crate under src/: it attributes the
-- energy that a machine uses to processes, in micro-joules, and keeps the totals by PID.
--
-- The parts and how they interact. A provider (src/providers) samples the hardware and answers power
-- snapshots, attributions to PIDs, and the PIDs that are active. The sampling loop
-- (src/core/provider.rs) turns two consecutive snapshots into a delta of energy and splits it between
-- the active PIDs; a provider can also buffer attributions and drain them. Both end in the registry
-- (src/core/registry.rs), a concurrent ordered map from PIDs to totals. The arithmetic that all share
-- is src/core/attribution.rs. The attributions of a window leave the machine in a seal, which is signed
-- over their canonical JSON together with the identity of the machine (src/core/signer.rs,
-- src/core/hardware.rs); src/core/manifest.rs signs a single attribution in the older form.
--
-- The files:
--   Attribution: src/core/attribution.rs, one definition for each function, under its name. Window
--     and Split hold what is proved of windows of time and of divisions between processes.
--   Registry: src/core/registry.rs. `AmalgafyRegistry` is a table from PIDs to addresses, with the
--     memory behind the addresses, so an entry that has left the table still has its cell. Table is
--     the interface of the skip list, Cell the compare-and-swap loop of `saturating_add`, Laws and
--     Total the registry as a map. Race is `add_micro_joules` as a step relation with one step for
--     each shared access, for any number of concurrent calls; Race.Replay runs the same calls one after
--     the other, Race.Entries follows the entries of the table, Race.Linear compares the two, Race.Whole is
--     about the total. Race.Removal adds the two shared accesses of `remove`, with a ledger of where the
--     energy goes and a count of the accesses. A thread that makes several calls stands for as
--     many calls here, which may also overlap.
--   Provider: src/core/provider.rs. `EnergyProvider` is the trait as a record of operations; what a
--     provider reads from its surroundings in one call is an argument. Sampling is the loop of
--     `start_sampling_loop`, run on the row of its readings; Draining is the loop that the
--     `sync_registry` of every provider makes.
--   Linux: src/providers/linux.rs. Rapl and Budget are about the energy counter, Fences and Sync about
--     the correlation of fences.
--   Windows: src/providers/windows.rs. Processes is `sample_compute_processes`, Window the two ways to
--     attribute the energy of a window, Snapshots the trait implementation, Identity the probe, Strings
--     the texts of NVML. Snapshots.Running is the sampling loop over this provider, where a sample may
--     hang or panic, and Metered what that loop enters.
--   AppleSilicon: src/providers/apple_silicon.rs. Channels is the discovery of channels, Energy the
--     energy of one sample, Meter the provider under the sampling loop, Handles the objects that it
--     owns, with Balance for their references.
--   Hardware: src/core/hardware.rs, the identity of the machine, with Probe for Linux and Macos for
--     macOS; the probe of Windows is Windows.Identity.
--   CoreFoundation: the objects that the code for macOS owns, as the row of calls that create, use and
--     release them, and the export of a string. AppleSilicon.Handles and Hardware.Macos are the two
--     places of the code that own such objects.
--   Signer: src/core/signer.rs. Json is `canonicalize_value` on the values of serde_json, Same and
--     Canonical the values that differ in the order of fields and their common form. Keys and Encoding
--     are the interfaces of ed25519_dalek and of serde_json. Sealing holds what is proved of sealing
--     and verifying, Reordering of the order of the attributions.
--   Manifest: src/core/manifest.rs, with Signing for what is proved of it.
--   Base: the shared helpers: machine integers with their clamps and saturations, `Result`, and what
--     the code uses of the standard library (`BTreeMap`, `trim`, `parse`, decimal formatting).
--   UnitTests: the tests of the crate, under their names, for every skip list, key and encoding.
--   Tests: the theorems at concrete values, with an ordered list in the place of the skip list.
--
-- The conventions. A `u32` or `u64` is a native number; every operation that saturates, clamps or
-- truncates in the source does so here, and products in `u128` are plain products, which do not
-- overflow there. An operation that changes `self` returns the new state. An error keeps the place
-- that made it and not its text. A handler that only logs has no counterpart.
--
-- What stands outside the repository is a parameter. `SkipMap` of crossbeam is a record of operations
-- with the laws that its documentation states; each of them is one atomic step, and memory is
-- sequentially consistent. ed25519_dalek and serde_json are records with their documented laws: what is
-- written can be read back, and a signature that a key has made verifies; nothing is assumed of
-- signatures that no key has made. A JSON number is a natural number, as in all payloads here. The files
-- of sysfs, environment variables and the clock are fields of a reading, and the calls of NVML,
-- IOReport, IOKit and CoreFoundation are answers that they give. `Vec::reserve` allocates at least what
-- is needed, by a function of its own choice.
--
-- The bounds and fuel. The sampling loop runs for ever in the source; here it runs on the finite row
-- of its readings, which stands for any prefix of the run. `sample_compute_processes` loops without a
-- bound of its own, so it takes a number of rounds. While the processes do not change, one round and one
-- more for each process that the buffer lacks room for are enough where it returns at all; it may
-- also run for ever. `EnergyProvider` has samples that return, so its instance for Windows takes what
-- that loop has returned; Windows.Snapshots.Running has the loop itself. The compare-and-swap loop takes
-- the row of its spurious failures. A decimal takes twenty digits at most, which is enough for a u64.
--
-- Not modelled: the 100 ms timer of the runtime and the log messages; the module declarations and
-- re-exports; two of the crate's tests, one that needs a signature to be refused for another message, and
-- one that reads the text that serde_json writes. The probe of macOS and the
-- provider for Apple Silicon are modelled for what they return and for the objects that they own, not
-- for the memory behind raw pointers.
pub mod Base
pub mod Attribution
pub mod Registry
pub mod Provider
pub mod Linux
pub mod AppleSilicon
pub mod Hardware
pub mod Windows
pub mod UnitTests
pub mod Tests
pub mod CoreFoundation
pub mod Signer
pub mod Manifest
