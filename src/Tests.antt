-- ===== src/Tests.antt =====
-- The theorems at concrete values, with an ordered map in the place of the skip list.
pub mod Tables
pub mod Arithmetic
pub mod Registries
pub mod Races
pub mod Sampling
pub mod Linux
pub mod Windows
pub mod Apple
pub mod Keys
pub mod Encodings
pub mod Parsing
pub mod Payloads
pub mod Seals
pub mod Handles
pub mod Removals
