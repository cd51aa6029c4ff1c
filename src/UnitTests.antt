-- ===== src/UnitTests.antt =====
-- The unit tests of the crate: each is a definition under the name of the test, with one factor for each
-- assertion, and a theorem that it holds. Where a test uses the registry it holds for every skip list.
pub mod Attribution
pub mod Registry
pub mod Provider
pub mod Signer
pub mod Threads
pub mod Providers
