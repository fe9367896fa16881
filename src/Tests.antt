-- ===== src/Tests.antt =====
-- The theorems at inputs of the test suite and of the documentation.
pub mod Paths
pub mod Routes
pub mod Files
pub mod Services
pub mod Streams
pub mod Caches
pub mod Sites
pub mod Documents
pub mod Generated
