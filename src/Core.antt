-- ===== src/Core.antt =====
-- What the crate `core` gives to the others.
pub mod Errors
pub mod Words
pub mod Bytes
