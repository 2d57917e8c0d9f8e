-- ===== src/State.antt =====
-- Room state: its compressed form in layers of differences (service/rooms/state_compressor/mod.rs).
pub mod Layers
