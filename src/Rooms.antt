-- ===== src/Rooms.antt =====
-- What the server stores of its rooms, beside the states: src/service/rooms.
pub mod Counter
pub mod Metadata
pub mod Members
pub mod Short
