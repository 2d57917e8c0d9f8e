-- ===== src/Pdu.antt =====
-- The identification of events in a room's timeline: src/core/matrix/pdu.
pub mod Counts
pub mod Ids
pub mod Keys
pub mod Ordering
