-- ===== src/Sending.antt =====
-- The sending service (src/service/sending): the destinations and their keys in the tables, the
-- tables of queued and of active requests, and the worker that sends them.
pub mod Keys
pub mod Destinations
pub mod Codec
pub mod Rows
pub mod Scan
pub mod Backoff
pub mod Sender
