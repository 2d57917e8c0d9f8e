-- ===== src/Database.antt =====
-- How the tuples that are keys and values of the database are written and read (src/database).
pub mod Ser
pub mod De
pub mod Written
pub mod RoundTrip
