-- ===== src/Auth.antt =====
-- Event authorisation (core/matrix/state_res/event_auth.rs and power_levels.rs).
pub mod Types
pub mod Levels
pub mod PowerEvent
pub mod Membership
pub mod Check
pub mod Creators
