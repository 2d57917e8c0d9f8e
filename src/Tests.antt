-- ===== src/Tests.antt =====
-- Runs of the model at concrete events, and instances of its theorems.
mod Data
mod Auth
mod Levels
mod Members
mod Resolve
mod Layers
mod Sending
mod Codecs
mod Bounds
mod Typing
mod Rooms
mod Values
mod Sorts
