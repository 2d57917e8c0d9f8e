-- ===== src/Matrix.antt =====
-- The data that state resolution and authorisation work on: errors, events, contents, room versions.
mod Errors
mod Contents
mod Events
mod Foreign
pub use Errors.*
pub use Contents.*
pub use Events.*
unfoldable pub use Foreign.*
