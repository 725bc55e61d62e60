-- ===== src/Tests.antt =====
-- Runs of the modelled code at concrete inputs.
pub mod Wire
pub mod Setup
pub mod Reading
pub mod Jobs
pub mod Disk
pub mod Handshake
pub mod Listing
pub mod Laptop
pub mod Copying
pub mod Sessions
pub mod Timing
pub mod Trees
