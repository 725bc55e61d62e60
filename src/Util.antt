-- ===== src/Util.antt =====
-- The helpers of qcp/src/util that carry logic of their own.
pub mod FilePath
pub mod PortRange
pub mod Stopwatch
