-- ===== src/Session.antt =====
-- qcp/src/session and qcp/src/protocol/session: the commands on a stream of a connection.
pub mod Attributes
pub mod Directories
pub mod Effects
pub mod Exchange
pub mod Files
pub mod Messages
pub mod Put
pub mod Requests
pub mod Transfer
pub mod Get
pub mod List
pub mod Listing
