-- ===== src/Client.antt =====
-- qcp/src/client: the copy jobs that the user asks for, and the loop that carries them out.
pub mod Job
pub mod Jobspecs
pub mod Paths
pub mod Recursive
pub mod Transfers
