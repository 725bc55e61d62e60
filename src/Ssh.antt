-- ===== src/Ssh.antt =====
-- qcp/src/config/ssh: the reader of configuration files in the style of ssh_config.
pub mod Lines
pub mod Matching
pub mod Includes
pub mod Keywords
pub mod Files
