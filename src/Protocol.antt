-- ===== src/Protocol.antt =====
-- qcp/src/protocol: the compatibility levels, the variant values with their tags, the framing of
-- messages, and the control messages of the two sides.
pub mod Compat
pub mod Variant
pub mod DataTag
pub mod Framing
pub mod Control
