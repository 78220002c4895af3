-- ===== src/Wire.antt =====
-- detail/: from commands to the bytes of a connection and back.
pub mod Conversion
pub mod Parser
pub mod Connection
