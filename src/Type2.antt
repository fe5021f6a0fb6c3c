-- ===== src/Type2.antt =====
-- src/type2/: the Type 2 Tag.
pub mod Error
pub mod Cc
pub mod Command
pub mod Geometry
pub mod Control
pub mod Tlv
pub mod Memory
pub mod Scanner
pub mod TagMemory
pub mod Reader
