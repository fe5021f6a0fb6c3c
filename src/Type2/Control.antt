-- ===== src/Type2/Control.antt =====
-- The Lock Control and Memory Control values of src/type2/tlv.rs.
mod Defs
pub mod Address
pub mod Lock
pub mod Memory
pub use Defs.{LockControlValue, MemoryControlValue, Bytes3, div_ceil8}
