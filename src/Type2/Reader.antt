-- ===== src/Type2/Reader.antt =====
-- The reader of src/type2/reader.rs, `T2TReader`.
pub mod State
pub mod Link
pub mod DataArea
pub mod Writer
pub mod Ndef
pub mod Triple
pub mod Valid
pub mod Sector
pub mod Exchange
pub mod Pages
pub mod Selection
pub mod Reading
pub mod ReadingNdef
pub mod Writing
pub mod WritingNdef
pub mod Offset
pub mod Located
pub mod Filled
pub mod Safety
pub mod Recovering
pub mod Recovery
pub mod Recovered
pub mod Failure
pub mod OnTag
