-- ===== src/Type2/Reader/OnTag.antt =====
-- The reader of src/type2/reader.rs on a tag that is a memory.
pub mod Coherent
pub mod Selecting
pub mod Exchanging
pub mod Pages
pub mod Storing
pub mod DataBytes
pub mod Blocks
pub mod Reading
pub mod Overwrite
pub mod Page
pub mod Frame
pub mod Writing
pub mod WritingPage
pub mod WritingLoop
pub mod Contents
pub mod Message
pub mod ReadingNdef
pub mod Checks
pub mod WritingNdef
pub mod Promises
pub mod Restored
pub mod Holding
pub mod Replaced
pub mod Payload
pub mod Placed
pub mod Region
pub mod Renewed
pub mod Replacing
