-- ===== src/Lib.antt =====
-- Verification of nfc-forum-tags, a crate that reads and writes NDEF messages on NFC Forum Type 2
-- Tags over a transceiver that the caller supplies.
--
-- The program's parts and the files that model them, with paths from the repository's root:
--
-- * src/tag.rs, tag states and access conditions: Tag.
-- * src/tlv.rs, the length field of a TLV block: Length (parse_tlv_length, encode_tlv_length), with
--   the proofs in Length/RoundTrip.
-- * src/vec.rs, fallible buffers in the two builds of the crate: Vec (try_push, try_extend). A
--   `Build` is the default build, on a `heapless::Vec` that is a parameter with the two laws that
--   its documentation gives, or the build with the feature `alloc`.
-- * src/type2/cc.rs, the Capability Container: Type2/Cc.
-- * src/type2/mod.rs, errors, commands, answers and the trait of the transceiver: Type2/Error,
--   Type2/Command, and `Transceiver` in Type2/Reader/State.
-- * src/type2/memory.rs, addresses and the memory layout: Type2/Geometry (constants,
--   address_to_sector_block, sector_block_to_address) and Type2/Memory (LockAreas, ReservedAreas,
--   from_cc_and_tlvs, is_skip_area, usable_offset_to_address, sector_count);
--   Type2/Memory/Described says by the control values alone which bytes are to be skipped.
-- * src/type2/tlv.rs, control values and TLV blocks: Type2/Control (from_bytes, to_bytes,
--   byte_address of both values) and Type2/Tlv (parse_tlvs, to_bytes, ndef_data, value_length).
-- * src/type2/reader.rs, the reader: Type2/Scanner is `TlvScanner`, and below Type2/Reader are State
--   (the fields of `T2TReader`), Link (transceive_with_retry, read, write, sector_select,
--   force_sector_select, read_cc), DataArea (read_data_area, read_data_area_with_layout, read_ndef),
--   Writer (write_usable_bytes) and Ndef (write_ndef).
--
-- * What the reader does to a tag, below Type2/Reader/OnTag: Type2/TagMemory says how a Type 2 Tag
--   behaves behind the transceiver (`IsTag`), Coherent what the reader's fields say of it, Selecting,
--   Exchanging, Pages and Storing follow one command, DataBytes, Blocks and Reading the data area,
--   Overwrite, Page, Frame, Writing, WritingPage and WritingLoop the write of bytes, Contents,
--   ReadingNdef, Checks and WritingNdef a message, Message describes the message that a memory
--   holds, and Holding, Restored, Replaced, Payload, Placed, Region and Renewed a message that
--   replaces another; Promises and Replacing have the methods.
-- * Retries, on a device that fails a number of times: Type2/Reader/Recovering (`IsRecovering`),
--   Recovery, Recovered and Failure.
--
-- How they interact: the reader sends commands through the transceiver, parses the answers, caches
-- one READ and tracks the selected sector; read_ndef reads the container, builds a layout from it,
-- reads the usable bytes of the data area until the scanner finds the Terminator, and parses the
-- blocks; write_ndef adds up the sizes of the blocks before the NDEF Message, maps the offset through
-- the layout to an address, and writes over the usable bytes from there on.
--
-- How the code is written down. A byte, an address or a length is a natural number; a wrap-around is
-- written out, and so is a conversion that truncates. An array is a tuple or a list. A function that
-- may fail answers an `Outcome`: a value, an error, `panic` for an index out of range or an `unwrap`
-- of `None`, or `stuck`, which is no behaviour of the code: a loop of the model has used up its fuel.
-- A method on `&mut self` is an `Action`: it answers an outcome together with the reader, so that the
-- state after an error is part of the model. The transceiver may answer anything, as a function of
-- the frame and of a device state of its own; `AnswersBytes` says that its frames are made of bytes.
--
-- The tag. It is hardware, so its behaviour is a hypothesis, the record `IsTag`: a memory of bytes in
-- sectors of 1024, one of them selected; a READ answers 16 bytes of the selected sector, whose start
-- follows its end; an acknowledged WRITE stores four bytes; SECTOR SELECT selects a sector when its
-- first packet is acknowledged and silence follows the second. Any transmission may fail, with the
-- sector unknown afterwards and a WRITE carried out or not. Tests/PagedTag is such a tag. A memory
-- that ends inside a sector is not covered: there a READ goes on at the start of the memory. A reader
-- is coherent if the sector it takes for selected is selected and its cache is a copy of the memory.
--
-- Fuel. The parser has as much as the stream has bytes, and each round takes one. The loops over
-- the blocks of the tag have 65280 rounds, the blocks of the address space, and one more for
-- write_usable_bytes. The search for a usable byte has a round for each of the 261120 addresses.
-- The retries count down from `max_retries`. `Post` and `Ensures` exclude `panic` and `stuck`.
--
-- Not modelled: the text of the errors, the re-exports of src/lib.rs, `T2TReader::transceiver`, which
-- hands out the device, and the unit tests but those of the reader's exchanges: Tests/Mocks has the
-- mock transceivers of src/type2/reader.rs, and Tests/UnitTests runs their tests.
pub mod Prelude
pub mod Outcome
pub mod Vec
pub mod Tag
pub mod Length
pub mod Type2
pub mod Tests
