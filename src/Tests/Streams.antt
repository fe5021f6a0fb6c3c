-- ===== src/Tests/Streams.antt =====
-- The theorems on blocks and streams of blocks, on concrete blocks.
use nfc_forum_tags.Prelude.{
  ℕ, ◌+◌, [], ◌∷◌, ◌++◌, List, length, drop, ◌≡◌, ◌*◌, ◌^◌, refl, true, some, arith, leb,
  if◌then◌else◌, All, IsByte,
}
use nfc_forum_tags.Prelude.Bits.{pack_nibbles}
use nfc_forum_tags.Outcome.{ok, err, Ensures}
use nfc_forum_tags.Vec.{fits}
use nfc_forum_tags.Length.{max_tlv_length}
use nfc_forum_tags.Type2.Error.{out_of_range}
use nfc_forum_tags.Type2.Control.{LockControlValue, MemoryControlValue}
use nfc_forum_tags.Type2.Control.Lock
use nfc_forum_tags.Type2.Control.Memory
use nfc_forum_tags.Type2.Tlv.{
  Tlv, null, lock_control, ndef_message, terminator, parse_tlvs, to_bytes, tlv_terminator,
}
use nfc_forum_tags.Type2.Tlv.Total.{AreBlocks, parse_tlvs-AreBlocks}
use nfc_forum_tags.Type2.Tlv.Blocks.{IsWritable, block_bytes, value_size}
use nfc_forum_tags.Type2.Tlv.Written.{buffered, tlv_written}
use nfc_forum_tags.Type2.Tlv.RoundTrip.{stream, Continues, parse_tlvs-terminated}
use nfc_forum_tags.Type2.Tlv.Unknown.{IsUnknown, unknown_bytes}
use nfc_forum_tags.Type2.Scanner
use nfc_forum_tags.Type2.Scanner.Boundaries.{terminator_position, terminator_position-stream}
use nfc_forum_tags.Type2.Reader.Ndef.{ndef_tlv_offset}
use nfc_forum_tags.Type2.Reader.Offset.{IsPassed, ndef_tlv_offset-stream, offset_without_unknown}
use nfc_forum_tags.Tests.Fixtures.{test_build}

abbrev test_lock : LockControlValue
test_lock = record {
  page_addr = 10;
  byte_offset = 2;
  size_in_bits = 16;
  bytes_per_page = 4;
  bytes_locked_per_bit = 3;
}

test_lock-IsEncodable : Lock.IsEncodable test_lock
test_lock-IsEncodable = record {
  page = omega arith;
  offset = omega arith;
  size = (omega arith, omega arith);
  per_page = (omega arith, omega arith);
  per_bit = (omega arith, omega arith);
  within = omega arith;
}

abbrev test_reserved : MemoryControlValue
test_reserved = record { page_addr = 12; byte_offset = 0; size_in_bytes = 8; bytes_per_page = 4 }

test_reserved-IsEncodable : Memory.IsEncodable test_reserved
test_reserved-IsEncodable = record {
  page = omega arith;
  offset = omega arith;
  size = (omega arith, omega arith);
  per_page = (omega arith, omega arith);
  within = omega arith;
}

lock_control_roundtrip_example : Lock.from_bytes (Lock.to_bytes test_lock) ≡ ok test_lock
lock_control_roundtrip_example = Lock.lock_control_roundtrip test_lock test_lock-IsEncodable

test_lock_parsed : Lock.from_bytes (0xA2, 0x10, 0x34) ≡ ok test_lock
unfolding Lock.to_bytes pack_nibbles
test_lock_parsed = Lock.lock_control_roundtrip test_lock test_lock-IsEncodable

lock_control_parsed_example :
    Lock.IsEncodable test_lock
    × (Lock.to_bytes test_lock ≡ (0xA2, 0x10, 0x34))
    × (Lock.byte_address test_lock ≡ 10 * 2 ^ 4 + 2)
lock_control_parsed_example =
    Lock.lock_control_parsed 0xA2 0x10 0x34 test_lock (omega arith) (omega arith) (omega arith)
      test_lock_parsed

test_reserved_parsed : Memory.from_bytes (0xC0, 0x08, 0x04) ≡ ok test_reserved
unfolding Memory.to_bytes pack_nibbles
test_reserved_parsed = Memory.memory_control_roundtrip test_reserved test_reserved-IsEncodable

memory_control_parsed_example :
    Memory.IsEncodable test_reserved
    × (Memory.to_bytes test_reserved ≡ (0xC0, 0x08, 0x04))
    × (Memory.byte_address test_reserved ≡ 12 * 2 ^ 4 + 0)
memory_control_parsed_example =
    Memory.memory_control_parsed 0xC0 0x08 0x04 test_reserved (omega arith) (omega arith)
      (omega arith) test_reserved_parsed

-- A Lock Control block, a Null and a message.
abbrev test_blocks : List Tlv
test_blocks = lock_control test_lock ∷ null ∷ ndef_message (0xD0 ∷ []) ∷ []

test_blocks-IsWritable : All (IsWritable test_build) test_blocks
unfolding fits
test_blocks-IsWritable = (
  (test_lock-IsEncodable, omega arith),
  ((tt, omega arith), ((((omega arith, tt), refl), omega arith), tt)),
)

test_blocks-Continues : All Continues test_blocks
test_blocks-Continues = (λ e. omega arith, (λ e. omega arith, (λ e. omega arith, tt)))

three_fit : fits test_build 4 3 ≡ true
unfolding fits
three_fit = refl

four_fit : fits test_build 4 4 ≡ true
unfolding fits
four_fit = refl

parse_tlvs-terminated_example :
    parse_tlvs test_build (stream test_blocks ++ (tlv_terminator ∷ 7 ∷ []))
    ≡ ok (test_blocks ++ terminator ∷ [])
parse_tlvs-terminated_example =
    parse_tlvs-terminated test_build test_blocks (7 ∷ []) test_blocks-IsWritable
      test_blocks-Continues four_fit

-- A Memory Control block, a message of one byte, and a Terminator.
abbrev control_stream : List ℕ
control_stream = 0x02 ∷ 0x03 ∷ 0xC0 ∷ 0x08 ∷ 0x04 ∷ 0x03 ∷ 0x01 ∷ 0xD0 ∷ 0xFE ∷ []

control_stream-IsByte : All IsByte control_stream
control_stream-IsByte = (
  omega arith,
  (
    omega arith,
    (
      omega arith,
      (omega arith, (omega arith, (omega arith, (omega arith, (omega arith, (omega arith, tt)))))),
    ),
  ),
)

parse_tlvs-AreBlocks_example : Ensures (AreBlocks test_build) (parse_tlvs test_build control_stream)
parse_tlvs-AreBlocks_example = parse_tlvs-AreBlocks test_build control_stream control_stream-IsByte

test-IsUnknown : IsUnknown 0x42
test-IsUnknown = record {
  null = omega arith;
  lock = omega arith;
  memory = omega arith;
  ndef = omega arith;
  proprietary = omega arith;
  terminator = omega arith;
}

tlv_written_example : to_bytes test_build (lock_control test_lock) ≡ (
    if leb (value_size (lock_control test_lock)) max_tlv_length
    then buffered test_build (block_bytes (lock_control test_lock))
    else err out_of_range)
tlv_written_example = tlv_written test_build (lock_control test_lock)

terminator_position-stream_example :
    terminator_position Scanner.new (stream test_blocks ++ (tlv_terminator ∷ []))
    ≡ some (length (stream test_blocks))
terminator_position-stream_example =
    terminator_position-stream test_build test_blocks [] test_blocks-IsWritable
      test_blocks-Continues

-- The two blocks before the message.
abbrev two_blocks : List Tlv
two_blocks = lock_control test_lock ∷ null ∷ []

two_blocks-IsPassed : All IsPassed two_blocks
two_blocks-IsPassed =
    ((λ e. omega arith, λ e. omega arith), ((λ e. omega arith, λ e. omega arith), tt))

ndef_tlv_offset-stream_example :
    ndef_tlv_offset 0 (two_blocks ++ (ndef_message (0xD0 ∷ []) ∷ []))
    ≡ some (length (stream two_blocks))
ndef_tlv_offset-stream_example =
    ndef_tlv_offset-stream two_blocks [] (0xD0 ∷ []) two_blocks-IsPassed

offset_without_unknown_example :
    (parse_tlvs test_build (unknown_bytes 0x42 (7 ∷ 8 ∷ []) ++ stream test_blocks) ≡ ok test_blocks)
    × (ndef_tlv_offset 0 test_blocks ≡ some (length (stream two_blocks)))
    × (drop
          (length (unknown_bytes 0x42 (7 ∷ 8 ∷ [])) + length (stream two_blocks))
          (unknown_bytes 0x42 (7 ∷ 8 ∷ []) ++ stream test_blocks)
        ≡ stream (ndef_message (0xD0 ∷ []) ∷ []))
offset_without_unknown_example =
    offset_without_unknown test_build 0x42 (7 ∷ 8 ∷ []) two_blocks [] (0xD0 ∷ []) test-IsUnknown
      (omega arith) two_blocks-IsPassed test_blocks-IsWritable test_blocks-Continues three_fit
