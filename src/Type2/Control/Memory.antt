-- ===== src/Type2/Control/Memory.antt =====
-- The Memory Control value (src/type2/tlv.rs): its methods, and its bytes and back.
use nfc_forum_tags.Prelude.{
  IsByte, ℕ, ◌+◌, ◌*◌, ◌/◌, ◌%◌, ◌^◌, ◌≤◌, ◌<◌, ◌≡◌, arith, ◌==◌, if◌then◌else◌,
}
use nfc_forum_tags.Prelude.Bits.{pack_nibbles, pack_nibbles_lem, pack_nibbles_split}
use nfc_forum_tags.Outcome.{Outcome, ok, err, ◌>>=◌, Returns, Ensures, Ensures-cases}
use nfc_forum_tags.Type2.Error.{Type2Error, invalid_tlv}
use nfc_forum_tags.Type2.Geometry.{address_space_end}
use nfc_forum_tags.Type2.Control.Defs.{
  Bytes3, MemoryControlValue, area_address, check_area_in_address_space, size_of_byte, byte_of_size,
}
use nfc_forum_tags.Type2.Control.Address.{area_address_lem, check_area_lem}

unfoldable pub byte_address : MemoryControlValue → ℕ
unfolding area_address
byte_address v = area_address v.page_addr v.byte_offset v.bytes_per_page

unfoldable pub from_bytes : Bytes3 → Outcome Type2Error MemoryControlValue
from_bytes (b0, b1, b2) =
    let value : MemoryControlValue = record {
      page_addr = b0 / 16;
      byte_offset = b0 % 16;
      size_in_bytes = size_of_byte b1;
      bytes_per_page = b2 % 16;
    } in
    if b2 % 16 == 0
    then err invalid_tlv
    else do _ ← check_area_in_address_space (byte_address value) value.size_in_bytes; ok value

unfoldable pub to_bytes : MemoryControlValue → Bytes3
to_bytes v = (
  pack_nibbles v.page_addr (v.byte_offset % 16),
  byte_of_size v.size_in_bytes,
  v.bytes_per_page % 16,
)

-- What three bytes can hold; the high nibble of the last byte is not used.
pub record IsEncodable (v : MemoryControlValue) : Type 0 where
  pub page : v.page_addr < 16
  pub offset : v.byte_offset < 16
  pub size : (1 ≤ v.size_in_bytes) × (v.size_in_bytes ≤ 256)
  pub per_page : (1 ≤ v.bytes_per_page) × (v.bytes_per_page < 16)
  pub within :
      v.page_addr * 2 ^ v.bytes_per_page + v.byte_offset + v.size_in_bytes ≤ address_space_end

-- A Memory Control value that three bytes can hold, with its area in the address space, is read
-- back from the bytes it is written as.
pub memory_control_roundtrip :
    (v : MemoryControlValue) → IsEncodable v → from_bytes (to_bytes v) ≡ ok v
unfolding from_bytes to_bytes byte_address
memory_control_roundtrip v h = ground (
  arith,
  pack_nibbles_lem v.page_addr (v.byte_offset % 16),
  area_address_lem v.page_addr v.byte_offset v.bytes_per_page,
  check_area_lem (area_address v.page_addr v.byte_offset v.bytes_per_page) v.size_in_bytes,
)

-- If three bytes parse, the Memory Control value can be held by three bytes and has its area in
-- the address space, it is written as these bytes with the high nibble of the last cleared, and
-- its address is the one without any wrap-around.
pub memory_control_parsed :
    (b0 b1 b2 : ℕ) (v : MemoryControlValue)
    → b0 < 256
    → b1 < 256
    → b2 < 256
    → from_bytes (b0, b1, b2) ≡ ok v
    → IsEncodable v
      × (to_bytes v ≡ (b0, b1, b2 % 16))
      × (byte_address v ≡ v.page_addr * 2 ^ v.bytes_per_page + v.byte_offset)
unfolding from_bytes to_bytes byte_address
memory_control_parsed b0 b1 b2 v h0 h1 h2 e = ground (
  arith,
  pack_nibbles_split b0 h0,
  area_address_lem (b0 / 16) (b0 % 16) (b2 % 16),
  check_area_lem (area_address (b0 / 16) (b0 % 16) (b2 % 16)) (size_of_byte b1),
)

from_bytes-Returns : (bytes : Bytes3) → Returns (from_bytes bytes)
unfolding from_bytes check_area_in_address_space
from_bytes-Returns bytes = ground arith

pub from_bytes-Ensures :
    (bytes : Bytes3)
    → IsByte bytes.0
    → IsByte bytes.1
    → IsByte bytes.2
    → Ensures IsEncodable (from_bytes bytes)
from_bytes-Ensures (b0, b1, b2) h0 h1 h2 =
    Ensures-cases IsEncodable (from_bytes (b0, b1, b2)) (from_bytes-Returns (b0, b1, b2))
      λ v e. (memory_control_parsed b0 b1 b2 v h0 h1 h2 e).0
