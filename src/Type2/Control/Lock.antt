-- ===== src/Type2/Control/Lock.antt =====
-- The Lock Control value (src/type2/tlv.rs): its methods, and its bytes and back.
use nfc_forum_tags.Prelude.{
  IsByte, ℕ, ◌+◌, ◌*◌, ◌/◌, ◌%◌, ◌^◌, ◌||◌, ◌≤◌, ◌<◌, ◌≡◌, arith, ◌==◌, if◌then◌else◌,
}
use nfc_forum_tags.Prelude.Bits.{pack_nibbles, pack_nibbles_lem, pack_nibbles_split}
use nfc_forum_tags.Outcome.{Outcome, ok, err, ◌>>=◌, Returns, Ensures, Ensures-cases}
use nfc_forum_tags.Type2.Error.{Type2Error, invalid_tlv}
use nfc_forum_tags.Type2.Geometry.{address_space_end}
use nfc_forum_tags.Type2.Control.Defs.{
  Bytes3, LockControlValue, area_address, div_ceil8, check_area_in_address_space, size_of_byte,
  byte_of_size,
}
use nfc_forum_tags.Type2.Control.Address.{area_address_lem, check_area_lem}

unfoldable pub byte_address : LockControlValue → ℕ
unfolding area_address
byte_address v = area_address v.page_addr v.byte_offset v.bytes_per_page

unfoldable pub lock_byte_count : LockControlValue → ℕ
lock_byte_count v = div_ceil8 v.size_in_bits

-- A `u16` shift takes its count modulo 16.
unfoldable pub bytes_per_lock_bit : LockControlValue → ℕ
bytes_per_lock_bit v = 2 ^ (v.bytes_locked_per_bit % 16)

unfoldable pub from_bytes : Bytes3 → Outcome Type2Error LockControlValue
from_bytes (b0, b1, b2) =
    let value : LockControlValue = record {
      page_addr = b0 / 16;
      byte_offset = b0 % 16;
      size_in_bits = size_of_byte b1;
      bytes_per_page = b2 % 16;
      bytes_locked_per_bit = b2 / 16;
    } in
    if b2 % 16 == 0 || b2 / 16 == 0
    then err invalid_tlv
    else do _ ← check_area_in_address_space (byte_address value) (lock_byte_count value); ok value

unfoldable pub to_bytes : LockControlValue → Bytes3
to_bytes v = (
  pack_nibbles v.page_addr (v.byte_offset % 16),
  byte_of_size v.size_in_bits,
  pack_nibbles v.bytes_locked_per_bit (v.bytes_per_page % 16),
)

-- What three bytes can hold: the sizes are 1 to 256, the exponents are not 0, and the area lies in the
-- address space.
pub record IsEncodable (v : LockControlValue) : Type 0 where
  pub page : v.page_addr < 16
  pub offset : v.byte_offset < 16
  pub size : (1 ≤ v.size_in_bits) × (v.size_in_bits ≤ 256)
  pub per_page : (1 ≤ v.bytes_per_page) × (v.bytes_per_page < 16)
  pub per_bit : (1 ≤ v.bytes_locked_per_bit) × (v.bytes_locked_per_bit < 16)
  pub within :
      v.page_addr * 2 ^ v.bytes_per_page + v.byte_offset + (v.size_in_bits + 7) / 8
      ≤ address_space_end

-- A Lock Control value that three bytes can hold, with its area in the address space, is read
-- back from the bytes it is written as.
pub lock_control_roundtrip : (v : LockControlValue) → IsEncodable v → from_bytes (to_bytes v) ≡ ok v
unfolding from_bytes to_bytes byte_address lock_byte_count
lock_control_roundtrip v h = ground (
  arith,
  pack_nibbles_lem v.page_addr (v.byte_offset % 16),
  pack_nibbles_lem v.bytes_locked_per_bit (v.bytes_per_page % 16),
  area_address_lem v.page_addr v.byte_offset v.bytes_per_page,
  check_area_lem (area_address v.page_addr v.byte_offset v.bytes_per_page)
      ((v.size_in_bits + 7) / 8),
)

-- If three bytes parse, the Lock Control value can be held by three bytes and has its area in the
-- address space, it is written as these bytes, and its address is the one without any wrap-
-- around.
pub lock_control_parsed :
    (b0 b1 b2 : ℕ) (v : LockControlValue)
    → b0 < 256
    → b1 < 256
    → b2 < 256
    → from_bytes (b0, b1, b2) ≡ ok v
    → IsEncodable v
      × (to_bytes v ≡ (b0, b1, b2))
      × (byte_address v ≡ v.page_addr * 2 ^ v.bytes_per_page + v.byte_offset)
unfolding from_bytes to_bytes byte_address lock_byte_count
lock_control_parsed b0 b1 b2 v h0 h1 h2 e = ground (
  arith,
  pack_nibbles_split b0 h0,
  pack_nibbles_split b2 h2,
  area_address_lem (b0 / 16) (b0 % 16) (b2 % 16),
  check_area_lem (area_address (b0 / 16) (b0 % 16) (b2 % 16)) ((size_of_byte b1 + 7) / 8),
)

from_bytes-Returns : (bytes : Bytes3) → Returns (from_bytes bytes)
unfolding from_bytes check_area_in_address_space
from_bytes-Returns bytes = ground arith

pub from_bytes-Ensures :
    (bytes : Bytes3)
    → IsByte bytes.0
    → IsByte bytes.1
    → IsByte bytes.2
    → Ensures IsEncodable (from_bytes bytes)
from_bytes-Ensures (b0, b1, b2) h0 h1 h2 =
    Ensures-cases IsEncodable (from_bytes (b0, b1, b2)) (from_bytes-Returns (b0, b1, b2))
      λ v e. (lock_control_parsed b0 b1 b2 v h0 h1 h2 e).0
