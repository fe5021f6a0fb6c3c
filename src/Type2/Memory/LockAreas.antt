-- ===== src/Type2/Memory/LockAreas.antt =====
-- `LockArea` of src/type2/memory.rs.
use nfc_forum_tags.Prelude.{ℕ, ◌+◌, ◌-◌, ◌^◌, Bool, ◌&&◌, min, leb, ltb}
use nfc_forum_tags.Type2.Control.{LockControlValue, div_ceil8}
use nfc_forum_tags.Type2.Control.Lock

pub record LockArea : Type 0 where
  pub byte_address : ℕ
  pub size_in_bits : ℕ
  pub bytes_per_lock_bit : ℕ

unfoldable pub lock_byte_count : LockArea → ℕ
lock_byte_count a = div_ceil8 a.size_in_bits

-- `saturating_add` on a `u32`.
unfoldable pub end_address : LockArea → ℕ
unfolding lock_byte_count
end_address a = min (a.byte_address + lock_byte_count a) (2 ^ 32 - 1)

unfoldable pub from_lock_control : LockControlValue → LockArea
from_lock_control lc = record {
  byte_address = Lock.byte_address lc;
  size_in_bits = lc.size_in_bits;
  bytes_per_lock_bit = Lock.bytes_per_lock_bit lc;
}

unfoldable pub contains : LockArea → ℕ → Bool
unfolding end_address
contains a addr = leb a.byte_address addr && ltb addr (end_address a)
