-- ===== src/Type2/Control/Defs.antt =====
-- The Lock Control and Memory Control values of src/type2/tlv.rs. `[u8; 3]` is a triple.
use nfc_forum_tags.Prelude.{ℕ, ◌+◌, ◌*◌, ◌/◌, ◌%◌, ◌^◌, ◌||◌, ltb, leb, ◌==◌, if◌then◌else◌}
use nfc_forum_tags.Outcome.{Outcome, ok, err, ◌>>=◌}
use nfc_forum_tags.Type2.Error.{Type2Error, invalid_tlv}
use nfc_forum_tags.Type2.Geometry.{address_space_end}

abbrev pub Bytes3 : Type 0
Bytes3 = ℕ × ℕ × ℕ

pub record LockControlValue : Type 0 where
  pub page_addr : ℕ
  pub byte_offset : ℕ
  pub size_in_bits : ℕ
  pub bytes_per_page : ℕ
  pub bytes_locked_per_bit : ℕ

pub record MemoryControlValue : Type 0 where
  pub page_addr : ℕ
  pub byte_offset : ℕ
  pub size_in_bytes : ℕ
  pub bytes_per_page : ℕ

-- Both `byte_address` methods. A `u32` in a release build: a shift takes its count modulo 32, and
-- the product and the sum wrap around.
unfoldable pub area_address : ℕ → ℕ → ℕ → ℕ
area_address page_addr byte_offset bytes_per_page =
    let page_size = 2 ^ (bytes_per_page % 32) in
    (page_addr * page_size % 2 ^ 32 + byte_offset) % 2 ^ 32

-- `div_ceil(8)`
abbrev pub div_ceil8 : ℕ → ℕ
div_ceil8 n = (n + 7) / 8

abbrev pub checked_end : ℕ → ℕ → Outcome Type2Error ℕ
checked_end start size = if leb (2 ^ 32) (start + size) then err invalid_tlv else ok (start + size)

-- The answer `()` carries nothing.
unfoldable pub check_area_in_address_space : ℕ → ℕ → Outcome Type2Error (Unit {0})
check_area_in_address_space start size = do
  end ← checked_end start size
  if leb address_space_end start || ltb address_space_end end then err invalid_tlv else ok tt

-- The size byte: 0 stands for 256.
abbrev pub size_of_byte : ℕ → ℕ
size_of_byte s = if s == 0 then 256 else s

-- `as u8` keeps the low byte.
abbrev pub byte_of_size : ℕ → ℕ
byte_of_size n = if n == 256 then 0 else n % 256
