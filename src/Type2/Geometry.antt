-- ===== src/Type2/Geometry.antt =====
-- The block and sector geometry of src/type2/memory.rs, and its address conversions.
use nfc_forum_tags.Prelude.{
  ℕ, ◌+◌, ◌*◌, ◌/◌, ◌%◌, ◌≤◌, ◌<◌, ◌≡◌, Option, none, some, ltb, if◌then◌else◌, arith,
}

abbrev pub block_size : ℕ
block_size = 4

abbrev pub blocks_per_sector : ℕ
blocks_per_sector = 256

abbrev pub sector_size : ℕ
sector_size = block_size * blocks_per_sector

-- Sector 0xFF is reserved.
abbrev pub max_sector : ℕ
max_sector = 0xFE

abbrev pub address_space_end : ℕ
address_space_end = (max_sector + 1) * sector_size

abbrev pub cc_block : ℕ
cc_block = 3

abbrev pub data_start_block : ℕ
data_start_block = 4

abbrev pub static_data_area_size : ℕ
static_data_area_size = 48

-- `as u8` keeps the low byte.
unfoldable pub address_to_sector_block : ℕ → Option (ℕ × ℕ × ℕ)
address_to_sector_block byte_addr =
    let sector = byte_addr / sector_size in
    let within_sector = byte_addr % sector_size in
    if ltb max_sector sector
    then none
    else some (sector % 256, within_sector / block_size % 256, within_sector % block_size % 256)

unfoldable pub sector_block_to_address : ℕ → ℕ → ℕ → Option ℕ
sector_block_to_address sector block offset =
    if ltb max_sector sector
    then none
    else some (sector * sector_size + block * block_size + offset)

-- If an address is split, it lies in the address space, its parts are in range, the sector is not
-- the reserved one, and the parts lead back to the address.
pub address_roundtrip :
    (addr sector block offset : ℕ)
    → address_to_sector_block addr ≡ some (sector, block, offset)
    → (addr < address_space_end)
      × (sector ≤ max_sector)
      × (block < 256)
      × (offset < 4)
      × (sector_block_to_address sector block offset ≡ some addr)
unfolding address_to_sector_block sector_block_to_address
address_roundtrip addr sector block offset e = ground arith

-- If a sector, a block number of one byte and an offset below 4 are joined to an address, the
-- address is split into them.
pub sector_block_roundtrip :
    (sector block offset addr : ℕ)
    → block < 256
    → offset < 4
    → sector_block_to_address sector block offset ≡ some addr
    → address_to_sector_block addr ≡ some (sector, block, offset)
unfolding address_to_sector_block sector_block_to_address
sector_block_roundtrip sector block offset addr hb ho e = ground arith

-- An address is refused exactly when it lies behind the address space.
pub address_none : (addr : ℕ) → address_space_end ≤ addr → address_to_sector_block addr ≡ none
unfolding address_to_sector_block
address_none addr h = ground arith

-- A split address in the space.
pub address_some :
    (addr : ℕ)
    → addr < address_space_end
    → address_to_sector_block addr ≡ some (addr / 1024, addr % 1024 / 4, addr % 4)
unfolding address_to_sector_block
address_some addr h = ground arith
