-- ===== src/Type2/Memory/Described.antt =====
-- Which bytes the Lock Control and Memory Control blocks describe, and the default lock area, apart
-- from the areas of src/type2/memory.rs: by the fields of the blocks and of the container.
use nfc_forum_tags.Prelude.{
  ℕ, ◌+◌, ◌-◌, ◌*◌, ◌^◌, ◌≤◌, ◌<◌, ◌≡◌, ◌⊎◌, ◌↔◌, true, arith, List, [], ◌∷◌,
}
use nfc_forum_tags.Type2.Control.{LockControlValue, MemoryControlValue}
use nfc_forum_tags.Type2.Control.Lock
use nfc_forum_tags.Type2.Control.Memory
use nfc_forum_tags.Type2.Control.Address.{area_address_lem}
use nfc_forum_tags.Type2.Tlv.{
  Tlv, null, lock_control, memory_control, ndef_message, proprietary, terminator,
}
use nfc_forum_tags.Type2.Memory.LockAreas.{LockArea, from_lock_control}
use nfc_forum_tags.Type2.Memory.LockAreas
use nfc_forum_tags.Type2.Memory.ReservedAreas.{ReservedArea, from_memory_control}
use nfc_forum_tags.Type2.Memory.ReservedAreas
use nfc_forum_tags.Type2.Memory.{default_dynamic_lock_area}

-- The byte holds one of the lock bits, eight in a byte from the area's address on.
abbrev pub IsLockByte : LockControlValue → ℕ → Type 0
IsLockByte v addr =
    let start = v.page_addr * 2 ^ v.bytes_per_page + v.byte_offset in
    (start ≤ addr) × (8 * (addr - start) < v.size_in_bits)

abbrev pub IsReservedByte : MemoryControlValue → ℕ → Type 0
IsReservedByte v addr =
    let start = v.page_addr * 2 ^ v.bytes_per_page + v.byte_offset in
    (start ≤ addr) × (addr < start + v.size_in_bytes)

-- One of the blocks describes the byte.
abbrev pub Describes : List Tlv → ℕ → Type 0
Describes [] addr = ⊥
Describes (lock_control v ∷ ts) addr = IsLockByte v addr ⊎ Describes ts addr
Describes (memory_control v ∷ ts) addr = IsReservedByte v addr ⊎ Describes ts addr
Describes (null ∷ ts) addr = Describes ts addr
Describes (ndef_message v ∷ ts) addr = Describes ts addr
Describes (proprietary v ∷ ts) addr = Describes ts addr
Describes (terminator ∷ ts) addr = Describes ts addr

abbrev pub IsLockControl : Tlv → Type 0
IsLockControl (lock_control v) = Unit
IsLockControl (memory_control v) = ⊥
IsLockControl null = ⊥
IsLockControl (ndef_message v) = ⊥
IsLockControl (proprietary v) = ⊥
IsLockControl terminator = ⊥

-- Behind a data area of `size` bytes, in a memory of more than the 48 bytes of a static one, there is
-- a lock bit for each 8 bytes above the 48, so a byte of lock bits for each 64.
abbrev pub IsDefaultLockByte : ℕ → ℕ → Type 0
IsDefaultLockByte size addr = (16 + size ≤ addr) × (48 + 64 * (addr - (16 + size)) < size)

-- The control values lie in the address space, as those that are parsed do.
abbrev pub IsInSpace : Tlv → Type 0
IsInSpace (lock_control v) = Lock.IsEncodable v
IsInSpace (memory_control v) = Memory.IsEncodable v
IsInSpace null = Unit
IsInSpace (ndef_message v) = Unit
IsInSpace (proprietary v) = Unit
IsInSpace terminator = Unit

pub lock-contains_iff :
    (v : LockControlValue) (addr : ℕ)
    → Lock.IsEncodable v
    → (LockAreas.contains (from_lock_control v) addr ≡ true) ↔ IsLockByte v addr
unfolding LockAreas.contains LockAreas.end_address LockAreas.lock_byte_count from_lock_control
    Lock.byte_address
lock-contains_iff v addr h =
    let start =
      area_address_lem v.page_addr v.byte_offset v.bytes_per_page h.page h.offset
        (omega (arith, h.per_page)) in
    rw start (ground (arith, h.within))

pub memory-contains_iff :
    (v : MemoryControlValue) (addr : ℕ)
    → Memory.IsEncodable v
    → (ReservedAreas.contains (from_memory_control v) addr ≡ true) ↔ IsReservedByte v addr
unfolding ReservedAreas.contains ReservedAreas.end_address from_memory_control Memory.byte_address
memory-contains_iff v addr h =
    let start =
      area_address_lem v.page_addr v.byte_offset v.bytes_per_page h.page h.offset
        (omega (arith, h.per_page)) in
    rw start (ground (arith, h.within))

pub default-contains_iff :
    (size addr : ℕ)
    → size < 2 ^ 16
    → (LockAreas.contains (default_dynamic_lock_area size) addr ≡ true)
      ↔ IsDefaultLockByte size addr
unfolding LockAreas.contains LockAreas.end_address LockAreas.lock_byte_count
    default_dynamic_lock_area
default-contains_iff size addr h = ground arith
