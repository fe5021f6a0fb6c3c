-- ===== src/Type2/Memory.antt =====
-- The memory layout of src/type2/memory.rs: which bytes of the tag are lock or reserved bytes, and
-- where the usable ones are.
pub mod LockAreas
pub mod ReservedAreas
pub mod Collected
pub mod Described
pub mod Skipped
pub mod Usable
pub mod Plain
use nfc_forum_tags.Prelude.{
  ℕ, zero, suc, ◌+◌, ◌-◌, ◌*◌, ◌/◌, ◌%◌, ◌^◌, min, Bool, true, false, ◌&&◌, ◌||◌, List, [], ◌∷◌,
  Option, none, some, leb, ltb, ◌==◌, if◌then◌else◌,
}
use nfc_forum_tags.Outcome.{ok, err, panic, stuck}
use nfc_forum_tags.Vec.{Build, try_push}
use nfc_forum_tags.Type2.Cc.{CapabilityContainer, is_dynamic}
use nfc_forum_tags.Type2.Cc
use nfc_forum_tags.Type2.Geometry.{
  block_size, sector_size, data_start_block, static_data_area_size, address_space_end,
}
use nfc_forum_tags.Type2.Control.{div_ceil8}
use nfc_forum_tags.Type2.Tlv.{
  Tlv, null, lock_control, memory_control, ndef_message, proprietary, terminator,
}
use LockAreas.{LockArea, from_lock_control, lock_byte_count}
use ReservedAreas.{ReservedArea, from_memory_control}

pub record MemoryLayout : Type 0 where
  pub data_area_size : ℕ
  pub lock_areas : List LockArea
  pub reserved_areas : List ReservedArea

-- Each list of areas holds eight in the default build.
abbrev pub area_capacity : ℕ
area_capacity = 8

-- `let _ = push_area(..)`: an area that does not fit is dropped.
pub push_area : {A : Type 0} → Build → List A → A → List A
push_area b v x = elim (try_push b area_capacity v x) [
  | ok w ↦ w
  | err e ↦ v
  | panic ↦ v
  | stuck ↦ v
]

abbrev pub Areas : Type 0
Areas = List LockArea × List ReservedArea

-- The loop over the blocks.
pub collect_areas : Build → List Tlv → Areas → Areas
unfolding push_area
collect_areas b [] areas = areas
collect_areas b (lock_control lc ∷ tlvs) (locks, reserved) =
    collect_areas b tlvs (push_area b locks (from_lock_control lc), reserved)
collect_areas b (memory_control mc ∷ tlvs) (locks, reserved) =
    collect_areas b tlvs (locks, push_area b reserved (from_memory_control mc))
collect_areas b (null ∷ tlvs) areas = collect_areas b tlvs areas
collect_areas b (ndef_message v ∷ tlvs) areas = collect_areas b tlvs areas
collect_areas b (proprietary v ∷ tlvs) areas = collect_areas b tlvs areas
collect_areas b (terminator ∷ tlvs) areas = collect_areas b tlvs areas

-- `saturating_sub` is the subtraction of ℕ.
unfoldable pub default_dynamic_lock_area : ℕ → LockArea
default_dynamic_lock_area data_area_size = record {
  byte_address = data_start_block * block_size + data_area_size;
  size_in_bits = div_ceil8 (data_area_size - static_data_area_size);
  bytes_per_lock_bit = 8;
}

abbrev pub is_empty : {A : Type 0} → List A → Bool
is_empty [] = true
is_empty (x ∷ xs) = false

unfoldable pub from_cc_and_tlvs : Build → CapabilityContainer → List Tlv → MemoryLayout
unfolding collect_areas
from_cc_and_tlvs b cc tlvs =
    let size = Cc.data_area_size cc in
    let (locks, reserved) = collect_areas b tlvs ([], []) in
    record {
      data_area_size = size;
      lock_areas =
          if is_dynamic cc && is_empty locks
          then push_area b locks (default_dynamic_lock_area size)
          else locks;
      reserved_areas = reserved;
    }

abbrev pub any : {A : Type 0} → (A → Bool) → List A → Bool
any p [] = false
any p (x ∷ xs) = p x || any p xs

unfoldable pub is_skip_area : MemoryLayout → ℕ → Bool
is_skip_area layout byte_addr =
    any (λ a. LockAreas.contains a byte_addr) layout.lock_areas
    || any (λ a. ReservedAreas.contains a byte_addr) layout.reserved_areas

abbrev sum : {A : Type 0} → (A → ℕ) → List A → ℕ
sum f [] = 0
sum f (x ∷ xs) = f x + sum f xs

-- The sums wrap around in a `u32`.
unfoldable pub sector_count : MemoryLayout → ℕ
sector_count layout =
    let total_bytes =
      (layout.data_area_size
        + data_start_block * block_size
        + sum lock_byte_count layout.lock_areas
        + sum (λ a. a.size) layout.reserved_areas)
      % 2 ^ 32 in
    min ((total_bytes + (sector_size - 1)) / sector_size) 255

-- The loop of `usable_offset_to_address`, with fuel for every address of the space.
usable_loop : ℕ → MemoryLayout → ℕ → ℕ → Option ℕ
usable_loop zero layout addr remaining = none
usable_loop (suc fuel) layout addr remaining = elim (leb address_space_end addr) [
  | true ↦ none
  | false ↦ elim (is_skip_area layout addr) [
    | true ↦ usable_loop fuel layout (addr + 1) remaining
    | false ↦ elim (remaining == 0) [
      | true ↦ some addr
      | false ↦ usable_loop fuel layout (addr + 1) (remaining - 1)
    ]
  ]
]

unfoldable pub usable_offset_to_address : MemoryLayout → ℕ → Option ℕ
unfolding usable_loop
usable_offset_to_address layout n =
    usable_loop address_space_end layout (data_start_block * block_size) n
