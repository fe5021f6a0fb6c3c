-- ===== src/Type2/Memory/ReservedAreas.antt =====
-- `ReservedArea` of src/type2/memory.rs.
use nfc_forum_tags.Prelude.{ℕ, ◌+◌, ◌-◌, ◌^◌, Bool, ◌&&◌, min, leb, ltb}
use nfc_forum_tags.Type2.Control.{MemoryControlValue}
use nfc_forum_tags.Type2.Control.Memory

pub record ReservedArea : Type 0 where
  pub byte_address : ℕ
  pub size : ℕ

-- `saturating_add` on a `u32`.
unfoldable pub end_address : ReservedArea → ℕ
end_address a = min (a.byte_address + a.size) (2 ^ 32 - 1)

unfoldable pub from_memory_control : MemoryControlValue → ReservedArea
from_memory_control mc = record { byte_address = Memory.byte_address mc; size = mc.size_in_bytes }

unfoldable pub contains : ReservedArea → ℕ → Bool
unfolding end_address
contains a addr = leb a.byte_address addr && ltb addr (end_address a)
