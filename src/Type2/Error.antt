-- ===== src/Type2/Error.antt =====
-- `Type2Error` of src/type2/mod.rs.
use nfc_forum_tags.Prelude.{ℕ}
use nfc_forum_tags.Vec.{BufferFullError}

pub data Type2Error : Type 0 where
  invalid_length : Type2Error
  invalid_magic : ℕ → Type2Error
  unsupported_version : ℕ → ℕ → Type2Error
  nack : ℕ → Type2Error
  invalid_tlv read_only buffer_full out_of_range : Type2Error
  ambiguous_outcome invalid_configuration : Type2Error
  unknown_command : ℕ → Type2Error

-- `impl From<BufferFullError> for Type2Error`
abbrev pub from_full : BufferFullError → Type2Error
from_full _ = buffer_full
