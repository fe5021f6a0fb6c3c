-- ===== src/Type2/Cc.antt =====
-- src/type2/cc.rs: the Capability Container, block 3 of the tag. `[u8; 4]` is a 4-tuple.
pub mod RoundTrip
pub mod State
use nfc_forum_tags.Prelude.{
  ℕ, ◌+◌, ◌*◌, ◌/◌, ◌%◌, Bool, true, false, ◌&&◌, not, Option, none, some, List, length, ltb, ◌==◌,
  if◌then◌else◌,
}
use nfc_forum_tags.Prelude.Bits.{pack_nibbles}
use nfc_forum_tags.Outcome.{Outcome, ok, err, index, ◌>>=◌}
use nfc_forum_tags.Tag.{
  AccessCondition, granted, denied, proprietary, rfu, TagState, initialized, read_write, read_only,
  from_nibble, to_nibble,
}
use nfc_forum_tags.Type2.Error.{Type2Error, invalid_length, invalid_magic, unsupported_version}

abbrev pub cc_magic : ℕ
cc_magic = 0xE1

abbrev pub supported_major_version : ℕ
supported_major_version = 1

abbrev pub Bytes4 : Type 0
Bytes4 = ℕ × ℕ × ℕ × ℕ

pub record CapabilityContainer : Type 0 where
  pub version_major : ℕ
  pub version_minor : ℕ
  pub size_field : ℕ
  pub read_access : AccessCondition
  pub write_access : AccessCondition

-- The derived equality with `Granted` and with `Denied`.
abbrev pub is_granted : AccessCondition → Bool
is_granted granted = true
is_granted denied = false
is_granted (proprietary v) = false
is_granted (rfu v) = false

abbrev pub is_denied : AccessCondition → Bool
is_denied granted = false
is_denied denied = true
is_denied (proprietary v) = false
is_denied (rfu v) = false

-- The product of a byte and 8 stays below 2 ^ 16.
unfoldable pub data_area_size : CapabilityContainer → ℕ
data_area_size cc = cc.size_field * 8

unfoldable pub is_dynamic : CapabilityContainer → Bool
is_dynamic cc = ltb 0x06 cc.size_field

unfoldable pub is_valid : CapabilityContainer → Bool
is_valid cc = cc.version_major == supported_major_version && is_granted cc.read_access

unfoldable pub tag_state : CapabilityContainer → ℕ → Option TagState
unfolding is_valid
tag_state cc ndef_tlv_length =
    if not (is_valid cc)
    then none
    else if ndef_tlv_length == 0 && is_granted cc.write_access
    then some initialized
    else if ltb 0 ndef_tlv_length && is_granted cc.write_access
    then some read_write
    else if ltb 0 ndef_tlv_length && is_denied cc.write_access
    then some read_only
    else none

unfoldable pub to_bytes : CapabilityContainer → Bytes4
to_bytes cc = (
  cc_magic,
  pack_nibbles cc.version_major (cc.version_minor % 16),
  cc.size_field,
  pack_nibbles (to_nibble cc.read_access) (to_nibble cc.write_access),
)

-- `impl TryFrom<[u8; 4]>`
unfoldable pub try_from : Bytes4 → Outcome Type2Error CapabilityContainer
try_from (b0, b1, b2, b3) =
    if not (b0 == cc_magic)
    then err (invalid_magic b0)
    else if ltb supported_major_version (b1 / 16)
    then err (unsupported_version (b1 / 16) (b1 % 16))
    else ok (record {
      version_major = b1 / 16;
      version_minor = b1 % 16;
      size_field = b2;
      read_access = from_nibble (b3 / 16);
      write_access = from_nibble (b3 % 16);
    })

-- `impl TryFrom<&[u8]>`
unfoldable pub try_from_slice : List ℕ → Outcome Type2Error CapabilityContainer
unfolding try_from
try_from_slice slice = if ltb (length slice) 4 then err invalid_length else do
  b0 ← index slice 0
  b1 ← index slice 1
  b2 ← index slice 2
  b3 ← index slice 3
  try_from (b0, b1, b2, b3)
