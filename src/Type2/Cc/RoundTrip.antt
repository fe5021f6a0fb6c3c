-- ===== src/Type2/Cc/RoundTrip.antt =====
-- The four bytes of a Capability Container (src/type2/cc.rs) and what they are parsed to.
use nfc_forum_tags.Prelude.{ℕ, ◌/◌, ◌%◌, ◌≤◌, ◌<◌, ◌≡◌, List, arith, get_elem?-some}
use nfc_forum_tags.Prelude.Bits.{pack_nibbles_lem, pack_nibbles_split}
use nfc_forum_tags.Outcome.{ok, Returns}
use nfc_forum_tags.Tag.{
  to_nibble, IsCanonical, from_nibble-to_nibble, to_nibble-from_nibble, to_nibble-lt,
}
use nfc_forum_tags.Type2.Cc.{CapabilityContainer, Bytes4, to_bytes, try_from, try_from_slice}

-- A container that the four bytes can hold, of a version that the crate supports.
pub record IsEncodable (cc : CapabilityContainer) : Type 0 where
  pub major : cc.version_major ≤ 1
  pub minor : cc.version_minor < 16
  pub read : IsCanonical cc.read_access
  pub write : IsCanonical cc.write_access

-- A container of major version 0 or 1, with a minor version of four bits and access conditions in
-- canonical form, is read back from the bytes it is written as.
pub cc_roundtrip : (cc : CapabilityContainer) → IsEncodable cc → try_from (to_bytes cc) ≡ ok cc
unfolding try_from to_bytes
cc_roundtrip cc h = ground (
  arith,
  pack_nibbles_lem cc.version_major (cc.version_minor % 16),
  pack_nibbles_lem (to_nibble cc.read_access) (to_nibble cc.write_access),
  to_nibble-lt cc.read_access h.read,
  to_nibble-lt cc.write_access h.write,
  from_nibble-to_nibble cc.read_access h.read,
  from_nibble-to_nibble cc.write_access h.write,
)

-- If four numbers parse, of which the second and the fourth are bytes, the container is written
-- as these four.
pub cc_parsed :
    (b0 b1 b2 b3 : ℕ) (cc : CapabilityContainer)
    → b1 < 256
    → b3 < 256
    → try_from (b0, b1, b2, b3) ≡ ok cc
    → to_bytes cc ≡ (b0, b1, b2, b3)
unfolding try_from to_bytes
cc_parsed b0 b1 b2 b3 cc h1 h3 e = ground (
  arith,
  pack_nibbles_split b1 h1,
  pack_nibbles_split b3 h3,
  to_nibble-from_nibble (b3 / 16),
  to_nibble-from_nibble (b3 % 16),
)

pub cc-Returns : (bytes : Bytes4) → Returns (try_from bytes)
unfolding try_from
cc-Returns bytes = ground arith

-- Parsing a slice returns, whatever its length.
pub cc_slice-Returns : (slice : List ℕ) → Returns (try_from_slice slice)
unfolding try_from_slice
cc_slice-Returns slice = ground (
  arith,
  get_elem?-some slice 0,
  get_elem?-some slice 1,
  get_elem?-some slice 2,
  get_elem?-some slice 3,
)
