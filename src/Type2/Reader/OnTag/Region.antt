-- ===== src/Type2/Reader/OnTag/Region.antt =====
-- The memory of a tag around the NDEF block, before and after another message is written
-- (src/type2/reader.rs, `write_ndef`).
use nfc_forum_tags.Prelude.{ℕ, ◌+◌, ◌-◌, ◌*◌, ◌≡◌, List, [], ◌∷◌, ◌++◌, length, drop}
use nfc_forum_tags.Vec.{Build}
use nfc_forum_tags.Type2.Geometry.{address_space_end}
use nfc_forum_tags.Type2.Cc.{CapabilityContainer}
use nfc_forum_tags.Type2.Tlv.{Tlv, ndef_message, tlv_terminator}
use nfc_forum_tags.Type2.Tlv.Blocks.{block_bytes}
use nfc_forum_tags.Type2.Tlv.RoundTrip.{stream}
use nfc_forum_tags.Type2.Memory.{from_cc_and_tlvs}
use nfc_forum_tags.Type2.Memory.Usable.{IsUsableAt}
use nfc_forum_tags.Type2.TagMemory.{Memory}
use nfc_forum_tags.Type2.Reader.OnTag.DataBytes.{usable_bytes}
use nfc_forum_tags.Type2.Reader.OnTag.Frame.{IsFrame}

module _ (b : Build) (container : CapabilityContainer) (pre : List Tlv) (mem : Memory) where
  -- From `block_addr` on, the usable byte with as many before it as the blocks `pre` are written as,
  -- up to the data area's last usable byte at `last_addr`, usable bytes may have changed.
  pub record IsKeptOutside (m : Memory) : Type 0 where
    pub block_addr : ℕ
    pub last_addr : ℕ
    pub start : IsUsableAt (from_cc_and_tlvs b container []) (length (stream pre)) block_addr
    pub last : IsUsableAt (from_cc_and_tlvs b container []) (container.size_field * 8 - 1) last_addr
    pub frame : IsFrame (from_cc_and_tlvs b container []) block_addr (last_addr + 1) mem m

  -- Besides, the usable bytes from there on are the block of the message, a Terminator, and what
  -- stood behind as many bytes.
  pub record IsReplaced (message : List ℕ) (m : Memory) : Type 0 where
    pub kept : IsKeptOutside m
    pub bytes :
        let layout = from_cc_and_tlvs b container [] in
        let block = block_bytes (ndef_message message) in
        let rest = address_space_end - kept.block_addr in
        usable_bytes layout m kept.block_addr rest
        ≡ block
          ++ (tlv_terminator
              ∷ drop (length block + 1) (usable_bytes layout mem kept.block_addr rest))
