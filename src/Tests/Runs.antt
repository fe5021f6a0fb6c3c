-- ===== src/Tests/Runs.antt =====
-- Runs of the model on concrete data.
use nfc_forum_tags.Prelude.{[], ◌∷◌, ◌≡◌, refl, some}
use nfc_forum_tags.Outcome.{ok}
use nfc_forum_tags.Vec.{try_push, try_extend}
use nfc_forum_tags.Tag.{from_nibble}
use nfc_forum_tags.Length.{parse_tlv_length}
use nfc_forum_tags.Type2.Cc
use nfc_forum_tags.Type2.Command.{to_bytes, parse_answer}
use nfc_forum_tags.Type2.Tlv.{parse_tlvs, ndef_message, terminator}
use nfc_forum_tags.Type2.Reader.State.{new, ◌>>=◌}
use nfc_forum_tags.Type2.Reader.Link.{read_cc}
use nfc_forum_tags.Type2.Reader.Ndef.{ndef_tlv_offset}
use nfc_forum_tags.Tests.Fixtures.{test_build, test_tag, test_reader, test_cc}

-- An unknown block, an NDEF Message and a Terminator.
parse_tlvs_run :
    parse_tlvs test_build (0x42 ∷ 0x01 ∷ 0x07 ∷ 0x03 ∷ 0x01 ∷ 0xD0 ∷ 0xFE ∷ [])
    ≡ ok (ndef_message (0xD0 ∷ []) ∷ terminator ∷ [])
unfolding parse_tlvs parse_tlv_length try_extend try_push
parse_tlvs_run = refl

-- The offset that follows from these blocks, three less than that of the NDEF Message.
ndef_tlv_offset_run : ndef_tlv_offset 0 (ndef_message (0xD0 ∷ []) ∷ terminator ∷ []) ≡ some 0
unfolding ndef_tlv_offset
ndef_tlv_offset_run = refl

-- The container is read from the tag's memory.
read_cc_run : (read_cc test_tag test_build test_reader).0 ≡ ok test_cc
unfolding read_cc ◌>>=◌ new to_bytes parse_answer try_extend Cc.try_from from_nibble
read_cc_run = refl
