-- ===== src/Tests/Formats.antt =====
-- The theorems on the formats, on concrete values.
use nfc_forum_tags.Prelude.{
  ◌&&◌, ℕ, List, ◌+◌, [], ◌∷◌, ◌++◌, length, ◌≡◌, ◌<◌, ◌↔◌, ◌≤◌, refl, some, arith, ltb,
  if◌then◌else◌,
}
use nfc_forum_tags.Outcome.{ok, err}
use nfc_forum_tags.Vec.{fits, data_capacity}
use nfc_forum_tags.Tag.{read_write, from_nibble}
use nfc_forum_tags.Length.{parse_tlv_length, encode_tlv_length, max_tlv_length}
use nfc_forum_tags.Length.{invalid_tlv, buffer_full}
use nfc_forum_tags.Length.RoundTrip.{
  length_field, parse_tlv_length-length_field, encode_tlv_length_lem,
}
use nfc_forum_tags.Type2.Cc
use nfc_forum_tags.Type2.Cc.RoundTrip.{cc_roundtrip, cc_parsed}
use nfc_forum_tags.Type2.Cc.State.{Documented, IsWritableIfEmpty, tag_state_iff}
use nfc_forum_tags.Type2.Command.{read, write, nack, to_bytes, try_from, parse_answer}
use nfc_forum_tags.Type2.Command.RoundTrip.{command_roundtrip}
use nfc_forum_tags.Type2.Command.Answers.{Says, parse_answer_iff}
use nfc_forum_tags.Type2.Geometry.{
  address_space_end, max_sector, address_to_sector_block, sector_block_to_address,
  address_roundtrip,
}
use nfc_forum_tags.Tests.Fixtures.{test_build, test_cc}

parse_tlv_length-length_field_example :
    parse_tlv_length (length_field 300 ++ (1 ∷ 2 ∷ [])) 0 ≡ ok (300, length (length_field 300))
parse_tlv_length-length_field_example = parse_tlv_length-length_field 300 (1 ∷ 2 ∷ []) (omega arith)

abbrev tag_byte : List ℕ
tag_byte = 0x03 ∷ []

encode_tlv_length_lem_example : encode_tlv_length test_build 300 tag_byte ≡ (
    if ltb max_tlv_length 300
    then (err invalid_tlv, tag_byte)
    else if fits test_build data_capacity (length tag_byte + length (length_field 300))
    then (ok tt, tag_byte ++ length_field 300)
    else (
      err buffer_full,
      if ltb 0xFE 300 && fits test_build data_capacity (length tag_byte + 1)
          then tag_byte ++ 0xFF ∷ []
          else tag_byte,
    ))
encode_tlv_length_lem_example = encode_tlv_length_lem test_build 300 tag_byte

cc_roundtrip_example : Cc.try_from (Cc.to_bytes test_cc) ≡ ok test_cc
cc_roundtrip_example =
    cc_roundtrip test_cc
      (record { major = omega arith; minor = omega arith; read = tt; write = tt })

test_cc_parsed : Cc.try_from (0xE1, 0x10, 0x06, 0x00) ≡ ok test_cc
unfolding Cc.try_from from_nibble
test_cc_parsed = refl

cc_parsed_example : Cc.to_bytes test_cc ≡ (0xE1, 0x10, 0x06, 0x00)
cc_parsed_example = cc_parsed 0xE1 0x10 0x06 0x00 test_cc (omega arith) (omega arith) test_cc_parsed

tag_state_iff_example :
    (Cc.tag_state test_cc 3 ≡ some read_write)
    ↔ (Documented test_cc 3 read_write × IsWritableIfEmpty test_cc read_write)
tag_state_iff_example = tag_state_iff test_cc 3 read_write

command_roundtrip_example :
    try_from (to_bytes test_build (write 4 (1, 2, 3, 4))) ≡ ok (write 4 (1, 2, 3, 4))
command_roundtrip_example = command_roundtrip test_build (write 4 (1, 2, 3, 4)) tt

read_parsed : try_from (0x30 ∷ 5 ∷ 7 ∷ []) ≡ ok (read 5)
unfolding try_from
read_parsed = refl

parse_answer_iff_example :
    (parse_answer (write 4 (1, 2, 3, 4)) (0xF1 ∷ []) ≡ ok (nack 1))
    ↔ Says (write 4 (1, 2, 3, 4)) (0xF1 ∷ []) (nack 1)
parse_answer_iff_example = parse_answer_iff (write 4 (1, 2, 3, 4)) (0xF1 ∷ []) (nack 1)

address_split : address_to_sector_block 1030 ≡ some (1, 1, 2)
unfolding address_to_sector_block
address_split = refl

address_roundtrip_example :
    (1030 < address_space_end)
    × (1 ≤ max_sector)
    × (1 < 256)
    × (2 < 4)
    × (sector_block_to_address 1 1 2 ≡ some 1030)
address_roundtrip_example = address_roundtrip 1030 1 1 2 address_split

address_joined : sector_block_to_address 1 1 2 ≡ some 1030
unfolding sector_block_to_address
address_joined = refl
