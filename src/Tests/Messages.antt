-- ===== src/Tests/Messages.antt =====
-- The theorems on what a message is written to, on a concrete tag.
use nfc_forum_tags.Prelude.{ℕ, ◌-◌, ◌≡◌, ◌<◌, ◌≤◌, refl, List, [], ◌∷◌, ◌++◌, length, false, arith}
use nfc_forum_tags.Outcome.{ok, Ensures}
use nfc_forum_tags.Vec.{try_push, try_extend}
use nfc_forum_tags.Type2.Cc.{data_area_size, is_dynamic}
use nfc_forum_tags.Type2.Tlv.{Tlv, null, ndef_message, terminator, tlv_ndef_message, tlv_terminator}
use nfc_forum_tags.Type2.Memory.{from_cc_and_tlvs, is_skip_area, usable_offset_to_address}
use nfc_forum_tags.Type2.Memory.Usable.{usable_count}
use nfc_forum_tags.Type2.Reader.Writer.{fill_page}
use nfc_forum_tags.Type2.Reader.Ndef.{Target, locate, build_payload, ndef_tlv_offset}
use nfc_forum_tags.Type2.Reader.Located.{zero_field, payload_has_room}
use nfc_forum_tags.Type2.Reader.Filled.{IsFilled, fill_page-IsFilled}
use nfc_forum_tags.Tests.Fixtures.{test_build, test_cc, test_layout}

abbrev message : List ℕ
message = 0xD0 ∷ []

abbrev payload : List ℕ
payload = tlv_ndef_message ∷ (zero_field 1 ++ (message ++ tlv_terminator ∷ []))

-- A Null before an empty message.
abbrev blocks : List Tlv
blocks = null ∷ ndef_message [] ∷ terminator ∷ []

abbrev target : Target
target = record {
  layout = from_cc_and_tlvs test_build test_cc blocks;
  ndef_offset = 1;
  ndef_byte_addr = 17;
  write_limit_addr = 64;
}

located : locate test_build test_cc blocks 1 ≡ ok target
unfolding locate data_area_size ndef_tlv_offset usable_offset_to_address is_skip_area
    from_cc_and_tlvs is_dynamic
located = refl

built : build_payload test_build message ≡ ok payload
unfolding build_payload try_push try_extend
built = refl

payload_has_room_example :
    let room = usable_count target.layout 17 (64 - 17) in
    (17 < 64) × (room ≡ data_area_size test_cc - 1) × (length payload ≤ room)
payload_has_room_example =
    payload_has_room test_build test_cc blocks message payload target (omega arith) located built

fill_page-IsFilled_example :
    Ensures
      (λ r. IsFilled test_layout 64 16 0 (1, 2, 3, 4) (7 ∷ 8 ∷ 9 ∷ [], false) r.0 r.1)
      (fill_page test_layout 64 16 0 (1, 2, 3, 4) (7 ∷ 8 ∷ 9 ∷ []))
fill_page-IsFilled_example = fill_page-IsFilled test_layout 64 16 0 (1, 2, 3, 4) (7 ∷ 8 ∷ 9 ∷ [])
