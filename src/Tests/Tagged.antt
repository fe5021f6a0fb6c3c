-- ===== src/Tests/Tagged.antt =====
-- The theorems on the reader at a tag, on a concrete one.
use nfc_forum_tags.Prelude.{
  ℕ, ◌+◌, ◌*◌, ◌-◌, true, ◌≡◌, ◌⊎◌, ◌∙◌, refl, ap, arith, List, [], ◌∷◌, length,
}
use nfc_forum_tags.Outcome.{err}
use nfc_forum_tags.Type2.Error.{read_only}
use nfc_forum_tags.Type2.Geometry.{address_space_end}
use nfc_forum_tags.Type2.Tlv.{ndef_message}
use nfc_forum_tags.Type2.Tlv.Blocks.{IsWritable}
use nfc_forum_tags.Type2.Memory.{from_cc_and_tlvs, is_skip_area}
use nfc_forum_tags.Type2.Scanner.{feed}
use nfc_forum_tags.Type2.Scanner
use nfc_forum_tags.Type2.Cc.{data_area_size, is_dynamic, is_valid}
use nfc_forum_tags.Type2.Cc
use nfc_forum_tags.Length.RoundTrip.{length_field}
use nfc_forum_tags.Vec.{fits}
use nfc_forum_tags.Tag.{from_nibble}
use nfc_forum_tags.Type2.Scanner.Boundaries.{terminator_position}
use nfc_forum_tags.Type2.Reader.State.{known, new}
use nfc_forum_tags.Type2.Reader.Link.{sector_select, read, write}
use nfc_forum_tags.Type2.Reader.DataArea.{read_data_area, read_ndef}
use nfc_forum_tags.Type2.Reader.Writer.{write_usable_bytes}
use nfc_forum_tags.Type2.Reader.Ndef.{write_ndef}
use nfc_forum_tags.Type2.Reader.Triple.{Post}
use nfc_forum_tags.Type2.TagMemory.{four_blocks, store}
use nfc_forum_tags.Type2.Reader.OnTag.Coherent.{IsCoherent, IsCoherentIn}
use nfc_forum_tags.Type2.Reader.OnTag.DataBytes.{usable_bytes, until_terminator, usable_bytes-add}
use nfc_forum_tags.Type2.Reader.OnTag.Restored.{until_terminator-position}
use nfc_forum_tags.Type2.Reader.OnTag.Overwrite.{overwrite}
use nfc_forum_tags.Type2.Reader.OnTag.Frame.{IsFrame}
use nfc_forum_tags.Type2.Reader.OnTag.Contents.{data_area_of}
use nfc_forum_tags.Type2.Reader.OnTag.Checks.{target_of, IsTouched}
use nfc_forum_tags.Type2.Reader.OnTag.Holding.{IsPrefix, IsHolding}
use nfc_forum_tags.Type2.Reader.OnTag.Message.{HoldsMessage}
use nfc_forum_tags.Type2.Reader.OnTag.Region.{IsKeptOutside, IsReplaced}
use nfc_forum_tags.Type2.Reader.OnTag.Replacing.{write_ndef_replaces}
use nfc_forum_tags.Type2.Reader.OnTag.Promises.{
  sector_select-IsCoherent, read_four_blocks, write_stores, read_data_area_usable,
  read_ndef-message, write_usable_bytes_stores, write_ndef_refused, read_ndef-write_ndef,
}
use nfc_forum_tags.Tests.Fixtures.{test_build, test_layout, test_cc, test_memory}
use nfc_forum_tags.Tests.PagedTag.{
  paged, paged-IsTag, paged_memory, at_tag, at_tag-IsCoherent, locked_memory,
}

abbrev test_message : List ℕ
test_message = 0xD0 ∷ 0x01 ∷ 0x02 ∷ []

-- The data area of the tag holds an empty message and a Terminator.
test_area :
    data_area_of (paged_memory test_memory) (from_cc_and_tlvs test_build test_cc [])
    ≡ 0x03 ∷ 0x00 ∷ 0xFE ∷ []
unfolding usable_bytes from_cc_and_tlvs terminator_position feed until_terminator data_area_size
    is_skip_area is_dynamic
test_area =
    let layout = from_cc_and_tlvs test_build test_cc [] in
    ap (until_terminator layout.data_area_size Scanner.new)
      (usable_bytes-add layout (paged_memory test_memory) 16 3 261101)
    ∙ until_terminator-position 48 Scanner.new
        (0x03 ∷ 0x00 ∷ 0xFE ∷ usable_bytes layout (paged_memory test_memory) 19 261101) 2 refl
        (omega arith)

empty-IsPrefix : IsPrefix test_build []
unfolding fits
empty-IsPrefix = record { passed = tt; writable = tt; plain = tt; room = refl }

message-IsWritable : IsWritable test_build (ndef_message test_message)
unfolding fits
message-IsWritable = (((omega arith, (omega arith, (omega arith, tt))), refl), omega arith)

empty-IsWritable : IsWritable test_build (ndef_message [])
unfolding fits
empty-IsWritable = ((tt, refl), omega arith)

test_memory-IsHolding : IsHolding test_build test_cc [] [] (paged_memory test_memory)
unfolding length_field Cc.try_from from_nibble
test_memory-IsHolding = record { container = refl; area = test_area }

test_cc-is_valid : is_valid test_cc ≡ true
unfolding is_valid
test_cc-is_valid = refl

at_tag_sector : (at_tag test_memory).sector ≡ known 0
unfolding new
at_tag_sector = refl

-- The tag that may only be read refuses the message.
refused_target :
    target_of test_build (paged_memory locked_memory) (length test_message) ≡ err read_only
unfolding target_of Cc.try_from is_valid from_nibble
refused_target = refl

read_ndef-write_ndef_example :
    Post
      (IsCoherent paged-IsTag (IsTouched test_build (paged_memory test_memory) test_message))
      (λ _ r'.
        Post
          (IsCoherent paged-IsTag (IsHolding test_build test_cc [] test_message))
          (λ answer r''.
            IsCoherent paged-IsTag (IsHolding test_build test_cc [] test_message) r''
            × (answer ≡ test_message))
          (read_ndef paged test_build r'))
      (write_ndef paged test_build test_message (at_tag test_memory))
read_ndef-write_ndef_example =
    read_ndef-write_ndef test_build paged-IsTag (paged_memory test_memory) test_cc [] []
      test_message (at_tag test_memory) empty-IsPrefix empty-IsWritable message-IsWritable
      test_cc-is_valid test_memory-IsHolding (at_tag-IsCoherent test_memory)

write_ndef_replaces_example :
    Post
      (IsCoherent paged-IsTag (λ m.
        (m ≡ paged_memory test_memory)
        ⊎ IsKeptOutside test_build test_cc [] (paged_memory test_memory) m))
      (λ _.
        IsCoherent paged-IsTag
          (IsReplaced test_build test_cc [] (paged_memory test_memory) test_message))
      (write_ndef paged test_build test_message (at_tag test_memory))
write_ndef_replaces_example =
    write_ndef_replaces test_build paged-IsTag (paged_memory test_memory) test_cc [] [] test_message
      (at_tag test_memory) empty-IsPrefix empty-IsWritable message-IsWritable test_cc-is_valid
      test_memory-IsHolding (at_tag-IsCoherent test_memory)

write_ndef_refused_example :
    Post
      (IsCoherent paged-IsTag (λ m. m ≡ paged_memory locked_memory))
      (λ _ _. ⊥)
      (write_ndef paged test_build test_message (at_tag locked_memory))
write_ndef_refused_example =
    write_ndef_refused test_build paged-IsTag (paged_memory locked_memory) test_message read_only
      (at_tag locked_memory) refused_target (at_tag-IsCoherent locked_memory)

read_ndef-message_example :
    Post
      (IsCoherent paged-IsTag (λ m. m ≡ paged_memory test_memory))
      (λ message r.
        IsCoherent paged-IsTag (λ m. m ≡ paged_memory test_memory) r
        × HoldsMessage test_build (paged_memory test_memory) message)
      (read_ndef paged test_build (at_tag test_memory))
read_ndef-message_example =
    read_ndef-message test_build paged-IsTag (paged_memory test_memory) (at_tag test_memory)
      (at_tag-IsCoherent test_memory)

write_usable_bytes_stores_example :
    Post
      (IsCoherent paged-IsTag (IsFrame test_layout 16 64 (paged_memory test_memory)))
      (λ _. IsCoherent paged-IsTag (λ m.
        (overwrite test_layout (address_space_end - 16) 16 test_message (paged_memory test_memory)
          ≡ ([], m))
        × IsFrame test_layout 16 64 (paged_memory test_memory) m))
      (write_usable_bytes paged test_build test_layout 64 16 test_message (at_tag test_memory))
write_usable_bytes_stores_example =
    write_usable_bytes_stores test_build paged-IsTag (paged_memory test_memory) test_layout 64 16
      test_message (at_tag test_memory) (at_tag-IsCoherent test_memory)

read_data_area_usable_example :
    Post
      (IsCoherent paged-IsTag (λ m. m ≡ paged_memory test_memory))
      (λ data_area r.
        IsCoherent paged-IsTag (λ m. m ≡ paged_memory test_memory) r
        × (data_area ≡ data_area_of (paged_memory test_memory) test_layout))
      (read_data_area paged test_build test_layout (at_tag test_memory))
read_data_area_usable_example =
    read_data_area_usable test_build paged-IsTag (paged_memory test_memory) test_layout
      (at_tag test_memory) (at_tag-IsCoherent test_memory)

write_stores_example :
    Post
      (IsCoherent paged-IsTag (λ m.
        (m ≡ paged_memory test_memory)
        ⊎ (m ≡ store (0 * 1024 + 4 * 4) (0x03, 0x00, 0xFE, 0x00) (paged_memory test_memory))))
      (λ _.
        IsCoherentIn paged-IsTag 0
          (λ m. m ≡ store (0 * 1024 + 4 * 4) (0x03, 0x00, 0xFE, 0x00) (paged_memory test_memory)))
      (write paged test_build 4 (0x03, 0x00, 0xFE, 0x00) (at_tag test_memory))
write_stores_example =
    write_stores test_build paged-IsTag (paged_memory test_memory) 0 4 (0x03, 0x00, 0xFE, 0x00)
      (at_tag test_memory) at_tag_sector (at_tag-IsCoherent test_memory)

read_four_blocks_example :
    Post
      (IsCoherent paged-IsTag (λ m. m ≡ paged_memory test_memory))
      (λ bytes r.
        IsCoherentIn paged-IsTag 0 (λ m. m ≡ paged_memory test_memory) r
        × (bytes ≡ four_blocks (paged_memory test_memory) 0 4))
      (read paged test_build 4 (at_tag test_memory))
read_four_blocks_example =
    read_four_blocks test_build paged-IsTag (paged_memory test_memory) 0 4 (at_tag test_memory)
      (omega arith) at_tag_sector (at_tag-IsCoherent test_memory)

sector_select-IsCoherent_example :
    Post
      (IsCoherent paged-IsTag (λ m. m ≡ paged_memory test_memory))
      (λ _. IsCoherentIn paged-IsTag 1 (λ m. m ≡ paged_memory test_memory))
      (sector_select paged test_build 1 (at_tag test_memory))
sector_select-IsCoherent_example =
    sector_select-IsCoherent test_build paged-IsTag (paged_memory test_memory) 1
      (at_tag test_memory) (omega arith) (at_tag-IsCoherent test_memory)
