-- ===== src/Tests/Readers.antt =====
-- The theorems on the reader, on a concrete tag.
use nfc_forum_tags.Type2.Reader.Valid.{
  IsValid, IsLost, IsSelected, Received, IsDataArea, IsUncached, IsInUncached,
}
use nfc_forum_tags.Prelude.{[], ◌∷◌, arith}
use nfc_forum_tags.Type2.Reader.Link.{force_sector_select, transceive_with_retry, write}
use nfc_forum_tags.Type2.Reader.DataArea.{read_data_area, read_ndef}
use nfc_forum_tags.Type2.Reader.Ndef.{write_ndef}
use nfc_forum_tags.Type2.Reader.Triple.{Post}
use nfc_forum_tags.Type2.Reader.Safety.{
  transceive_with_retry_sector, force_sector_select_sector, write-IsUncached,
  read_data_area_bounded, read_ndef_returns, write_ndef_returns,
}
use nfc_forum_tags.Tests.Fixtures.{
  test_build, test_tag, test_answers, test_reader, test_reader-IsValid, test_layout,
}

write_ndef_returns_example :
    Post IsValid
      (λ _. IsValid)
      (write_ndef test_tag test_build (0xD0 ∷ 0x01 ∷ 0x02 ∷ []) test_reader)
write_ndef_returns_example =
    write_ndef_returns test_tag test_build test_answers (0xD0 ∷ 0x01 ∷ 0x02 ∷ []) test_reader
      test_reader-IsValid

read_ndef_returns_example : Post IsValid (λ _. IsValid) (read_ndef test_tag test_build test_reader)
read_ndef_returns_example =
    read_ndef_returns test_tag test_build test_answers test_reader test_reader-IsValid

transceive_with_retry_sector_example :
    Post IsLost
      (Received test_reader.sector)
      (transceive_with_retry test_tag test_build (0x30 ∷ 0x03 ∷ []) test_reader)
transceive_with_retry_sector_example =
    transceive_with_retry_sector test_tag test_build test_answers (0x30 ∷ 0x03 ∷ []) test_reader
      test_reader-IsValid

force_sector_select_sector_example :
    Post IsLost (λ _. IsSelected 1) (force_sector_select test_tag test_build 1 test_reader)
force_sector_select_sector_example =
    force_sector_select_sector test_tag test_build test_answers 1 test_reader (omega arith)
      test_reader-IsValid

write-IsUncached_example :
    Post
      (IsUncached)
      (λ _. IsInUncached test_reader.sector)
      (write test_tag test_build 4 (0x03, 0x00, 0xFE, 0x00) test_reader)
write-IsUncached_example =
    write-IsUncached test_tag test_build test_answers 4 (0x03, 0x00, 0xFE, 0x00) test_reader
      test_reader-IsValid

read_data_area_bounded_example :
    Post IsValid
      (λ data_area r. IsValid r × IsDataArea test_layout data_area)
      (read_data_area test_tag test_build test_layout test_reader)
read_data_area_bounded_example =
    read_data_area_bounded test_tag test_build test_answers test_layout test_reader
      test_reader-IsValid
