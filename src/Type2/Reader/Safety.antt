-- ===== src/Type2/Reader/Safety.antt =====
-- The methods of the reader, called on a valid reader (src/type2/reader.rs).
use nfc_forum_tags.Type2.Reader.Exchange.{AnswersBytes, transceive_with_retry-Triple}
use nfc_forum_tags.Type2.Reader.Selection.{sector_select-Triple}
use nfc_forum_tags.Type2.Reader.Pages.{read-Triple, write-IsUncached-Triple}
use nfc_forum_tags.Type2.Reader.Reading.{read_data_area-Triple}
use nfc_forum_tags.Type2.Reader.ReadingNdef.{read_ndef-Triple}
use nfc_forum_tags.Type2.Reader.Valid.{
  IsValid, IsLost, IsSelected, IsIn, Received, IsDataArea, IsBlock, IsUncached, IsInUncached,
}
use nfc_forum_tags.Prelude.{ℕ, ◌≤◌, refl, List}
use nfc_forum_tags.Vec.{Build}
use nfc_forum_tags.Type2.Cc.{Bytes4}
use nfc_forum_tags.Type2.Geometry.{max_sector}
use nfc_forum_tags.Type2.Memory.{MemoryLayout}
use nfc_forum_tags.Type2.Reader.State.{Transceiver, known, T2tReader}
use nfc_forum_tags.Type2.Reader.Link.{
  force_sector_select, sector_select, transceive_with_retry, read, write,
}
use nfc_forum_tags.Type2.Reader.DataArea.{read_data_area, read_ndef}
use nfc_forum_tags.Type2.Reader.Writer.{write_usable_bytes}
use nfc_forum_tags.Type2.Reader.Ndef.{write_ndef}
use nfc_forum_tags.Type2.Reader.Triple.{Post}
use nfc_forum_tags.Type2.Reader.Sector.{force_sector_select-Triple}
use nfc_forum_tags.Type2.Reader.Writing.{write_usable_bytes-Triple}
use nfc_forum_tags.Type2.Reader.WritingNdef.{write_ndef-Triple}

module _ (t : Transceiver) (b : Build) (answers : AnswersBytes t) where
  open t use {Device, Error}

  -- Called on a valid reader, with any number of retries, `transceive_with_retry` returns. With a
  -- frame the reader is valid and takes the same sector for selected as before the call; after an
  -- error the reader is valid, the sector is unknown and the cache is empty.
  pub transceive_with_retry_sector :
      (cmd : List ℕ) (r : T2tReader Device)
      → IsValid r
      → Post IsLost (Received r.sector) (transceive_with_retry t b cmd r)
  transceive_with_retry_sector cmd r v =
      (transceive_with_retry-Triple t b answers r.sector cmd).run r (v, refl)

  -- From a valid reader, selecting a sector other than the reserved one succeeds with that sector
  -- taken for selected, or fails with the sector unknown. The reader is valid and the cache is
  -- empty either way.
  pub force_sector_select_sector :
      (sector : ℕ) (r : T2tReader Device)
      → sector ≤ max_sector
      → IsValid r
      → Post IsLost (λ _ r'. IsSelected sector r') (force_sector_select t b sector r)
  force_sector_select_sector sector r h v = (force_sector_select-Triple t b sector h).run r v

  -- A WRITE on a valid reader returns and leaves a valid reader with an empty cache, after an
  -- error too; a success leaves the sector as it was.
  pub write-IsUncached :
      (n : ℕ) (bytes : Bytes4) (r : T2tReader Device)
      → IsValid r
      → Post (IsUncached) (λ _. IsInUncached r.sector) (write t b n bytes r)
  write-IsUncached n bytes r v =
      (write-IsUncached-Triple t b answers r.sector n bytes).run r (v, refl)

  -- A READ on a valid reader, from the cache or from the tag, returns 16 bytes or an error and
  -- leaves a valid reader; a success leaves the sector as it was.
  pub read_sixteen :
      (n : ℕ) (r : T2tReader Device) → IsValid r → Post IsValid (IsBlock r.sector) (read t b n r)
  read_sixteen n r v = (read-Triple t b answers r.sector n).run r (v, refl)

  -- From a valid reader and for any sector but the reserved one, `sector_select` returns and
  -- leaves a valid reader; after a success that sector is taken for selected.
  pub sector_select_sector :
      (sector : ℕ) (r : T2tReader Device)
      → sector ≤ max_sector
      → IsValid r
      → Post IsValid (λ _. IsIn (known sector)) (sector_select t b sector r)
  sector_select_sector sector r h v = (sector_select-Triple t b answers sector h).run r v

  -- From a valid reader and for any layout, reading the data area returns and leaves a valid
  -- reader; what it answers is made of bytes and no longer than the layout's data area.
  pub read_data_area_bounded :
      (layout : MemoryLayout) (r : T2tReader Device)
      → IsValid r
      → Post IsValid
          (λ data_area r'. IsValid r' × IsDataArea layout data_area)
          (read_data_area t b layout r)
  read_data_area_bounded layout r v = (read_data_area-Triple t b answers layout).run r v

  -- Reading the NDEF message returns (no panic, no endless loop) from a valid reader, whatever
  -- frames of bytes the tag answers, and leaves a valid reader, after an error too.
  pub read_ndef_returns :
      (r : T2tReader Device) → IsValid r → Post IsValid (λ _. IsValid) (read_ndef t b r)
  read_ndef_returns r v = (read_ndef-Triple t b answers).run r v

  -- From a valid reader, writing any bytes from any address on returns, whatever the layout and
  -- the limit, and leaves a valid reader.
  pub write_usable_bytes_returns :
      (layout : MemoryLayout) (limit_addr start_addr : ℕ) (bytes : List ℕ) (r : T2tReader Device)
      → IsValid r
      → Post IsValid (λ _. IsValid) (write_usable_bytes t b layout limit_addr start_addr bytes r)
  write_usable_bytes_returns layout limit_addr start_addr bytes r v =
      (write_usable_bytes-Triple t b answers layout limit_addr start_addr bytes).run r v

  -- Writing any message returns (no panic, no endless loop) from a valid reader, whatever frames
  -- of bytes the tag answers, and leaves a valid reader, after an error too.
  pub write_ndef_returns :
      (message : List ℕ) (r : T2tReader Device)
      → IsValid r
      → Post IsValid (λ _. IsValid) (write_ndef t b message r)
  write_ndef_returns message r v = (write_ndef-Triple t b answers message).run r v
