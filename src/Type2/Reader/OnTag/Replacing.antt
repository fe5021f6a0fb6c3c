-- ===== src/Type2/Reader/OnTag/Replacing.antt =====
-- What the tag stores after `write_ndef` has replaced a message (src/type2/reader.rs).
use nfc_forum_tags.Prelude.{ℕ, ◌≡◌, ◌⊎◌, true, List}
use nfc_forum_tags.Vec.{Build}
use nfc_forum_tags.Type2.Cc.{CapabilityContainer, is_valid}
use nfc_forum_tags.Type2.Tlv.{Tlv, ndef_message}
use nfc_forum_tags.Type2.Tlv.Blocks.{IsWritable}
use nfc_forum_tags.Type2.Reader.State.{Transceiver, T2tReader}
use nfc_forum_tags.Type2.Reader.Ndef.{write_ndef}
use nfc_forum_tags.Type2.Reader.Triple.{Post, Triple-weaken}
use nfc_forum_tags.Type2.TagMemory.{Memory, IsTag}
use nfc_forum_tags.Type2.Reader.OnTag.Coherent.{IsCoherent, IsCoherent-weaken}
use nfc_forum_tags.Type2.Reader.OnTag.Checks.{IsTouched, IsWritten}
use nfc_forum_tags.Type2.Reader.OnTag.WritingNdef.{write_ndef-OnTag}
use nfc_forum_tags.Type2.Reader.OnTag.Holding.{IsPrefix, IsHolding}
use nfc_forum_tags.Type2.Reader.OnTag.Renewed.{touched, renewed-IsReplaced}
use nfc_forum_tags.Type2.Reader.OnTag.Region.{IsKeptOutside, IsReplaced}
use nfc_forum_tags.Type2.Reader.OnTag.Promises.{narrow_cc}

module _ {t : Transceiver} (b : Build) (tag : IsTag t) (mem : Memory) where
  open t use {Device, Error}

  -- The tag holds a valid container and, in its data area, some blocks, an NDEF Message and a
  -- Terminator. The blocks are writable, are neither control blocks nor NDEF Messages nor a
  -- Terminator, and the build has room for two more. Both the message that the tag holds and the
  -- new one can be written. Then from a coherent reader writing the new message returns and
  -- leaves a coherent reader. After a success the usable bytes from the NDEF block on, that is
  -- from the usable byte with as many before it as the blocks are written as, are the block of
  -- the new message, a Terminator, and what stood there behind as many bytes. After an error the
  -- memory is as it was, or may have changed where it may after a success. In each case it is as
  -- it was before the NDEF block, behind the last usable byte of the data area's size, and at
  -- every lock and reserved byte of the container's layout.
  pub write_ndef_replaces :
      (cc : CapabilityContainer) (pre : List Tlv) (old message : List ℕ) (r : T2tReader Device)
      → IsPrefix b pre
      → IsWritable b (ndef_message old)
      → IsWritable b (ndef_message message)
      → is_valid cc ≡ true
      → IsHolding b cc pre old mem
      → IsCoherent tag (λ m. m ≡ mem) r
      → Post
          (IsCoherent tag (λ m. (m ≡ mem) ⊎ IsKeptOutside b cc pre mem m))
          (λ _. IsCoherent tag (IsReplaced b cc pre mem message))
          (write_ndef t b message r)
  write_ndef_replaces cc pre old message r p wo w v h c =
      let narrow = narrow_cc b tag mem cc r c h.container in
      (Triple-weaken (λ r c. c)
          (λ _ r' c'.
            IsCoherent-weaken tag (IsWritten b mem message) _ r'
              (renewed-IsReplaced b cc pre p old message wo w mem v h narrow) c')
          (λ r' c'.
            IsCoherent-weaken tag (IsTouched b mem message) _ r'
              (touched b cc pre p old message wo w mem v h narrow) c')
          (write_ndef-OnTag b tag mem message)).run
        r c
