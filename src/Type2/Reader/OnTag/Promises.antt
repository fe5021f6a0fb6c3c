-- ===== src/Type2/Reader/OnTag/Promises.antt =====
-- The methods of the reader, called on a coherent reader at a tag (src/type2/reader.rs).
use nfc_forum_tags.Prelude.{
  ℕ, ◌-◌, ◌+◌, ◌*◌, ◌≡◌, ◌<◌, ◌≤◌, ◌⊎◌, inl, inr, ◌∙◌, sym, true, arith, List, [], length,
}
use mathlib.Core.Path.{subst}
use nfc_forum_tags.Outcome.{Outcome, ok, err, panic, stuck, ok-injective}
use nfc_forum_tags.Vec.{Build}
use nfc_forum_tags.Type2.Error.{Type2Error}
use nfc_forum_tags.Type2.Geometry.{address_space_end, max_sector}
use nfc_forum_tags.Type2.Cc.{Bytes4, CapabilityContainer, is_valid}
use nfc_forum_tags.Type2.Tlv.{Tlv, ndef_message}
use nfc_forum_tags.Type2.Tlv.Blocks.{IsWritable}
use nfc_forum_tags.Type2.Memory.{MemoryLayout}
use nfc_forum_tags.Type2.Reader.State.{ReaderError, Transceiver, known, T2tReader}
use nfc_forum_tags.Type2.Reader.Link.{sector_select, read, write}
use nfc_forum_tags.Type2.Reader.DataArea.{read_data_area, read_ndef}
use nfc_forum_tags.Type2.Reader.Writer.{write_usable_bytes}
use nfc_forum_tags.Type2.Reader.Ndef.{write_ndef}
use nfc_forum_tags.Type2.Reader.Triple.{Post, Triple, Triple-weaken}
use nfc_forum_tags.Type2.TagMemory.{Memory, four_blocks, store, IsTag}
use nfc_forum_tags.Type2.Reader.OnTag.Coherent.{
  IsCoherent, IsCoherentIn, IsCoherent-weaken, at_memory,
}
use nfc_forum_tags.Type2.Reader.OnTag.Selecting.{sector_select-OnTag}
use nfc_forum_tags.Type2.Reader.OnTag.Pages.{read-OnTag}
use nfc_forum_tags.Type2.Reader.OnTag.Storing.{write-OnTag}
use nfc_forum_tags.Type2.Reader.OnTag.Reading.{read_data_area-OnTag}
use nfc_forum_tags.Type2.Reader.OnTag.Overwrite.{overwrite}
use nfc_forum_tags.Type2.Reader.OnTag.Frame.{IsFrame}
use nfc_forum_tags.Type2.Reader.OnTag.WritingLoop.{write_usable_bytes-Stored}
use nfc_forum_tags.Type2.Reader.OnTag.Contents.{cc_of, data_area_of}
use nfc_forum_tags.Type2.Reader.OnTag.ReadingNdef.{read_ndef-OnTag}
use nfc_forum_tags.Type2.Reader.OnTag.Message.{HoldsMessage, message_of-HoldsMessage}
use nfc_forum_tags.Type2.Reader.OnTag.Checks.{target_of, IsTouched, IsWritten, size_of_cc}
use nfc_forum_tags.Type2.Reader.OnTag.WritingNdef.{write_ndef-OnTag}
use nfc_forum_tags.Type2.Reader.OnTag.Holding.{IsPrefix, IsHolding, message_of_held}
use nfc_forum_tags.Type2.Reader.OnTag.Renewed.{renewed}

module _ {t : Transceiver} (b : Build) (tag : IsTag t) (mem : Memory) where
  open t use {Device, Error}

  -- The memory is `mem`.
  abbrev pub Has : Memory → Type 0
  Has m = m ≡ mem

  -- From a coherent reader at a tag and for any sector but the reserved one, `sector_select`
  -- returns, leaves a coherent reader and changes no memory; after a success the reader takes
  -- that sector for selected, and the tag has it selected.
  pub sector_select-IsCoherent :
      (s : ℕ) (r : T2tReader Device)
      → s ≤ max_sector
      → IsCoherent tag Has r
      → Post (IsCoherent tag Has) (λ _. IsCoherentIn tag s Has) (sector_select t b s r)
  sector_select-IsCoherent s r h c = (sector_select-OnTag b tag Has s h).run r c

  -- From a coherent reader with a sector that is taken for selected, and for a block number of
  -- one byte, a READ returns, leaves a coherent reader and changes no memory; what it answers,
  -- from the cache or from the tag, are the 16 bytes of the memory from that block of that sector
  -- on.
  pub read_four_blocks :
      (s n : ℕ) (r : T2tReader Device)
      → n < 256
      → r.sector ≡ known s
      → IsCoherent tag Has r
      → Post
          (IsCoherent tag Has)
          (λ bytes r'. IsCoherentIn tag s Has r' × (bytes ≡ four_blocks mem s n))
          (read t b n r)
  read_four_blocks s n r h e c = (read-OnTag b tag mem s n h).run r (c, e)

  -- From a coherent reader with a sector that is taken for selected, a WRITE returns and leaves a
  -- coherent reader. After a success the memory is the old one with the four bytes stored at that
  -- block of that sector; after an error it is either that or the old one, for any number of
  -- retries.
  pub write_stores :
      (s n : ℕ) (bytes : Bytes4) (r : T2tReader Device)
      → r.sector ≡ known s
      → IsCoherent tag Has r
      → Post
          (IsCoherent tag (λ m. (m ≡ mem) ⊎ (m ≡ store (s * 1024 + n * 4) bytes mem)))
          (λ _. IsCoherentIn tag s (λ m. m ≡ store (s * 1024 + n * 4) bytes mem))
          (write t b n bytes r)
  write_stores s n bytes r e c = (write-OnTag b tag mem s n bytes).run r (c, e)

  -- From a coherent reader at a tag and for any layout, reading the data area returns, leaves a
  -- coherent reader and changes no memory; what it answers are the bytes of the memory at the
  -- usable addresses from 16 on, up to the one at which the scanner finds the Terminator and no
  -- more than the size of the data area.
  pub read_data_area_usable :
      (layout : MemoryLayout) (r : T2tReader Device)
      → IsCoherent tag Has r
      → Post
          (IsCoherent tag Has)
          (λ data_area r'. IsCoherent tag Has r' × (data_area ≡ data_area_of mem layout))
          (read_data_area t b layout r)
  read_data_area_usable layout r c = (read_data_area-OnTag b tag mem layout).run r c

  -- From a coherent reader at a tag, reading the message returns, leaves a coherent reader and
  -- changes no memory. What it answers is the message that the memory holds: the container is of
  -- version 1 with read access granted; the usable bytes up to the Terminator are parsed to
  -- blocks; if the data area has more than 48 bytes and there are control blocks among them, the
  -- usable bytes by the layout with these blocks are taken instead; and of the blocks they are
  -- parsed to, the message is the value of an NDEF Message with none before it, or empty if there
  -- is none.
  pub read_ndef-message :
      (r : T2tReader Device)
      → IsCoherent tag Has r
      → Post
          (IsCoherent tag Has)
          (λ message r'. IsCoherent tag Has r' × HoldsMessage b mem message)
          (read_ndef t b r)
  read_ndef-message r c =
      (Triple-weaken (λ r c. c) (λ message r q. (q.0, message_of-HoldsMessage b mem message q.1))
          (λ r c. c) (read_ndef-OnTag b tag mem)).run
        r c

  -- From a coherent reader at a tag, writing bytes over the usable bytes from an address on
  -- returns, for any layout and limit, and leaves a coherent reader. After a success all bytes
  -- stand at consecutive usable addresses from the start on. After a success and after an error
  -- the memory is as it was before the start, from the limit on and at every lock and reserved
  -- byte.
  pub write_usable_bytes_stores :
      (layout : MemoryLayout) (limit_addr start_addr : ℕ) (bytes : List ℕ) (r : T2tReader Device)
      → IsCoherent tag Has r
      → Post
          (IsCoherent tag (IsFrame layout start_addr limit_addr mem))
          (λ _. IsCoherent tag (λ m.
            (overwrite layout (address_space_end - start_addr) start_addr bytes mem ≡ ([], m))
            × IsFrame layout start_addr limit_addr mem m))
          (write_usable_bytes t b layout limit_addr start_addr bytes r)
  write_usable_bytes_stores layout limit_addr start_addr bytes r c =
      (write_usable_bytes-Stored b tag layout start_addr limit_addr mem bytes).run r c

  -- The payload and then the length field are stored from the addresses on that the checks answer,
  -- or the checks refuse.
  write_ndef_stores :
      (message : List ℕ) (r : T2tReader Device)
      → IsCoherent tag Has r
      → Post
          (IsCoherent tag (IsTouched b mem message))
          (λ _. IsCoherent tag (IsWritten b mem message))
          (write_ndef t b message r)
  write_ndef_stores message r c = (write_ndef-OnTag b tag mem message).run r c

  -- The checks have refused, so nothing has been written.
  refused :
      (message : List ℕ) (e : Type2Error)
      (x : Outcome (ReaderError Error) (Unit {0}) × T2tReader Device)
      → target_of b mem (length message) ≡ err e
      → Post
          (IsCoherent tag (IsTouched b mem message))
          (λ _. IsCoherent tag (IsWritten b mem message))
          x
      → Post (IsCoherent tag Has) (λ _ _. ⊥) x
  refused message e (ok a, r) h p =
      let w : IsWritten b mem message (tag.memory r.device) = p.holds in absurd (cc (h, w.checked))
  refused message e (err x, r) h p =
      IsCoherent-weaken tag (IsTouched b mem message) Has r
        (λ m k. elim k [ inl same ↦ same | inr x ↦ absurd (cc (h, x.1)) ]) p
  refused message e (panic, r) h p = p
  refused message e (stuck, r) h p = p

  -- If the checks on what the memory holds refuse a message with an error, then from a coherent
  -- reader `write_ndef` fails, and the memory is as it was.
  pub write_ndef_refused :
      (message : List ℕ) (e : Type2Error) (r : T2tReader Device)
      → target_of b mem (length message) ≡ err e
      → IsCoherent tag Has r
      → Post (IsCoherent tag Has) (λ _ _. ⊥) (write_ndef t b message r)
  write_ndef_refused message e r h c =
      refused message e (write_ndef t b message r) h (write_ndef_stores message r c)

  -- Reading the message of a tag that holds one.
  read_held :
      (cc : CapabilityContainer) (pre : List Tlv) (message : List ℕ)
      → IsPrefix b pre
      → IsWritable b (ndef_message message)
      → is_valid cc ≡ true
      → Triple {E = Error}
          (IsCoherent tag (IsHolding b cc pre message))
          (IsCoherent tag (IsHolding b cc pre message))
          (read_ndef t b)
          (λ answer r. IsCoherent tag (IsHolding b cc pre message) r × (answer ≡ message))
  read_held cc pre message p w v = at_memory tag (IsHolding b cc pre message) _ _ λ m h bytes.
      let still : (r : T2tReader Device)
          → IsCoherent tag (λ m'. m' ≡ m) r
          → IsCoherent tag (IsHolding b cc pre message) r =
        λ r c.
          IsCoherent-weaken tag _ (IsHolding b cc pre message) r
            (λ m' e. subst (IsHolding b cc pre message) (sym e) h) c in
      Triple-weaken (λ r c. c)
        (λ answer r q. (
          still r q.0,
          ok-injective answer message (sym q.1 ∙ message_of_held b cc pre p message w m v h),
        ))
        still (read_ndef-OnTag b tag m)

  pub narrow_cc :
      (cc : CapabilityContainer) (r : T2tReader Device)
      → IsCoherent tag Has r
      → cc_of mem ≡ ok cc
      → cc.size_field < 256
  narrow_cc cc r c e =
      let small : mem 14 < 256 =
        subst (λ (m : Memory). m 14 < 256) c.holds (tag.stored r.device 14) in
      omega (arith, small, size_of_cc mem cc e)

  -- The tag holds a valid container and, in its data area, some blocks, an NDEF Message and a
  -- Terminator. The blocks are writable, are neither control blocks nor NDEF Messages nor a
  -- Terminator, and the build has room for two more. Both the message that the tag holds and the
  -- new one can be written. Then, from a coherent reader: if `write_ndef` succeeds and
  -- `read_ndef` after it too, the answer is the message that was written, and the tag holds it
  -- behind the same blocks, after an error of `read_ndef` too. After an error of `write_ndef` the
  -- memory is as it was, or as it was outside the usable bytes from the NDEF block on and below
  -- the limit.
  pub read_ndef-write_ndef :
      (cc : CapabilityContainer) (pre : List Tlv) (old message : List ℕ) (r : T2tReader Device)
      → IsPrefix b pre
      → IsWritable b (ndef_message old)
      → IsWritable b (ndef_message message)
      → is_valid cc ≡ true
      → IsHolding b cc pre old mem
      → IsCoherent tag Has r
      → Post
          (IsCoherent tag (IsTouched b mem message))
          (λ _ r'.
            Post
              (IsCoherent tag (IsHolding b cc pre message))
              (λ answer r''. IsCoherent tag (IsHolding b cc pre message) r'' × (answer ≡ message))
              (read_ndef t b r'))
          (write_ndef t b message r)
  read_ndef-write_ndef cc pre old message r p wo w v h c =
      let narrow = narrow_cc cc r c h.container in
      (Triple-weaken (λ r c. c)
          (λ _ r' c'. (read_held cc pre message p w v).run r' (
            IsCoherent-weaken tag (IsWritten b mem message) _ r'
              (λ m iw. renewed b cc pre p old message wo w mem v h narrow m iw) c'))
          (λ r c. c) (write_ndef-OnTag b tag mem message)).run
        r c
