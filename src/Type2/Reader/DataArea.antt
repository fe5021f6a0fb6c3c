-- ===== src/Type2/Reader/DataArea.antt =====
-- Reading the data area and the NDEF message (src/type2/reader.rs).
use nfc_forum_tags.Prelude.{
  ℕ, zero, suc, ◌+◌, ◌-◌, ◌*◌, ◌/◌, ◌%◌, List, [], ◌∷◌, Option, none, some, Bool, true, false, not,
  ◌&&◌, ltb, leb, if◌then◌else◌,
}
use nfc_forum_tags.Outcome.{Outcome, ok, err, map_err, stuck, slice}
use nfc_forum_tags.Outcome
use nfc_forum_tags.Vec.{Build, try_push, data_capacity}
use nfc_forum_tags.Type2.Error.{Type2Error, out_of_range, invalid_magic, from_full}
use nfc_forum_tags.Type2.Geometry.{
  block_size, data_start_block, address_space_end, address_to_sector_block,
}
use nfc_forum_tags.Type2.Cc.{CapabilityContainer, is_dynamic, is_valid}
use nfc_forum_tags.Type2.Tlv.{
  Tlv, null, lock_control, memory_control, ndef_message, proprietary, terminator, parse_tlvs,
  ndef_data,
}
use nfc_forum_tags.Type2.Memory.{MemoryLayout, from_cc_and_tlvs, is_skip_area, any}
use nfc_forum_tags.Type2.Scanner.{TlvScanState, feed}
use nfc_forum_tags.Type2.Scanner
use nfc_forum_tags.Type2.Reader.State.{
  Transceiver, is_known, T2tReader, Action, pure, lift, or_raise, ◌>>=◌, ◌>>◌, raise_if,
}
use nfc_forum_tags.Type2.Reader.Link.{sector_select, read, read_cc}

-- The loop variables that a block's bytes change.
pub record Progress : Type 0 where
  pub result : List ℕ
  pub bytes_read : ℕ
  pub tlv_scan : TlvScanState

abbrev pub started : Progress
started = record { result = []; bytes_read = 0; tlv_scan = Scanner.new }

module _ (b : Build) (layout : MemoryLayout) where
  -- One usable byte: the answer is whether the scanner found the Terminator.
  unfoldable pub take_byte : ℕ → Progress → Outcome Type2Error (Bool × Progress)
  take_byte byte p =
      Outcome.◌>>=◌ (map_err from_full (try_push b data_capacity p.result byte)) λ result.
        let (found, scan) = feed p.tlv_scan byte in
        ok (found, record { result = result; bytes_read = p.bytes_read + 1; tlv_scan = scan })

  -- The bytes of a block from address `addr` on; the answer is whether the outer loop ends.
  unfoldable pub process_bytes : List ℕ → ℕ → Progress → Outcome Type2Error (Bool × Progress)
  unfolding take_byte
  process_bytes [] addr p = ok (false, p)
  process_bytes (byte ∷ bytes) addr p = elim (is_skip_area layout addr) [
    | true ↦ process_bytes bytes (addr + 1) p
    | false ↦ elim (leb layout.data_area_size p.bytes_read) [
      | true ↦ ok (true, p)
      | false ↦
          Outcome.◌>>=◌ (take_byte byte p)
            λ r. elim r.0 [ true ↦ ok (true, r.1) | false ↦ process_bytes bytes (addr + 1) r.1 ]
    ]
  ]

abbrev pub is_control : Tlv → Bool
is_control (lock_control v) = true
is_control (memory_control v) = true
is_control null = false
is_control (ndef_message v) = false
is_control (proprietary v) = false
is_control terminator = false

-- The value of the first NDEF Message block, or nothing.
unfoldable pub first_ndef : List Tlv → List ℕ
first_ndef [] = []
first_ndef (tlv ∷ tlvs) = elim (ndef_data tlv) [ some value ↦ value | none ↦ first_ndef tlvs ]

module _ (t : Transceiver) (b : Build) where
  open t use {Device, Error}

  -- `block.wrapping_sub(cb)`, if it is below 4.
  unfoldable pub blocks_ahead : T2tReader Device → ℕ → Option ℕ
  blocks_ahead r block = elim r.cache_block [
    | none ↦ none
    | some cb ↦ let ahead = (block + 256 - cb) % 256 in if ltb ahead 4 then some ahead else none
  ]

  -- Four of the bytes that a READ has answered, copied from a slice.
  abbrev pub block_at : List ℕ → ℕ → Action Device Error (List ℕ)
  block_at bytes offset r = (slice bytes offset block_size, r)

  -- The four bytes of a block, from the cache or by a READ.
  unfoldable pub block_data : ℕ → Action Device Error (List ℕ)
  unfolding blocks_ahead
  block_data block r = elim (blocks_ahead r block) [
    | some ahead ↦ block_at r.cache_data (ahead * block_size) r
    | none ↦ (do bytes ← read t b block; block_at bytes 0) r
  ]

  unfoldable pub select_if_needed : ℕ → Action Device Error (Unit {0})
  select_if_needed sector r =
      if not (is_known r.sector sector) then sector_select t b sector r else pure tt r

  -- The outer loop, with fuel for the blocks of the address space.
  unfoldable pub read_loop : ℕ → MemoryLayout → ℕ → Progress → Action Device Error (List ℕ)
  unfolding block_data select_if_needed process_bytes
  read_loop zero layout byte_addr p r = (stuck, r)
  read_loop (suc fuel) layout byte_addr p r = elim (ltb p.bytes_read layout.data_area_size) [
    | false ↦ pure p.result r
    | true ↦
        (do
          (sector, block, _) ← or_raise (address_to_sector_block byte_addr) out_of_range
          select_if_needed sector
          bytes ← block_data block
          (done, p') ← lift (process_bytes b layout bytes byte_addr p)
          elim done [
            | true ↦ pure p'.result
            | false ↦ read_loop fuel layout (byte_addr + block_size) p'
          ])
          r
  ]

  unfoldable pub read_data_area : MemoryLayout → Action Device Error (List ℕ)
  unfolding read_loop
  read_data_area layout =
      read_loop (address_space_end / block_size) layout (data_start_block * block_size) started

  unfoldable pub read_data_area_with_layout : CapabilityContainer → Action Device Error (List ℕ)
  unfolding read_data_area
  read_data_area_with_layout cc = do
    data_area ← read_data_area (from_cc_and_tlvs b cc [])
    tlvs ← lift (parse_tlvs b data_area)
    if is_dynamic cc && any is_control tlvs
        then read_data_area (from_cc_and_tlvs b cc tlvs)
        else pure data_area

  unfoldable pub read_ndef : Action Device Error (List ℕ)
  unfolding read_data_area_with_layout first_ndef
  read_ndef = do
    cc ← read_cc t b
    raise_if (not (is_valid cc)) (invalid_magic 0)
    data_area ← read_data_area_with_layout cc
    tlvs ← lift (parse_tlvs b data_area)
    pure (first_ndef tlvs)
