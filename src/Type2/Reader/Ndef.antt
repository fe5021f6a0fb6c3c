-- ===== src/Type2/Reader/Ndef.antt =====
-- Writing an NDEF message (src/type2/reader.rs, `write_ndef`).
use nfc_forum_tags.Prelude.{
  ℕ, ◌+◌, ◌-◌, ◌/◌, ◌%◌, ◌^◌, List, [], ◌∷◌, length, Option, none, some, not, ltb, if◌then◌else◌,
}
use nfc_forum_tags.Outcome.{Outcome, ok, err, map_err}
use nfc_forum_tags.Outcome
use nfc_forum_tags.Vec.{Build, try_push, try_extend, data_capacity}
use nfc_forum_tags.Type2.Error.{
  Type2Error, out_of_range, invalid_magic, invalid_tlv, read_only, from_full,
}
use nfc_forum_tags.Type2.Cc.{CapabilityContainer, is_valid, is_granted}
use nfc_forum_tags.Type2.Cc
use nfc_forum_tags.Type2.Tlv.{
  Tlv, null, lock_control, memory_control, ndef_message, proprietary, terminator, parse_tlvs,
  tlv_ndef_message, tlv_terminator,
}
use nfc_forum_tags.Type2.Memory.{MemoryLayout, from_cc_and_tlvs, usable_offset_to_address}
use nfc_forum_tags.Type2.Reader.State.{Transceiver, Action, lift, or_raise, ◌>>=◌, ◌>>◌, raise_if}
use nfc_forum_tags.Type2.Reader.Link.{read_cc}
use nfc_forum_tags.Type2.Reader.DataArea.{read_data_area_with_layout}
use nfc_forum_tags.Type2.Reader.Writer.{write_usable_bytes}

-- The loop that finds the first NDEF Message block, from an offset on.
unfoldable pub ndef_tlv_offset : ℕ → List Tlv → Option ℕ
ndef_tlv_offset offset [] = none
ndef_tlv_offset offset (ndef_message value ∷ tlvs) = some offset
ndef_tlv_offset offset (null ∷ tlvs) = ndef_tlv_offset (offset + 1) tlvs
ndef_tlv_offset offset (terminator ∷ tlvs) = none
ndef_tlv_offset offset (lock_control v ∷ tlvs) = ndef_tlv_offset (offset + 5) tlvs
ndef_tlv_offset offset (memory_control v ∷ tlvs) = ndef_tlv_offset (offset + 5) tlvs
ndef_tlv_offset offset (proprietary value ∷ tlvs) =
    let l_size : ℕ = if ltb (length value) 0xFF then 1 else 3 in
    ndef_tlv_offset (offset + (1 + l_size + length value)) tlvs

abbrev pub push : Build → List ℕ → ℕ → Outcome Type2Error (List ℕ)
push b out x = map_err from_full (try_push b data_capacity out x)

-- The payload's length field, zero for now.
abbrev pub push_zero_length : Build → ℕ → List ℕ → Outcome Type2Error (List ℕ)
push_zero_length b ndef_len out =
    if ltb ndef_len 0xFF
    then push b out 0x00
    else (Outcome.◌>>=◌ (push b out 0xFF) λ o. Outcome.◌>>=◌ (push b o 0x00) λ o'. push b o' 0x00)

-- T, a length of zero, the message, and the Terminator.
unfoldable pub build_payload : Build → List ℕ → Outcome Type2Error (List ℕ)
build_payload b ndef_data = Outcome.◌>>=◌ (push b [] tlv_ndef_message) λ o0.
    Outcome.◌>>=◌ (push_zero_length b (length ndef_data) o0) λ o1.
      Outcome.◌>>=◌ (map_err from_full (try_extend b data_capacity o1 ndef_data))
        λ o2. push b o2 tlv_terminator

-- The length field that replaces the zero at the end; `as u8` keeps the low byte.
unfoldable pub length_bytes : ℕ → List ℕ
length_bytes ndef_len =
    if ltb ndef_len 0xFF
    then ndef_len % 256 ∷ []
    else 0xFF ∷ ndef_len / 256 % 256 ∷ ndef_len % 256 ∷ []

-- `Option::ok_or`
abbrev pub or_else : {A : Type 0} → Option A → Type2Error → Outcome Type2Error A
or_else none e = err e
or_else (some a) e = ok a

-- What is known before the first WRITE: the layout, the offset and the physical address of the NDEF
-- block, and the exclusive limit.
pub record Target : Type 0 where
  pub layout : MemoryLayout
  pub ndef_offset : ℕ
  pub ndef_byte_addr : ℕ
  pub write_limit_addr : ℕ

-- The checks and the layout. Offsets and sizes go through `u16`; the limit's sum is in range of a
-- `u32`, since an address is below the end of the address space.
unfoldable pub locate : Build → CapabilityContainer → List Tlv → ℕ → Outcome Type2Error Target
locate b cc tlvs ndef_len =
    if ltb 0xFFFE ndef_len
    then err out_of_range
    else (let l_field_size : ℕ = if ltb ndef_len 0xFF then 1 else 3 in
        let data_area_size = Cc.data_area_size cc in
        let layout = from_cc_and_tlvs b cc tlvs in
        Outcome.◌>>=◌ (or_else (ndef_tlv_offset 0 tlvs) invalid_tlv) λ ndef_offset.
          if ltb data_area_size (ndef_offset + 1 + l_field_size + ndef_len + 1)
          then err out_of_range
          else (Outcome.◌>>=◌
              (or_else (usable_offset_to_address layout (ndef_offset % 2 ^ 16)) out_of_range)
              λ ndef_byte_addr.
                Outcome.◌>>=◌
                  (or_else
                    (usable_offset_to_address layout ((data_area_size + 2 ^ 16 - 1) % 2 ^ 16))
                    out_of_range)
                  λ last. ok (record {
                    layout = layout;
                    ndef_offset = ndef_offset;
                    ndef_byte_addr = ndef_byte_addr;
                    write_limit_addr = last + 1;
                  })))

module _ (t : Transceiver) (b : Build) where
  open t use {Device, Error}

  unfoldable pub write_ndef : List ℕ → Action Device Error (Unit {0})
  unfolding locate build_payload
  write_ndef ndef_data = do
    cc ← read_cc t b
    raise_if (not (is_valid cc)) (invalid_magic 0)
    raise_if (not (is_granted cc.write_access)) read_only
    data_area ← read_data_area_with_layout t b cc
    tlvs ← lift (parse_tlvs b data_area)
    target ← lift (locate b cc tlvs (length ndef_data))
    payload ← lift (build_payload b ndef_data)
    write_usable_bytes t b target.layout target.write_limit_addr target.ndef_byte_addr payload
    l_addr ←
        or_raise
          (usable_offset_to_address target.layout ((target.ndef_offset % 2 ^ 16 + 1) % 2 ^ 16))
          out_of_range
    write_usable_bytes t b target.layout target.write_limit_addr l_addr
        (length_bytes (length ndef_data))
