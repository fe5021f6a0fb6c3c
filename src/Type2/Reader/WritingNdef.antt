-- ===== src/Type2/Reader/WritingNdef.antt =====
-- The checks, the payload and the writes of a message (src/type2/reader.rs, `write_ndef`).
use nfc_forum_tags.Type2.Reader.Exchange.{AnswersBytes}
use nfc_forum_tags.Type2.Reader.Selection.{read_cc-Triple}
use nfc_forum_tags.Type2.Reader.ReadingNdef.{read_data_area_with_layout-Triple}
use nfc_forum_tags.Type2.Reader.Valid.{IsValid, IsIn}
use nfc_forum_tags.Prelude.{
  ℕ, ◌+◌, ◌-◌, ◌%◌, ◌^◌, List, [], length, Option, none, some, ltb, All, IsByte, if◌then◌else◌, not,
}
use nfc_forum_tags.Outcome.{
  ◌>>=◌, Outcome, Returns, >>=-Returns, Ensures-if, Ensures-Returns, map_err, map_err-Ensures,
}
use nfc_forum_tags.Vec.{
  Build, try_push, try_extend, try_push-Returns, try_extend-Returns, data_capacity,
}
use nfc_forum_tags.Type2.Cc.{CapabilityContainer, is_valid, is_granted, data_area_size}
use nfc_forum_tags.Type2.Error.{
  Type2Error, out_of_range, invalid_magic, invalid_tlv, read_only, from_full,
}
use nfc_forum_tags.Type2.Memory.{from_cc_and_tlvs, usable_offset_to_address}
use nfc_forum_tags.Type2.Tlv.{Tlv, parse_tlvs, tlv_ndef_message, tlv_terminator}
use nfc_forum_tags.Type2.Tlv.Total.{parse_tlvs-AreBlocks}
use nfc_forum_tags.Type2.Reader.State.{Transceiver, known}
use nfc_forum_tags.Type2.Reader.Ndef.{
  locate, build_payload, push, push_zero_length, or_else, length_bytes, ndef_tlv_offset, write_ndef,
}
use nfc_forum_tags.Type2.Reader.Triple.{
  Triple, Triple-weaken, Triple-lift, Triple-or_raise, Triple-bind, Triple-raise_if, Triple-given,
}
use nfc_forum_tags.Type2.Reader.Writing.{write_usable_bytes-Triple}

push-Returns : (b : Build) (out : List ℕ) (x : ℕ) → Returns (push b out x)
push-Returns b out x =
    map_err-Ensures _ from_full (try_push b data_capacity out x)
      (try_push-Returns b data_capacity out x)

push_zero_length-Returns : (b : Build) (n : ℕ) (out : List ℕ) → Returns (push_zero_length b n out)
push_zero_length-Returns b n out =
    Ensures-if _ (ltb n 0xFF) _ _ (λ _. push-Returns b out 0x00)
      λ _.
        >>=-Returns (push b out 0xFF) _ (push-Returns b out 0xFF)
          λ o. >>=-Returns (push b o 0x00) _ (push-Returns b o 0x00) λ o'. push-Returns b o' 0x00

pub build_payload-Returns : (b : Build) (message : List ℕ) → Returns (build_payload b message)
unfolding build_payload
build_payload-Returns b message =
    >>=-Returns (push b [] tlv_ndef_message) _ (push-Returns b [] tlv_ndef_message) λ o0.
      >>=-Returns (push_zero_length b (length message) o0) _
        (push_zero_length-Returns b (length message) o0)
        λ o1.
          >>=-Returns (map_err from_full (try_extend b data_capacity o1 message)) _
            (map_err-Ensures _ from_full (try_extend b data_capacity o1 message)
              (try_extend-Returns b data_capacity o1 message))
            λ o2. push-Returns b o2 tlv_terminator

-- What follows `ok_or` and `?` is run on the value only.
or_else-Returns :
    {A B : Type 0} (o : Option A) (e : Type2Error) (f : A → Outcome Type2Error B)
    → ((a : A) → Returns (f a))
    → Returns (or_else o e >>= f)
or_else-Returns none e f h = tt
or_else-Returns (some a) e f h = h a

pub locate-Returns :
    (b : Build) (cc : CapabilityContainer) (tlvs : List Tlv) (n : ℕ) → Returns (locate b cc tlvs n)
unfolding locate
locate-Returns b cc tlvs n =
    let layout = from_cc_and_tlvs b cc tlvs in
    Ensures-if _ (ltb 0xFFFE n) _ _ (λ _. tt)
      λ _. or_else-Returns (ndef_tlv_offset 0 tlvs) invalid_tlv _ λ offset.
        Ensures-if _ (ltb (data_area_size cc) (offset + 1 + (if ltb n 0xFF then 1 else 3) + n + 1))
          _ _ (λ _. tt)
          λ _.
            or_else-Returns (usable_offset_to_address layout (offset % 2 ^ 16)) out_of_range _
              λ addr.
                or_else-Returns
                  (usable_offset_to_address layout ((data_area_size cc + 2 ^ 16 - 1) % 2 ^ 16))
                  out_of_range _ λ last. tt

module _ (t : Transceiver) (b : Build) (answers : AnswersBytes t) where
  -- Writing a message returns, from a valid reader and for any message, and leaves a valid reader.
  pub write_ndef-Triple :
      (message : List ℕ) → Triple IsValid IsValid (write_ndef t b message) (λ _ r. IsValid r)
  unfolding write_ndef
  write_ndef-Triple message = Triple-bind (read_cc-Triple t b answers) λ cc.
      Triple-bind
        (Triple-raise_if (IsIn (known 0)) (not (is_valid cc)) (invalid_magic 0) (λ r v. v.0))
        λ _.
          Triple-bind
            (Triple-weaken (λ r v. v.0.0) (λ _ r v. v.0) (λ _ z. z)
              (Triple-raise_if IsValid (not (is_granted cc.write_access)) read_only (λ r v. v)))
            λ _. Triple-bind (read_data_area_with_layout-Triple t b answers cc) λ data_area.
              Triple-given {X = All IsByte data_area} λ h.
                Triple-bind
                  (Triple-lift IsValid (parse_tlvs b data_area) (λ _. Unit {0}) (λ r v. v)
                    (Ensures-Returns _ _ (parse_tlvs-AreBlocks b data_area h)))
                  λ tlvs.
                    Triple-bind
                      (Triple-weaken (λ r v. v.0) (λ _ r v. v.0) (λ _ z. z)
                        (Triple-lift IsValid (locate b cc tlvs (length message)) (λ _. Unit {0})
                          (λ r v. v) (locate-Returns b cc tlvs (length message))))
                      λ target.
                        Triple-bind
                          (Triple-weaken (λ r v. v) (λ _ r v. v.0) (λ _ z. z)
                            (Triple-lift IsValid (build_payload b message) (λ _. Unit {0})
                              (λ r v. v) (build_payload-Returns b message)))
                          λ payload.
                            Triple-bind
                              (write_usable_bytes-Triple t b answers target.layout
                                target.write_limit_addr target.ndef_byte_addr payload)
                              λ _.
                                Triple-bind
                                  (Triple-weaken (λ r v. v) (λ _ r v. v.0) (λ _ z. z)
                                    (Triple-or_raise IsValid
                                      (usable_offset_to_address target.layout
                                        ((target.ndef_offset % 2 ^ 16 + 1) % 2 ^ 16))
                                      out_of_range (λ r v. v)))
                                  λ l_addr.
                                    write_usable_bytes-Triple t b answers target.layout
                                      target.write_limit_addr l_addr (length_bytes (length message))
