-- ===== src/Type2/Reader/ReadingNdef.antt =====
-- The two passes over the data area, and the NDEF message (src/type2/reader.rs,
-- `read_data_area_with_layout` and `read_ndef`).
use nfc_forum_tags.Type2.Reader.Exchange.{AnswersBytes}
use nfc_forum_tags.Type2.Reader.Selection.{read_cc-Triple}
use nfc_forum_tags.Type2.Reader.Reading.{read_data_area-Triple}
use nfc_forum_tags.Type2.Reader.Valid.{IsValid, IsIn, IsDataArea}
use nfc_forum_tags.Prelude.{[], All, IsByte, not, ◌&&◌}
use nfc_forum_tags.Outcome.{Ensures-Returns}
use nfc_forum_tags.Vec.{Build}
use nfc_forum_tags.Type2.Error.{invalid_magic}
use nfc_forum_tags.Type2.Tlv.{parse_tlvs}
use nfc_forum_tags.Type2.Tlv.Total.{parse_tlvs-AreBlocks}
use nfc_forum_tags.Type2.Cc.{CapabilityContainer, is_dynamic, is_valid}
use nfc_forum_tags.Type2.Memory.{from_cc_and_tlvs, any}
use nfc_forum_tags.Type2.Reader.State.{Transceiver, known}
use nfc_forum_tags.Type2.Reader.DataArea.{
  read_data_area_with_layout, is_control, first_ndef, read_ndef,
}
use nfc_forum_tags.Type2.Reader.Triple.{
  Triple, Triple-weaken, Triple-pure, Triple-if, Triple-lift, Triple-bind, Triple-raise_if,
  Triple-given,
}

module _ (t : Transceiver) (b : Build) (answers : AnswersBytes t) where
  open t use {Device, Error}

  pub read_data_area_with_layout-Triple :
      (cc : CapabilityContainer)
      → Triple IsValid IsValid
          (read_data_area_with_layout t b cc)
          (λ data_area r. IsValid r × All IsByte data_area)
  unfolding read_data_area_with_layout
  read_data_area_with_layout-Triple cc =
      Triple-bind (read_data_area-Triple t b answers (from_cc_and_tlvs b cc [])) λ data_area.
        Triple-given {X = IsDataArea (from_cc_and_tlvs b cc []) data_area} λ h.
          Triple-bind
            (Triple-lift IsValid (parse_tlvs b data_area) (λ _. Unit {0}) (λ r v. v)
              (Ensures-Returns _ _ (parse_tlvs-AreBlocks b data_area h.0)))
            λ tlvs.
              Triple-if (is_dynamic cc && any is_control tlvs)
                (λ _.
                  Triple-weaken (λ r v. v.0) (λ _ r v. (v.0, v.1.0)) (λ _ z. z)
                    (read_data_area-Triple t b answers (from_cc_and_tlvs b cc tlvs)))
                (λ _. Triple-pure _ data_area _ λ r v. (v.0, h.0))

  -- Reading the NDEF message returns, from a valid reader, and leaves one.
  pub read_ndef-Triple : Triple IsValid IsValid (read_ndef t b) (λ _ r. IsValid r)
  unfolding read_ndef
  read_ndef-Triple = Triple-bind (read_cc-Triple t b answers) λ cc.
      Triple-bind
        (Triple-raise_if (IsIn (known 0)) (not (is_valid cc)) (invalid_magic 0) (λ r v. v.0))
        λ _.
          Triple-bind
            (Triple-weaken (λ r v. v.0.0) (λ _ r v. v) (λ _ z. z)
              (read_data_area_with_layout-Triple cc))
            λ data_area. Triple-given {X = All IsByte data_area} λ h.
              Triple-bind
                (Triple-lift IsValid (parse_tlvs b data_area) (λ _. Unit {0}) (λ r v. v)
                  (Ensures-Returns _ _ (parse_tlvs-AreBlocks b data_area h)))
                λ tlvs. Triple-pure _ (first_ndef tlvs) _ λ r v. v.0
