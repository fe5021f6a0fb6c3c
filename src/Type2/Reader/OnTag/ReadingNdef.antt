-- ===== src/Type2/Reader/OnTag/ReadingNdef.antt =====
-- The Capability Container and the NDEF message of a tag, as functions of its memory
-- (src/type2/reader.rs, `read_cc`, `read_data_area_with_layout` and `read_ndef`).
use nfc_forum_tags.Prelude.{
  ℕ, ◌<◌, ◌≡◌, ◌∙◌, refl, sym, ap, List, [], All, IsByte, false, not, ◌&&◌, arith,
}
use mathlib.Core.Path.{subst, subst⁻¹}
use nfc_forum_tags.Outcome.{ok, index, Ensures-Returns}
use nfc_forum_tags.Vec.{Build}
use nfc_forum_tags.Type2.Error.{invalid_magic}
use nfc_forum_tags.Type2.Geometry.{cc_block}
use nfc_forum_tags.Type2.Cc.{CapabilityContainer, is_dynamic, is_valid}
use nfc_forum_tags.Type2.Cc
use nfc_forum_tags.Type2.Cc.RoundTrip.{cc-Returns}
use nfc_forum_tags.Type2.Tlv.{parse_tlvs}
use nfc_forum_tags.Type2.Tlv.Total.{parse_tlvs-AreBlocks}
use nfc_forum_tags.Type2.Memory.{from_cc_and_tlvs, any}
use nfc_forum_tags.Type2.Reader.State.{Transceiver, T2tReader, Action, lift, ◌>>=◌}
use nfc_forum_tags.Type2.Reader.Link.{read_cc}
use nfc_forum_tags.Type2.Reader.DataArea.{
  read_data_area_with_layout, is_control, first_ndef, read_ndef,
}
use nfc_forum_tags.Type2.Reader.Triple.{
  Triple, Triple-weaken, Triple-pure, Triple-if, Triple-answer, Triple-bind, Triple-raise_if,
  Triple-given,
}
use nfc_forum_tags.Type2.TagMemory.{Memory, sector_bytes, four_blocks, IsTag}
use nfc_forum_tags.Type2.Reader.OnTag.Coherent.{IsCoherent, IsCoherentIn}
use nfc_forum_tags.Type2.Reader.OnTag.Selecting.{sector_select-OnTag}
use nfc_forum_tags.Type2.Reader.OnTag.Pages.{read-OnTag}
use nfc_forum_tags.Type2.Reader.OnTag.Reading.{read_data_area-OnTag}
use nfc_forum_tags.Type2.Reader.OnTag.Contents.{
  cc_of, data_area_of, full_data_area_of, message_of, data_area_of-IsByte, full_data_area_of-IsByte,
}

module _ {t : Transceiver} (b : Build) (tag : IsTag t) (mem : Memory) where
  open t use {Device, Error}

  abbrev Is : Memory → Type 0
  Is m = m ≡ mem

  rest_of_cc :
      Triple {E = Error}
        (IsCoherent tag Is)
        (IsCoherentIn tag 0 Is)
        (do
          b0 ← lift (index (four_blocks mem 0 cc_block) 0)
          b1 ← lift (index (four_blocks mem 0 cc_block) 1)
          b2 ← lift (index (four_blocks mem 0 cc_block) 2)
          b3 ← lift (index (four_blocks mem 0 cc_block) 3)
          lift (Cc.try_from (b0, b1, b2, b3)))
        (λ cc r. IsCoherentIn tag 0 Is r × (cc_of mem ≡ ok cc))
  unfolding sector_bytes ◌>>=◌
  rest_of_cc =
      Triple-answer (IsCoherentIn tag 0 Is) (cc_of mem) (λ r c. c.0)
        (cc-Returns (mem 12, mem 13, mem 14, mem 15))

  -- Reading the container answers what block 3 of sector 0 holds.
  pub read_cc-OnTag :
      Triple
        (IsCoherent tag Is)
        (IsCoherent tag Is)
        (read_cc t b)
        (λ cc r. IsCoherentIn tag 0 Is r × (cc_of mem ≡ ok cc))
  unfolding read_cc
  read_cc-OnTag = Triple-bind (sector_select-OnTag b tag Is 0 (omega arith)) λ _.
      Triple-bind (read-OnTag b tag mem 0 cc_block (omega arith)) λ block.
        Triple-given {X = block ≡ four_blocks mem 0 cc_block} λ e.
          subst⁻¹
            (λ (block : List ℕ).
              Triple {E = Error} (IsCoherent tag Is) (IsCoherentIn tag 0 Is)
                (do
                  b0 ← lift (index block 0)
                  b1 ← lift (index block 1)
                  b2 ← lift (index block 2)
                  b3 ← lift (index block 3)
                  lift (Cc.try_from (b0, b1, b2, b3)))
                (λ cc r. IsCoherentIn tag 0 Is r × (cc_of mem ≡ ok cc)))
            e rest_of_cc

  small : (r : T2tReader Device) → IsCoherent tag Is r → (a : ℕ) → mem a < 256
  small r c a = subst (λ (m : Memory). m a < 256) c.holds (tag.stored r.device a)

  -- Every coherent reader knows that the memory is made of bytes.
  with_bytes :
      {A : Type 0} (P : T2tReader Device → Type 0) (f : Action Device Error A)
      (Q : A → T2tReader Device → Type 0)
      → ((r : T2tReader Device) → P r → IsCoherent tag Is r)
      → (((a : ℕ) → mem a < 256) → Triple (IsCoherent tag Is) P f Q)
      → Triple (IsCoherent tag Is) P f Q
  with_bytes P f Q i h = record { run = λ r p. (h (small r (i r p))).run r p }

  -- The two passes answer what the memory holds.
  pub read_data_area_with_layout-OnTag :
      (cc : CapabilityContainer)
      → Triple
          (IsCoherent tag Is)
          (IsCoherent tag Is)
          (read_data_area_with_layout t b cc)
          (λ data_area r. IsCoherent tag Is r × (full_data_area_of b cc mem ≡ ok data_area))
  unfolding read_data_area_with_layout full_data_area_of
  read_data_area_with_layout-OnTag cc =
      with_bytes _ _ _ (λ r c. c)
        λ bytes.
          let first : List ℕ = data_area_of mem (from_cc_and_tlvs b cc []) in
          Triple-bind (read_data_area-OnTag b tag mem (from_cc_and_tlvs b cc [])) λ data_area.
            Triple-given {X = data_area ≡ first} λ e.
              Triple-bind
                (Triple-answer (IsCoherent tag Is) (parse_tlvs b data_area) (λ r c. c)
                  (Ensures-Returns _ _ (
                    parse_tlvs-AreBlocks b data_area
                      (subst⁻¹ (All IsByte) e (data_area_of-IsByte mem _ bytes)))))
                λ tlvs. Triple-given {X = parse_tlvs b data_area ≡ ok tlvs} λ p.
                  let q : parse_tlvs b first ≡ ok tlvs = ap (parse_tlvs b) (sym e) ∙ p in
                  Triple-if (is_dynamic cc && any is_control tlvs)
                    (λ two.
                      Triple-weaken
                        {Q = λ x r.
                          IsCoherent tag Is r × (x ≡ data_area_of mem (from_cc_and_tlvs b cc tlvs))}
                        (λ r c. c) (λ x r v. (v.0, rw (q, two) (ap (λ l. ok l) (sym v.1))))
                        (λ r c. c) (read_data_area-OnTag b tag mem (from_cc_and_tlvs b cc tlvs)))
                    (λ one.
                      Triple-pure _ data_area _ λ r c. (c, rw (q, one) (ap (λ l. ok l) (sym e))))

  -- Reading the message answers what the memory holds.
  pub read_ndef-OnTag :
      Triple
        (IsCoherent tag Is)
        (IsCoherent tag Is)
        (read_ndef t b)
        (λ message r. IsCoherent tag Is r × (message_of b mem ≡ ok message))
  unfolding read_ndef message_of
  read_ndef-OnTag = Triple-bind read_cc-OnTag λ cc. Triple-given {X = cc_of mem ≡ ok cc} λ h.
      Triple-bind
        (Triple-raise_if (IsCoherentIn tag 0 Is) (not (is_valid cc)) (invalid_magic 0) (λ r c. c.0))
        λ _. Triple-given {X = not (is_valid cc) ≡ false} λ v.
          with_bytes _ _ _ (λ r c. c.0)
            λ bytes.
              Triple-bind
                (Triple-weaken (λ r c. c.0) (λ _ r q. q) (λ r c. c)
                  (read_data_area_with_layout-OnTag cc))
                λ data_area. Triple-given {X = full_data_area_of b cc mem ≡ ok data_area} λ a.
                  Triple-bind
                    (Triple-answer (IsCoherent tag Is) (parse_tlvs b data_area) (λ r c. c)
                      (Ensures-Returns _ _ (
                        parse_tlvs-AreBlocks b data_area
                          (full_data_area_of-IsByte b cc mem data_area bytes a))))
                    λ tlvs. Triple-pure _ (first_ndef tlvs) _ λ r q. (q.0, rw (h, v, a, q.1) refl)
