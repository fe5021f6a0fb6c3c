-- ===== src/Type2/Reader/Selection.antt =====
-- The selection of a sector and the Capability Container (src/type2/reader.rs, `sector_select` and
-- `read_cc`).
use nfc_forum_tags.Type2.Reader.Valid.{IsValid, IsIn, IsSixteen}
use nfc_forum_tags.Prelude.{ℕ, ◌≤◌, ◌<◌, ◌≡◌, true, List, arith, ltb, IsByte, ltb-false, ==_iff}
use nfc_forum_tags.Outcome.{index, index-Ensures}
use mathlib.Core.Path.{ap}
use nfc_forum_tags.Vec.{Build}
use nfc_forum_tags.Type2.Error.{Type2Error}
use nfc_forum_tags.Type2.Geometry.{max_sector, cc_block}
use nfc_forum_tags.Type2.Cc.{CapabilityContainer, Bytes4}
use nfc_forum_tags.Type2.Cc
use nfc_forum_tags.Type2.Cc.RoundTrip.{cc-Returns}
use nfc_forum_tags.Type2.Reader.State.{Transceiver, SectorState, known, unknown, is_known, lift}
use nfc_forum_tags.Type2.Reader.Link.{sector_select, read_cc}
use nfc_forum_tags.Type2.Reader.Triple.{
  Post-if, Triple, Triple-weaken, Triple-lift, Triple-bind, Triple-given,
}
use nfc_forum_tags.Type2.Reader.Sector.{force_sector_select-Triple}
use nfc_forum_tags.Type2.Reader.Exchange.{AnswersBytes}
use nfc_forum_tags.Type2.Reader.Pages.{read-Triple}

pub is_known-true : (s : SectorState) (n : ℕ) → is_known s n ≡ true → s ≡ known n
is_known-true (known m) n h = ap (λ x. known x) ((==_iff m n).0 h)
is_known-true unknown n h = absurd (cc)

module _ (t : Transceiver) (b : Build) (answers : AnswersBytes t) where
  open t use {Device, Error}

  pub sector_select-Triple :
      (sector : ℕ)
      → sector ≤ max_sector
      → Triple IsValid IsValid (sector_select t b sector) (λ _ r. IsIn (known sector) r)
  unfolding sector_select
  sector_select-Triple sector h = record {
    run = λ r v.
        Post-if IsValid (λ _. IsIn (known sector)) (ltb max_sector sector) _ _
          (λ e. absurd (cc (e, ltb-false max_sector sector h)))
          (λ _.
            Post-if IsValid (λ _. IsIn (known sector)) (is_known r.sector sector) _ _
              (λ k. (v, is_known-true r.sector sector k))
              (λ _.
                (Triple-weaken (λ r l. l) (λ _ _ q. (q.valid, q.sector)) (λ _ l. l.valid)
                    (force_sector_select-Triple t b sector h)).run
                  r v));
  }

  byte_at :
      (s : SectorState) (block : List ℕ) (i : ℕ)
      → IsSixteen block
      → i < 16
      → Triple {D = Device} {E = Error} IsValid (IsIn s) (lift (index block i)) (λ _ r. IsIn s r)
  byte_at s block i h l =
      Triple-weaken (λ r v. v) (λ _ r q. q.0) (λ _ q. q)
        (Triple-lift (IsIn s) (index block i) IsByte (λ r v. v.0)
          (index-Ensures Type2Error IsByte block i h.bytes (omega (arith, h.size))))

  -- Reading the Capability Container selects sector 0.
  pub read_cc-Triple : Triple IsValid IsValid (read_cc t b) (λ _ r. IsIn (known 0) r)
  unfolding read_cc
  read_cc-Triple = Triple-bind (sector_select-Triple 0 (omega arith)) λ _.
      Triple-bind (read-Triple t b answers (known 0) cc_block) λ block.
        Triple-given {X = IsSixteen block} λ h.
          Triple-bind (byte_at (known 0) block 0 h (omega arith)) λ b0.
            Triple-bind (byte_at (known 0) block 1 h (omega arith)) λ b1.
              Triple-bind (byte_at (known 0) block 2 h (omega arith)) λ b2.
                Triple-bind (byte_at (known 0) block 3 h (omega arith)) λ b3.
                  Triple-weaken (λ r v. v) (λ _ r q. q.0) (λ _ q. q)
                    (Triple-lift (IsIn (known 0)) (Cc.try_from (b0, b1, b2, b3)) (λ _. Unit {0})
                      (λ r v. v.0) (cc-Returns (b0, b1, b2, b3)))
