-- ===== src/Type2/Reader/Sector.antt =====
-- The selected sector and the read cache after a forced selection (src/type2/reader.rs,
-- `force_sector_select`).
use nfc_forum_tags.Type2.Reader.Valid.{IsValid, IsLost, IsSelected}
use nfc_forum_tags.Prelude.{ℕ, ◌≤◌, ◌≡◌, refl, false, List, Option, none, some, ltb, ltb-false}
use nfc_forum_tags.Vec.{Build}
use nfc_forum_tags.Type2.Geometry.{max_sector}
use nfc_forum_tags.Type2.Command.{
  Answer, data_read, ack, nack, passive_ack, to_bytes, parse_answer, sector_select_part1,
  sector_select_part2,
}
use nfc_forum_tags.Type2.Command.Answers.{parse_answer-Returns}
use nfc_forum_tags.Type2.Reader.State.{
  Transmission, received, failed, Transceiver, known, unknown, T2tReader, invalidate_cache,
}
use nfc_forum_tags.Type2.Reader.Link.{
  force_sector_select, exchange, exchange_silent, as_error, expect_ack, refuse_nack,
}
use nfc_forum_tags.Type2.Reader.Triple.{
  Post, Triple, Triple-weaken, Triple-pure, Triple-lift, Triple-bind, Triple-modify,
}

module _ (t : Transceiver) (b : Build) where
  open t use {Device, Error, transceive, transceive_no_response}

  -- The device may change under any answer.
  answered :
      {A : Type 0} (x : Transmission Error A) (r : T2tReader Device)
      → IsLost r
      → Post {D = Device} {E = Error} IsLost (λ (a : A) r. IsLost r) (as_error t b x, r)
  answered (received a) r l = l
  answered (failed e) r l = l

  moved : (r : T2tReader Device) (d : Device) → IsLost r → IsLost (record r { device = d })
  moved r d l = record {
    valid = record { cached = l.valid.cached; bytes = l.valid.bytes; selected = l.valid.selected };
    sector = l.sector;
    cache = l.cache;
  }

  exchanged :
      (cmd : List ℕ)
      → Triple {D = Device} {E = Error} IsLost IsLost
          (λ r. let (reply, r') = exchange t b cmd r in (as_error t b reply, r'))
          (λ _ r. IsLost r)
  unfolding exchange
  exchanged cmd = record { run = λ r l. answered _ _ (moved r _ l) }

  exchanged_silent :
      (cmd : List ℕ)
      → Triple {D = Device} {E = Error} IsLost IsLost
          (λ r. let (reply, r') = exchange_silent t b cmd r in (as_error t b reply, r'))
          (λ _ r. IsLost r)
  unfolding exchange_silent
  exchanged_silent cmd = record { run = λ r l. answered _ _ (moved r _ l) }

  pub expect_ack-Triple :
      {P : T2tReader Device → Type 0} (a : Answer) → Triple P P (expect_ack t b a) (λ _ r. P r)
  expect_ack-Triple ack = record { run = λ r p. p }
  expect_ack-Triple (nack code) = record { run = λ r p. p }
  expect_ack-Triple (data_read bytes) = record { run = λ r p. p }
  expect_ack-Triple passive_ack = record { run = λ r p. p }

  refuse_nack-Triple :
      {P : T2tReader Device → Type 0} (a : Option ℕ) → Triple P P (refuse_nack t b a) (λ _ r. P r)
  refuse_nack-Triple none = record { run = λ r p. p }
  refuse_nack-Triple (some code) = record { run = λ r p. p }

  -- Selecting a sector other than the reserved one succeeds with the sector selected, or fails with
  -- the sector unknown; the cache is empty either way.
  pub force_sector_select-Triple :
      (sector : ℕ)
      → sector ≤ max_sector
      → Triple IsLost IsValid (force_sector_select t b sector) (λ _ r. IsSelected sector r)
  unfolding force_sector_select
  force_sector_select-Triple sector h =
      let fine : ltb max_sector sector ≡ false = ltb-false max_sector sector h in
      Triple-bind (rw fine (Triple-pure IsValid tt (λ _ r. IsValid r) (λ r v. v))) λ _.
        Triple-bind
          (Triple-modify IsValid invalidate_cache (λ r. IsValid r × (r.cache_block ≡ none))
            (λ r v. (record { cached = v.cached; bytes = v.bytes; selected = v.selected }, refl)))
          λ _.
            Triple-bind
              (Triple-modify (λ r. IsValid r × (r.cache_block ≡ none))
                (λ r. record r { sector = unknown }) IsLost
                (λ r v. record {
                  valid = record { cached = v.0.cached; bytes = v.0.bytes; selected = tt };
                  sector = refl;
                  cache = v.1;
                }))
              λ _. Triple-bind (exchanged (to_bytes b sector_select_part1)) λ raw.
                Triple-bind
                  (Triple-lift IsLost (parse_answer sector_select_part1 raw) (λ _. Unit {0})
                    (λ r l. l) (parse_answer-Returns sector_select_part1 raw))
                  λ answer.
                    Triple-bind
                      (Triple-weaken (λ r l. l.0) (λ _ r l. l) (λ r l. l)
                        (expect_ack-Triple answer))
                      λ _.
                        Triple-bind (exchanged_silent (to_bytes b (sector_select_part2 sector)))
                          λ silence. Triple-bind (refuse_nack-Triple silence) λ _.
                            Triple-modify IsLost (λ r. record r { sector = known sector })
                              (IsSelected sector)
                              λ r l. record {
                                valid = record {
                                  cached = l.valid.cached;
                                  bytes = l.valid.bytes;
                                  selected = h;
                                };
                                sector = refl;
                                cache = l.cache;
                              }
