-- ===== src/Type2/Reader/OnTag/Selecting.antt =====
-- SECTOR SELECT on a tag (src/type2/reader.rs, `force_sector_select` and `sector_select`).
use nfc_forum_tags.Prelude.{
  ℕ, ◌≡◌, ◌≤◌, ◌∙◌, refl, true, false, List, Option, none, some, ltb, ltb-false, sym, ap,
}
use mathlib.Core.Path.{subst}
use nfc_forum_tags.Outcome.{ok}
use nfc_forum_tags.Vec.{Build}
use nfc_forum_tags.Type2.Geometry.{max_sector}
use nfc_forum_tags.Type2.Command.{
  Command, Answer, data_read, ack, nack, passive_ack, to_bytes, parse_answer, sector_select_part1,
  sector_select_part2,
}
use nfc_forum_tags.Type2.Command.RoundTrip.{wire, command_wire}
use nfc_forum_tags.Type2.Command.Answers.{parse_answer-Returns}
use nfc_forum_tags.Type2.Reader.State.{
  Transmission, received, failed, Transceiver, known, unknown, is_known, T2tReader,
  invalidate_cache,
}
use nfc_forum_tags.Type2.Reader.Link.{
  force_sector_select, sector_select, exchange, exchange_silent, as_error, expect_ack, refuse_nack,
}
use nfc_forum_tags.Type2.Reader.Valid.{IsValid, IsLost, IsSelected}
use nfc_forum_tags.Type2.Reader.Selection.{is_known-true}
use nfc_forum_tags.Type2.Reader.Triple.{
  Post, Post-if, Triple, Triple-weaken, Triple-pure, Triple-answer, Triple-bind, Triple-modify,
}
use nfc_forum_tags.Type2.TagMemory.{Memory, IsTag}
use nfc_forum_tags.Type2.Reader.OnTag.Coherent.{
  IsCoherent, IsCoherentIn, IsLostWith, lost-IsCoherent,
}

moved : {D : Type 0} (r : T2tReader D) (d : D) → IsLost r → IsLost (record r { device = d })
moved r d l = record {
  valid = record { cached = l.valid.cached; bytes = l.valid.bytes; selected = l.valid.selected };
  sector = l.sector;
  cache = l.cache;
}

pub known-injective : (s u : ℕ) → known s ≡ known u → s ≡ u
known-injective s u e = cc

module _ {t : Transceiver} (b : Build) (tag : IsTag t) (K : Memory → Type 0) where
  open t use {Device, Error, transceive, transceive_no_response}

  abbrev Lost : T2tReader Device → Type 0
  Lost r = IsLostWith tag K r

  -- An exchange that keeps the memory, with what its answer says of the device.
  exchanged :
      (c : Command) (R : List ℕ → Device → Type 0)
      → ((d : Device) → tag.memory (transceive (wire c) d).1 ≡ tag.memory d)
      → ((d : Device) (raw : List ℕ)
          → (transceive (wire c) d).0 ≡ received raw
          → R raw (transceive (wire c) d).1)
      → Triple {E = Error} Lost Lost
          (λ r. let (reply, r') = exchange t b (to_bytes b c) r in (as_error t b reply, r'))
          (λ raw r. Lost r × R raw r.device)
  unfolding exchange
  exchanged c R keeps says = rw (command_wire b c) (record {
    run = λ r l.
        outcome r (transceive (wire c) r.device).0 (transceive (wire c) r.device).1
          (moved r _ l.0, subst K (sym (keeps r.device)) l.1) (λ raw e. says r.device raw e);
  })
    where
      outcome :
          (r : T2tReader Device) (x : Transmission Error (List ℕ)) (d : Device)
          → Lost (record r { device = d })
          → ((raw : List ℕ) → x ≡ received raw → R raw d)
          → Post {D = Device} {E = Error} Lost
              (λ raw r. Lost r × R raw r.device)
              (as_error t b x, record r { device = d })
      outcome r (received raw) d l h = (l, h raw refl)
      outcome r (failed e) d l h = l

  -- After the second packet the sector is selected, if silence answers it.
  second_packet :
      (s : ℕ)
      → Triple {E = Error} Lost
          (λ r. Lost r × (tag.waits r.device ≡ true))
          (λ r.
            let (reply, r') = exchange_silent t b (to_bytes b (sector_select_part2 s)) r in
            (as_error t b reply, r'))
          (λ silence r. Lost r × (silence ≡ none → tag.selected r.device ≡ s))
  unfolding exchange_silent
  second_packet s = rw (command_wire b (sector_select_part2 s)) (record {
    run = λ r l.
        let after = transceive_no_response (wire (sector_select_part2 s)) r.device in
        outcome r after.0 after.1
          (moved r _ l.0.0, subst K (sym (tag.part2_keeps s r.device)) l.0.1)
          (λ e. tag.part2_answers s r.device l.1 e);
  })
    where
      outcome :
          (r : T2tReader Device) (x : Transmission Error (Option ℕ)) (d : Device)
          → Lost (record r { device = d })
          → (x ≡ received none → tag.selected d ≡ s)
          → Post {D = Device} {E = Error} Lost
              (λ silence r. Lost r × (silence ≡ none → tag.selected r.device ≡ s))
              (as_error t b x, record r { device = d })
      outcome r (received silence) d l h = (l, λ e. h (ap (λ o. received o) e))
      outcome r (failed e) d l h = l

  acknowledged :
      (raw : List ℕ) (answer : Answer)
      → Triple Lost
          (λ r.
            (Lost r × (parse_answer sector_select_part1 raw ≡ ok ack → tag.waits r.device ≡ true))
            × (parse_answer sector_select_part1 raw ≡ ok answer))
          (expect_ack t b answer)
          (λ _ r. Lost r × (tag.waits r.device ≡ true))
  acknowledged raw ack = record { run = λ r l. (l.0.0, l.0.1 l.1) }
  acknowledged raw (nack code) = record { run = λ r l. l.0.0 }
  acknowledged raw (data_read bytes) = record { run = λ r l. l.0.0 }
  acknowledged raw passive_ack = record { run = λ r l. l.0.0 }

  silent :
      (s : ℕ) (silence : Option ℕ)
      → Triple Lost
          (λ r. Lost r × (silence ≡ none → tag.selected r.device ≡ s))
          (refuse_nack t b silence)
          (λ _ r. Lost r × (tag.selected r.device ≡ s))
  silent s none = record { run = λ r l. (l.0, l.1 refl) }
  silent s (some code) = record { run = λ r l. l.0 }

  -- A selection, forced, keeps the memory, and leaves the sector selected or an unknown one.
  pub force_sector_select-OnTag :
      (s : ℕ)
      → s ≤ max_sector
      → Triple Lost
          (λ r. IsValid r × K (tag.memory r.device))
          (force_sector_select t b s)
          (λ _ r. (IsSelected s r × K (tag.memory r.device)) × (tag.selected r.device ≡ s))
  unfolding force_sector_select
  force_sector_select-OnTag s h =
      let fine : ltb max_sector s ≡ false = ltb-false max_sector s h in
      let Start : T2tReader Device → Type 0 = λ r. IsValid r × K (tag.memory r.device) in
      let Empty : T2tReader Device → Type 0 = λ r. Start r × (r.cache_block ≡ none) in
      Triple-bind (rw fine (Triple-pure Start tt (λ _ r. Start r) (λ r v. v))) λ _.
        Triple-bind
          (Triple-modify Start invalidate_cache Empty (λ r v. (
            (record { cached = v.0.cached; bytes = v.0.bytes; selected = v.0.selected }, v.1),
            refl,
          )))
          λ _.
            Triple-bind
              (Triple-modify Empty (λ r. record r { sector = unknown }) Lost
                (λ r v. (
                  record {
                    valid = record { cached = v.0.0.cached; bytes = v.0.0.bytes; selected = tt };
                    sector = refl;
                    cache = v.1;
                  },
                  v.0.1,
                )))
              λ _.
                Triple-bind
                  (exchanged sector_select_part1
                    (λ raw d. parse_answer sector_select_part1 raw ≡ ok ack → tag.waits d ≡ true)
                    tag.part1_keeps tag.part1_answers)
                  λ raw.
                    Triple-bind
                      (Triple-answer _ (parse_answer sector_select_part1 raw) (λ r l. l.0)
                        (parse_answer-Returns sector_select_part1 raw))
                      λ answer. Triple-bind (acknowledged raw answer) λ _.
                        Triple-bind (second_packet s) λ silence. Triple-bind (silent s silence) λ _.
                          Triple-modify _ (λ r. record r { sector = known s }) _
                            λ r l. (
                              (
                                record {
                                  valid = record {
                                    cached = l.0.0.valid.cached;
                                    bytes = l.0.0.valid.bytes;
                                    selected = h;
                                  };
                                  sector = refl;
                                  cache = l.0.0.cache;
                                },
                                l.0.1,
                              ),
                              l.1,
                            )

  -- Selecting a sector keeps the memory, and leaves a coherent reader.
  pub sector_select-OnTag :
      (s : ℕ)
      → s ≤ max_sector
      → Triple
          (IsCoherent tag K)
          (IsCoherent tag K)
          (sector_select t b s)
          (λ _. IsCoherentIn tag s K)
  unfolding sector_select
  sector_select-OnTag s h = record {
    run = λ r c.
        Post-if (IsCoherent tag K) (λ _. IsCoherentIn tag s K) (ltb max_sector s) _ _
          (λ e. absurd (cc (e, ltb-false max_sector s h)))
          (λ _.
            Post-if (IsCoherent tag K) (λ _. IsCoherentIn tag s K) (is_known r.sector s) _ _
              (λ k. (c, is_known-true r.sector s k))
              (λ _.
                (Triple-weaken (λ r l. l) (λ _ r q. (selected_copy r q, q.0.0.sector))
                    (lost-IsCoherent tag K) (force_sector_select-OnTag s h)).run
                  r (c.valid, c.holds)));
  }
    where
      selected_copy :
          (r : T2tReader Device)
          → (IsSelected s r × K (tag.memory r.device)) × (tag.selected r.device ≡ s)
          → IsCoherent tag K r
      selected_copy r q = record {
        valid = q.0.0.valid;
        holds = q.0.1;
        selected = λ u e. q.1 ∙ known-injective s u (sym q.0.0.sector ∙ e);
        copy = λ u e n f. absurd (cc (q.0.0.cache, f));
      }
