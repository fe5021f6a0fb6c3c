-- ===== src/Type2/Reader/Recovering.antt =====
-- A device whose transmissions fail a number of times, and the selection of a sector on it
-- (src/type2/reader.rs, `force_sector_select`).
use nfc_forum_tags.Prelude.{
  ℕ, suc, ◌≤◌, ◌≡◌, refl, false, List, Option, none, some, ltb, ltb-false, arith,
}
use mathlib.Core.Path.{subst⁻¹}
use nfc_forum_tags.Outcome.{ok, map_err}
use nfc_forum_tags.Vec.{Build}
use nfc_forum_tags.Type2.Geometry.{max_sector}
use nfc_forum_tags.Type2.Command.{
  Answer, ack, data_read, nack, passive_ack, to_bytes, parse_answer, sector_select_part1,
  sector_select_part2,
}
use nfc_forum_tags.Type2.Command.RoundTrip.{wire, command_wire}
use nfc_forum_tags.Type2.Reader.State.{
  received, Transceiver, protocol, known, unknown, T2tReader, invalidate_cache, lift,
}
use nfc_forum_tags.Type2.Reader.Link.{
  exchange, exchange_silent, as_error, expect_ack, refuse_nack, force_sector_select,
}
use nfc_forum_tags.Type2.Reader.Triple.{Post, Triple, Triple-pure, Triple-bind, Triple-modify}

-- A device on which the transmission of a frame fails a number of times before it is answered, and on
-- which a selection of a sector succeeds and changes nothing about that.
pub record IsRecovering (t : Transceiver) (cmd : List ℕ) : Type 0 where
  pub faults : t.Device → ℕ
  pub answers :
      (d : t.Device) → faults d ≡ 0 → (raw : List ℕ) × ((t.transceive cmd d).0 ≡ received raw)
  pub recovers : (d : t.Device) (k : ℕ) → faults d ≤ suc k → faults (t.transceive cmd d).1 ≤ k
  pub acknowledges :
      (d : t.Device)
      → (raw : List ℕ) × ((t.transceive (wire sector_select_part1) d).0 ≡ received raw)
        × (parse_answer sector_select_part1 raw ≡ ok ack)
        × (faults (t.transceive (wire sector_select_part1) d).1 ≤ faults d)
  pub selects :
      (s : ℕ) (d : t.Device)
      → let d' = (t.transceive (wire sector_select_part1) d).1 in
        ((t.transceive_no_response (wire (sector_select_part2 s)) d').0 ≡ received none)
        × (faults (t.transceive_no_response (wire (sector_select_part2 s)) d').1 ≤ faults d')

-- No error is left.
abbrev pub Never : {D : Type 0} → T2tReader D → Type 0
Never r = ⊥

module _ {t : Transceiver} (b : Build) (cmd : List ℕ) (device : IsRecovering t cmd) where
  open t use {Device, Error, transceive, transceive_no_response}

  -- No more than `k` failures are to come.
  abbrev pub AtMost : ℕ → T2tReader Device → Type 0
  AtMost k r = device.faults r.device ≤ k

  -- The first packet of SECTOR SELECT was the last that was sent.
  abbrev Waiting : ℕ → T2tReader Device → Type 0
  Waiting k r = AtMost k r × (d : Device) × (r.device ≡ (transceive (wire sector_select_part1) d).1)

  first_packet :
      (k : ℕ)
      → Triple {E = Error} Never
          (AtMost k)
          (λ r.
            let (reply, r') = exchange t b (to_bytes b sector_select_part1) r in
            (as_error t b reply, r'))
          (λ raw r. Waiting k r × (parse_answer sector_select_part1 raw ≡ ok ack))
  unfolding exchange
  first_packet k = rw (command_wire b sector_select_part1) (record {
    run = λ r l.
        let (raw, e, p, f) = device.acknowledges r.device in
        subst⁻¹
          (λ x.
            Post {D = Device} {E = Error} Never
              (λ raw r. Waiting k r × (parse_answer sector_select_part1 raw ≡ ok ack))
              (
                as_error t b x,
                record r { device = (transceive (wire sector_select_part1) r.device).1 },
              ))
          e ((omega (arith, f, l), r.device, refl), p);
  })

  second_packet :
      (k s : ℕ)
      → Triple {E = Error} Never
          (Waiting k)
          (λ r.
            let (reply, r') = exchange_silent t b (to_bytes b (sector_select_part2 s)) r in
            (as_error t b reply, r'))
          (λ silence r. AtMost k r × (silence ≡ none))
  unfolding exchange_silent
  second_packet k s = rw (command_wire b (sector_select_part2 s)) (record {
    run = λ r l.
        let (few, d, same) = l in
        let (e, f) =
          subst⁻¹
            (λ d'.
              ((transceive_no_response (wire (sector_select_part2 s)) d').0 ≡ received none)
              × (device.faults (transceive_no_response (wire (sector_select_part2 s)) d').1
                  ≤ device.faults d'))
            same (device.selects s d) in
        subst⁻¹
          (λ x.
            Post {D = Device} {E = Error} Never (λ silence r. AtMost k r × (silence ≡ none))
              (
                as_error t b x,
                record r {
                  device = (transceive_no_response (wire (sector_select_part2 s)) r.device).1;
                },
              ))
          e (omega (arith, f, few), refl);
  })

  parsed :
      (k : ℕ) (raw : List ℕ)
      → Triple {E = Error} Never
          (λ (r : T2tReader Device). Waiting k r × (parse_answer sector_select_part1 raw ≡ ok ack))
          (lift (parse_answer sector_select_part1 raw))
          (λ a r. Waiting k r × (a ≡ ack))
  parsed k raw = record {
    run = λ r q.
        subst⁻¹
          (λ x.
            Post {D = Device} {E = Error} Never (λ a r. Waiting k r × (a ≡ ack))
              (map_err protocol x, r))
          q.1 (q.0, refl);
  }

  acknowledged :
      (k : ℕ) (a : Answer)
      → Triple Never (λ r. Waiting k r × (a ≡ ack)) (expect_ack t b a) (λ _. Waiting k)
  acknowledged k ack = record { run = λ r q. q.0 }
  acknowledged k (nack code) = record { run = λ r q. absurd (cc (q.1)) }
  acknowledged k (data_read bytes) = record { run = λ r q. absurd (cc (q.1)) }
  acknowledged k passive_ack = record { run = λ r q. absurd (cc (q.1)) }

  silent :
      (k : ℕ) (a : Option ℕ)
      → Triple Never (λ r. AtMost k r × (a ≡ none)) (refuse_nack t b a) (λ _. AtMost k)
  silent k none = record { run = λ r q. q.0 }
  silent k (some code) = record { run = λ r q. absurd (cc (q.1)) }

  pub selection :
      (k s : ℕ)
      → s ≤ max_sector
      → Triple Never (AtMost k) (force_sector_select t b s) (λ _. AtMost k)
  unfolding force_sector_select
  selection k s h =
      let fine : ltb max_sector s ≡ false = ltb-false max_sector s h in
      Triple-bind (rw fine (Triple-pure (AtMost k) tt (λ _. AtMost k) (λ r l. l))) λ _.
        Triple-bind (Triple-modify (AtMost k) invalidate_cache (AtMost k) (λ r l. l)) λ _.
          Triple-bind
            (Triple-modify (AtMost k) (λ r. record r { sector = unknown }) (AtMost k) (λ r l. l))
            λ _. Triple-bind (first_packet k) λ raw. Triple-bind (parsed k raw) λ answer.
              Triple-bind (acknowledged k answer) λ _. Triple-bind (second_packet k s) λ silence.
                Triple-bind (silent k silence) λ _.
                  Triple-modify (AtMost k) (λ r. record r { sector = known s }) (AtMost k)
                    (λ r l. l)
