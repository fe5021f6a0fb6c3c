-- ===== src/Tests/FlakyTag.antt =====
-- READ and WRITE on a tag whose transmissions fail a number of times.
use nfc_forum_tags.Prelude.{
  ℕ, zero, suc, ◌+◌, ◌*◌, ◌≤◌, ◌≡◌, ◌⊎◌, inl, refl, List, [], ◌∷◌, true, false, length, none, ◌==◌,
  if◌then◌else◌, arith, take,
}
use mathlib.Core.Path.{subst}
use nfc_forum_tags.Outcome.{ok}
use nfc_forum_tags.Type2.Cc.{Bytes4}
use nfc_forum_tags.Type2.Command.{Command, ack, parse_answer}
use nfc_forum_tags.Type2.Command.RoundTrip.{wire}
use nfc_forum_tags.Type2.Reader.State.{
  Transmission, received, failed, Transceiver, T2tReader, known, new,
}
use nfc_forum_tags.Type2.Reader.Link.{read, write}
use nfc_forum_tags.Type2.Reader.Triple.{Post}
use nfc_forum_tags.Type2.Reader.Recovering.{IsRecovering, Never}
use nfc_forum_tags.Type2.Reader.Recovered.{read_carried_out, write_carried_out}
use nfc_forum_tags.Type2.TagMemory.{Memory, four_blocks, sector_bytes, store, IsTag}
use nfc_forum_tags.Type2.Reader.OnTag.Coherent.{IsCoherent, IsCoherentIn, none-IsCopy}
use nfc_forum_tags.Tests.Fixtures.{test_build, test_memory}
use nfc_forum_tags.Tests.PagedTag.{PagedTag, paged, paged-IsTag, from_list, at_tag-IsCoherent}

-- The failures to come, and the tag. SECTOR SELECT does not fail, and READ and WRITE are not carried
-- out when they fail.
abbrev FlakyTag : Type 0
FlakyTag = ℕ × PagedTag

abbrev unreliable : List ℕ → FlakyTag → Transmission (Unit {0}) (List ℕ) × FlakyTag
unreliable cmd (zero, d) = let (reply, d') = paged.transceive cmd d in (reply, (0, d'))
unreliable [] (suc k, d) = (failed tt, (k, d))
unreliable (code ∷ rest) (suc k, d) =
    if code == 0xC2
    then (let (reply, d') = paged.transceive (code ∷ rest) d in (reply, (suc k, d')))
    else (failed tt, (k, d))

abbrev flaky_tag : Transceiver
flaky_tag = record {
  Device = FlakyTag;
  Error = Unit {0};
  transceive = unreliable;
  transceive_no_response =
      λ cmd (k, d). let (silence, d') = paged.transceive_no_response cmd d in (silence, (k, d'));
}

abbrev flaky_memory : FlakyTag → Memory
flaky_memory d = paged-IsTag.memory d.1

abbrev flaky_selected : FlakyTag → ℕ
flaky_selected d = paged-IsTag.selected d.1

flaky_read_keeps :
    (n : ℕ) (d : FlakyTag) → flaky_memory (unreliable (wire (Command.read n)) d).1 ≡ flaky_memory d
flaky_read_keeps n (zero, d) = paged-IsTag.read_keeps n d
flaky_read_keeps n (suc k, d) = refl

flaky_read_answers :
    (n : ℕ) (d : FlakyTag) (raw : List ℕ)
    → (unreliable (wire (Command.read n)) d).0 ≡ received raw
    → (flaky_selected (unreliable (wire (Command.read n)) d).1 ≡ flaky_selected d)
      × (16 ≤ length raw → take 16 raw ≡ four_blocks (flaky_memory d) (flaky_selected d) n)
flaky_read_answers n (zero, d) raw e = paged-IsTag.read_answers n d raw e
flaky_read_answers n (suc k, d) raw e = absurd (cc)

flaky_write_stores :
    (n : ℕ) (bytes : Bytes4) (d : FlakyTag)
    → (flaky_memory (unreliable (wire (Command.write n bytes)) d).1 ≡ flaky_memory d)
      ⊎ (flaky_memory (unreliable (wire (Command.write n bytes)) d).1
          ≡ store (flaky_selected d * 1024 + n * 4) bytes (flaky_memory d))
flaky_write_stores n bytes (zero, d) = paged-IsTag.write_stores n bytes d
flaky_write_stores n bytes (suc k, d) = inl refl

flaky_write_answers :
    (n : ℕ) (bytes : Bytes4) (d : FlakyTag) (raw : List ℕ)
    → (unreliable (wire (Command.write n bytes)) d).0 ≡ received raw
    → (flaky_selected (unreliable (wire (Command.write n bytes)) d).1 ≡ flaky_selected d)
      × (parse_answer (Command.write n bytes) raw ≡ ok ack
          → flaky_memory (unreliable (wire (Command.write n bytes)) d).1
            ≡ store (flaky_selected d * 1024 + n * 4) bytes (flaky_memory d))
flaky_write_answers n bytes (zero, d) raw e = paged-IsTag.write_answers n bytes d raw e
flaky_write_answers n bytes (suc k, d) raw e = absurd (cc)

flaky_part1_keeps :
    (d : FlakyTag)
    → flaky_memory (unreliable (wire Command.sector_select_part1) d).1 ≡ flaky_memory d
flaky_part1_keeps (zero, d) = paged-IsTag.part1_keeps d
flaky_part1_keeps (suc k, d) = paged-IsTag.part1_keeps d

flaky_part1_answers :
    (d : FlakyTag) (raw : List ℕ)
    → (unreliable (wire Command.sector_select_part1) d).0 ≡ received raw
    → parse_answer Command.sector_select_part1 raw ≡ ok ack
    → paged-IsTag.waits (unreliable (wire Command.sector_select_part1) d).1.1 ≡ true
flaky_part1_answers (zero, d) raw e p = paged-IsTag.part1_answers d raw e p
flaky_part1_answers (suc k, d) raw e p = paged-IsTag.part1_answers d raw e p

flaky_tag-IsTag : IsTag flaky_tag
flaky_tag-IsTag = record {
  memory = flaky_memory;
  selected = flaky_selected;
  waits = λ d. paged-IsTag.waits d.1;
  stored = λ d. paged-IsTag.stored d.1;
  read_keeps = flaky_read_keeps;
  read_answers = flaky_read_answers;
  write_stores = flaky_write_stores;
  write_answers = flaky_write_answers;
  part1_keeps = flaky_part1_keeps;
  part1_answers = flaky_part1_answers;
  part2_keeps = λ s d. paged-IsTag.part2_keeps s d.1;
  part2_answers = λ s d. paged-IsTag.part2_answers s d.1;
}

-- SECTOR SELECT succeeds, and the failures to come stay as they are.
part1_acknowledged :
    (d : FlakyTag)
    → (raw : List ℕ) × ((unreliable (wire Command.sector_select_part1) d).0 ≡ received raw)
      × (parse_answer Command.sector_select_part1 raw ≡ ok ack)
      × ((unreliable (wire Command.sector_select_part1) d).1.0 ≤ d.0)
unfolding parse_answer
part1_acknowledged (zero, d) = (0x0A ∷ [], refl, refl, omega arith)
part1_acknowledged (suc k, d) = (0x0A ∷ [], refl, refl, omega arith)

part2_silent :
    (s : ℕ) (d : FlakyTag)
    → let d' = (unreliable (wire Command.sector_select_part1) d).1 in
      ((flaky_tag.transceive_no_response (wire (Command.sector_select_part2 s)) d').0
        ≡ received none)
      × ((flaky_tag.transceive_no_response (wire (Command.sector_select_part2 s)) d').1.0 ≤ d'.0)
part2_silent s (zero, d) = (refl, omega arith)
part2_silent s (suc k, d) = (refl, omega arith)

of_received :
    (xs ys : List ℕ)
    → ◌≡◌ {A = Transmission (Unit {0}) (List ℕ)} (received xs) (received ys)
    → xs ≡ ys
of_received xs ys e = cc

abbrev block4 : Bytes4
block4 = (0x03, 0x00, 0xFE, 0x00)

read_answered :
    (d : FlakyTag)
    → d.0 ≡ 0
    → (raw : List ℕ) × ((unreliable (wire (Command.read 4)) d).0 ≡ received raw)
read_answered (zero, d) e = (_, refl)
read_answered (suc k, d) e = absurd (omega (arith, e))

read_less : (d : FlakyTag) (k : ℕ) → d.0 ≤ suc k → (unreliable (wire (Command.read 4)) d).1.0 ≤ k
read_less (zero, d) k h = omega arith
read_less (suc j, d) k h = omega (arith, h)

read_long :
    (d : FlakyTag) (raw : List ℕ)
    → (unreliable (wire (Command.read 4)) d).0 ≡ received raw
    → 16 ≤ length raw
unfolding sector_bytes
read_long (zero, d) raw e = subst (λ l. 16 ≤ length l) (of_received _ raw e) (omega arith)
read_long (suc k, d) raw e = absurd (cc)

write_answered :
    (d : FlakyTag)
    → d.0 ≡ 0
    → (raw : List ℕ) × ((unreliable (wire (Command.write 4 block4)) d).0 ≡ received raw)
write_answered (zero, d) e = (_, refl)
write_answered (suc k, d) e = absurd (omega (arith, e))

write_less :
    (d : FlakyTag) (k : ℕ) → d.0 ≤ suc k → (unreliable (wire (Command.write 4 block4)) d).1.0 ≤ k
write_less (zero, d) k h = omega arith
write_less (suc j, d) k h = omega (arith, h)

write_acked :
    (d : FlakyTag) (raw : List ℕ)
    → (unreliable (wire (Command.write 4 block4)) d).0 ≡ received raw
    → parse_answer (Command.write 4 block4) raw ≡ ok ack
unfolding parse_answer
write_acked (zero, d) raw e =
    subst (λ l. parse_answer (Command.write 4 block4) l ≡ ok ack) (of_received _ raw e) refl
write_acked (suc k, d) raw e = absurd (cc)

read-IsRecovering : IsRecovering flaky_tag (wire (Command.read 4))
read-IsRecovering = record {
  faults = λ d. d.0;
  answers = read_answered;
  recovers = read_less;
  acknowledges = part1_acknowledged;
  selects = part2_silent;
}

write-IsRecovering : IsRecovering flaky_tag (wire (Command.write 4 block4))
write-IsRecovering = record {
  faults = λ d. d.0;
  answers = write_answered;
  recovers = write_less;
  acknowledges = part1_acknowledged;
  selects = part2_silent;
}

-- One failure, and one retry.
flaky_reader : T2tReader FlakyTag
unfolding new
flaky_reader = new (1, (0, false, from_list test_memory))

flaky_reader_sector : flaky_reader.sector ≡ known 0
unfolding flaky_reader new
flaky_reader_sector = refl

write_enough : write-IsRecovering.faults flaky_reader.device ≤ flaky_reader.max_retries
unfolding flaky_reader new write-IsRecovering
write_enough = omega arith

read_enough : read-IsRecovering.faults flaky_reader.device ≤ flaky_reader.max_retries
unfolding flaky_reader new read-IsRecovering
read_enough = omega arith

flaky_reader-IsCoherent :
    IsCoherent flaky_tag-IsTag (λ m. m ≡ flaky_tag-IsTag.memory flaky_reader.device) flaky_reader
unfolding flaky_reader new flaky_tag-IsTag
flaky_reader-IsCoherent =
    let c = at_tag-IsCoherent test_memory in
    record {
      valid = record { cached = refl; bytes = c.valid.bytes; selected = omega arith };
      holds = refl;
      selected = c.selected;
      copy = λ s e. none-IsCopy _ s _;
    }

write_carried_out_example :
    Post Never
      (λ _.
        IsCoherentIn flaky_tag-IsTag 0
          (λ m. m ≡ store (0 * 1024 + 4 * 4) block4 (flaky_tag-IsTag.memory flaky_reader.device)))
      (write flaky_tag test_build 4 block4 flaky_reader)
write_carried_out_example =
    write_carried_out test_build 4 block4 write-IsRecovering write_acked flaky_tag-IsTag 0
      flaky_reader (omega arith) flaky_reader_sector write_enough flaky_reader-IsCoherent

read_carried_out_example :
    Post Never
      (λ bytes r.
        IsCoherentIn flaky_tag-IsTag 0 (λ m. m ≡ flaky_tag-IsTag.memory flaky_reader.device) r
        × (bytes ≡ four_blocks (flaky_tag-IsTag.memory flaky_reader.device) 0 4))
      (read flaky_tag test_build 4 flaky_reader)
read_carried_out_example =
    read_carried_out test_build 4 read-IsRecovering read_long flaky_tag-IsTag 0 flaky_reader
      (omega arith) (omega arith) flaky_reader_sector read_enough flaky_reader-IsCoherent
