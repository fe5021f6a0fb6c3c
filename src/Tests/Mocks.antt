-- ===== src/Tests/Mocks.antt =====
-- The mock transceivers of the unit tests of src/type2/reader.rs. A flat memory of 1024 bytes is a
-- function; a frame that is answered fits a `FrameVec`.
use nfc_forum_tags.Prelude.{
  ℕ, ◌+◌, ◌-◌, ◌*◌, min, Bool, false, List, [], ◌∷◌, ◌++◌, length, Option, none, some, ltb, leb,
  ◌==◌, if◌then◌else◌,
}
use nfc_forum_tags.Outcome.{Outcome, ok, err, panic, stuck}
use nfc_forum_tags.Type2.Error.{Type2Error}
use nfc_forum_tags.Type2.Geometry.{block_size}
use nfc_forum_tags.Type2.Command.{
  Command, Bytes4, read, write, sector_select_part1, sector_select_part2, try_from, ack_value,
}
use nfc_forum_tags.Type2.Reader.State.{Transmission, received, failed, Transceiver, zeros16}
use nfc_forum_tags.Type2.TagMemory.{Memory}
use nfc_forum_tags.Type2.Reader.OnTag.DataBytes.{bytes_at}

abbrev Answered : Type 0 → Type 0
Answered D = Transmission (Unit {0}) (List ℕ) × D

-- `Command::try_from(cmd).map_err(|_| ())?`, before the match on the command.
abbrev pub on_command :
    {D : Type 0} → (Command → D → Answered D) → Outcome Type2Error Command → D → Answered D
on_command f (ok c) d = f c d
on_command f (err e) d = (failed tt, d)
on_command f panic d = (failed tt, d)
on_command f stuck d = (failed tt, d)

abbrev pub acked : Transmission (Unit {0}) (List ℕ)
acked = received (ack_value ∷ [])

abbrev pub put : ℕ → ℕ → Memory → Memory
put a x mem i = if i == a then x else mem i

-- The bytes up to the end of the memory, and zeros up to 16 bytes.
unfoldable pub padded_read : ℕ → Memory → List ℕ
unfolding bytes_at
padded_read block_no mem =
    let start = block_no * block_size in
    let held = min (start + 16) 1024 - start in
    bytes_at mem start held ++ bytes_at (λ _. 0) 0 (16 - held)

-- `copy_from_slice`, if the block is in the memory.
abbrev pub copy_block : ℕ → Bytes4 → Memory → Memory
copy_block block_no (b0, b1, b2, b3) mem =
    let start = block_no * block_size in
    if leb (start + 4) 1024
    then put start b0 (put (start + 1) b1 (put (start + 2) b2 (put (start + 3) b3 mem)))
    else mem

pub record MockTransceiver : Type 0 where
  pub memory : Memory

abbrev pub new_mock : MockTransceiver
new_mock = record { memory = λ _. 0 }

abbrev pub setup_static_initialized : MockTransceiver → MockTransceiver
setup_static_initialized m = record m {
  memory =
      put 12 0xE1 (
        put 13 0x10 (put 14 0x06 (put 15 0x00 (put 16 0x03 (put 17 0x00 (put 18 0xFE m.memory))))));
}

abbrev pub setup_static_with_ndef : MockTransceiver → MockTransceiver
setup_static_with_ndef m =
    let m' = setup_static_initialized m in
    record m' {
      memory =
          put 16 0x03
            (put 17 0x03 (put 18 0xD0 (put 19 0x00 (put 20 0x00 (put 21 0xFE m'.memory)))));
    }

abbrev mock_command : Command → MockTransceiver → Answered MockTransceiver
mock_command (read block_no) m = (received (padded_read block_no m.memory), m)
mock_command (write block_no bytes) m =
    (acked, record m { memory = copy_block block_no bytes m.memory })
mock_command sector_select_part1 m = (acked, m)
mock_command (sector_select_part2 s) m = (failed tt, m)

abbrev pub mock_transceive : List ℕ → MockTransceiver → Answered MockTransceiver
mock_transceive cmd m = on_command mock_command (try_from cmd) m

abbrev pub mock : Transceiver
mock = record {
  Device = MockTransceiver;
  Error = Unit {0};
  transceive = mock_transceive;
  transceive_no_response = λ cmd m. (received none, m);
}

pub record CountingTransceiver : Type 0 where
  pub inner : MockTransceiver
  pub transceive_count : ℕ

abbrev pub new_counting : CountingTransceiver
new_counting = record { inner = new_mock; transceive_count = 0 }

abbrev pub counting : Transceiver
counting = record {
  Device = CountingTransceiver;
  Error = Unit {0};
  transceive = λ cmd c.
      let (reply, m) = mock_transceive cmd c.inner in
      (reply, record c { inner = m; transceive_count = c.transceive_count + 1 });
  transceive_no_response = λ cmd c. (received none, c);
}

pub record FailingTransceiver : Type 0 where
  pub inner : MockTransceiver
  pub failures_remaining : ℕ
  pub attempts : ℕ

abbrev pub new_failing : ℕ → FailingTransceiver
new_failing fail_count = record { inner = new_mock; failures_remaining = fail_count; attempts = 0 }

abbrev failing_transceive : List ℕ → FailingTransceiver → Answered FailingTransceiver
failing_transceive cmd f =
    let f' = record f { attempts = f.attempts + 1 } in
    if ltb 0 f'.failures_remaining
    then (failed tt, record f' { failures_remaining = f'.failures_remaining - 1 })
    else (let (reply, m) = mock_transceive cmd f'.inner in (reply, record f' { inner = m }))

abbrev pub failing : Transceiver
failing = record {
  Device = FailingTransceiver;
  Error = Unit {0};
  transceive = failing_transceive;
  transceive_no_response = λ cmd f. (received none, f);
}

-- `writes` has room for eight.
pub record SectorResetTransceiver : Type 0 where
  pub tag_sector : ℕ
  pub fail_in : ℕ
  pub writes : List (ℕ × ℕ × Bytes4)
  pub selects : ℕ
  pub fail_packet2 : Bool

abbrev pub new_reset : SectorResetTransceiver
new_reset = record { tag_sector = 0; fail_in = 0; writes = []; selects = 0; fail_packet2 = false }

abbrev reset_command : Command → SectorResetTransceiver → Answered SectorResetTransceiver
reset_command (read block_no) d = (received zeros16, d)
reset_command (write block_no bytes) d = (
  acked,
  record d {
    writes =
        if ltb (length d.writes) 8
        then d.writes ++ (d.tag_sector, block_no, bytes) ∷ []
        else d.writes;
  },
)
reset_command sector_select_part1 d = (acked, d)
reset_command (sector_select_part2 s) d = (failed tt, d)

-- The countdown to the failure that resets the tag to sector 0.
abbrev reset_first : Command → SectorResetTransceiver → Answered SectorResetTransceiver
reset_first c d =
    if ltb 0 d.fail_in
    then (let d' = record d { fail_in = d.fail_in - 1 } in
        if d'.fail_in == 0 then (failed tt, record d' { tag_sector = 0 }) else reset_command c d')
    else reset_command c d

abbrev reset_transceive : List ℕ → SectorResetTransceiver → Answered SectorResetTransceiver
reset_transceive cmd d = on_command reset_first (try_from cmd) d

-- A frame is never empty, so `cmd[0]` is in range.
abbrev reset_no_response :
    List ℕ → SectorResetTransceiver → Transmission (Unit {0}) (Option ℕ) × SectorResetTransceiver
reset_no_response [] d = (failed tt, d)
reset_no_response (s ∷ cmd) d =
    if d.fail_packet2
    then (failed tt, d)
    else (received none, record d { tag_sector = s; selects = d.selects + 1 })

abbrev pub sector_reset : Transceiver
sector_reset = record {
  Device = SectorResetTransceiver;
  Error = Unit {0};
  transceive = reset_transceive;
  transceive_no_response = reset_no_response;
}

-- The same mock, with a NACK to every second packet.
abbrev pub nack_p2 : Transceiver
nack_p2 = record {
  Device = SectorResetTransceiver;
  Error = Unit {0};
  transceive = reset_transceive;
  transceive_no_response = λ cmd d. (received (some 0x00), d);
}
