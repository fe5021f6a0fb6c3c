-- ===== src/Type2/Command.antt =====
-- The commands and answers of src/type2/mod.rs, without the CRC.
pub mod RoundTrip
pub mod Answers
use nfc_forum_tags.Prelude.{ℕ, ◌%◌, List, [], ◌∷◌, length, take, ltb, ◌==◌, if◌then◌else◌, Bool}
use nfc_forum_tags.Outcome.{Outcome, ok, err, panic, stuck, index, ◌>>=◌}
use nfc_forum_tags.Vec.{Build, try_extend}
use nfc_forum_tags.Type2.Error.{Type2Error, invalid_length, unknown_command}

abbrev pub cmd_read : ℕ
cmd_read = 0x30

abbrev pub cmd_write : ℕ
cmd_write = 0xA2

abbrev pub cmd_sector_select : ℕ
cmd_sector_select = 0xC2

abbrev pub ack_value : ℕ
ack_value = 0x0A

abbrev pub Bytes4 : Type 0
Bytes4 = ℕ × ℕ × ℕ × ℕ

pub data Command : Type 0 where
  read : ℕ → Command
  write : ℕ → Bytes4 → Command
  sector_select_part1 : Command
  sector_select_part2 : ℕ → Command

-- `FrameVec` holds 20 bytes in the default build.
abbrev frame_capacity : ℕ
frame_capacity = 20

-- `let _ = v.try_extend(..)`: a failure leaves the frame as it is.
extend_frame : Build → List ℕ → List ℕ → List ℕ
extend_frame b v s = elim (try_extend b frame_capacity v s) [
  | ok w ↦ w
  | err e ↦ v
  | panic ↦ v
  | stuck ↦ v
]

unfoldable pub to_bytes : Build → Command → List ℕ
unfolding extend_frame
to_bytes b (read block_no) = extend_frame b [] (cmd_read ∷ block_no ∷ [])
to_bytes b (write block_no (d0, d1, d2, d3)) =
    extend_frame b (extend_frame b [] (cmd_write ∷ block_no ∷ [])) (d0 ∷ d1 ∷ d2 ∷ d3 ∷ [])
to_bytes b sector_select_part1 = extend_frame b [] (cmd_sector_select ∷ 0xFF ∷ [])
to_bytes b (sector_select_part2 sector_no) = extend_frame b [] (sector_no ∷ 0x00 ∷ 0x00 ∷ 0x00 ∷ [])

-- `[u8; 16]` is a list.
pub data Answer : Type 0 where
  data_read : List ℕ → Answer
  ack : Answer
  nack : ℕ → Answer
  passive_ack : Answer

-- The answer to WRITE and to SECTOR SELECT Packet 1.
abbrev parse_ack : List ℕ → Outcome Type2Error Answer
parse_ack [] = err invalid_length
parse_ack (r0 ∷ raw) = if r0 % 16 == ack_value then ok ack else ok (nack (r0 % 16))

unfoldable pub parse_answer : Command → List ℕ → Outcome Type2Error Answer
parse_answer (read block_no) raw =
    if ltb (length raw) 16 then err invalid_length else ok (data_read (take 16 raw))
parse_answer (write block_no bytes) raw = parse_ack raw
parse_answer sector_select_part1 raw = parse_ack raw
parse_answer (sector_select_part2 sector_no) [] = ok passive_ack
parse_answer (sector_select_part2 sector_no) (r0 ∷ raw) = ok (nack (r0 % 16))

-- `impl TryFrom<&[u8]> for Command`
unfoldable pub try_from : List ℕ → Outcome Type2Error Command
try_from [] = err invalid_length
try_from (code ∷ rest) =
    let raw = code ∷ rest in
    if code == cmd_read
    then (if ltb (length raw) 2
        then err invalid_length
        else do block_no ← index raw 1; ok (read block_no))
    else if code == cmd_write
    then (if ltb (length raw) 6 then err invalid_length else do
      d0 ← index raw 2
      d1 ← index raw 3
      d2 ← index raw 4
      d3 ← index raw 5
      block_no ← index raw 1
      ok (write block_no (d0, d1, d2, d3)))
    else if code == cmd_sector_select
    then (if ltb (length raw) 2 then err invalid_length else do
      second ← index raw 1
      if second == 0xFF then ok sector_select_part1 else err invalid_length)
    else err (unknown_command code)
