-- ===== src/Type2/TagMemory.antt =====
-- The tag behind the transceiver: a memory of whole sectors, one of which is selected. It is
-- hardware, so its behaviour is stated as hypotheses on `T2TTransceiver` (src/type2/mod.rs).
use nfc_forum_tags.Prelude.{
  ℕ, zero, suc, ◌+◌, ◌*◌, ◌%◌, ◌≡◌, ◌≤◌, ◌<◌, ◌⊎◌, List, [], ◌∷◌, Bool, true, none, length, take,
  ◌==◌, if◌then◌else◌,
}
use nfc_forum_tags.Outcome.{ok}
use nfc_forum_tags.Type2.Cc.{Bytes4}
use nfc_forum_tags.Type2.Command.{Command, ack, parse_answer}
use nfc_forum_tags.Type2.Command.RoundTrip.{wire}
use nfc_forum_tags.Type2.Reader.State.{received, Transceiver}

-- What the tag stores: a byte for each address, sector by sector.
abbrev pub Memory : Type 0
Memory = ℕ → ℕ

-- `k` bytes of a sector, from a position on. Behind the sector's end comes its start.
unfoldable pub sector_bytes : Memory → ℕ → ℕ → ℕ → List ℕ
sector_bytes mem s i zero = []
sector_bytes mem s i (suc k) = mem (s * 1024 + i % 1024) ∷ sector_bytes mem s (i + 1) k

-- What a READ of a block answers.
abbrev pub four_blocks : Memory → ℕ → ℕ → List ℕ
four_blocks mem s n = sector_bytes mem s (n * 4) 16

-- The memory with four bytes stored from an address on.
unfoldable pub store : ℕ → Bytes4 → Memory → Memory
store base (b0, b1, b2, b3) mem a =
    if a == base
    then b0 % 256
    else if a == base + 1
    then b1 % 256
    else if a == base + 2
    then b2 % 256
    else if a == base + 3
    then b3 % 256
    else mem a

-- A tag that answers a command, or fails to, as a Type 2 Tag does. After a failure its sector is not
-- known, and a WRITE may have been carried out. Silence after the second packet of SECTOR SELECT
-- selects the sector if the tag waits for it, which it does after an ACK of the first packet.
pub record IsTag (t : Transceiver) : Type 0 where
  pub memory : t.Device → Memory
  pub selected : t.Device → ℕ
  pub waits : t.Device → Bool
  pub stored : (d : t.Device) (a : ℕ) → memory d a < 256
  pub read_keeps :
      (n : ℕ) (d : t.Device) → memory (t.transceive (wire (Command.read n)) d).1 ≡ memory d
  pub read_answers :
      (n : ℕ) (d : t.Device) (raw : List ℕ)
      → (t.transceive (wire (Command.read n)) d).0 ≡ received raw
      → (selected (t.transceive (wire (Command.read n)) d).1 ≡ selected d)
        × (16 ≤ length raw → take 16 raw ≡ four_blocks (memory d) (selected d) n)
  pub write_stores :
      (n : ℕ) (bytes : Bytes4) (d : t.Device)
      → (memory (t.transceive (wire (Command.write n bytes)) d).1 ≡ memory d)
        ⊎ (memory (t.transceive (wire (Command.write n bytes)) d).1
            ≡ store (selected d * 1024 + n * 4) bytes (memory d))
  pub write_answers :
      (n : ℕ) (bytes : Bytes4) (d : t.Device) (raw : List ℕ)
      → (t.transceive (wire (Command.write n bytes)) d).0 ≡ received raw
      → (selected (t.transceive (wire (Command.write n bytes)) d).1 ≡ selected d)
        × (parse_answer (Command.write n bytes) raw ≡ ok ack
            → memory (t.transceive (wire (Command.write n bytes)) d).1
              ≡ store (selected d * 1024 + n * 4) bytes (memory d))
  pub part1_keeps :
      (d : t.Device) → memory (t.transceive (wire Command.sector_select_part1) d).1 ≡ memory d
  pub part1_answers :
      (d : t.Device) (raw : List ℕ)
      → (t.transceive (wire Command.sector_select_part1) d).0 ≡ received raw
      → parse_answer Command.sector_select_part1 raw ≡ ok ack
      → waits (t.transceive (wire Command.sector_select_part1) d).1 ≡ true
  pub part2_keeps :
      (s : ℕ) (d : t.Device)
      → memory (t.transceive_no_response (wire (Command.sector_select_part2 s)) d).1 ≡ memory d
  pub part2_answers :
      (s : ℕ) (d : t.Device)
      → waits d ≡ true
      → (t.transceive_no_response (wire (Command.sector_select_part2 s)) d).0 ≡ received none
      → selected (t.transceive_no_response (wire (Command.sector_select_part2 s)) d).1 ≡ s
