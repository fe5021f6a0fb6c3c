-- ===== src/Type2/Command/RoundTrip.antt =====
-- Commands written to the wire and read back (src/type2/mod.rs).
use nfc_forum_tags.Prelude.{
  ℕ, ◌+◌, ◌≤◌, ◌≡◌, List, [], ◌∷◌, ◌++◌, length, arith, drop, ap, ◌∙◌, get_elem?-some,
}
use nfc_forum_tags.Outcome.{ok, Returns}
use nfc_forum_tags.Vec.{Build, default, alloc, fits, try_extend_lem}
use nfc_forum_tags.Type2.Command.{
  Command, read, write, sector_select_part1, sector_select_part2, to_bytes, try_from, extend_frame,
  cmd_read, cmd_write, cmd_sector_select,
}

-- The wire format.
abbrev pub wire : Command → List ℕ
wire (read block_no) = cmd_read ∷ block_no ∷ []
wire (write block_no (d0, d1, d2, d3)) = cmd_write ∷ block_no ∷ d0 ∷ d1 ∷ d2 ∷ d3 ∷ []
wire sector_select_part1 = cmd_sector_select ∷ 0xFF ∷ []
wire (sector_select_part2 sector_no) = sector_no ∷ 0x00 ∷ 0x00 ∷ 0x00 ∷ []

-- A short slice fits a frame, in either build.
extend_frame_lem :
    (b : Build) (v s : List ℕ) → length v + length s ≤ 20 → extend_frame b v s ≡ v ++ s
unfolding extend_frame fits
extend_frame_lem (default h) v s l = ground (arith, try_extend_lem (default h) 20 v s)
extend_frame_lem alloc v s l = ground (arith, try_extend_lem alloc 20 v s)

-- Every command is written as its whole wire format: a frame has room for it, in either build.
pub command_wire : (b : Build) (c : Command) → to_bytes b c ≡ wire c
unfolding to_bytes
command_wire b (read n) = extend_frame_lem b [] (cmd_read ∷ n ∷ []) (omega arith)
command_wire b (write n (d0, d1, d2, d3)) =
    let head : List ℕ = cmd_write ∷ n ∷ [] in
    let tail : List ℕ = d0 ∷ d1 ∷ d2 ∷ d3 ∷ [] in
    ap (λ v. extend_frame b v tail) (extend_frame_lem b [] head (omega arith))
    ∙ extend_frame_lem b head tail (omega arith)
command_wire b sector_select_part1 =
    extend_frame_lem b [] (cmd_sector_select ∷ 0xFF ∷ []) (omega arith)
command_wire b (sector_select_part2 s) = extend_frame_lem b [] (s ∷ 0 ∷ 0 ∷ 0 ∷ []) (omega arith)

-- The commands with a code of their own; the second packet of SECTOR SELECT has none.
abbrev pub IsCoded : Command → Type 0
IsCoded (sector_select_part2 s) = ⊥
IsCoded _ = Unit

-- A command with a code of its own, which is any but the second packet of SECTOR SELECT, is read
-- back from its bytes.
pub command_roundtrip : (b : Build) (c : Command) → IsCoded c → try_from (to_bytes b c) ≡ ok c
unfolding try_from
command_roundtrip b (read n) h = rw command_wire
command_roundtrip b (write n d) h = rw command_wire
command_roundtrip b sector_select_part1 h = rw command_wire
command_roundtrip b (sector_select_part2 s) h = absurd h

-- If bytes parse to a command, they begin with its wire format.
pub command_parsed :
    (raw : List ℕ) (c : Command) → try_from raw ≡ ok c → raw ≡ wire c ++ drop (length (wire c)) raw
unfolding try_from
command_parsed [] c e = cc
command_parsed (r0 ∷ []) c e = ground arith
command_parsed (r0 ∷ r1 ∷ []) c e = ground arith
command_parsed (r0 ∷ r1 ∷ r2 ∷ []) c e = ground arith
command_parsed (r0 ∷ r1 ∷ r2 ∷ r3 ∷ []) c e = ground arith
command_parsed (r0 ∷ r1 ∷ r2 ∷ r3 ∷ r4 ∷ []) c e = ground arith
command_parsed (r0 ∷ r1 ∷ r2 ∷ r3 ∷ r4 ∷ r5 ∷ rest) c e = ground arith

-- Parsing a command returns on any input.
pub command-Returns : (raw : List ℕ) → Returns (try_from raw)
unfolding try_from
command-Returns [] = tt
command-Returns (code ∷ rest) = ground (
  arith,
  get_elem?-some rest 0,
  get_elem?-some rest 1,
  get_elem?-some rest 2,
  get_elem?-some rest 3,
  get_elem?-some rest 4,
)
