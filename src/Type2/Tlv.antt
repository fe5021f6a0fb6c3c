-- ===== src/Type2/Tlv.antt =====
-- The TLV blocks of the data area (src/type2/tlv.rs): parsing a byte stream and writing a block.
pub mod Total
pub mod Written
pub mod Blocks
pub mod RoundTrip
pub mod Unknown
use nfc_forum_tags.Prelude.{
  ℕ, zero, suc, ◌+◌, ◌-◌, ◌%◌, ◌^◌, true, false, ◌||◌, not, List, [], ◌∷◌, ◌++◌, Option, none, some,
  length, take, drop, ltb, leb, ◌==◌, if◌then◌else◌,
}
use nfc_forum_tags.Outcome.{Outcome, ok, err, panic, stuck, map_err, index, ◌>>=◌}
use nfc_forum_tags.Vec.{Build, data_capacity, try_push, try_extend}
use nfc_forum_tags.Length.{TlvError, max_tlv_length}
use nfc_forum_tags.Length
use nfc_forum_tags.Type2.Error.{Type2Error, invalid_tlv, buffer_full, out_of_range, from_full}
use nfc_forum_tags.Type2.Control.{Bytes3, LockControlValue, MemoryControlValue}
use nfc_forum_tags.Type2.Control.Lock
use nfc_forum_tags.Type2.Control.Memory

abbrev pub tlv_null : ℕ
tlv_null = 0x00

abbrev pub tlv_lock_control : ℕ
tlv_lock_control = 0x01

abbrev pub tlv_memory_control : ℕ
tlv_memory_control = 0x02

abbrev pub tlv_ndef_message : ℕ
tlv_ndef_message = 0x03

abbrev pub tlv_proprietary : ℕ
tlv_proprietary = 0xFD

abbrev pub tlv_terminator : ℕ
tlv_terminator = 0xFE

pub data Tlv : Type 0 where
  null : Tlv
  lock_control : LockControlValue → Tlv
  memory_control : MemoryControlValue → Tlv
  ndef_message proprietary : List ℕ → Tlv
  terminator : Tlv

-- The private `parse_tlv_length` and `encode_tlv_length` of this file.
abbrev as_invalid : TlvError → Type2Error
as_invalid _ = invalid_tlv

abbrev as_type2 : TlvError → Type2Error
as_type2 TlvError.buffer_full = buffer_full
as_type2 TlvError.invalid_tlv = invalid_tlv

abbrev parse_tlv_length : List ℕ → ℕ → Outcome Type2Error (ℕ × ℕ)
parse_tlv_length bytes offset = map_err as_invalid (Length.parse_tlv_length bytes offset)

-- The buffer is local to its caller, which drops it on an error.
abbrev encode_tlv_length : Build → ℕ → List ℕ → Outcome Type2Error (List ℕ)
encode_tlv_length b len out =
    let (answer, out') = Length.encode_tlv_length b len out in
    map_err as_type2 (do _ ← answer; ok out')

-- `data[from..to]` panics outside the slice.
abbrev slice : List ℕ → ℕ → ℕ → Outcome Type2Error (List ℕ)
slice bytes from to =
    if ltb to from || ltb (length bytes) to then panic else ok (take (to - from) (drop from bytes))

-- The three value bytes of a control block; the offset is that of the length field.
parse_control : List ℕ → ℕ → Outcome Type2Error (Bytes3 × ℕ)
parse_control bytes offset = do
  (len, consumed) ← parse_tlv_length bytes offset
  let offset' = offset + consumed
  if not (len == 3) || ltb (length bytes) (offset' + 3) then err invalid_tlv else do
    b0 ← index bytes offset'
    b1 ← index bytes (offset' + 1)
    b2 ← index bytes (offset' + 2)
    ok ((b0, b1, b2), offset' + 3)

-- The value of an NDEF Message or a Proprietary block, in a new `DataVec`.
parse_value : Build → List ℕ → ℕ → Outcome Type2Error (List ℕ × ℕ)
parse_value b bytes offset = do
  (len, consumed) ← parse_tlv_length bytes offset
  let offset' = offset + consumed
  if ltb (length bytes) (offset' + len) then err invalid_tlv else do
    value ← slice bytes offset' (offset' + len)
    v ← map_err from_full (try_extend b data_capacity [] value)
    ok (v, offset' + len)

-- The length of an unknown block is read, and the block is stepped over.
skip_value : List ℕ → ℕ → Outcome Type2Error ℕ
skip_value bytes offset = do
  (len, consumed) ← parse_tlv_length bytes offset
  if ltb (length bytes) (offset + consumed + len)
      then err invalid_tlv
      else ok (offset + consumed + len)

-- One arm of the loop's `match`: the block to push, or none, and the offset behind it.
unfoldable pub parse_block : Build → List ℕ → ℕ → ℕ → Outcome Type2Error (Option Tlv × ℕ)
unfolding parse_control parse_value skip_value
parse_block b bytes tag offset =
    if tag == tlv_null
    then ok (some null, offset)
    else if tag == tlv_terminator
    then ok (some terminator, offset)
    else if tag == tlv_lock_control
    then (do
      (raw, next) ← parse_control bytes offset
      value ← Lock.from_bytes raw
      ok (some (lock_control value), next))
    else if tag == tlv_memory_control
    then (do
      (raw, next) ← parse_control bytes offset
      value ← Memory.from_bytes raw
      ok (some (memory_control value), next))
    else if tag == tlv_ndef_message
    then (do (v, next) ← parse_value b bytes offset; ok (some (ndef_message v), next))
    else if tag == tlv_proprietary
    then (do (v, next) ← parse_value b bytes offset; ok (some (proprietary v), next))
    else (do next ← skip_value bytes offset; ok (none, next))

-- The result of `parse_tlvs` holds four blocks in the default build.
abbrev pub tlv_capacity : ℕ
tlv_capacity = 4

-- `push_tlv`; an unknown block pushes nothing.
unfoldable pub push_tlv : Build → List Tlv → Option Tlv → Outcome Type2Error (List Tlv)
push_tlv b out none = ok out
push_tlv b out (some t) = map_err from_full (try_push b tlv_capacity out t)

-- The loop of `parse_tlvs_into`, with fuel for its rounds: each takes a byte at least.
unfoldable pub parse_loop : ℕ → Build → List ℕ → ℕ → List Tlv → Outcome Type2Error (List Tlv)
unfolding parse_block push_tlv
parse_loop zero b bytes offset out = if leb (length bytes) offset then ok out else stuck
parse_loop (suc fuel) b bytes offset out = if leb (length bytes) offset then ok out else do
  tag ← index bytes offset
  (block, next) ← parse_block b bytes tag (offset + 1)
  out' ← push_tlv b out block
  elim (tag == tlv_terminator) [ true ↦ ok out' | false ↦ parse_loop fuel b bytes next out' ]

unfoldable pub parse_tlvs : Build → List ℕ → Outcome Type2Error (List Tlv)
unfolding parse_loop
parse_tlvs b bytes = parse_loop (length bytes) b bytes 0 []

-- `u16::try_from` fails from 2 ^ 16 on.
unfoldable pub checked_value_length : ℕ → Outcome Type2Error ℕ
checked_value_length len =
    if ltb len (2 ^ 16)
    then (if leb len max_tlv_length then ok len else err out_of_range)
    else err out_of_range

abbrev push : Build → List ℕ → ℕ → Outcome Type2Error (List ℕ)
push b out x = map_err from_full (try_push b data_capacity out x)

abbrev extend : Build → List ℕ → List ℕ → Outcome Type2Error (List ℕ)
extend b out s = map_err from_full (try_extend b data_capacity out s)

abbrev list3 : Bytes3 → List ℕ
list3 (b0, b1, b2) = b0 ∷ b1 ∷ b2 ∷ []

-- The arms for a control block and for a block with a value.
write_control : Build → ℕ → Bytes3 → Outcome Type2Error (List ℕ)
write_control b tag raw = do out ← push b [] tag; out' ← push b out 0x03; extend b out' (list3 raw)

write_value : Build → ℕ → List ℕ → Outcome Type2Error (List ℕ)
unfolding checked_value_length
write_value b tag value = do
  len ← checked_value_length (length value)
  out ← push b [] tag
  out' ← encode_tlv_length b len out
  extend b out' value

unfoldable pub to_bytes : Build → Tlv → Outcome Type2Error (List ℕ)
unfolding write_control write_value
to_bytes b null = push b [] tlv_null
to_bytes b terminator = push b [] tlv_terminator
to_bytes b (lock_control v) = write_control b tlv_lock_control (Lock.to_bytes v)
to_bytes b (memory_control v) = write_control b tlv_memory_control (Memory.to_bytes v)
to_bytes b (ndef_message value) = write_value b tlv_ndef_message value
to_bytes b (proprietary value) = write_value b tlv_proprietary value

unfoldable pub ndef_data : Tlv → Option (List ℕ)
ndef_data (ndef_message value) = some value
ndef_data null = none
ndef_data (lock_control v) = none
ndef_data (memory_control v) = none
ndef_data (proprietary value) = none
ndef_data terminator = none

unfoldable pub value_length : Tlv → Outcome Type2Error ℕ
unfolding checked_value_length
value_length null = ok 0
value_length terminator = ok 0
value_length (lock_control v) = ok 3
value_length (memory_control v) = ok 3
value_length (ndef_message value) = checked_value_length (length value)
value_length (proprietary value) = checked_value_length (length value)
