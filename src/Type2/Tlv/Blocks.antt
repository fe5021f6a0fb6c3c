-- ===== src/Type2/Tlv/Blocks.antt =====
-- One block of the stream (src/type2/tlv.rs): the bytes of the standard, and parsing them back.
use nfc_forum_tags.Prelude.{
  ℕ, ◌+◌, ◌-◌, ◌≤◌, ◌≡◌, refl, ap, ◌∙◌, true, List, [], ◌∷◌, ◌++◌, some, length, arith,
  length-append, get_elem?-append_right, drop-append, take-append, append_assoc,
}
use nfc_forum_tags.Outcome.{ok, map_err}
use nfc_forum_tags.Vec.{Build, fits, data_capacity, try_extend_lem}
use nfc_forum_tags.Length
use nfc_forum_tags.Length.{max_tlv_length}
use nfc_forum_tags.Length.RoundTrip.{
  length_field, parse_tlv_length-append, parse_tlv_length-length_field,
}
use nfc_forum_tags.Type2.Control.Lock
use nfc_forum_tags.Type2.Control.Memory
use nfc_forum_tags.Type2.Tlv.{
  Tlv, null, lock_control, memory_control, ndef_message, proprietary, terminator, tlv_null,
  tlv_lock_control, tlv_memory_control, tlv_ndef_message, tlv_proprietary, tlv_terminator,
  parse_control, parse_value, parse_block, parse_tlv_length, as_invalid, slice, list3,
}
use nfc_forum_tags.Type2.Tlv.Total.{IsWellFormed}

abbrev pub tag_of : Tlv → ℕ
tag_of null = tlv_null
tag_of (lock_control v) = tlv_lock_control
tag_of (memory_control v) = tlv_memory_control
tag_of (ndef_message v) = tlv_ndef_message
tag_of (proprietary v) = tlv_proprietary
tag_of terminator = tlv_terminator

-- What follows the tag: the length field and the value.
abbrev pub after_tag : Tlv → List ℕ
after_tag null = []
after_tag (lock_control v) = 0x03 ∷ list3 (Lock.to_bytes v)
after_tag (memory_control v) = 0x03 ∷ list3 (Memory.to_bytes v)
after_tag (ndef_message v) = length_field (length v) ++ v
after_tag (proprietary v) = length_field (length v) ++ v
after_tag terminator = []

abbrev pub block_bytes : Tlv → List ℕ
block_bytes t = tag_of t ∷ after_tag t

-- The values that a length field can describe.
abbrev pub value_size : Tlv → ℕ
value_size null = 0
value_size (lock_control v) = 3
value_size (memory_control v) = 3
value_size (ndef_message v) = length v
value_size (proprietary v) = length v
value_size terminator = 0

-- A block that can be written and held.
abbrev pub IsWritable : Build → Tlv → Type 0
IsWritable b t = IsWellFormed b t × (value_size t ≤ max_tlv_length)

parse_control-list3 :
    (before rest : List ℕ) (b0 b1 b2 offset : ℕ)
    → offset ≡ length before
    → parse_control (before ++ (0x03 ∷ b0 ∷ b1 ∷ b2 ∷ rest)) offset ≡ ok ((b0, b1, b2), offset + 4)
unfolding parse_control Length.parse_tlv_length
parse_control-list3 before rest b0 b1 b2 offset e =
    let tail : List ℕ = 0x03 ∷ b0 ∷ b1 ∷ b2 ∷ rest in
    ground (
      arith,
      length-append before tail,
      get_elem?-append_right before tail offset 0,
      get_elem?-append_right before tail (offset + 1) 1,
      get_elem?-append_right before tail (offset + 1 + 1) 2,
      get_elem?-append_right before tail (offset + 1 + 2) 3,
    )

-- The bytes of a value are cut out of the stream.
slice-value :
    (before v rest : List ℕ) (from to : ℕ)
    → from ≡ length before
    → to ≡ from + length v
    → slice (before ++ (v ++ rest)) from to ≡ ok v
slice-value before v rest from to e e' = ground (
  arith,
  length-append before (v ++ rest),
  length-append v rest,
  drop-append before (v ++ rest) from,
  take-append v rest (to - from),
)

parse_value_parts :
    (b : Build) (bytes v : List ℕ) (offset consumed : ℕ)
    → parse_tlv_length bytes offset ≡ ok (length v, consumed)
    → slice bytes (offset + consumed) (offset + consumed + length v) ≡ ok v
    → offset + consumed + length v ≤ length bytes
    → fits b data_capacity (length v) ≡ true
    → parse_value b bytes offset ≡ ok (v, offset + consumed + length v)
unfolding parse_value
parse_value_parts b bytes v offset consumed p s h f =
    rw p (ground (arith, try_extend_lem b data_capacity [] v))

parse_value-field :
    (b : Build) (before v rest : List ℕ) (offset : ℕ)
    → offset ≡ length before
    → length v ≤ max_tlv_length
    → fits b data_capacity (length v) ≡ true
    → parse_value b (before ++ (length_field (length v) ++ (v ++ rest))) offset
      ≡ ok (v, offset + length (length_field (length v)) + length v)
parse_value-field b before v rest offset e h f =
    let field : List ℕ = length_field (length v) in
    let start : ℕ = offset + length field in
    let e' : start ≡ length (before ++ field) = omega (arith, length-append before field) in
    parse_value_parts b (before ++ (field ++ (v ++ rest))) v offset (length field)
      (ap (map_err as_invalid) (
        parse_tlv_length-append before (field ++ (v ++ rest)) offset e
        ∙ parse_tlv_length-length_field (length v) (v ++ rest) h))
      (rw (← append_assoc before field (v ++ rest))
        (slice-value (before ++ field) v rest start (start + length v) e' refl))
      (omega (
        arith,
        length-append before (field ++ (v ++ rest)),
        length-append field (v ++ rest),
        length-append v rest,
      ))
      f

-- A block is parsed back from the bytes that follow its tag, wherever it stands in the stream.
pub parse_block-after_tag :
    (b : Build) (t : Tlv) (before rest : List ℕ) (offset : ℕ)
    → IsWritable b t
    → offset ≡ length before
    → parse_block b (before ++ (after_tag t ++ rest)) (tag_of t) offset
      ≡ ok (some t, offset + length (after_tag t))
unfolding parse_block
parse_block-after_tag b null before rest offset w e = ground arith
parse_block-after_tag b terminator before rest offset w e = ground arith
parse_block-after_tag b (lock_control v) before rest offset w e =
    let (b0, b1, b2) = Lock.to_bytes v in
    rw (parse_control-list3 before rest b0 b1 b2 offset e, Lock.lock_control_roundtrip v w.0)
parse_block-after_tag b (memory_control v) before rest offset w e =
    let (b0, b1, b2) = Memory.to_bytes v in
    rw (parse_control-list3 before rest b0 b1 b2 offset e, Memory.memory_control_roundtrip v w.0)
parse_block-after_tag b (ndef_message v) before rest offset w e =
    let field : List ℕ = length_field (length v) in
    rw (append_assoc field v rest, parse_value-field b before v rest offset e w.1 w.0.1)
      (ap (λ n. ok (some (ndef_message v), n)) (omega (arith, length-append field v)))
parse_block-after_tag b (proprietary v) before rest offset w e =
    let field : List ℕ = length_field (length v) in
    rw (append_assoc field v rest, parse_value-field b before v rest offset e w.1 w.0.1)
      (ap (λ n. ok (some (proprietary v), n)) (omega (arith, length-append field v)))
