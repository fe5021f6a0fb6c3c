-- ===== src/Type2/Tlv/Written.antt =====
-- What `Tlv::to_bytes` and `Tlv::value_length` answer on every block (src/type2/tlv.rs).
use nfc_forum_tags.Prelude.{
  ℕ, suc, ◌+◌, ◌≡◌, refl, List, [], ◌∷◌, ◌++◌, length, arith, leb, length-append, if◌then◌else◌,
}
use nfc_forum_tags.Outcome.{Outcome, ok, err}
use nfc_forum_tags.Vec.{Build, fits, fits-le, data_capacity, try_push_lem, try_extend_lem}
use nfc_forum_tags.Length.{max_tlv_length}
use nfc_forum_tags.Length.RoundTrip.{length_field, encode_tlv_length_lem}
use nfc_forum_tags.Type2.Error.{Type2Error, buffer_full, out_of_range}
use nfc_forum_tags.Type2.Control.{Bytes3}
use nfc_forum_tags.Type2.Control.Lock
use nfc_forum_tags.Type2.Control.Memory
use nfc_forum_tags.Type2.Tlv.{
  Tlv, null, lock_control, memory_control, ndef_message, proprietary, terminator, to_bytes,
  value_length, write_control, write_value, list3,
}
use nfc_forum_tags.Type2.Tlv.Blocks.{block_bytes, value_size}

-- A new buffer with the bytes, if they fit.
abbrev pub buffered : Build → List ℕ → Outcome Type2Error (List ℕ)
buffered b bytes = if fits b data_capacity (length bytes) then ok bytes else err buffer_full

write_control_lem :
    (b : Build) (tag : ℕ) (raw : Bytes3)
    → write_control b tag raw ≡ buffered b (tag ∷ 0x03 ∷ list3 raw)
unfolding write_control
write_control_lem b tag raw = ground (
  arith,
  try_push_lem b data_capacity [] tag,
  try_push_lem b data_capacity (tag ∷ []) 0x03,
  try_extend_lem b data_capacity (tag ∷ 0x03 ∷ []) (list3 raw),
  fits-le b data_capacity 1 5,
  fits-le b data_capacity 2 5,
)

write_value_lem :
    (b : Build) (tag : ℕ) (value : List ℕ)
    → write_value b tag value ≡ (
        if leb (length value) max_tlv_length
        then buffered b (tag ∷ (length_field (length value) ++ value))
        else err out_of_range)
unfolding write_value
write_value_lem b tag value =
    let field : List ℕ = length_field (length value) in
    ground (
      arith,
      try_push_lem b data_capacity [] tag,
      encode_tlv_length_lem b (length value) (tag ∷ []),
      try_extend_lem b data_capacity (tag ∷ field) value,
      length-append field value,
      fits-le b data_capacity 1 (suc (length field) + length value),
      fits-le b data_capacity (suc (length field)) (suc (length field) + length value),
    )

-- A block is written as its tag, its length field and its value if the value has a length that
-- can be encoded and the bytes fit a `DataVec`. Otherwise nothing is written, and the error names
-- which of the two fails.
pub tlv_written :
    (b : Build) (t : Tlv)
    → to_bytes b t
      ≡ (if leb (value_size t) max_tlv_length then buffered b (block_bytes t) else err out_of_range)
unfolding to_bytes
tlv_written b null = ground (arith, try_push_lem {A = ℕ} b data_capacity [] 0x00)
tlv_written b terminator = ground (arith, try_push_lem {A = ℕ} b data_capacity [] 0xFE)
tlv_written b (lock_control v) = write_control_lem b 0x01 (Lock.to_bytes v)
tlv_written b (memory_control v) = write_control_lem b 0x02 (Memory.to_bytes v)
tlv_written b (ndef_message v) = write_value_lem b 0x03 v
tlv_written b (proprietary v) = write_value_lem b 0xFD v

-- The reported length of a block is that of its value, or an error if it is above 0xFFFE.
pub value_length_lem :
    (t : Tlv)
    → value_length t
      ≡ (if leb (value_size t) max_tlv_length then ok (value_size t) else err out_of_range)
unfolding value_length
value_length_lem null = refl
value_length_lem terminator = refl
value_length_lem (lock_control v) = refl
value_length_lem (memory_control v) = refl
value_length_lem (ndef_message v) = ground arith
value_length_lem (proprietary v) = ground arith
