-- ===== src/Length/RoundTrip.antt =====
-- The length field (src/tlv.rs) as bytes, and both of its functions on it.
use nfc_forum_tags.Prelude.{
  ◌&&◌, ℕ, ◌<◌, ◌+◌, ◌/◌, ◌%◌, ◌≤◌, ◌≡◌, inl, inr, List, [], ◌∷◌, ◌++◌, length, ltb, if◌then◌else◌,
  arith, get_elem?-some, get_elem?-append_right, length-append, Bool-cases, append_assoc,
}
use nfc_forum_tags.Outcome.{ok, err, Ensures}
use nfc_forum_tags.Vec.{Build, data_capacity, fits, try_push_lem, try_extend_lem, fits-le}
use nfc_forum_tags.Length.{
  invalid_tlv, buffer_full, parse_tlv_length, encode_tlv_length, max_tlv_length,
}

-- The field of a length that the encoding can hold, as the standard writes it.
unfoldable pub length_field : ℕ → List ℕ
length_field len = if ltb len 0xFF then len ∷ [] else 0xFF ∷ len / 256 ∷ len % 256 ∷ []

-- Parsing a length field returns on any input, and an answer has consumed bytes.
pub parse_tlv_length-Ensures :
    (bytes : List ℕ) (offset : ℕ) → Ensures (λ r. 0 < r.1) (parse_tlv_length bytes offset)
unfolding parse_tlv_length
parse_tlv_length-Ensures bytes offset = ground (
  arith,
  get_elem?-some bytes offset,
  get_elem?-some bytes (offset + 1),
  get_elem?-some bytes (offset + 2),
)

-- What stands before the offset does not matter.
pub parse_tlv_length-append :
    (before rest : List ℕ) (offset : ℕ)
    → offset ≡ length before
    → parse_tlv_length (before ++ rest) offset ≡ parse_tlv_length rest 0
unfolding parse_tlv_length
parse_tlv_length-append before rest offset e = ground (
  arith,
  length-append before rest,
  get_elem?-append_right before rest offset 0,
  get_elem?-append_right before rest (offset + 1) 1,
  get_elem?-append_right before rest (offset + 2) 2,
)

-- The field of a length of at most 0xFFFE is parsed to that length and its own size, whatever
-- follows it.
pub parse_tlv_length-length_field :
    (len : ℕ) (after : List ℕ)
    → len ≤ max_tlv_length
    → parse_tlv_length (length_field len ++ after) 0 ≡ ok (len, length (length_field len))
unfolding parse_tlv_length length_field
parse_tlv_length-length_field len after h = elim (Bool-cases (ltb len 0xFF)) [
  | inl short ↦ rw short (ground arith)
  | inr long ↦ rw long (ground arith)
]

-- On every length and buffer: `encode_tlv_length` refuses a length above 0xFFFE and leaves the
-- buffer as it was, and otherwise appends its field if there is room for it, or answers that the
-- buffer is full. Then the buffer is as it was, but for the marker 0xFF that stays in it if the
-- field has three bytes and there is room for one.
pub encode_tlv_length_lem :
    (b : Build) (len : ℕ) (out : List ℕ)
    → encode_tlv_length b len out ≡ (
        if ltb max_tlv_length len
        then (err invalid_tlv, out)
        else if fits b data_capacity (length out + length (length_field len))
        then (ok tt, out ++ length_field len)
        else (
          err buffer_full,
          if ltb 0xFE len && fits b data_capacity (length out + 1) then out ++ 0xFF ∷ [] else out,
        ))
unfolding encode_tlv_length length_field
encode_tlv_length_lem b len out = ground (
  arith,
  try_push_lem b data_capacity out (len % 256),
  try_push_lem b data_capacity out 0xFF,
  try_extend_lem b data_capacity (out ++ 0xFF ∷ []) (len / 256 % 256 ∷ len % 256 ∷ []),
  length-append out (0xFF ∷ []),
  append_assoc out (0xFF ∷ []) (len / 256 % 256 ∷ len % 256 ∷ []),
  fits-le b data_capacity (length out + 1) (length out + 3),
)
