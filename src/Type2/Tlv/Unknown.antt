-- ===== src/Type2/Tlv/Unknown.antt =====
-- A block with a tag that the crate does not know (src/type2/tlv.rs, `parse_tlvs_into`).
use nfc_forum_tags.Prelude.{
  ℕ, suc, ◌+◌, ◌≤◌, ◌≡◌, ◌≢◌, refl, ap, ◌∙◌, false, true, List, [], ◌∷◌, ◌++◌, none, length, arith,
  length-append, append_assoc, All, ◌==◌, leb,
}
use nfc_forum_tags.Outcome.{ok, map_err}
use nfc_forum_tags.Vec.{Build, fits}
use nfc_forum_tags.Length.{max_tlv_length}
use nfc_forum_tags.Length.RoundTrip.{
  length_field, parse_tlv_length-append, parse_tlv_length-length_field,
}
use nfc_forum_tags.Type2.Tlv.{
  Tlv, tlv_null, tlv_lock_control, tlv_memory_control, tlv_ndef_message, tlv_proprietary,
  tlv_terminator, tlv_capacity, parse_block, parse_loop, parse_tlvs, push_tlv, as_invalid,
  skip_value, parse_tlv_length,
}
use nfc_forum_tags.Type2.Tlv.Blocks.{IsWritable}
use nfc_forum_tags.Type2.Tlv.RoundTrip.{stream, Continues, parse_loop-stream_end, length-le-stream}

-- A tag that no arm of the parser names.
pub record IsUnknown (tag : ℕ) : Type 0 where
  pub null : tag ≢ tlv_null
  pub lock : tag ≢ tlv_lock_control
  pub memory : tag ≢ tlv_memory_control
  pub ndef : tag ≢ tlv_ndef_message
  pub proprietary : tag ≢ tlv_proprietary
  pub terminator : tag ≢ tlv_terminator

abbrev pub unknown_bytes : ℕ → List ℕ → List ℕ
unknown_bytes tag value = tag ∷ (length_field (length value) ++ value)

skip_value_parts :
    (bytes : List ℕ) (offset len consumed : ℕ)
    → parse_tlv_length bytes offset ≡ ok (len, consumed)
    → offset + consumed + len ≤ length bytes
    → skip_value bytes offset ≡ ok (offset + consumed + len)
unfolding skip_value
skip_value_parts bytes offset len consumed p h = rw p (ground arith)

skip_value-field :
    (tag : ℕ) (value rest : List ℕ)
    → length value ≤ max_tlv_length
    → skip_value (unknown_bytes tag value ++ rest) 1 ≡ ok (length (unknown_bytes tag value))
skip_value-field tag value rest h =
    let field : List ℕ = length_field (length value) in
    rw (append_assoc field value rest) (
      skip_value_parts (tag ∷ (field ++ (value ++ rest))) 1 (length value) (length field)
        (ap (map_err as_invalid) (
          parse_tlv_length-append (tag ∷ []) (field ++ (value ++ rest)) 1 refl
          ∙ parse_tlv_length-length_field (length value) (value ++ rest) h))
        (omega (arith, length-append field (value ++ rest), length-append value rest))
      ∙ ap ok (omega (arith, length-append field value)))

unequal : (a b : ℕ) → a ≢ b → (a == b) ≡ false
unequal a b h = ground (arith, h)

parse_block-unknown :
    (b : Build) (tag : ℕ) (value rest : List ℕ)
    → IsUnknown tag
    → length value ≤ max_tlv_length
    → parse_block b (unknown_bytes tag value ++ rest) tag 1
      ≡ ok (none, length (unknown_bytes tag value))
unfolding parse_block
parse_block-unknown b tag value rest u h = rw (
  unequal tag tlv_null u.null,
  unequal tag tlv_terminator u.terminator,
  unequal tag tlv_lock_control u.lock,
  unequal tag tlv_memory_control u.memory,
  unequal tag tlv_ndef_message u.ndef,
  unequal tag tlv_proprietary u.proprietary,
  skip_value-field tag value rest h,
)

-- An unknown block whose value has a length that can be encoded, in front of writable blocks that
-- do not end the stream and are no more than the build has room for, is stepped over: the parser
-- answers the blocks without it.
pub parse_tlvs-unknown :
    (b : Build) (tag : ℕ) (value : List ℕ) (ts : List Tlv)
    → IsUnknown tag
    → length value ≤ max_tlv_length
    → All (IsWritable b) ts
    → All Continues ts
    → fits b tlv_capacity (length ts) ≡ true
    → parse_tlvs b (unknown_bytes tag value ++ stream ts) ≡ ok ts
unfolding parse_tlvs parse_loop push_tlv
parse_tlvs-unknown b tag value ts u h w c f =
    let skipped : List ℕ = unknown_bytes tag value in
    let fuel : ℕ = length ((length_field (length value) ++ value) ++ stream ts) in
    let more : leb (suc fuel) 0 ≡ false = ground arith in
    rw
      (
        more,
        parse_block-unknown b tag value (stream ts) u h,
        unequal tag tlv_terminator u.terminator,
      )
      (parse_loop-stream_end b ts skipped fuel w c f (
        omega (
          arith,
          length-le-stream ts,
          length-append (length_field (length value) ++ value) (stream ts),
        )))
