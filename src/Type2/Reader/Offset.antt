-- ===== src/Type2/Reader/Offset.antt =====
-- The offset of the NDEF block (src/type2/reader.rs, `write_ndef`) against the bytes of the stream.
use nfc_forum_tags.Prelude.{
  ℕ, ◌+◌, ◌≤◌, ◌≡◌, ◌≢◌, ap, ◌∙◌, refl, List, [], ◌∷◌, ◌++◌, some, length, drop, arith,
  length-append, drop-append, append_assoc, sym, true, All, if◌then◌else◌, ltb,
}
use nfc_forum_tags.Outcome.{ok}
use nfc_forum_tags.Vec.{Build, fits}
use nfc_forum_tags.Length.{max_tlv_length}
use nfc_forum_tags.Length.RoundTrip.{length_field}
use nfc_forum_tags.Type2.Tlv.{
  Tlv, null, lock_control, memory_control, ndef_message, proprietary, terminator, tlv_ndef_message,
  tlv_terminator, tlv_capacity, parse_tlvs,
}
use nfc_forum_tags.Type2.Tlv.Blocks.{tag_of, block_bytes, IsWritable}
use nfc_forum_tags.Type2.Tlv.RoundTrip.{stream, Continues}
use nfc_forum_tags.Type2.Tlv.Unknown.{IsUnknown, unknown_bytes, parse_tlvs-unknown}
use nfc_forum_tags.Type2.Reader.Ndef.{ndef_tlv_offset}

-- A block that the search for the NDEF block goes past.
abbrev pub IsPassed : Tlv → Type 0
IsPassed t = (tag_of t ≢ tlv_ndef_message) × (tag_of t ≢ tlv_terminator)

offset_from :
    (offset : ℕ) (ts us : List Tlv) (message : List ℕ)
    → All IsPassed ts
    → ndef_tlv_offset offset (ts ++ (ndef_message message ∷ us))
      ≡ some (offset + length (stream ts))
unfolding ndef_tlv_offset
offset_from offset [] us message p = ap (λ n. some n) (omega arith)
offset_from offset (null ∷ ts) us message p =
    offset_from (offset + 1) ts us message p.1 ∙ ap (λ n. some n) (omega arith)
offset_from offset (terminator ∷ ts) us message p = absurd (p.0.1 refl)
offset_from offset (ndef_message v ∷ ts) us message p = absurd (p.0.0 refl)
offset_from offset (lock_control v ∷ ts) us message p =
    offset_from (offset + 5) ts us message p.1 ∙ ap (λ n. some n) (omega arith)
offset_from offset (memory_control v ∷ ts) us message p =
    offset_from (offset + 5) ts us message p.1 ∙ ap (λ n. some n) (omega arith)
offset_from offset (proprietary v ∷ ts) us message p =
    let size : length (length_field (length v)) ≡ (if ltb (length v) 0xFF then 1 else 3) =
      unfold length_field in ground arith in
    offset_from (offset + (1 + (if ltb (length v) 0xFF then 1 else 3) + length v)) ts us message p.1
    ∙ ap (λ n. some n)
        (omega (
          arith,
          size,
          length-append (length_field (length v) ++ v) (stream ts),
          length-append (length_field (length v)) v,
        ))

-- If none of the blocks `ts` is an NDEF Message or a Terminator, the offset that is found for
-- `ts` and an NDEF Message behind them is the number of bytes that `ts` are written as.
pub ndef_tlv_offset-stream :
    (ts us : List Tlv) (message : List ℕ)
    → All IsPassed ts
    → ndef_tlv_offset 0 (ts ++ (ndef_message message ∷ us)) ≡ some (length (stream ts))
ndef_tlv_offset-stream ts us message p =
    offset_from 0 ts us message p ∙ ap (λ n. some n) (omega arith)

pub stream-append : (ts us : List Tlv) → stream (ts ++ us) ≡ stream ts ++ stream us
stream-append [] us = refl
stream-append (t ∷ ts) us =
    ap (λ xs. block_bytes t ++ xs) (stream-append ts us)
    ∙ sym (append_assoc (block_bytes t) (stream ts) (stream us))

-- For an unknown block before writable blocks, no more than the build has room for, of which `ts`
-- stand before the first NDEF Message: the parser answers the blocks without the unknown one, the
-- offset that is found is the size of `ts`, and the NDEF Message stands behind the unknown block
-- and `ts`.
pub offset_without_unknown :
    (b : Build) (tag : ℕ) (value : List ℕ) (ts us : List Tlv) (message : List ℕ)
    → IsUnknown tag
    → length value ≤ max_tlv_length
    → All IsPassed ts
    → All (IsWritable b) (ts ++ (ndef_message message ∷ us))
    → All Continues (ts ++ (ndef_message message ∷ us))
    → fits b tlv_capacity (length (ts ++ (ndef_message message ∷ us))) ≡ true
    → (parse_tlvs b (unknown_bytes tag value ++ stream (ts ++ (ndef_message message ∷ us)))
        ≡ ok (ts ++ (ndef_message message ∷ us)))
      × (ndef_tlv_offset 0 (ts ++ (ndef_message message ∷ us)) ≡ some (length (stream ts)))
      × (drop
            (length (unknown_bytes tag value) + length (stream ts))
            (unknown_bytes tag value ++ stream (ts ++ (ndef_message message ∷ us)))
          ≡ stream (ndef_message message ∷ us))
offset_without_unknown b tag value ts us message u h p w c f = (
  parse_tlvs-unknown b tag value (ts ++ (ndef_message message ∷ us)) u h w c f,
  ndef_tlv_offset-stream ts us message p,
  behind,
)
  where
    behind :
        drop
          (length (unknown_bytes tag value) + length (stream ts))
          (unknown_bytes tag value ++ stream (ts ++ (ndef_message message ∷ us)))
        ≡ stream (ndef_message message ∷ us)
    behind =
        rw
          (
            stream-append ts (ndef_message message ∷ us),
            ← append_assoc (unknown_bytes tag value) (stream ts)
                (stream (ndef_message message ∷ us)),
          )
          (drop-append (unknown_bytes tag value ++ stream ts) (stream (ndef_message message ∷ us)) _
            (omega (arith, length-append (unknown_bytes tag value) (stream ts))))
