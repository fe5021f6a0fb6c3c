-- ===== src/Type2/Reader/OnTag/Payload.antt =====
-- The bytes that a message is written as, and read from (src/type2/reader.rs, `write_ndef` and
-- `read_data_area`).
use nfc_forum_tags.Prelude.{
  ℕ, ◌+◌, ◌-◌, ◌/◌, ◌%◌, ◌≤◌, ◌<◌, ◌≡◌, ◌∙◌, refl, sym, ap, arith, Bool, true, false, List, [], ◌∷◌,
  ◌++◌, append_assoc, length, length-append, take, take-append, ltb, All, IsByte, All-append,
  if◌then◌else◌,
}
use nfc_forum_tags.Outcome.{ok}
use nfc_forum_tags.Vec.{Build}
use nfc_forum_tags.Length.RoundTrip.{length_field}
use nfc_forum_tags.Type2.Geometry.{address_space_end}
use nfc_forum_tags.Type2.Cc.{CapabilityContainer, data_area_size}
use nfc_forum_tags.Type2.Tlv.{Tlv, ndef_message, tlv_terminator, tlv_ndef_message}
use nfc_forum_tags.Type2.Tlv.Blocks.{IsWritable}
use nfc_forum_tags.Type2.Tlv.RoundTrip.{stream, Continues}
use nfc_forum_tags.Type2.Scanner
use nfc_forum_tags.Type2.Scanner.Boundaries.{terminator_position-stream}
use nfc_forum_tags.Type2.Memory.{from_cc_and_tlvs}
use nfc_forum_tags.Type2.Reader.Ndef.{build_payload, length_bytes}
use nfc_forum_tags.Type2.Reader.Located.{field_size, zero_field, build_payload_lem}
use nfc_forum_tags.Type2.Reader.Offset.{stream-append}
use nfc_forum_tags.Type2.TagMemory.{Memory}
use nfc_forum_tags.Type2.Reader.OnTag.Contents.{data_area_of}
use nfc_forum_tags.Type2.Reader.OnTag.DataBytes.{usable_bytes, until_terminator}
use nfc_forum_tags.Type2.Reader.OnTag.Restored.{until_terminator-position}
use nfc_forum_tags.Type2.Reader.OnTag.Holding.{IsPrefix, passed-Continues}

module _ (b : Build) (container : CapabilityContainer) (pre : List Tlv) (p : IsPrefix b pre)
    (message : List ℕ) (w : IsWritable b (ndef_message message)) where
  abbrev n : ℕ
  n = length message

  pub payload_bytes :
      (payload : List ℕ)
      → build_payload b message ≡ ok payload
      → payload ≡ tlv_ndef_message ∷ (zero_field n ++ (message ++ tlv_terminator ∷ []))
  payload_bytes payload e = ground (arith, build_payload_lem b message)

  pub zeros-IsByte : All IsByte (zero_field n)
  zeros-IsByte = either (ltb n 0xFF)
    where
      either : (c : Bool) → All IsByte (if c then 0x00 ∷ [] else 0xFF ∷ 0x00 ∷ 0x00 ∷ [])
      either true = (omega arith, tt)
      either false = (omega arith, (omega arith, (omega arith, tt)))

  -- The length field as it is written is the one of the standard.
  pub length_bytes-length_field : length_bytes n ≡ length_field n
  unfolding length_bytes length_field
  length_bytes-length_field = let small : n ≤ 0xFFFE = w.1 in ground arith

  pub length_bytes-IsByte : All IsByte (length_bytes n)
  unfolding length_bytes
  length_bytes-IsByte = either (ltb n 0xFF)
    where
      either :
          (c : Bool) → All IsByte (if c then n % 256 ∷ [] else 0xFF ∷ n / 256 % 256 ∷ n % 256 ∷ [])
      either true = (omega arith, tt)
      either false = (omega arith, (omega arith, (omega arith, tt)))

  pub length-length_bytes : length (length_bytes n) ≡ length (zero_field n)
  unfolding length_bytes
  length-length_bytes = ground arith

  size_of_field : length (length_field n) ≡ field_size n
  unfolding length_field
  size_of_field = ground arith

  layout_size : (from_cc_and_tlvs b container []).data_area_size ≡ data_area_size container
  unfolding from_cc_and_tlvs
  layout_size = refl

  -- The blocks and the Terminator, among the usable bytes.
  pub ends_with :
      (m : Memory) (rest : List ℕ)
      → length (stream pre) + 1 + field_size n + n + 1 ≤ data_area_size container
      → usable_bytes (from_cc_and_tlvs b container []) m 16 (address_space_end - 16)
        ≡ stream (pre ++ ndef_message message ∷ []) ++ (tlv_terminator ∷ rest)
      → data_area_of m (from_cc_and_tlvs b container [])
        ≡ stream (pre ++ ndef_message message ∷ []) ++ tlv_terminator ∷ []
  ends_with m rest room e =
      let layout = from_cc_and_tlvs b container [] in
      let ts : List Tlv = pre ++ ndef_message message ∷ [] in
      let total : ℕ = length (stream ts) in
      let below : total < layout.data_area_size = omega (
        arith,
        room,
        layout_size,
        size_of_field,
        ap length (stream-append pre (ndef_message message ∷ [])),
        length-append (stream pre) (stream (ndef_message message ∷ [])),
        length-append (length_field n ++ message) [],
        length-append (length_field n) message,
      ) in
      ap (until_terminator layout.data_area_size Scanner.new) e
      ∙ until_terminator-position layout.data_area_size Scanner.new
          (stream ts ++ (tlv_terminator ∷ rest)) total
          (terminator_position-stream b ts rest
            (All-append (IsWritable b) pre (ndef_message message ∷ []) p.writable (w, tt))
            (All-append Continues pre (ndef_message message ∷ []) (passed-Continues pre p.passed)
              (λ e. omega (arith, e), tt)))
          below
      ∙ ap (take (total + 1)) (sym (append_assoc (stream ts) (tlv_terminator ∷ []) rest))
      ∙ take-append (stream ts ++ tlv_terminator ∷ []) rest (total + 1)
          (omega (arith, length-append (stream ts) (tlv_terminator ∷ [])))
