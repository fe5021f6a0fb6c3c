-- ===== src/Type2/Reader/OnTag/Holding.antt =====
-- A tag that holds an NDEF message behind other blocks (src/type2/reader.rs, `read_ndef`).
use nfc_forum_tags.Prelude.{
  ℕ, ◌+◌, ◌≡◌, ◌∙◌, refl, ap, arith, Bool, true, false, List, [], ◌∷◌, ◌++◌, append_assoc, length,
  length-append, All, All-append, ◌&&◌, if◌then◌else◌,
}
use nfc_forum_tags.Outcome.{ok}
use nfc_forum_tags.Vec.{Build, fits}
use nfc_forum_tags.Type2.Cc.{CapabilityContainer, is_valid, is_dynamic}
use nfc_forum_tags.Type2.Tlv.{
  Tlv, null, lock_control, memory_control, ndef_message, proprietary, terminator, tlv_terminator,
  tlv_capacity, parse_tlvs, ndef_data,
}
use nfc_forum_tags.Type2.Tlv.Blocks.{IsWritable}
use nfc_forum_tags.Type2.Tlv.RoundTrip.{stream, Continues, parse_tlvs-terminated}
use nfc_forum_tags.Type2.Memory.{from_cc_and_tlvs, any}
use nfc_forum_tags.Type2.Memory.Plain.{IsPlain}
use nfc_forum_tags.Type2.Reader.DataArea.{is_control, first_ndef}
use nfc_forum_tags.Type2.Reader.Offset.{IsPassed}
use nfc_forum_tags.Type2.TagMemory.{Memory}
use nfc_forum_tags.Type2.Reader.OnTag.Contents.{cc_of, data_area_of, full_data_area_of, message_of}

-- Blocks that may stand before the NDEF Message: neither control blocks nor a Terminator nor another
-- NDEF Message, and no more of them than leave room for two more.
pub record IsPrefix (b : Build) (pre : List Tlv) : Type 0 where
  pub passed : All IsPassed pre
  pub writable : All (IsWritable b) pre
  pub plain : All IsPlain pre
  pub room : fits b tlv_capacity (length pre + 2) ≡ true

-- The container is `cc`, and the data area has the blocks `pre`, an NDEF Message and a Terminator.
pub record IsHolding (b : Build) (cc : CapabilityContainer) (pre : List Tlv) (message : List ℕ)
    (mem : Memory) : Type 0 where
  pub container : cc_of mem ≡ ok cc
  pub area :
      data_area_of mem (from_cc_and_tlvs b cc [])
      ≡ stream (pre ++ ndef_message message ∷ []) ++ tlv_terminator ∷ []

-- The blocks of a data area that holds a message.
abbrev pub blocks : List Tlv → List ℕ → List Tlv
blocks pre message = (pre ++ ndef_message message ∷ []) ++ terminator ∷ []

plain_controls : (ts : List Tlv) → All IsPlain ts → any is_control ts ≡ false
plain_controls [] h = refl
plain_controls (null ∷ ts) h = plain_controls ts h.1
plain_controls (lock_control v ∷ ts) h = absurd h.0
plain_controls (memory_control v ∷ ts) h = absurd h.0
plain_controls (ndef_message v ∷ ts) h = plain_controls ts h.1
plain_controls (proprietary v ∷ ts) h = plain_controls ts h.1
plain_controls (terminator ∷ ts) h = plain_controls ts h.1

pub passed-Continues : (ts : List Tlv) → All IsPassed ts → All Continues ts
passed-Continues [] h = tt
passed-Continues (t ∷ ts) h = (h.0.1, passed-Continues ts h.1)

-- A message behind blocks that are passed is the first.
first_ndef-passed :
    (ts us : List Tlv) (message : List ℕ)
    → All IsPassed ts
    → first_ndef (ts ++ (ndef_message message ∷ us)) ≡ message
unfolding first_ndef ndef_data
first_ndef-passed [] us message h = refl
first_ndef-passed (null ∷ ts) us message h = first_ndef-passed ts us message h.1
first_ndef-passed (lock_control v ∷ ts) us message h = first_ndef-passed ts us message h.1
first_ndef-passed (memory_control v ∷ ts) us message h = first_ndef-passed ts us message h.1
first_ndef-passed (ndef_message v ∷ ts) us message h = absurd (h.0.0 refl)
first_ndef-passed (proprietary v ∷ ts) us message h = first_ndef-passed ts us message h.1
first_ndef-passed (terminator ∷ ts) us message h = absurd (h.0.1 refl)

one_pass : {A : Type 0} (x y : A) (c : Bool) → (if c && false then x else y) ≡ y
one_pass x y true = refl
one_pass x y false = refl

module _ (b : Build) (cc : CapabilityContainer) (pre : List Tlv) (p : IsPrefix b pre)
    (message : List ℕ) (w : IsWritable b (ndef_message message)) where
  pub held_blocks :
      parse_tlvs b (stream (pre ++ ndef_message message ∷ []) ++ tlv_terminator ∷ [])
      ≡ ok (blocks pre message)
  held_blocks =
      let count : length (pre ++ ndef_message message ∷ []) + 1 ≡ length pre + 2 =
        omega (arith, length-append pre (ndef_message message ∷ [])) in
      parse_tlvs-terminated b (pre ++ ndef_message message ∷ []) []
        (All-append (IsWritable b) pre (ndef_message message ∷ []) p.writable (w, tt))
        (All-append Continues pre (ndef_message message ∷ []) (passed-Continues pre p.passed)
          (λ e. omega (arith, e), tt))
        (ap (fits b tlv_capacity) count ∙ p.room)

  pub blocks-IsPlain : All IsPlain (blocks pre message)
  blocks-IsPlain =
      All-append IsPlain (pre ++ ndef_message message ∷ []) (terminator ∷ [])
        (All-append IsPlain pre (ndef_message message ∷ []) p.plain (tt, tt)) (tt, tt)

  pub held_plain : any is_control (blocks pre message) ≡ false
  held_plain = plain_controls (blocks pre message) blocks-IsPlain

  -- One pass reads it all.
  pub held_area :
      (mem : Memory)
      → IsHolding b cc pre message mem
      → full_data_area_of b cc mem
        ≡ ok (stream (pre ++ ndef_message message ∷ []) ++ tlv_terminator ∷ [])
  unfolding full_data_area_of
  held_area mem h = rw (h.area, held_blocks, held_plain) (one_pass _ _ (is_dynamic cc))

  -- The message that a tag holds is the one that is read.
  pub message_of_held :
      (mem : Memory)
      → is_valid cc ≡ true
      → IsHolding b cc pre message mem
      → message_of b mem ≡ ok message
  unfolding message_of
  message_of_held mem v h =
      rw (h.container, v, held_area mem h, held_blocks)
        (ap (λ m. ok m)
          (ap first_ndef (append_assoc pre (ndef_message message ∷ []) (terminator ∷ []))
            ∙ first_ndef-passed pre (terminator ∷ []) message p.passed))
