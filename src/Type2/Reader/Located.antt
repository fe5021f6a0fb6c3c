-- ===== src/Type2/Reader/Located.antt =====
-- Where a message is written (src/type2/reader.rs, `write_ndef`): the checks before the first WRITE
-- and the bytes of the payload.
use nfc_forum_tags.Prelude.{
  ℕ, ◌+◌, ◌-◌, ◌%◌, ◌^◌, ◌≤◌, ◌<◌, ◌≡◌, refl, Option, none, some, List, [], ◌∷◌, ◌++◌, length,
  arith, ltb, ltb-false→le, if◌then◌else◌, length-append, append_assoc,
}
use nfc_forum_tags.Outcome.{Outcome, ok, err, ◌>>=◌, Ensures, Ensures-if, Ensures-ok}
use nfc_forum_tags.Vec.{Build, fits, fits-le, data_capacity, try_push_lem, try_extend_lem}
use nfc_forum_tags.Type2.Cc.{CapabilityContainer, data_area_size}
use nfc_forum_tags.Type2.Error.{Type2Error, out_of_range, invalid_tlv, buffer_full}
use nfc_forum_tags.Type2.Memory.{from_cc_and_tlvs, usable_offset_to_address}
use nfc_forum_tags.Type2.Memory.Usable.{
  IsUsableAt, usable_count, usable_offset_iff, usable_count-between,
}
use nfc_forum_tags.Type2.Tlv.{Tlv, tlv_ndef_message, tlv_terminator}
use nfc_forum_tags.Type2.Reader.Ndef.{Target, locate, or_else, ndef_tlv_offset, build_payload, push}

-- The bytes of a length field.
abbrev pub field_size : ℕ → ℕ
field_size n = if ltb n 0xFF then 1 else 3

-- The message with its tag, its length field and a Terminator fits the data area behind the offset
-- of the NDEF block; the write begins at the usable byte with that offset, and its limit is one past the last
-- usable byte of the data area.
pub record IsTarget (b : Build) (cc : CapabilityContainer) (tlvs : List Tlv) (n : ℕ)
    (target : Target) : Type 0 where
  pub offset : ndef_tlv_offset 0 tlvs ≡ some target.ndef_offset
  pub room : target.ndef_offset + 1 + field_size n + n + 1 ≤ data_area_size cc
  pub layout : target.layout ≡ from_cc_and_tlvs b cc tlvs
  pub start : IsUsableAt (from_cc_and_tlvs b cc tlvs) target.ndef_offset target.ndef_byte_addr
  pub limit :
      IsUsableAt (from_cc_and_tlvs b cc tlvs) (data_area_size cc - 1) (target.write_limit_addr - 1)

or_else-Ensures :
    {A B : Type 0} (P : B → Type 0) (o : Option A) (e : Type2Error) (f : A → Outcome Type2Error B)
    → ((a : A) → o ≡ some a → Ensures P (f a))
    → Ensures P (or_else o e >>= f)
or_else-Ensures P none e f h = tt
or_else-Ensures P (some a) e f h = h a refl

-- A container of one size byte: the offsets go through 16 bits unchanged.
pub locate-IsTarget :
    (b : Build) (cc : CapabilityContainer) (tlvs : List Tlv) (n : ℕ)
    → cc.size_field < 256
    → Ensures (IsTarget b cc tlvs n) (locate b cc tlvs n)
unfolding locate
locate-IsTarget b cc tlvs n h =
    let layout = from_cc_and_tlvs b cc tlvs in
    let size = data_area_size cc in
    let small : size < 2048 = unfold data_area_size in omega arith in
    Ensures-if _ (ltb 0xFFFE n) _ _ (λ _. tt)
      λ _. or_else-Ensures _ (ndef_tlv_offset 0 tlvs) invalid_tlv _ λ offset e.
        Ensures-if _ (ltb size (offset + 1 + field_size n + n + 1)) _ _ (λ _. tt)
          λ f.
            let room = ltb-false→le size (offset + 1 + field_size n + n + 1) f in
            let narrow : offset % 2 ^ 16 ≡ offset = omega arith in
            let last : (size + 2 ^ 16 - 1) % 2 ^ 16 ≡ size - 1 = omega arith in
            or_else-Ensures _ (usable_offset_to_address layout (offset % 2 ^ 16)) out_of_range _
              λ addr s.
                or_else-Ensures _ (usable_offset_to_address layout ((size + 2 ^ 16 - 1) % 2 ^ 16))
                  out_of_range _
                  λ end l.
                    let less_one : end + 1 - 1 ≡ end = omega arith in
                    record {
                      offset = e;
                      room = room;
                      layout = refl;
                      start = (usable_offset_iff layout offset addr).0 (rw narrow at s);
                      limit =
                          rw less_one ((usable_offset_iff layout (size - 1) end).0 (rw last at l));
                    }

-- The length field that is written first: the length is zero in it.
abbrev pub zero_field : ℕ → List ℕ
zero_field n = if ltb n 0xFF then 0x00 ∷ [] else 0xFF ∷ 0x00 ∷ 0x00 ∷ []

push_lem :
    (b : Build) (out : List ℕ) (x : ℕ)
    → push b out x
      ≡ (if fits b data_capacity (length out + 1) then ok (out ++ x ∷ []) else err buffer_full)
push_lem b out x = ground (arith, try_push_lem b data_capacity out x)

-- The payload is the tag, a length field of zero, the message and a Terminator if they fit a
-- `DataVec`, and otherwise the error that the buffer is full.
pub build_payload_lem :
    (b : Build) (message : List ℕ)
    → let payload =
        tlv_ndef_message ∷ (zero_field (length message) ++ (message ++ tlv_terminator ∷ [])) in
      build_payload b message
      ≡ (if fits b data_capacity (length payload) then ok payload else err buffer_full)
unfolding build_payload
build_payload_lem b message =
    let n : ℕ = length message in
    ground (
      arith,
      push_lem b [] tlv_ndef_message,
      push_lem b (tlv_ndef_message ∷ []) 0x00,
      push_lem b (tlv_ndef_message ∷ []) 0xFF,
      push_lem b (tlv_ndef_message ∷ 0xFF ∷ []) 0x00,
      push_lem b (tlv_ndef_message ∷ 0xFF ∷ 0x00 ∷ []) 0x00,
      try_extend_lem b data_capacity (tlv_ndef_message ∷ zero_field n) message,
      push_lem b (tlv_ndef_message ∷ (zero_field n ++ message)) tlv_terminator,
      length-append message (tlv_terminator ∷ []),
      append_assoc (zero_field n) message (tlv_terminator ∷ []),
      fits-le b data_capacity 1 (n + 3),
      fits-le b data_capacity 2 (n + 3),
      fits-le b data_capacity (n + 2) (n + 3),
      fits-le b data_capacity 1 (n + 5),
      fits-le b data_capacity 2 (n + 5),
      fits-le b data_capacity 3 (n + 5),
      fits-le b data_capacity 4 (n + 5),
      fits-le b data_capacity (n + 4) (n + 5),
    )

payload_size :
    (b : Build) (message payload : List ℕ)
    → build_payload b message ≡ ok payload
    → length payload ≡ 1 + field_size (length message) + length message + 1
payload_size b message payload e = ground (
  arith,
  build_payload_lem b message,
  length-append (zero_field (length message)) (message ++ tlv_terminator ∷ []),
  length-append message (tlv_terminator ∷ []),
)

-- For a size field of one byte: when the checks of `write_ndef` pass and the payload is built,
-- the address of the NDEF block lies below the limit, there are as many usable bytes between them
-- as the data area has behind the block's offset, and the payload is no longer than that.
pub payload_has_room :
    (b : Build) (cc : CapabilityContainer) (tlvs : List Tlv) (message payload : List ℕ)
    (target : Target)
    → cc.size_field < 256
    → locate b cc tlvs (length message) ≡ ok target
    → build_payload b message ≡ ok payload
    → let room =
        usable_count target.layout target.ndef_byte_addr
          (target.write_limit_addr - target.ndef_byte_addr) in
      (target.ndef_byte_addr < target.write_limit_addr)
      × (room ≡ data_area_size cc - target.ndef_offset)
      × (length payload ≤ room)
payload_has_room b cc tlvs message payload target h e p =
    let t =
      Ensures-ok (IsTarget b cc tlvs (length message)) (locate b cc tlvs (length message)) target
        (locate-IsTarget b cc tlvs (length message) h) e in
    let last : target.write_limit_addr - 1 + 1 ≡ target.write_limit_addr =
      omega (arith, t.limit.0) in
    let between =
      usable_count-between (from_cc_and_tlvs b cc tlvs) target.ndef_offset (data_area_size cc - 1)
        target.ndef_byte_addr (target.write_limit_addr - 1) (omega (arith, t.room)) t.start
        t.limit in
    let room : usable_count target.layout target.ndef_byte_addr
          (target.write_limit_addr - target.ndef_byte_addr)
        ≡ data_area_size cc - 1 - target.ndef_offset + 1 =
      rw (t.layout, ← last) between.1 in
    (
      omega (arith, between.0, t.limit.0),
      omega (arith, room, t.room),
      omega (arith, room, t.room, payload_size b message payload p),
    )
