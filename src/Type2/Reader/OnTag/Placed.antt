-- ===== src/Type2/Reader/OnTag/Placed.antt =====
-- Where a tag that holds a message has the NDEF block (src/type2/reader.rs, `write_ndef`).
use nfc_forum_tags.Prelude.{
  ℕ, suc, ◌+◌, ◌-◌, ◌%◌, ◌^◌, ◌≤◌, ◌<◌, ◌≡◌, ◌∙◌, sym, ap, arith, Bool, true, false, List, [], ◌∷◌,
  ◌++◌, append_assoc, length, not, if◌then◌else◌,
}
use mathlib.Core.Option.{some-injective}
use mathlib.Core.Path.{subst}
use native.Mathlib.Decide.{dec_le}
use nfc_forum_tags.Outcome.{Outcome, ok, err, Ensures-ok}
use nfc_forum_tags.Vec.{Build}
use nfc_forum_tags.Type2.Error.{Type2Error, read_only}
use nfc_forum_tags.Type2.Geometry.{address_space_end}
use nfc_forum_tags.Type2.Cc.{CapabilityContainer, is_valid, is_granted, data_area_size}
use nfc_forum_tags.Type2.Tlv.{Tlv, ndef_message, terminator, tlv_terminator}
use nfc_forum_tags.Type2.Tlv.Blocks.{IsWritable}
use nfc_forum_tags.Type2.Tlv.RoundTrip.{stream}
use nfc_forum_tags.Type2.Scanner
use nfc_forum_tags.Type2.Memory.{MemoryLayout, from_cc_and_tlvs}
use nfc_forum_tags.Type2.Memory.Plain.{from_cc_and_tlvs-IsPlain}
use nfc_forum_tags.Type2.Memory.Usable.{
  IsUsableAt, usable_count, usable_offset_iff, usable_count-between, count_at, count_usable,
}
use nfc_forum_tags.Type2.Reader.Ndef.{Target, locate, ndef_tlv_offset}
use nfc_forum_tags.Type2.Reader.Located.{IsTarget, locate-IsTarget, field_size}
use nfc_forum_tags.Type2.Reader.Offset.{ndef_tlv_offset-stream, stream-append}
use nfc_forum_tags.Type2.TagMemory.{Memory}
use nfc_forum_tags.Type2.Reader.OnTag.Checks.{target_of, IsWritten}
use nfc_forum_tags.Type2.Reader.OnTag.DataBytes.{usable_bytes, usable_bytes-add}
use nfc_forum_tags.Type2.Reader.OnTag.Restored.{length-usable_bytes, until_terminator-prefix}
use nfc_forum_tags.Type2.Reader.OnTag.Holding.{
  IsPrefix, IsHolding, blocks, held_blocks, held_area, blocks-IsPlain,
}
use nfc_forum_tags.Type2.Reader.OnTag.Replaced.{same_front}

-- Where the block stands, and its length field, for a message of `n` bytes.
pub record IsPlaced (b : Build) (container : CapabilityContainer) (pre : List Tlv) (n na la : ℕ)
    : Type 0 where
  pub start : IsUsableAt (from_cc_and_tlvs b container []) (length (stream pre)) na
  pub field : IsUsableAt (from_cc_and_tlvs b container []) (length (stream pre) + 1) la
  pub room : length (stream pre) + 1 + field_size n + n + 1 ≤ data_area_size container

-- The block stands behind the blocks `pre`, and the limit behind the data area's last byte.
pub record IsStanding (b : Build) (container : CapabilityContainer) (pre : List Tlv) (n : ℕ)
    (target : Target) : Type 0 where
  pub layout : target.layout ≡ from_cc_and_tlvs b container []
  pub offset : target.ndef_offset ≡ length (stream pre)
  pub start :
      IsUsableAt (from_cc_and_tlvs b container []) (length (stream pre)) target.ndef_byte_addr
  pub last :
      IsUsableAt
        (from_cc_and_tlvs b container [])
        (data_area_size container - 1)
        (target.write_limit_addr - 1)
  pub room : length (stream pre) + 1 + field_size n + n + 1 ≤ data_area_size container

-- Two usable bytes behind one another have no usable byte between them.
pub usable-IsNext :
    (layout : MemoryLayout) (n0 na la : ℕ)
    → IsUsableAt layout n0 na
    → IsUsableAt layout (n0 + 1) la
    → (na < la) × (usable_count layout (na + 1) (la - (na + 1)) ≡ 0)
usable-IsNext layout n0 na la start field =
    let le : na ≤ la =
      (usable_count-between layout n0 (n0 + 1) na la (omega arith) start field).0 in
    let (l0, i0, u0, c0) = start in
    let (l1, i1, u1, c1) = field in
    let parts = count_at layout 16 na la l0 le in
    let order : na < la = distinct le c0 c1 in
    let step : la - na ≡ suc (la - (na + 1)) = omega arith in
    (
      order,
      omega (
        arith,
        parts,
        c0,
        c1,
        ap (usable_count layout na) step ∙ count_usable layout na (la - (na + 1)) u0,
      ),
    )
  where
    distinct :
        na ≤ la
        → usable_count layout 16 (na - 16) ≡ n0
        → usable_count layout 16 (la - 16) ≡ n0 + 1
        → na < la
    distinct le c0 c1 = elim (dec_le la na) [
      | no gt ↦ omega (arith, gt)
      | yes ge ↦
          let same : na ≡ la = omega arith in
          absurd (omega (arith, c0, c1, ap (λ a. usable_count layout 16 (a - 16)) same))
    ]

module _ {b : Build} {container : CapabilityContainer} {pre : List Tlv} (p : IsPrefix b pre)
    {old : List ℕ} (wo : IsWritable b (ndef_message old)) {mem : Memory}
    (h : IsHolding b container pre old mem) (message : List ℕ) (v : is_valid container ≡ true)
    (narrow : container.size_field < 256) where
  abbrev n : ℕ
  n = length message

  -- The checks have been made on the blocks that the tag holds.
  checked_locate :
      (target : Target)
      → target_of b mem n ≡ ok target
      → locate b container (blocks pre old) n ≡ ok target
  unfolding target_of
  checked_locate target e = allowed (is_granted container.write_access) (
      rw
        (
          h.container,
          v,
          held_area b container pre p old wo mem h,
          held_blocks b container pre p old wo,
        )
        at e)
    where
      allowed :
          (c : Bool)
          → ◌≡◌ {A = Outcome Type2Error Target}
              (if not c then err read_only else locate b container (blocks pre old) n)
              (ok target)
          → locate b container (blocks pre old) n ≡ ok target
      allowed true e = e
      allowed false e = absurd (cc)

  same_layout : from_cc_and_tlvs b container (blocks pre old) ≡ from_cc_and_tlvs b container []
  same_layout =
      from_cc_and_tlvs-IsPlain b container (blocks pre old)
        (blocks-IsPlain b container pre p old wo)

  -- The checks find the block behind the blocks `pre`, and the data area's end.
  pub stands :
      (target : Target) → target_of b mem n ≡ ok target → IsStanding b container pre n target
  stands target e =
      let i =
        Ensures-ok (IsTarget b container (blocks pre old) n) (locate b container (blocks pre old) n)
          target (locate-IsTarget b container (blocks pre old) n narrow)
          (checked_locate target e) in
      let offset : target.ndef_offset ≡ length (stream pre) = some-injective _ _ (
        sym i.offset
        ∙ ap (ndef_tlv_offset 0) (append_assoc pre (ndef_message old ∷ []) (terminator ∷ []))
        ∙ ndef_tlv_offset-stream pre (terminator ∷ []) old p.passed) in
      record {
        layout = i.layout ∙ same_layout;
        offset = offset;
        start =
            subst (λ l. IsUsableAt l (length (stream pre)) target.ndef_byte_addr) same_layout
              (subst
                (λ o.
                  IsUsableAt (from_cc_and_tlvs b container (blocks pre old)) o
                    target.ndef_byte_addr)
                offset i.start);
        last =
            subst (λ l. IsUsableAt l (data_area_size container - 1) (target.write_limit_addr - 1))
              same_layout i.limit;
        room = omega (arith, i.room, offset);
      }

  pub place :
      (m : Memory) (iw : IsWritten b mem message m)
      → IsPlaced b container pre n iw.target.ndef_byte_addr iw.l_addr
        × (iw.target.layout ≡ from_cc_and_tlvs b container [])
  place m iw =
      let target = iw.target in
      let i = stands target iw.checked in
      let size : data_area_size container < 2048 = unfold data_area_size in omega arith in
      let second : (target.ndef_offset % 2 ^ 16 + 1) % 2 ^ 16 ≡ length (stream pre) + 1 =
        omega (arith, i.room, size, i.offset) in
      let layout = i.layout in
      (
        record {
          start = i.start;
          field =
              (usable_offset_iff (from_cc_and_tlvs b container []) (length (stream pre) + 1)
                  iw.l_addr).0
                (rw (layout, second) at iw.behind_tag);
          room = i.room;
        },
        layout,
      )

  -- The bytes before the block are those of the blocks before it.
  pub front :
      (na : ℕ)
      → IsUsableAt (from_cc_and_tlvs b container []) (length (stream pre)) na
      → usable_bytes (from_cc_and_tlvs b container []) mem 16 (na - 16) ≡ stream pre
  front na (low, inside, usable, count) =
      let layout = from_cc_and_tlvs b container [] in
      let whole : address_space_end - 16 ≡ na - 16 + (address_space_end - na) = omega arith in
      let here : 16 + (na - 16) ≡ na = omega arith in
      let (ys, prefix) =
        until_terminator-prefix layout.data_area_size Scanner.new
          (usable_bytes layout mem 16 (address_space_end - 16)) in
      let front_part : List ℕ = usable_bytes layout mem 16 (na - 16) in
      let block : List ℕ = stream (ndef_message old ∷ []) in
      same_front front_part (stream pre) (usable_bytes layout mem na (address_space_end - na))
        (block ++ (tlv_terminator ∷ ys))
        (ap (λ a. front_part ++ usable_bytes layout mem a (address_space_end - na)) (sym here)
          ∙ sym (usable_bytes-add layout mem 16 (na - 16) (address_space_end - na))
          ∙ ap (usable_bytes layout mem 16) (sym whole)
          ∙ prefix
          ∙ ap (λ l. l ++ ys)
              (h.area
                ∙ ap (λ l. l ++ tlv_terminator ∷ []) (stream-append pre (ndef_message old ∷ [])))
          ∙ append_assoc (stream pre ++ block) (tlv_terminator ∷ []) ys
          ∙ append_assoc (stream pre) block (tlv_terminator ∷ ys))
        (length-usable_bytes layout mem 16 (na - 16) ∙ count)
