-- ===== src/Type2/Reader/OnTag/Checks.antt =====
-- The checks before a message is written, and what is stored after them (src/type2/reader.rs,
-- `write_ndef`).
use nfc_forum_tags.Prelude.{
  ℕ, ◌+◌, ◌-◌, ◌%◌, ◌^◌, ◌≤◌, ◌<◌, ◌≡◌, ◌⊎◌, inl, inr, ◌∙◌, arith, List, [], length, some, not,
  if◌then◌else◌,
}
use nfc_forum_tags.Outcome.{
  Outcome, ok, err, panic, stuck, Ensures, Ensures-ok, Ensures-Returns, >>=-Ensures,
}
use nfc_forum_tags.Outcome
use nfc_forum_tags.Vec.{Build}
use nfc_forum_tags.Type2.Error.{Type2Error, invalid_magic, read_only}
use nfc_forum_tags.Type2.Geometry.{address_space_end}
use nfc_forum_tags.Type2.Cc.{CapabilityContainer, is_valid, is_granted, data_area_size}
use nfc_forum_tags.Type2.Cc
use nfc_forum_tags.Type2.Tlv.{Tlv, parse_tlvs}
use nfc_forum_tags.Type2.Memory.{MemoryLayout, from_cc_and_tlvs, usable_offset_to_address}
use nfc_forum_tags.Type2.Memory.Usable.{usable_offset_iff, usable_count-between}
use nfc_forum_tags.Type2.Reader.Ndef.{Target, locate, build_payload, length_bytes}
use nfc_forum_tags.Type2.Reader.Located.{IsTarget, locate-IsTarget}
use nfc_forum_tags.Type2.TagMemory.{Memory}
use nfc_forum_tags.Type2.Reader.OnTag.Overwrite.{overwrite}
use nfc_forum_tags.Type2.Reader.OnTag.Frame.{IsOutside, IsFrame}
use nfc_forum_tags.Type2.Reader.OnTag.Contents.{cc_of, full_data_area_of}

-- The checks before the first WRITE, on what the memory holds.
unfoldable pub target_of : Build → Memory → ℕ → Outcome Type2Error Target
target_of b mem n = Outcome.◌>>=◌ (cc_of mem) λ cc.
    if not (is_valid cc)
    then err (invalid_magic 0)
    else if not (is_granted cc.write_access)
    then err read_only
    else (Outcome.◌>>=◌ (full_data_area_of b cc mem)
        λ data_area. Outcome.◌>>=◌ (parse_tlvs b data_area) λ tlvs. locate b cc tlvs n)

pub size_of_cc :
    (mem : Memory) (cc : CapabilityContainer) → cc_of mem ≡ ok cc → cc.size_field ≡ mem 14
unfolding Cc.try_from
size_of_cc mem cc e = ground arith

module _ (b : Build) (mem : Memory) (message : List ℕ) where
  -- The memory is as it was, or the checks have passed and it is as it was outside the usable bytes
  -- from the NDEF block on and below the limit.
  abbrev pub IsTouched : Memory → Type 0
  IsTouched m =
      (m ≡ mem)
      ⊎ ((target : Target) × (target_of b mem (length message) ≡ ok target)
          × IsFrame target.layout target.ndef_byte_addr target.write_limit_addr mem m)

  -- The payload has been stored over the usable bytes from the NDEF block on, and after it the
  -- length field behind the block's tag.
  pub record IsWritten (m : Memory) : Type 0 where
    pub target : Target
    pub payload : List ℕ
    pub l_addr : ℕ
    pub half : Memory
    pub checked : target_of b mem (length message) ≡ ok target
    pub built : build_payload b message ≡ ok payload
    pub behind_tag :
        usable_offset_to_address target.layout ((target.ndef_offset % 2 ^ 16 + 1) % 2 ^ 16)
        ≡ some l_addr
    pub body :
        overwrite target.layout
          (address_space_end - target.ndef_byte_addr)
          target.ndef_byte_addr
          payload
          mem
        ≡ ([], half)
    pub field :
        overwrite target.layout
          (address_space_end - l_addr)
          l_addr
          (length_bytes (length message))
          half
        ≡ ([], m)
    pub frame : IsFrame target.layout target.ndef_byte_addr target.write_limit_addr mem m

  -- The length field stands behind the block's first byte.
  pub start-le :
      (cc : CapabilityContainer) (tlvs : List Tlv) (target : Target) (l_addr : ℕ)
      → cc.size_field < 256
      → locate b cc tlvs (length message) ≡ ok target
      → usable_offset_to_address target.layout ((target.ndef_offset % 2 ^ 16 + 1) % 2 ^ 16)
        ≡ some l_addr
      → target.ndef_byte_addr ≤ l_addr
  start-le cc tlvs target l_addr h e l =
      let i =
        Ensures-ok (IsTarget b cc tlvs (length message)) (locate b cc tlvs (length message)) target
          (locate-IsTarget b cc tlvs (length message) h) e in
      let size : data_area_size cc < 2048 = unfold data_area_size in omega arith in
      let narrow : (target.ndef_offset % 2 ^ 16 + 1) % 2 ^ 16 ≡ target.ndef_offset + 1 =
        omega (arith, i.room, size) in
      let layout = from_cc_and_tlvs b cc tlvs in
      let second =
        (usable_offset_iff layout (target.ndef_offset + 1) l_addr).0 (rw (i.layout, narrow) at l) in
      (usable_count-between layout target.ndef_offset (target.ndef_offset + 1) target.ndef_byte_addr
        l_addr (omega arith) i.start second).0

-- A frame from a later start on, after one from an earlier start on.
pub IsFrame-trans :
    (layout : MemoryLayout) (start later limit : ℕ) (mem m m' : Memory)
    → start ≤ later
    → IsFrame layout start limit mem m
    → IsFrame layout later limit m m'
    → IsFrame layout start limit mem m'
IsFrame-trans layout start later limit mem m m' h f g a o = g a (further o) ∙ f a o
  where
    further : IsOutside layout start limit a → IsOutside layout later limit a
    further (inl l) = inl (omega arith)
    further (inr x) = inr x
