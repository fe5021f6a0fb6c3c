-- ===== src/Type2/Reader/OnTag/Contents.antt =====
-- What a memory holds: the container, the data area and the NDEF message (src/type2/reader.rs,
-- `read_cc`, `read_data_area_with_layout` and `read_ndef`).
use nfc_forum_tags.Prelude.{
  ℕ, zero, suc, ◌+◌, ◌-◌, ◌<◌, ◌≡◌, List, [], ◌∷◌, All, IsByte, Bool, true, false, not, ◌&&◌,
  if◌then◌else◌,
}
use mathlib.Core.Path.{subst}
use nfc_forum_tags.Outcome.{Outcome, ok, err, panic, stuck, index, ok-injective, Ensures-Returns}
use nfc_forum_tags.Outcome
use nfc_forum_tags.Vec.{Build}
use nfc_forum_tags.Type2.Error.{Type2Error, invalid_magic}
use nfc_forum_tags.Type2.Geometry.{address_space_end}
use nfc_forum_tags.Type2.Cc.{CapabilityContainer, is_dynamic, is_valid}
use nfc_forum_tags.Type2.Cc
use nfc_forum_tags.Type2.Tlv.{Tlv, parse_tlvs}
use nfc_forum_tags.Type2.Memory.{MemoryLayout, from_cc_and_tlvs, is_skip_area, any}
use nfc_forum_tags.Type2.Scanner.{TlvScanState, feed}
use nfc_forum_tags.Type2.Scanner
use nfc_forum_tags.Type2.Reader.DataArea.{is_control, first_ndef}
use nfc_forum_tags.Type2.TagMemory.{Memory}
use nfc_forum_tags.Type2.Reader.OnTag.DataBytes.{usable_bytes, until_terminator}

-- Block 3 of sector 0.
abbrev pub cc_of : Memory → Outcome Type2Error CapabilityContainer
cc_of mem = Cc.try_from (mem 12, mem 13, mem 14, mem 15)

-- The usable bytes behind block 3, up to the Terminator.
abbrev pub data_area_of : Memory → MemoryLayout → List ℕ
data_area_of mem layout =
    until_terminator layout.data_area_size Scanner.new
      (usable_bytes layout mem 16 (address_space_end - 16))

-- The first pass, and the second one if there are control blocks on a tag with a dynamic memory.
unfoldable pub full_data_area_of :
    Build → CapabilityContainer → Memory → Outcome Type2Error (List ℕ)
full_data_area_of b cc mem =
    let first = data_area_of mem (from_cc_and_tlvs b cc []) in
    Outcome.◌>>=◌ (parse_tlvs b first) λ tlvs.
      if is_dynamic cc && any is_control tlvs
      then ok (data_area_of mem (from_cc_and_tlvs b cc tlvs))
      else ok first

-- The value of the first NDEF Message block.
unfoldable pub message_of : Build → Memory → Outcome Type2Error (List ℕ)
unfolding full_data_area_of
message_of b mem = Outcome.◌>>=◌ (cc_of mem) λ cc.
    if not (is_valid cc)
    then err (invalid_magic 0)
    else (Outcome.◌>>=◌ (full_data_area_of b cc mem)
        λ data_area. Outcome.◌>>=◌ (parse_tlvs b data_area) λ tlvs. ok (first_ndef tlvs))

usable_bytes-IsByte :
    (layout : MemoryLayout) (mem : Memory) (a k : ℕ)
    → ((a : ℕ) → mem a < 256)
    → All IsByte (usable_bytes layout mem a k)
unfolding usable_bytes
usable_bytes-IsByte layout mem a zero h = tt
usable_bytes-IsByte layout mem a (suc k) h =
    either (is_skip_area layout a) _ (usable_bytes-IsByte layout mem (a + 1) k h)
  where
    either : (c : Bool) (xs : List ℕ) → All IsByte xs → All IsByte (if c then xs else mem a ∷ xs)
    either true xs r = r
    either false xs r = (h a, r)

until_terminator-IsByte :
    (room : ℕ) (scan : TlvScanState) (xs : List ℕ)
    → All IsByte xs
    → All IsByte (until_terminator room scan xs)
unfolding until_terminator
until_terminator-IsByte zero scan xs h = tt
until_terminator-IsByte (suc room) scan [] h = tt
until_terminator-IsByte (suc room) scan (x ∷ xs) h =
    (h.0, either (feed scan x).0 _ (until_terminator-IsByte room (feed scan x).1 xs h.1))
  where
    either : (c : Bool) (ys : List ℕ) → All IsByte ys → All IsByte (if c then [] else ys)
    either true ys r = tt
    either false ys r = r

pub data_area_of-IsByte :
    (mem : Memory) (layout : MemoryLayout)
    → ((a : ℕ) → mem a < 256)
    → All IsByte (data_area_of mem layout)
data_area_of-IsByte mem layout h =
    until_terminator-IsByte _ _ _ (usable_bytes-IsByte layout mem 16 _ h)

-- What is answered is made of bytes.
pub full_data_area_of-IsByte :
    (b : Build) (cc : CapabilityContainer) (mem : Memory) (data_area : List ℕ)
    → ((a : ℕ) → mem a < 256)
    → full_data_area_of b cc mem ≡ ok data_area
    → All IsByte data_area
unfolding full_data_area_of
full_data_area_of-IsByte b container mem data_area h e =
    either (parse_tlvs b (data_area_of mem (from_cc_and_tlvs b container []))) e
  where
    choice :
        (c : Bool) (tlvs : List Tlv)
        → ◌≡◌ {A = Outcome Type2Error (List ℕ)}
            (if c
              then ok (data_area_of mem (from_cc_and_tlvs b container tlvs))
              else ok (data_area_of mem (from_cc_and_tlvs b container [])))
            (ok data_area)
        → All IsByte data_area
    choice true tlvs e = subst (All IsByte) (ok-injective _ _ e) (data_area_of-IsByte mem _ h)
    choice false tlvs e = subst (All IsByte) (ok-injective _ _ e) (data_area_of-IsByte mem _ h)

    either :
        (m : Outcome Type2Error (List Tlv))
        → Outcome.◌>>=◌ m (λ tlvs.
          if is_dynamic container && any is_control tlvs
          then ok (data_area_of mem (from_cc_and_tlvs b container tlvs))
          else ok (data_area_of mem (from_cc_and_tlvs b container [])))
          ≡ ok data_area
        → All IsByte data_area
    either (ok tlvs) e = choice (is_dynamic container && any is_control tlvs) tlvs e
    either (err x) e = absurd (cc)
    either panic e = absurd (cc)
    either stuck e = absurd (cc)
