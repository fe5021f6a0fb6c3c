-- ===== src/Type2/Memory/Plain.antt =====
-- The layout of a tag without control blocks (src/type2/memory.rs, `from_cc_and_tlvs`).
use nfc_forum_tags.Prelude.{◌≡◌, refl, List, [], ◌∷◌, All}
use nfc_forum_tags.Vec.{Build}
use nfc_forum_tags.Type2.Cc.{CapabilityContainer}
use nfc_forum_tags.Type2.Tlv.{
  Tlv, null, lock_control, memory_control, ndef_message, proprietary, terminator,
}
use nfc_forum_tags.Type2.Memory.{Areas, collect_areas, from_cc_and_tlvs}

abbrev pub IsPlain : Tlv → Type 0
IsPlain (lock_control v) = ⊥
IsPlain (memory_control v) = ⊥
IsPlain null = Unit
IsPlain (ndef_message v) = Unit
IsPlain (proprietary v) = Unit
IsPlain terminator = Unit

collect_areas-IsPlain :
    (b : Build) (ts : List Tlv) (areas : Areas) → All IsPlain ts → collect_areas b ts areas ≡ areas
unfolding collect_areas
collect_areas-IsPlain b [] areas h = refl
collect_areas-IsPlain b (null ∷ ts) areas h = collect_areas-IsPlain b ts areas h.1
collect_areas-IsPlain b (lock_control v ∷ ts) areas h = absurd h.0
collect_areas-IsPlain b (memory_control v ∷ ts) areas h = absurd h.0
collect_areas-IsPlain b (ndef_message v ∷ ts) areas h = collect_areas-IsPlain b ts areas h.1
collect_areas-IsPlain b (proprietary v ∷ ts) areas h = collect_areas-IsPlain b ts areas h.1
collect_areas-IsPlain b (terminator ∷ ts) areas h = collect_areas-IsPlain b ts areas h.1

-- Without control blocks the layout is that of the container.
pub from_cc_and_tlvs-IsPlain :
    (b : Build) (cc : CapabilityContainer) (ts : List Tlv)
    → All IsPlain ts
    → from_cc_and_tlvs b cc ts ≡ from_cc_and_tlvs b cc []
unfolding from_cc_and_tlvs collect_areas
from_cc_and_tlvs-IsPlain b cc ts h = rw (collect_areas-IsPlain b ts ([], []) h) refl
