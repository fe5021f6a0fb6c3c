-- ===== src/Tests/Layouts.antt =====
-- The theorems on memory layouts, on concrete layouts.
use nfc_forum_tags.Prelude.{◌*◌, ◌⊎◌, All, arith, [], ◌∷◌, List, ◌≡◌, ◌↔◌, refl, true, some}
use nfc_forum_tags.Vec.{fits}
use nfc_forum_tags.Type2.Tlv.{Tlv, memory_control, ndef_message}
use nfc_forum_tags.Type2.Memory.{is_skip_area, from_cc_and_tlvs, usable_offset_to_address}
use nfc_forum_tags.Type2.Memory.Skipped.{is_skip_area_iff}
use nfc_forum_tags.Type2.Memory.Described.{Describes, IsLockControl, IsDefaultLockByte, IsInSpace}
use nfc_forum_tags.Type2.Memory.Usable.{IsUsableAt, usable_offset_iff}
use nfc_forum_tags.Tests.Fixtures.{test_build, test_cc, test_layout}

usable_offset_iff_example :
    (usable_offset_to_address test_layout 3 ≡ some 21) ↔ IsUsableAt test_layout 3 21
usable_offset_iff_example = usable_offset_iff test_layout 3 21

abbrev control_blocks : List Tlv
control_blocks =
    memory_control
      (record { page_addr = 12; byte_offset = 0; size_in_bytes = 8; bytes_per_page = 4 })
    ∷ ndef_message []
    ∷ []

two_fit : fits test_build 8 2 ≡ true
unfolding fits
two_fit = refl

control_blocks-IsInSpace : All IsInSpace control_blocks
control_blocks-IsInSpace = (
  record {
    page = omega arith;
    offset = omega arith;
    size = (omega arith, omega arith);
    per_page = (omega arith, omega arith);
    within = omega arith;
  },
  (tt, tt),
)

is_skip_area_iff_example :
    (is_skip_area (from_cc_and_tlvs test_build test_cc control_blocks) 195 ≡ true) ↔ (
      Describes control_blocks 195
      ⊎ (All (λ t. ¬ IsLockControl t) control_blocks
          × IsDefaultLockByte (test_cc.size_field * 8) 195))
is_skip_area_iff_example =
    is_skip_area_iff test_build test_cc control_blocks 195 (omega arith) control_blocks-IsInSpace
      two_fit
