-- ===== src/Type2/Control/Address.antt =====
-- The address of an area, and its check against the address space (src/type2/tlv.rs).
use nfc_forum_tags.Prelude.{
  ℕ, ◌+◌, ◌*◌, ◌%◌, ◌^◌, ◌≤◌, ◌<◌, ◌≡◌, refl, true, arith, ltb, leb, leb→le, ◌&&◌, if◌then◌else◌,
}
use nfc_forum_tags.Prelude.Bits.{holds_below, holds_below-elim}
use nfc_forum_tags.Outcome.{ok, err}
use nfc_forum_tags.Type2.Error.{invalid_tlv}
use nfc_forum_tags.Type2.Geometry.{address_space_end}
use nfc_forum_tags.Type2.Control.Defs.{area_address, check_area_in_address_space}

page_size_table : holds_below (λ n. leb (2 ^ n) 32768) 16 ≡ true
unfolding holds_below
page_size_table = refl

page_size-le : (n : ℕ) → n < 16 → 2 ^ n ≤ 32768
page_size-le n h = leb→le _ _ (holds_below-elim (λ n. leb (2 ^ n) 32768) 16 n h page_size_table)

-- For nibbles nothing wraps around: the address is the page's start and the offset.
pub area_address_lem :
    (page offset n : ℕ)
    → page < 16
    → offset < 16
    → n < 16
    → area_address page offset n ≡ page * 2 ^ n + offset
unfolding area_address
area_address_lem page offset n hp ho hn =
    let e : n % 32 ≡ n = omega arith in
    let h : page * 2 ^ n ≤ 15 * 32768 = mul_bound page (2 ^ n) (omega arith) (page_size-le n hn) in
    rw e (omega arith)
  where
    mul_bound : (a b : ℕ) → a ≤ 15 → b ≤ 32768 → a * b ≤ 15 * 32768
    mul_bound a b ha hb = grind arith

-- The check passes exactly for a start and an end in the address space.
pub check_area_lem :
    (start size : ℕ)
    → check_area_in_address_space start size ≡ (
        if ltb start address_space_end && leb (start + size) address_space_end
        then ok tt
        else err invalid_tlv)
unfolding check_area_in_address_space
check_area_lem start size = ground arith
