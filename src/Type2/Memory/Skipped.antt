-- ===== src/Type2/Memory/Skipped.antt =====
-- Which bytes a layout built from the blocks skips (src/type2/memory.rs, `from_cc_and_tlvs`).
use nfc_forum_tags.Prelude.{
  ltb, ◌*◌, ◌<◌, ◌⊎◌, ◌↔◌, inl, inr, All, ℕ, ◌+◌, ◌≡◌, refl, Bool, true, false, ◌&&◌, ◌||◌, List,
  [], ◌∷◌, length, arith, if◌then◌else◌,
}
use nfc_forum_tags.Vec.{Build, default, alloc, fits}
use nfc_forum_tags.Type2.Cc.{CapabilityContainer, is_dynamic}
use nfc_forum_tags.Type2.Cc
use nfc_forum_tags.Type2.Tlv.{
  Tlv, null, lock_control, memory_control, ndef_message, proprietary, terminator,
}
use nfc_forum_tags.Type2.Memory.LockAreas.{LockArea, from_lock_control}
use nfc_forum_tags.Type2.Memory.LockAreas
use nfc_forum_tags.Type2.Memory.ReservedAreas.{ReservedArea, from_memory_control}
use nfc_forum_tags.Type2.Memory.ReservedAreas
use nfc_forum_tags.Type2.Memory.Described.{
  Describes, IsLockControl, IsDefaultLockByte, IsInSpace, lock-contains_iff, memory-contains_iff,
  default-contains_iff,
}
use nfc_forum_tags.Type2.Memory.{
  push_area, from_cc_and_tlvs, is_skip_area, any, area_capacity, default_dynamic_lock_area,
  is_empty,
}
use nfc_forum_tags.Type2.Memory.Collected.{
  lock_areas_of, reserved_areas_of, push_area_room, less, collect_areas_lem,
}

fits-one : (b : Build) → fits b area_capacity (0 + 1) ≡ true
unfolding fits
fits-one (default h) = refl
fits-one alloc = refl

any_with_default :
    {A : Type 0} (b : Build) (p : A → Bool) (dynamic : Bool) (locks : List A) (area : A)
    → any p (if dynamic && is_empty locks then push_area b locks area else locks)
      ≡ (any p locks || (dynamic && is_empty locks && p area))
any_with_default b p true [] area = rw (push_area_room b [] area (fits-one b)) (ground arith)
any_with_default b p false [] area = refl
any_with_default b p true (x ∷ xs) area = ground arith
any_with_default b p false (x ∷ xs) area = ground arith

or_iff :
    (x y z : Bool) (P Q : Type 0)
    → (x ≡ true) ↔ P
    → ((y || z) ≡ true) ↔ Q
    → (((x || y) || z) ≡ true) ↔ (P ⊎ Q)
or_iff true y z P Q p q = (λ e. inl (p.0 refl), λ e. refl)
or_iff false y z P Q p q =
    (λ e. inr (q.0 e), λ e. elim e [ inl u ↦ absurd (cc (p.1 u)) | inr v ↦ q.1 v ])

or_iff_middle :
    (x y z : Bool) (P Q : Type 0)
    → (x ≡ true) ↔ P
    → ((y || z) ≡ true) ↔ Q
    → ((y || (x || z)) ≡ true) ↔ (P ⊎ Q)
or_iff_middle x true z P Q p q = (λ e. inr (q.0 refl), λ e. refl)
or_iff_middle true false z P Q p q = (λ e. inl (p.0 refl), λ e. refl)
or_iff_middle false false z P Q p q =
    (λ e. inr (q.0 e), λ e. elim e [ inl u ↦ absurd (cc (p.1 u)) | inr v ↦ q.1 v ])

three_iff :
    (x y z : Bool) (P Q : Type 0)
    → ((x || z) ≡ true) ↔ P
    → (y ≡ true) ↔ Q
    → (((x || y) || z) ≡ true) ↔ (P ⊎ Q)
three_iff true y z P Q p q = (λ e. inl (p.0 refl), λ e. refl)
three_iff false true z P Q p q = (λ e. inr (q.0 refl), λ e. refl)
three_iff false false z P Q p q =
    (λ e. inl (p.0 e), λ e. elim e [ inl u ↦ p.1 u | inr v ↦ absurd (cc (q.1 v)) ])

and_iff :
    (d e x : Bool) (P Q : Type 0)
    → (e ≡ true) ↔ P
    → (x ≡ true) ↔ Q
    → (Q → d ≡ true)
    → ((d && e && x) ≡ true) ↔ (P × Q)
and_iff true true x P Q p q h = (λ u. (p.0 refl, q.0 u), λ u. q.1 u.1)
and_iff true false x P Q p q h = (λ u. absurd (cc), λ u. absurd (cc (p.1 u.0)))
and_iff false e x P Q p q h = (λ u. absurd (cc), λ u. absurd (cc (h u.1)))

-- The skipped bytes, by the areas of the control blocks and the default lock area.
in_areas : CapabilityContainer → List Tlv → ℕ → Bool
in_areas cc ts addr =
    any (λ a. LockAreas.contains a addr) (lock_areas_of ts)
    || (is_dynamic cc
        && is_empty (lock_areas_of ts)
        && LockAreas.contains (default_dynamic_lock_area (Cc.data_area_size cc)) addr)
    || any (λ a. ReservedAreas.contains a addr) (reserved_areas_of ts)

is_skip_area-in_areas :
    (b : Build) (cc : CapabilityContainer) (ts : List Tlv) (addr : ℕ)
    → fits b area_capacity (length ts) ≡ true
    → is_skip_area (from_cc_and_tlvs b cc ts) addr ≡ in_areas cc ts addr
unfolding is_skip_area from_cc_and_tlvs in_areas
is_skip_area-in_areas b cc ts addr f =
    let f' : fits b area_capacity (0 + length ts) ≡ true =
      less b (0 + length ts) (length ts) (omega arith) f in
    rw (collect_areas_lem b ts [] [] f' f') (
      ground (
        arith,
        any_with_default b (λ a. LockAreas.contains a addr) (is_dynamic cc) (lock_areas_of ts)
            (default_dynamic_lock_area (Cc.data_area_size cc)),
      ))

-- The areas of the blocks hold the bytes that the blocks describe.
areas_iff :
    (ts : List Tlv) (addr : ℕ)
    → All IsInSpace ts
    → ((any (λ a. LockAreas.contains a addr) (lock_areas_of ts)
          || any (λ a. ReservedAreas.contains a addr) (reserved_areas_of ts))
        ≡ true)
      ↔ Describes ts addr
areas_iff [] addr h = (λ e. absurd (cc), λ e. absurd e)
areas_iff (lock_control v ∷ ts) addr h =
    or_iff _ _ _ _ _ (lock-contains_iff v addr h.0) (areas_iff ts addr h.1)
areas_iff (memory_control v ∷ ts) addr h =
    or_iff_middle _ _ _ _ _ (memory-contains_iff v addr h.0) (areas_iff ts addr h.1)
areas_iff (null ∷ ts) addr h = areas_iff ts addr h.1
areas_iff (ndef_message v ∷ ts) addr h = areas_iff ts addr h.1
areas_iff (proprietary v ∷ ts) addr h = areas_iff ts addr h.1
areas_iff (terminator ∷ ts) addr h = areas_iff ts addr h.1

empty_iff : (ts : List Tlv) → (is_empty (lock_areas_of ts) ≡ true) ↔ All (λ t. ¬ IsLockControl t) ts
empty_iff [] = (λ e. tt, λ e. refl)
empty_iff (lock_control v ∷ ts) = (λ e. absurd (cc), λ e. absurd (e.0 tt))
empty_iff (memory_control v ∷ ts) = (λ e. (λ x. x, (empty_iff ts).0 e), λ e. (empty_iff ts).1 e.1)
empty_iff (null ∷ ts) = (λ e. (λ x. x, (empty_iff ts).0 e), λ e. (empty_iff ts).1 e.1)
empty_iff (ndef_message v ∷ ts) = (λ e. (λ x. x, (empty_iff ts).0 e), λ e. (empty_iff ts).1 e.1)
empty_iff (proprietary v ∷ ts) = (λ e. (λ x. x, (empty_iff ts).0 e), λ e. (empty_iff ts).1 e.1)
empty_iff (terminator ∷ ts) = (λ e. (λ x. x, (empty_iff ts).0 e), λ e. (empty_iff ts).1 e.1)

default_iff :
    (container : CapabilityContainer) (ts : List Tlv) (addr : ℕ)
    → container.size_field < 256
    → ((is_dynamic container
          && is_empty (lock_areas_of ts)
          && LockAreas.contains (default_dynamic_lock_area (Cc.data_area_size container)) addr)
        ≡ true)
      ↔ (All (λ t. ¬ IsLockControl t) ts × IsDefaultLockByte (container.size_field * 8) addr)
unfolding is_dynamic Cc.data_area_size
default_iff container ts addr narrow =
    and_iff (ltb 0x06 container.size_field) _ _ _ _ (empty_iff ts)
      (default-contains_iff (container.size_field * 8) addr (omega arith)) (λ q. ground arith)

-- For a size field of one byte, control values in the address space, and a build with room for as
-- many areas as there are blocks: the layout built from a container and blocks skips exactly the
-- bytes that hold a lock bit of a Lock Control block, the bytes of the region of a Memory Control
-- block and, without a Lock Control block, the bytes behind the data area that hold a lock bit
-- for 8 bytes above the static memory's 48.
pub is_skip_area_iff :
    (b : Build) (cc : CapabilityContainer) (ts : List Tlv) (addr : ℕ)
    → cc.size_field < 256
    → All IsInSpace ts
    → fits b area_capacity (length ts) ≡ true
    → (is_skip_area (from_cc_and_tlvs b cc ts) addr ≡ true) ↔ (
        Describes ts addr
        ⊎ (All (λ t. ¬ IsLockControl t) ts × IsDefaultLockByte (cc.size_field * 8) addr))
unfolding in_areas
is_skip_area_iff b container ts addr narrow h f = rw (is_skip_area-in_areas b container ts addr f) (
    three_iff (any (λ a. LockAreas.contains a addr) (lock_areas_of ts)) _
      (any (λ a. ReservedAreas.contains a addr) (reserved_areas_of ts)) _ _ (areas_iff ts addr h)
      (default_iff container ts addr narrow))
