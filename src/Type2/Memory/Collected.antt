-- ===== src/Type2/Memory/Collected.antt =====
-- The areas that a layout takes from the blocks (src/type2/memory.rs, `from_cc_and_tlvs`).
use nfc_forum_tags.Prelude.{
  ℕ, suc, ◌+◌, ◌≤◌, ◌≡◌, ◌∙◌, true, List, [], ◌∷◌, ◌++◌, length, arith, length-append, append_assoc,
  append-nil,
}
use nfc_forum_tags.Vec.{Build, fits, fits-le, try_push_lem}
use nfc_forum_tags.Type2.Tlv.{
  Tlv, null, lock_control, memory_control, ndef_message, proprietary, terminator,
}
use nfc_forum_tags.Type2.Memory.LockAreas.{LockArea, from_lock_control}
use nfc_forum_tags.Type2.Memory.ReservedAreas.{ReservedArea, from_memory_control}
use nfc_forum_tags.Type2.Memory.{push_area, collect_areas, area_capacity}

-- The areas that the control blocks describe, in their order.
abbrev pub lock_areas_of : List Tlv → List LockArea
lock_areas_of [] = []
lock_areas_of (lock_control v ∷ ts) = from_lock_control v ∷ lock_areas_of ts
lock_areas_of (memory_control v ∷ ts) = lock_areas_of ts
lock_areas_of (null ∷ ts) = lock_areas_of ts
lock_areas_of (ndef_message v ∷ ts) = lock_areas_of ts
lock_areas_of (proprietary v ∷ ts) = lock_areas_of ts
lock_areas_of (terminator ∷ ts) = lock_areas_of ts

abbrev pub reserved_areas_of : List Tlv → List ReservedArea
reserved_areas_of [] = []
reserved_areas_of (memory_control v ∷ ts) = from_memory_control v ∷ reserved_areas_of ts
reserved_areas_of (lock_control v ∷ ts) = reserved_areas_of ts
reserved_areas_of (null ∷ ts) = reserved_areas_of ts
reserved_areas_of (ndef_message v ∷ ts) = reserved_areas_of ts
reserved_areas_of (proprietary v ∷ ts) = reserved_areas_of ts
reserved_areas_of (terminator ∷ ts) = reserved_areas_of ts

pub push_area_room :
    {A : Type 0} (b : Build) (v : List A) (x : A)
    → fits b area_capacity (length v + 1) ≡ true
    → push_area b v x ≡ v ++ x ∷ []
unfolding push_area
push_area_room b v x f = ground (arith, try_push_lem b area_capacity v x)

pub less :
    (b : Build) (m n : ℕ) → m ≤ n → fits b area_capacity n ≡ true → fits b area_capacity m ≡ true
less b m n l f = fits-le b area_capacity m n l f

-- With room for all blocks no area is dropped.
pub collect_areas_lem :
    (b : Build) (ts : List Tlv) (locks : List LockArea) (reserved : List ReservedArea)
    → fits b area_capacity (length locks + length ts) ≡ true
    → fits b area_capacity (length reserved + length ts) ≡ true
    → collect_areas b ts (locks, reserved)
      ≡ (locks ++ lock_areas_of ts, reserved ++ reserved_areas_of ts)
unfolding collect_areas
collect_areas_lem b [] locks reserved f g = simp append-nil
collect_areas_lem b (lock_control v ∷ ts) locks reserved f g =
    let area = from_lock_control v in
    rw
      (push_area_room b locks area
        (less b (length locks + 1) (length locks + suc (length ts)) (omega arith) f))
      (collect_areas_lem b ts (locks ++ area ∷ []) reserved
          (less b (length (locks ++ area ∷ []) + length ts) (length locks + suc (length ts))
            (omega (arith, length-append locks (area ∷ []))) f)
          (less b (length reserved + length ts) (length reserved + suc (length ts)) (omega arith) g)
        ∙ rw (append_assoc locks (area ∷ []) (lock_areas_of ts)))
collect_areas_lem b (memory_control v ∷ ts) locks reserved f g =
    let area = from_memory_control v in
    rw
      (push_area_room b reserved area
        (less b (length reserved + 1) (length reserved + suc (length ts)) (omega arith) g))
      (collect_areas_lem b ts locks (reserved ++ area ∷ [])
          (less b (length locks + length ts) (length locks + suc (length ts)) (omega arith) f)
          (less b (length (reserved ++ area ∷ []) + length ts) (length reserved + suc (length ts))
            (omega (arith, length-append reserved (area ∷ []))) g)
        ∙ rw (append_assoc reserved (area ∷ []) (reserved_areas_of ts)))
collect_areas_lem b (null ∷ ts) locks reserved f g =
    collect_areas_lem b ts locks reserved
      (less b (length locks + length ts) (length locks + suc (length ts)) (omega arith) f)
      (less b (length reserved + length ts) (length reserved + suc (length ts)) (omega arith) g)
collect_areas_lem b (ndef_message v ∷ ts) locks reserved f g =
    collect_areas_lem b ts locks reserved
      (less b (length locks + length ts) (length locks + suc (length ts)) (omega arith) f)
      (less b (length reserved + length ts) (length reserved + suc (length ts)) (omega arith) g)
collect_areas_lem b (proprietary v ∷ ts) locks reserved f g =
    collect_areas_lem b ts locks reserved
      (less b (length locks + length ts) (length locks + suc (length ts)) (omega arith) f)
      (less b (length reserved + length ts) (length reserved + suc (length ts)) (omega arith) g)
collect_areas_lem b (terminator ∷ ts) locks reserved f g =
    collect_areas_lem b ts locks reserved
      (less b (length locks + length ts) (length locks + suc (length ts)) (omega arith) f)
      (less b (length reserved + length ts) (length reserved + suc (length ts)) (omega arith) g)
