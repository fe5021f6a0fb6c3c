-- ===== src/Type2/Memory/Usable.antt =====
-- The usable bytes of a layout, counted (src/type2/memory.rs, `usable_offset_to_address`).
use nfc_forum_tags.Prelude.{
  ℕ, zero, suc, ◌+◌, ◌-◌, ◌≤◌, ◌<◌, ◌≡◌, ◌↔◌, refl, ap, ◌∙◌, false, some, arith, if◌then◌else◌,
}
use native.Mathlib.Decide.{dec_le}
use nfc_forum_tags.Type2.Geometry.{address_space_end}
use nfc_forum_tags.Type2.Memory.{MemoryLayout, is_skip_area, usable_loop, usable_offset_to_address}

module _ (layout : MemoryLayout) where
  -- How many of the `k` addresses from `lo` on are usable.
  unfoldable pub usable_count : ℕ → ℕ → ℕ
  usable_count lo zero = 0
  usable_count lo (suc k) = (if is_skip_area layout lo then 0 else 1) + usable_count (lo + 1) k

  count_step :
      (lo a : ℕ)
      → lo < a
      → usable_count lo (a - lo)
        ≡ (if is_skip_area layout lo then 0 else 1) + usable_count (lo + 1) (a - (lo + 1))
  unfolding usable_count
  count_step lo a h = let e : a - lo ≡ suc (a - (lo + 1)) = omega arith in rw e

  count_suc :
      (lo k : ℕ)
      → usable_count lo (suc k)
        ≡ (if is_skip_area layout lo then 0 else 1) + usable_count (lo + 1) k
  unfolding usable_count
  count_suc lo k = refl

  count_self : (lo : ℕ) → usable_count lo (lo - lo) ≡ 0
  unfolding usable_count
  count_self lo = let e : lo - lo ≡ 0 = omega arith in rw e

  usable_loop_sound :
      (fuel addr n a : ℕ)
      → usable_loop fuel layout addr n ≡ some a
      → (addr ≤ a)
        × (a < address_space_end)
        × (is_skip_area layout a ≡ false)
        × (usable_count addr (a - addr) ≡ n)
  unfolding usable_loop
  usable_loop_sound zero addr n a e = cc
  usable_loop_sound (suc fuel) addr n a e = ground (
    arith,
    count_step addr a,
    count_self addr,
    usable_loop_sound fuel (addr + 1) n a,
    usable_loop_sound fuel (addr + 1) (n - 1) a,
  )

  usable_loop_complete :
      (fuel addr k : ℕ)
      → addr + k < address_space_end
      → k < fuel
      → is_skip_area layout (addr + k) ≡ false
      → usable_loop fuel layout addr (usable_count addr k) ≡ some (addr + k)
  unfolding usable_loop
  usable_loop_complete zero addr k h f u = absurd (omega arith)
  usable_loop_complete (suc fuel) addr zero h f u = unfold usable_count in ground arith
  usable_loop_complete (suc fuel) addr (suc k) h f u =
      ground (arith, count_suc addr k, usable_loop_complete fuel (addr + 1) k)

  -- The address of the `n`-th usable byte: a usable address, in the address space and not before
  -- the data area, with `n` usable bytes between the data area's start and it.
  abbrev pub IsUsableAt : ℕ → ℕ → Type 0
  IsUsableAt n a =
      (16 ≤ a)
      × (a < address_space_end)
      × (is_skip_area layout a ≡ false)
      × (usable_count 16 (a - 16) ≡ n)

  usable_offset_sound : (n a : ℕ) → usable_offset_to_address layout n ≡ some a → IsUsableAt n a
  unfolding usable_offset_to_address
  usable_offset_sound n a e = usable_loop_sound address_space_end 16 n a e

  usable_offset_complete : (n a : ℕ) → IsUsableAt n a → usable_offset_to_address layout n ≡ some a
  unfolding usable_offset_to_address
  usable_offset_complete n a (l, h, u, c) =
      let e : 16 + (a - 16) ≡ a = omega arith in
      rw (← c) (
        rw e at
          (usable_loop_complete address_space_end 16 (a - 16) (omega arith) (omega arith) (rw e u)))

  -- `usable_offset_to_address` answers `a` to `n` exactly when `a` is a usable address of the
  -- address space, not before the data area, with `n` usable bytes between the data area's start
  -- and it.
  pub usable_offset_iff : (n a : ℕ) → (usable_offset_to_address layout n ≡ some a) ↔ IsUsableAt n a
  usable_offset_iff n a = (usable_offset_sound n a, usable_offset_complete n a)

  -- Counting in two parts.
  usable_count-add :
      (lo j k : ℕ) → usable_count lo (j + k) ≡ usable_count lo j + usable_count (lo + j) k
  unfolding usable_count
  usable_count-add lo zero k =
      let none_yet : 0 + k ≡ k = omega arith in
      let here : lo + 0 ≡ lo = omega arith in rw (none_yet, here) (omega arith)
  usable_count-add lo (suc j) k =
      let more : suc j + k ≡ suc (j + k) = omega arith in
      let further : lo + suc j ≡ lo + 1 + j = omega arith in
      rw (more, further) (omega (arith, usable_count-add (lo + 1) j k))

  -- Counting up to `a` and then from `a` on.
  pub count_at :
      (lo a b : ℕ)
      → lo ≤ a
      → a ≤ b
      → usable_count lo (b - lo) ≡ usable_count lo (a - lo) + usable_count a (b - a)
  count_at lo a b l h =
      let whole : b - lo ≡ a - lo + (b - a) = omega arith in
      let middle : lo + (a - lo) ≡ a = omega arith in
      rw whole (rw middle at (usable_count-add lo (a - lo) (b - a)))

  count_zero : (lo : ℕ) → usable_count lo 0 ≡ 0
  unfolding usable_count
  count_zero lo = refl

  pub count_usable :
      (a k : ℕ)
      → is_skip_area layout a ≡ false
      → usable_count a (suc k) ≡ 1 + usable_count (a + 1) k
  count_usable a k u = rw u at (count_suc a k)

  -- Between the `m`-th usable byte and the `n`-th, both included, there are `n - m + 1` usable bytes.
  pub usable_count-between :
      (m n lo hi : ℕ)
      → m ≤ n
      → IsUsableAt m lo
      → IsUsableAt n hi
      → (lo ≤ hi) × (usable_count lo (hi + 1 - lo) ≡ n - m + 1)
  usable_count-between m n lo hi l (al, bl, ul, cl) (ah, bh, uh, ch) = elim (dec_le lo hi) [
    | yes le ↦ (le, ordered le)
    | no gt ↦ absurd (omega (arith, reversed (omega (arith, gt))))
  ]
    where
      ordered : lo ≤ hi → usable_count lo (hi + 1 - lo) ≡ n - m + 1
      ordered le =
          let one : hi + 1 - hi ≡ 1 = omega arith in
          let last : usable_count hi (hi + 1 - hi) ≡ 1 =
            rw one (omega (arith, count_usable hi 0 uh, count_zero (hi + 1))) in
          omega
            (arith, count_at 16 lo hi al le, count_at lo hi (hi + 1) le (omega arith), last, cl, ch)

      reversed : hi < lo → n < m
      reversed lt =
          let some_left : lo - hi ≡ suc (lo - hi - 1) = omega arith in
          let first : usable_count hi (lo - hi) ≡ 1 + usable_count (hi + 1) (lo - hi - 1) =
            ap (usable_count hi) some_left ∙ count_usable hi (lo - hi - 1) uh in
          omega (arith, count_at 16 hi lo ah (omega arith), first, cl, ch)
