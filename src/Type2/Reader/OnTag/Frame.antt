-- ===== src/Type2/Reader/OnTag/Frame.antt =====
-- The addresses that writing over the usable bytes may touch (src/type2/reader.rs,
-- `write_usable_bytes`).
use nfc_forum_tags.Prelude.{
  ℕ, ◌+◌, ◌*◌, ◌%◌, ◌≤◌, ◌<◌, ◌≡◌, ◌⊎◌, inl, inr, ◌∙◌, refl, ap, arith, Bool, true, false, List,
  ◌==◌, if◌then◌else◌,
}
use mathlib.Core.Path.{fun_ext, subst}
use nfc_forum_tags.Outcome.{Ensures}
use nfc_forum_tags.Type2.Cc.{Bytes4}
use nfc_forum_tags.Type2.Memory.{MemoryLayout, is_skip_area}
use nfc_forum_tags.Type2.Reader.Writer.{first_four, Placing, page_all_usable}
use nfc_forum_tags.Type2.Reader.Filled.{IsFilled, MayChange}
use nfc_forum_tags.Type2.TagMemory.{Memory, sector_bytes, four_blocks, store}

-- The four bytes at an address.
abbrev pub page_at : Memory → ℕ → Bytes4
page_at mem a = (mem (a + 0), mem (a + 1), mem (a + 2), mem (a + 3))

-- The bytes that a READ answers first are those of the block.
pub first_four-four_blocks :
    (mem : Memory) (s block : ℕ)
    → block < 256
    → Ensures
        (λ page. page ≡ page_at mem (s * 1024 + block * 4))
        (first_four (four_blocks mem s block))
unfolding sector_bytes
first_four-four_blocks mem s block h =
    let e0 : s * 1024 + block * 4 % 1024 ≡ s * 1024 + block * 4 + 0 = omega arith in
    let e1 : s * 1024 + (block * 4 + 1) % 1024 ≡ s * 1024 + block * 4 + 1 = omega arith in
    let e2 : s * 1024 + (block * 4 + 1 + 1) % 1024 ≡ s * 1024 + block * 4 + 2 = omega arith in
    let e3 : s * 1024 + (block * 4 + 1 + 1 + 1) % 1024 ≡ s * 1024 + block * 4 + 3 = omega arith in
    λ i. (mem (e0 i), mem (e1 i), mem (e2 i), mem (e3 i))

-- Storing the page that is there changes nothing.
pub store_same :
    (mem : Memory) (a : ℕ) → ((i : ℕ) → mem i < 256) → store a (page_at mem a) mem ≡ mem
unfolding store
store_same mem a h = fun_ext λ i.
    let first : a + 0 ≡ a = omega arith in
    rw first (ground (arith, h a, h (a + 1), h (a + 2), h (a + 3)))

module _ (layout : MemoryLayout) (start_addr limit_addr : ℕ) where
  -- A usable address from the start on and below the limit.
  abbrev pub MayWrite : ℕ → Type 0
  MayWrite a = (start_addr ≤ a) × (a < limit_addr) × (is_skip_area layout a ≡ false)

  -- An address that is not to be written.
  abbrev pub IsOutside : ℕ → Type 0
  IsOutside a = (a < start_addr) ⊎ ((limit_addr ≤ a) ⊎ (is_skip_area layout a ≡ true))

  -- The memory is as it was, at every such address.
  abbrev pub IsFrame : Memory → Memory → Type 0
  IsFrame mem m = (a : ℕ) → IsOutside a → m a ≡ mem a

  outside_not : (a : ℕ) → IsOutside a → MayWrite a → ⊥
  outside_not a (inl l) w = omega (arith, l, w.0)
  outside_not a (inr (inl l)) w = omega (arith, l, w.1)
  outside_not a (inr (inr u)) w = cc (u, w.2)

  -- A byte of a page, as it was or written where that is allowed.
  abbrev pub IsKeptAt : Memory → ℕ → ℕ → Type 0
  IsKeptAt m a x = (x % 256 ≡ m a) ⊎ MayWrite a

  kept_at : (m : Memory) (a x : ℕ) → IsOutside a → IsKeptAt m a x → x % 256 ≡ m a
  kept_at m a x o (inl e) = e
  kept_at m a x o (inr w) = absurd (outside_not a o w)

  -- One of the tests of `store`, at an address that is not to be written.
  kept_or :
      (m : Memory) (i x a : ℕ) {y : ℕ}
      → IsOutside a
      → IsKeptAt m i x
      → y ≡ m a
      → (if a == i then x % 256 else y) ≡ m a
  kept_or m i x a {y} o k e = either (a == i) refl
    where
      either : (c : Bool) → (a == i) ≡ c → (if c then x % 256 else y) ≡ m a
      either true c =
          let here : i ≡ a = ground arith in kept_at m a x o (subst (λ i. IsKeptAt m i x) here k)
      either false c = e

  pub store-IsFrame :
      (mem m : Memory) (base x0 x1 x2 x3 : ℕ)
      → IsFrame mem m
      → IsKeptAt m base x0
      → IsKeptAt m (base + 1) x1
      → IsKeptAt m (base + 2) x2
      → IsKeptAt m (base + 3) x3
      → IsFrame mem (store base (x0, x1, x2, x3) m)
  unfolding store
  store-IsFrame mem m base x0 x1 x2 x3 f k0 k1 k2 k3 a o =
      kept_or m base x0 a o k0 (
        kept_or m (base + 1) x1 a o k1
          (kept_or m (base + 2) x2 a o k2 (kept_or m (base + 3) x3 a o k3 refl)))
      ∙ f a o

  -- What the read-modify-write of a page may change is what may be written.
  pub fill_page-IsFrame :
      (mem m : Memory) (base offset : ℕ) (page : Bytes4) (rest : List ℕ) (page' : Bytes4)
      (p' : Placing)
      → ((a : ℕ) → m a < 256)
      → start_addr ≤ base + offset
      → page ≡ page_at m base
      → IsFrame mem m
      → IsFilled layout limit_addr base offset page (rest, false) page' p'
      → IsFrame mem (store base page' m)
  fill_page-IsFrame mem m base offset page rest (q0, q1, q2, q3) p' small l e f h =
      let first : base + 0 ≡ base = omega arith in
      store-IsFrame mem m base q0 q1 q2 q3 f
        (subst (λ a. IsKeptAt m a q0) first (kept 0 q0 page.0 (ap (λ (p : Bytes4). p.0) e) h.0))
        (kept 1 q1 page.1 (ap (λ (p : Bytes4). p.1) e) h.1)
        (kept 2 q2 page.2 (ap (λ (p : Bytes4). p.2) e) h.2)
        (kept 3 q3 page.3 (ap (λ (p : Bytes4). p.3) e) h.3)
    where
      kept :
          (i q p : ℕ)
          → p ≡ m (base + i)
          → (q ≡ p) ⊎ MayChange layout limit_addr base offset i
          → IsKeptAt m (base + i) q
      kept i q p g (inl same) = inl (omega (arith, small (base + i), same, g))
      kept i q p g (inr may) = inr (omega (arith, may.0), may.1, may.2)

  -- A page of usable addresses in the range may be written.
  pub usable-IsFrame :
      (mem m : Memory) (base : ℕ) (page : Bytes4)
      → start_addr ≤ base
      → base + 4 ≤ limit_addr
      → page_all_usable layout base ≡ true
      → IsFrame mem m
      → IsFrame mem (store base page m)
  unfolding page_all_usable
  usable-IsFrame mem m base (x0, x1, x2, x3) l h u f =
      store-IsFrame mem m base x0 x1 x2 x3 f (inr (l, omega arith, ground (arith, u)))
        (inr (omega arith, omega arith, ground (arith, u)))
        (inr (omega arith, omega arith, ground (arith, u)))
        (inr (omega arith, omega arith, ground (arith, u)))
