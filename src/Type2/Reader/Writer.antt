-- ===== src/Type2/Reader/Writer.antt =====
-- Writing over the usable bytes of the tag (src/type2/reader.rs, `write_usable_bytes`).
use nfc_forum_tags.Prelude.{
  ℕ, zero, suc, ◌+◌, ◌-◌, ◌/◌, List, [], ◌∷◌, length, Bool, true, false, not, ◌&&◌, ltb, leb, ◌==◌,
  if◌then◌else◌, drop,
}
use nfc_forum_tags.Outcome.{Outcome, ok, err, index, stuck}
use nfc_forum_tags.Outcome
use nfc_forum_tags.Vec.{Build}
use nfc_forum_tags.Type2.Error.{Type2Error, out_of_range}
use nfc_forum_tags.Type2.Geometry.{block_size, address_space_end, address_to_sector_block}
use nfc_forum_tags.Type2.Cc.{Bytes4}
use nfc_forum_tags.Type2.Memory.{MemoryLayout, is_skip_area}
use nfc_forum_tags.Type2.Reader.State.{
  Transceiver, is_known, Action, pure, lift, or_raise, ◌>>=◌, ◌>>◌, raise_if,
}
use nfc_forum_tags.Type2.Reader.Link.{sector_select, read, write}

-- `[xs[0], xs[1], xs[2], xs[3]]`
abbrev pub first_four : List ℕ → Outcome Type2Error Bytes4
first_four xs = Outcome.◌>>=◌ (index xs 0) λ x0.
    Outcome.◌>>=◌ (index xs 1)
      λ x1. Outcome.◌>>=◌ (index xs 2) λ x2. Outcome.◌>>=◌ (index xs 3) λ x3. ok (x0, x1, x2, x3)

-- The loop variables of the slow path: what is left of the data, and whether a byte was placed.
abbrev pub Placing : Type 0
Placing = List ℕ × Bool

module _ (layout : MemoryLayout) (limit_addr page_base offset : ℕ) where
  -- The round for the `i`-th byte of the page: the byte that the page then holds. A round before
  -- `offset`, or with no data left, changes nothing.
  unfoldable pub place : ℕ → ℕ → Placing → Outcome Type2Error (ℕ × Placing)
  place i slot ([], touched) = ok (slot, ([], touched))
  place i slot (d ∷ ds, touched) =
      if ltb i offset
      then ok (slot, (d ∷ ds, touched))
      else if leb limit_addr (page_base + i)
      then err out_of_range
      else if is_skip_area layout (page_base + i)
      then ok (slot, (d ∷ ds, touched))
      else ok (d, (ds, true))

  unfoldable pub fill_page : Bytes4 → List ℕ → Outcome Type2Error (Bytes4 × Placing)
  unfolding place
  fill_page (p0, p1, p2, p3) rest = Outcome.◌>>=◌ (place 0 p0 (rest, false)) λ r0.
      Outcome.◌>>=◌ (place 1 p1 r0.1) λ r1.
        Outcome.◌>>=◌ (place 2 p2 r1.1)
          λ r2. Outcome.◌>>=◌ (place 3 p3 r2.1) λ r3. ok ((r0.0, r1.0, r2.0, r3.0), r3.1)

-- `(0..BLOCK_SIZE).all(..)`
unfoldable pub page_all_usable : MemoryLayout → ℕ → Bool
page_all_usable layout page_base =
    not (is_skip_area layout page_base)
    && not (is_skip_area layout (page_base + 1))
    && not (is_skip_area layout (page_base + 2))
    && not (is_skip_area layout (page_base + 3))

module _ (t : Transceiver) (b : Build) (layout : MemoryLayout) (limit_addr : ℕ) where
  open t use {Device, Error}

  unfoldable pub select_if_needed : ℕ → Action Device Error (Unit {0})
  select_if_needed sector r =
      if not (is_known r.sector sector) then sector_select t b sector r else pure tt r

  unfoldable pub write_fast : ℕ → ℕ → List ℕ → Action Device Error (List ℕ)
  write_fast block page_base rest = do
    raise_if (ltb limit_addr (page_base + block_size)) out_of_range
    page ← lift (first_four rest)
    write t b block page
    pure (drop block_size rest)

  unfoldable pub write_if : Bool → ℕ → Bytes4 → Action Device Error (Unit {0})
  write_if touched block page = if touched then write t b block page else pure tt

  unfoldable pub write_slow : ℕ → ℕ → ℕ → List ℕ → Action Device Error (List ℕ)
  unfolding write_if
  write_slow block page_base offset rest = do
    cur ← read t b block
    page ← lift (first_four cur)
    (page', (rest', touched)) ← lift (fill_page layout limit_addr page_base offset page rest)
    write_if touched block page'
    pure rest'

  -- One round of the loop at `addr`; the answer is the data that is left, `data[di..]`, and the next address.
  unfoldable pub write_page : ℕ → List ℕ → Action Device Error (List ℕ × ℕ)
  unfolding select_if_needed write_fast write_slow
  write_page addr rest = do
    raise_if (leb limit_addr addr) out_of_range
    (sector, block, offset) ← or_raise (address_to_sector_block addr) out_of_range
    select_if_needed sector
    let page_base = addr - offset
    rest' ←
        (if offset == 0 && leb block_size (length rest) && page_all_usable layout page_base
          then write_fast block page_base rest
          else write_slow block page_base offset rest)
    pure (rest', page_base + block_size)

  -- The loop, with fuel for the blocks of the address space.
  unfoldable pub write_loop : ℕ → ℕ → List ℕ → Action Device Error (Unit {0})
  unfolding write_page
  write_loop fuel addr [] r = pure tt r
  write_loop zero addr (d ∷ ds) r = (stuck, r)
  write_loop (suc fuel) addr (d ∷ ds) r =
      (do (rest, next) ← write_page addr (d ∷ ds); write_loop fuel next rest) r

  unfoldable pub write_usable_bytes : ℕ → List ℕ → Action Device Error (Unit {0})
  unfolding write_loop
  write_usable_bytes start_addr bytes =
      write_loop (address_space_end / block_size + 1) start_addr bytes
