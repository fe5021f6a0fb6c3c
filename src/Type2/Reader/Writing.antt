-- ===== src/Type2/Reader/Writing.antt =====
-- The loop over the pages (src/type2/reader.rs, `write_usable_bytes`).
use nfc_forum_tags.Type2.Reader.Exchange.{AnswersBytes}
use nfc_forum_tags.Type2.Reader.Selection.{is_known-true, sector_select-Triple}
use nfc_forum_tags.Type2.Reader.Pages.{read-Triple, write-Triple}
use nfc_forum_tags.Type2.Reader.Valid.{IsValid, IsIn, IsSixteen}
use nfc_forum_tags.Prelude.{
  ℕ, zero, suc, ◌+◌, ◌-◌, ◌/◌, ◌%◌, ◌≤◌, ◌<◌, ◌≡◌, Bool, false, List, [], ◌∷◌, length, some, arith,
  ltb, leb, leb→le, ◌==◌, drop, not, ◌&&◌,
}
use mathlib.Core.Option.{some-injective}
use mathlib.Core.Path.{ap, sym, ◌∙◌}
use nfc_forum_tags.Outcome.{Returns, >>=-Returns}
use nfc_forum_tags.Vec.{Build}
use nfc_forum_tags.Type2.Cc.{Bytes4}
use nfc_forum_tags.Type2.Error.{out_of_range}
use nfc_forum_tags.Type2.Geometry.{
  max_sector, address_space_end, address_roundtrip, address_some, address_to_sector_block,
}
use nfc_forum_tags.Type2.Memory.{MemoryLayout}
use nfc_forum_tags.Type2.Reader.State.{Transceiver, known, is_known}
use nfc_forum_tags.Type2.Reader.Writer.{
  first_four, Placing, place, fill_page, page_all_usable, select_if_needed, write_fast, write_if,
  write_slow, write_page, write_loop, write_usable_bytes,
}
use nfc_forum_tags.Type2.Reader.Triple.{
  Post-if, Triple, Triple-weaken, Triple-pure, Triple-if, Triple-lift, Triple-or_raise, Triple-bind,
  Triple-raise_if, Triple-given,
}

-- The offset in the block is the address modulo 4.
pub offset_of :
    (addr : ℕ) (parts : ℕ × ℕ × ℕ)
    → address_to_sector_block addr ≡ some parts
    → addr < address_space_end
    → parts.2 ≡ addr % 4
offset_of addr parts e h =
    ap (λ (p : ℕ × ℕ × ℕ). p.2) (some-injective _ _ (sym e ∙ address_some addr h))

first_four-Returns : (xs : List ℕ) → 4 ≤ length xs → Returns (first_four xs)
first_four-Returns [] h = absurd (omega (arith, h))
first_four-Returns (a ∷ []) h = absurd (omega (arith, h))
first_four-Returns (a ∷ b ∷ []) h = absurd (omega (arith, h))
first_four-Returns (a ∷ b ∷ c ∷ []) h = absurd (omega (arith, h))
first_four-Returns (a ∷ b ∷ c ∷ d ∷ xs) h = tt

module _ (layout : MemoryLayout) (limit_addr page_base offset : ℕ) where
  place-Returns :
      (i slot : ℕ) (p : Placing) → Returns (place layout limit_addr page_base offset i slot p)
  unfolding place
  place-Returns i slot ([], touched) = tt
  place-Returns i slot (d ∷ ds, touched) = ground arith

  fill_page-Returns :
      (page : Bytes4) (rest : List ℕ)
      → Returns (fill_page layout limit_addr page_base offset page rest)
  unfolding fill_page
  fill_page-Returns (p0, p1, p2, p3) rest =
      >>=-Returns (place layout limit_addr page_base offset 0 p0 (rest, false)) _
        (place-Returns 0 p0 (rest, false))
        λ r0.
          >>=-Returns (place layout limit_addr page_base offset 1 p1 r0.1) _
            (place-Returns 1 p1 r0.1)
            λ r1.
              >>=-Returns (place layout limit_addr page_base offset 2 p2 r1.1) _
                (place-Returns 2 p2 r1.1)
                λ r2.
                  >>=-Returns (place layout limit_addr page_base offset 3 p3 r2.1) _
                    (place-Returns 3 p3 r2.1) λ r3. tt

module _ (t : Transceiver) (b : Build) (answers : AnswersBytes t) (layout : MemoryLayout)
    (limit_addr : ℕ) where
  open t use {Device, Error}

  select_if_needed-Triple :
      (sector : ℕ)
      → sector ≤ max_sector
      → Triple IsValid IsValid
          (select_if_needed t b layout limit_addr sector)
          (λ _ r. IsIn (known sector) r)
  unfolding select_if_needed
  select_if_needed-Triple sector h = record {
    run = λ r v.
        Post-if IsValid (λ _. IsIn (known sector)) (not (is_known r.sector sector)) _ _
          (λ _. (sector_select-Triple t b answers sector h).run r v)
          (λ e. (v, is_known-true r.sector sector (ground (arith, e))));
  }

  write_fast-Triple :
      (s block page_base : ℕ) (rest : List ℕ)
      → 4 ≤ length rest
      → Triple IsValid
          (IsIn (known s))
          (write_fast t b layout limit_addr block page_base rest)
          (λ _ r. IsIn (known s) r)
  unfolding write_fast
  write_fast-Triple s block page_base rest h =
      Triple-bind
        (Triple-raise_if (IsIn (known s)) (ltb limit_addr (page_base + 4)) out_of_range
          (λ r v. v.0))
        λ _.
          Triple-bind
            (Triple-weaken (λ r v. v.0) (λ _ r v. v.0) (λ _ z. z)
              (Triple-lift (IsIn (known s)) (first_four rest) (λ _. Unit {0}) (λ r v. v.0)
                (first_four-Returns rest h)))
            λ page.
              Triple-bind (write-Triple t b answers (known s) block page)
                λ _. Triple-pure _ (drop 4 rest) _ λ r v. v

  write_if-Triple :
      (s : ℕ) (touched : Bool) (block : ℕ) (page : Bytes4)
      → Triple IsValid
          (IsIn (known s))
          (write_if t b layout limit_addr touched block page)
          (λ _ r. IsIn (known s) r)
  unfolding write_if
  write_if-Triple s touched block page =
      Triple-if touched (λ _. write-Triple t b answers (known s) block page)
        (λ _. Triple-pure _ tt _ λ r v. v)

  write_slow-Triple :
      (s block page_base offset : ℕ) (rest : List ℕ)
      → Triple IsValid
          (IsIn (known s))
          (write_slow t b layout limit_addr block page_base offset rest)
          (λ _ r. IsIn (known s) r)
  unfolding write_slow
  write_slow-Triple s block page_base offset rest =
      Triple-bind (read-Triple t b answers (known s) block) λ cur.
        Triple-given {X = IsSixteen cur} λ h.
          Triple-bind
            (Triple-weaken (λ r v. v) (λ _ r v. v.0) (λ _ z. z)
              (Triple-lift (IsIn (known s)) (first_four cur) (λ _. Unit {0}) (λ r v. v.0)
                (first_four-Returns cur (omega (arith, h.size)))))
            λ page.
              Triple-bind
                (Triple-weaken (λ r v. v) (λ _ r v. v.0) (λ _ z. z)
                  (Triple-lift (IsIn (known s))
                    (fill_page layout limit_addr page_base offset page rest) (λ _. Unit {0})
                    (λ r v. v.0) (fill_page-Returns layout limit_addr page_base offset page rest)))
                λ filled.
                  Triple-bind (write_if-Triple s filled.1.1 block filled.0)
                    λ _. Triple-pure _ filled.1.0 _ λ r v. v

  -- A round ends at the next page, in the address space.
  abbrev IsNextPage : ℕ → ℕ → Type 0
  IsNextPage addr next = (addr < address_space_end) × (next ≡ addr - addr % 4 + 4)

  write_page-Triple :
      (addr : ℕ) (rest : List ℕ)
      → Triple IsValid IsValid
          (write_page t b layout limit_addr addr rest)
          (λ x r. IsValid r × IsNextPage addr x.1)
  unfolding write_page
  write_page-Triple addr rest =
      Triple-bind (Triple-raise_if IsValid (leb limit_addr addr) out_of_range (λ r v. v)) λ _.
        Triple-bind
          (Triple-weaken (λ r v. v.0) (λ _ r v. v) (λ _ z. z)
            (Triple-or_raise IsValid (address_to_sector_block addr) out_of_range (λ r v. v)))
          λ parts. Triple-given {X = address_to_sector_block addr ≡ some parts} λ e.
            let split = address_roundtrip addr parts.0 parts.1 parts.2 e in
            Triple-bind (select_if_needed-Triple parts.0 split.1) λ _.
              Triple-bind
                (Triple-if
                  (parts.2 == 0 && leb 4 (length rest) && page_all_usable layout (addr - parts.2))
                  (λ f.
                    write_fast-Triple parts.0 parts.1 (addr - parts.2) rest
                      (leb→le 4 (length rest) (ground (arith, f))))
                  (λ _. write_slow-Triple parts.0 parts.1 (addr - parts.2) parts.2 rest))
                λ rest'.
                  Triple-pure _ (rest', addr - parts.2 + 4) _
                    λ r v. (v.0, (split.0, ap (λ o. addr - o + 4) (offset_of addr parts e split.0)))

  write_loop-Triple :
      (fuel addr : ℕ) (rest : List ℕ)
      → 0 < fuel
      → address_space_end / 4 + 1 ≤ addr / 4 + fuel
      → Triple IsValid IsValid (write_loop t b layout limit_addr fuel addr rest) (λ _ r. IsValid r)
  unfolding write_loop
  write_loop-Triple zero addr rest p f = absurd (omega arith)
  write_loop-Triple (suc fuel) addr [] p f = record { run = λ r v. v }
  write_loop-Triple (suc fuel) addr (d ∷ ds) p f =
      Triple-bind (write_page-Triple addr (d ∷ ds)) λ x.
        Triple-given {X = IsNextPage addr x.1}
          λ h. write_loop-Triple fuel x.1 x.0 (omega (arith, h.0)) (omega (arith, h.0, h.1))

  -- Writing over the usable bytes ends, from any address and for any data.
  pub write_usable_bytes-Triple :
      (start_addr : ℕ) (bytes : List ℕ)
      → Triple IsValid IsValid
          (write_usable_bytes t b layout limit_addr start_addr bytes)
          (λ _ r. IsValid r)
  unfolding write_usable_bytes
  write_usable_bytes-Triple start_addr bytes =
      write_loop-Triple 65281 start_addr bytes (omega arith) (omega arith)
