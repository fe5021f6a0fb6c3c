-- ===== src/Type2/Reader/OnTag/WritingLoop.antt =====
-- Writing over the usable bytes of a tag, page by page (src/type2/reader.rs, `write_usable_bytes`).
use nfc_forum_tags.Prelude.{
  ℕ, zero, suc, ◌+◌, ◌-◌, ◌*◌, ◌/◌, ◌%◌, ◌≤◌, ◌<◌, ◌≡◌, ◌∙◌, refl, sym, ap, arith, List, [], ◌∷◌,
  length, some, leb, ◌==◌, ◌&&◌, if◌then◌else◌,
}
use mathlib.Core.Path.{subst, subst₂}
use nfc_forum_tags.Vec.{Build}
use nfc_forum_tags.Type2.Error.{out_of_range}
use nfc_forum_tags.Type2.Geometry.{address_space_end, address_roundtrip, address_to_sector_block}
use nfc_forum_tags.Type2.Memory.{MemoryLayout}
use nfc_forum_tags.Type2.Reader.State.{Transceiver, T2tReader}
use nfc_forum_tags.Type2.Reader.Writer.{
  page_all_usable, write_fast, write_slow, write_page, write_loop, write_usable_bytes,
}
use nfc_forum_tags.Type2.Reader.Writing.{offset_of}
use nfc_forum_tags.Type2.Reader.Triple.{
  Triple, Triple-weaken, Triple-pure, Triple-or_raise, Triple-bind, Triple-raise_if, Triple-given,
}
use nfc_forum_tags.Type2.TagMemory.{Memory, IsTag}
use nfc_forum_tags.Type2.Reader.OnTag.Coherent.{
  IsCoherent, IsCoherentIn, IsCoherent-weaken, at_memory,
}
use nfc_forum_tags.Type2.Reader.OnTag.Overwrite.{overwrite, overwrite-nil, overwrite-add}
use nfc_forum_tags.Type2.Reader.OnTag.Frame.{IsFrame}
use nfc_forum_tags.Type2.Reader.OnTag.Writing.{select_if_needed-Kept, Paged}
use nfc_forum_tags.Type2.Reader.OnTag.WritingPage.{page-Paged}

-- The page of an address starts the block.
page_address :
    (addr : ℕ) (parts : ℕ × ℕ × ℕ)
    → address_to_sector_block addr ≡ some parts
    → parts.0 * 1024 + parts.1 * 4 ≡ addr - parts.2
unfolding address_to_sector_block
page_address addr parts e = ground arith

module _ {t : Transceiver} (b : Build) (tag : IsTag t) (layout : MemoryLayout)
    (start_addr limit_addr : ℕ) (mem : Memory) where
  open t use {Device, Error}

  abbrev Allowed : Memory → Type 0
  Allowed m = IsFrame layout start_addr limit_addr mem m

  abbrev After : Memory → ℕ → ℕ → List ℕ → List ℕ → T2tReader Device → Type 0
  After m k a rest rest' r = Paged b tag layout start_addr limit_addr mem m k a rest rest' r

  -- The rest of the work, from the next page on.
  abbrev Onward : Memory → ℕ → List ℕ → List ℕ × ℕ → Memory → Type 0
  Onward m addr rest x m' =
      (overwrite layout (address_space_end - addr) addr rest m
        ≡ overwrite layout (address_space_end - x.1) x.1 x.0 m')
      × Allowed m'

  abbrev IsNextPage : ℕ → ℕ → Type 0
  IsNextPage addr next = (addr < address_space_end) × (next ≡ addr - addr % 4 + 4)

  onward :
      (m m' : Memory) (addr offset next : ℕ) (rest rest' : List ℕ)
      → offset ≡ addr % 4
      → next ≡ addr - offset + 4
      → addr < address_space_end
      → overwrite layout (4 - offset) addr rest m ≡ (rest', m')
      → overwrite layout (address_space_end - addr) addr rest m
        ≡ overwrite layout (address_space_end - next) next rest' m'
  onward m m' addr offset next rest rest' o n l e =
      let whole : address_space_end - addr ≡ 4 - offset + (address_space_end - next) =
        omega arith in
      let place : addr + (4 - offset) ≡ next = omega arith in
      ap (λ k. overwrite layout k addr rest m) whole
      ∙ overwrite-add layout (4 - offset) (address_space_end - next) addr rest m
      ∙ ap (λ x. overwrite layout (address_space_end - next) (addr + (4 - offset)) x.0 x.1) e
      ∙ ap (λ a. overwrite layout (address_space_end - next) a rest' m') place

  Allowed-error :
      (m : Memory) (r : T2tReader Device)
      → Allowed m
      → IsCoherent tag (λ m'. m' ≡ m) r
      → IsCoherent tag Allowed r
  Allowed-error m r f c =
      IsCoherent-weaken tag (λ m'. m' ≡ m) Allowed r (λ m' e. subst Allowed (sym e) f) c

  write_page-Onward :
      (m : Memory) (addr : ℕ) (rest : List ℕ)
      → start_addr ≤ addr
      → Allowed m
      → ((a : ℕ) → m a < 256)
      → Triple
          (IsCoherent tag Allowed)
          (IsCoherent tag (λ m'. m' ≡ m))
          (write_page t b layout limit_addr addr rest)
          (λ x r. IsCoherent tag (Onward m addr rest x) r × IsNextPage addr x.1)
  unfolding write_page
  write_page-Onward m addr rest h f small =
      Triple-bind
        (Triple-raise_if (IsCoherent tag (λ m'. m' ≡ m)) (leb limit_addr addr) out_of_range
          (λ r c. Allowed-error m r f c))
        λ _.
          Triple-bind
            (Triple-weaken (λ r v. v.0) (λ _ r v. v) (λ _ z. z)
              (Triple-or_raise (IsCoherent tag (λ m'. m' ≡ m)) (address_to_sector_block addr)
                out_of_range (λ r c. Allowed-error m r f c)))
            λ parts. Triple-given {X = address_to_sector_block addr ≡ some parts} λ e.
              let split = address_roundtrip addr parts.0 parts.1 parts.2 e in
              let o : parts.2 ≡ addr % 4 = offset_of addr parts e split.0 in
              let base : parts.0 * 1024 + parts.1 * 4 ≡ addr - parts.2 =
                page_address addr parts e in
              let here : parts.0 * 1024 + parts.1 * 4 + parts.2 ≡ addr = omega (arith, base, o) in
              Triple-bind
                (select_if_needed-Kept b tag layout start_addr limit_addr mem m parts.0 split.1 f)
                λ _.
                  Triple-bind
                    (subst₂
                      (λ base a.
                        Triple (IsCoherent tag Allowed) (IsCoherentIn tag parts.0 (λ m'. m' ≡ m))
                          (if parts.2 == 0 && leb 4 (length rest) && page_all_usable layout base
                            then write_fast t b layout limit_addr parts.1 base rest
                            else write_slow t b layout limit_addr parts.1 base parts.2 rest)
                          (λ rest'. After m (4 - parts.2) a rest rest'))
                      base here
                      (page-Paged b tag layout start_addr limit_addr mem m parts.0 parts.1 parts.2
                        rest split.2 split.3 (omega arith) f small))
                    λ rest'.
                      Triple-pure _ (rest', addr - parts.2 + 4) _
                        λ r c. (
                          IsCoherent-weaken tag _ (Onward m addr rest (rest', addr - parts.2 + 4)) r
                              (λ m' k. (
                                onward m m' addr parts.2 (addr - parts.2 + 4) rest rest' o refl
                                    split.0 k.0,
                                k.1,
                              ))
                              c,
                          (split.0, ap (λ o. addr - o + 4) o),
                        )

  -- All bytes are stored, and nothing else.
  abbrev pub Stored : Memory → ℕ → List ℕ → Memory → Type 0
  Stored m addr rest m' =
      (overwrite layout (address_space_end - addr) addr rest m ≡ ([], m')) × Allowed m'

  write_loop-Stored :
      (fuel : ℕ) (m : Memory) (addr : ℕ) (rest : List ℕ)
      → start_addr ≤ addr
      → Allowed m
      → ((a : ℕ) → m a < 256)
      → 0 < fuel
      → address_space_end / 4 + 1 ≤ addr / 4 + fuel
      → Triple
          (IsCoherent tag Allowed)
          (IsCoherent tag (λ m'. m' ≡ m))
          (write_loop t b layout limit_addr fuel addr rest)
          (λ _. IsCoherent tag (Stored m addr rest))
  unfolding write_loop
  write_loop-Stored zero m addr rest h f small p g = absurd (omega arith)
  write_loop-Stored (suc fuel) m addr [] h f small p g = record {
    run = λ r c.
        IsCoherent-weaken tag (λ m'. m' ≡ m) (Stored m addr []) r
          (λ m' e. (
            overwrite-nil layout (address_space_end - addr) addr m ∙ ap (λ x. ([], x)) (sym e),
            subst Allowed (sym e) f,
          ))
          c;
  }
  write_loop-Stored (suc fuel) m addr (d ∷ ds) h f small p g =
      Triple-bind (write_page-Onward m addr (d ∷ ds) h f small) λ x.
        Triple-given {X = IsNextPage addr x.1} λ n.
          at_memory tag (Onward m addr (d ∷ ds) x) _ _ λ m' k small'.
            Triple-weaken (λ r v. v)
              (λ _ r c.
                IsCoherent-weaken tag (Stored m' x.1 x.0) (Stored m addr (d ∷ ds)) r
                  (λ m'' q. (k.0 ∙ q.0, q.1)) c)
              (λ r v. v)
              (write_loop-Stored fuel m' x.1 x.0 (omega (arith, n.0, n.1)) k.1 small'
                (omega (arith, n.0)) (omega (arith, n.0, n.1)))

  -- Writing over the usable bytes stores them at the usable addresses from the start on, all below
  -- the limit; an error leaves every other address as it was.
  pub write_usable_bytes-Stored :
      (bytes : List ℕ)
      → Triple
          (IsCoherent tag Allowed)
          (IsCoherent tag (λ m'. m' ≡ mem))
          (write_usable_bytes t b layout limit_addr start_addr bytes)
          (λ _. IsCoherent tag (Stored mem start_addr bytes))
  unfolding write_usable_bytes
  write_usable_bytes-Stored bytes =
      at_memory tag (λ m'. m' ≡ mem) _ _
        λ m e small.
          subst
            (λ m.
              Triple (IsCoherent tag Allowed) (IsCoherent tag (λ m'. m' ≡ m))
                (write_loop t b layout limit_addr 65281 start_addr bytes)
                (λ _. IsCoherent tag (Stored mem start_addr bytes)))
            (sym e)
            (write_loop-Stored 65281 mem start_addr bytes (omega arith) (λ a o. refl)
              (subst (λ (m : Memory). (a : ℕ) → m a < 256) e small) (omega arith) (omega arith))
