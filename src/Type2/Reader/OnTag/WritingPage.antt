-- ===== src/Type2/Reader/OnTag/WritingPage.antt =====
-- One page of a tag, written at once or byte by byte (src/type2/reader.rs, `write_usable_bytes`).
use nfc_forum_tags.Prelude.{
  ℕ, ◌+◌, ◌-◌, ◌*◌, ◌≤◌, ◌<◌, ◌≡◌, sym, arith, List, length, leb, leb→le, ◌==◌, ◌&&◌, if◌then◌else◌,
}
use mathlib.Core.Path.{subst, subst⁻¹, subst₂}
use nfc_forum_tags.Outcome.{Ensures}
use nfc_forum_tags.Vec.{Build}
use nfc_forum_tags.Type2.Memory.{MemoryLayout}
use nfc_forum_tags.Type2.Reader.State.{Transceiver, T2tReader}
use nfc_forum_tags.Type2.Reader.Writer.{
  first_four, fill_page, page_all_usable, write_fast, write_slow,
}
use nfc_forum_tags.Type2.Reader.Triple.{
  Triple, Triple-weaken, Triple-pure, Triple-if, Triple-lift, Triple-bind, Triple-given,
}
use nfc_forum_tags.Type2.TagMemory.{Memory, four_blocks, IsTag}
use nfc_forum_tags.Type2.Reader.OnTag.Coherent.{IsCoherent, IsCoherentIn, IsCoherent-weaken}
use nfc_forum_tags.Type2.Reader.OnTag.Pages.{read-OnTag}
use nfc_forum_tags.Type2.Reader.OnTag.Frame.{page_at, first_four-four_blocks, IsFrame}
use nfc_forum_tags.Type2.Reader.OnTag.Writing.{
  Paged, Kept-error, write_fast-Paged, Filled, page-Filled, write_if-Paged,
}

module _ {t : Transceiver} (b : Build) (tag : IsTag t) (layout : MemoryLayout)
    (start_addr limit_addr : ℕ) (mem : Memory) where
  open t use {Device, Error}

  abbrev Allowed : Memory → Type 0
  Allowed m = IsFrame layout start_addr limit_addr mem m

  abbrev After : Memory → ℕ → ℕ → List ℕ → List ℕ → T2tReader Device → Type 0
  After m k a rest rest' r = Paged b tag layout start_addr limit_addr mem m k a rest rest' r

  write_slow-Paged :
      (m : Memory) (s block offset : ℕ) (rest : List ℕ)
      → block < 256
      → offset < 4
      → start_addr ≤ s * 1024 + block * 4 + offset
      → Allowed m
      → ((a : ℕ) → m a < 256)
      → Triple
          (IsCoherent tag Allowed)
          (IsCoherentIn tag s (λ m'. m' ≡ m))
          (write_slow t b layout limit_addr block (s * 1024 + block * 4) offset rest)
          (λ rest'. After m (4 - offset) (s * 1024 + block * 4 + offset) rest rest')
  unfolding write_slow
  write_slow-Paged m s block offset rest hb ho h f small =
      let base : ℕ = s * 1024 + block * 4 in
      let error = Kept-error b tag layout start_addr limit_addr mem m s in
      Triple-bind
        (Triple-weaken (λ r v. v) (λ _ r v. v)
          (λ r c. IsCoherent-weaken tag _ Allowed r (λ m1 e. subst Allowed (sym e) f) c)
          (read-OnTag b tag m s block hb))
        λ cur. Triple-given {X = cur ≡ four_blocks m s block} λ e.
          Triple-bind
            (Triple-lift (IsCoherentIn tag s (λ m'. m' ≡ m)) (first_four cur)
              (λ page. page ≡ page_at m base) (λ r c. error r f c)
              (subst⁻¹ (λ l. Ensures (λ page. page ≡ page_at m base) (first_four l)) e
                (first_four-four_blocks m s block hb)))
            λ page. Triple-given {X = page ≡ page_at m base} λ g.
              Triple-bind
                (Triple-lift (IsCoherentIn tag s (λ m'. m' ≡ m))
                  (fill_page layout limit_addr base offset page rest)
                  (Filled b tag layout start_addr limit_addr mem m base offset rest)
                  (λ r c. error r f c)
                  (subst⁻¹
                    (λ p.
                      Ensures (Filled b tag layout start_addr limit_addr mem m base offset rest)
                        (fill_page layout limit_addr base offset p rest))
                    g
                    (page-Filled b tag layout start_addr limit_addr mem m base offset rest small
                      ho)))
                λ x.
                  Triple-given
                    {X = Filled b tag layout start_addr limit_addr mem m base offset rest x}
                    λ filled.
                      Triple-bind
                        (write_if-Paged b tag layout start_addr limit_addr mem m s block offset rest
                          x.0 x.1.0 x.1.1 small h f filled)
                        λ _. Triple-pure _ x.1.0 _ λ r c. c

  -- A page is written at once, or byte by byte.
  pub page-Paged :
      (m : Memory) (s block offset : ℕ) (rest : List ℕ)
      → block < 256
      → offset < 4
      → start_addr ≤ s * 1024 + block * 4 + offset
      → Allowed m
      → ((a : ℕ) → m a < 256)
      → Triple
          (IsCoherent tag Allowed)
          (IsCoherentIn tag s (λ m'. m' ≡ m))
          (if offset == 0 && leb 4 (length rest) && page_all_usable layout (s * 1024 + block * 4)
            then write_fast t b layout limit_addr block (s * 1024 + block * 4) rest
            else write_slow t b layout limit_addr block (s * 1024 + block * 4) offset rest)
          (λ rest'. After m (4 - offset) (s * 1024 + block * 4 + offset) rest rest')
  page-Paged m s block offset rest hb ho h f small =
      let base : ℕ = s * 1024 + block * 4 in
      Triple-if (offset == 0 && leb 4 (length rest) && page_all_usable layout base)
        (λ c.
          let zero_offset : offset ≡ 0 = ground (arith, c) in
          let four : 4 ≡ 4 - offset = omega arith in
          let whole : base ≡ base + offset = omega arith in
          Triple-weaken (λ r v. v)
            (λ rest' r q. subst₂ (λ k a. After m k a rest rest' r) four whole q) (λ r v. v)
            (write_fast-Paged b tag layout start_addr limit_addr mem m s block rest
              (leb→le 4 (length rest) (ground (arith, c))) (ground (arith, c)) (omega arith) f))
        (λ _. write_slow-Paged m s block offset rest hb ho h f small)
