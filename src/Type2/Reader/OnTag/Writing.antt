-- ===== src/Type2/Reader/OnTag/Writing.antt =====
-- Writing a page of a tag (src/type2/reader.rs, `write_usable_bytes`).
use nfc_forum_tags.Prelude.{
  ℕ, ◌+◌, ◌-◌, ◌*◌, ◌≤◌, ◌<◌, ◌≡◌, ◌⊎◌, inl, inr, ◌∙◌, refl, sym, ap, arith, Bool, true, false,
  List, length, ltb, ltb-false→le, drop, not,
}
use mathlib.Core.Path.{subst}
use nfc_forum_tags.Outcome.{Ensures, Ensures-and, Ensures-weaken}
use nfc_forum_tags.Vec.{Build}
use nfc_forum_tags.Type2.Error.{out_of_range}
use nfc_forum_tags.Type2.Cc.{Bytes4}
use nfc_forum_tags.Type2.Geometry.{max_sector}
use nfc_forum_tags.Type2.Memory.{MemoryLayout}
use nfc_forum_tags.Type2.Reader.State.{Transceiver, is_known, T2tReader}
use nfc_forum_tags.Type2.Reader.Link.{write}
use nfc_forum_tags.Type2.Reader.Writer.{
  first_four, Placing, fill_page, page_all_usable, select_if_needed, write_fast, write_if,
}
use nfc_forum_tags.Type2.Reader.Filled.{IsFilled, fill_page-IsFilled}
use nfc_forum_tags.Type2.Reader.Selection.{is_known-true}
use nfc_forum_tags.Type2.Reader.Triple.{
  Post-if, Triple, Triple-weaken, Triple-pure, Triple-lift, Triple-bind, Triple-raise_if,
  Triple-given,
}
use nfc_forum_tags.Type2.TagMemory.{Memory, store, IsTag}
use nfc_forum_tags.Type2.Reader.OnTag.Coherent.{IsCoherent, IsCoherentIn, IsCoherent-weaken}
use nfc_forum_tags.Type2.Reader.OnTag.Selecting.{sector_select-OnTag}
use nfc_forum_tags.Type2.Reader.OnTag.Storing.{write-OnTag}
use nfc_forum_tags.Type2.Reader.OnTag.Overwrite.{overwrite}
use nfc_forum_tags.Type2.Reader.OnTag.Page.{
  fill_page-rounds, rounds-overwrite, first_four-overwrite,
}
use nfc_forum_tags.Type2.Reader.OnTag.Frame.{
  page_at, store_same, IsFrame, usable-IsFrame, fill_page-IsFrame,
}

module _ {t : Transceiver} (b : Build) (tag : IsTag t) (layout : MemoryLayout)
    (start_addr limit_addr : ℕ) (mem : Memory) where
  open t use {Device, Error}

  abbrev pub Is : Memory → Memory → Type 0
  Is m m' = m' ≡ m

  abbrev pub Kept : Memory → Type 0
  Kept m = IsFrame layout start_addr limit_addr mem m

  -- The memory is `m` before, and what is written is allowed.
  write-IsFrame :
      (m : Memory) (s n : ℕ) (page : Bytes4)
      → Kept m
      → Kept (store (s * 1024 + n * 4) page m)
      → Triple
          (IsCoherent tag Kept)
          (IsCoherentIn tag s (Is m))
          (write t b n page)
          (λ _. IsCoherent tag (Is (store (s * 1024 + n * 4) page m)))
  write-IsFrame m s n page old new =
      Triple-weaken (λ r v. v) (λ _ r v. v.0)
        (λ r c.
          IsCoherent-weaken tag _ Kept r
            (λ m' k. elim k [ inl e ↦ subst Kept (sym e) old | inr e ↦ subst Kept (sym e) new ]) c)
        (write-OnTag b tag m s n page)

  pub select_if_needed-Kept :
      (m : Memory) (s : ℕ)
      → s ≤ max_sector
      → Kept m
      → Triple
          (IsCoherent tag Kept)
          (IsCoherent tag (Is m))
          (select_if_needed t b layout limit_addr s)
          (λ _. IsCoherentIn tag s (Is m))
  unfolding select_if_needed
  select_if_needed-Kept m s h f =
      Triple-weaken (λ r v. v) (λ _ r v. v)
        (λ r c. IsCoherent-weaken tag (Is m) Kept r (λ m' e. subst Kept (sym e) f) c)
        (record {
          run = λ r v.
              Post-if (IsCoherent tag (Is m)) (λ _. IsCoherentIn tag s (Is m))
                (not (is_known r.sector s)) _ _
                (λ _. (sector_select-OnTag b tag (Is m) s h).run r v)
                (λ e. (v, is_known-true r.sector s (ground (arith, e))));
        })

  -- After a page, at the address of its first byte written and with the bytes that were left.
  abbrev pub Paged : Memory → ℕ → ℕ → List ℕ → List ℕ → T2tReader Device → Type 0
  Paged m k a rest rest' r =
      IsCoherent tag (λ m'. (overwrite layout k a rest m ≡ (rest', m')) × Kept m') r

  paged :
      (m m' : Memory) (k a : ℕ) (rest rest' : List ℕ) (r : T2tReader Device)
      → overwrite layout k a rest m ≡ (rest', m')
      → Kept m'
      → IsCoherent tag (Is m') r
      → Paged m k a rest rest' r
  paged m m' k a rest rest' r e f c =
      IsCoherent-weaken tag (Is m') _ r
        (λ m'' g. subst (λ x. (overwrite layout k a rest m ≡ (rest', x)) × Kept x) (sym g) (e, f)) c

  pub Kept-error :
      (m : Memory) (s : ℕ) (r : T2tReader Device)
      → Kept m
      → IsCoherentIn tag s (Is m) r
      → IsCoherent tag Kept r
  Kept-error m s r f c = IsCoherent-weaken tag (Is m) Kept r (λ m' e. subst Kept (sym e) f) c.0

  pub write_fast-Paged :
      (m : Memory) (s block : ℕ) (rest : List ℕ)
      → 4 ≤ length rest
      → page_all_usable layout (s * 1024 + block * 4) ≡ true
      → start_addr ≤ s * 1024 + block * 4
      → Kept m
      → Triple
          (IsCoherent tag Kept)
          (IsCoherentIn tag s (Is m))
          (write_fast t b layout limit_addr block (s * 1024 + block * 4) rest)
          (λ rest'. Paged m 4 (s * 1024 + block * 4) rest rest')
  unfolding write_fast
  write_fast-Paged m s block rest l u h f =
      let base : ℕ = s * 1024 + block * 4 in
      Triple-bind
        (Triple-raise_if (IsCoherentIn tag s (Is m)) (ltb limit_addr (base + 4)) out_of_range
          (λ r c. Kept-error m s r f c))
        λ _. Triple-given {X = ltb limit_addr (base + 4) ≡ false} λ e.
          let below : base + 4 ≤ limit_addr = ltb-false→le limit_addr (base + 4) e in
          Triple-bind
            (Triple-lift (IsCoherentIn tag s (Is m)) (first_four rest)
              (λ page. overwrite layout 4 base rest m ≡ (drop 4 rest, store base page m))
              (λ r c. Kept-error m s r f c) (first_four-overwrite layout base rest m l u))
            λ page.
              Triple-given {X = overwrite layout 4 base rest m ≡ (drop 4 rest, store base page m)}
                λ g.
                  let kept : Kept (store base page m) =
                    usable-IsFrame layout start_addr limit_addr mem m base page h below u f in
                  Triple-bind (write-IsFrame m s block page f kept)
                    λ _. Triple-pure _ (drop 4 rest) _ λ r c. paged m _ 4 base rest _ r g kept c

  -- What is stored in a page that was read, and what may be.
  abbrev pub Filled : Memory → ℕ → ℕ → List ℕ → Bytes4 × Placing → Type 0
  Filled m base offset rest x =
      (overwrite layout (4 - offset) (base + offset) rest m ≡ (x.1.0, store base x.0 m))
      × IsFilled layout limit_addr base offset (page_at m base) (rest, false) x.0 x.1

  pub page-Filled :
      (m : Memory) (base offset : ℕ) (rest : List ℕ)
      → ((a : ℕ) → m a < 256)
      → offset < 4
      → Ensures
          (Filled m base offset rest)
          (fill_page layout limit_addr base offset (page_at m base) rest)
  page-Filled m base offset rest small l =
      Ensures-and _ _ (fill_page layout limit_addr base offset (page_at m base) rest)
        (Ensures-weaken _ _ (fill_page layout limit_addr base offset (page_at m base) rest)
          (fill_page-rounds layout limit_addr base offset (page_at m base) rest m small refl)
          (λ x e. sym (rounds-overwrite layout base limit_addr offset rest m l) ∙ e))
        (fill_page-IsFilled layout limit_addr base offset (page_at m base) rest)

  -- The page is written if a byte was placed in it, and is as it was if not.
  pub write_if-Paged :
      (m : Memory) (s block offset : ℕ) (rest : List ℕ) (page : Bytes4) (rest' : List ℕ)
      (touched : Bool)
      → ((a : ℕ) → m a < 256)
      → start_addr ≤ s * 1024 + block * 4 + offset
      → Kept m
      → Filled m (s * 1024 + block * 4) offset rest (page, (rest', touched))
      → Triple
          (IsCoherent tag Kept)
          (IsCoherentIn tag s (Is m))
          (write_if t b layout limit_addr touched block page)
          (λ _. Paged m (4 - offset) (s * 1024 + block * 4 + offset) rest rest')
  unfolding write_if
  write_if-Paged m s block offset rest page rest' true small h f g =
      let base : ℕ = s * 1024 + block * 4 in
      let kept : Kept (store base page m) =
        fill_page-IsFrame layout start_addr limit_addr mem m base offset (page_at m base) rest page
          (rest', true) small h refl f g.1 in
      Triple-weaken (λ r v. v)
        (λ _ r c. paged m _ (4 - offset) (base + offset) rest rest' r g.0 kept c) (λ r c. c)
        (write-IsFrame m s block page f kept)
  write_if-Paged m s block offset rest page rest' false small h f g =
      let base : ℕ = s * 1024 + block * 4 in
      let same : page ≡ page_at m base = unmarked g.1.4 in
      let stored : store base page m ≡ m =
        ap (λ p. store base p m) same ∙ store_same m base small in
      Triple-pure _ tt _ λ r c.
        paged m m (4 - offset) (base + offset) rest rest' r (g.0 ∙ ap (λ x. (rest', x)) stored) f
          c.0
    where
      unmarked :
          {X : Type 0}
          → (false ≡ true) ⊎ ((page ≡ page_at m (s * 1024 + block * 4)) × X)
          → page ≡ page_at m (s * 1024 + block * 4)
      unmarked (inl e) = absurd (cc)
      unmarked (inr k) = k.0
