-- ===== src/Type2/Reader/OnTag/Page.antt =====
-- What the read-modify-write of a page stores (src/type2/reader.rs, `write_usable_bytes`).
use nfc_forum_tags.Prelude.{
  ℕ, zero, suc, ◌+◌, ◌-◌, ◌≤◌, ◌<◌, ◌≡◌, inr, ◌∙◌, refl, sym, ap, arith, Bool, true, false, List,
  [], ◌∷◌, length, ltb, leb, if◌then◌else◌, drop,
}
use nfc_forum_tags.Outcome.{Ensures, Ensures-if, >>=-Ensures}
use nfc_forum_tags.Type2.Cc.{Bytes4}
use nfc_forum_tags.Type2.Memory.{MemoryLayout, is_skip_area}
use nfc_forum_tags.Type2.Reader.Writer.{first_four, Placing, place, fill_page, page_all_usable}
use nfc_forum_tags.Type2.TagMemory.{Memory, store}
use nfc_forum_tags.Type2.Reader.OnTag.Overwrite.{
  set, overwrite, store_sets, set_same, set_other, overwrite-nil, overwrite-add, overwrite_skipped,
  overwrite_usable,
}

module _ (layout : MemoryLayout) (limit_addr page_base offset : ℕ) where
  -- One round, as a function of the memory.
  abbrev pub round : ℕ → List ℕ × Memory → List ℕ × Memory
  round i (bytes, mem) =
      if ltb i offset then (bytes, mem) else overwrite layout 1 (page_base + i) bytes mem

  nothing_left : (i : ℕ) (mem : Memory) → round i ([], mem) ≡ ([], mem)
  nothing_left i mem = either (ltb i offset)
    where
      either :
          (c : Bool)
          → (if c then ([], mem) else overwrite layout 1 (page_base + i) [] mem) ≡ ([], mem)
      either true = refl
      either false = overwrite-nil layout 1 (page_base + i) mem

  place-round :
      (i slot : ℕ) (p : Placing) (mem : Memory)
      → slot < 256
      → mem (page_base + i) ≡ slot
      → Ensures
          (λ r. round i (p.0, mem) ≡ (r.1.0, set (page_base + i) r.0 mem))
          (place layout limit_addr page_base offset i slot p)
  unfolding place
  place-round i slot ([], touched) mem h e =
      nothing_left i mem ∙ ap (λ m. ([], m)) (sym (set_same (page_base + i) slot mem h e))
  place-round i slot (d ∷ ds, touched) mem h e =
      let same = ap (λ m. (d ∷ ds, m)) (sym (set_same (page_base + i) slot mem h e)) in
      Ensures-if _ (ltb i offset) _ _ (λ c. rw c same)
        λ c.
          Ensures-if _ (leb limit_addr (page_base + i)) _ _ (λ _. tt)
            λ l.
              Ensures-if _ (is_skip_area layout (page_base + i)) _ _
                (λ u. rw c (overwrite_skipped layout (page_base + i) d ds mem u ∙ same))
                λ u. rw c (overwrite_usable layout (page_base + i) d ds mem u)

  four_sets :
      (x0 x1 x2 x3 : ℕ) (mem : Memory)
      → set
          (page_base + 3)
          x3
          (set (page_base + 2) x2 (set (page_base + 1) x1 (set (page_base + 0) x0 mem)))
        ≡ store page_base (x0, x1, x2, x3) mem
  four_sets x0 x1 x2 x3 mem =
      let first : page_base + 0 ≡ page_base = omega arith in
      rw first (sym (store_sets page_base x0 x1 x2 x3 mem))

  -- The four rounds store the page, and leave the bytes that are left.
  pub fill_page-rounds :
      (page : Bytes4) (rest : List ℕ) (mem : Memory)
      → ((a : ℕ) → mem a < 256)
      → page ≡ (mem (page_base + 0), mem (page_base + 1), mem (page_base + 2), mem (page_base + 3))
      → Ensures
          (λ r.
            round 3 (round 2 (round 1 (round 0 (rest, mem)))) ≡ (r.1.0, store page_base r.0 mem))
          (fill_page layout limit_addr page_base offset page rest)
  unfolding fill_page
  fill_page-rounds (p0, p1, p2, p3) rest mem small e =
      let e0 : mem (page_base + 0) ≡ p0 = sym (ap (λ (p : Bytes4). p.0) e) in
      let e1 : mem (page_base + 1) ≡ p1 = sym (ap (λ (p : Bytes4). p.1) e) in
      let e2 : mem (page_base + 2) ≡ p2 = sym (ap (λ (p : Bytes4). p.2) e) in
      let e3 : mem (page_base + 3) ≡ p3 = sym (ap (λ (p : Bytes4). p.3) e) in
      let byte : (i p : ℕ) → mem (page_base + i) ≡ p → p < 256 =
        λ i p f. omega (arith, small (page_base + i), f) in
      >>=-Ensures _ _ (place layout limit_addr page_base offset 0 p0 (rest, false)) _
        (place-round 0 p0 (rest, false) mem (byte 0 p0 e0) e0)
        λ r0 h0.
          let m0 : Memory = set (page_base + 0) r0.0 mem in
          >>=-Ensures _ _ (place layout limit_addr page_base offset 1 p1 r0.1) _
            (place-round 1 p1 r0.1 m0 (byte 1 p1 e1)
              (set_other (page_base + 0) r0.0 (page_base + 1) mem (inr (omega arith)) ∙ e1))
            λ r1 h1.
              let m1 : Memory = set (page_base + 1) r1.0 m0 in
              >>=-Ensures _ _ (place layout limit_addr page_base offset 2 p2 r1.1) _
                (place-round 2 p2 r1.1 m1 (byte 2 p2 e2) (
                  set_other (page_base + 1) r1.0 (page_base + 2) m0 (inr (omega arith))
                  ∙ set_other (page_base + 0) r0.0 (page_base + 2) mem (inr (omega arith))
                  ∙ e2))
                λ r2 h2.
                  let m2 : Memory = set (page_base + 2) r2.0 m1 in
                  >>=-Ensures _ _ (place layout limit_addr page_base offset 3 p3 r2.1) _
                    (place-round 3 p3 r2.1 m2 (byte 3 p3 e3) (
                      set_other (page_base + 2) r2.0 (page_base + 3) m1 (inr (omega arith))
                      ∙ set_other (page_base + 1) r1.0 (page_base + 3) m0 (inr (omega arith))
                      ∙ set_other (page_base + 0) r0.0 (page_base + 3) mem (inr (omega arith))
                      ∙ e3))
                    λ r3 h3.
                      ap (λ x. round 3 (round 2 (round 1 x))) h0
                      ∙ ap (λ x. round 3 (round 2 x)) h1
                      ∙ ap (round 3) h2
                      ∙ h3
                      ∙ ap (λ m. (r3.1.0, m)) (four_sets r0.0 r1.0 r2.0 r3.0 mem)

module _ (layout : MemoryLayout) (page_base : ℕ) where
  abbrev one : ℕ → List ℕ × Memory → List ℕ × Memory
  one i (bytes, mem) = overwrite layout 1 (page_base + i) bytes mem

  one_more :
      (i k : ℕ) (x : List ℕ × Memory)
      → overwrite layout (1 + k) (page_base + i) x.0 x.1
        ≡ overwrite layout k (page_base + (1 + i)) (one i x).0 (one i x).1
  one_more i k x =
      let further : page_base + i + 1 ≡ page_base + (1 + i) = omega arith in
      overwrite-add layout 1 k (page_base + i) x.0 x.1
      ∙ ap (λ a. overwrite layout k a (one i x).0 (one i x).1) further

  last_two : (x : List ℕ × Memory) → one 3 (one 2 x) ≡ overwrite layout 2 (page_base + 2) x.0 x.1
  last_two x = sym (one_more 2 1 x)

  last_three :
      (x : List ℕ × Memory) → one 3 (one 2 (one 1 x)) ≡ overwrite layout 3 (page_base + 1) x.0 x.1
  last_three x = last_two (one 1 x) ∙ sym (one_more 1 2 x)

  all_four :
      (x : List ℕ × Memory)
      → one 3 (one 2 (one 1 (one 0 x))) ≡ overwrite layout 4 (page_base + 0) x.0 x.1
  all_four x = last_three (one 0 x) ∙ sym (one_more 0 3 x)

  -- The rounds of a page go over the addresses from the offset on.
  pub rounds-overwrite :
      (limit_addr offset : ℕ) (rest : List ℕ) (mem : Memory)
      → offset < 4
      → round layout limit_addr page_base offset 3 (
          round layout limit_addr page_base offset 2 (
            round layout limit_addr page_base offset 1
              (round layout limit_addr page_base offset 0 (rest, mem))))
        ≡ overwrite layout (4 - offset) (page_base + offset) rest mem
  rounds-overwrite limit_addr zero rest mem h = all_four (rest, mem)
  rounds-overwrite limit_addr (suc zero) rest mem h = last_three (rest, mem)
  rounds-overwrite limit_addr (suc (suc zero)) rest mem h = last_two (rest, mem)
  rounds-overwrite limit_addr (suc (suc (suc zero))) rest mem h = refl
  rounds-overwrite limit_addr (suc (suc (suc (suc n)))) rest mem h = absurd (omega arith)

  -- A page of usable addresses takes four bytes.
  pub first_four-overwrite :
      (rest : List ℕ) (mem : Memory)
      → 4 ≤ length rest
      → page_all_usable layout page_base ≡ true
      → Ensures
          (λ page. overwrite layout 4 page_base rest mem ≡ (drop 4 rest, store page_base page mem))
          (first_four rest)
  unfolding page_all_usable
  first_four-overwrite [] mem h u = absurd (omega (arith, h))
  first_four-overwrite (x0 ∷ []) mem h u = absurd (omega (arith, h))
  first_four-overwrite (x0 ∷ x1 ∷ []) mem h u = absurd (omega (arith, h))
  first_four-overwrite (x0 ∷ x1 ∷ x2 ∷ []) mem h u = absurd (omega (arith, h))
  first_four-overwrite (x0 ∷ x1 ∷ x2 ∷ x3 ∷ xs) mem h u =
      let here : page_base + 0 ≡ page_base = omega arith in
      let u0 : is_skip_area layout page_base ≡ false = ground (arith, u) in
      let u1 : is_skip_area layout (page_base + 1) ≡ false = ground (arith, u) in
      let u2 : is_skip_area layout (page_base + 2) ≡ false = ground (arith, u) in
      let u3 : is_skip_area layout (page_base + 3) ≡ false = ground (arith, u) in
      ap (λ a. overwrite layout 4 a (x0 ∷ x1 ∷ x2 ∷ x3 ∷ xs) mem) (sym here)
      ∙ sym (all_four (x0 ∷ x1 ∷ x2 ∷ x3 ∷ xs, mem))
      ∙ ap (λ x. one 3 (one 2 (one 1 x)))
          (ap (λ a. overwrite layout 1 a (x0 ∷ x1 ∷ x2 ∷ x3 ∷ xs) mem) here
            ∙ overwrite_usable layout page_base x0 (x1 ∷ x2 ∷ x3 ∷ xs) mem u0)
      ∙ ap (λ x. one 3 (one 2 x)) (overwrite_usable layout (page_base + 1) x1 (x2 ∷ x3 ∷ xs) _ u1)
      ∙ ap (one 3) (overwrite_usable layout (page_base + 2) x2 (x3 ∷ xs) _ u2)
      ∙ overwrite_usable layout (page_base + 3) x3 xs _ u3
      ∙ ap (λ m. (xs, m)) (sym (store_sets page_base x0 x1 x2 x3 mem))
