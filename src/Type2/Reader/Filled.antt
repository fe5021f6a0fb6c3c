-- ===== src/Type2/Reader/Filled.antt =====
-- The read-modify-write of a page (src/type2/reader.rs, `write_usable_bytes`): which of its bytes may
-- change.
use nfc_forum_tags.Prelude.{
  ℕ, ◌+◌, ◌≤◌, ◌<◌, ◌≡◌, ◌⊎◌, refl, inl, inr, true, false, List, [], ◌∷◌, ltb, leb, ltb-false→le,
  leb-false→lt, ap, ◌∙◌,
}
use nfc_forum_tags.Outcome.{Ensures, Ensures-if, >>=-Ensures}
use nfc_forum_tags.Type2.Cc.{Bytes4}
use nfc_forum_tags.Type2.Memory.{MemoryLayout, is_skip_area}
use nfc_forum_tags.Type2.Reader.Writer.{Placing, place, fill_page}

module _ (layout : MemoryLayout) (limit_addr page_base offset : ℕ) where
  -- The byte of the page that may be written: from the offset on, below the limit, and usable.
  abbrev pub MayChange : ℕ → Type 0
  MayChange i =
      (offset ≤ i) × (page_base + i < limit_addr) × (is_skip_area layout (page_base + i) ≡ false)

  -- Nothing was placed, or something was and the page has to be written.
  abbrev pub IsKept : {A : Type 0} → A → Placing → A → Placing → Type 0
  IsKept a p a' p' = (p'.1 ≡ true) ⊎ ((a' ≡ a) × (p' ≡ p))

  abbrev IsRound : ℕ → ℕ → Placing → ℕ × Placing → Type 0
  IsRound i slot p r = ((r.0 ≡ slot) ⊎ MayChange i) × IsKept slot p r.0 r.1

  place-IsRound :
      (i slot : ℕ) (p : Placing)
      → Ensures (IsRound i slot p) (place layout limit_addr page_base offset i slot p)
  unfolding place
  place-IsRound i slot ([], touched) = (inl refl, inr (refl, refl))
  place-IsRound i slot (d ∷ ds, touched) =
      Ensures-if _ (ltb i offset) _ _ (λ _. (inl refl, inr (refl, refl)))
        λ o.
          Ensures-if _ (leb limit_addr (page_base + i)) _ _ (λ _. tt)
            λ l.
              Ensures-if _ (is_skip_area layout (page_base + i)) _ _
                (λ _. (inl refl, inr (refl, refl)))
                λ s. (
                  inr (ltb-false→le i offset o, leb-false→lt limit_addr (page_base + i) l, s),
                  inl refl,
                )

  -- A later round keeps the mark of a page that has to be written.
  still : (p p' : Placing) → p' ≡ p → p.1 ≡ true → p'.1 ≡ true
  still p p' e t = ap (λ (x : Placing). x.1) e ∙ t

  four_rounds :
      (p0 p1 p2 p3 q0 q1 q2 q3 : ℕ) (a b c d e : Placing)
      → IsKept p0 a q0 b
      → IsKept p1 b q1 c
      → IsKept p2 c q2 d
      → IsKept p3 d q3 e
      → IsKept {A = Bytes4} (p0, p1, p2, p3) a (q0, q1, q2, q3) e
  four_rounds p0 p1 p2 p3 q0 q1 q2 q3 a b c d e h0 h1 h2 (inl t) = inl t
  four_rounds p0 p1 p2 p3 q0 q1 q2 q3 a b c d e h0 h1 (inl t) (inr k3) = inl (still d e k3.1 t)
  four_rounds p0 p1 p2 p3 q0 q1 q2 q3 a b c d e h0 (inl t) (inr k2) (inr k3) =
      inl (still d e k3.1 (still c d k2.1 t))
  four_rounds p0 p1 p2 p3 q0 q1 q2 q3 a b c d e (inl t) (inr k1) (inr k2) (inr k3) =
      inl (still d e k3.1 (still c d k2.1 (still b c k1.1 t)))
  four_rounds p0 p1 p2 p3 q0 q1 q2 q3 a b c d e (inr k0) (inr k1) (inr k2) (inr k3) =
      inr (rw (k0.0, k1.0, k2.0, k3.0), k3.1 ∙ k2.1 ∙ k1.1 ∙ k0.1)

  -- What the read-modify-write of a page may change.
  abbrev pub IsFilled : Bytes4 → Placing → Bytes4 → Placing → Type 0
  IsFilled (p0, p1, p2, p3) p (q0, q1, q2, q3) p' =
      ((q0 ≡ p0) ⊎ MayChange 0)
      × ((q1 ≡ p1) ⊎ MayChange 1)
      × ((q2 ≡ p2) ⊎ MayChange 2)
      × ((q3 ≡ p3) ⊎ MayChange 3)
      × IsKept {A = Bytes4} (p0, p1, p2, p3) p (q0, q1, q2, q3) p'

  -- Placing data in a page returns. A byte before the offset, at or behind the limit, or in a lock or
  -- reserved area stays as it was read; and a page that is not marked for writing is unchanged, and
  -- no data was taken for it.
  pub fill_page-IsFilled :
      (page : Bytes4) (rest : List ℕ)
      → Ensures
          (λ r. IsFilled page (rest, false) r.0 r.1)
          (fill_page layout limit_addr page_base offset page rest)
  unfolding fill_page
  fill_page-IsFilled (p0, p1, p2, p3) rest =
      >>=-Ensures _ _ (place layout limit_addr page_base offset 0 p0 (rest, false)) _
        (place-IsRound 0 p0 (rest, false))
        λ r0 h0.
          >>=-Ensures _ _ (place layout limit_addr page_base offset 1 p1 r0.1) _
            (place-IsRound 1 p1 r0.1)
            λ r1 h1.
              >>=-Ensures _ _ (place layout limit_addr page_base offset 2 p2 r1.1) _
                (place-IsRound 2 p2 r1.1)
                λ r2 h2.
                  >>=-Ensures _ _ (place layout limit_addr page_base offset 3 p3 r2.1) _
                    (place-IsRound 3 p3 r2.1)
                    λ r3 h3.
                      let kept =
                        four_rounds p0 p1 p2 p3 r0.0 r1.0 r2.0 r3.0 (rest, false) r0.1 r1.1 r2.1
                          r3.1 h0.1 h1.1 h2.1 h3.1 in
                      (h0.0, h1.0, h2.0, h3.0, kept)
