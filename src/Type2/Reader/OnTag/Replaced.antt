-- ===== src/Type2/Reader/OnTag/Replaced.antt =====
-- The usable bytes of a tag after the two writes of a message (src/type2/reader.rs, `write_ndef`).
use nfc_forum_tags.Prelude.{
  ℕ, suc, ◌+◌, ◌-◌, ◌<◌, ◌≡◌, ◌∙◌, refl, sym, ap, arith, false, List, [], ◌∷◌, ◌++◌, append_assoc,
  length, take, drop, take-append, drop-append, All, IsByte,
}
use mathlib.Core.Path.{ap₂}
use nfc_forum_tags.Type2.Geometry.{address_space_end}
use nfc_forum_tags.Type2.Memory.{MemoryLayout, is_skip_area}
use nfc_forum_tags.Type2.Memory.Usable.{usable_count}
use nfc_forum_tags.Type2.TagMemory.{Memory}
use nfc_forum_tags.Type2.Reader.OnTag.DataBytes.{usable_bytes, usable_bytes-add}
use nfc_forum_tags.Type2.Reader.OnTag.Overwrite.{overwrite}
use nfc_forum_tags.Type2.Reader.OnTag.Restored.{
  length-usable_bytes, overwrite_below, overwrite-usable_bytes,
}

-- The beginnings of a list are equal if they are as long.
pub same_front : (xs ys us vs : List ℕ) → xs ++ us ≡ ys ++ vs → length xs ≡ length ys → xs ≡ ys
same_front xs ys us vs e h =
    sym (take-append xs us (length xs) refl)
    ∙ ap (take (length xs)) e
    ∙ take-append ys vs (length xs) h

empty : (xs : List ℕ) → length xs ≡ 0 → xs ≡ []
empty [] h = refl
empty (x ∷ xs) h = absurd (omega (arith, h))

head_of : (x y : ℕ) (xs ys : List ℕ) → x ∷ xs ≡ y ∷ ys → x ≡ y
head_of x y xs ys e = cc

tail_of : (x y : ℕ) (xs ys : List ℕ) → x ∷ xs ≡ y ∷ ys → xs ≡ ys
tail_of x y xs ys e = cc

module _ (layout : MemoryLayout) (na la : ℕ) (usable : is_skip_area layout na ≡ false)
    (order : na < la) (inside : la < address_space_end)
    (next : usable_count layout (na + 1) (la - (na + 1)) ≡ 0) where
  abbrev from : Memory → ℕ → List ℕ
  from m a = usable_bytes layout m a (address_space_end - a)

  first_usable :
      (m : Memory) (k : ℕ)
      → usable_bytes layout m na (suc k) ≡ m na ∷ usable_bytes layout m (na + 1) k
  unfolding usable_bytes
  first_usable m k = rw usable refl

  -- The second usable byte is the next one.
  two_usable : (m : Memory) → from m na ≡ m na ∷ from m la
  two_usable m =
      let one : address_space_end - na ≡ suc (la - (na + 1) + (address_space_end - la)) =
        omega arith in
      let place : na + 1 + (la - (na + 1)) ≡ la = omega arith in
      let none_between : usable_bytes layout m (na + 1) (la - (na + 1)) ≡ [] =
        empty _ (length-usable_bytes layout m (na + 1) (la - (na + 1)) ∙ next) in
      ap (usable_bytes layout m na) one
      ∙ first_usable m (la - (na + 1) + (address_space_end - la))
      ∙ ap (λ l. m na ∷ l)
          (usable_bytes-add layout m (na + 1) (la - (na + 1)) (address_space_end - la)
            ∙ ap₂ (λ l a. l ++ usable_bytes layout m a (address_space_end - la)) none_between place)

-- A tag's memory before and after the two writes of a message, the first byte of which is `x`: the
-- block with a zero length, then the length.
pub record IsRewritten (layout : MemoryLayout) (na la : ℕ) (mem half m : Memory) (x : ℕ)
    (zeros field body : List ℕ) : Type 0 where
  pub usable : is_skip_area layout na ≡ false
  pub order : na < la
  pub inside : la < address_space_end
  pub next : usable_count layout (na + 1) (la - (na + 1)) ≡ 0
  pub first : overwrite layout (address_space_end - na) na (x ∷ (zeros ++ body)) mem ≡ ([], half)
  pub second : overwrite layout (address_space_end - la) la field half ≡ ([], m)
  pub bytes : All IsByte (x ∷ (zeros ++ body))
  pub field_bytes : All IsByte field
  pub size : length field ≡ length zeros

module _ {layout : MemoryLayout} {na la : ℕ} {mem half m : Memory} {x : ℕ}
    {zeros field body : List ℕ} (w : IsRewritten layout na la mem half m x zeros field body) where
  -- What stood behind the block.
  abbrev pub left : List ℕ
  left = drop (length (x ∷ (zeros ++ body))) (usable_bytes layout mem na (address_space_end - na))

  half_bytes :
      half na ∷ usable_bytes layout half la (address_space_end - la) ≡ x ∷ ((zeros ++ body) ++ left)
  half_bytes =
      sym (two_usable layout na la w.usable w.order w.inside w.next half)
      ∙ overwrite-usable_bytes layout (address_space_end - na) na (x ∷ (zeros ++ body)) mem half
          w.bytes w.first

  -- From the block's tag on, there are the length field, the body and what stood behind.
  pub replaced : usable_bytes layout m na (address_space_end - na) ≡ x ∷ (field ++ (body ++ left))
  replaced =
      let same : m na ≡ half na =
        sym (ap (λ (p : List ℕ × Memory). p.1 na) w.second)
        ∙ overwrite_below layout (address_space_end - la) la field half na w.order in
      let behind : drop (length field) (usable_bytes layout half la (address_space_end - la))
          ≡ body ++ left =
        ap (drop (length field)) (tail_of _ _ _ _ half_bytes ∙ append_assoc zeros body left)
        ∙ drop-append zeros (body ++ left) (length field) w.size in
      two_usable layout na la w.usable w.order w.inside w.next m
      ∙ ap₂ (λ y l. y ∷ l) (same ∙ head_of _ _ _ _ half_bytes)
          (overwrite-usable_bytes layout (address_space_end - la) la field half m w.field_bytes
              w.second
            ∙ ap (λ l. field ++ l) behind)

  -- Below the block nothing has changed.
  pub kept_below : (i : ℕ) → i < na → m i ≡ mem i
  kept_below i h =
      sym (ap (λ (p : List ℕ × Memory). p.1 i) w.second)
      ∙ overwrite_below layout (address_space_end - la) la field half i (omega arith)
      ∙ sym (ap (λ (p : List ℕ × Memory). p.1 i) w.first)
      ∙ overwrite_below layout (address_space_end - na) na (x ∷ (zeros ++ body)) mem i h
