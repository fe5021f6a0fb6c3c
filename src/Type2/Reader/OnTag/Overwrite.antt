-- ===== src/Type2/Reader/OnTag/Overwrite.antt =====
-- What writing over the usable bytes stores, as a function of the tag's memory (src/type2/reader.rs,
-- `write_usable_bytes`).
use nfc_forum_tags.Prelude.{
  ℕ, zero, suc, ◌+◌, ◌%◌, ◌<◌, ◌≡◌, ◌⊎◌, ◌∙◌, refl, sym, arith, Bool, true, false, List, [], ◌∷◌,
  ◌==◌, if◌then◌else◌,
}
use mathlib.Core.Path.{fun_ext}
use nfc_forum_tags.Type2.Memory.{MemoryLayout, is_skip_area}
use nfc_forum_tags.Type2.TagMemory.{Memory, store}

-- The memory with one byte stored.
unfoldable pub set : ℕ → ℕ → Memory → Memory
set a x mem i = if i == a then x % 256 else mem i

-- The bytes that are left and the memory, after bytes have been stored at the usable ones of `k`
-- addresses, from an address on, as far as they go.
unfoldable pub overwrite : MemoryLayout → ℕ → ℕ → List ℕ → Memory → List ℕ × Memory
unfolding set
overwrite layout zero a bytes mem = (bytes, mem)
overwrite layout (suc k) a [] mem = ([], mem)
overwrite layout (suc k) a (x ∷ xs) mem = elim (is_skip_area layout a) [
  | true ↦ overwrite layout k (a + 1) (x ∷ xs) mem
  | false ↦ overwrite layout k (a + 1) xs (set a x mem)
]

pub store_sets :
    (a x0 x1 x2 x3 : ℕ) (mem : Memory)
    → store a (x0, x1, x2, x3) mem ≡ set (a + 3) x3 (set (a + 2) x2 (set (a + 1) x1 (set a x0 mem)))
unfolding store set
store_sets a x0 x1 x2 x3 mem = fun_ext λ i. ground arith

-- Storing the byte that is there changes nothing.
pub set_same : (a x : ℕ) (mem : Memory) → x < 256 → mem a ≡ x → set a x mem ≡ mem
unfolding set
set_same a x mem h e = fun_ext λ i. same i (i == a) refl
  where
    same : (i : ℕ) (c : Bool) → (i == a) ≡ c → (if c then x % 256 else mem i) ≡ mem i
    same i true c =
        let here : i ≡ a = ground arith in
        let byte : x % 256 ≡ x = omega arith in rw (byte, here) (sym e)
    same i false c = refl

pub set_other : (a x i : ℕ) (mem : Memory) → (i < a) ⊎ (a < i) → set a x mem i ≡ mem i
unfolding set
set_other a x i mem h = ground arith

module _ (layout : MemoryLayout) where
  pub overwrite-nil : (k a : ℕ) (mem : Memory) → overwrite layout k a [] mem ≡ ([], mem)
  unfolding overwrite
  overwrite-nil zero a mem = refl
  overwrite-nil (suc k) a mem = refl

  -- Two stretches of addresses, one after the other.
  pub overwrite-add :
      (j k a : ℕ) (bytes : List ℕ) (mem : Memory)
      → overwrite layout (j + k) a bytes mem ≡ (
          let (rest, mem') = overwrite layout j a bytes mem in overwrite layout k (a + j) rest mem')
  unfolding overwrite
  overwrite-add zero k a bytes mem =
      let none_yet : 0 + k ≡ k = omega arith in
      let here : a + 0 ≡ a = omega arith in rw (none_yet, here) refl
  overwrite-add (suc j) k a [] mem =
      overwrite-nil (suc j + k) a mem ∙ sym (overwrite-nil k (a + suc j) mem)
  overwrite-add (suc j) k a (x ∷ xs) mem =
      let more : suc j + k ≡ suc (j + k) = omega arith in
      let further : a + suc j ≡ a + 1 + j = omega arith in
      rw (more, further)
        (either (is_skip_area layout a) (overwrite-add j k (a + 1) (x ∷ xs) mem)
          (overwrite-add j k (a + 1) xs (set a x mem)))
    where
      either :
          (c : Bool)
          → overwrite layout (j + k) (a + 1) (x ∷ xs) mem ≡ (
              let (rest, mem') = overwrite layout j (a + 1) (x ∷ xs) mem in
              overwrite layout k (a + 1 + j) rest mem')
          → overwrite layout (j + k) (a + 1) xs (set a x mem) ≡ (
              let (rest, mem') = overwrite layout j (a + 1) xs (set a x mem) in
              overwrite layout k (a + 1 + j) rest mem')
          → (elim c [
            | true ↦ overwrite layout (j + k) (a + 1) (x ∷ xs) mem
            | false ↦ overwrite layout (j + k) (a + 1) xs (set a x mem)
          ])
            ≡ (let first : List ℕ × Memory = elim c [
              | true ↦ overwrite layout j (a + 1) (x ∷ xs) mem
              | false ↦ overwrite layout j (a + 1) xs (set a x mem)
            ] in
                overwrite layout k (a + 1 + j) first.0 first.1)
      either true h g = h
      either false h g = g

  pub overwrite_skipped :
      (a x : ℕ) (xs : List ℕ) (mem : Memory)
      → is_skip_area layout a ≡ true
      → overwrite layout 1 a (x ∷ xs) mem ≡ (x ∷ xs, mem)
  unfolding overwrite
  overwrite_skipped a x xs mem h = ground arith

  pub overwrite_usable :
      (a x : ℕ) (xs : List ℕ) (mem : Memory)
      → is_skip_area layout a ≡ false
      → overwrite layout 1 a (x ∷ xs) mem ≡ (xs, set a x mem)
  unfolding overwrite
  overwrite_usable a x xs mem h = ground arith
