-- ===== src/Type2/Reader/OnTag/Restored.antt =====
-- The usable bytes of a memory that has been written over, and the part of them that is read
-- (src/type2/reader.rs, `write_usable_bytes` and `read_data_area`).
use nfc_forum_tags.Prelude.{
  ℕ, zero, suc, ◌+◌, ◌≤◌, ◌<◌, ◌≡◌, inl, inr, ◌∙◌, refl, sym, ap, arith, Bool, true, false, List,
  [], ◌∷◌, ◌++◌, length, some, take, drop, All, IsByte, if◌then◌else◌,
}
use mathlib.Core.Path.{ap₂}
use nfc_forum_tags.Type2.Memory.{MemoryLayout, is_skip_area}
use nfc_forum_tags.Type2.Memory.Usable.{usable_count}
use nfc_forum_tags.Type2.Scanner.{TlvScanState, feed}
use nfc_forum_tags.Type2.Scanner.Boundaries.{terminator_position, position_answer, one_more-some}
use mathlib.Core.Option.{some-injective}
use nfc_forum_tags.Type2.TagMemory.{Memory}
use nfc_forum_tags.Type2.Reader.OnTag.DataBytes.{usable_bytes, until_terminator}
use nfc_forum_tags.Type2.Reader.OnTag.Overwrite.{set, overwrite, set_other}

module _ (layout : MemoryLayout) where
  pub length-usable_bytes :
      (mem : Memory) (a k : ℕ) → length (usable_bytes layout mem a k) ≡ usable_count layout a k
  unfolding usable_bytes usable_count
  length-usable_bytes mem a zero = refl
  length-usable_bytes mem a (suc k) =
      either (is_skip_area layout a) (length-usable_bytes mem (a + 1) k)
    where
      either :
          (c : Bool) {n : ℕ}
          → length (usable_bytes layout mem (a + 1) k) ≡ n
          → length (
              if c
              then usable_bytes layout mem (a + 1) k
              else mem a ∷ usable_bytes layout mem (a + 1) k)
            ≡ (if c then 0 else 1) + n
      either true e = omega (arith, e)
      either false e = omega (arith, e)

  -- Memories that agree at the addresses have the same usable bytes there.
  pub usable_bytes-cong :
      (m m' : Memory) (a k : ℕ)
      → ((i : ℕ) → a ≤ i → i < a + k → m i ≡ m' i)
      → usable_bytes layout m a k ≡ usable_bytes layout m' a k
  unfolding usable_bytes
  usable_bytes-cong m m' a zero h = refl
  usable_bytes-cong m m' a (suc k) h =
      ap₂ (λ x rest. if is_skip_area layout a then rest else x ∷ rest)
        (h a (omega arith) (omega arith))
        (usable_bytes-cong m m' (a + 1) k λ i l u. h i (omega arith) (omega arith))

  -- Writing from an address on leaves what is below it.
  pub overwrite_below :
      (k a : ℕ) (bytes : List ℕ) (mem : Memory) (i : ℕ)
      → i < a
      → (overwrite layout k a bytes mem).1 i ≡ mem i
  unfolding overwrite
  overwrite_below zero a bytes mem i h = refl
  overwrite_below (suc k) a [] mem i h = refl
  overwrite_below (suc k) a (x ∷ xs) mem i h =
      either (is_skip_area layout a) _ _ (overwrite_below k (a + 1) (x ∷ xs) mem i (omega arith))
        (overwrite_below k (a + 1) xs (set a x mem) i (omega arith) ∙ set_other a x i mem (inl h))
    where
      either :
          (c : Bool) (p q : List ℕ × Memory)
          → p.1 i ≡ mem i
          → q.1 i ≡ mem i
          → (let r : List ℕ × Memory = elim c [ true ↦ p | false ↦ q ] in r.1 i) ≡ mem i
      either true p q hp hq = hp
      either false p q hp hq = hq

  set_here : (a x : ℕ) (mem : Memory) → x < 256 → set a x mem a ≡ x
  unfolding set
  set_here a x mem h = ground arith

  -- The bytes that were written stand before what is left of the usable bytes.
  pub overwrite-usable_bytes :
      (k a : ℕ) (bytes : List ℕ) (mem m : Memory)
      → All IsByte bytes
      → overwrite layout k a bytes mem ≡ ([], m)
      → usable_bytes layout m a k ≡ bytes ++ drop (length bytes) (usable_bytes layout mem a k)
  unfolding overwrite usable_bytes
  overwrite-usable_bytes zero a [] mem m h e = refl
  overwrite-usable_bytes zero a (x ∷ xs) mem m h e =
      absurd (no_cons (ap (λ (p : List ℕ × Memory). p.0) e))
    where
      no_cons : ◌≡◌ {A = List ℕ} (x ∷ xs) [] → ⊥
      no_cons e = cc
  overwrite-usable_bytes (suc k) a [] mem m h e =
      ap (λ (p : List ℕ × Memory). usable_bytes layout p.1 a (suc k)) (sym e)
  overwrite-usable_bytes (suc k) a (x ∷ xs) mem m h e =
      either (is_skip_area layout a) (λ f. overwrite-usable_bytes k (a + 1) (x ∷ xs) mem m h f)
        (λ f. overwrite-usable_bytes k (a + 1) xs (set a x mem) m h.1 f) e
    where
      later : Memory → List ℕ
      later x = usable_bytes layout x (a + 1) k

      here : overwrite layout k (a + 1) xs (set a x mem) ≡ ([], m) → m a ≡ x
      here f =
          sym (ap (λ (p : List ℕ × Memory). p.1 a) f)
          ∙ overwrite_below k (a + 1) xs (set a x mem) a (omega arith)
          ∙ set_here a x mem h.0

      others : later (set a x mem) ≡ later mem
      others =
          usable_bytes-cong (set a x mem) mem (a + 1) k
            λ i l u. set_other a x i mem (inr (omega arith))

      either :
          (c : Bool)
          → (overwrite layout k (a + 1) (x ∷ xs) mem ≡ ([], m)
              → later m ≡ x ∷ (xs ++ drop (suc (length xs)) (later mem)))
          → (overwrite layout k (a + 1) xs (set a x mem) ≡ ([], m)
              → later m ≡ xs ++ drop (length xs) (later (set a x mem)))
          → ◌≡◌ {A = List ℕ × Memory}
              (elim c [
                | true ↦ overwrite layout k (a + 1) (x ∷ xs) mem
                | false ↦ overwrite layout k (a + 1) xs (set a x mem)
              ])
              ([], m)
          → (if c then later m else m a ∷ later m)
            ≡ x ∷ (xs ++ drop (suc (length xs)) (if c then later mem else mem a ∷ later mem))
      either true p q f = p f
      either false p q f =
          ap₂ (λ y rest. y ∷ rest) (here f) (q f ∙ ap (λ l. xs ++ drop (length xs) l) others)

-- What is read is the beginning of the usable bytes.
pub until_terminator-prefix :
    (room : ℕ) (scan : TlvScanState) (xs : List ℕ)
    → (ys : List ℕ) × (xs ≡ until_terminator room scan xs ++ ys)
unfolding until_terminator
until_terminator-prefix zero scan xs = (xs, refl)
until_terminator-prefix (suc room) scan [] = ([], refl)
until_terminator-prefix (suc room) scan (x ∷ xs) =
    either (feed scan x).0 (until_terminator-prefix room (feed scan x).1 xs)
  where
    either :
        (c : Bool)
        → (ys : List ℕ) × (xs ≡ until_terminator room (feed scan x).1 xs ++ ys)
        → (ys : List ℕ) × (x ∷ xs
            ≡ (x ∷ (if c then [] else until_terminator room (feed scan x).1 xs)) ++ ys)
    either true p = (xs, refl)
    either false p = (p.0, ap (λ l. x ∷ l) p.1)

-- If the scanner finds the Terminator in the room, what is read ends with it.
pub until_terminator-position :
    (room : ℕ) (scan : TlvScanState) (xs : List ℕ) (n : ℕ)
    → terminator_position scan xs ≡ some n
    → n < room
    → until_terminator room scan xs ≡ take (n + 1) xs
unfolding until_terminator terminator_position
until_terminator-position zero scan xs n e h = absurd (omega arith)
until_terminator-position (suc room) scan [] n e h = absurd (cc)
until_terminator-position (suc room) scan (x ∷ xs) n e h =
    either (feed scan x).0 (feed scan x).1 n h
      (λ m. until_terminator-position room (feed scan x).1 xs m) e
  where
    either :
        (c : Bool) (s : TlvScanState) (n : ℕ)
        → n < suc room
        → ((m : ℕ)
            → terminator_position s xs ≡ some m
            → m < room
            → until_terminator room s xs ≡ take (m + 1) xs)
        → position_answer (c, s) (λ s'. terminator_position s' xs) ≡ some n
        → x ∷ (if c then [] else until_terminator room s xs) ≡ take (n + 1) (x ∷ xs)
    either true s n h f e =
        let zero_bytes : n ≡ 0 = sym (some-injective 0 n e) in rw zero_bytes refl
    either false s n h f e =
        let (m, found, next) = one_more-some (terminator_position s xs) n e in
        let count : n + 1 ≡ suc (m + 1) = omega (arith, next) in
        rw count (ap (λ l. x ∷ l) (f m found (omega (arith, next))))
