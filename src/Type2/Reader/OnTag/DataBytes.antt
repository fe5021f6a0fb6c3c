-- ===== src/Type2/Reader/OnTag/DataBytes.antt =====
-- What reading the data area answers, as a function of the tag's memory (src/type2/reader.rs,
-- `read_data_area`), and the bytes of one block.
use nfc_forum_tags.Prelude.{
  ℕ, zero, suc, ◌+◌, ◌-◌, ◌≤◌, ◌<◌, ◌≡◌, ◌∙◌, refl, sym, ap, arith, Bool, true, false, List, [],
  ◌∷◌, ◌++◌, append_assoc, append-nil, length, leb, leb→le, leb-false→lt, if◌then◌else◌,
}
use nfc_forum_tags.Outcome.{
  Outcome, ok, err, map_err, Ensures, >>=-Ensures, map_err-Ensures, Ensures-if, Ensures-weaken,
}
use nfc_forum_tags.Outcome
use nfc_forum_tags.Vec.{Build, data_capacity, try_push, try_push_lem, fits, buffer_full_error}
use nfc_forum_tags.Type2.Error.{Type2Error, from_full}
use nfc_forum_tags.Type2.Memory.{MemoryLayout, is_skip_area}
use nfc_forum_tags.Type2.Scanner.{TlvScanState, feed}
use nfc_forum_tags.Type2.Reader.DataArea.{Progress, take_byte, process_bytes}
use nfc_forum_tags.Type2.TagMemory.{Memory}

-- The bytes at the usable ones of `k` addresses, from an address on.
unfoldable pub usable_bytes : MemoryLayout → Memory → ℕ → ℕ → List ℕ
usable_bytes layout mem a zero = []
usable_bytes layout mem a (suc k) =
    let rest = usable_bytes layout mem (a + 1) k in
    if is_skip_area layout a then rest else mem a ∷ rest

-- The bytes up to the one at which the scanner finds the Terminator, and at most `room` of them.
unfoldable pub until_terminator : ℕ → TlvScanState → List ℕ → List ℕ
until_terminator zero scan xs = []
until_terminator (suc room) scan [] = []
until_terminator (suc room) scan (x ∷ xs) =
    let rest = until_terminator room (feed scan x).1 xs in
    x ∷ (if (feed scan x).0 then [] else rest)

-- All bytes at `k` addresses.
unfoldable pub bytes_at : Memory → ℕ → ℕ → List ℕ
bytes_at mem a zero = []
bytes_at mem a (suc k) = mem a ∷ bytes_at mem (a + 1) k

-- A byte kept or left out, before what follows.
if-append :
    (c : Bool) (x : ℕ) (xs ys : List ℕ)
    → (if c then xs ++ ys else x ∷ (xs ++ ys)) ≡ (if c then xs else x ∷ xs) ++ ys
if-append true x xs ys = refl
if-append false x xs ys = refl

pub usable_bytes-add :
    (layout : MemoryLayout) (mem : Memory) (a j k : ℕ)
    → usable_bytes layout mem a (j + k)
      ≡ usable_bytes layout mem a j ++ usable_bytes layout mem (a + j) k
unfolding usable_bytes
usable_bytes-add layout mem a zero k =
    let none_yet : 0 + k ≡ k = omega arith in
    let here : a + 0 ≡ a = omega arith in rw (none_yet, here) refl
usable_bytes-add layout mem a (suc j) k =
    let more : suc j + k ≡ suc (j + k) = omega arith in
    let further : a + suc j ≡ a + 1 + j = omega arith in
    rw (more, further)
      (ap (λ l. if is_skip_area layout a then l else mem a ∷ l)
          (usable_bytes-add layout mem (a + 1) j k)
        ∙ if-append (is_skip_area layout a) (mem a) (usable_bytes layout mem (a + 1) j) _)

module _ (b : Build) (layout : MemoryLayout) where
  -- What will have been read when the bytes `xs` are still to come.
  abbrev pub total : Progress → List ℕ → List ℕ
  total p xs = p.result ++ until_terminator (layout.data_area_size - p.bytes_read) p.tlv_scan xs

  pub full-total :
      (p : Progress) (xs : List ℕ) → layout.data_area_size ≤ p.bytes_read → p.result ≡ total p xs
  unfolding until_terminator
  full-total p xs h =
      let no_room : layout.data_area_size - p.bytes_read ≡ 0 = omega arith in
      rw no_room (sym (append-nil p.result))

  -- Where the loop over the usable bytes `us` ends: with the whole result, or further on.
  abbrev pub GoesOn : Progress → List ℕ → Bool → Progress → Type 0
  GoesOn p us true p' = (xs : List ℕ) → p'.result ≡ total p (us ++ xs)
  GoesOn p us false p' = (xs : List ℕ) → total p' xs ≡ total p (us ++ xs)

  one_byte :
      (byte : ℕ) (p : Progress) (found : Bool) (scan : TlvScanState) (result : List ℕ)
      → p.bytes_read < layout.data_area_size
      → (feed p.tlv_scan byte).0 ≡ found
      → (feed p.tlv_scan byte).1 ≡ scan
      → result ≡ p.result ++ byte ∷ []
      → GoesOn p
          (byte ∷ [])
          found
          (record { result = result; bytes_read = p.bytes_read + 1; tlv_scan = scan })
  unfolding until_terminator
  one_byte byte p true scan result l f g e = λ xs.
      let room : layout.data_area_size - p.bytes_read
          ≡ suc (layout.data_area_size - (p.bytes_read + 1)) =
        omega arith in
      rw (room, f) e
  one_byte byte p false scan result l f g e = λ xs.
      let room : layout.data_area_size - p.bytes_read
          ≡ suc (layout.data_area_size - (p.bytes_read + 1)) =
        omega arith in
      rw (room, f, g, e) (append_assoc p.result (byte ∷ []) _)

  take_byte-GoesOn :
      (byte : ℕ) (p : Progress)
      → p.bytes_read < layout.data_area_size
      → Ensures (λ r. GoesOn p (byte ∷ []) r.0 r.1) (take_byte b layout byte p)
  unfolding take_byte
  take_byte-GoesOn byte p l =
      >>=-Ensures (λ result. result ≡ p.result ++ byte ∷ []) (λ r. GoesOn p (byte ∷ []) r.0 r.1)
        (map_err from_full (try_push b data_capacity p.result byte)) _
        (map_err-Ensures _ from_full (try_push b data_capacity p.result byte) (
          rw (try_push_lem b data_capacity p.result byte) (
            Ensures-if _ (fits b data_capacity (length p.result + 1)) (ok (p.result ++ byte ∷ []))
              (err buffer_full_error) (λ _. refl) (λ _. tt))))
        λ result e. one_byte byte p _ _ result l refl refl e

  -- One byte, then more of them.
  GoesOn-cons :
      (p q : Progress) (x : ℕ) (us : List ℕ) (done : Bool) (p' : Progress)
      → GoesOn p (x ∷ []) false q
      → GoesOn q us done p'
      → GoesOn p (x ∷ us) done p'
  GoesOn-cons p q x us true p' h k = λ xs. k xs ∙ h (us ++ xs)
  GoesOn-cons p q x us false p' h k = λ xs. k xs ∙ h (us ++ xs)

  found-GoesOn :
      (p q : Progress) (x : ℕ) (us : List ℕ) → GoesOn p (x ∷ []) true q → GoesOn p (x ∷ us) true q
  found-GoesOn p q x us h = λ xs. h (us ++ xs)

  -- The bytes of a block, usable or not.
  pub process_bytes-GoesOn :
      (mem : Memory) (k addr : ℕ) (p : Progress)
      → Ensures
          (λ r. GoesOn p (usable_bytes layout mem addr k) r.0 r.1)
          (process_bytes b layout (bytes_at mem addr k) addr p)
  unfolding process_bytes usable_bytes bytes_at
  process_bytes-GoesOn mem zero addr p = λ xs. refl
  process_bytes-GoesOn mem (suc k) addr p =
      kept (is_skip_area layout addr) (λ p. process_bytes-GoesOn mem k (addr + 1) p)
    where
      us : List ℕ
      us = usable_bytes layout mem (addr + 1) k

      after : Progress → Outcome Type2Error (Bool × Progress)
      after p = process_bytes b layout (bytes_at mem (addr + 1) k) (addr + 1) p

      next :
          (r : Bool × Progress)
          → GoesOn p (mem addr ∷ []) r.0 r.1
          → ((p : Progress) → Ensures (λ r. GoesOn p us r.0 r.1) (after p))
          → Ensures
              (λ r. GoesOn p (mem addr ∷ us) r.0 r.1)
              (elim r.0 [ true ↦ ok (true, r.1) | false ↦ after r.1 ])
      next (true, q) h rest = found-GoesOn p q (mem addr) us h
      next (false, q) h rest =
          Ensures-weaken (λ r. GoesOn q us r.0 r.1) (λ r. GoesOn p (mem addr ∷ us) r.0 r.1)
            (after q) (rest q) λ r k. GoesOn-cons p q (mem addr) us r.0 r.1 h k

      room :
          (c : Bool)
          → leb layout.data_area_size p.bytes_read ≡ c
          → ((p : Progress) → Ensures (λ r. GoesOn p us r.0 r.1) (after p))
          → Ensures
              (λ r. GoesOn p (mem addr ∷ us) r.0 r.1)
              (elim c [
                | true ↦ ok (true, p)
                | false ↦
                    Outcome.◌>>=◌
                      (take_byte b layout (mem addr) p)
                      λ r. elim r.0 [ true ↦ ok (true, r.1) | false ↦ after r.1 ]
              ])
      room true e rest =
          λ xs. full-total p ((mem addr ∷ us) ++ xs) (leb→le layout.data_area_size p.bytes_read e)
      room false e rest =
          >>=-Ensures (λ r. GoesOn p (mem addr ∷ []) r.0 r.1) _ (take_byte b layout (mem addr) p) _
            (take_byte-GoesOn (mem addr) p (leb-false→lt layout.data_area_size p.bytes_read e))
            λ r h. next r h rest

      kept :
          (c : Bool)
          → ((p : Progress) → Ensures (λ r. GoesOn p us r.0 r.1) (after p))
          → Ensures
              (λ r. GoesOn p (if c then us else mem addr ∷ us) r.0 r.1)
              (elim c [
                | true ↦ after p
                | false ↦ elim (leb layout.data_area_size p.bytes_read) [
                  | true ↦ ok (true, p)
                  | false ↦
                      Outcome.◌>>=◌
                        (take_byte b layout (mem addr) p)
                        λ r. elim r.0 [ true ↦ ok (true, r.1) | false ↦ after r.1 ]
                ]
              ])
      kept true rest = rest p
      kept false rest = room (leb layout.data_area_size p.bytes_read) refl rest
