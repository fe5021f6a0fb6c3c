-- ===== src/Type2/Reader/OnTag/Blocks.antt =====
-- The bytes of one block of the data area (src/type2/reader.rs, `read_data_area`).
use nfc_forum_tags.Prelude.{
  ℕ, zero, suc, ◌+◌, ◌-◌, ◌*◌, ◌%◌, ◌≤◌, ◌<◌, ◌≡◌, ◌∙◌, refl, ap, arith, List, ◌∷◌, Option, none,
  some, take, drop, length, ltb, not, if◌then◌else◌,
}
use nfc_forum_tags.Vec.{Build}
use nfc_forum_tags.Type2.Geometry.{max_sector, address_to_sector_block}
use nfc_forum_tags.Type2.Reader.State.{Transceiver, is_known, T2tReader, ◌>>=◌}
use nfc_forum_tags.Type2.Reader.Link.{read}
use nfc_forum_tags.Type2.Reader.DataArea.{blocks_ahead, block_at, block_data, select_if_needed}
use nfc_forum_tags.Type2.Reader.Selection.{is_known-true}
use nfc_forum_tags.Type2.Reader.Triple.{Post-slice, Post, Post-if, Triple, Triple-bind}
use nfc_forum_tags.Type2.TagMemory.{Memory, sector_bytes, four_blocks, IsTag}
use nfc_forum_tags.Type2.Reader.OnTag.Coherent.{IsCoherent, IsCoherentIn}
use nfc_forum_tags.Type2.Reader.OnTag.Selecting.{sector_select-OnTag}
use nfc_forum_tags.Type2.Reader.OnTag.Pages.{length-sector_bytes, read-OnTag, coherent-IsAt}
use nfc_forum_tags.Type2.Reader.OnTag.DataBytes.{bytes_at}

-- The block at an address that starts one.
pub block_address :
    (addr : ℕ) (parts : ℕ × ℕ × ℕ)
    → addr % 4 ≡ 0
    → address_to_sector_block addr ≡ some parts
    → parts.0 * 1024 + parts.1 * 4 ≡ addr
unfolding address_to_sector_block
block_address addr parts h e = ground arith

module _ (mem : Memory) (s : ℕ) where
  take-sector_bytes : (i j k : ℕ) → take j (sector_bytes mem s i (j + k)) ≡ sector_bytes mem s i j
  unfolding sector_bytes
  take-sector_bytes i zero k = refl
  take-sector_bytes i (suc j) k =
      let more : suc j + k ≡ suc (j + k) = omega arith in
      rw more (ap (λ l. mem (s * 1024 + i % 1024) ∷ l) (take-sector_bytes (i + 1) j k))

  drop-sector_bytes :
      (i j k : ℕ) → drop j (sector_bytes mem s i (j + k)) ≡ sector_bytes mem s (i + j) k
  unfolding sector_bytes
  drop-sector_bytes i zero k =
      let none_yet : 0 + k ≡ k = omega arith in
      let here : i + 0 ≡ i = omega arith in rw (none_yet, here) refl
  drop-sector_bytes i (suc j) k =
      let more : suc j + k ≡ suc (j + k) = omega arith in
      let further : i + suc j ≡ i + 1 + j = omega arith in
      rw (more, further) (drop-sector_bytes (i + 1) j k)

  -- Bytes that do not run over the end of the sector.
  sector_bytes-bytes_at :
      (i k : ℕ)
      → i % 1024 + k ≤ 1024
      → sector_bytes mem s i k ≡ bytes_at mem (s * 1024 + i % 1024) k
  unfolding sector_bytes bytes_at
  sector_bytes-bytes_at i zero h = refl
  sector_bytes-bytes_at i (suc zero) h = refl
  sector_bytes-bytes_at i (suc (suc k)) h =
      let next : s * 1024 + i % 1024 + 1 ≡ s * 1024 + (i + 1) % 1024 = omega arith in
      rw next (
        ap (λ l. mem (s * 1024 + i % 1024) ∷ l)
          (sector_bytes-bytes_at (i + 1) (suc k) (omega arith)))

  -- One of the four blocks of a READ, at the sector's end too.
  one_of_four :
      (cb ahead block : ℕ)
      → cb < 256
      → block < 256
      → ahead < 4
      → ahead ≡ (block + 256 - cb) % 256
      → take 4 (drop (ahead * 4) (four_blocks mem s cb)) ≡ bytes_at mem (s * 1024 + block * 4) 4
  one_of_four cb ahead block hc hb ha e =
      let whole : 16 ≡ ahead * 4 + (4 + (12 - ahead * 4)) = omega arith in
      let place : (cb * 4 + ahead * 4) % 1024 ≡ block * 4 = omega arith in
      ap (λ k. take 4 (drop (ahead * 4) (sector_bytes mem s (cb * 4) k))) whole
      ∙ ap (take 4) (drop-sector_bytes (cb * 4) (ahead * 4) (4 + (12 - ahead * 4)))
      ∙ take-sector_bytes (cb * 4 + ahead * 4) 4 (12 - ahead * 4)
      ∙ sector_bytes-bytes_at (cb * 4 + ahead * 4) 4 (omega arith)
      ∙ ap (λ i. bytes_at mem (s * 1024 + i) 4) place

module _ {t : Transceiver} (b : Build) (tag : IsTag t) (mem : Memory) where
  open t use {Device, Error}

  abbrev Is : Memory → Type 0
  Is m = m ≡ mem

  pub select_if_needed-OnTag :
      (s : ℕ)
      → s ≤ max_sector
      → Triple
          (IsCoherent tag Is)
          (IsCoherent tag Is)
          (select_if_needed t b s)
          (λ _. IsCoherentIn tag s Is)
  unfolding select_if_needed
  select_if_needed-OnTag s h = record {
    run = λ r v.
        Post-if (IsCoherent tag Is) (λ _. IsCoherentIn tag s Is) (not (is_known r.sector s)) _ _
          (λ _. (sector_select-OnTag b tag Is s h).run r v)
          (λ e. (v, is_known-true r.sector s (ground (arith, e))));
  }

  abbrev IsBlockAt : ℕ → ℕ → List ℕ → T2tReader Device → Type 0
  IsBlockAt s block bytes r =
      IsCoherentIn tag s Is r × (bytes ≡ bytes_at mem (s * 1024 + block * 4) 4)

  ahead_of :
      (block : ℕ) (c : Option ℕ) (ahead : ℕ)
      → (elim c [
        | none ↦ none
        | some cb ↦ let ahead = (block + 256 - cb) % 256 in if ltb ahead 4 then some ahead else none
      ])
        ≡ some ahead
      → (cb : ℕ) × (c ≡ some cb) × (ahead < 4) × (ahead ≡ (block + 256 - cb) % 256)
  ahead_of block none ahead e = absurd (cc)
  ahead_of block (some cb) ahead e = (cb, refl, ground arith, ground arith)

  pub block_data-OnTag :
      (s block : ℕ)
      → block < 256
      → Triple
          (IsCoherent tag Is)
          (IsCoherentIn tag s Is)
          (block_data t b block)
          (IsBlockAt s block)
  unfolding block_data blocks_ahead
  block_data-OnTag s block l = record { run = λ r v. from r v (blocks_ahead t b r block) refl }
    where
      from :
          (r : T2tReader Device)
          → IsCoherentIn tag s Is r
          → (o : Option ℕ) → blocks_ahead t b r block ≡ o
          → Post {D = Device} {E = Error} (IsCoherent tag Is) (IsBlockAt s block) (elim o [
            | some ahead ↦ block_at t b r.cache_data (ahead * 4) r
            | none ↦ (do bytes ← read t b block; block_at t b bytes 0) r
          ])
      from r v none e =
          (Triple-bind (read-OnTag b tag mem s block l) λ bytes. record {
            run = λ r q.
                Post-slice Error (IsCoherent tag Is) (IsBlockAt s block) bytes 0 4 r
                  (omega (arith, ap length q.1, length-sector_bytes mem s (block * 4) 16))
                  (
                    q.0,
                    ap (take 4) q.1
                        ∙ one_of_four mem s block 0 block l l (omega arith) (omega arith),
                  );
          }).run
            r v
      from r v (some ahead) e =
          let a = ahead_of block r.cache_block ahead e in
          let copy = (coherent-IsAt b tag mem s r v).cache a.0 a.1 in
          Post-slice Error (IsCoherent tag Is) (IsBlockAt s block) r.cache_data (ahead * 4) 4 r
            (omega (arith, a.2, v.0.valid.cached))
            (
              v,
              ap (λ l. take 4 (drop (ahead * 4) l)) copy.1
                  ∙ one_of_four mem s a.0 ahead block copy.0 l a.2 a.3,
            )
