-- ===== src/Type2/Reader/Reading.antt =====
-- The loop over the blocks of the data area (src/type2/reader.rs, `read_data_area`).
use nfc_forum_tags.Type2.Reader.Exchange.{AnswersBytes}
use nfc_forum_tags.Type2.Reader.Selection.{is_known-true, sector_select-Triple}
use nfc_forum_tags.Type2.Reader.Pages.{read-Triple}
use nfc_forum_tags.Type2.Reader.Valid.{IsValid, IsIn, IsDataArea}
use nfc_forum_tags.Prelude.{
  ◌-◌, ◌%◌, ltb, if◌then◌else◌, ℕ, zero, suc, ◌+◌, ◌*◌, ◌≤◌, ◌<◌, ◌≡◌, refl, Bool, true, false,
  List, [], ◌∷◌, length, Option, none, some, arith, ltb, leb, All, IsByte, All-take, All-drop,
  All-append, length-append, ◌++◌, not, leb-false→lt,
}
use nfc_forum_tags.Outcome.{
  >>=-Ensures, Outcome, ok, err, panic, stuck, Ensures, Returns, map_err, map_err-Ensures, index,
  index-Ensures, Ensures-cases, Ensures-if, Ensures-elim, Ensures-Returns,
}
use nfc_forum_tags.Outcome
use nfc_forum_tags.Vec.{Build, data_capacity, try_push, try_push_lem, fits, buffer_full_error}
use nfc_forum_tags.Type2.Error.{out_of_range, from_full}
use nfc_forum_tags.Type2.Geometry.{
  max_sector, address_space_end, address_roundtrip, address_to_sector_block,
}
use nfc_forum_tags.Type2.Memory.{MemoryLayout, is_skip_area}
use nfc_forum_tags.Type2.Reader.State.{Transceiver, SectorState, known, is_known, T2tReader, ◌>>=◌}
use nfc_forum_tags.Type2.Reader.Link.{read}
use nfc_forum_tags.Type2.Reader.DataArea.{
  Progress, started, take_byte, process_bytes, blocks_ahead, block_at, block_data, select_if_needed,
  read_loop, read_data_area,
}
use nfc_forum_tags.Type2.Reader.Triple.{
  Post-slice, Post, Post-if, Triple, Triple-weaken, Triple-pure, Triple-lift, Triple-or_raise,
  Triple-bind, Triple-given, Triple-choose, Triple-elim,
}

module _ (b : Build) (layout : MemoryLayout) where
  -- What is read so far is made of bytes, counted, and no longer than the data area.
  pub record IsRead (p : Progress) : Type 0 where
    pub are_bytes : All IsByte p.result
    pub counted : length p.result ≡ p.bytes_read
    pub bounded : p.bytes_read ≤ layout.data_area_size

  take_byte_lem :
      (byte : ℕ) (p : Progress)
      → IsByte byte
      → IsRead p
      → p.bytes_read < layout.data_area_size
      → Ensures (λ r. IsRead r.1) (take_byte b layout byte p)
  unfolding take_byte
  take_byte_lem byte p h r l =
      >>=-Ensures (λ result. All IsByte result × (length result ≡ length p.result + 1))
        (λ r. IsRead r.1) (map_err from_full (try_push b data_capacity p.result byte)) _
        (map_err-Ensures _ from_full (try_push b data_capacity p.result byte) (
          rw (try_push_lem b data_capacity p.result byte) (
            Ensures-if _ (fits b data_capacity (length p.result + 1)) (ok (p.result ++ byte ∷ []))
              (err buffer_full_error)
              (λ _. (
                All-append IsByte p.result (byte ∷ []) r.are_bytes (h, tt),
                length-append p.result (byte ∷ []),
              ))
              (λ _. tt))))
        λ result q. record {
          are_bytes = q.0;
          counted = omega (arith, q.1, r.counted);
          bounded = omega arith;
        }

  process_bytes_lem :
      (bytes : List ℕ) (addr : ℕ) (p : Progress)
      → All IsByte bytes
      → IsRead p
      → Ensures (λ r. IsRead r.1) (process_bytes b layout bytes addr p)
  unfolding process_bytes
  process_bytes_lem [] addr p h r = r
  process_bytes_lem (x ∷ bytes) addr p h r =
      Ensures-elim (λ r. IsRead r.1) (is_skip_area layout addr) _ _
        (process_bytes_lem bytes (addr + 1) p h.1 r)
        (full (process_bytes_lem bytes (addr + 1)) (leb layout.data_area_size p.bytes_read) refl)
    where
      full :
          ((p : Progress)
            → All IsByte bytes
            → IsRead p
            → Ensures (λ r. IsRead r.1) (process_bytes b layout bytes (addr + 1) p))
          → (c : Bool) → leb layout.data_area_size p.bytes_read ≡ c
          → Ensures
              (λ r. IsRead r.1)
              (elim c [
                | true ↦ ok (true, p)
                | false ↦ Outcome.◌>>=◌ (take_byte b layout x p) λ r. elim r.0 [
                  | true ↦ ok (true, r.1)
                  | false ↦ process_bytes b layout bytes (addr + 1) r.1
                ]
              ])
      full next true e = r
      full next false e =
          >>=-Ensures (λ r. IsRead r.1) (λ r. IsRead r.1) (take_byte b layout x p) _
            (take_byte_lem x p h.0 r (leb-false→lt layout.data_area_size p.bytes_read e))
            λ r' q. Ensures-elim (λ r. IsRead r.1) r'.0 _ _ q (next r'.1 h.1 q)

module _ (t : Transceiver) (b : Build) (answers : AnswersBytes t) where
  open t use {Device, Error}

  select_if_needed-Triple :
      (sector : ℕ)
      → sector ≤ max_sector
      → Triple IsValid IsValid (select_if_needed t b sector) (λ _ r. IsIn (known sector) r)
  unfolding select_if_needed
  select_if_needed-Triple sector h = record {
    run = λ r v.
        Post-if IsValid (λ _. IsIn (known sector)) (not (is_known r.sector sector)) _ _
          (λ _. (sector_select-Triple t b answers sector h).run r v)
          (λ e. (v, is_known-true r.sector sector (ground (arith, e))));
  }

  -- A block is taken from the cache only if the cache holds its four bytes.
  blocks_ahead-bound :
      (c : Option ℕ) (block ahead : ℕ)
      → (elim c [
        | none ↦ none
        | some cb ↦ let ahead = (block + 256 - cb) % 256 in if ltb ahead 4 then some ahead else none
      ])
        ≡ some ahead
      → ahead < 4
  blocks_ahead-bound none block ahead e = absurd (cc)
  blocks_ahead-bound (some cb) block ahead e = ground arith

  block_data-Triple :
      (s : SectorState) (block : ℕ)
      → Triple IsValid (IsIn s) (block_data t b block) (λ bytes r. IsIn s r × All IsByte bytes)
  unfolding block_data blocks_ahead
  block_data-Triple s block = record { run = λ r v. from r v (blocks_ahead t b r block) refl }
    where
      Bytes : List ℕ → T2tReader Device → Type 0
      Bytes bytes r = IsIn s r × All IsByte bytes

      from :
          (r : T2tReader Device)
          → IsIn s r
          → (o : Option ℕ) → blocks_ahead t b r block ≡ o
          → Post {D = Device} {E = Error} IsValid Bytes (elim o [
            | some ahead ↦ block_at t b r.cache_data (ahead * 4) r
            | none ↦ (do bytes ← read t b block; block_at t b bytes 0) r
          ])
      from r v none e =
          (Triple-bind (read-Triple t b answers s block) λ bytes. record {
            run = λ r q.
                Post-slice Error IsValid Bytes bytes 0 4 r (omega (arith, q.1.size))
                  (q.0, All-take IsByte 4 bytes q.1.bytes);
          }).run
            r v
      from r v (some ahead) e =
          let near = blocks_ahead-bound r.cache_block block ahead e in
          Post-slice Error IsValid Bytes r.cache_data (ahead * 4) 4 r
            (omega (arith, near, v.0.cached))
            (v, All-take IsByte 4 _ (All-drop IsByte (ahead * 4) r.cache_data v.0.bytes))

  finished : (layout : MemoryLayout) (p : Progress) → IsRead b layout p → IsDataArea layout p.result
  finished layout p q = (q.are_bytes, omega (arith, q.counted, q.bounded))

  read_loop-Triple :
      (fuel : ℕ) (layout : MemoryLayout) (addr : ℕ) (p : Progress)
      → IsRead b layout p
      → addr < address_space_end + 4
      → address_space_end + 4 ≤ addr + 4 * fuel
      → Triple IsValid IsValid
          (read_loop t b fuel layout addr p)
          (λ data_area r. IsValid r × IsDataArea layout data_area)
  unfolding read_loop
  read_loop-Triple zero layout addr p q l f = absurd (omega arith)
  read_loop-Triple (suc fuel) layout addr p q l f =
      Triple-elim (ltb p.bytes_read layout.data_area_size)
        (λ _.
          Triple-bind
            (Triple-or_raise IsValid (address_to_sector_block addr) out_of_range (λ r v. v))
            λ parts. Triple-given {X = address_to_sector_block addr ≡ some parts} λ e.
              let split = address_roundtrip addr parts.0 parts.1 parts.2 e in
              Triple-bind (select_if_needed-Triple parts.0 split.1) λ _.
                Triple-bind (block_data-Triple (known parts.0) parts.1) λ bytes.
                  Triple-given {X = All IsByte bytes} λ are_bytes.
                    Triple-bind
                      (Triple-lift (IsIn (known parts.0)) (process_bytes b layout bytes addr p)
                        (λ r. IsRead b layout r.1) (λ r v. v.0)
                        (process_bytes_lem b layout bytes addr p are_bytes q))
                      λ done. Triple-given {X = IsRead b layout done.1} λ q'.
                        Triple-choose done.0
                          (Triple-pure _ done.1.result _ λ r v. (v.0, finished layout done.1 q'))
                          (Triple-weaken (λ r v. v.0) (λ _ _ z. z) (λ _ z. z)
                            (read_loop-Triple fuel layout (addr + 4) done.1 q'
                              (omega (arith, split.0)) (omega arith))))
        (λ _. Triple-pure IsValid p.result _ λ r v. (v, finished layout p q))

  -- Reading the data area ends, with bytes and no more of them than the layout says.
  pub read_data_area-Triple :
      (layout : MemoryLayout)
      → Triple IsValid IsValid
          (read_data_area t b layout)
          (λ data_area r. IsValid r × IsDataArea layout data_area)
  unfolding read_data_area
  read_data_area-Triple layout =
      read_loop-Triple 65280 layout 16 started
        (record { are_bytes = tt; counted = refl; bounded = omega arith }) (omega arith)
        (omega arith)
