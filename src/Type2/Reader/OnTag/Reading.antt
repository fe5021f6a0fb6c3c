-- ===== src/Type2/Reader/OnTag/Reading.antt =====
-- Reading the data area of a tag (src/type2/reader.rs, `read_data_area`).
use nfc_forum_tags.Prelude.{
  ℕ, zero, suc, ◌+◌, ◌-◌, ◌*◌, ◌%◌, ◌≤◌, ◌<◌, ◌≡◌, ◌∙◌, sym, ap, arith, Bool, true, false, List,
  some, ltb, ltb-false→le,
}
use mathlib.Core.Path.{subst}
use nfc_forum_tags.Outcome.{Ensures}
use nfc_forum_tags.Vec.{Build}
use nfc_forum_tags.Type2.Error.{out_of_range}
use nfc_forum_tags.Type2.Geometry.{address_space_end, address_roundtrip, address_to_sector_block}
use nfc_forum_tags.Type2.Memory.{MemoryLayout}
use nfc_forum_tags.Type2.Scanner
use nfc_forum_tags.Type2.Reader.State.{Transceiver, T2tReader, pure, Action}
use nfc_forum_tags.Type2.Reader.DataArea.{
  Progress, started, process_bytes, read_loop, read_data_area,
}
use nfc_forum_tags.Type2.Reader.Triple.{
  Triple, Triple-weaken, Triple-pure, Triple-lift, Triple-or_raise, Triple-bind, Triple-given,
  Triple-elim,
}
use nfc_forum_tags.Type2.TagMemory.{Memory, IsTag}
use nfc_forum_tags.Type2.Reader.OnTag.Coherent.{IsCoherent, IsCoherentIn}
use nfc_forum_tags.Type2.Reader.OnTag.DataBytes.{
  usable_bytes, until_terminator, bytes_at, usable_bytes-add, total, full-total, GoesOn,
  process_bytes-GoesOn,
}
use nfc_forum_tags.Type2.Reader.OnTag.Blocks.{
  block_address, select_if_needed-OnTag, block_data-OnTag,
}

module _ {t : Transceiver} (b : Build) (tag : IsTag t) (mem : Memory) where
  open t use {Device, Error}

  abbrev Is : Memory → Type 0
  Is m = m ≡ mem

  -- What the loop at `addr` reads, all told.
  abbrev Reads : MemoryLayout → ℕ → Progress → List ℕ → T2tReader Device → Type 0
  Reads layout addr p data_area r =
      IsCoherent tag Is r
      × (data_area ≡ total b layout p (usable_bytes layout mem addr (address_space_end - addr)))

  -- The loop's last round, and one that goes on.
  last_round :
      (layout : MemoryLayout) (addr : ℕ) (p p' : Progress)
      → addr + 4 ≤ address_space_end
      → GoesOn b layout p (usable_bytes layout mem addr 4) true p'
      → p'.result ≡ total b layout p (usable_bytes layout mem addr (address_space_end - addr))
  last_round layout addr p p' h g =
      let whole : address_space_end - addr ≡ 4 + (address_space_end - (addr + 4)) = omega arith in
      g (usable_bytes layout mem (addr + 4) (address_space_end - (addr + 4)))
      ∙ ap (total b layout p) (
          sym (
            ap (usable_bytes layout mem addr) whole
            ∙ usable_bytes-add layout mem addr 4 (address_space_end - (addr + 4))))

  next_round :
      (layout : MemoryLayout) (addr : ℕ) (p p' : Progress)
      → addr + 4 ≤ address_space_end
      → GoesOn b layout p (usable_bytes layout mem addr 4) false p'
      → total b layout p' (usable_bytes layout mem (addr + 4) (address_space_end - (addr + 4)))
        ≡ total b layout p (usable_bytes layout mem addr (address_space_end - addr))
  next_round layout addr p p' h g =
      let whole : address_space_end - addr ≡ 4 + (address_space_end - (addr + 4)) = omega arith in
      g (usable_bytes layout mem (addr + 4) (address_space_end - (addr + 4)))
      ∙ ap (total b layout p) (
          sym (
            ap (usable_bytes layout mem addr) whole
            ∙ usable_bytes-add layout mem addr 4 (address_space_end - (addr + 4))))

  go_on-Triple :
      (s : ℕ) (layout : MemoryLayout) (addr : ℕ) (p : Progress) (done : Bool) (p' : Progress)
      (next : Action Device Error (List ℕ))
      → addr + 4 ≤ address_space_end
      → GoesOn b layout p (usable_bytes layout mem addr 4) done p'
      → Triple (IsCoherent tag Is) (IsCoherent tag Is) next (Reads layout (addr + 4) p')
      → Triple
          (IsCoherent tag Is)
          (IsCoherentIn tag s Is)
          (elim done [ true ↦ pure p'.result | false ↦ next ])
          (Reads layout addr p)
  go_on-Triple s layout addr p true p' next h g k =
      Triple-pure _ p'.result _ λ r v. (v.0, last_round layout addr p p' h g)
  go_on-Triple s layout addr p false p' next h g k =
      Triple-weaken (λ r v. v.0) (λ x r q. (q.0, q.1 ∙ next_round layout addr p p' h g)) (λ r z. z)
        k

  read_loop-OnTag :
      (fuel : ℕ) (layout : MemoryLayout) (addr : ℕ) (p : Progress)
      → addr % 4 ≡ 0
      → addr < address_space_end + 4
      → address_space_end + 4 ≤ addr + 4 * fuel
      → Triple
          (IsCoherent tag Is)
          (IsCoherent tag Is)
          (read_loop t b fuel layout addr p)
          (Reads layout addr p)
  unfolding read_loop
  read_loop-OnTag zero layout addr p m l f = absurd (omega arith)
  read_loop-OnTag (suc fuel) layout addr p m l f =
      Triple-elim (ltb p.bytes_read layout.data_area_size)
        (λ _.
          Triple-bind
            (Triple-or_raise (IsCoherent tag Is) (address_to_sector_block addr) out_of_range
              (λ r v. v))
            λ parts. Triple-given {X = address_to_sector_block addr ≡ some parts} λ e.
              let split = address_roundtrip addr parts.0 parts.1 parts.2 e in
              let here : parts.0 * 1024 + parts.1 * 4 ≡ addr = block_address addr parts m e in
              Triple-bind (select_if_needed-OnTag b tag mem parts.0 split.1) λ _.
                Triple-bind (block_data-OnTag b tag mem parts.0 parts.1 split.2) λ bytes.
                  Triple-given {X = bytes ≡ bytes_at mem (parts.0 * 1024 + parts.1 * 4) 4} λ block.
                    Triple-bind
                      (Triple-lift (IsCoherentIn tag parts.0 Is)
                        (process_bytes b layout bytes addr p)
                        (λ r. GoesOn b layout p (usable_bytes layout mem addr 4) r.0 r.1)
                        (λ r v. v.0)
                        (subst
                          (λ l.
                            Ensures
                              (λ r. GoesOn b layout p (usable_bytes layout mem addr 4) r.0 r.1)
                              (process_bytes b layout l addr p))
                          (sym (block ∙ ap (λ a. bytes_at mem a 4) here))
                          (process_bytes-GoesOn b layout mem 4 addr p)))
                      λ done.
                        Triple-given
                          {X = GoesOn b layout p (usable_bytes layout mem addr 4) done.0 done.1}
                          λ g.
                            go_on-Triple parts.0 layout addr p done.0 done.1 _
                              (omega (arith, split.0)) g
                              (read_loop-OnTag fuel layout (addr + 4) done.1 (omega arith)
                                (omega (arith, split.0)) (omega arith)))
        (λ e.
          Triple-pure (IsCoherent tag Is) p.result _
            λ r v. (v, full-total b layout p _ (ltb-false→le p.bytes_read layout.data_area_size e)))

  started-total :
      (layout : MemoryLayout) (xs : List ℕ)
      → total b layout started xs ≡ until_terminator layout.data_area_size Scanner.new xs
  started-total layout xs =
      let all : layout.data_area_size - 0 ≡ layout.data_area_size = omega arith in
      ap (λ k. until_terminator k Scanner.new xs) all

  -- Reading the data area keeps the memory, and answers its usable bytes up to the Terminator.
  pub read_data_area-OnTag :
      (layout : MemoryLayout)
      → Triple (IsCoherent tag Is) (IsCoherent tag Is) (read_data_area t b layout) (λ data_area r.
        IsCoherent tag Is r
        × (data_area
            ≡ until_terminator layout.data_area_size Scanner.new
                (usable_bytes layout mem 16 (address_space_end - 16))))
  unfolding read_data_area
  read_data_area-OnTag layout =
      Triple-weaken (λ r v. v) (λ x r q. (q.0, q.1 ∙ started-total layout _)) (λ r v. v)
        (read_loop-OnTag 65280 layout 16 started (omega arith) (omega arith) (omega arith))
