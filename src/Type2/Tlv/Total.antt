-- ===== src/Type2/Tlv/Total.antt =====
-- The TLV parser on arbitrary bytes (src/type2/tlv.rs, `parse_tlvs`).
use nfc_forum_tags.Prelude.{
  ℕ, zero, suc, ◌+◌, ◌-◌, ◌≤◌, ◌<◌, ◌≡◌, true, false, List, [], ◌∷◌, Option, none, some, length,
  length-append, arith, leb, leb-false→lt, drop, ltb, ◌||◌, IsByte, All, All-take, All-drop,
  All-append, ◌==◌,
}
use nfc_forum_tags.Outcome.{
  ok, map_err, index, ◌>>=◌, Ensures, Ensures-if, index-Ensures, >>=-Ensures, map_err-Ensures,
  Ensures-elim,
}
use nfc_forum_tags.Vec.{
  fits, Build, data_capacity, try_extend, try_push_lem, try_extend_lem, fits-zero,
}
use nfc_forum_tags.Length
use nfc_forum_tags.Length.RoundTrip.{parse_tlv_length-Ensures}
use nfc_forum_tags.Type2.Error.{Type2Error, from_full}
use nfc_forum_tags.Type2.Control.{Bytes3}
use nfc_forum_tags.Type2.Control.Lock
use nfc_forum_tags.Type2.Control.Memory
use nfc_forum_tags.Type2.Tlv.{
  Tlv, parse_control, parse_value, skip_value, parse_block, push_tlv, parse_loop, parse_tlvs,
  tlv_capacity, parse_tlv_length, as_invalid, tlv_null, tlv_lock_control, tlv_memory_control,
  tlv_ndef_message, tlv_proprietary, null, lock_control, memory_control, ndef_message, proprietary,
  terminator, tlv_terminator, slice,
}

-- What the parser promises of a block: a control value describes an area of the address space, and
-- the value of another block fits a `DataVec` and holds bytes.
abbrev pub IsWellFormed : Build → Tlv → Type 0
IsWellFormed b null = Unit
IsWellFormed b (lock_control v) = Lock.IsEncodable v
IsWellFormed b (memory_control v) = Memory.IsEncodable v
IsWellFormed b (ndef_message v) = All IsByte v × (fits b data_capacity (length v) ≡ true)
IsWellFormed b (proprietary v) = All IsByte v × (fits b data_capacity (length v) ≡ true)
IsWellFormed b terminator = Unit

abbrev IsPushable : Build → Option Tlv → Type 0
IsPushable b none = Unit
IsPushable b (some t) = IsWellFormed b t

-- Reading a length field moves on.
length-Ensures :
    (bytes : List ℕ) (offset : ℕ) → Ensures (λ r. 0 < r.1) (parse_tlv_length bytes offset)
length-Ensures bytes offset =
    map_err-Ensures (λ r. 0 < r.1) as_invalid (Length.parse_tlv_length bytes offset)
      (parse_tlv_length-Ensures bytes offset)

module _ (b : Build) (bytes : List ℕ) (are_bytes : All IsByte bytes) (offset : ℕ) where
  abbrev ControlRead : Bytes3 × ℕ → Type 0
  ControlRead ((b0, b1, b2), next) = IsByte b0 × IsByte b1 × IsByte b2 × (offset ≤ next)

  byte_at : (i : ℕ) → i < length bytes → Ensures IsByte (index {E = Type2Error} bytes i)
  byte_at i h = index-Ensures Type2Error IsByte bytes i are_bytes h

  parse_control-Ensures : Ensures ControlRead (parse_control bytes offset)
  unfolding parse_control
  parse_control-Ensures =
      >>=-Ensures (λ r. 0 < r.1) ControlRead (parse_tlv_length bytes offset) _
        (length-Ensures bytes offset)
        λ r h.
          ground
            (arith, byte_at (offset + r.1), byte_at (offset + r.1 + 1), byte_at (offset + r.1 + 2))

  abbrev ValueRead : List ℕ × ℕ → Type 0
  ValueRead (v, next) = All IsByte v × (fits b data_capacity (length v) ≡ true) × (offset ≤ next)

  -- Copying bytes into a new buffer.
  copied :
      (value : List ℕ) (next : ℕ)
      → All IsByte value
      → offset ≤ next
      → Ensures ValueRead
          (map_err from_full (try_extend b data_capacity [] value) >>= λ v. ok (v, next))
  copied value next hv h = ground (arith, try_extend_lem b data_capacity [] value)

  slice-Ensures :
      (from to : ℕ)
      → from ≤ to
      → ltb (length bytes) to ≡ false
      → Ensures (λ v. All IsByte v) (slice bytes from to)
  slice-Ensures from to l fit =
      Ensures-if (λ v. All IsByte v) (ltb to from || ltb (length bytes) to) _ _
        (λ out. ground arith)
        λ _. All-take IsByte (to - from) (drop from bytes) (All-drop IsByte from bytes are_bytes)

  parse_value-Ensures : Ensures ValueRead (parse_value b bytes offset)
  unfolding parse_value
  parse_value-Ensures =
      >>=-Ensures (λ r. 0 < r.1) ValueRead (parse_tlv_length bytes offset) _
        (length-Ensures bytes offset)
        λ r h.
          let from = offset + r.1 in
          Ensures-if ValueRead (ltb (length bytes) (from + r.0)) _ _ (λ _. tt)
            λ fit.
              >>=-Ensures (λ v. All IsByte v) ValueRead (slice bytes from (from + r.0)) _
                (slice-Ensures from (from + r.0) (omega arith) fit)
                λ v hv. copied v (from + r.0) hv (omega arith)

  skip_value-Ensures : Ensures (λ next. offset ≤ next) (skip_value bytes offset)
  unfolding skip_value
  skip_value-Ensures =
      >>=-Ensures (λ r. 0 < r.1) (λ next. offset ≤ next) (parse_tlv_length bytes offset) _
        (length-Ensures bytes offset) λ r h. ground arith

  abbrev BlockRead : Option Tlv × ℕ → Type 0
  BlockRead (block, next) = IsPushable b block × (offset ≤ next)

  lock_arm : Ensures BlockRead (
      parse_control bytes offset >>= λ r.
      Lock.from_bytes r.0 >>= λ v. ok (some (lock_control v), r.1))
  lock_arm =
      >>=-Ensures ControlRead BlockRead (parse_control bytes offset) _ parse_control-Ensures λ r h.
        >>=-Ensures Lock.IsEncodable BlockRead (Lock.from_bytes r.0) _
          (Lock.from_bytes-Ensures r.0 h.0 h.1 h.2) λ v e. (e, h.3)

  memory_arm : Ensures BlockRead (
      parse_control bytes offset >>= λ r.
      Memory.from_bytes r.0 >>= λ v. ok (some (memory_control v), r.1))
  memory_arm =
      >>=-Ensures ControlRead BlockRead (parse_control bytes offset) _ parse_control-Ensures λ r h.
        >>=-Ensures Memory.IsEncodable BlockRead (Memory.from_bytes r.0) _
          (Memory.from_bytes-Ensures r.0 h.0 h.1 h.2) λ v e. (e, h.3)

  ndef_arm :
      Ensures BlockRead (parse_value b bytes offset >>= λ r. ok (some (ndef_message r.0), r.1))
  ndef_arm =
      >>=-Ensures ValueRead BlockRead (parse_value b bytes offset) _ parse_value-Ensures
        λ r h. ((h.0, h.1), h.2)

  proprietary_arm :
      Ensures BlockRead (parse_value b bytes offset >>= λ r. ok (some (proprietary r.0), r.1))
  proprietary_arm =
      >>=-Ensures ValueRead BlockRead (parse_value b bytes offset) _ parse_value-Ensures
        λ r h. ((h.0, h.1), h.2)

  -- A block is parsed to its end or refused, and the parser moves on.
  parse_block-Ensures : (tag : ℕ) → Ensures BlockRead (parse_block b bytes tag offset)
  unfolding parse_block
  parse_block-Ensures tag =
      Ensures-if BlockRead (tag == tlv_null) _ _ (λ _. (tt, omega arith))
        λ _.
          Ensures-if BlockRead (tag == tlv_terminator) _ _ (λ _. (tt, omega arith))
            λ _.
              Ensures-if BlockRead (tag == tlv_lock_control) _ _ (λ _. lock_arm)
                λ _.
                  Ensures-if BlockRead (tag == tlv_memory_control) _ _ (λ _. memory_arm)
                    λ _.
                      Ensures-if BlockRead (tag == tlv_ndef_message) _ _ (λ _. ndef_arm)
                        λ _.
                          Ensures-if BlockRead (tag == tlv_proprietary) _ _ (λ _. proprietary_arm)
                            λ _.
                              >>=-Ensures (λ next. offset ≤ next) BlockRead
                                (skip_value bytes offset) _ skip_value-Ensures λ next h. (tt, h)

-- The blocks that have been pushed.
abbrev pub AreBlocks : Build → List Tlv → Type 0
AreBlocks b ts = All (IsWellFormed b) ts × (fits b tlv_capacity (length ts) ≡ true)

push_tlv-Ensures :
    (b : Build) (out : List Tlv) (t : Option Tlv)
    → AreBlocks b out
    → IsPushable b t
    → Ensures (AreBlocks b) (push_tlv b out t)
unfolding push_tlv
push_tlv-Ensures b out none h p = h
push_tlv-Ensures b out (some t) h p = ground (
  arith,
  try_push_lem b tlv_capacity out t,
  length-append out (t ∷ []),
  All-append (IsWellFormed b) out (t ∷ []),
)

module _ (b : Build) (bytes : List ℕ) (are_bytes : All IsByte bytes) where
  -- With fuel for the bytes that are left the loop returns.
  parse_loop-Ensures :
      (fuel offset : ℕ) (out : List Tlv)
      → AreBlocks b out
      → length bytes ≤ offset + fuel
      → Ensures (AreBlocks b) (parse_loop fuel b bytes offset out)
  unfolding parse_loop
  parse_loop-Ensures zero offset out ho h = ground arith
  parse_loop-Ensures (suc fuel) offset out ho h =
      Ensures-if (AreBlocks b) (leb (length bytes) offset) _ _ (λ _. ho)
        λ more.
          >>=-Ensures IsByte (AreBlocks b) (index bytes offset) _
            (byte_at b bytes are_bytes offset offset (leb-false→lt (length bytes) offset more))
            λ tag _.
              >>=-Ensures (BlockRead b bytes are_bytes (offset + 1)) (AreBlocks b)
                (parse_block b bytes tag (offset + 1)) _
                (parse_block-Ensures b bytes are_bytes (offset + 1) tag)
                λ r hr.
                  >>=-Ensures (AreBlocks b) (AreBlocks b) (push_tlv b out r.0) _
                    (push_tlv-Ensures b out r.0 ho hr.0)
                    λ out' ho'.
                      Ensures-elim (AreBlocks b) (tag == tlv_terminator) _ _ ho'
                        (parse_loop-Ensures fuel r.1 out' ho' (omega arith))

  -- On every stream of bytes the parser returns: an error, or no more blocks than the build has
  -- room for, whose control values are ones that three bytes can hold, with an area in the
  -- address space, and whose other values are made of bytes and fit a `DataVec`.
  pub parse_tlvs-AreBlocks : Ensures (AreBlocks b) (parse_tlvs b bytes)
  unfolding parse_tlvs
  parse_tlvs-AreBlocks =
      parse_loop-Ensures (length bytes) 0 [] (tt, fits-zero b tlv_capacity) (omega arith)
