-- ===== src/Type2/Tlv/RoundTrip.antt =====
-- The TLV parser on the bytes of blocks (src/type2/tlv.rs, `parse_tlvs`).
use nfc_forum_tags.Prelude.{
  ℕ, zero, suc, ◌+◌, ◌≤◌, ◌≡◌, ◌≢◌, refl, ap, ◌∙◌, true, false, List, [], ◌∷◌, ◌++◌, some, length,
  arith, ◌-◌, le→leb, leb, ◌==◌, length-append, append_assoc, append-nil, All,
  get_elem?-append_right,
}
use nfc_forum_tags.Outcome.{ok, index}
use nfc_forum_tags.Vec.{Build, fits, fits-le, try_push_lem}
use nfc_forum_tags.Type2.Error.{Type2Error}
use nfc_forum_tags.Type2.Tlv.{
  Tlv, terminator, parse_block, push_tlv, parse_loop, parse_tlvs, tlv_capacity, tlv_terminator,
}
use nfc_forum_tags.Type2.Tlv.Blocks.{
  tag_of, after_tag, block_bytes, IsWritable, parse_block-after_tag,
}

-- The bytes of some blocks, one behind the other.
abbrev pub stream : List Tlv → List ℕ
stream [] = []
stream (t ∷ ts) = block_bytes t ++ stream ts

-- A block that does not end the stream.
abbrev pub Continues : Tlv → Type 0
Continues t = tag_of t ≢ tlv_terminator

push_tlv-room :
    (b : Build) (out : List Tlv) (t : Tlv)
    → fits b tlv_capacity (length out + 1) ≡ true
    → push_tlv b out (some t) ≡ ok (out ++ t ∷ [])
unfolding push_tlv
push_tlv-room b out t f = ground (arith, try_push_lem b tlv_capacity out t)

-- One round of the loop on a block that stands at the offset.
module _ (b : Build) (before rest : List ℕ) (t : Tlv) (w : IsWritable b t) (out : List Tlv)
    (room : fits b tlv_capacity (length out + 1) ≡ true) (offset : ℕ)
    (at : offset ≡ length before) where
  abbrev bytes : List ℕ
  bytes = before ++ (block_bytes t ++ rest)

  parsed :
      parse_block b bytes (tag_of t) (offset + 1) ≡ ok (some t, offset + length (block_bytes t))
  parsed =
      (rw (append_assoc before (tag_of t ∷ []) (after_tag t ++ rest)) at (
        parse_block-after_tag b t (before ++ tag_of t ∷ []) rest (offset + 1) w
          (omega (arith, length-append before (tag_of t ∷ [])))))
      ∙ ap (λ n. ok (some t, n)) (omega arith)

  tag_found : index {E = Type2Error} bytes offset ≡ ok (tag_of t)
  tag_found = ground (arith, get_elem?-append_right before (block_bytes t ++ rest) offset 0)

  in_range : leb (length bytes) offset ≡ false
  in_range = ground (arith, length-append before (block_bytes t ++ rest))

  parse_loop-continue :
      (fuel : ℕ)
      → Continues t
      → parse_loop (suc fuel) b bytes offset out
        ≡ parse_loop fuel b bytes (offset + length (block_bytes t)) (out ++ t ∷ [])
  unfolding parse_loop
  parse_loop-continue fuel c =
      let e : (tag_of t == tlv_terminator) ≡ false = ground arith in
      rw (in_range, tag_found, parsed, push_tlv-room b out t room, e)

  parse_loop-end :
      (fuel : ℕ)
      → tag_of t ≡ tlv_terminator
      → parse_loop (suc fuel) b bytes offset out ≡ ok (out ++ t ∷ [])
  unfolding parse_loop
  parse_loop-end fuel c =
      let e : (tag_of t == tlv_terminator) ≡ true = ground arith in
      rw (in_range, tag_found, parsed, push_tlv-room b out t room, e)

-- A round for each block, and then `k`.
abbrev rounds : List Tlv → ℕ → ℕ
rounds [] k = k
rounds (t ∷ ts) k = suc (rounds ts k)

rounds-add : (ts : List Tlv) (k : ℕ) → rounds ts k ≡ length ts + k
rounds-add [] k = omega arith
rounds-add (t ∷ ts) k = omega (arith, rounds-add ts k)

pub length-le-stream : (ts : List Tlv) → length ts ≤ length (stream ts)
length-le-stream [] = omega arith
length-le-stream (t ∷ ts) =
    omega (arith, length-le-stream ts, length-append (block_bytes t) (stream ts))

-- The blocks of a stream are parsed one after the other.
parse_loop-stream :
    (b : Build) (ts : List Tlv) (before rest : List ℕ) (out : List Tlv) (offset k : ℕ)
    → All (IsWritable b) ts
    → All Continues ts
    → fits b tlv_capacity (length out + length ts) ≡ true
    → offset ≡ length before
    → parse_loop (rounds ts k) b (before ++ (stream ts ++ rest)) offset out
      ≡ parse_loop k b (before ++ (stream ts ++ rest)) (offset + length (stream ts)) (out ++ ts)
parse_loop-stream b [] before rest out offset k w c f e =
    let zero_more : offset + 0 ≡ offset = omega arith in rw (zero_more, append-nil out)
parse_loop-stream b (t ∷ ts) before rest out offset k w c f e =
    let room : fits b tlv_capacity (length out + 1) ≡ true =
      fits-le b tlv_capacity (length out + 1) (length out + suc (length ts)) (omega arith) f in
    let block : List ℕ = block_bytes t in
    let ahead : List ℕ = stream ts ++ rest in
    let ih =
      parse_loop-stream b ts (before ++ block) rest (out ++ t ∷ []) (offset + length block) k w.1
        c.1
        (fits-le b tlv_capacity (length (out ++ t ∷ []) + length ts) (length out + suc (length ts))
          (omega (arith, length-append out (t ∷ []))) f)
        (omega (arith, length-append before block)) in
    rw (append_assoc block (stream ts) rest) (
      parse_loop-continue b before ahead t w.0 out room offset e (rounds ts k) c.0
      ∙ (rw (append_assoc before block ahead, append_assoc out (t ∷ []) ts) at ih)
      ∙ ap (λ n. parse_loop k b (before ++ (block ++ ahead)) n (out ++ t ∷ ts))
          (omega (arith, length-append block (stream ts))))

parse_loop_done :
    (b : Build) (k : ℕ) (bytes : List ℕ) (offset : ℕ) (out : List Tlv)
    → length bytes ≤ offset
    → parse_loop k b bytes offset out ≡ ok out
unfolding parse_loop
parse_loop_done b zero bytes offset out h = ground arith
parse_loop_done b (suc k) bytes offset out h = rw (le→leb (length bytes) offset h)

-- The blocks behind some bytes are parsed to the end of the stream.
pub parse_loop-stream_end :
    (b : Build) (ts : List Tlv) (before : List ℕ) (fuel : ℕ)
    → All (IsWritable b) ts
    → All Continues ts
    → fits b tlv_capacity (length ts) ≡ true
    → length ts ≤ fuel
    → parse_loop fuel b (before ++ stream ts) (length before) [] ≡ ok ts
parse_loop-stream_end b ts before fuel w c f l =
    let e : fuel ≡ rounds ts (fuel - length ts) = omega (arith, rounds-add ts (fuel - length ts)) in
    ap (λ m. parse_loop m b (before ++ stream ts) (length before) []) e
    ∙ (rw (append-nil (stream ts)) at (
        parse_loop-stream b ts before [] [] (length before) (fuel - length ts) w c
          (fits-le b tlv_capacity (0 + length ts) (length ts) (omega arith) f) refl))
    ∙ parse_loop_done b (fuel - length ts) (before ++ stream ts)
        (length before + length (stream ts)) ts (omega (arith, length-append before (stream ts)))

-- Writable blocks that do not end the stream, and are no more than the build has room for, are
-- parsed back from their bytes.
pub parse_tlvs-stream :
    (b : Build) (ts : List Tlv)
    → All (IsWritable b) ts
    → All Continues ts
    → fits b tlv_capacity (length ts) ≡ true
    → parse_tlvs b (stream ts) ≡ ok ts
unfolding parse_tlvs
parse_tlvs-stream b ts w c f =
    parse_loop-stream_end b ts [] (length (stream ts)) w c f (length-le-stream ts)

-- Writable blocks that do not end the stream, with a Terminator behind them and no more in all
-- than the build has room for, are parsed to the blocks and the Terminator, whatever follows it.
pub parse_tlvs-terminated :
    (b : Build) (ts : List Tlv) (rest : List ℕ)
    → All (IsWritable b) ts
    → All Continues ts
    → fits b tlv_capacity (length ts + 1) ≡ true
    → parse_tlvs b (stream ts ++ (tlv_terminator ∷ rest)) ≡ ok (ts ++ terminator ∷ [])
unfolding parse_tlvs
parse_tlvs-terminated b ts rest w c f =
    let tail : List ℕ = tlv_terminator ∷ rest in
    let n : ℕ = length (stream ts ++ tail) in
    let spare : ℕ = n - suc (length ts) in
    let e : n ≡ rounds ts (suc spare) =
      omega
        (arith, rounds-add ts (suc spare), length-le-stream ts, length-append (stream ts) tail) in
    ap (λ m. parse_loop m b (stream ts ++ tail) 0 []) e
    ∙ parse_loop-stream b ts [] tail [] 0 (suc spare) w c
        (fits-le b tlv_capacity (0 + length ts) (length ts + 1) (omega arith) f) refl
    ∙ parse_loop-end b (stream ts) rest terminator (tt, omega arith) ts f (0 + length (stream ts))
        (omega arith) spare refl
