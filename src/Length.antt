-- ===== src/Length.antt =====
-- src/tlv.rs: the length field of a TLV block, in one byte or in three.
pub mod RoundTrip
use nfc_forum_tags.Prelude.{ℕ, ◌+◌, ◌*◌, ◌/◌, ◌%◌, List, [], ◌∷◌, length, ltb, leb, if◌then◌else◌}
use nfc_forum_tags.Outcome.{Outcome, ok, err, panic, stuck, index, ◌>>=◌}
use nfc_forum_tags.Vec.{Build, BufferFullError, data_capacity, try_push, try_extend}

pub data TlvError : Type 0 where
  invalid_tlv buffer_full : TlvError

-- `impl From<BufferFullError> for TlvError`
abbrev pub from_full : BufferFullError → TlvError
from_full _ = buffer_full

unfoldable pub parse_tlv_length : List ℕ → ℕ → Outcome TlvError (ℕ × ℕ)
parse_tlv_length bytes offset = if leb (length bytes) offset then err invalid_tlv else do
  first ← index bytes offset
  if ltb first 0xFF
      then ok (first, 1)
      else if ltb (length bytes) (offset + 3)
      then err invalid_tlv
      else do
        msb ← index bytes (offset + 1)
        lsb ← index bytes (offset + 2)
        ok (msb * 256 + lsb, 3)

-- `0xFFFF` is reserved.
abbrev pub max_tlv_length : ℕ
max_tlv_length = 0xFFFE

-- What a call on `out: &mut DataVec` answers, and the buffer that it leaves.
abbrev pub OnBuffer : Type 0
OnBuffer = Outcome TlvError (Unit {0}) × List ℕ

-- `out.try_push(..)?` or `out.try_extend(..)?` and what follows it. On an error the buffer is as it
-- was before that call.
abbrev pub on_buffer : List ℕ → Outcome BufferFullError (List ℕ) → (List ℕ → OnBuffer) → OnBuffer
on_buffer out (ok out') next = next out'
on_buffer out (err e) next = (err (from_full e), out)
on_buffer out panic next = (panic, out)
on_buffer out stuck next = (stuck, out)

unfoldable pub encode_tlv_length : Build → ℕ → List ℕ → OnBuffer
encode_tlv_length b len out =
    if ltb max_tlv_length len
    then (err invalid_tlv, out)
    else if ltb len 0xFF
    then on_buffer out (try_push b data_capacity out (len % 256)) (λ out'. (ok tt, out'))
    else on_buffer out (try_push b data_capacity out 0xFF) λ out'.
      on_buffer out' (try_extend b data_capacity out' (len / 256 % 256 ∷ len % 256 ∷ []))
        λ out''. (ok tt, out'')
