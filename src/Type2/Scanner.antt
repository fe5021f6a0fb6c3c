-- ===== src/Type2/Scanner.antt =====
-- The TLV scanner of src/type2/reader.rs, which finds the Terminator while the tag is read.
pub mod Boundaries
use nfc_forum_tags.Prelude.{ℕ, ◌+◌, ◌-◌, ◌*◌, Bool, true, false, leb, ◌==◌, if◌then◌else◌}
use nfc_forum_tags.Type2.Tlv.{tlv_null, tlv_terminator}

pub data TlvScanState : Type 0 where
  tag length length_ext_msb : TlvScanState
  length_ext_lsb : ℕ → TlvScanState
  value : ℕ → TlvScanState

-- `TlvScanner` is its state.
abbrev pub new : TlvScanState
new = tag

-- The answer, and the state afterwards.
unfoldable pub feed : TlvScanState → ℕ → Bool × TlvScanState
feed tag byte =
    if byte == tlv_terminator
    then (true, tag)
    else if byte == tlv_null
    then (false, tag)
    else (false, length)
feed length byte =
    if byte == 0xFF
    then (false, length_ext_msb)
    else if byte == 0
    then (false, tag)
    else (false, value byte)
feed length_ext_msb byte = (false, length_ext_lsb byte)
feed (length_ext_lsb msb) byte =
    let len = msb * 256 + byte in if len == 0 then (false, tag) else (false, value len)
feed (value remaining) byte =
    if leb remaining 1 then (false, tag) else (false, value (remaining - 1))
