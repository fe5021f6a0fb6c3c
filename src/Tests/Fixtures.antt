-- ===== src/Tests/Fixtures.antt =====
-- Test data: a vector of fixed capacity, and a tag with a static memory of 64 bytes.
use nfc_forum_tags.Type2.Reader.Exchange.{AnswersBytes}
use nfc_forum_tags.Type2.Reader.Valid.{IsValid}
use nfc_forum_tags.Prelude.{
  Bool, true, false, ℕ, zero, suc, ◌+◌, ◌*◌, ◌%◌, refl, List, [], ◌∷◌, ◌++◌, length, none, some,
  take, drop, ltb, leb, All, IsByte, if◌then◌else◌, arith, ◌==◌,
}
use mathlib.Core.Path.{subst}
use nfc_forum_tags.Vec.{HeaplessVec, Build, default}
use nfc_forum_tags.Type2.Cc.{CapabilityContainer}
use nfc_forum_tags.Tag.{granted}
use nfc_forum_tags.Type2.Memory.{MemoryLayout}
use nfc_forum_tags.Type2.Reader.State.{Transmission, received, failed, Transceiver, T2tReader, new}

-- A vector of fixed capacity, as its documentation has it.
abbrev pub test_vec : HeaplessVec
test_vec = record {
  push = λ n v x. if ltb (length v) n then some (v ++ x ∷ []) else none;
  extend_from_slice = λ n v s. if leb (length v + length s) n then some (v ++ s) else none;
  push_lem = λ n v x. refl;
  extend_from_slice_lem = λ n v s. refl;
}

abbrev pub test_build : Build
test_build = default test_vec

abbrev pub bytes_of : List ℕ → List ℕ
bytes_of [] = []
bytes_of (x ∷ xs) = x % 256 ∷ bytes_of xs

bytes_of-IsByte : (xs : List ℕ) → All IsByte (bytes_of xs)
bytes_of-IsByte [] = tt
bytes_of-IsByte (x ∷ xs) = (omega arith, bytes_of-IsByte xs)

-- The tag's answers: 16 bytes of its memory for READ, an ACK for WRITE and the first packet of
-- SECTOR SELECT, a time-out for the rest.
abbrev pub answer : List ℕ → List ℕ → Transmission (Unit {0}) (List ℕ) × List ℕ
answer [] memory = (failed tt, memory)
answer (code ∷ []) memory = (failed tt, memory)
answer (code ∷ block ∷ payload) memory =
    if code == 0x30
    then (received (bytes_of (take 16 (drop (block * 4) memory))), memory)
    else if code == 0xA2
    then (received (0x0A ∷ []), take (block * 4) memory ++ (payload ++ drop (block * 4 + 4) memory))
    else if code == 0xC2
    then (received (0x0A ∷ []), memory)
    else (failed tt, memory)

abbrev IsFrame : Transmission (Unit {0}) (List ℕ) → Type 0
IsFrame (received raw) = All IsByte raw
IsFrame (failed e) = Unit

if-IsFrame :
    (c : Bool) (x y : Transmission (Unit {0}) (List ℕ) × List ℕ)
    → IsFrame x.0
    → IsFrame y.0
    → IsFrame (if c then x else y).0
if-IsFrame true x y hx hy = hx
if-IsFrame false x y hx hy = hy

answer-IsFrame : (cmd memory : List ℕ) → IsFrame (answer cmd memory).0
answer-IsFrame [] memory = tt
answer-IsFrame (code ∷ []) memory = tt
answer-IsFrame (code ∷ block ∷ payload) memory =
    if-IsFrame (code == 0x30) _ _ (bytes_of-IsByte (take 16 (drop (block * 4) memory))) (
      if-IsFrame (code == 0xA2) _ _ (omega arith, tt)
        (if-IsFrame (code == 0xC2) _ _ (omega arith, tt) tt))

abbrev pub test_tag : Transceiver
test_tag = record {
  Device = List ℕ;
  Error = Unit {0};
  transceive = answer;
  transceive_no_response = λ cmd memory. (received none, memory);
}

abbrev zeros : ℕ → List ℕ
zeros zero = []
zeros (suc n) = 0 ∷ zeros n

-- An empty NDEF message and a Terminator, behind the Capability Container of a tag with 48 bytes.
abbrev pub test_memory : List ℕ
test_memory = zeros 12 ++ (0xE1 ∷ 0x10 ∷ 0x06 ∷ 0x00 ∷ 0x03 ∷ 0x00 ∷ 0xFE ∷ zeros 61)

abbrev pub test_reader : T2tReader (List ℕ)
test_reader = new test_memory

pub test_answers : AnswersBytes test_tag
test_answers = record { frame = λ cmd memory raw e. subst IsFrame e (answer-IsFrame cmd memory) }

pub test_reader-IsValid : IsValid test_reader
unfolding new
test_reader-IsValid = record { cached = refl; bytes = zeros_are_bytes; selected = omega arith }
  where
    zeros_are_bytes : All IsByte (zeros 16)
    zeros_are_bytes = bytes_of-IsByte (zeros 16)

-- The layout of a tag with 48 bytes, the first two of which are reserved.
abbrev pub test_layout : MemoryLayout
test_layout = record {
  data_area_size = 48;
  lock_areas = [];
  reserved_areas = record { byte_address = 16; size = 2 } ∷ [];
}

-- The container of that tag.
abbrev pub test_cc : CapabilityContainer
test_cc = record {
  version_major = 1;
  version_minor = 0;
  size_field = 0x06;
  read_access = granted;
  write_access = granted;
}
