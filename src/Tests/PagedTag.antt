-- ===== src/Tests/PagedTag.antt =====
-- Test data: a tag with a memory of whole sectors, the reader at it, and the memories of a tag that
-- may be written and of one that may not.
use nfc_forum_tags.Prelude.{
  ℕ, ◌+◌, ◌*◌, ◌%◌, ◌≡◌, inr, refl, Bool, true, false, List, [], ◌∷◌, Option, none, some, ◌==◌,
  if◌then◌else◌, get_elem?, arith, ap, sym, take,
}
use mathlib.Core.Path.{fun_ext}
use nfc_forum_tags.Type2.Cc.{Bytes4}
use nfc_forum_tags.Type2.Reader.State.{Transmission, received, failed, Transceiver, T2tReader, new}
use nfc_forum_tags.Type2.TagMemory.{Memory, sector_bytes, four_blocks, store, IsTag}
use nfc_forum_tags.Type2.Reader.OnTag.Coherent.{IsCoherent, none-IsCopy}
use nfc_forum_tags.Type2.Reader.OnTag.Selecting.{known-injective}
use nfc_forum_tags.Tests.Fixtures.{test_reader-IsValid}

-- The selected sector, whether the second packet of SECTOR SELECT is awaited, and the memory.
abbrev pub PagedTag : Type 0
PagedTag = ℕ × Bool × Memory

abbrev bytes_of_memory : Memory → Memory
bytes_of_memory mem a = mem a % 256

-- A READ is answered, a WRITE and the first packet are acknowledged, and the rest is not answered.
abbrev transmit : List ℕ → PagedTag → Transmission (Unit {0}) (List ℕ) × PagedTag
transmit [] d = (failed tt, d)
transmit (code ∷ []) d = (failed tt, d)
transmit (code ∷ n ∷ []) (s, waits, mem) =
    if code == 0x30
    then (received (four_blocks (bytes_of_memory mem) s n), (s, false, mem))
    else if code == 0xC2
    then (received (0x0A ∷ []), (s, true, mem))
    else (failed tt, (s, false, mem))
transmit (code ∷ n ∷ b0 ∷ []) d = (failed tt, d)
transmit (code ∷ n ∷ b0 ∷ b1 ∷ []) d = (failed tt, d)
transmit (code ∷ n ∷ b0 ∷ b1 ∷ b2 ∷ []) d = (failed tt, d)
transmit (code ∷ n ∷ b0 ∷ b1 ∷ b2 ∷ b3 ∷ rest) (s, waits, mem) =
    if code == 0xA2
    then (received (0x0A ∷ []), (s, false, store (s * 1024 + n * 4) (b0, b1, b2, b3) mem))
    else (failed tt, (s, false, mem))

abbrev transmit_silent : List ℕ → PagedTag → Transmission (Unit {0}) (Option ℕ) × PagedTag
transmit_silent [] d = (failed tt, d)
transmit_silent (s ∷ rest) (old, true, mem) = (received none, (s, false, mem))
transmit_silent (s ∷ rest) (old, false, mem) = (failed tt, (old, false, mem))

abbrev pub paged : Transceiver
paged = record {
  Device = PagedTag;
  Error = Unit {0};
  transceive = transmit;
  transceive_no_response = transmit_silent;
}

store_bytes :
    (a : ℕ) (bytes : Bytes4) (mem : Memory)
    → bytes_of_memory (store a bytes mem) ≡ store a bytes (bytes_of_memory mem)
unfolding store
store_bytes a (b0, b1, b2, b3) mem = fun_ext λ i. ground arith

four_read :
    (mem : Memory) (s n : ℕ) (raw : List ℕ)
    → ◌≡◌ {A = Transmission (Unit {0}) (List ℕ)} (received (four_blocks mem s n)) (received raw)
    → take 16 raw ≡ four_blocks mem s n
unfolding sector_bytes
four_read mem s n raw e = let same : four_blocks mem s n ≡ raw = cc in ap (take 16) (sym same)

silent_keeps :
    (s : ℕ) (d : PagedTag)
    → bytes_of_memory (transmit_silent (s ∷ 0 ∷ 0 ∷ 0 ∷ []) d).1.2 ≡ bytes_of_memory d.2
silent_keeps s (old, true, mem) = refl
silent_keeps s (old, false, mem) = refl

silent_selects :
    (s : ℕ) (d : PagedTag) → d.1 ≡ true → (transmit_silent (s ∷ 0 ∷ 0 ∷ 0 ∷ []) d).1.0 ≡ s
silent_selects s (old, true, mem) e = refl
silent_selects s (old, false, mem) e = absurd (cc)

pub paged-IsTag : IsTag paged
paged-IsTag = record {
  memory = λ d. bytes_of_memory d.2;
  selected = λ d. d.0;
  waits = λ d. d.1;
  stored = λ d a. omega arith;
  read_keeps = λ n d. refl;
  read_answers = λ n d raw e. (refl, λ l. four_read (bytes_of_memory d.2) d.0 n raw e);
  write_stores = λ n bytes d. inr (store_bytes (d.0 * 1024 + n * 4) bytes d.2);
  write_answers = λ n bytes d raw e. (refl, λ p. store_bytes (d.0 * 1024 + n * 4) bytes d.2);
  part1_keeps = λ d. refl;
  part1_answers = λ d raw e p. refl;
  part2_keeps = silent_keeps;
  part2_answers = λ s d w e. silent_selects s d w;
}

-- The bytes of a list, and zero behind them.
abbrev pub from_list : List ℕ → Memory
from_list xs a = elim (get_elem? xs a) [ none ↦ 0 | some x ↦ x ]

-- The reader as `new` makes it, at a tag with this memory, sector 0 selected.
abbrev pub at_tag : List ℕ → T2tReader PagedTag
at_tag xs = new (0, false, from_list xs)

abbrev pub paged_memory : List ℕ → Memory
paged_memory xs = bytes_of_memory (from_list xs)

pub at_tag-IsCoherent :
    (xs : List ℕ) → IsCoherent paged-IsTag (λ m. m ≡ paged_memory xs) (at_tag xs)
unfolding new paged-IsTag
at_tag-IsCoherent xs = record {
  valid = record { cached = refl; bytes = test_reader-IsValid.bytes; selected = omega arith };
  holds = refl;
  selected = λ s e. known-injective 0 s e;
  copy = λ s e. none-IsCopy _ s _;
}

-- An empty message on a tag that may only be read.
abbrev pub locked_memory : List ℕ
locked_memory =
    0 ∷ 0 ∷ 0 ∷ 0 ∷ 0 ∷ 0 ∷ 0 ∷ 0 ∷ 0 ∷ 0 ∷ 0 ∷ 0 ∷ 0xE1 ∷ 0x10 ∷ 0x06 ∷ 0x0F ∷ 0x03 ∷ 0x00 ∷ 0xFE
    ∷ []
