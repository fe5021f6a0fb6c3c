-- ===== src/Tag.antt =====
-- src/tag.rs: the tag's lifecycle state and the access conditions.
use nfc_forum_tags.Prelude.{ℕ, ◌≤◌, ◌<◌, ◌≡◌, ◌&&◌, leb, ◌==◌, if◌then◌else◌, arith}

pub data TagState : Type 0 where
  initialized read_write read_only : TagState

pub data AccessCondition : Type 0 where
  granted denied : AccessCondition
  proprietary rfu : ℕ → AccessCondition

unfoldable pub from_nibble : ℕ → AccessCondition
from_nibble nibble =
    if nibble == 0x00
    then granted
    else if nibble == 0x0F
    then denied
    else if leb 0x08 nibble && leb nibble 0x0E
    then proprietary nibble
    else rfu nibble

unfoldable pub to_nibble : AccessCondition → ℕ
to_nibble granted = 0x00
to_nibble denied = 0x0F
to_nibble (proprietary v) = v
to_nibble (rfu v) = v

-- A condition in the form in which the tag encodes it: a proprietary value in 0x8-0xE, a reserved
-- one in 0x1-0x7.
abbrev pub IsCanonical : AccessCondition → Type 0
IsCanonical granted = Unit
IsCanonical denied = Unit
IsCanonical (proprietary v) = (0x08 ≤ v) × (v ≤ 0x0E)
IsCanonical (rfu v) = (0x01 ≤ v) × (v ≤ 0x07)

-- An access condition in canonical form is read back from its nibble.
pub from_nibble-to_nibble : (a : AccessCondition) → IsCanonical a → from_nibble (to_nibble a) ≡ a
unfolding from_nibble to_nibble
from_nibble-to_nibble granted h = ground arith
from_nibble-to_nibble denied h = ground arith
from_nibble-to_nibble (proprietary v) h = ground arith
from_nibble-to_nibble (rfu v) h = ground arith

pub to_nibble-from_nibble : (n : ℕ) → to_nibble (from_nibble n) ≡ n
unfolding from_nibble to_nibble
to_nibble-from_nibble n = ground arith

pub to_nibble-lt : (a : AccessCondition) → IsCanonical a → to_nibble a < 16
unfolding to_nibble
to_nibble-lt granted h = omega arith
to_nibble-lt denied h = omega arith
to_nibble-lt (proprietary v) h = omega arith
to_nibble-lt (rfu v) h = omega arith
