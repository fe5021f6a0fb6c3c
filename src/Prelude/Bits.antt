-- ===== src/Prelude/Bits.antt =====
-- Two nibbles in a byte. Every `u8` expression `hi << 4 | lo` of the crate is `pack_nibbles`.
use Prim.Native.Nat.{ℕ, zero, suc, ◌+◌, ◌*◌, ◌/◌, ◌%◌, ◌<◌, bit_or}
use mathlib.Core.Path.{◌≡◌, refl}
use mathlib.Core.Bool.{Bool, true, ◌&&◌}
use native.Mathlib.Omega.{arith}
use nfc_forum_tags.Prelude.Tests.{◌==◌, ==_iff}

-- `<< 4` on a `u8` drops what leaves the byte; `|` is the bitwise or.
unfoldable pub pack_nibbles : ℕ → ℕ → ℕ
pack_nibbles hi lo = bit_or (hi * 16 % 256) lo

-- A test that holds of every number below a bound.
unfoldable pub holds_below : (ℕ → Bool) → ℕ → Bool
holds_below test zero = true
holds_below test (suc bound) = holds_below test bound && test bound

pub holds_below-elim :
    (test : ℕ → Bool) (bound n : ℕ) → n < bound → holds_below test bound ≡ true → test n ≡ true
unfolding holds_below
holds_below-elim test zero n l h = absurd (omega (arith, l))
holds_below-elim test (suc bound) n l h = ground (arith, holds_below-elim test bound n)

nibble_table : holds_below (λ x. pack_nibbles (x / 16) (x % 16) == x) 256 ≡ true
unfolding holds_below pack_nibbles
nibble_table = refl

-- A byte is what its two nibbles pack to.
pub pack_nibbles_split : (x : ℕ) → x < 256 → pack_nibbles (x / 16) (x % 16) ≡ x
pack_nibbles_split x h = (==_iff _ x).0 (holds_below-elim _ 256 x h nibble_table)

-- Packing two nibbles loses neither.
pub pack_nibbles_lem : (hi lo : ℕ) → hi < 16 → lo < 16 → pack_nibbles hi lo ≡ hi * 16 + lo
pack_nibbles_lem hi lo h l =
    let e : (hi * 16 + lo) / 16 ≡ hi = omega arith in
    let e' : (hi * 16 + lo) % 16 ≡ lo = omega arith in
    rw (e, e') at (pack_nibbles_split (hi * 16 + lo) (omega arith))
