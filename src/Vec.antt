-- ===== src/Vec.antt =====
-- src/vec.rs: fallible buffers, on `heapless::Vec` by default and on `Vec` with the `alloc`
-- feature. A vector is the list of its elements.
use nfc_forum_tags.Prelude.{
  ℕ, ◌+◌, ◌≤◌, ◌≡◌, Bool, true, List, [], ◌∷◌, ◌++◌, Option, none, some, length, leb, ltb,
  if◌then◌else◌, arith, refl,
}
use nfc_forum_tags.Outcome.{Outcome, ok, err, Returns}

-- `heapless::Vec<T, N>`, which is not part of the repository: the two operations that the crate
-- calls, and what their documentation promises. `push` hands the item back if the vector is full;
-- `extend_from_slice` fails, and adds nothing, if the slice does not fit.
pub record HeaplessVec : Type 1 where
  pub push : {A : Type 0} → ℕ → List A → A → Option (List A)
  pub extend_from_slice : {A : Type 0} → ℕ → List A → List A → Option (List A)
  pub push_lem :
      {A : Type 0} (n : ℕ) (v : List A) (x : A)
      → push n v x ≡ (if ltb (length v) n then some (v ++ x ∷ []) else none)
  pub extend_from_slice_lem :
      {A : Type 0} (n : ℕ) (v s : List A)
      → extend_from_slice n v s ≡ (if leb (length v + length s) n then some (v ++ s) else none)

-- The two ways to build the crate.
pub data Build : Type 1 where
  default : HeaplessVec → Build
  alloc : Build

pub data BufferFullError : Type 0 where
  buffer_full_error : BufferFullError

abbrev or_full : {A : Type 0} → Option A → Outcome BufferFullError A
or_full none = err buffer_full_error
or_full (some a) = ok a

-- `VecExt::try_push` and `VecExt::try_extend`, for a capacity of `n`.
unfoldable pub try_push : {A : Type 0} → Build → ℕ → List A → A → Outcome BufferFullError (List A)
try_push (default h) n v x = or_full (h.push n v x)
try_push alloc n v x = ok (v ++ x ∷ [])

unfoldable pub try_extend :
    {A : Type 0} → Build → ℕ → List A → List A → Outcome BufferFullError (List A)
try_extend (default h) n v s = or_full (h.extend_from_slice n v s)
try_extend alloc n v s = ok (v ++ s)

-- `DataVec` holds 1024 bytes in the default build.
abbrev pub data_capacity : ℕ
data_capacity = 1024

-- Whether a vector of `n` elements fits a capacity.
unfoldable pub fits : Build → ℕ → ℕ → Bool
fits (default h) cap n = leb n cap
fits alloc cap n = true

pub try_push_lem :
    {A : Type 0} (b : Build) (n : ℕ) (v : List A) (x : A)
    → try_push b n v x
      ≡ (if fits b n (length v + 1) then ok (v ++ x ∷ []) else err buffer_full_error)
unfolding try_push fits
try_push_lem (default h) n v x = ground (arith, h.push_lem n v x)
try_push_lem alloc n v x = refl

pub try_extend_lem :
    {A : Type 0} (b : Build) (n : ℕ) (v s : List A)
    → try_extend b n v s
      ≡ (if fits b n (length v + length s) then ok (v ++ s) else err buffer_full_error)
unfolding try_extend fits
try_extend_lem (default h) n v s = ground (arith, h.extend_from_slice_lem n v s)
try_extend_lem alloc n v s = refl

-- Less than what fits fits.
pub fits-le : (b : Build) (cap m n : ℕ) → m ≤ n → fits b cap n ≡ true → fits b cap m ≡ true
unfolding fits
fits-le (default h) cap m n l f = ground arith
fits-le alloc cap m n l f = refl

pub try_push-Returns :
    {A : Type 0} (b : Build) (n : ℕ) (v : List A) (x : A) → Returns (try_push b n v x)
try_push-Returns b n v x = ground (arith, try_push_lem b n v x)

pub try_extend-Returns :
    {A : Type 0} (b : Build) (n : ℕ) (v s : List A) → Returns (try_extend b n v s)
try_extend-Returns b n v s = ground (arith, try_extend_lem b n v s)

pub fits-zero : (b : Build) (cap : ℕ) → fits b cap 0 ≡ true
unfolding fits
fits-zero (default h) cap = ground arith
fits-zero alloc cap = refl
