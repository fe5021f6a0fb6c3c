-- ===== src/Outcome.antt =====
-- What a Rust function that may fail comes back with.
use nfc_forum_tags.Prelude.{
  ◌≡◌, ◌<◌, ℕ, List, none, some, get_elem?, take, drop, leb, le→leb, ◌+◌, ◌≤◌, All, [], ◌∷◌, zero,
  suc, length, arith, refl, Bool, true, false, if◌then◌else◌,
}
use mathlib.Core.Path.{subst}

-- `panic` is an index out of range or an `unwrap` of `None`. `stuck` is no Rust value: a loop of
-- the model ran out of fuel.
pub data Outcome (E A : Type 0) : Type 0 where
  ok : A → Outcome E A
  err : E → Outcome E A
  panic : Outcome E A
  stuck : Outcome E A

-- The `?` operator, where the error needs no conversion.
infixl 5 ◌>>=◌
abbrev pub ◌>>=◌ : {E A B : Type 0} → Outcome E A → (A → Outcome E B) → Outcome E B
ok a >>= f = f a
err e >>= f = err e
panic >>= f = panic
stuck >>= f = stuck

-- `map_err`, which `?` applies with `From::from`.
abbrev pub map_err : {E F A : Type 0} → (E → F) → Outcome E A → Outcome F A
map_err f (ok a) = ok a
map_err f (err e) = err (f e)
map_err f panic = panic
map_err f stuck = stuck

-- `xs[i]`
abbrev pub index : {E A : Type 0} → List A → ℕ → Outcome E A
index xs i = elim (get_elem? xs i) [ none ↦ panic | some a ↦ ok a ]

-- `&xs[start..start + n]`
abbrev pub slice : {E A : Type 0} → List A → ℕ → ℕ → Outcome E (List A)
slice xs start n = if leb (start + n) (length xs) then ok (take n (drop start xs)) else panic

pub slice-ok :
    (E : Type 0) {A : Type 0} (xs : List A) (start n : ℕ)
    → start + n ≤ length xs
    → slice {E = E} xs start n ≡ ok (take n (drop start xs))
slice-ok E xs start n h = rw (le→leb (start + n) (length xs) h) refl

-- The function returned: no panic, no loop without an end, and a result as promised.
abbrev pub Ensures : {E A : Type 0} → (A → Type 0) → Outcome E A → Type 0
Ensures P (ok a) = P a
Ensures P (err e) = Unit
Ensures P panic = ⊥
Ensures P stuck = ⊥

abbrev pub Returns : {E A : Type 0} → Outcome E A → Type 0
Returns r = Ensures (λ _. Unit {0}) r

-- A chain keeps its promise if its parts do.
pub >>=-Ensures :
    {E A B : Type 0} (P : A → Type 0) (Q : B → Type 0) (m : Outcome E A) (f : A → Outcome E B)
    → Ensures P m
    → ((a : A) → P a → Ensures Q (f a))
    → Ensures Q (m >>= f)
>>=-Ensures P Q (ok a) f h k = k a h
>>=-Ensures P Q (err e) f h k = tt
>>=-Ensures P Q panic f h k = absurd h
>>=-Ensures P Q stuck f h k = absurd h

pub map_err-Ensures :
    {E F A : Type 0} (P : A → Type 0) (f : E → F) (m : Outcome E A)
    → Ensures P m
    → Ensures P (map_err f m)
map_err-Ensures P f (ok a) h = h
map_err-Ensures P f (err e) h = tt
map_err-Ensures P f panic h = absurd h
map_err-Ensures P f stuck h = absurd h

-- What holds of an answer, by the promise.
pub Ensures-ok :
    {E A : Type 0} (P : A → Type 0) (m : Outcome E A) (a : A) → Ensures P m → m ≡ ok a → P a
Ensures-ok P (ok x) a h e = subst (λ r. Ensures P r) e h
Ensures-ok P (err x) a h e = cc
Ensures-ok P panic a h e = absurd h
Ensures-ok P stuck a h e = absurd h

pub Ensures-Returns : {E A : Type 0} (P : A → Type 0) (m : Outcome E A) → Ensures P m → Returns m
Ensures-Returns P (ok a) h = tt
Ensures-Returns P (err e) h = tt
Ensures-Returns P panic h = h
Ensures-Returns P stuck h = h

pub >>=-Returns :
    {E A B : Type 0} (m : Outcome E A) (f : A → Outcome E B)
    → Returns m
    → ((a : A) → Returns (f a))
    → Returns (m >>= f)
>>=-Returns m f h k = >>=-Ensures (λ _. Unit {0}) (λ _. Unit {0}) m f h (λ a _. k a)

-- A branch keeps a promise if both do.
pub Ensures-if :
    {E A : Type 0} (P : A → Type 0) (b : Bool) (m n : Outcome E A)
    → (b ≡ true → Ensures P m)
    → (b ≡ false → Ensures P n)
    → Ensures P (if b then m else n)
Ensures-if P true m n hm hn = hm refl
Ensures-if P false m n hm hn = hn refl

pub index-Ensures :
    (E : Type 0) {A : Type 0} (P : A → Type 0) (xs : List A) (i : ℕ)
    → All P xs
    → i < length xs
    → Ensures P (index {E = E} xs i)
index-Ensures E P [] i h l = elim l [ ]
index-Ensures E P (x ∷ xs) zero h l = h.0
index-Ensures E P (x ∷ xs) (suc i) h l = index-Ensures E P xs i h.1 (omega arith)

-- A promise about every answer of what returns.
pub Ensures-cases :
    {E A : Type 0} (P : A → Type 0) (m : Outcome E A)
    → Returns m
    → ((a : A) → m ≡ ok a → P a)
    → Ensures P m
Ensures-cases P (ok a) h k = k a refl
Ensures-cases P (err e) h k = tt
Ensures-cases P panic h k = h
Ensures-cases P stuck h k = h

pub Ensures-elim :
    {E A : Type 0} (P : A → Type 0) (b : Bool) (m n : Outcome E A)
    → Ensures P m
    → Ensures P n
    → Ensures P (elim b [ true ↦ m | false ↦ n ])
Ensures-elim P true m n hm hn = hm
Ensures-elim P false m n hm hn = hn

-- A promise that follows from another.
pub Ensures-weaken :
    {E A : Type 0} (P Q : A → Type 0) (m : Outcome E A)
    → Ensures P m
    → ((a : A) → P a → Q a)
    → Ensures Q m
Ensures-weaken P Q (ok a) h k = k a h
Ensures-weaken P Q (err e) h k = tt
Ensures-weaken P Q panic h k = h
Ensures-weaken P Q stuck h k = h

-- Two promises.
pub Ensures-and :
    {E A : Type 0} (P Q : A → Type 0) (m : Outcome E A)
    → Ensures P m
    → Ensures Q m
    → Ensures (λ a. P a × Q a) m
Ensures-and P Q (ok a) h k = (h, k)
Ensures-and P Q (err e) h k = tt
Ensures-and P Q panic h k = h
Ensures-and P Q stuck h k = h

pub ok-injective : {E A : Type 0} (x y : A) → ◌≡◌ {A = Outcome E A} (ok x) (ok y) → x ≡ y
ok-injective x y e = cc

-- A chain that answers has an answer at each link.
pub bind_ok :
    {E A B : Type 0} (m : Outcome E A) (f : A → Outcome E B) (b : B)
    → m >>= f ≡ ok b
    → (a : A) × (m ≡ ok a) × (f a ≡ ok b)
bind_ok (ok a) f b e = (a, refl, e)
bind_ok (err x) f b e = absurd (cc)
bind_ok panic f b e = absurd (cc)
bind_ok stuck f b e = absurd (cc)
