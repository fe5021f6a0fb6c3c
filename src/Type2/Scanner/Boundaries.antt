-- ===== src/Type2/Scanner/Boundaries.antt =====
-- The scanner on the bytes of blocks (src/type2/reader.rs, `TlvScanner`).
use nfc_forum_tags.Prelude.{
  ℕ, zero, suc, ◌+◌, ◌-◌, ◌≤◌, ◌≡◌, refl, ap, ◌∙◌, Bool, true, false, List, [], ◌∷◌, ◌++◌, length,
  Option, none, some, arith, leb, ◌==◌, All, if◌then◌else◌, sym,
}
use mathlib.Core.Option.{some-injective}
use nfc_forum_tags.Vec.{Build}
use nfc_forum_tags.Length.RoundTrip.{length_field}
use nfc_forum_tags.Length.{max_tlv_length}
use nfc_forum_tags.Type2.Tlv.{
  Tlv, null, lock_control, memory_control, ndef_message, proprietary, terminator, tlv_terminator,
}
use nfc_forum_tags.Type2.Tlv.Blocks.{IsWritable, block_bytes}
use nfc_forum_tags.Type2.Tlv.RoundTrip.{stream, Continues}
use nfc_forum_tags.Type2.Scanner.{TlvScanState, tag, length_ext_msb, length_ext_lsb, value, feed}
use nfc_forum_tags.Type2.Scanner

-- The state after some bytes, if the Terminator is not found among them.
abbrev after_answer :
    Bool × TlvScanState → (TlvScanState → Option TlvScanState) → Option TlvScanState
after_answer (true, s) k = none
after_answer (false, s) k = k s

after : TlvScanState → List ℕ → Option TlvScanState
after s [] = some s
after s (x ∷ xs) = after_answer (feed s x) λ s'. after s' xs

-- The position of the byte at which the Terminator is found.
abbrev pub one_more : Option ℕ → Option ℕ
one_more none = none
one_more (some n) = some (n + 1)

pub one_more-some :
    (o : Option ℕ) (n : ℕ) → one_more o ≡ some n → (m : ℕ) × (o ≡ some m) × (n ≡ suc m)
one_more-some none n e = absurd (cc)
one_more-some (some m) n e =
    let next : m + 1 ≡ suc m = omega arith in (m, refl, sym (some-injective (m + 1) n e) ∙ next)

abbrev pub position_answer : Bool × TlvScanState → (TlvScanState → Option ℕ) → Option ℕ
position_answer (true, s) k = some 0
position_answer (false, s) k = one_more (k s)

unfoldable pub terminator_position : TlvScanState → List ℕ → Option ℕ
terminator_position s [] = none
terminator_position s (x ∷ xs) = position_answer (feed s x) λ s'. terminator_position s' xs

after_answer-cong :
    (a : Bool × TlvScanState) (k k' : TlvScanState → Option TlvScanState) (s' : TlvScanState)
    (o : Option TlvScanState)
    → ((s : TlvScanState) → k s ≡ some s' → k' s ≡ o)
    → after_answer a k ≡ some s'
    → after_answer a k' ≡ o
after_answer-cong (true, s) k k' s' o h e = cc
after_answer-cong (false, s) k k' s' o h e = h s e

after-append :
    (s s' : TlvScanState) (xs ys : List ℕ) → after s xs ≡ some s' → after s (xs ++ ys) ≡ after s' ys
unfolding after
after-append s s' [] ys e = ap (λ z. after z ys) (some-injective _ _ e)
after-append s s' (x ∷ xs) ys e =
    after_answer-cong (feed s x) _ _ s' _ (λ z. after-append z s' xs ys) e

-- The value's bytes are counted down.
after-value : (n : ℕ) (v : List ℕ) → length v ≡ suc n → after (value (suc n)) v ≡ some tag
unfolding after feed
after-value n [] e = absurd (omega (arith, e))
after-value zero (x ∷ []) e = ground arith
after-value zero (x ∷ y ∷ v) e = absurd (omega (arith, e))
after-value (suc n) (x ∷ v) e =
    let more : leb (suc (suc n)) 1 ≡ false = ground arith in
    let rest : suc (suc n) - 1 ≡ suc n = omega arith in
    rw (more, rest) (after-value n v (omega arith))

after-length_field :
    (len : ℕ)
    → len ≤ max_tlv_length
    → after TlvScanState.length (length_field len) ≡ some (if len == 0 then tag else value len)
unfolding after feed length_field
after-length_field len h = ground arith

-- A length field and its value.
after-valued :
    (v : List ℕ)
    → length v ≤ max_tlv_length
    → after TlvScanState.length (length_field (length v) ++ v) ≡ some tag
after-valued [] h =
    after-append TlvScanState.length tag (length_field 0) [] (after-length_field 0 h ∙ ground arith)
    ∙ unfold after in refl
after-valued (x ∷ v) h =
    after-append TlvScanState.length (value (suc (length v))) (length_field (suc (length v)))
      (x ∷ v) (after-length_field (suc (length v)) h ∙ ground arith)
    ∙ after-value (length v) (x ∷ v) refl

-- The scanner is between two blocks again after a block that does not end the stream.
after-block :
    (b : Build) (t : Tlv) → IsWritable b t → Continues t → after tag (block_bytes t) ≡ some tag
unfolding after feed
after-block b null w c = ground arith
after-block b (lock_control v) w c = ground arith
after-block b (memory_control v) w c = ground arith
after-block b (ndef_message v) w c = after-valued v w.1
after-block b (proprietary v) w c = after-valued v w.1
after-block b terminator w c = absurd (c refl)

abbrev later : ℕ → Option ℕ → Option ℕ
later n none = none
later n (some k) = some (n + k)

later-suc : (n : ℕ) (o : Option ℕ) → one_more (later n o) ≡ later (suc n) o
later-suc n none = refl
later-suc n (some k) = ap (λ m. some m) (omega arith)

later_zero : (o : Option ℕ) → later 0 o ≡ o
later_zero none = refl
later_zero (some k) = ap (λ m. some m) (omega arith)

position_answer-cong :
    (a : Bool × TlvScanState) (k : TlvScanState → Option TlvScanState) (p : TlvScanState → Option ℕ)
    (s' : TlvScanState) (n : ℕ) (o : Option ℕ)
    → ((s : TlvScanState) → k s ≡ some s' → p s ≡ later n o)
    → after_answer a k ≡ some s'
    → position_answer a p ≡ later (suc n) o
position_answer-cong (true, s) k p s' n o h e = cc
position_answer-cong (false, s) k p s' n o h e = ap one_more (h s e) ∙ later-suc n o

terminator_position-append :
    (s s' : TlvScanState) (xs ys : List ℕ)
    → after s xs ≡ some s'
    → terminator_position s (xs ++ ys) ≡ later (length xs) (terminator_position s' ys)
unfolding after terminator_position
terminator_position-append s s' [] ys e =
    ap (λ z. terminator_position z ys) (some-injective _ _ e)
    ∙ sym (later_zero (terminator_position s' ys))
terminator_position-append s s' (x ∷ xs) ys e =
    position_answer-cong (feed s x) _ _ s' (length xs) (terminator_position s' ys)
      (λ z. terminator_position-append z s' xs ys) e

after-stream :
    (b : Build) (ts : List Tlv)
    → All (IsWritable b) ts
    → All Continues ts
    → after Scanner.new (stream ts) ≡ some Scanner.new
after-stream b [] w c = unfold after in refl
after-stream b (t ∷ ts) w c =
    after-append tag tag (block_bytes t) (stream ts) (after-block b t w.0 c.0)
    ∙ after-stream b ts w.1 c.1

-- Fed the bytes of writable blocks that do not end the stream, and then a Terminator, the scanner
-- answers at the Terminator and at no byte before it.
pub terminator_position-stream :
    (b : Build) (ts : List Tlv) (rest : List ℕ)
    → All (IsWritable b) ts
    → All Continues ts
    → terminator_position Scanner.new (stream ts ++ (tlv_terminator ∷ rest))
      ≡ some (length (stream ts))
terminator_position-stream b ts rest w c =
    terminator_position-append tag tag (stream ts) (tlv_terminator ∷ rest) (after-stream b ts w c)
    ∙ (unfold terminator_position feed in ground arith)
