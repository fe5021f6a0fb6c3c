-- ===== src/Type2/Reader/Triple.antt =====
-- Promises of the reader's methods: a rule for each way to build an action (src/type2/reader.rs).
use nfc_forum_tags.Prelude.{
  ℕ, ◌+◌, ◌≤◌, List, length, take, drop, ◌≡◌, refl, Bool, true, false, Option, none, some,
  if◌then◌else◌,
}
use nfc_forum_tags.Outcome.{Outcome, ok, err, panic, stuck, Ensures, slice, slice-ok}
use nfc_forum_tags.Type2.Error.{Type2Error}
use nfc_forum_tags.Type2.Reader.State.{
  ReaderError, T2tReader, Action, pure, raise, lift, or_raise, ◌>>=◌, modify, raise_if, and_then,
}

-- What holds after a call: `Q` of a result, `I` of the reader that an error leaves. A panic and an
-- endless loop are excluded.
abbrev pub Post :
    {D E A : Type 0}
    → (T2tReader D → Type 0)
    → (A → T2tReader D → Type 0)
    → Outcome (ReaderError E) A × T2tReader D
    → Type 0
Post I Q (ok a, r) = Q a r
Post I Q (err e, r) = I r
Post I Q (panic, r) = ⊥
Post I Q (stuck, r) = ⊥

-- From a reader with `P` the action returns, and `Post` holds.
pub record Triple {D E A : Type 0} (I P : T2tReader D → Type 0) (m : Action D E A)
    (Q : A → T2tReader D → Type 0) : Type 0 where
  pub run : (r : T2tReader D) → P r → Post I Q (m r)

-- A slice that lies in the list.
pub Post-slice :
    {D : Type 0} (E : Type 0) {A : Type 0} (I : T2tReader D → Type 0)
    (Q : List A → T2tReader D → Type 0) (xs : List A) (start n : ℕ) (r : T2tReader D)
    → start + n ≤ length xs
    → Q (take n (drop start xs)) r
    → Post {E = E} I Q (slice xs start n, r)
Post-slice E I Q xs start n r h q = rw (slice-ok (ReaderError E) xs start n h) q

module _ {D E A : Type 0} where
  pub Post-if :
      (I : T2tReader D → Type 0) (Q : A → T2tReader D → Type 0) (c : Bool)
      (x y : Outcome (ReaderError E) A × T2tReader D)
      → (c ≡ true → Post I Q x)
      → (c ≡ false → Post I Q y)
      → Post I Q (if c then x else y)
  Post-if I Q true x y h k = h refl
  Post-if I Q false x y h k = k refl

  -- More is known before, less is promised after.
  pub Triple-weaken :
      {I I' P P' : T2tReader D → Type 0} {m : Action D E A} {Q Q' : A → T2tReader D → Type 0}
      → ((r : T2tReader D) → P' r → P r)
      → ((a : A) (r : T2tReader D) → Q a r → Q' a r)
      → ((r : T2tReader D) → I r → I' r)
      → Triple I P m Q
      → Triple I' P' m Q'
  Triple-weaken {I} {I'} {m = m} {Q} {Q'} p q i h = record {
    run = λ r pr. go (m r) (h.run r (p r pr));
  }
    where
      go : (x : Outcome (ReaderError E) A × T2tReader D) → Post I Q x → Post I' Q' x
      go (ok a, r) y = q a r y
      go (err e, r) y = i r y
      go (panic, r) y = y
      go (stuck, r) y = y

module _ {D E A : Type 0} {I : T2tReader D → Type 0} where
  pub Triple-pure :
      (P : T2tReader D → Type 0) (a : A) (Q : A → T2tReader D → Type 0)
      → ((r : T2tReader D) → P r → Q a r)
      → Triple {E = E} I P (pure a) Q
  Triple-pure P a Q h = record { run = h }

  pub Triple-raise :
      (P : T2tReader D → Type 0) (e : Type2Error) (Q : A → T2tReader D → Type 0)
      → ((r : T2tReader D) → P r → I r)
      → Triple {E = E} I P (raise e) Q
  Triple-raise P e Q h = record { run = h }

  pub Triple-if :
      {P : T2tReader D → Type 0} (c : Bool) {m n : Action D E A} {Q : A → T2tReader D → Type 0}
      → (c ≡ true → Triple I P m Q)
      → (c ≡ false → Triple I P n Q)
      → Triple I P (if c then m else n) Q
  Triple-if true hm hn = hm refl
  Triple-if false hm hn = hn refl

  -- A choice before the reader is taken, and one after it.
  pub Triple-choose :
      {P : T2tReader D → Type 0} (c : Bool) {m n : Action D E A} {Q : A → T2tReader D → Type 0}
      → Triple I P m Q
      → Triple I P n Q
      → Triple I P (elim c [ true ↦ m | false ↦ n ]) Q
  Triple-choose true hm hn = hm
  Triple-choose false hm hn = hn

  pub Triple-elim :
      {P : T2tReader D → Type 0} (c : Bool) {m n : Action D E A} {Q : A → T2tReader D → Type 0}
      → (c ≡ true → Triple I P m Q)
      → (c ≡ false → Triple I P n Q)
      → Triple {E = E} I P (λ r. elim c [ true ↦ m r | false ↦ n r ]) Q
  Triple-elim true hm hn = record { run = (hm refl).run }
  Triple-elim false hm hn = record { run = (hn refl).run }

  -- What is known of values only can be used to build the proof.
  pub Triple-given :
      {P : T2tReader D → Type 0} {X : Type 0} {m : Action D E A} {Q : A → T2tReader D → Type 0}
      → (X → Triple I P m Q)
      → Triple I (λ r. P r × X) m Q
  Triple-given h = record { run = λ r p. (h p.1).run r p.0 }

  -- A computation that does not touch the reader.
  pub Triple-lift :
      (P : T2tReader D → Type 0) (m : Outcome Type2Error A) (Q : A → Type 0)
      → ((r : T2tReader D) → P r → I r)
      → Ensures Q m
      → Triple {E = E} I P (lift m) (λ a r. P r × Q a)
  Triple-lift P (ok a) Q i h = record { run = λ r p. (p, h) }
  Triple-lift P (err e) Q i h = record { run = i }
  Triple-lift P panic Q i h = absurd h
  Triple-lift P stuck Q i h = absurd h

  -- The same, with the value that the computation answers.
  pub Triple-answer :
      (P : T2tReader D → Type 0) (m : Outcome Type2Error A)
      → ((r : T2tReader D) → P r → I r)
      → Ensures (λ _. Unit {0}) m
      → Triple {E = E} I P (lift m) (λ a r. P r × (m ≡ ok a))
  Triple-answer P (ok a) i h = record { run = λ r p. (p, refl) }
  Triple-answer P (err e) i h = record { run = i }
  Triple-answer P panic i h = absurd h
  Triple-answer P stuck i h = absurd h

  pub Triple-or_raise :
      (P : T2tReader D → Type 0) (o : Option A) (e : Type2Error)
      → ((r : T2tReader D) → P r → I r)
      → Triple {E = E} I P (or_raise o e) (λ a r. P r × (o ≡ some a))
  Triple-or_raise P none e i = record { run = i }
  Triple-or_raise P (some a) e i = record { run = λ r p. (p, refl) }

module _ {D E : Type 0} {I : T2tReader D → Type 0} where
  pub Triple-raise_if :
      (P : T2tReader D → Type 0) (c : Bool) (e : Type2Error)
      → ((r : T2tReader D) → P r → I r)
      → Triple {E = E} I P (raise_if c e) (λ _ r. P r × (c ≡ false))
  Triple-raise_if P true e i = record { run = i }
  Triple-raise_if P false e i = record { run = λ r p. (p, refl) }

  pub Triple-modify :
      (P : T2tReader D → Type 0) (f : T2tReader D → T2tReader D) (Q : T2tReader D → Type 0)
      → ((r : T2tReader D) → P r → Q (f r))
      → Triple {E = E} I P (modify f) (λ _ r. Q r)
  Triple-modify P f Q h = record { run = h }

module _ {D E A B : Type 0} {I : T2tReader D → Type 0} where
  pub Triple-bind :
      {P : T2tReader D → Type 0} {m : Action D E A} {f : A → Action D E B}
      {Q : A → T2tReader D → Type 0} {R : B → T2tReader D → Type 0}
      → Triple I P m Q
      → ((a : A) → Triple I (Q a) (f a) R)
      → Triple I P (m >>= f) R
  unfolding ◌>>=◌
  Triple-bind {m = m} {f} {Q} {R} hm hf = record { run = λ r p. go (m r) (hm.run r p) }
    where
      go :
          (x : Outcome (ReaderError E) A × T2tReader D) → Post I Q x → Post I R (and_then x.0 f x.1)
      go (ok a, r) y = (hf a).run r y
      go (err e, r) y = y
      go (panic, r) y = absurd y
      go (stuck, r) y = absurd y
