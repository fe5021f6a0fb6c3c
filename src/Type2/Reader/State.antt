-- ===== src/Type2/Reader/State.antt =====
-- The reader's state, its errors and its small methods (src/type2/reader.rs), and the transceiver
-- (src/type2/mod.rs), which is hardware.
use nfc_forum_tags.Prelude.{ℕ, List, [], ◌∷◌, Option, none, some, Bool, false, if◌then◌else◌, ◌==◌}
use nfc_forum_tags.Outcome.{Outcome, ok, err, panic, stuck, map_err}
use nfc_forum_tags.Type2.Error.{Type2Error}

-- What an implementation of the trait answers to a transmission.
pub data Transmission (E A : Type 0) : Type 0 where
  received : A → Transmission E A
  failed : E → Transmission E A

-- The trait `T2TTransceiver`. A call may change the device.
pub record Transceiver : Type 1 where
  pub Device : Type 0
  pub Error : Type 0
  pub transceive : List ℕ → Device → Transmission Error (List ℕ) × Device
  pub transceive_no_response : List ℕ → Device → Transmission Error (Option ℕ) × Device

pub data ReaderError (E : Type 0) : Type 0 where
  transceiver : E → ReaderError E
  protocol : Type2Error → ReaderError E

pub data SectorState : Type 0 where
  known : ℕ → SectorState
  unknown : SectorState

-- `self.sector == SectorState::Known(sector)`
abbrev pub is_known : SectorState → ℕ → Bool
is_known (known s) sector = s == sector
is_known unknown sector = false

-- `cache_data` is an array of 16 bytes.
pub record T2tReader (D : Type 0) : Type 0 where
  pub device : D
  pub sector : SectorState
  pub cache_block : Option ℕ
  pub cache_data : List ℕ
  pub max_retries : ℕ

abbrev pub default_max_retries : ℕ
default_max_retries = 1

abbrev pub zeros16 : List ℕ
zeros16 = 0 ∷ 0 ∷ 0 ∷ 0 ∷ 0 ∷ 0 ∷ 0 ∷ 0 ∷ 0 ∷ 0 ∷ 0 ∷ 0 ∷ 0 ∷ 0 ∷ 0 ∷ 0 ∷ []

module _ {D : Type 0} where
  unfoldable pub new : D → T2tReader D
  new d = record {
    device = d;
    sector = known 0;
    cache_block = none;
    cache_data = zeros16;
    max_retries = default_max_retries;
  }

  unfoldable pub set_max_retries : ℕ → T2tReader D → T2tReader D
  set_max_retries n r = record r { max_retries = n }

  unfoldable pub current_sector : T2tReader D → Option ℕ
  current_sector r = elim r.sector [ known s ↦ some s | unknown ↦ none ]

  abbrev pub sector_state : T2tReader D → SectorState
  sector_state r = r.sector

  abbrev pub invalidate_cache : T2tReader D → T2tReader D
  invalidate_cache r = record r { cache_block = none }

  unfoldable pub mark_tag_state_unknown : T2tReader D → T2tReader D
  mark_tag_state_unknown r = invalidate_cache (record r { sector = unknown })

-- A method on `&mut self`: what it returns, and the reader that it leaves, after an error too.
abbrev pub Action : Type 0 → Type 0 → Type 0 → Type 0
Action D E A = T2tReader D → Outcome (ReaderError E) A × T2tReader D

module _ {D E A : Type 0} where
  abbrev pub pure : A → Action D E A
  pure a r = (ok a, r)

  abbrev pub raise : Type2Error → Action D E A
  raise e r = (err (protocol e), r)

  -- A computation that does not touch the reader, with `From<Type2Error>` for its error.
  abbrev pub lift : Outcome Type2Error A → Action D E A
  lift m r = (map_err protocol m, r)

  abbrev pub or_raise : Option A → Type2Error → Action D E A
  or_raise none e = raise e
  or_raise (some a) e = pure a

module _ {D E A B : Type 0} where
  abbrev pub and_then : Outcome (ReaderError E) A → (A → Action D E B) → Action D E B
  and_then (ok a) f r = f a r
  and_then (err e) f r = (err e, r)
  and_then panic f r = (panic, r)
  and_then stuck f r = (stuck, r)

  infixl 5 ◌>>=◌
  unfoldable pub ◌>>=◌ : Action D E A → (A → Action D E B) → Action D E B
  ◌>>=◌ m f r = let (a, r') = m r in and_then a f r'

module _ {D E A : Type 0} where
  infixl 5 ◌>>◌
  abbrev pub ◌>>◌ : Action D E (Unit {0}) → Action D E A → Action D E A
  m >> k = m >>= λ _. k

module _ {D E : Type 0} where
  abbrev pub modify : (T2tReader D → T2tReader D) → Action D E (Unit {0})
  modify f r = (ok tt, f r)

  abbrev pub gets : {A : Type 0} → (T2tReader D → A) → Action D E A
  gets f r = (ok (f r), r)

  abbrev pub raise_if : Bool → Type2Error → Action D E (Unit {0})
  raise_if c e r = (if c then err (protocol e) else ok tt, r)
