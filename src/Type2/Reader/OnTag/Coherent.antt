-- ===== src/Type2/Reader/OnTag/Coherent.antt =====
-- What the reader's fields (src/type2/reader.rs, `T2TReader`) say of the tag.
use nfc_forum_tags.Prelude.{ℕ, ◌≡◌, refl, ◌<◌, List, Option, none, some}
use nfc_forum_tags.Type2.Reader.State.{Transceiver, known, T2tReader, Action}
use nfc_forum_tags.Type2.Reader.Triple.{Triple}
use nfc_forum_tags.Type2.Reader.Valid.{IsValid, IsLost}
use nfc_forum_tags.Type2.TagMemory.{Memory, four_blocks, IsTag}

-- What is in the cache is what a READ of that block answers.
abbrev pub IsCopy : Memory → ℕ → Option ℕ → List ℕ → Type 0
IsCopy mem s block bytes = (n : ℕ) → block ≡ some n → (n < 256) × (bytes ≡ four_blocks mem s n)

-- Nothing in the cache is a copy of anything.
pub none-IsCopy : (mem : Memory) (s : ℕ) (bytes : List ℕ) → IsCopy mem s none bytes
none-IsCopy mem s bytes n e = absurd (cc)

module _ {t : Transceiver} (tag : IsTag t) where
  open t use {Device}

  -- The invariant: the reader is valid, the sector that it takes for selected is selected, and its
  -- cache is a copy of the memory of that sector. `K` says what the memory is.
  pub record IsCoherent (K : Memory → Type 0) (r : T2tReader Device) : Type 0 where
    pub valid : IsValid r
    pub holds : K (tag.memory r.device)
    pub selected : (s : ℕ) → r.sector ≡ known s → tag.selected r.device ≡ s
    pub copy :
        (s : ℕ) → r.sector ≡ known s → IsCopy (tag.memory r.device) s r.cache_block r.cache_data

  -- The same, with a sector that is taken for selected.
  abbrev pub IsCoherentIn : ℕ → (Memory → Type 0) → T2tReader Device → Type 0
  IsCoherentIn s K r = IsCoherent K r × (r.sector ≡ known s)

  -- The sector is selected, and the cache is as `J` says.
  pub record IsAt (s : ℕ) (J : Option ℕ → List ℕ → Type 0) (K : Memory → Type 0)
      (r : T2tReader Device) : Type 0 where
    pub valid : IsValid r
    pub sector : r.sector ≡ known s
    pub selected : tag.selected r.device ≡ s
    pub cache : J r.cache_block r.cache_data
    pub holds : K (tag.memory r.device)

  -- Nothing is assumed of the tag but what its memory is.
  abbrev pub IsLostWith : (Memory → Type 0) → T2tReader Device → Type 0
  IsLostWith K r = IsLost r × K (tag.memory r.device)

  pub lost-IsCoherent :
      (K : Memory → Type 0) (r : T2tReader Device) → IsLostWith K r → IsCoherent K r
  lost-IsCoherent K r l = record {
    valid = l.0.valid;
    holds = l.1;
    selected = λ s e. cc (e, l.0.sector);
    copy = λ s e. cc (e, l.0.sector);
  }

  pub IsCoherent-weaken :
      (K L : Memory → Type 0) (r : T2tReader Device)
      → ((m : Memory) → K m → L m)
      → IsCoherent K r
      → IsCoherent L r
  IsCoherent-weaken K L r f c = record {
    valid = c.valid;
    holds = f _ c.holds;
    selected = c.selected;
    copy = c.copy;
  }

  -- The memory that a reader is at, by name.
  pub at_memory :
      {A : Type 0} {I : T2tReader Device → Type 0} (K : Memory → Type 0)
      (f : Action Device t.Error A) (Q : A → T2tReader Device → Type 0)
      → ((m : Memory) → K m → ((a : ℕ) → m a < 256) → Triple I (IsCoherent (λ m'. m' ≡ m)) f Q)
      → Triple I (IsCoherent K) f Q
  at_memory K f Q h = record {
    run = λ r c.
        (h (tag.memory r.device) c.holds (tag.stored r.device)).run r
          (record { valid = c.valid; holds = refl; selected = c.selected; copy = c.copy });
  }
