-- ===== src/Type2/Reader/Valid.antt =====
-- The states of the reader that its methods keep (src/type2/reader.rs, `T2TReader`).
use nfc_forum_tags.Prelude.{ℕ, ◌≡◌, ◌≤◌, List, length, none, All, IsByte}
use nfc_forum_tags.Type2.Geometry.{max_sector}
use nfc_forum_tags.Type2.Memory.{MemoryLayout}
use nfc_forum_tags.Type2.Reader.State.{SectorState, known, unknown, T2tReader}

abbrev pub InRange : SectorState → Type 0
InRange (known s) = s ≤ max_sector
InRange unknown = Unit

-- The invariant: the cache is an array of 16 bytes, and the reserved sector is never taken for
-- selected.
pub record IsValid {D : Type 0} (r : T2tReader D) : Type 0 where
  pub cached : length r.cache_data ≡ 16
  pub bytes : All IsByte r.cache_data
  pub selected : InRange r.sector

-- Nothing is assumed of the tag: its sector is unknown and the cache is empty.
pub record IsLost {D : Type 0} (r : T2tReader D) : Type 0 where
  pub valid : IsValid r
  pub sector : r.sector ≡ unknown
  pub cache : r.cache_block ≡ none

-- The sector is selected, and the cache is empty.
pub record IsSelected {D : Type 0} (s : ℕ) (r : T2tReader D) : Type 0 where
  pub valid : IsValid r
  pub sector : r.sector ≡ known s
  pub cache : r.cache_block ≡ none

-- The bytes of four blocks.
pub record IsSixteen (sixteen : List ℕ) : Type 0 where
  pub size : length sixteen ≡ 16
  pub bytes : All IsByte sixteen

-- The bytes read, no more than the data area has.
abbrev pub IsDataArea : MemoryLayout → List ℕ → Type 0
IsDataArea layout data_area = All IsByte data_area × (length data_area ≤ layout.data_area_size)

module _ {D : Type 0} where
  -- The reader is valid, and in a given state of selection.
  abbrev pub IsIn : SectorState → T2tReader D → Type 0
  IsIn s r = IsValid r × (r.sector ≡ s)

  -- A frame has been received, and the reader is in that state.
  abbrev pub Received : SectorState → List ℕ → T2tReader D → Type 0
  Received s raw r = IsIn s r × All IsByte raw

  -- Sixteen bytes, from the sector that is selected.
  abbrev pub IsBlock : SectorState → List ℕ → T2tReader D → Type 0
  IsBlock s bytes r = IsIn s r × IsSixteen bytes

  -- The reader is valid, and its cache is empty.
  abbrev pub IsUncached : T2tReader D → Type 0
  IsUncached r = IsValid r × (r.cache_block ≡ none)

  abbrev pub IsInUncached : SectorState → T2tReader D → Type 0
  IsInUncached s r = IsValid r × (r.sector ≡ s) × (r.cache_block ≡ none)
