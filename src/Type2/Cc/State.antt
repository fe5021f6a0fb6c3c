-- ===== src/Type2/Cc/State.antt =====
-- The lifecycle state of a tag (src/type2/cc.rs, `tag_state`) against its description.
use nfc_forum_tags.Prelude.{ℕ, ◌<◌, ◌≡◌, ◌↔◌, true, some, arith}
use nfc_forum_tags.Tag.{TagState, initialized, read_write, read_only, granted, denied}
use nfc_forum_tags.Type2.Cc.{CapabilityContainer, data_area_size, is_dynamic, tag_state}

-- The states as the comments of `TagState` in src/tag.rs describe them, with a container that is
-- valid: version 1, read access granted. The description of the first says nothing of write access.
abbrev pub Documented : CapabilityContainer → ℕ → TagState → Type 0
Documented cc len initialized = (cc.version_major ≡ 1) × (cc.read_access ≡ granted) × (len ≡ 0)
Documented cc len read_write =
    (cc.version_major ≡ 1) × (cc.read_access ≡ granted) × (0 < len) × (cc.write_access ≡ granted)
Documented cc len read_only =
    (cc.version_major ≡ 1) × (cc.read_access ≡ granted) × (0 < len) × (cc.write_access ≡ denied)

-- What the code asks for besides: an empty message must be writable.
abbrev pub IsWritableIfEmpty : CapabilityContainer → TagState → Type 0
IsWritableIfEmpty cc initialized = cc.write_access ≡ granted
IsWritableIfEmpty cc read_write = Unit
IsWritableIfEmpty cc read_only = Unit

tag_state_sound :
    (cc : CapabilityContainer) (len : ℕ) (s : TagState)
    → tag_state cc len ≡ some s
    → Documented cc len s × IsWritableIfEmpty cc s
unfolding tag_state
tag_state_sound cc len initialized = ground arith
tag_state_sound cc len read_write = ground arith
tag_state_sound cc len read_only = ground arith

tag_state_complete :
    (cc : CapabilityContainer) (len : ℕ) (s : TagState)
    → Documented cc len s
    → IsWritableIfEmpty cc s
    → tag_state cc len ≡ some s
unfolding tag_state
tag_state_complete cc len initialized h w = ground arith
tag_state_complete cc len read_write h w = ground arith
tag_state_complete cc len read_only h w = ground arith

-- `tag_state` answers a state exactly when the container and the length of the message meet the
-- description of that state in src/tag.rs and, for an empty message, which the description does
-- not ask for, write access is granted.
pub tag_state_iff :
    (cc : CapabilityContainer) (len : ℕ) (s : TagState)
    → (tag_state cc len ≡ some s) ↔ (Documented cc len s × IsWritableIfEmpty cc s)
tag_state_iff cc len s = (tag_state_sound cc len s, λ h. tag_state_complete cc len s h.0 h.1)

-- The dynamic tags are those whose data area is larger than the static structure's 48 bytes.
pub is_dynamic_iff : (cc : CapabilityContainer) → (is_dynamic cc ≡ true) ↔ (48 < data_area_size cc)
unfolding is_dynamic data_area_size
is_dynamic_iff cc = ground arith
