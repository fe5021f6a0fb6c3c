-- ===== src/Type2/Reader/OnTag/Message.antt =====
-- The NDEF message that a memory holds, described apart from the code that searches for it
-- (src/type2/reader.rs, `read_data_area_with_layout` and `read_ndef`).
use nfc_forum_tags.Prelude.{
  sym, ltb-false→le, ℕ, ◌*◌, ◌<◌, ◌≡◌, ◌⊎◌, inl, inr, refl, arith, Bool, true, false, not, ◌&&◌,
  List, [], ◌∷◌, ◌++◌, All, if◌then◌else◌,
}
use mathlib.Core.Path.{subst}
use nfc_forum_tags.Outcome.{Outcome, ok, err, bind_ok, ok-injective}
use nfc_forum_tags.Vec.{Build}
use nfc_forum_tags.Tag.{granted}
use nfc_forum_tags.Type2.Error.{Type2Error, invalid_magic}
use nfc_forum_tags.Type2.Cc.{CapabilityContainer, is_dynamic, is_valid}
use nfc_forum_tags.Type2.Tlv.{
  Tlv, null, lock_control, memory_control, ndef_message, proprietary, terminator, parse_tlvs,
  ndef_data,
}
use nfc_forum_tags.Type2.Memory.{from_cc_and_tlvs, any}
use nfc_forum_tags.Type2.Reader.DataArea.{is_control, first_ndef}
use nfc_forum_tags.Type2.TagMemory.{Memory}
use nfc_forum_tags.Type2.Reader.OnTag.Contents.{cc_of, data_area_of, full_data_area_of, message_of}

abbrev pub IsNdef : Tlv → Type 0
IsNdef (ndef_message v) = Unit
IsNdef null = ⊥
IsNdef (lock_control v) = ⊥
IsNdef (memory_control v) = ⊥
IsNdef (proprietary v) = ⊥
IsNdef terminator = ⊥

-- The value of an NDEF Message with none before it, or nothing if there is none.
abbrev pub IsFirstNdef : List Tlv → List ℕ → Type 0
IsFirstNdef ts message =
    ((before : List Tlv) × (after : List Tlv) × (ts ≡ before ++ (ndef_message message ∷ after))
      × All (λ t. ¬ IsNdef t) before)
    ⊎ (All (λ t. ¬ IsNdef t) ts × (message ≡ []))

-- There is a Lock Control or a Memory Control block.
abbrev pub HasControl : List Tlv → Type 0
HasControl [] = ⊥
HasControl (lock_control v ∷ ts) = Unit
HasControl (memory_control v ∷ ts) = Unit
HasControl (null ∷ ts) = HasControl ts
HasControl (ndef_message v ∷ ts) = HasControl ts
HasControl (proprietary v ∷ ts) = HasControl ts
HasControl (terminator ∷ ts) = HasControl ts

-- The data area behind one pass, or behind two if it has more than 48 bytes and the first pass finds
-- control blocks.
abbrev pub Passes :
    (b : Build) (mem : Memory) (container : CapabilityContainer) (first : List Tlv) (area : List ℕ)
    → Type 0
Passes b mem container first area =
    ((48 < container.size_field * 8)
      × HasControl first
      × (area ≡ data_area_of mem (from_cc_and_tlvs b container first)))
    ⊎ ((¬ ((48 < container.size_field * 8) × HasControl first))
        × (area ≡ data_area_of mem (from_cc_and_tlvs b container [])))

-- The container is of version 1 with read access granted. The usable bytes up to the Terminator,
-- with the layout of the container, are parsed to the blocks `first`; behind one pass or two, the
-- blocks `tlvs` have the message as the first NDEF Message.
pub record HoldsMessage (b : Build) (mem : Memory) (message : List ℕ) : Type 0 where
  pub container : CapabilityContainer
  pub first : List Tlv
  pub area : List ℕ
  pub tlvs : List Tlv
  pub read : cc_of mem ≡ ok container
  pub version : container.version_major ≡ 1
  pub readable : container.read_access ≡ granted
  pub parsed_first : parse_tlvs b (data_area_of mem (from_cc_and_tlvs b container [])) ≡ ok first
  pub passes : Passes b mem container first area
  pub parsed : parse_tlvs b area ≡ ok tlvs
  pub found : IsFirstNdef tlvs message

pass_over :
    (t : Tlv) (ts : List Tlv) (message : List ℕ)
    → ¬ IsNdef t
    → IsFirstNdef ts message
    → IsFirstNdef (t ∷ ts) message
pass_over t ts message h (inl (before, after, e, n)) = inl (t ∷ before, after, cc (e), (h, n))
pass_over t ts message h (inr (n, e)) = inr ((h, n), e)

pub first_ndef-IsFirstNdef : (ts : List Tlv) → IsFirstNdef ts (first_ndef ts)
unfolding first_ndef ndef_data
first_ndef-IsFirstNdef [] = inr (tt, refl)
first_ndef-IsFirstNdef (ndef_message v ∷ ts) = inl ([], ts, refl, tt)
first_ndef-IsFirstNdef (null ∷ ts) = pass_over null ts _ (λ x. x) (first_ndef-IsFirstNdef ts)
first_ndef-IsFirstNdef (lock_control v ∷ ts) =
    pass_over (lock_control v) ts _ (λ x. x) (first_ndef-IsFirstNdef ts)
first_ndef-IsFirstNdef (memory_control v ∷ ts) =
    pass_over (memory_control v) ts _ (λ x. x) (first_ndef-IsFirstNdef ts)
first_ndef-IsFirstNdef (proprietary v ∷ ts) =
    pass_over (proprietary v) ts _ (λ x. x) (first_ndef-IsFirstNdef ts)
first_ndef-IsFirstNdef (terminator ∷ ts) =
    pass_over terminator ts _ (λ x. x) (first_ndef-IsFirstNdef ts)

has_control : (ts : List Tlv) → any is_control ts ≡ true → HasControl ts
has_control [] e = cc
has_control (lock_control v ∷ ts) e = tt
has_control (memory_control v ∷ ts) e = tt
has_control (null ∷ ts) e = has_control ts e
has_control (ndef_message v ∷ ts) e = has_control ts e
has_control (proprietary v ∷ ts) e = has_control ts e
has_control (terminator ∷ ts) e = has_control ts e

no_control : (ts : List Tlv) → any is_control ts ≡ false → ¬ HasControl ts
no_control [] e h = h
no_control (lock_control v ∷ ts) e h = cc (e)
no_control (memory_control v ∷ ts) e h = cc (e)
no_control (null ∷ ts) e h = no_control ts e h
no_control (ndef_message v ∷ ts) e h = no_control ts e h
no_control (proprietary v ∷ ts) e h = no_control ts e h
no_control (terminator ∷ ts) e h = no_control ts e h

valid-parts :
    (container : CapabilityContainer)
    → is_valid container ≡ true
    → (container.version_major ≡ 1) × (container.read_access ≡ granted)
unfolding is_valid
valid-parts container v = ground arith

either_pass :
    (b : Build) (mem : Memory) (container : CapabilityContainer) (first : List Tlv) (area : List ℕ)
    (dynamic controls : Bool)
    → is_dynamic container ≡ dynamic
    → any is_control first ≡ controls
    → ◌≡◌ {A = Outcome Type2Error (List ℕ)}
        (if dynamic && controls
          then ok (data_area_of mem (from_cc_and_tlvs b container first))
          else ok (data_area_of mem (from_cc_and_tlvs b container [])))
        (ok area)
    → Passes b mem container first area
unfolding is_dynamic
either_pass b mem container first area true true d c e =
    inl (ground arith, has_control first c, sym (ok-injective _ _ e))
either_pass b mem container first area true false d c e =
    inr (λ h. no_control first c h.1, sym (ok-injective _ _ e))
either_pass b mem container first area false controls d c e =
    inr
      (λ h. omega (arith, ltb-false→le 0x06 container.size_field d, h.0), sym (ok-injective _ _ e))

valid_or :
    (v : Bool) (m : Outcome Type2Error (List ℕ)) (message : List ℕ)
    → (if not v then err (invalid_magic 0) else m) ≡ ok message
    → (v ≡ true) × (m ≡ ok message)
valid_or true m message e = (refl, e)
valid_or false m message e = absurd (cc)

-- What is computed from the memory is the message that it holds.
pub message_of-HoldsMessage :
    (b : Build) (mem : Memory) (message : List ℕ)
    → message_of b mem ≡ ok message
    → HoldsMessage b mem message
unfolding message_of full_data_area_of
message_of-HoldsMessage b mem message e =
    let (container, r, e1) = bind_ok (cc_of mem) _ message e in
    let (v, e2) = valid_or (is_valid container) _ message e1 in
    let (area, a, e3) = bind_ok (full_data_area_of b container mem) _ message e2 in
    let (tlvs, p, e4) = bind_ok (parse_tlvs b area) _ message e3 in
    let (first, q, e5) =
      bind_ok (parse_tlvs b (data_area_of mem (from_cc_and_tlvs b container []))) _ area a in
    record {
      container = container;
      first = first;
      area = area;
      tlvs = tlvs;
      read = r;
      version = (valid-parts container v).0;
      readable = (valid-parts container v).1;
      parsed_first = q;
      passes =
          either_pass b mem container first area (is_dynamic container) (any is_control first) refl
            refl e5;
      parsed = p;
      found = subst (IsFirstNdef tlvs) (ok-injective _ _ e4) (first_ndef-IsFirstNdef tlvs);
    }
