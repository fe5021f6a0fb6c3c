-- ===== src/Type2/Reader/OnTag/Renewed.antt =====
-- A tag that holds a message, after another one has been written (src/type2/reader.rs, `write_ndef`).
use nfc_forum_tags.Prelude.{
  ◌⊎◌, inl, inr, drop, length-append, ℕ, ◌+◌, ◌-◌, ◌<◌, ◌≡◌, ◌∙◌, sym, ap, arith, true, List, [],
  ◌∷◌, ◌++◌, append_assoc, append-nil, length, All, IsByte, All-append,
}
use mathlib.Core.Path.{subst, subst⁻¹, ap₂}
use nfc_forum_tags.Vec.{Build}
use nfc_forum_tags.Length.RoundTrip.{length_field}
use nfc_forum_tags.Type2.Geometry.{address_space_end}
use nfc_forum_tags.Type2.Cc.{CapabilityContainer, is_valid, is_granted, data_area_size}
use nfc_forum_tags.Type2.Cc
use nfc_forum_tags.Type2.Tlv.{Tlv, ndef_message, tlv_terminator, tlv_ndef_message}
use nfc_forum_tags.Type2.Tlv.Blocks.{IsWritable, block_bytes}
use nfc_forum_tags.Type2.Tlv.RoundTrip.{stream}
use nfc_forum_tags.Type2.Memory.{MemoryLayout, from_cc_and_tlvs}
use nfc_forum_tags.Type2.Memory.Usable.{usable_count}
use nfc_forum_tags.Type2.Reader.Ndef.{Target, length_bytes}
use nfc_forum_tags.Type2.Reader.Located.{zero_field}
use nfc_forum_tags.Type2.Reader.Offset.{stream-append}
use nfc_forum_tags.Type2.TagMemory.{Memory}
use nfc_forum_tags.Type2.Reader.OnTag.Checks.{IsWritten, IsTouched, target_of}
use nfc_forum_tags.Type2.Reader.OnTag.DataBytes.{usable_bytes, usable_bytes-add}
use nfc_forum_tags.Type2.Reader.OnTag.Overwrite.{overwrite}
use nfc_forum_tags.Type2.Reader.OnTag.Restored.{usable_bytes-cong}
use nfc_forum_tags.Type2.Reader.OnTag.Holding.{IsPrefix, IsHolding}
use nfc_forum_tags.Type2.Reader.OnTag.Replaced.{IsRewritten, left, replaced, kept_below}
use nfc_forum_tags.Type2.Reader.OnTag.Payload
use nfc_forum_tags.Type2.Reader.OnTag.Placed.{IsPlaced, usable-IsNext, stands, place, front}
use nfc_forum_tags.Type2.Reader.OnTag.Region.{IsKeptOutside, IsReplaced}
use nfc_forum_tags.Type2.Reader.OnTag.Frame.{IsFrame}
use nfc_forum_tags.Outcome.{ok}

module _ (b : Build) (container : CapabilityContainer) (pre : List Tlv) (p : IsPrefix b pre)
    (old message : List ℕ) (wo : IsWritable b (ndef_message old))
    (w : IsWritable b (ndef_message message)) (mem : Memory) (v : is_valid container ≡ true)
    (h : IsHolding b container pre old mem) (narrow : container.size_field < 256) where
  abbrev n : ℕ
  n = length message

  -- What the checks allow to change lies between the block and the data area's end.
  kept_outside :
      (m : Memory) (target : Target)
      → target_of b mem n ≡ ok target
      → IsFrame target.layout target.ndef_byte_addr target.write_limit_addr mem m
      → IsKeptOutside b container pre mem m
  kept_outside m target e f =
      let i = stands p wo h message v narrow target e in
      let end : target.write_limit_addr - 1 + 1 ≡ target.write_limit_addr =
        omega (arith, i.last.0) in
      record {
        block_addr = target.ndef_byte_addr;
        last_addr = target.write_limit_addr - 1;
        start = i.start;
        last = unfold data_area_size in i.last;
        frame =
            subst⁻¹ (λ x. IsFrame (from_cc_and_tlvs b container []) target.ndef_byte_addr x mem m)
              end
              (subst (λ l. IsFrame l target.ndef_byte_addr target.write_limit_addr mem m) i.layout
                f);
      }

  pub touched :
      (m : Memory) → IsTouched b mem message m → (m ≡ mem) ⊎ IsKeptOutside b container pre mem m
  touched m (inl e) = inl e
  touched m (inr (target, e, f)) = inr (kept_outside m target e f)

  -- After the message has been written, the tag holds it.
  module _ (m : Memory) (iw : IsWritten b mem message m) where
    abbrev na : ℕ
    na = iw.target.ndef_byte_addr

    abbrev la : ℕ
    la = iw.l_addr

    abbrev layout : MemoryLayout
    layout = from_cc_and_tlvs b container []

    placed : IsPlaced b container pre n na la
    placed = (place p wo h message v narrow m iw).0

    next : (na < la) × (usable_count layout (na + 1) (la - (na + 1)) ≡ 0)
    next = usable-IsNext layout (length (stream pre)) na la placed.start placed.field

    first :
        overwrite layout
          (address_space_end - na)
          na
          (tlv_ndef_message ∷ (zero_field n ++ (message ++ tlv_terminator ∷ [])))
          mem
        ≡ ([], iw.half)
    first =
        subst
          (λ l.
            overwrite l (address_space_end - na) na
              (tlv_ndef_message ∷ (zero_field n ++ (message ++ tlv_terminator ∷ []))) mem
            ≡ ([], iw.half))
          (place p wo h message v narrow m iw).1
          (ap (λ l. overwrite iw.target.layout (address_space_end - na) na l mem)
              (sym ((Payload.payload_bytes b container pre p message w) iw.payload iw.built))
            ∙ iw.body)

    second : overwrite layout (address_space_end - la) la (length_bytes n) iw.half ≡ ([], m)
    second =
        subst (λ l. overwrite l (address_space_end - la) la (length_bytes n) iw.half ≡ ([], m))
          (place p wo h message v narrow m iw).1 iw.field

    payload-IsByte :
        All IsByte (tlv_ndef_message ∷ (zero_field n ++ (message ++ tlv_terminator ∷ [])))
    payload-IsByte = (
      omega arith,
      All-append IsByte (zero_field n) (message ++ tlv_terminator ∷ [])
          (Payload.zeros-IsByte b container pre p message w)
          (All-append IsByte message (tlv_terminator ∷ []) w.0.0 (omega arith, tt)),
    )

    rewritten :
        IsRewritten layout na la mem iw.half m tlv_ndef_message
          (zero_field n)
          (length_bytes n)
          (message ++ tlv_terminator ∷ [])
    rewritten = record {
      usable = placed.start.2;
      order = next.0;
      inside = placed.field.1;
      next = next.1;
      first = first;
      second = second;
      bytes = payload-IsByte;
      field_bytes = Payload.length_bytes-IsByte b container pre p message w;
      size = Payload.length-length_bytes b container pre p message w;
    }

    below : (i : ℕ) → i < na → m i ≡ mem i
    below = kept_below rewritten

    abbrev behind : List ℕ
    behind = left rewritten

    block_and_rest :
        usable_bytes layout m na (address_space_end - na)
        ≡ block_bytes (ndef_message message) ++ (tlv_terminator ∷ behind)
    block_and_rest =
        replaced rewritten
        ∙ ap (λ l. tlv_ndef_message ∷ l)
            (ap (λ f. f ++ ((message ++ tlv_terminator ∷ []) ++ behind))
                (Payload.length_bytes-length_field b container pre p message w)
              ∙ ap (λ l. length_field n ++ l) (append_assoc message (tlv_terminator ∷ []) behind)
              ∙ sym (append_assoc (length_field n) message (tlv_terminator ∷ behind)))

    whole :
        usable_bytes layout m 16 (address_space_end - 16)
        ≡ stream (pre ++ ndef_message message ∷ []) ++ (tlv_terminator ∷ behind)
    whole =
        let parts : address_space_end - 16 ≡ na - 16 + (address_space_end - na) =
          omega (arith, placed.start.0, placed.start.1) in
        let here : 16 + (na - 16) ≡ na = omega (arith, placed.start.0) in
        ap (usable_bytes layout m 16) parts
        ∙ usable_bytes-add layout m 16 (na - 16) (address_space_end - na)
        ∙ ap₂ (λ f a. f ++ usable_bytes layout m a (address_space_end - na))
            (usable_bytes-cong layout m mem 16 (na - 16) (λ i l u. below i (omega (arith, here, u)))
              ∙ front p wo h message v narrow na placed.start)
            here
        ∙ ap (λ l. stream pre ++ l) block_and_rest
        ∙ sym (
            append_assoc (stream pre) (block_bytes (ndef_message message))
              (tlv_terminator ∷ behind))
        ∙ ap (λ l. l ++ (tlv_terminator ∷ behind))
            (ap (λ l. stream pre ++ l) (sym (append-nil (block_bytes (ndef_message message))))
              ∙ sym (stream-append pre (ndef_message message ∷ [])))

    pub renewed : IsHolding b container pre message m
    renewed = record {
      container =
          ap₂ (λ (x y : ℕ × ℕ). Cc.try_from (x.0, x.1, y.0, y.1))
            (ap₂ (λ x y. (x, y)) (below 12 (omega (arith, placed.start.0)))
              (below 13 (omega (arith, placed.start.0))))
            (ap₂ (λ x y. (x, y)) (below 14 (omega (arith, placed.start.0)))
              (below 15 (omega (arith, placed.start.0))))
          ∙ h.container;
      area = Payload.ends_with b container pre p message w m behind placed.room whole;
    }

    pub renewed-IsReplaced : IsReplaced b container pre mem message m
    unfolding kept_outside
    renewed-IsReplaced =
        let size : length (tlv_ndef_message ∷ (zero_field n ++ (message ++ tlv_terminator ∷ [])))
            ≡ length (block_bytes (ndef_message message)) + 1 =
          omega (
            arith,
            length-append (zero_field n) (message ++ tlv_terminator ∷ []),
            length-append message (tlv_terminator ∷ []),
            length-append (length_field n) message,
            ap length (Payload.length_bytes-length_field b container pre p message w),
            Payload.length-length_bytes b container pre p message w,
          ) in
        record {
          kept = kept_outside m iw.target iw.checked iw.frame;
          bytes =
              subst
                (λ k.
                  usable_bytes layout m na (address_space_end - na)
                  ≡ block_bytes (ndef_message message)
                    ++ (tlv_terminator
                        ∷ drop k (usable_bytes layout mem na (address_space_end - na))))
                size block_and_rest;
        }
