-- ===== src/Type2/Reader/OnTag/WritingNdef.antt =====
-- Writing an NDEF message to a tag (src/type2/reader.rs, `write_ndef`): what becomes of its memory.
use nfc_forum_tags.Prelude.{
  ℕ, ◌+◌, ◌%◌, ◌^◌, ◌≤◌, ◌<◌, ◌≡◌, inl, inr, arith, false, List, length, some, not,
}
use mathlib.Core.Path.{subst}
use nfc_forum_tags.Outcome.{ok, Ensures-Returns}
use nfc_forum_tags.Vec.{Build}
use nfc_forum_tags.Type2.Error.{invalid_magic, read_only, out_of_range}
use nfc_forum_tags.Type2.Cc.{is_valid, is_granted}
use nfc_forum_tags.Type2.Tlv.{parse_tlvs}
use nfc_forum_tags.Type2.Tlv.Total.{parse_tlvs-AreBlocks}
use nfc_forum_tags.Type2.Memory.{usable_offset_to_address}
use nfc_forum_tags.Type2.Reader.State.{Transceiver, T2tReader, Action, or_raise, ◌>>=◌, ◌>>◌}
use nfc_forum_tags.Type2.Reader.Ndef.{Target, locate, build_payload, length_bytes, write_ndef}
use nfc_forum_tags.Type2.Reader.Writer.{write_usable_bytes}
use nfc_forum_tags.Type2.Reader.WritingNdef.{locate-Returns, build_payload-Returns}
use nfc_forum_tags.Type2.Reader.Triple.{
  Triple, Triple-weaken, Triple-answer, Triple-or_raise, Triple-bind, Triple-raise_if, Triple-given,
}
use nfc_forum_tags.Type2.TagMemory.{Memory, IsTag}
use nfc_forum_tags.Type2.Reader.OnTag.Coherent.{
  IsCoherent, IsCoherentIn, IsCoherent-weaken, at_memory,
}
use nfc_forum_tags.Type2.Reader.OnTag.Frame.{IsFrame}
use nfc_forum_tags.Type2.Reader.OnTag.WritingLoop.{Stored, write_usable_bytes-Stored}
use nfc_forum_tags.Type2.Reader.OnTag.Contents.{cc_of, full_data_area_of, full_data_area_of-IsByte}
use nfc_forum_tags.Type2.Reader.OnTag.ReadingNdef.{read_cc-OnTag, read_data_area_with_layout-OnTag}
use nfc_forum_tags.Type2.Reader.OnTag.Checks.{
  target_of, size_of_cc, IsTouched, IsWritten, start-le, IsFrame-trans,
}

module _ {t : Transceiver} (b : Build) (tag : IsTag t) (mem : Memory) (message : List ℕ) where
  open t use {Device, Error}

  abbrev Touched : Memory → Type 0
  Touched m = IsTouched b mem message m

  abbrev Is : Memory → Type 0
  Is m = m ≡ mem

  untouched : (r : T2tReader Device) → IsCoherent tag Is r → IsCoherent tag Touched r
  untouched r c = IsCoherent-weaken tag Is Touched r (λ m e. inl e) c

  with_memory_bytes :
      {A : Type 0} {f : Action Device Error A} {Q : A → T2tReader Device → Type 0}
      → (((a : ℕ) → mem a < 256) → Triple (IsCoherent tag Touched) (IsCoherentIn tag 0 Is) f Q)
      → Triple (IsCoherent tag Touched) (IsCoherentIn tag 0 Is) f Q
  with_memory_bytes h = record {
    run = λ r c.
        (h (subst (λ (m : Memory). (a : ℕ) → m a < 256) c.0.holds (tag.stored r.device))).run r c;
  }

  -- The two writes.
  module _ (target : Target) (payload : List ℕ)
      (checked : target_of b mem (length message) ≡ ok target)
      (built : build_payload b message ≡ ok payload)
      (ahead : (l_addr : ℕ)
        → usable_offset_to_address target.layout ((target.ndef_offset % 2 ^ 16 + 1) % 2 ^ 16)
          ≡ some l_addr
        → target.ndef_byte_addr ≤ l_addr) where
    abbrev Frame : Memory → Memory → Type 0
    Frame m m' = IsFrame target.layout target.ndef_byte_addr target.write_limit_addr m m'

    abbrev Half : Memory → Type 0
    Half m =
        Stored b tag target.layout target.ndef_byte_addr target.write_limit_addr mem mem
          target.ndef_byte_addr payload m

    framed : (r : T2tReader Device) → IsCoherent tag (Frame mem) r → IsCoherent tag Touched r
    framed r c = IsCoherent-weaken tag (Frame mem) Touched r (λ m f. inr (target, checked, f)) c

    field-IsWritten :
        (l_addr : ℕ)
        → usable_offset_to_address target.layout ((target.ndef_offset % 2 ^ 16 + 1) % 2 ^ 16)
          ≡ some l_addr
        → Triple
            (IsCoherent tag Touched)
            (IsCoherent tag Half)
            (write_usable_bytes t b target.layout target.write_limit_addr l_addr
              (length_bytes (length message)))
            (λ _. IsCoherent tag (IsWritten b mem message))
    field-IsWritten l_addr l = at_memory tag Half _ _ λ half h bytes.
        let chain : (m : Memory)
            → IsFrame target.layout l_addr target.write_limit_addr half m
            → Frame mem m =
          λ m g.
            IsFrame-trans target.layout target.ndef_byte_addr l_addr target.write_limit_addr mem
              half m (ahead l_addr l) h.1 g in
        Triple-weaken (λ r c. c)
          (λ _ r c.
            IsCoherent-weaken tag _ (IsWritten b mem message) r
              (λ m s. record {
                target = target;
                payload = payload;
                l_addr = l_addr;
                half = half;
                checked = checked;
                built = built;
                behind_tag = l;
                body = h.0;
                field = s.0;
                frame = chain m s.1;
              })
              c)
          (λ r c. framed r (IsCoherent-weaken tag _ (Frame mem) r chain c))
          (write_usable_bytes-Stored b tag target.layout l_addr target.write_limit_addr half
            (length_bytes (length message)))

    writes-IsWritten :
        Triple {E = Error}
          (IsCoherent tag Touched)
          (IsCoherent tag Is)
          (do
            write_usable_bytes t b target.layout target.write_limit_addr target.ndef_byte_addr
                payload
            l_addr ←
                or_raise
                  (usable_offset_to_address target.layout
                    ((target.ndef_offset % 2 ^ 16 + 1) % 2 ^ 16))
                  out_of_range
            write_usable_bytes t b target.layout target.write_limit_addr l_addr
                (length_bytes (length message)))
          (λ _. IsCoherent tag (IsWritten b mem message))
    writes-IsWritten =
        Triple-bind
          (Triple-weaken (λ r c. c) (λ _ r c. c) framed
            (write_usable_bytes-Stored b tag target.layout target.ndef_byte_addr
              target.write_limit_addr mem payload))
          λ _.
            Triple-bind
              (Triple-or_raise (IsCoherent tag Half) _ out_of_range
                (λ r c. framed r (IsCoherent-weaken tag Half (Frame mem) r (λ m h. h.1) c)))
              λ l_addr.
                Triple-given
                  {X = usable_offset_to_address target.layout
                      ((target.ndef_offset % 2 ^ 16 + 1) % 2 ^ 16)
                    ≡ some l_addr}
                  λ l. field-IsWritten l_addr l

  -- Writing a message stores it where the checks say; an error leaves every other address as it was.
  pub write_ndef-OnTag :
      Triple
        (IsCoherent tag Touched)
        (IsCoherent tag Is)
        (write_ndef t b message)
        (λ _. IsCoherent tag (IsWritten b mem message))
  unfolding write_ndef target_of
  write_ndef-OnTag =
      Triple-bind (Triple-weaken (λ r c. c) (λ _ r q. q) untouched (read_cc-OnTag b tag mem)) λ cc.
        Triple-given {X = cc_of mem ≡ ok cc} λ h.
          Triple-bind
            (Triple-raise_if (IsCoherentIn tag 0 Is) (not (is_valid cc)) (invalid_magic 0)
              (λ r c. untouched r c.0))
            λ _. Triple-given {X = not (is_valid cc) ≡ false} λ v.
              Triple-bind
                (Triple-raise_if (IsCoherentIn tag 0 Is) (not (is_granted cc.write_access))
                  read_only (λ r c. untouched r c.0))
                λ _. Triple-given {X = not (is_granted cc.write_access) ≡ false} λ g.
                  with_memory_bytes λ bytes.
                    Triple-bind
                      (Triple-weaken (λ r c. c.0) (λ _ r q. q) untouched
                        (read_data_area_with_layout-OnTag b tag mem cc))
                      λ data_area. Triple-given {X = full_data_area_of b cc mem ≡ ok data_area} λ a.
                        Triple-bind
                          (Triple-answer (IsCoherent tag Is) (parse_tlvs b data_area) untouched (
                            Ensures-Returns _ _ (
                              parse_tlvs-AreBlocks b data_area
                                (full_data_area_of-IsByte b cc mem data_area bytes a))))
                          λ tlvs. Triple-given {X = parse_tlvs b data_area ≡ ok tlvs} λ p.
                            Triple-bind
                              (Triple-answer (IsCoherent tag Is) (locate b cc tlvs (length message))
                                untouched (locate-Returns b cc tlvs (length message)))
                              λ target.
                                Triple-given {X = locate b cc tlvs (length message) ≡ ok target}
                                  λ e.
                                    Triple-bind
                                      (Triple-answer (IsCoherent tag Is) (build_payload b message)
                                        untouched (build_payload-Returns b message))
                                      λ payload.
                                        Triple-given {X = build_payload b message ≡ ok payload} λ q.
                                          writes-IsWritten target payload (rw (h, v, g, a, p) e) q
                                            λ l_addr l.
                                              start-le b mem message cc tlvs target l_addr
                                                (omega (arith, size_of_cc mem cc h, bytes 14)) e l
