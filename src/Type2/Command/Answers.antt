-- ===== src/Type2/Command/Answers.antt =====
-- What an answer to a command means (src/type2/mod.rs, `parse_answer`).
use nfc_forum_tags.Prelude.{
  ◌++◌, ◌%◌, ◌≤◌, ◌≢◌, ◌⊎◌, inl, inr, ◌↔◌, ◌∙◌, sym, ap, ltb-false, length-append, take-append,
  take-append-drop, drop, ℕ, List, length, arith, ◌≡◌, take, length-take, [], ◌∷◌, Bool, true,
  false, refl, ltb, ltb-false→le, if◌then◌else◌,
}
use nfc_forum_tags.Type2.Error.{Type2Error, invalid_length}
use nfc_forum_tags.Outcome.{Outcome, ok, err, Returns}
use nfc_forum_tags.Type2.Command.{
  Command, read, write, sector_select_part1, sector_select_part2, parse_ack, parse_answer, Answer,
  data_read, ack, nack, passive_ack,
}

-- An acknowledgement is the low nibble 0xA of the frame's first byte; any other nibble is a NACK
-- with that code.
abbrev IsAcknowledged : List ℕ → Answer → Type 0
IsAcknowledged raw a =
    (first : ℕ) × (rest : List ℕ) × (raw ≡ first ∷ rest)
    × (((first % 16 ≡ 0xA) × (a ≡ ack)) ⊎ ((first % 16 ≢ 0xA) × (a ≡ nack (first % 16))))

-- What a frame says in answer to a command: to READ, the first 16 bytes of the frame; to the second
-- packet of SECTOR SELECT, which silence acknowledges, a frame is a NACK.
abbrev pub Says : Command → List ℕ → Answer → Type 0
Says (read n) raw a =
    (bytes : List ℕ) × (rest : List ℕ) × (raw ≡ bytes ++ rest)
    × (length bytes ≡ 16)
    × (a ≡ data_read bytes)
Says (write n d) raw a = IsAcknowledged raw a
Says sector_select_part1 raw a = IsAcknowledged raw a
Says (sector_select_part2 s) [] a = a ≡ passive_ack
Says (sector_select_part2 s) (first ∷ rest) a = a ≡ nack (first % 16)

ok_answer : (a a' : Answer) → ◌≡◌ {A = Outcome Type2Error Answer} (ok a) (ok a') → a' ≡ a
ok_answer a a' e = cc

parse_ack_sound : (raw : List ℕ) (a : Answer) → parse_ack raw ≡ ok a → IsAcknowledged raw a
parse_ack_sound [] a e = absurd (cc)
parse_ack_sound (r ∷ raw) a e = (r, raw, refl, ground arith)

parse_ack_complete : (raw : List ℕ) (a : Answer) → IsAcknowledged raw a → parse_ack raw ≡ ok a
parse_ack_complete raw a (r, rest, e, inl (n, k)) = rw (e, k) (ground (arith, n))
parse_ack_complete raw a (r, rest, e, inr (n, k)) = rw (e, k) (ground (arith, n))

read_sound :
    (n : ℕ) (raw : List ℕ) (a : Answer) → parse_answer (read n) raw ≡ ok a → Says (read n) raw a
unfolding parse_answer
read_sound n raw a e = from (ltb (length raw) 16) refl e
  where
    from :
        (short : Bool)
        → ltb (length raw) 16 ≡ short
        → (if short then err invalid_length else ok (data_read (take 16 raw))) ≡ ok a
        → Says (read n) raw a
    from true h e = absurd (cc)
    from false h e = (
      take 16 raw,
      drop 16 raw,
      sym (take-append-drop 16 raw),
      omega (arith, length-take 16 raw, ltb-false→le (length raw) 16 h),
      ok_answer _ a e,
    )

read_complete :
    (n : ℕ) (raw : List ℕ) (a : Answer) → Says (read n) raw a → parse_answer (read n) raw ≡ ok a
unfolding parse_answer
read_complete n raw a (bytes, rest, e, size, k) =
    let long : 16 ≤ length raw = omega (arith, ap length e, length-append bytes rest, size) in
    rw (ltb-false (length raw) 16 long, k)
      (ap (λ l. ok (data_read (take 16 l))) e
        ∙ ap (λ l. ok (data_read l)) (take-append bytes rest 16 (sym size)))

-- A frame is parsed to an answer exactly when it says that answer to the command: 16 bytes or
-- more say their first 16 to READ, a low nibble 0xA of the first byte is an ACK to WRITE and to
-- the first packet of SECTOR SELECT and any other a NACK with that code, and to the second packet
-- silence is an ACK and any frame a NACK.
pub parse_answer_iff :
    (c : Command) (raw : List ℕ) (a : Answer) → (parse_answer c raw ≡ ok a) ↔ Says c raw a
unfolding parse_answer
parse_answer_iff (read n) raw a = (read_sound n raw a, read_complete n raw a)
parse_answer_iff (write n d) raw a = (parse_ack_sound raw a, parse_ack_complete raw a)
parse_answer_iff sector_select_part1 raw a = (parse_ack_sound raw a, parse_ack_complete raw a)
parse_answer_iff (sector_select_part2 s) [] a = (λ e. ok_answer _ a e, λ e. ap (λ x. ok x) (sym e))
parse_answer_iff (sector_select_part2 s) (r ∷ raw) a =
    (λ e. ok_answer _ a e, λ e. ap (λ x. ok x) (sym e))

parse_ack-Returns : (raw : List ℕ) → Returns (parse_ack raw)
parse_ack-Returns [] = tt
parse_ack-Returns (r ∷ raw) = ground arith

-- Parsing an answer returns on any input.
pub parse_answer-Returns : (c : Command) (raw : List ℕ) → Returns (parse_answer c raw)
unfolding parse_answer
parse_answer-Returns (read n) raw = ground arith
parse_answer-Returns (write n d) raw = parse_ack-Returns raw
parse_answer-Returns sector_select_part1 raw = parse_ack-Returns raw
parse_answer-Returns (sector_select_part2 s) [] = tt
parse_answer-Returns (sector_select_part2 s) (r ∷ raw) = tt
