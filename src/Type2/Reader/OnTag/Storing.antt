-- ===== src/Type2/Reader/OnTag/Storing.antt =====
-- WRITE on a tag (src/type2/reader.rs, `write`).
use nfc_forum_tags.Prelude.{
  ℕ, ◌+◌, ◌*◌, ◌≡◌, ◌⊎◌, ◌∙◌, inl, inr, refl, sym, ap, arith, List, Option, none,
}
use mathlib.Core.Path.{subst, fun_ext}
use nfc_forum_tags.Outcome.{ok}
use nfc_forum_tags.Vec.{Build}
use nfc_forum_tags.Type2.Cc.{Bytes4}
use nfc_forum_tags.Type2.Command.{Command, Answer, data_read, ack, nack, passive_ack, parse_answer}
use nfc_forum_tags.Type2.Command.RoundTrip.{wire, command_wire}
use nfc_forum_tags.Type2.Command.Answers.{parse_answer-Returns}
use nfc_forum_tags.Type2.Reader.State.{Transceiver, T2tReader, invalidate_cache}
use nfc_forum_tags.Type2.Reader.Link.{write, expect_ack}
use nfc_forum_tags.Type2.Reader.Triple.{
  Triple, Triple-weaken, Triple-answer, Triple-bind, Triple-modify,
}
use nfc_forum_tags.Type2.TagMemory.{Memory, store, IsTag}
use nfc_forum_tags.Type2.Reader.OnTag.Coherent.{IsAt, IsCoherent, IsCoherentIn, lost-IsCoherent}
use nfc_forum_tags.Type2.Reader.OnTag.Selecting.{known-injective}
use nfc_forum_tags.Type2.Reader.OnTag.Exchanging.{Obeys, transceive_with_retry-OnTag}

-- Storing the same bytes again changes nothing.
store-store :
    (base : ℕ) (bytes : Bytes4) (mem : Memory)
    → store base bytes (store base bytes mem) ≡ store base bytes mem
unfolding store
store-store base (b0, b1, b2, b3) mem = fun_ext λ a. ground arith

module _ {t : Transceiver} (b : Build) (tag : IsTag t) (mem : Memory) (s n : ℕ)
    (bytes : Bytes4) where
  open t use {Device, Error, transceive}

  -- The memory after the WRITE.
  abbrev pub stored_page : Memory
  stored_page = store (s * 1024 + n * 4) bytes mem

  -- The WRITE has not been carried out, or it has.
  abbrev pub IsOldOrNew : Memory → Type 0
  IsOldOrNew m = (m ≡ mem) ⊎ (m ≡ stored_page)

  abbrev IsNewAfterAck : List ℕ → Memory → Type 0
  IsNewAfterAck raw m = parse_answer (Command.write n bytes) raw ≡ ok ack → m ≡ stored_page

  abbrev AnyCache : Option ℕ → List ℕ → Type 0
  AnyCache block cached = Unit

  abbrev Written : T2tReader Device → Type 0
  Written r = IsAt tag s AnyCache IsOldOrNew r

  store_twice :
      (d : Device)
      → tag.selected d ≡ s
      → IsOldOrNew (tag.memory d)
      → store (tag.selected d * 1024 + n * 4) bytes (tag.memory d) ≡ stored_page
  store_twice d e (inl old) =
      ap (λ u. store (u * 1024 + n * 4) bytes (tag.memory d)) e
      ∙ ap (store (s * 1024 + n * 4) bytes) old
  store_twice d e (inr new) =
      ap (λ u. store (u * 1024 + n * 4) bytes (tag.memory d)) e
      ∙ (ap (store (s * 1024 + n * 4) bytes) new ∙ store-store (s * 1024 + n * 4) bytes mem)

  write_keeps :
      (d : Device)
      → tag.selected d ≡ s
      → IsOldOrNew (tag.memory d)
      → IsOldOrNew (tag.memory (transceive (wire (Command.write n bytes)) d).1)
  write_keeps d e k = elim (tag.write_stores n bytes d) [
    | inl same ↦ subst IsOldOrNew (sym same) k
    | inr done ↦ inr (done ∙ store_twice d e k)
  ]

  write-Obeys : Obeys b tag s AnyCache IsOldOrNew IsNewAfterAck (wire (Command.write n bytes))
  write-Obeys = record {
    empty = λ _. tt;
    keeps = write_keeps;
    says = λ d raw e k f.
        let a = tag.write_answers n bytes d raw f in (a.0 ∙ e, λ p. a.1 p ∙ store_twice d e k);
  }

  emptied :
      (K : Memory → Type 0) (r : T2tReader Device)
      → IsAt tag s AnyCache K r
      → r.cache_block ≡ none
      → IsCoherentIn tag s K r
  emptied K r v c = (
    record {
      valid = v.valid;
      holds = v.holds;
      selected = λ u e. v.selected ∙ known-injective s u (sym v.sector ∙ e);
      copy = λ u e m f. absurd (cc (c, f));
    },
    v.sector,
  )

  acknowledged :
      (raw : List ℕ) (answer : Answer)
      → Triple
          (IsCoherent tag IsOldOrNew)
          (λ r.
            ((Written r × IsNewAfterAck raw (tag.memory r.device)) × (r.cache_block ≡ none))
            × (parse_answer (Command.write n bytes) raw ≡ ok answer))
          (expect_ack t b answer)
          (λ _. IsCoherentIn tag s (λ m. m ≡ stored_page))
  acknowledged raw ack = record {
    run = λ r l.
        let v = l.0.0.0 in
        emptied (λ m. m ≡ stored_page) r
          (record {
            valid = v.valid;
            sector = v.sector;
            selected = v.selected;
            cache = tt;
            holds = l.0.0.1 l.1;
          })
          l.0.1;
  }
  acknowledged raw (nack code) = record { run = λ r l. (emptied IsOldOrNew r l.0.0.0 l.0.1).0 }
  acknowledged raw (data_read x) = record { run = λ r l. (emptied IsOldOrNew r l.0.0.0 l.0.1).0 }
  acknowledged raw passive_ack = record { run = λ r l. (emptied IsOldOrNew r l.0.0.0 l.0.1).0 }

  -- A WRITE stores its four bytes in the selected sector; after an error it has been carried out or
  -- not, and nothing else has changed.
  pub write-OnTag :
      Triple
        (IsCoherent tag IsOldOrNew)
        (IsCoherentIn tag s (λ m. m ≡ mem))
        (write t b n bytes)
        (λ _. IsCoherentIn tag s (λ m. m ≡ stored_page))
  unfolding write
  write-OnTag =
      Triple-bind
        (Triple-weaken
          (λ r c. record {
            valid = c.0.valid;
            sector = c.1;
            selected = c.0.selected s c.1;
            cache = tt;
            holds = inl c.0.holds;
          })
          (λ _ _ q. q) (lost-IsCoherent tag IsOldOrNew)
          (transceive_with_retry-OnTag b tag s AnyCache IsOldOrNew IsNewAfterAck _
            (rw (command_wire b (Command.write n bytes)) write-Obeys)))
        λ raw.
          Triple-bind
            (Triple-modify _ invalidate_cache
              (λ r. (Written r × IsNewAfterAck raw (tag.memory r.device)) × (r.cache_block ≡ none))
              λ r v. (
                (
                  record {
                    valid = record {
                      cached = v.0.valid.cached;
                      bytes = v.0.valid.bytes;
                      selected = v.0.valid.selected;
                    };
                    sector = v.0.sector;
                    selected = v.0.selected;
                    cache = tt;
                    holds = v.0.holds;
                  },
                  v.1,
                ),
                refl,
              ))
            λ _.
              Triple-bind
                (Triple-answer _ (parse_answer (Command.write n bytes) raw)
                  (λ r v. (emptied IsOldOrNew r v.0.0 v.1).0)
                  (parse_answer-Returns (Command.write n bytes) raw))
                λ answer. acknowledged raw answer
