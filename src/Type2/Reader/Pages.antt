-- ===== src/Type2/Reader/Pages.antt =====
-- READ and WRITE (src/type2/reader.rs, `read` and `write`).
use nfc_forum_tags.Type2.Reader.Valid.{IsValid, IsIn, IsSixteen, IsBlock, IsUncached, IsInUncached}
use nfc_forum_tags.Prelude.{
  ℕ, refl, List, length, Option, none, some, arith, ltb, ltb-false→le, ◌==◌, All, IsByte,
  if◌then◌else◌, All-take, length-take,
}
use nfc_forum_tags.Outcome.{ok, Ensures, Ensures-if}
use nfc_forum_tags.Vec.{Build}
use nfc_forum_tags.Type2.Cc.{Bytes4}
use nfc_forum_tags.Type2.Command.{Command, Answer, data_read, ack, nack, passive_ack, parse_answer}
use nfc_forum_tags.Type2.Command.Answers.{parse_answer-Returns}
use nfc_forum_tags.Type2.Reader.State.{Transceiver, SectorState, T2tReader, invalidate_cache}
use nfc_forum_tags.Type2.Reader.Link.{fetch, read, write, store_data}
use nfc_forum_tags.Type2.Reader.Triple.{
  Post, Post-if, Triple, Triple-weaken, Triple-lift, Triple-bind, Triple-modify,
}
use nfc_forum_tags.Type2.Reader.Sector.{expect_ack-Triple}
use nfc_forum_tags.Type2.Reader.Exchange.{AnswersBytes, transceive_with_retry-Triple}

module _ (t : Transceiver) (b : Build) (answers : AnswersBytes t) where
  open t use {Device, Error}

  -- What the answer to a READ says of its data.
  abbrev IsBlockData : Answer → Type 0
  IsBlockData (data_read bytes) = IsSixteen bytes
  IsBlockData ack = Unit
  IsBlockData (nack code) = Unit
  IsBlockData passive_ack = Unit

  data_answer :
      (n : ℕ) (raw : List ℕ)
      → All IsByte raw
      → Ensures IsBlockData (parse_answer (Command.read n) raw)
  unfolding parse_answer
  data_answer n raw h =
      Ensures-if IsBlockData (ltb (length raw) 16) _ _ (λ _. tt)
        λ e. record {
          size = omega (arith, length-take 16 raw, ltb-false→le (length raw) 16 e);
          bytes = All-take IsByte 16 raw h;
        }

  store_data-Triple :
      (s : SectorState) (n : ℕ) (a : Answer)
      → IsBlockData a
      → Triple IsValid (IsIn s) (store_data t b n a) (IsBlock s)
  store_data-Triple s n (data_read bytes) h = record {
    run = λ r v. ((record { cached = h.size; bytes = h.bytes; selected = v.0.selected }, v.1), h);
  }
  store_data-Triple s n ack h = record { run = λ r v. v.0 }
  store_data-Triple s n (nack code) h = record { run = λ r v. v.0 }
  store_data-Triple s n passive_ack h = record { run = λ r v. v.0 }

  fetch-Triple : (s : SectorState) (n : ℕ) → Triple IsValid (IsIn s) (fetch t b n) (IsBlock s)
  unfolding fetch
  fetch-Triple s n =
      Triple-bind
        (Triple-weaken (λ r v. v) (λ _ _ q. q) (λ r l. l.valid)
          (transceive_with_retry-Triple t b answers s _))
        λ raw.
          Triple-bind {Q = λ a r. IsIn s r × IsBlockData a}
            (record {
              run = λ r q.
                  (Triple-lift (IsIn s) (parse_answer (Command.read n) raw) IsBlockData (λ r v. v.0)
                      (data_answer n raw q.1)).run
                    r q.0;
            })
            λ answer. record { run = λ r q. (store_data-Triple s n answer q.1).run r q.0 }

  pub read-Triple : (s : SectorState) (n : ℕ) → Triple IsValid (IsIn s) (read t b n) (IsBlock s)
  unfolding read
  read-Triple s n = record { run = λ r v. cached r v r.cache_block }
    where
      cached :
          (r : T2tReader Device)
          → IsIn s r
          → (c : Option ℕ)
          → Post {D = Device} {E = Error} IsValid (IsBlock s) (elim c [
            | some cached_block ↦ if n == cached_block then (ok r.cache_data, r) else fetch t b n r
            | none ↦ fetch t b n r
          ])
      cached r v none = (fetch-Triple s n).run r v
      cached r v (some c) =
          Post-if IsValid (IsBlock s) (n == c) _ _
            (λ _. (v, record { size = v.0.cached; bytes = v.0.bytes }))
            (λ _. (fetch-Triple s n).run r v)

  -- A WRITE empties the cache, whatever comes of it.
  pub write-IsUncached-Triple :
      (s : SectorState) (n : ℕ) (bytes : Bytes4)
      → Triple IsUncached (IsIn s) (write t b n bytes) (λ _ r. IsInUncached s r)
  unfolding write
  write-IsUncached-Triple s n bytes =
      Triple-bind
        (Triple-weaken (λ r v. v) (λ _ r q. q.0) (λ r l. (l.valid, l.cache))
          (transceive_with_retry-Triple t b answers s _))
        λ raw.
          Triple-bind
            (Triple-modify (IsIn s) invalidate_cache (IsInUncached s) λ r v. (
              record { cached = v.0.cached; bytes = v.0.bytes; selected = v.0.selected },
              v.1,
              refl,
            ))
            λ _.
              Triple-bind
                (Triple-lift (IsInUncached s) (parse_answer (Command.write n bytes) raw)
                  (λ _. Unit {0}) (λ r l. (l.0, l.2))
                  (parse_answer-Returns (Command.write n bytes) raw))
                λ answer.
                  Triple-weaken (λ r l. l.0) (λ _ r l. l) (λ r l. (l.0, l.2))
                    (expect_ack-Triple t b answer)

  pub write-Triple :
      (s : SectorState) (n : ℕ) (bytes : Bytes4)
      → Triple IsValid (IsIn s) (write t b n bytes) (λ _ r. IsIn s r)
  write-Triple s n bytes =
      Triple-weaken (λ r v. v) (λ _ r q. (q.0, q.1)) (λ r q. q.0)
        (write-IsUncached-Triple s n bytes)
