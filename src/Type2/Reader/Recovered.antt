-- ===== src/Type2/Reader/Recovered.antt =====
-- READ and WRITE with retries that are enough (src/type2/reader.rs, `read` and `write`).
use nfc_forum_tags.Prelude.{
  ℕ, ◌+◌, ◌*◌, ◌<◌, ◌≤◌, ◌≡◌, refl, List, Option, none, some, length, ltb-false, if◌then◌else◌,
  ◌==◌,
}
use nfc_forum_tags.Outcome.{Outcome, ok, err, panic, stuck}
use nfc_forum_tags.Vec.{Build}
use nfc_forum_tags.Type2.Geometry.{max_sector}
use nfc_forum_tags.Type2.Cc.{Bytes4}
use nfc_forum_tags.Type2.Command.{Command, Answer, ack, to_bytes, parse_answer}
use nfc_forum_tags.Type2.Command.RoundTrip.{wire, command_wire}
use nfc_forum_tags.Type2.Reader.State.{
  received, Transceiver, ReaderError, known, T2tReader, invalidate_cache, pure, lift, modify, ◌>>=◌,
  ◌>>◌,
}
use nfc_forum_tags.Type2.Reader.Link.{transceive_with_retry, fetch, read, write, expect_ack}
use nfc_forum_tags.Type2.Reader.Triple.{
  Post, Post-if, Triple, Triple-pure, Triple-bind, Triple-modify,
}
use nfc_forum_tags.Type2.Reader.Recovering.{IsRecovering, Never}
use nfc_forum_tags.Type2.Reader.Recovery.{IsAnswer, transceive_with_retry_recovers}
use nfc_forum_tags.Type2.TagMemory.{four_blocks, store, IsTag}
use nfc_forum_tags.Type2.Reader.OnTag.Coherent.{IsCoherent, IsCoherentIn}
use nfc_forum_tags.Type2.Reader.OnTag.Promises.{read_four_blocks, write_stores}

-- What a result promises holds if there is a result.
pub Post-certain :
    {D E A : Type 0} (I : T2tReader D → Type 0) (Q R : A → T2tReader D → Type 0)
    (x : Outcome (ReaderError E) A × T2tReader D)
    → Post I Q x
    → Post Never R x
    → Post Never Q x
Post-certain I Q R (ok a, r) q p = q
Post-certain I Q R (err e, r) q p = p
Post-certain I Q R (panic, r) q p = p
Post-certain I Q R (stuck, r) q p = p

module _ {t : Transceiver} (b : Build) (c : Command) (device : IsRecovering t (wire c))
    (s : ℕ) where
  open t use {Device, Error, transceive}

  -- The sector is taken for selected, and the retries are enough.
  abbrev pub Enough : T2tReader Device → Type 0
  Enough r = (r.sector ≡ known s) × (device.faults r.device ≤ r.max_retries)

  pub answered :
      s ≤ max_sector
      → Triple {E = Error} Never Enough
          (transceive_with_retry t b (to_bytes b c))
          (λ raw _. IsAnswer b (wire c) device raw)
  answered h =
      rw (command_wire b c)
        (record { run = λ r e. transceive_with_retry_recovers b (wire c) device s r e.0 h e.1 })

module _ {t : Transceiver} (b : Build) (n : ℕ) (bytes : Bytes4)
    (device : IsRecovering t (wire (Command.write n bytes)))
    (acks : (d : t.Device) (raw : List ℕ)
      → (t.transceive (wire (Command.write n bytes)) d).0 ≡ received raw
      → parse_answer (Command.write n bytes) raw ≡ ok ack) where
  open t use {Device, Error}

  acked :
      (raw : List ℕ)
      → parse_answer (Command.write n bytes) raw ≡ ok ack
      → Triple {E = Error} Never
          (λ (r : T2tReader Device). Unit {0})
          (lift (parse_answer (Command.write n bytes) raw))
          (λ a _. a ≡ ack)
  acked raw e = rw e (Triple-pure _ ack _ λ r u. refl)

  accepted :
      (a : Answer)
      → a ≡ ack
      → Triple Never (λ (r : T2tReader Device). Unit {0}) (expect_ack t b a) (λ _ _. Unit {0})
  accepted a e = rw e (Triple-pure _ tt _ λ r u. tt)

  settle :
      (raw : List ℕ)
      → parse_answer (Command.write n bytes) raw ≡ ok ack
      → Triple {E = Error} Never
          (λ (r : T2tReader Device). Unit {0})
          (do
            modify invalidate_cache
            answer ← lift (parse_answer (Command.write n bytes) raw)
            expect_ack t b answer)
          (λ _ _. Unit {0})
  settle raw e =
      Triple-bind (Triple-modify _ invalidate_cache (λ _. Unit {0}) (λ r u. tt))
        λ _. Triple-bind (acked raw e) λ a. record { run = λ r q. (accepted a q).run r tt }

  write_recovers :
      (s : ℕ)
      → s ≤ max_sector
      → Triple Never
          (Enough b (Command.write n bytes) device s)
          (write t b n bytes)
          (λ _ _. Unit {0})
  unfolding write
  write_recovers s h =
      Triple-bind (answered b (Command.write n bytes) device s h)
        λ raw. record { run = λ r a. (settle raw (acks a.0 raw a.1)).run r tt }

  -- A tag acknowledges a WRITE whenever it answers it, the transmission fails no more often than
  -- there are retries before it is answered, and every selection of a sector between two attempts
  -- is acknowledged. Then from a coherent reader with a sector, other than the reserved one, that
  -- is taken for selected, the WRITE succeeds, and the memory is the old one with the four bytes
  -- stored at that block of that sector.
  pub write_carried_out :
      (tag : IsTag t) (s : ℕ) (r : T2tReader Device)
      → s ≤ max_sector
      → r.sector ≡ known s
      → device.faults r.device ≤ r.max_retries
      → IsCoherent tag (λ m. m ≡ tag.memory r.device) r
      → Post Never
          (λ _. IsCoherentIn tag s (λ m. m ≡ store (s * 1024 + n * 4) bytes (tag.memory r.device)))
          (write t b n bytes r)
  write_carried_out tag s r h e l c =
      Post-certain _ _ _ (write t b n bytes r)
        (write_stores b tag (tag.memory r.device) s n bytes r e c)
        ((write_recovers s h).run r (e, l))

module _ {t : Transceiver} (b : Build) (n : ℕ) (device : IsRecovering t (wire (Command.read n)))
    (long : (d : t.Device) (raw : List ℕ)
      → (t.transceive (wire (Command.read n)) d).0 ≡ received raw
      → 16 ≤ length raw) where
  open t use {Device, Error}

  fetch_recovers :
      (s : ℕ)
      → s ≤ max_sector
      → Triple Never (Enough b (Command.read n) device s) (fetch t b n) (λ _ _. Unit {0})
  unfolding fetch parse_answer ◌>>=◌
  fetch_recovers s h =
      Triple-bind (answered b (Command.read n) device s h)
        λ raw. record { run = λ r a. rw (ltb-false (length raw) 16 (long a.0 raw a.1)) tt }

  read_recovers :
      (s : ℕ) (r : T2tReader Device)
      → s ≤ max_sector
      → Enough b (Command.read n) device s r
      → Post Never (λ _ _. Unit {0}) (read t b n r)
  unfolding read
  read_recovers s r h e = from r.cache_block
    where
      from :
          (cached : Option ℕ)
          → Post {D = Device} {E = Error} {A = List ℕ} Never
              (λ _ _. Unit {0})
              (elim cached [
                | some block ↦ if n == block then pure r.cache_data r else fetch t b n r
                | none ↦ fetch t b n r
              ])
      from none = (fetch_recovers s h).run r e
      from (some block) =
          Post-if Never (λ _ _. Unit {0}) (n == block) _ _ (λ _. tt)
            (λ _. (fetch_recovers s h).run r e)

  -- A tag answers the READ of a block, whenever it answers it, with 16 bytes or more, the
  -- transmission fails no more often than there are retries before it is answered, and every
  -- selection of a sector between two attempts is acknowledged. Then from a coherent reader with
  -- a sector, other than the reserved one, that is taken for selected, and for a block number of
  -- one byte, the READ succeeds, with the 16 bytes of the memory from that block of that sector
  -- on, and leaves the memory unchanged.
  pub read_carried_out :
      (tag : IsTag t) (s : ℕ) (r : T2tReader Device)
      → n < 256
      → s ≤ max_sector
      → r.sector ≡ known s
      → device.faults r.device ≤ r.max_retries
      → IsCoherent tag (λ m. m ≡ tag.memory r.device) r
      → Post Never
          (λ bytes r'.
            IsCoherentIn tag s (λ m. m ≡ tag.memory r.device) r'
            × (bytes ≡ four_blocks (tag.memory r.device) s n))
          (read t b n r)
  read_carried_out tag s r small h e l c =
      Post-certain _ _ _ (read t b n r)
        (read_four_blocks b tag (tag.memory r.device) s n r small e c) (read_recovers s r h (e, l))
