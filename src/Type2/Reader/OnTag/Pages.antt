-- ===== src/Type2/Reader/OnTag/Pages.antt =====
-- READ and WRITE on a tag (src/type2/reader.rs, `read` and `write`).
use nfc_forum_tags.Prelude.{
  ℕ, zero, suc, ◌+◌, ◌*◌, ◌≤◌, ◌<◌, ◌≡◌, ◌∙◌, refl, sym, ap, arith, ltb, ltb-false→le, ◌==◌, ==_iff,
  List, length, take, Option, none, some, All, IsByte, if◌then◌else◌,
}
use mathlib.Core.Option.{some-injective}
use mathlib.Core.Path.{subst}
use nfc_forum_tags.Outcome.{ok, Ensures, Ensures-if}
use nfc_forum_tags.Vec.{Build}
use nfc_forum_tags.Type2.Command.{Command, Answer, data_read, ack, nack, passive_ack, parse_answer}
use nfc_forum_tags.Type2.Command.RoundTrip.{wire, command_wire}
use nfc_forum_tags.Type2.Reader.State.{Transceiver, T2tReader}
use nfc_forum_tags.Type2.Reader.Link.{fetch, read, store_data}
use nfc_forum_tags.Type2.Reader.Triple.{
  Post, Post-if, Triple, Triple-weaken, Triple-lift, Triple-bind,
}
use nfc_forum_tags.Type2.TagMemory.{Memory, sector_bytes, four_blocks, IsTag}
use nfc_forum_tags.Type2.Reader.OnTag.Coherent.{
  IsCopy, none-IsCopy, IsAt, IsCoherent, IsCoherentIn, lost-IsCoherent,
}
use nfc_forum_tags.Type2.Reader.OnTag.Selecting.{known-injective}
use nfc_forum_tags.Type2.Reader.OnTag.Exchanging.{Obeys, transceive_with_retry-OnTag}

sector_bytes-IsByte :
    (mem : Memory) (s i k : ℕ) → ((a : ℕ) → IsByte (mem a)) → All IsByte (sector_bytes mem s i k)
unfolding sector_bytes
sector_bytes-IsByte mem s i zero h = tt
sector_bytes-IsByte mem s i (suc k) h = (h _, sector_bytes-IsByte mem s (i + 1) k h)

pub length-sector_bytes : (mem : Memory) (s i k : ℕ) → length (sector_bytes mem s i k) ≡ k
unfolding sector_bytes
length-sector_bytes mem s i zero = refl
length-sector_bytes mem s i (suc k) = omega (arith, length-sector_bytes mem s (i + 1) k)

module _ {t : Transceiver} (b : Build) (tag : IsTag t) (mem : Memory) (s : ℕ) where
  open t use {Device, Error, transceive}

  abbrev pub Is : Memory → Type 0
  Is m = m ≡ mem

  -- The memory, at a coherent reader, is made of bytes.
  bytes_of_memory : (d : Device) → tag.memory d ≡ mem → (a : ℕ) → IsByte (mem a)
  bytes_of_memory d e a = subst (λ (m : Memory). IsByte (m a)) e (tag.stored d a)

  pub at-IsCoherentIn :
      (r : T2tReader Device) → IsAt tag s (IsCopy mem s) Is r → IsCoherentIn tag s Is r
  at-IsCoherentIn r v = (
    record {
      valid = v.valid;
      holds = v.holds;
      selected = λ u e. v.selected ∙ known-injective s u (sym v.sector ∙ e);
      copy = λ u e.
          subst (λ u. IsCopy (tag.memory r.device) u r.cache_block r.cache_data)
            (known-injective s u (sym v.sector ∙ e))
            (subst (λ m. IsCopy m s r.cache_block r.cache_data) (sym v.holds) v.cache);
    },
    v.sector,
  )

  pub coherent-IsAt :
      (r : T2tReader Device) → IsCoherentIn tag s Is r → IsAt tag s (IsCopy mem s) Is r
  coherent-IsAt r c = record {
    valid = c.0.valid;
    sector = c.1;
    selected = c.0.selected s c.1;
    cache = subst (λ m. IsCopy m s r.cache_block r.cache_data) c.0.holds (c.0.copy s c.1);
    holds = c.0.holds;
  }

  -- A READ answers four blocks, and changes no memory.
  abbrev FourBlocks : ℕ → List ℕ → Memory → Type 0
  FourBlocks n raw m = 16 ≤ length raw → take 16 raw ≡ four_blocks mem s n

  read-Obeys : (n : ℕ) → Obeys b tag s (IsCopy mem s) Is (FourBlocks n) (wire (Command.read n))
  read-Obeys n = record {
    empty = none-IsCopy mem s;
    keeps = λ d e k. tag.read_keeps n d ∙ k;
    says = λ d raw e k f.
        let a = tag.read_answers n d raw f in
        (
          a.0 ∙ e,
          λ l.
              a.1 l
              ∙ ap (λ m. four_blocks m (tag.selected d) n) k
              ∙ ap (λ u. four_blocks mem u n) e,
        );
  }

  abbrev IsCopyAnswer : ℕ → Answer → Type 0
  IsCopyAnswer n (data_read bytes) = bytes ≡ four_blocks mem s n
  IsCopyAnswer n ack = Unit
  IsCopyAnswer n (nack code) = Unit
  IsCopyAnswer n passive_ack = Unit

  copy_answer :
      (n : ℕ) (raw : List ℕ)
      → (16 ≤ length raw → take 16 raw ≡ four_blocks mem s n)
      → Ensures (IsCopyAnswer n) (parse_answer (Command.read n) raw)
  unfolding parse_answer
  copy_answer n raw h =
      Ensures-if (IsCopyAnswer n) (ltb (length raw) 16) _ _ (λ _. tt)
        λ e. h (ltb-false→le (length raw) 16 e)

  -- Four blocks of the memory have been read.
  abbrev pub HasRead : ℕ → List ℕ → T2tReader Device → Type 0
  HasRead n bytes r = IsCoherentIn tag s Is r × (bytes ≡ four_blocks mem s n)

  store_data-OnTag :
      (n : ℕ) (a : Answer)
      → n < 256
      → IsCopyAnswer n a
      → Triple (IsCoherent tag Is) (IsAt tag s (IsCopy mem s) Is) (store_data t b n a) (HasRead n)
  store_data-OnTag n (data_read bytes) l h = record {
    run = λ r v. (
      at-IsCoherentIn _ (record {
        valid = record {
          cached = ap length h ∙ length-sector_bytes mem s (n * 4) 16;
          bytes =
              subst (All IsByte) (sym h)
                (sector_bytes-IsByte mem s (n * 4) 16 (bytes_of_memory r.device v.holds));
          selected = v.valid.selected;
        };
        sector = v.sector;
        selected = v.selected;
        cache = λ m e.
            subst (λ m. (m < 256) × (bytes ≡ four_blocks mem s m)) (some-injective n m e) (l, h);
        holds = v.holds;
      }),
      h,
    );
  }
  store_data-OnTag n ack l h = record { run = λ r v. (at-IsCoherentIn r v).0 }
  store_data-OnTag n (nack code) l h = record { run = λ r v. (at-IsCoherentIn r v).0 }
  store_data-OnTag n passive_ack l h = record { run = λ r v. (at-IsCoherentIn r v).0 }

  fetch-OnTag :
      (n : ℕ)
      → n < 256
      → Triple (IsCoherent tag Is) (IsCoherentIn tag s Is) (fetch t b n) (HasRead n)
  unfolding fetch
  fetch-OnTag n l =
      Triple-bind
        (Triple-weaken coherent-IsAt (λ _ _ q. q) (lost-IsCoherent tag Is)
          (transceive_with_retry-OnTag b tag s (IsCopy mem s) Is (FourBlocks n) _
            (rw (command_wire b (Command.read n)) (read-Obeys n))))
        λ raw.
          Triple-bind {Q = λ a r. IsAt tag s (IsCopy mem s) Is r × IsCopyAnswer n a}
            (record {
              run = λ r q.
                  (Triple-lift (IsAt tag s (IsCopy mem s) Is) (parse_answer (Command.read n) raw)
                      (IsCopyAnswer n) (λ r v. (at-IsCoherentIn r v).0) (copy_answer n raw q.1)).run
                    r q.0;
            })
            λ answer. record { run = λ r q. (store_data-OnTag n answer l q.1).run r q.0 }

  -- READ, from the cache or from the tag, answers four blocks of the memory, and keeps the memory.
  pub read-OnTag :
      (n : ℕ)
      → n < 256
      → Triple (IsCoherent tag Is) (IsCoherentIn tag s Is) (read t b n) (HasRead n)
  unfolding read
  read-OnTag n l = record { run = λ r v. cached r v r.cache_block refl }
    where
      cached :
          (r : T2tReader Device)
          → IsCoherentIn tag s Is r
          → (c : Option ℕ) → r.cache_block ≡ c
          → Post {D = Device} {E = Error} (IsCoherent tag Is) (HasRead n) (elim c [
            | some cached_block ↦ if n == cached_block then (ok r.cache_data, r) else fetch t b n r
            | none ↦ fetch t b n r
          ])
      cached r v none e = (fetch-OnTag n l).run r v
      cached r v (some c) e =
          Post-if (IsCoherent tag Is) (HasRead n) (n == c) _ _
            (λ k.
              (v, ((coherent-IsAt r v).cache n (e ∙ ap (λ m. some m) (sym ((==_iff n c).0 k)))).1))
            (λ _. (fetch-OnTag n l).run r v)
