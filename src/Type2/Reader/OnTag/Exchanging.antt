-- ===== src/Type2/Reader/OnTag/Exchanging.antt =====
-- Sending a command to a tag, with retries (src/type2/reader.rs, `transceive_with_retry`).
use nfc_forum_tags.Prelude.{
  ℕ, zero, suc, ◌+◌, ◌<◌, ◌≤◌, ◌≡◌, refl, List, Option, none, arith, lt→ltb, sym,
}
use mathlib.Core.Path.{subst, subst⁻¹}
use nfc_forum_tags.Outcome.{ok}
use nfc_forum_tags.Vec.{Build}
use nfc_forum_tags.Type2.Geometry.{max_sector}
use nfc_forum_tags.Type2.Reader.State.{
  Transmission, received, failed, Transceiver, known, unknown, T2tReader, invalidate_cache, Action,
}
use nfc_forum_tags.Type2.Reader.Link.{attempt_once, retry_loop, transceive_with_retry, exchange}
use nfc_forum_tags.Type2.Reader.Valid.{IsValid, InRange}
use nfc_forum_tags.Type2.Reader.Triple.{Post, Triple, Triple-weaken, Triple-bind}
use nfc_forum_tags.Type2.TagMemory.{Memory, IsTag}
use nfc_forum_tags.Type2.Reader.OnTag.Coherent.{IsAt, IsLostWith}
use nfc_forum_tags.Type2.Reader.OnTag.Selecting.{force_sector_select-OnTag}

module _ {t : Transceiver} (b : Build) (tag : IsTag t) (s : ℕ) (J : Option ℕ → List ℕ → Type 0)
    (K : Memory → Type 0) (R : List ℕ → Memory → Type 0) (cmd : List ℕ) where
  open t use {Device, Error, transceive}

  -- What the tag does with the frame in its selected sector `s`: the memory stays one of those that
  -- `K` allows, and an answer says `R`.
  pub record Obeys : Type 0 where
    pub empty : (cached : List ℕ) → J none cached
    pub keeps :
        (d : Device) → tag.selected d ≡ s → K (tag.memory d) → K (tag.memory (transceive cmd d).1)
    pub says :
        (d : Device) (raw : List ℕ)
        → tag.selected d ≡ s
        → K (tag.memory d)
        → (transceive cmd d).0 ≡ received raw
        → (tag.selected (transceive cmd d).1 ≡ s) × R raw (tag.memory (transceive cmd d).1)

  -- The answer has come, in the sector that was selected.
  abbrev pub Answered : List ℕ → T2tReader Device → Type 0
  Answered raw r = IsAt tag s J K r × R raw (tag.memory r.device)

  abbrev Lost : T2tReader Device → Type 0
  Lost r = IsLostWith tag K r

  module _ (obeys : Obeys) where
    attempt_once-OnTag :
        (again : Error → Action Device Error (List ℕ))
        → ((e : Error) → Triple Lost Lost (again e) Answered)
        → Triple Lost (IsAt tag s J K) (attempt_once t b again cmd) Answered
    unfolding attempt_once exchange
    attempt_once-OnTag again h = record {
      run = λ r v.
          outcome r v (transceive cmd r.device).0 (transceive cmd r.device).1
            (obeys.keeps r.device v.selected v.holds)
            (λ raw e. obeys.says r.device raw v.selected v.holds e);
    }
      where
        valid : (r : T2tReader Device) (d : Device) → IsValid r → IsValid (record r { device = d })
        valid r d v = record { cached = v.cached; bytes = v.bytes; selected = v.selected }

        outcome :
            (r : T2tReader Device)
            → IsAt tag s J K r
            → (x : Transmission Error (List ℕ)) (d : Device) → K (tag.memory d)
            → ((raw : List ℕ) → x ≡ received raw → (tag.selected d ≡ s) × R raw (tag.memory d))
            → Post {D = Device} {E = Error} Lost Answered (elim x [
              | received raw ↦ (ok raw, record r { device = d })
              | failed e ↦
                  again e (invalidate_cache (record (record r { device = d }) { sector = unknown }))
            ])
        outcome r v (received raw) d k a = (
          record {
            valid = valid r d v.valid;
            sector = v.sector;
            selected = (a raw refl).0;
            cache = v.cache;
            holds = k;
          },
          (a raw refl).1,
        )
        outcome r v (failed f) d k a = (h f).run _ (
          record {
            valid = record { cached = v.valid.cached; bytes = v.valid.bytes; selected = tt };
            sector = refl;
            cache = refl;
          },
          k,
        )

    retry_again-OnTag :
        (left attempt : ℕ)
        → s ≤ max_sector
        → 0 < attempt
        → (e : Error)
        → Triple Lost Lost (retry_loop t b left attempt (known s) cmd (Option.some e)) Answered
    unfolding retry_loop
    retry_again-OnTag zero attempt i p e = record { run = λ r l. l }
    retry_again-OnTag (suc left) attempt i p e = rw (lt→ltb 0 attempt p) (
        Triple-bind
          (Triple-weaken (λ r l. (l.0.valid, l.1)) (λ _ _ q. q) (λ _ l. l)
            (force_sector_select-OnTag b tag K s i))
          λ _.
            Triple-weaken
              (λ r v. record {
                valid = v.0.0.valid;
                sector = v.0.0.sector;
                selected = v.1;
                cache = subst (λ c. J c r.cache_data) (sym v.0.0.cache) (obeys.empty r.cache_data);
                holds = v.0.1;
              })
              (λ _ _ q. q) (λ _ l. l)
              (attempt_once-OnTag _ (λ f. retry_again-OnTag left (attempt + 1) i (omega arith) f)))

    -- The command is sent until it is answered or the retries are used up; each attempt is made in
    -- the sector that was selected before the call.
    pub transceive_with_retry-OnTag :
        Triple Lost (IsAt tag s J K) (transceive_with_retry t b cmd) Answered
    unfolding transceive_with_retry retry_loop
    transceive_with_retry-OnTag = record {
      run = λ r v.
          let i : s ≤ max_sector = subst InRange v.sector v.valid.selected in
          subst⁻¹ (λ u. Post Lost Answered (retry_loop t b (suc r.max_retries) 0 u cmd none r))
            v.sector
            ((attempt_once-OnTag _ (λ f. retry_again-OnTag r.max_retries 1 i (omega arith) f)).run r
              v);
    }
