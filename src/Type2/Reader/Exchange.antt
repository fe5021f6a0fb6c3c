-- ===== src/Type2/Reader/Exchange.antt =====
-- Sending a frame with retries (src/type2/reader.rs, `transceive_with_retry`).
use nfc_forum_tags.Type2.Reader.Valid.{InRange, IsValid, IsLost, IsIn, Received}
use nfc_forum_tags.Prelude.{
  ℕ, zero, suc, ◌+◌, ◌<◌, ◌≡◌, refl, List, some, arith, lt→ltb, All, IsByte,
}
use nfc_forum_tags.Outcome.{ok}
use mathlib.Core.Path.{subst}
use nfc_forum_tags.Vec.{Build}
use nfc_forum_tags.Type2.Reader.State.{
  Transmission, received, failed, Transceiver, SectorState, known, unknown, T2tReader,
  invalidate_cache, Action,
}
use nfc_forum_tags.Type2.Reader.Link.{attempt_once, retry_loop, transceive_with_retry, exchange}
use nfc_forum_tags.Type2.Reader.Triple.{Post, Triple, Triple-weaken, Triple-bind}
use nfc_forum_tags.Type2.Reader.Sector.{force_sector_select-Triple}

-- A frame is made of bytes: `FrameVec` is a vector of `u8`.
pub record AnswersBytes (t : Transceiver) : Type 0 where
  pub frame :
      (cmd : List ℕ) (d : t.Device) (raw : List ℕ)
      → (t.transceive cmd d).0 ≡ received raw
      → All IsByte raw

module _ (t : Transceiver) (b : Build) (answers : AnswersBytes t) where
  open t use {Device, Error, transceive}

  attempt_once-Triple :
      (s : SectorState) (again : Error → Action Device Error (List ℕ)) (cmd : List ℕ)
      → ((e : Error) → Triple IsLost IsLost (again e) (Received s))
      → Triple IsLost (IsIn s) (attempt_once t b again cmd) (Received s)
  unfolding attempt_once exchange
  attempt_once-Triple s again cmd h = record {
    run = λ r v. outcome r v _ _ (λ raw e. answers.frame cmd r.device raw e);
  }
    where
      valid : (r : T2tReader Device) (d : Device) → IsValid r → IsValid (record r { device = d })
      valid r d v = record { cached = v.cached; bytes = v.bytes; selected = v.selected }

      outcome :
          (r : T2tReader Device)
          → IsIn s r
          → (x : Transmission Error (List ℕ)) (d : Device)
          → ((raw : List ℕ) → x ≡ received raw → All IsByte raw)
          → Post {D = Device} {E = Error} IsLost (Received s) (elim x [
            | received raw ↦ (ok raw, record r { device = d })
            | failed e ↦
                again e (invalidate_cache (record (record r { device = d }) { sector = unknown }))
          ])
      outcome r v (received raw) d b = ((valid r d v.0, v.1), b raw refl)
      outcome r v (failed f) d b = (h f).run _ (record {
        valid = record { cached = v.0.cached; bytes = v.0.bytes; selected = tt };
        sector = refl;
        cache = refl;
      })

  -- After a failed attempt: the sector is selected again, or the error is given up to the caller.
  retry_again :
      (left attempt : ℕ) (s : SectorState)
      → InRange s
      → 0 < attempt
      → (cmd : List ℕ) (e : Error)
      → Triple IsLost IsLost (retry_loop t b left attempt s cmd (some e)) (Received s)
  unfolding retry_loop
  retry_again zero attempt s i p cmd e = record { run = λ r l. l }
  retry_again (suc left) attempt unknown i p cmd e =
      rw (lt→ltb 0 attempt p) (record { run = λ r l. l })
  retry_again (suc left) attempt (known s) i p cmd e = rw (lt→ltb 0 attempt p) (
      Triple-bind
        (Triple-weaken (λ r l. l.valid) (λ _ _ q. q) (λ _ l. l)
          (force_sector_select-Triple t b s i))
        λ _.
          Triple-weaken (λ r v. (v.valid, v.sector)) (λ _ _ q. q) (λ _ l. l)
            (attempt_once-Triple (known s) _ cmd
              (λ f. retry_again left (attempt + 1) (known s) i (omega arith) cmd f)))

  -- A frame that comes back was answered in the sector that was selected before the call.
  pub transceive_with_retry-Triple :
      (s : SectorState) (cmd : List ℕ)
      → Triple IsLost (IsIn s) (transceive_with_retry t b cmd) (Received s)
  unfolding transceive_with_retry retry_loop
  transceive_with_retry-Triple s cmd = record {
    run = λ r v.
        subst (λ s. Post IsLost (Received s) (transceive_with_retry t b cmd r)) v.1
          ((attempt_once-Triple r.sector _ cmd
              (λ f. retry_again r.max_retries 1 r.sector v.0.selected (omega arith) cmd f)).run
            r (v.0, refl));
  }
