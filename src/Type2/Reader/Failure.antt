-- ===== src/Type2/Reader/Failure.antt =====
-- Failures that are not retried (src/type2/reader.rs, `transceive_with_retry`).
use nfc_forum_tags.Prelude.{ℕ, zero, suc, ◌≡◌, ◌⊎◌, inl, inr, ap, ◌∙◌, refl, List, none, some}
use mathlib.Core.Path.{subst⁻¹}
use nfc_forum_tags.Outcome.{Outcome, ok, err}
use nfc_forum_tags.Vec.{Build}
use nfc_forum_tags.Type2.Reader.State.{
  Transmission, received, failed, Transceiver, ReaderError, transceiver, unknown, T2tReader,
  invalidate_cache, Action,
}
use nfc_forum_tags.Type2.Reader.Link.{exchange, attempt_once, retry_loop, transceive_with_retry}

module _ (t : Transceiver) (b : Build) (cmd : List ℕ) where
  open t use {Device, Error, transceive}

  -- The reader that a failed transmission leaves.
  abbrev pub lost_reader : T2tReader Device → T2tReader Device
  lost_reader r =
      invalidate_cache (record r { device = (transceive cmd r.device).1; sector = unknown })

  attempt_failed :
      (again : Error → Action Device Error (List ℕ)) (r : T2tReader Device) (e : Error)
      → (transceive cmd r.device).0 ≡ failed e
      → attempt_once t b again cmd r ≡ again e (lost_reader r)
  unfolding attempt_once exchange
  attempt_failed again r e f = ap (λ (x : Transmission Error (List ℕ)). case_of x) f
    where
      case_of :
          Transmission Error (List ℕ) → Outcome (ReaderError Error) (List ℕ) × T2tReader Device
      case_of (received raw) = (ok raw, record r { device = (transceive cmd r.device).1 })
      case_of (failed e) = again e (lost_reader r)

  -- If the sector is unknown, or there are no retries, and the transmission of a frame fails,
  -- then `transceive_with_retry` fails with that error after this one transmission, and leaves a
  -- reader whose sector is unknown and whose cache is empty.
  pub transceive_with_retry_gives_up :
      (r : T2tReader Device) (e : Error)
      → (r.sector ≡ unknown) ⊎ (r.max_retries ≡ 0)
      → (transceive cmd r.device).0 ≡ failed e
      → transceive_with_retry t b cmd r ≡ (err (transceiver e), lost_reader r)
  unfolding transceive_with_retry retry_loop
  transceive_with_retry_gives_up r e (inl s) f =
      subst⁻¹
        (λ u.
          retry_loop t b (suc r.max_retries) 0 u cmd none r ≡ (err (transceiver e), lost_reader r))
        s
        (attempt_failed (λ f. retry_loop t b r.max_retries 1 unknown cmd (some f)) r e f
          ∙ either r.max_retries)
    where
      either :
          (k : ℕ)
          → retry_loop t b k 1 unknown cmd (some e) (lost_reader r)
            ≡ (err (transceiver e), lost_reader r)
      either zero = refl
      either (suc k) = refl
  transceive_with_retry_gives_up r e (inr z) f =
      subst⁻¹
        (λ k. retry_loop t b (suc k) 0 r.sector cmd none r ≡ (err (transceiver e), lost_reader r)) z
        (attempt_failed (λ f. retry_loop t b zero 1 r.sector cmd (some f)) r e f)
