-- ===== src/Type2/Reader/Recovery.antt =====
-- Retries that are enough (src/type2/reader.rs, `transceive_with_retry`).
use nfc_forum_tags.Prelude.{ℕ, zero, suc, ◌+◌, ◌≤◌, ◌<◌, ◌≡◌, refl, List, none, some, lt→ltb, arith}
use mathlib.Core.Path.{subst⁻¹}
use nfc_forum_tags.Outcome.{ok}
use nfc_forum_tags.Vec.{Build}
use nfc_forum_tags.Type2.Geometry.{max_sector}
use nfc_forum_tags.Type2.Reader.State.{
  Transmission, received, failed, Transceiver, known, unknown, T2tReader, invalidate_cache, Action,
}
use nfc_forum_tags.Type2.Reader.Link.{exchange, attempt_once, retry_loop, transceive_with_retry}
use nfc_forum_tags.Type2.Reader.Triple.{Post, Triple, Triple-weaken, Triple-bind}
use nfc_forum_tags.Type2.Reader.Recovering.{IsRecovering, Never, AtMost, selection}

module _ {t : Transceiver} (b : Build) (cmd : List ℕ) (device : IsRecovering t cmd) where
  open t use {Device, Error, transceive}

  -- The device has answered with that frame.
  abbrev pub IsAnswer : List ℕ → Type 0
  IsAnswer raw = (d : Device) × ((transceive cmd d).0 ≡ received raw)

  -- An attempt, with `k` failures to come and as many retries left.
  attempt :
      (k : ℕ) (again : Error → Action Device Error (List ℕ))
      → ((j : ℕ)
          → k ≡ suc j
          → (e : Error) → Triple Never (AtMost b cmd device j) (again e) (λ raw _. IsAnswer raw))
      → Triple Never (AtMost b cmd device k) (attempt_once t b again cmd) (λ raw _. IsAnswer raw)
  unfolding attempt_once exchange
  attempt k again h = record { run = λ r l. outcome k h r l (transceive cmd r.device).0 refl }
    where
      outcome :
          (k : ℕ)
          → ((j : ℕ)
              → k ≡ suc j
              → (e : Error)
              → Triple Never (AtMost b cmd device j) (again e) (λ raw _. IsAnswer raw))
          → (r : T2tReader Device) → AtMost b cmd device k r
          → (x : Transmission Error (List ℕ)) → (transceive cmd r.device).0 ≡ x
          → Post {D = Device} {E = Error} {A = List ℕ} Never
              (λ raw _. IsAnswer raw)
              (elim x [
                | received raw ↦ (ok raw, record r { device = (transceive cmd r.device).1 })
                | failed e ↦ again e (
                    invalidate_cache (record (record r { device = (transceive cmd r.device).1 }) {
                      sector = unknown;
                    }))
              ])
      outcome k h r l (received raw) e = (r.device, e)
      outcome zero h r l (failed f) e =
          let (raw, g) = device.answers r.device (omega (arith, l)) in absurd (cc (e, g))
      outcome (suc j) h r l (failed f) e = (h j refl f).run _ (device.recovers r.device j l)

  retries :
      (k attempt_no s : ℕ)
      → s ≤ max_sector
      → 0 < attempt_no
      → (e : Error)
      → Triple Never
          (AtMost b cmd device k)
          (retry_loop t b (suc k) attempt_no (known s) cmd (some e))
          (λ raw _. IsAnswer raw)
  unfolding retry_loop
  retries zero attempt_no s h p e = rw (lt→ltb 0 attempt_no p) (
      Triple-bind (selection b cmd device zero s h) λ _.
        attempt zero (λ f. retry_loop t b zero (attempt_no + 1) (known s) cmd (some f))
          λ j z f. absurd (omega (arith, z)))
  retries (suc k) attempt_no s h p e = rw (lt→ltb 0 attempt_no p) (
      Triple-bind (selection b cmd device (suc k) s h) λ _.
        attempt (suc k) (λ f. retry_loop t b (suc k) (attempt_no + 1) (known s) cmd (some f))
          λ j z f.
            let same : k ≡ j = omega (arith, z) in
            Triple-weaken (λ r l. omega (arith, l, same)) (λ _ _ q. q) (λ _ l. l)
              (retries k (attempt_no + 1) s h (omega arith) f))

  -- If a sector other than the reserved one is taken for selected, the transmission of a frame
  -- fails no more often than there are retries before it is answered, and every selection of a
  -- sector between two attempts is acknowledged, then `transceive_with_retry` answers a frame,
  -- one that the device gives as an answer to it.
  pub transceive_with_retry_recovers :
      (s : ℕ) (r : T2tReader Device)
      → r.sector ≡ known s
      → s ≤ max_sector
      → device.faults r.device ≤ r.max_retries
      → Post Never (λ raw _. IsAnswer raw) (transceive_with_retry t b cmd r)
  unfolding transceive_with_retry retry_loop
  transceive_with_retry_recovers s r e h l =
      subst⁻¹
        (λ u.
          Post {A = List ℕ} Never (λ raw _. IsAnswer raw)
            (retry_loop t b (suc r.max_retries) 0 u cmd none r))
        e (first r.max_retries r l)
    where
      first :
          (k : ℕ) (r : T2tReader Device)
          → device.faults r.device ≤ k
          → Post {A = List ℕ} Never
              (λ raw _. IsAnswer raw)
              (retry_loop t b (suc k) 0 (known s) cmd none r)
      first zero r l =
          (attempt zero (λ f. retry_loop t b zero 1 (known s) cmd (some f))
              λ j z f. absurd (omega (arith, z))).run
            r l
      first (suc k) r l =
          (attempt (suc k) (λ f. retry_loop t b (suc k) 1 (known s) cmd (some f))
              λ j z f.
                let same : k ≡ j = omega (arith, z) in
                Triple-weaken (λ r l. omega (arith, l, same)) (λ _ _ q. q) (λ _ l. l)
                  (retries k 1 s h (omega arith) f)).run
            r l
