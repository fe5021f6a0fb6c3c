-- ===== src/Tests/Flaky.antt =====
-- The theorems on retries, on a device whose transmissions fail a number of times.
use nfc_forum_tags.Prelude.{
  ℕ, zero, suc, ◌≤◌, ◌≡◌, refl, List, [], ◌∷◌, none, ◌==◌, if◌then◌else◌, inl, arith,
}
use nfc_forum_tags.Outcome.{err}
use nfc_forum_tags.Type2.Command.{parse_answer}
use nfc_forum_tags.Type2.Reader.State.{
  Transmission, received, failed, Transceiver, transceiver, known, unknown, T2tReader, new,
  set_max_retries, zeros16, mark_tag_state_unknown,
}
use nfc_forum_tags.Type2.Reader.Link.{transceive_with_retry}
use nfc_forum_tags.Type2.Reader.Triple.{Post}
use nfc_forum_tags.Type2.Reader.Recovering.{IsRecovering, Never}
use nfc_forum_tags.Type2.Reader.Recovery.{IsAnswer, transceive_with_retry_recovers}
use nfc_forum_tags.Type2.Reader.Failure.{lost_reader, transceive_with_retry_gives_up}
use nfc_forum_tags.Tests.Fixtures.{test_build}

-- The device counts the failures that are to come.
abbrev faulty : ℕ → Transmission (Unit {0}) (List ℕ) × ℕ
faulty zero = (received zeros16, 0)
faulty (suc k) = (failed tt, k)

abbrev transmit : List ℕ → ℕ → Transmission (Unit {0}) (List ℕ) × ℕ
transmit [] k = (failed tt, k)
transmit (code ∷ rest) k = if code == 0xC2 then (received (0x0A ∷ []), k) else faulty k

abbrev flaky : Transceiver
flaky = record {
  Device = ℕ;
  Error = Unit {0};
  transceive = transmit;
  transceive_no_response = λ cmd k. (received none, k);
}

faulty_answers : (k : ℕ) → k ≡ 0 → (raw : List ℕ) × ((faulty k).0 ≡ received raw)
faulty_answers zero e = (zeros16, refl)
faulty_answers (suc k) e = absurd (omega (arith, e))

faulty_recovers : (d k : ℕ) → d ≤ suc k → (faulty d).1 ≤ k
faulty_recovers zero k h = omega arith
faulty_recovers (suc d) k h = omega (arith, h)

flaky-IsRecovering : IsRecovering flaky (0x30 ∷ 0x03 ∷ [])
unfolding parse_answer
flaky-IsRecovering = record {
  faults = λ d. d;
  answers = faulty_answers;
  recovers = faulty_recovers;
  acknowledges = λ d. (0x0A ∷ [], refl, refl, omega arith);
  selects = λ s d. (refl, omega arith);
}

-- Three failures, and three retries.
three_retries : T2tReader ℕ
unfolding new set_max_retries
three_retries = set_max_retries 3 (new 3)

three_known : three_retries.sector ≡ known 0
unfolding three_retries
three_known = refl

three_enough : flaky-IsRecovering.faults three_retries.device ≤ three_retries.max_retries
unfolding three_retries flaky-IsRecovering
three_enough = omega arith

transceive_with_retry_recovers_example :
    Post Never
      (λ raw _. IsAnswer test_build (0x30 ∷ 0x03 ∷ []) flaky-IsRecovering raw)
      (transceive_with_retry flaky test_build (0x30 ∷ 0x03 ∷ []) three_retries)
transceive_with_retry_recovers_example =
    transceive_with_retry_recovers test_build (0x30 ∷ 0x03 ∷ []) flaky-IsRecovering 0 three_retries
      three_known (omega arith) three_enough

-- The same device, with nothing known of its sector.
lost_flaky : T2tReader ℕ
unfolding mark_tag_state_unknown new
lost_flaky = mark_tag_state_unknown (new 3)

lost_sector : lost_flaky.sector ≡ unknown
unfolding lost_flaky
lost_sector = refl

lost_failed : (transmit (0x30 ∷ 0x03 ∷ []) lost_flaky.device).0 ≡ failed tt
unfolding lost_flaky
lost_failed = refl

transceive_with_retry_gives_up_example :
    transceive_with_retry flaky test_build (0x30 ∷ 0x03 ∷ []) lost_flaky
    ≡ (err (transceiver tt), lost_reader flaky test_build (0x30 ∷ 0x03 ∷ []) lost_flaky)
transceive_with_retry_gives_up_example =
    transceive_with_retry_gives_up flaky test_build (0x30 ∷ 0x03 ∷ []) lost_flaky tt
      (inl lost_sector) lost_failed
