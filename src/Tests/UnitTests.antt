-- ===== src/Tests/UnitTests.antt =====
-- Unit tests of src/type2/reader.rs, run on the model.
use nfc_forum_tags.Prelude.{ℕ, ◌≡◌, refl, List, [], ◌∷◌, take, some, none, true, false}
use nfc_forum_tags.Outcome.{Outcome, ok, err, panic, stuck}
use nfc_forum_tags.Type2.Error.{out_of_range, nack}
use nfc_forum_tags.Type2.Command.{to_bytes, parse_answer, try_from}
use nfc_forum_tags.Vec.{try_extend}
use nfc_forum_tags.Type2.Reader.State.{
  T2tReader, new, set_max_retries, current_sector, sector_state, known, unknown, protocol,
  transceiver, ◌>>=◌, ◌>>◌,
}
use nfc_forum_tags.Type2.Reader.Link.{read, write, sector_select, read_cc}
use nfc_forum_tags.Type2.Cc
use nfc_forum_tags.Type2.Cc.{CapabilityContainer}
use nfc_forum_tags.Tag.{from_nibble, granted}
use nfc_forum_tags.Tests.Fixtures.{test_build}
use nfc_forum_tags.Tests.Mocks.{
  new_mock, setup_static_initialized, setup_static_with_ndef, mock, CountingTransceiver, counting,
  new_counting, FailingTransceiver, new_failing, failing, new_reset, sector_reset, nack_p2,
  padded_read,
}

abbrev answered : {E : Type 0} → Outcome E (List ℕ) → List ℕ
answered (ok bytes) = bytes
answered (err e) = []
answered panic = []
answered stuck = []

-- A write is read back.
write_block :
    ((write mock test_build 4 (0xAA, 0xBB, 0xCC, 0xDD) >> read mock test_build 4)
      (new (setup_static_initialized new_mock))).0
    ≡ ok (0xAA ∷ 0xBB ∷ 0xCC ∷ 0xDD ∷ 0 ∷ 0 ∷ 0 ∷ 0 ∷ 0 ∷ 0 ∷ 0 ∷ 0 ∷ 0 ∷ 0 ∷ 0 ∷ 0 ∷ [])
unfolding write read ◌>>=◌ new to_bytes parse_answer try_extend try_from padded_read
write_block = refl

read_block :
    take 4 (answered (read mock test_build 3 (new (setup_static_with_ndef new_mock))).0)
    ≡ 0xE1 ∷ 0x10 ∷ 0x06 ∷ 0x00 ∷ []
unfolding read ◌>>=◌ new to_bytes parse_answer try_extend try_from padded_read
read_block = refl

abbrev counted : CountingTransceiver
counted = record new_counting { inner = setup_static_with_ndef new_mock }

-- The second read is served from the cache.
read_cache_hit :
    ((read counting test_build 3 >>= λ _. read counting test_build 3)
      (new counted)).1.device.transceive_count
    ≡ 1
unfolding read ◌>>=◌ new to_bytes parse_answer try_extend try_from padded_read
read_cache_hit = refl

read_cache_miss_different_block :
    ((read counting test_build 3 >>= λ _. read counting test_build 8)
      (new counted)).1.device.transceive_count
    ≡ 2
unfolding read ◌>>=◌ new to_bytes parse_answer try_extend try_from padded_read
read_cache_miss_different_block = refl

write_invalidates_cache :
    ((read counting test_build 4 >>= λ _.
    write counting test_build 4 (0xAA, 0xBB, 0xCC, 0xDD) >> read counting test_build 4)
      (new counted)).1.device.transceive_count
    ≡ 3
unfolding read write ◌>>=◌ new to_bytes parse_answer try_extend try_from padded_read
write_invalidates_cache = refl

failing_reader : ℕ → ℕ → T2tReader FailingTransceiver
unfolding new set_max_retries
failing_reader failures retries =
    let f = new_failing failures in
    set_max_retries retries (new (record f { inner = setup_static_with_ndef f.inner }))

retry_on_transient_error :
    take 4 (answered (read failing test_build 3 (failing_reader 1 1)).0)
    ≡ 0xE1 ∷ 0x10 ∷ 0x06 ∷ 0x00 ∷ []
unfolding failing_reader read ◌>>=◌ to_bytes parse_answer try_extend try_from padded_read
retry_on_transient_error = refl

-- Two attempts, three failures.
retry_exhausted : (read failing test_build 3 (failing_reader 3 1)).0 ≡ err (transceiver tt)
unfolding failing_reader read ◌>>=◌ to_bytes parse_answer try_extend try_from padded_read
retry_exhausted = refl

retry_disabled : (read failing test_build 3 (failing_reader 1 0)).0 ≡ err (transceiver tt)
unfolding failing_reader read ◌>>=◌ to_bytes parse_answer try_extend try_from padded_read
retry_disabled = refl

-- Every attempt to select the sector fails, and then no retry is made.
no_retry_while_sector_unknown :
    let r = (read failing test_build 3 (failing_reader 100 3)).1 in
    let f = r.device in
    let again = read failing test_build 3 (record r { device = record f { attempts = 0 } }) in
    (sector_state r ≡ unknown) × (again.0 ≡ err (transceiver tt)) × (again.1.device.attempts ≡ 1)
unfolding failing_reader read ◌>>=◌ to_bytes parse_answer try_extend try_from padded_read
no_retry_while_sector_unknown = (refl, refl, refl)

-- The failure forgets the sector and the block that the first read left in the cache.
ambiguous_error_invalidates_cache_and_sector :
    let first = (read failing test_build 3 (failing_reader 0 0)).1 in
    let f = first.device in
    let r =
      read failing test_build 8 (record first { device = record f { failures_remaining = 1 } }) in
    (r.0 ≡ err (transceiver tt)) × (sector_state r.1 ≡ unknown) × (r.1.cache_block ≡ none)
unfolding failing_reader read ◌>>=◌ to_bytes parse_answer try_extend try_from padded_read
ambiguous_error_invalidates_cache_and_sector = (refl, refl, refl)

-- The failure of the WRITE sends the tag to sector 0, and the retry goes to sector 1.
retry_after_sector_reset_reselects_intended_sector :
    let first = (sector_select sector_reset test_build 1 (set_max_retries 1 (new new_reset))).1 in
    let d = first.device in
    let r =
      write sector_reset test_build 3
        (0xAA, 0xBB, 0xCC, 0xDD)
        (record first { device = record d { fail_in = 1 } }) in
    (r.0 ≡ ok tt)
    × (current_sector r.1 ≡ some 1)
    × (r.1.device.writes ≡ (1, 3, (0xAA, 0xBB, 0xCC, 0xDD)) ∷ [])
    × (r.1.device.selects ≡ 2)
unfolding write sector_select new set_max_retries current_sector ◌>>=◌ to_bytes parse_answer
    try_extend try_from
retry_after_sector_reset_reselects_intended_sector = (refl, refl, refl, refl)

-- An error at the second packet leaves the sector unknown, and a later selection restores it.
packet2_error_leaves_sector_unknown :
    let first = (sector_select sector_reset test_build 1 (new new_reset)).1 in
    let d = first.device in
    let lost =
      sector_select sector_reset test_build 2
        (record first { device = record d { fail_packet2 = true } }) in
    let d' = lost.1.device in
    let r = lost.1 in
    let last =
      sector_select sector_reset test_build 2
        (record r { device = record d' { fail_packet2 = false } }) in
    (sector_state first ≡ known 1)
    × (lost.0 ≡ err (transceiver tt))
    × (sector_state r ≡ unknown)
    × (sector_state last.1 ≡ known 2)
unfolding sector_select new ◌>>=◌ to_bytes parse_answer try_extend try_from
packet2_error_leaves_sector_unknown = (refl, refl, refl, refl)

packet2_nack_leaves_sector_unknown :
    let r = sector_select nack_p2 test_build 1 (new new_reset) in
    (r.0 ≡ err (protocol (nack 0))) × (sector_state r.1 ≡ unknown)
unfolding sector_select new ◌>>=◌ to_bytes parse_answer try_extend try_from
packet2_nack_leaves_sector_unknown = (refl, refl)

-- The reserved sector is refused without any traffic.
reserved_sector_rejected :
    let r = sector_select sector_reset test_build 0xFF (new new_reset) in
    (r.0 ≡ err (protocol out_of_range)) × (r.1.device.selects ≡ 0)
unfolding sector_select new
reserved_sector_rejected = (refl, refl)

read_cc_from_mock :
    (read_cc mock test_build (new (setup_static_initialized new_mock))).0
    ≡ ok (record {
      version_major = 1;
      version_minor = 0;
      size_field = 6;
      read_access = granted;
      write_access = granted;
    })
unfolding read_cc sector_select read new ◌>>=◌ to_bytes parse_answer try_extend try_from padded_read
    Cc.try_from Cc.is_valid from_nibble
read_cc_from_mock = refl
