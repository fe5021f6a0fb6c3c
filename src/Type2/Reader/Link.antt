-- ===== src/Type2/Reader/Link.antt =====
-- Exchanges with the tag (src/type2/reader.rs): retries, READ and WRITE, the selection of a sector
-- and the Capability Container.
use nfc_forum_tags.Prelude.{ℕ, zero, suc, ◌+◌, List, Option, none, some, ltb, ◌==◌, if◌then◌else◌}
use nfc_forum_tags.Outcome.{Outcome, ok, err, panic, index}
use nfc_forum_tags.Vec.{Build}
use nfc_forum_tags.Type2.Error.{Type2Error, invalid_length, out_of_range}
use nfc_forum_tags.Type2.Geometry.{cc_block, max_sector}
use nfc_forum_tags.Type2.Cc.{CapabilityContainer, Bytes4}
use nfc_forum_tags.Type2.Cc
use nfc_forum_tags.Type2.Command.{
  Command, Answer, data_read, ack, nack, passive_ack, to_bytes, parse_answer, sector_select_part1,
  sector_select_part2,
}
use nfc_forum_tags.Type2.Reader.State.{
  Transmission, received, failed, Transceiver, ReaderError, transceiver, SectorState, known,
  unknown, is_known, T2tReader, invalidate_cache, Action, pure, raise, lift, ◌>>=◌, ◌>>◌, modify,
  raise_if,
}

module _ (t : Transceiver) (b : Build) where
  open t use {Device, Error, transceive, transceive_no_response}

  -- `self.transceiver.transceive(cmd)`, and the same for a command that silence answers.
  unfoldable pub exchange :
      List ℕ → T2tReader Device → Transmission Error (List ℕ) × T2tReader Device
  exchange cmd r = let (reply, d) = transceive cmd r.device in (reply, record r { device = d })

  unfoldable pub exchange_silent :
      List ℕ → T2tReader Device → Transmission Error (Option ℕ) × T2tReader Device
  exchange_silent cmd r =
      let (reply, d) = transceive_no_response cmd r.device in (reply, record r { device = d })

  abbrev pub as_error : {A : Type 0} → Transmission Error A → Outcome (ReaderError Error) A
  as_error (received a) = ok a
  as_error (failed e) = err (transceiver e)

  -- The match on the answer to WRITE and to Packet 1.
  abbrev pub expect_ack : Answer → Action Device Error (Unit {0})
  expect_ack ack = pure tt
  expect_ack (nack code) = raise (Type2Error.nack code)
  expect_ack (data_read bytes) = raise invalid_length
  expect_ack passive_ack = raise invalid_length

  abbrev pub refuse_nack : Option ℕ → Action Device Error (Unit {0})
  refuse_nack none = pure tt
  refuse_nack (some code) = raise (Type2Error.nack code)

  unfoldable pub force_sector_select : ℕ → Action Device Error (Unit {0})
  unfolding exchange exchange_silent
  force_sector_select sector = do
    raise_if (ltb max_sector sector) out_of_range
    modify invalidate_cache
    modify (λ r. record r { sector = unknown })
    raw ←
        (λ r. let (reply, r') = exchange (to_bytes b sector_select_part1) r in (as_error reply, r'))
    answer ← lift (parse_answer sector_select_part1 raw)
    expect_ack answer
    silence ← (λ r.
        let (reply, r') = exchange_silent (to_bytes b (sector_select_part2 sector)) r in
        (as_error reply, r'))
    refuse_nack silence
    modify (λ r. record r { sector = known sector })

  unfoldable pub sector_select : ℕ → Action Device Error (Unit {0})
  unfolding force_sector_select
  sector_select sector r =
      if ltb max_sector sector
      then raise out_of_range r
      else if is_known r.sector sector
      then pure tt r
      else force_sector_select sector r

  -- `Err(ReaderError::Transceiver(last_err.unwrap()))`
  abbrev pub give_up : Option Error → Action Device Error (List ℕ)
  give_up none r = (panic, r)
  give_up (some e) r = (err (transceiver e), r)

  -- One attempt. A failure forgets the sector and the cache, and goes on with `again`.
  unfoldable pub attempt_once :
      (Error → Action Device Error (List ℕ)) → List ℕ → Action Device Error (List ℕ)
  attempt_once again cmd r =
      let (reply, r') = exchange cmd r in
      elim reply [
        | received raw ↦ (ok raw, r')
        | failed e ↦ again e (invalidate_cache (record r' { sector = unknown }))
      ]

  -- The loop over the attempts, with the attempts that are left and the number of this one.
  unfoldable pub retry_loop :
      ℕ → ℕ → SectorState → List ℕ → Option Error → Action Device Error (List ℕ)
  unfolding force_sector_select attempt_once exchange
  retry_loop zero attempt intended cmd last_err = give_up last_err
  retry_loop (suc left) attempt intended cmd last_err =
      let send = attempt_once (λ e. retry_loop left (attempt + 1) intended cmd (some e)) cmd in
      if ltb 0 attempt
      then elim intended [ known s ↦ force_sector_select s >> send | unknown ↦ give_up last_err ]
      else send

  unfoldable pub transceive_with_retry : List ℕ → Action Device Error (List ℕ)
  unfolding retry_loop
  transceive_with_retry cmd r = retry_loop (suc r.max_retries) 0 r.sector cmd none r

  -- The match on the answer to READ.
  abbrev pub store_data : ℕ → Answer → Action Device Error (List ℕ)
  store_data block_no (data_read bytes) r =
      (ok bytes, record r { cache_block = some block_no; cache_data = bytes })
  store_data block_no (nack code) r = raise (Type2Error.nack code) r
  store_data block_no ack r = raise invalid_length r
  store_data block_no passive_ack r = raise invalid_length r

  -- A READ that the cache does not answer.
  unfoldable pub fetch : ℕ → Action Device Error (List ℕ)
  unfolding transceive_with_retry
  fetch block_no = do
    raw ← transceive_with_retry (to_bytes b (Command.read block_no))
    answer ← lift (parse_answer (Command.read block_no) raw)
    store_data block_no answer

  unfoldable pub read : ℕ → Action Device Error (List ℕ)
  unfolding fetch
  read block_no r = elim r.cache_block [
    | some cached_block ↦ if block_no == cached_block then pure r.cache_data r else fetch block_no r
    | none ↦ fetch block_no r
  ]

  unfoldable pub write : ℕ → Bytes4 → Action Device Error (Unit {0})
  unfolding transceive_with_retry
  write block_no bytes = do
    raw ← transceive_with_retry (to_bytes b (Command.write block_no bytes))
    modify invalidate_cache
    answer ← lift (parse_answer (Command.write block_no bytes) raw)
    expect_ack answer

  unfoldable pub read_cc : Action Device Error CapabilityContainer
  unfolding sector_select read
  read_cc = do
    sector_select 0
    block ← read cc_block
    b0 ← lift (index block 0)
    b1 ← lift (index block 1)
    b2 ← lift (index block 2)
    b3 ← lift (index block 3)
    lift (Cc.try_from (b0, b1, b2, b3))
