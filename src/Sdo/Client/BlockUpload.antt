-- ===== src/Sdo/Client/BlockUpload.antt =====
-- `BlockUploadStream` (canopen/sdo/client.py), from the initiation of an upload to its end. The loop of
-- `_retransmit` runs until a response time is over: here for as many responses as its fuel. `crc_hqx` is
-- the function of binascii behind CrcXmodem.
pub mod Timeout
use canopen_asyncio.Sdo.Client.BlockDownload.{abort_unless}
use canopen_asyncio.Sdo.Client.Readable.{first_byte}
use canopen_asyncio.Sdo.Client.{
  Bus, SdoClient, send_request, read_response, request_response, client_abort,
}
use canopen_asyncio.Sdo.Frames.{pack_header, unpack_header, unpack_u32_at_4}
use canopen_asyncio.Sdo.Constants
use canopen_asyncio.Common.Bytes.{Bytes}
use canopen_asyncio.Common.Monad.{
  Action, Result, ok, err, raise, pure, gets, modify, lift, ◌>>=◌, ◌>>◌, sdo_communication,
  attribute_error, struct_error, diverged,
}
use canopen_asyncio.Common.{
  ℕ, zero, suc, ◌+◌, ◌-◌, ◌*◌, ◌/◌, Bool, true, false, not, ◌&&◌, ◌||◌, Option, none, some, List,
  [], ◌∷◌, ◌++◌, ◌==◌, ltb, leb, if◌then◌else◌, bit_and, bit_or, length, take, drop, replicate,
}

pub record BlockUploadStream (E : Type 0) : Type 0 where
  pub sdo_client : SdoClient E
  pub size : Option ℕ
  pub pos : ℕ
  pub done : Bool
  pub crc : ℕ
  pub server_crc : Option ℕ
  pub ackseq : ℕ
  pub failed : Bool
  pub crc_supported : Bool

abbrev pub upload_blksize : ℕ
upload_blksize = 127

-- `struct.unpack_from("<BH", response)`
unfoldable pub unpack_end : Bytes → Result (ℕ × ℕ)
unpack_end (command ∷ lo ∷ hi ∷ rest) = ok (command, lo + 256 * hi)
unpack_end _ = err struct_error

-- The size, where the response says that it has one.
unfoldable pub announced_size : ℕ → Bytes → Result (Option ℕ)
announced_size res_command response =
    if bit_and res_command Constants.block_size_specified == 0
    then ok none
    else elim (unpack_u32_at_4 response) [ ok n ↦ ok (some n) | err e ↦ err e ]

module _ {E : Type 0} (bus : Bus E) (crc_hqx : Bytes → ℕ → ℕ) where
  -- `BlockUploadStream.__init__`. A value for another object is not aborted.
  unfoldable pub open_block_upload : ℕ → ℕ → Bool → Action (SdoClient E) (BlockUploadStream E)
  open_block_upload index subindex request_crc = do
    let command =
        if request_crc
        then bit_or Constants.request_block_upload Constants.crc_supported
        else Constants.request_block_upload
    header ← lift (pack_header command index subindex)
    response ← request_response bus (header ++ (upload_blksize ∷ replicate 3 0))
    (res_command, res_index, res_subindex) ← lift (unpack_header response)
    abort_unless bus crc_hqx (bit_and res_command 0xE0 == Constants.response_block_upload)
        Constants.abort_invalid_command_specifier
    lift (if res_index == index && res_subindex == subindex then ok tt else err sdo_communication)
    size ← lift (announced_size res_command response)
    send_request bus
        (bit_or Constants.request_block_upload Constants.start_block_upload ∷ replicate 7 0)
    gets (λ c. record {
      sdo_client = c;
      size = size;
      pos = 0;
      done = false;
      crc = 0;
      server_crc = none;
      ackseq = 0;
      failed = false;
      crc_supported = not (bit_and res_command Constants.crc_supported == 0);
    })

  unfoldable pub on_upload_client :
      {A : Type 0} → Action (SdoClient E) A → Action (BlockUploadStream E) A
  on_upload_client act s = let (r, c) = act s.sdo_client in (r, record s { sdo_client = c })

  -- `self._error = True`, an abort, and the exception.
  unfoldable pub fail_unless : Bool → ℕ → Action (BlockUploadStream E) (Unit {0})
  fail_unless true code = pure tt
  fail_unless false code = do
    modify (λ s. record s { failed = true })
    on_upload_client (client_abort bus code)
    raise sdo_communication

  -- `_ack_block`
  unfoldable pub ack_block : Action (BlockUploadStream E) (Unit {0})
  ack_block = do
    ackseq ← gets (λ s. s.ackseq)
    on_upload_client (
        send_request bus (
          bit_or Constants.request_block_upload Constants.block_transfer_response
          ∷ ackseq
          ∷ upload_blksize
          ∷ replicate 5 0))
    modify (λ s. record s { ackseq = 0 })

  -- The loop of `_retransmit`: responses out of sequence are passed over.
  unfoldable pub resync : ℕ → Action (BlockUploadStream E) Bytes
  resync zero s = (fail_unless false Constants.abort_timed_out >> raise sdo_communication) s
  resync (suc fuel) s =
      let (r, s1) = on_upload_client (read_response bus) s in
      let again = resync fuel s1 in
      elim r [
        | err e ↦ (err e, s1)
        | ok response ↦ elim (first_byte response) [
          | err e ↦ (err e, s1)
          | ok res_command ↦
              let seqno = bit_and res_command 0x7F in
              if seqno == s1.ackseq + 1 then (ok response, record s1 { ackseq = seqno }) else again
        ]
      ]

  unfoldable pub retransmit_upload : ℕ → Action (BlockUploadStream E) Bytes
  retransmit_upload fuel = do ack_block; resync fuel

  -- `_end_upload`, the bytes that the last segment does not use. On a timeout it calls an `abort` that the
  -- stream does not have.
  unfoldable pub end_upload : Action (BlockUploadStream E) ℕ
  end_upload s =
      let (r, s1) = on_upload_client (read_response bus) s in
      elim r [
        | err sdo_communication ↦ (err attribute_error, s1)
        | err e ↦ (err e, s1)
        | ok response ↦
            (do
              (res_command, server_crc) ← lift (unpack_end response)
              modify (λ s. record s { server_crc = some server_crc })
              fail_unless (bit_and res_command 0xE0 == Constants.response_block_upload)
                  Constants.abort_invalid_command_specifier
              fail_unless (bit_and res_command 0x3 == Constants.end_block_transfer)
                  Constants.abort_invalid_command_specifier
              pure (bit_and (res_command / 4) 0x7))
              s1
      ]

  -- The segment that is next in sequence.
  unfoldable pub next_segment : ℕ → Action (BlockUploadStream E) Bytes
  next_segment fuel s =
      let (r, s1) = on_upload_client (read_response bus) s in
      let (q, s2) : Result Bytes × BlockUploadStream E = elim r [
        | ok response ↦ (ok response, s1)
        | err sdo_communication ↦ retransmit_upload fuel s1
        | err e ↦ (err e, s1)
      ] in
      let again = retransmit_upload fuel s2 in
      elim q [
        | err e ↦ (err e, s2)
        | ok response ↦ elim (first_byte response) [
          | err e ↦ (err e, s2)
          | ok res_command ↦
              let seqno = bit_and res_command 0x7F in
              if seqno == s2.ackseq + 1 then (ok response, record s2 { ackseq = seqno }) else again
        ]
      ]

  -- The block is acknowledged when it is full, and at the last segment.
  unfoldable pub ack_full : Bool → Action (BlockUploadStream E) (Unit {0})
  ack_full last s =
      let rest = ack_block s in if leb upload_blksize s.ackseq || last then rest else (ok tt, s)

  unfoldable pub segment_content : Bool → Bytes → Action (BlockUploadStream E) Bytes
  segment_content false response = pure (take 7 (drop 1 response))
  segment_content true response = do
    n ← end_upload
    modify (λ s. record s { done = true })
    pure (take (7 - n) (drop 1 response))

  -- The CRC of what came, compared when all has come.
  unfoldable pub check_crc : Bytes → Action (BlockUploadStream E) (Unit {0})
  check_crc content s =
      let s1 = record s { crc = crc_hqx content s.crc } in
      let matches : Bool = elim s1.server_crc [ some crc ↦ crc == s1.crc | none ↦ false ] in
      let compared = fail_unless matches Constants.abort_crc_error s1 in
      if s.crc_supported then (if s.done then compared else (ok tt, s1)) else (ok tt, s)

  -- `read(7)`
  unfoldable pub read_block : ℕ → Action (BlockUploadStream E) Bytes
  read_block fuel s =
      let steps = do
        response ← next_segment fuel
        res_command ← lift (first_byte response)
        let last = not (bit_and res_command Constants.no_more_blocks == 0)
        ack_full last
        content ← segment_content last response
        check_crc content
        modify (λ s. record s { pos = s.pos + length content })
        pure content
      in if s.done then (ok [], s) else steps s

  -- `close`, of a stream that is not closed.
  unfoldable pub close_block_upload : Action (BlockUploadStream E) (Unit {0})
  close_block_upload s =
      let ended =
        on_upload_client
          (send_request bus
            (bit_or Constants.request_block_upload Constants.end_block_transfer ∷ replicate 7 0))
          s in
      if s.done && not s.failed then ended else (ok tt, s)

  -- `readall`: read until nothing comes.
  unfoldable pub readall_block : ℕ → ℕ → Action (BlockUploadStream E) Bytes
  readall_block zero fuel s = (err diverged, s)
  readall_block (suc rounds) fuel s =
      let (r, s1) = read_block fuel s in
      elim r [
        | err e ↦ (err e, s1)
        | ok [] ↦ (ok [], s1)
        | ok content ↦
            let (q, s2) = readall_block rounds fuel s1 in
            elim q [ ok more ↦ (ok (content ++ more), s2) | err e ↦ (err e, s2) ]
      ]
