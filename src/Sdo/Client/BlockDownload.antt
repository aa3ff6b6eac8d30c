-- ===== src/Sdo/Client/BlockDownload.antt =====
-- `BlockDownloadStream` (canopen/sdo/client.py). The methods write, send, _block_ack and _retransmit call
-- each other: those below take `write` as an argument, and `block_write` ties them on fuel, of which each
-- retransmission within a write takes one. `crc_hqx` is the function of binascii behind CrcXmodem.
pub mod Receiver
pub mod Delivery
pub mod Content
pub mod Whole
pub mod Lost
use canopen_asyncio.Common.Bytes.{Bytes, le_bytes}
use canopen_asyncio.Common.Monad.{
  Action, Result, ok, err, raise, pure, gets, modify, lift, ◌>>=◌, ◌>>◌, sdo_communication,
  runtime_error, assertion_error, struct_error, value_error, blocking_io_error, diverged,
}
use canopen_asyncio.Sdo.Constants
use canopen_asyncio.Sdo.Frames.{pack_header, pack_u32, unpack_header}
use canopen_asyncio.Sdo.Client.{
  Bus, SdoClient, send_request, read_response, request_response, client_abort,
}
use canopen_asyncio.Sdo.Client.Readable.{first_byte}
use canopen_asyncio.Sdo.Client.Writable.{with_close}
use canopen_asyncio.Common.{
  ℕ, zero, suc, ◌+◌, ◌-◌, ◌*◌, Bool, true, false, not, ◌&&◌, ◌||◌, Option, none, some, List, [],
  ◌∷◌, ◌++◌, ◌==◌, ltb, leb, if◌then◌else◌, bit_and, bit_or, length, take, drop, replicate,
}

pub record BlockDownloadStream (E : Type 0) : Type 0 where
  pub sdo_client : SdoClient E
  pub size : Option ℕ
  pub pos : ℕ
  pub done : Bool
  pub seqno : ℕ
  pub crc : ℕ
  pub last_bytes_sent : ℕ
  pub current_block : List Bytes
  pub retransmitting : Bool
  pub blksize : ℕ
  pub crc_supported : Bool

-- The first bytes of a frame of eight; a bytearray takes no number above 255.
unfoldable pub frame : ℕ → Bytes → Result Bytes
frame command content =
    if ltb command 256
    then ok (command ∷ (content ++ replicate (7 - length content) 0))
    else err value_error

-- `struct.unpack_from("BBB", response)`
unfoldable pub unpack_ack : Bytes → Result (ℕ × ℕ × ℕ)
unpack_ack (command ∷ ackseq ∷ blksize ∷ rest) = ok (command, ackseq, blksize)
unpack_ack _ = err struct_error

-- `struct.unpack_from("B", response, 4)`
unfoldable pub byte_at_4 : Bytes → Result ℕ
byte_at_4 (_ ∷ _ ∷ _ ∷ _ ∷ b ∷ rest) = ok b
byte_at_4 _ = err struct_error

-- `self.size is not None and self.pos + len(data) >= self.size`
unfoldable pub reaches : Option ℕ → ℕ → Bool
reaches none pos = false
reaches (some size) pos = leb size pos

-- `len(block) * 7` bytes back; less than that has been sent only where the last segment is short, and
-- then nothing is written any more.
unfoldable pub rewound : ℕ → List Bytes → ℕ
rewound pos block = pos - length block * 7

-- The command byte and the size field of the request that opens a block download.
unfoldable pub block_announcement : Option ℕ → Bool → Result (ℕ × Bytes)
block_announcement size request_crc =
    let command =
      if request_crc
      then bit_or Constants.request_block_download Constants.crc_supported
      else Constants.request_block_download in
    elim size [
      | none ↦ ok (command, replicate 4 0)
      | some n ↦ elim (pack_u32 n) [
        | ok field ↦ ok (bit_or command Constants.block_size_specified, field)
        | err e ↦ err e
      ]
    ]

module _ {E : Type 0} (bus : Bus E) (crc_hqx : Bytes → ℕ → ℕ) where
  -- `self.sdo_client.abort(code)` and `raise SdoCommunicationError`.
  unfoldable pub abort_unless : Bool → ℕ → Action (SdoClient E) (Unit {0})
  abort_unless true code = pure tt
  abort_unless false code = do client_abort bus code; raise sdo_communication

  -- `BlockDownloadStream.__init__`
  unfoldable pub open_block_download :
      ℕ → ℕ → Option ℕ → Bool → Action (SdoClient E) (BlockDownloadStream E)
  open_block_download index subindex size request_crc = do
    (command, field) ← lift (block_announcement size request_crc)
    header ← lift (pack_header command index subindex)
    response ← request_response bus (header ++ field)
    (res_command, res_index, res_subindex) ← lift (unpack_header response)
    abort_unless (bit_and res_command 0xE0 == Constants.response_block_download)
        Constants.abort_invalid_command_specifier
    abort_unless (res_index == index && res_subindex == subindex) Constants.abort_general_error
    blksize ← lift (byte_at_4 response)
    gets (λ c. record {
      sdo_client = c;
      size = size;
      pos = 0;
      done = false;
      seqno = 0;
      crc = 0;
      last_bytes_sent = 0;
      current_block = [];
      retransmitting = false;
      blksize = blksize;
      crc_supported = not (bit_and res_command Constants.crc_supported == 0);
    })

  unfoldable pub on_client :
      {A : Type 0} → Action (SdoClient E) A → Action (BlockDownloadStream E) A
  on_client act s = let (r, c) = act s.sdo_client in (r, record s { sdo_client = c })

  -- The response that ends a block; a block that is not answered is aborted.
  unfoldable pub await_ack : Action (SdoClient E) (ℕ × ℕ)
  await_ack c =
      let (r, c') = read_response bus c in
      elim r [
        | err sdo_communication ↦
            (client_abort bus Constants.abort_timed_out >> raise sdo_communication) c'
        | err e ↦ (err e, c')
        | ok response ↦
            (do
              (res_command, ackseq, blksize) ← lift (unpack_ack response)
              abort_unless (bit_and res_command 0xE0 == Constants.response_block_download)
                  Constants.abort_invalid_command_specifier
              abort_unless (bit_and res_command 0x3 == Constants.block_transfer_response)
                  Constants.abort_invalid_command_specifier
              pure (ackseq, blksize))
              c'
      ]

  module _ (write : Bytes → Action (BlockDownloadStream E) (Option ℕ)) where
    -- The loop of `_retransmit`.
    unfoldable pub rewrite : List Bytes → Action (BlockDownloadStream E) (Unit {0})
    rewrite [] = pure tt
    rewrite (b ∷ block) = do write b; rewrite block

    unfoldable pub retransmit : ℕ → ℕ → Action (BlockDownloadStream E) (Unit {0})
    retransmit ackseq blksize s =
        let block = drop ackseq s.current_block in
        (do rewrite block; modify (λ s. record s { retransmitting = false }))
          (record s {
            pos = rewound s.pos block;
            current_block = [];
            seqno = 0;
            blksize = blksize;
            retransmitting = true;
          })

    -- The end of `_block_ack`: a sequence error, or all were received.
    unfoldable pub acknowledge : Bool → ℕ → ℕ → Action (BlockDownloadStream E) (Unit {0})
    acknowledge true ackseq blksize =
        modify (λ s. record s { current_block = []; blksize = blksize; seqno = 0 })
    acknowledge false ackseq blksize = retransmit ackseq blksize

    unfoldable pub block_ack : Action (BlockDownloadStream E) (Unit {0})
    block_ack = do
      (ackseq, blksize) ← on_client await_ack
      received ← gets (λ s. ackseq == s.blksize)
      acknowledge received ackseq blksize

    -- The stream before the segment is sent.
    unfoldable pub numbered : Bytes → Bool → BlockDownloadStream E → BlockDownloadStream E
    numbered b false s = record s { seqno = s.seqno + 1 }
    numbered b true s = record s {
      seqno = s.seqno + 1;
      done = true;
      blksize = s.seqno + 1;
      last_bytes_sent = length b;
    }

    -- And after it.
    unfoldable pub recorded : Bytes → BlockDownloadStream E → BlockDownloadStream E
    recorded b s = record s {
      pos = s.pos + length b;
      current_block = s.current_block ++ (b ∷ []);
      crc = if s.crc_supported && not s.retransmitting then crc_hqx b s.crc else s.crc;
    }

    unfoldable pub end_block : Action (BlockDownloadStream E) (Unit {0})
    end_block s = let rest = block_ack s in if leb s.blksize s.seqno then rest else (ok tt, s)

    unfoldable pub send : Bytes → Bool → Action (BlockDownloadStream E) (Unit {0})
    send b last s =
        let s1 = numbered b last s in
        let command = if last then bit_or s1.seqno Constants.no_more_blocks else s1.seqno in
        let steps = do
          request ← lift (frame command b)
          on_client (send_request bus request)
          modify (recorded b)
          end_block
        in if leb (length b) 7 && (last || length b == 7)
          then steps s1
          else (err assertion_error, s)

    unfoldable pub write_with : Bytes → Action (BlockDownloadStream E) (Option ℕ)
    write_with b s =
        let chunk = take 7 b in
        let sent = (do send chunk true; pure (some (length chunk))) s in
        let sent_full = (do send chunk false; pure (some (length chunk))) s in
        if s.done
        then (err runtime_error, s)
        else if reaches s.size (s.pos + length chunk)
        then sent
        else if ltb (length chunk) 7
        then (ok none, s)
        else sent_full

  -- `BlockDownloadStream.write`
  unfoldable pub block_write : ℕ → Bytes → Action (BlockDownloadStream E) (Option ℕ)
  block_write zero b s = (err diverged, s)
  block_write (suc fuel) b s = write_with (block_write fuel) b s

  -- `BlockDownloadStream.close`, of a stream that was opened and is not closed. The two bytes of the CRC
  -- follow the command.
  unfoldable pub close_block_download : Action (BlockDownloadStream E) (Unit {0})
  close_block_download s =
      let ending = bit_or Constants.request_block_download Constants.end_block_transfer in
      let command = bit_or ending ((7 - s.last_bytes_sent) * 4) in
      (do
        response ← on_client (
            request_response bus (
              command
              ∷ ((if s.crc_supported then le_bytes 2 s.crc else replicate 2 0) ++ replicate 5 0)))
        res_command ← lift (first_byte response)
        lift (
            if bit_and res_command Constants.end_block_transfer == 0
            then err sdo_communication
            else ok tt))
        s

  -- `BufferedWriter`: hand over what is left until nothing is; a write that takes nothing raises.
  unfoldable pub block_drain : ℕ → ℕ → Bytes → Action (BlockDownloadStream E) (Unit {0})
  block_drain zero retries b s = if length b == 0 then (ok tt, s) else (err diverged, s)
  block_drain (suc fuel) retries b s =
      let (r, s') = block_write retries b s in
      let rest : Result (Unit {0}) × BlockDownloadStream E = elim r [
        | ok (some n) ↦ block_drain fuel retries (drop n b) s'
        | ok none ↦ (err blocking_io_error, s')
        | err e ↦ (err e, s')
      ] in
      if length b == 0 then (ok tt, s) else rest

  -- `fp = client.open(index, subindex, "wb", size=len(content), block_transfer=True)`, and
  -- `fp.write(content)` in `with fp`. The fuel bounds the segments that are written, and the
  -- retransmissions within one write.
  unfoldable pub block_download : ℕ → ℕ → ℕ → ℕ → Bytes → Bool → Action (SdoClient E) (Unit {0})
  block_download fuel retries index subindex content request_crc c =
      let (opened, c') = open_block_download index subindex (some (length content)) request_crc c in
      elim opened [
        | err e ↦ (err e, c')
        | ok fp ↦
            let (r, fp') = with_close (block_drain fuel retries content) close_block_download fp in
            (r, fp'.sdo_client)
      ]
