-- ===== src/Sdo/Client/BlockDownload/Delivery.antt =====
-- A block download delivers its content (canopen/sdo/client.py).
use canopen_asyncio.Sdo.Client.BlockDownload.Receiver.{
  Receiver, Phase, receiver_bus, receive_frame, segment, ack,
}
use canopen_asyncio.Sdo.Client.BlockDownload.{
  BlockDownloadStream, block_write, write_with, send, numbered, recorded, end_block, block_ack,
  acknowledge, await_ack, abort_unless, unpack_ack, frame, on_client, reaches,
}
use canopen_asyncio.Sdo.Client.{SdoClient, send_request, send_loop, transmit, read_response}
use canopen_asyncio.Common.Bytes.{Bytes}
use canopen_asyncio.Common.Monad.{Action, ok}
use canopen_asyncio.Common.Fields.{or_above}
use canopen_asyncio.Common.{
  bit_or, length-take, List, Option, ◌==◌, if◌then◌else◌, ℕ, zero, suc, ◌+◌, ◌-◌, ◌<◌, ◌≤◌, ◌≡◌,
  refl, ap, ◌∙◌, arith, true, false, some, [], ◌∷◌, ◌++◌, length, take, replicate,
}

-- A client on the receiver, with no response left.
abbrev pub on : Receiver → SdoClient Receiver
on r = record { env = r; responses = [] }

-- A frame is sent, and what the receiver answers is in the queue.
pub send_request-receiver :
    (command : ℕ) (content : Bytes) (r : Receiver)
    → let (answers, r') = receive_frame r.phase command content r in
      send_request receiver_bus (command ∷ content) (on r)
      ≡ (ok tt, record { env = r'; responses = answers })
unfolding send_request send_loop transmit receiver_bus
send_request-receiver command content r = refl

-- The ack of a block.
pub await_ack-ack :
    (crc_hqx : Bytes → ℕ → ℕ) (seqno blksize : ℕ) (r : Receiver)
    → await_ack receiver_bus crc_hqx (record { env = r; responses = ack seqno blksize ∷ [] })
      ≡ (ok (seqno, blksize), on r)
unfolding await_ack read_response ack unpack_ack abort_unless
await_ack-ack crc_hqx seqno blksize r = refl

append_nil : (xs : Bytes) → xs ++ [] ≡ xs
append_nil [] = refl
append_nil (x ∷ xs) = ap (λ l. x ∷ l) (append_nil xs)

pub take-all : (n : ℕ) (xs : Bytes) → length xs ≤ n → take n xs ≡ xs
take-all zero [] h = refl
take-all zero (x ∷ xs) h = absurd (omega (arith, h))
take-all (suc n) [] h = refl
take-all (suc n) (x ∷ xs) h = ap (λ l. x ∷ l) (take-all n xs (omega (arith, h)))

full_frame :
    (command : ℕ) (b : Bytes) → command < 256 → length b ≡ 7 → frame command b ≡ ok (command ∷ b)
unfolding frame
full_frame command b small len =
    let e : 7 - length b ≡ 0 = omega (arith, len) in
    ground (arith, small, ap (λ n. b ++ replicate n 0) e ∙ append_nil b)

module _ (crc_hqx : Bytes → ℕ → ℕ) (index subindex bs size : ℕ) where
  -- In the middle of a download: the receiver has the segments of a block up to `q`.
  unfoldable pub halfway : ℕ → Bytes → Receiver
  halfway q got = record {
    index = index;
    subindex = subindex;
    blksize = bs;
    announced = some size;
    phase = Phase.receiving;
    seqno = q;
    received = got;
    checksum = 0;
  }

  unfoldable pub sending : ℕ → Bytes → ℕ → ℕ → List Bytes → BlockDownloadStream Receiver
  unfolding halfway
  sending q got pos crc block = record {
    sdo_client = on (halfway q got);
    size = some size;
    pos = pos;
    done = false;
    seqno = q;
    crc = crc;
    last_bytes_sent = 0;
    current_block = block;
    retransmitting = false;
    blksize = bs;
    crc_supported = true;
  }

  unfoldable pub next_seqno : ℕ → ℕ
  next_seqno q = if q + 1 == bs then 0 else q + 1

  unfoldable pub next_block : ℕ → List Bytes → Bytes → List Bytes
  next_block q block b = if q + 1 == bs then [] else block ++ (b ∷ [])

  sent_segment :
      (write : Bytes → Action (BlockDownloadStream Receiver) (Option ℕ)) (q pos crc : ℕ)
      (got : Bytes) (block : List Bytes) (b : Bytes)
      → q < bs
      → bs < 128
      → length b ≡ 7
      → send receiver_bus crc_hqx write b false (sending q got pos crc block) ≡ (
        ok tt,
        sending (next_seqno q) (got ++ b) (pos + 7) (crc_hqx b crc) (next_block q block b),
      )
  unfolding send sending halfway numbered on_client recorded end_block block_ack acknowledge
      next_seqno next_block receive_frame segment
  sent_segment write q pos crc got block b hq hb len = ground (
    arith,
    full_frame (q + 1) b (omega arith) len,
    send_request-receiver (q + 1) b (halfway q got),
    await_ack-ack crc_hqx (q + 1) bs (halfway 0 (got ++ b)),
  )

  -- All segments are sent; the last one carries `b`.
  unfoldable pub complete : Bytes → Bytes → ℕ → ℕ → BlockDownloadStream Receiver
  unfolding halfway
  complete got b pos crc = record {
    sdo_client =
        on (record (halfway 0 (got ++ (b ++ replicate (7 - length b) 0))) { phase = Phase.ending });
    size = some size;
    pos = pos;
    done = true;
    seqno = 0;
    crc = crc;
    last_bytes_sent = length b;
    current_block = [];
    retransmitting = false;
    blksize = bs;
    crc_supported = true;
  }

  sent_last :
      (write : Bytes → Action (BlockDownloadStream Receiver) (Option ℕ)) (q pos crc : ℕ)
      (got : Bytes) (block : List Bytes) (b : Bytes)
      → q < bs
      → bs < 128
      → length b ≤ 7
      → send receiver_bus crc_hqx write b true (sending q got pos crc block)
        ≡ (ok tt, complete got b (pos + length b) (crc_hqx b crc))
  unfolding send sending complete halfway numbered on_client recorded end_block block_ack
      acknowledge receive_frame segment frame
  sent_last write q pos crc got block b hq hb len =
      let padded = b ++ replicate (7 - length b) 0 in
      let flagged : bit_or (q + 1) 0x80 ≡ q + 1 + 128 = or_above 7 (q + 1) 1 (omega arith) in
      ground (
        arith,
        flagged,
        send_request-receiver (q + 1 + 128) padded (halfway q got),
        await_ack-ack crc_hqx (q + 1) bs
            (record (halfway 0 (got ++ padded)) { phase = Phase.ending }),
      )

  pub write_segment-full :
      (fuel q pos crc : ℕ) (got : Bytes) (block : List Bytes) (rest : Bytes)
      → q < bs
      → bs < 128
      → 7 < length rest
      → pos + length rest ≡ size
      → block_write receiver_bus crc_hqx (suc fuel) rest (sending q got pos crc block) ≡ (
        ok (some 7),
        sending
            (next_seqno q)
            (got ++ take 7 rest)
            (pos + 7)
            (crc_hqx (take 7 rest) crc)
            (next_block q block (take 7 rest)),
      )
  unfolding block_write write_with reaches sending
  write_segment-full fuel q pos crc got block rest hq hb long whole =
      let len : length (take 7 rest) ≡ 7 = omega (arith, length-take 7 rest, long) in
      ground (
        arith,
        len,
        sent_segment (block_write receiver_bus crc_hqx fuel) q pos crc got block (take 7 rest) hq hb
            len,
      )

  pub write_segment-last :
      (fuel q pos crc : ℕ) (got : Bytes) (block : List Bytes) (rest : Bytes)
      → q < bs
      → bs < 128
      → length rest ≤ 7
      → pos + length rest ≡ size
      → block_write receiver_bus crc_hqx (suc fuel) rest (sending q got pos crc block)
        ≡ (ok (some (length rest)), complete got rest size (crc_hqx rest crc))
  unfolding block_write write_with reaches sending
  write_segment-last fuel q pos crc got block rest hq hb short whole =
      let all : take 7 rest ≡ rest = take-all 7 rest short in
      ground (
        arith,
        all,
        sent_last (block_write receiver_bus crc_hqx fuel) q pos crc got block rest hq hb short,
      )
