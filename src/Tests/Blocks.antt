-- ===== src/Tests/Blocks.antt =====
-- Block transfers.
use canopen_asyncio.Sdo.Client.BlockDownload.Lost.{block_ack-done}
use canopen_asyncio.Sdo.Client.BlockDownload.Whole.{block_download-receiver, idle}
use canopen_asyncio.Sdo.Client.BlockDownload.Delivery.{on, await_ack-ack}
use canopen_asyncio.Sdo.Client.BlockDownload.Receiver.{Receiver, Phase, receiver_bus, ack}
use canopen_asyncio.Sdo.Client.BlockDownload.{
  BlockDownloadStream, block_download, block_ack, block_write,
}
use canopen_asyncio.Sdo.Client.{SdoClient, Bus, send_request, send_loop, transmit, read_response}
use canopen_asyncio.Sdo.Client.Readable.{first_byte}
use canopen_asyncio.Sdo.Client.BlockUpload.Timeout.{next_segment-timeout}
use canopen_asyncio.Sdo.Client.BlockUpload.{
  BlockUploadStream, next_segment, retransmit_upload, ack_block, resync, on_upload_client,
}
use canopen_asyncio.Common.Bytes.{Bytes}
use canopen_asyncio.Common.Monad.{ok, err, runtime_error}
use canopen_asyncio.Common.{
  none, ℕ, ◌+◌, ◌%◌, ◌<◌, ◌≡◌, arith, refl, some, true, false, [], ◌∷◌, ◌++◌,
}

abbrev total : Bytes → ℕ
total [] = 0
total (b ∷ bs) = b + total bs

-- A checksum that goes on from a value.
abbrev checksum : Bytes → ℕ → ℕ
checksum bs v = (v + total bs) % 65536

total-append : (xs ys : Bytes) → total (xs ++ ys) ≡ total xs + total ys
total-append [] ys = omega arith
total-append (x ∷ xs) ys = omega (arith, total-append xs ys)

checksum-append : (xs ys : Bytes) (v : ℕ) → checksum (xs ++ ys) v ≡ checksum ys (checksum xs v)
checksum-append xs ys v = omega (arith, total-append xs ys)

checksum-lt : (xs : Bytes) (v : ℕ) → checksum xs v < 65536
checksum-lt xs v = omega arith

abbrev ten_bytes : Bytes
ten_bytes = 1 ∷ 2 ∷ 3 ∷ 4 ∷ 5 ∷ 6 ∷ 7 ∷ 8 ∷ 9 ∷ 10 ∷ []

block_download-receiver_example :
    (r : Receiver) × (block_download receiver_bus checksum 10 1 0x2000 0 ten_bytes true
        (record { env = idle 0x2000 0 1; responses = [] })
      ≡ (ok tt, on r))
    × (r.received ≡ ten_bytes)
    × (r.announced ≡ some 10)
    × (r.checksum ≡ 55)
    × (r.phase ≡ Phase.ended)
block_download-receiver_example =
    block_download-receiver checksum checksum-append checksum-lt 10 0 0x2000 0 1 ten_bytes true []
      (omega arith) (omega arith) (omega arith) (omega arith) (omega arith) (omega arith)
      (omega arith)

-- Two segments of the last block were sent, and one is acknowledged.
abbrev acknowledged : SdoClient Receiver
acknowledged = record { env = idle 0x2000 0 127; responses = ack 1 127 ∷ [] }

abbrev lossy : BlockDownloadStream Receiver
lossy = record {
  sdo_client = acknowledged;
  size = some 10;
  pos = 10;
  done = true;
  seqno = 2;
  crc = 55;
  last_bytes_sent = 3;
  current_block = (1 ∷ 2 ∷ 3 ∷ 4 ∷ 5 ∷ 6 ∷ 7 ∷ []) ∷ (8 ∷ 9 ∷ 10 ∷ []) ∷ [];
  retransmitting = false;
  blksize = 2;
  crc_supported = true;
}

block_ack-done_example :
    let (r, s') = block_ack receiver_bus checksum (block_write receiver_bus checksum 1) lossy in
    (r ≡ err runtime_error) × (s'.sdo_client ≡ on (idle 0x2000 0 127))
block_ack-done_example =
    block_ack-done receiver_bus checksum 0 1 127 lossy (on (idle 0x2000 0 127)) refl
      (await_ack-ack checksum 1 127 (idle 0x2000 0 127)) refl (omega arith)

-- A server that sends segment 1 whatever it is asked.
abbrev segment_one : Bytes
segment_one = 1 ∷ 9 ∷ 9 ∷ 9 ∷ 9 ∷ 9 ∷ 9 ∷ 9 ∷ []

abbrev repeating : Bus (Unit {0})
repeating = λ request e. (ok (segment_one ∷ []), e)

abbrev uploading : BlockUploadStream (Unit {0})
uploading = record {
  sdo_client = record { env = tt; responses = [] };
  size = none;
  pos = 0;
  done = false;
  crc = 0;
  server_crc = none;
  ackseq = 0;
  failed = false;
  crc_supported = true;
}

retransmitted :
    retransmit_upload repeating checksum 2 uploading
    ≡ (ok segment_one, record uploading { ackseq = 1 })
unfolding retransmit_upload ack_block resync on_upload_client first_byte send_request send_loop
    transmit read_response
retransmitted = refl

next_segment-timeout_example :
    next_segment repeating checksum 2 uploading
    ≡ retransmit_upload repeating checksum 2 (record uploading { ackseq = 1 })
unfolding read_response
next_segment-timeout_example =
    next_segment-timeout repeating checksum 2 uploading (record uploading { ackseq = 1 })
      (record { env = tt; responses = [] }) segment_one refl retransmitted
