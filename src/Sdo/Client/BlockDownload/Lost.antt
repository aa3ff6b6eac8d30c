-- ===== src/Sdo/Client/BlockDownload/Lost.antt =====
-- Segments of the last block that are lost (canopen/sdo/client.py).
use canopen_asyncio.Sdo.Client.BlockDownload.{
  BlockDownloadStream, block_write, write_with, block_ack, acknowledge, retransmit, rewrite,
  await_ack, on_client, rewound,
}
use canopen_asyncio.Sdo.Client.{Bus, SdoClient}
use canopen_asyncio.Common.Bytes.{Bytes}
use canopen_asyncio.Common.Monad.{ok, err, runtime_error}
use canopen_asyncio.Common.{
  ℕ, suc, ◌<◌, ◌≡◌, arith, List, [], ◌∷◌, true, false, ◌==◌, length, drop, length-drop,
}

module _ {E : Type 0} (bus : Bus E) (crc_hqx : Bytes → ℕ → ℕ) where
  block_write-done :
      (fuel : ℕ) (b : Bytes) (s : BlockDownloadStream E)
      → s.done ≡ true
      → block_write bus crc_hqx (suc fuel) b s ≡ (err runtime_error, s)
  unfolding block_write write_with
  block_write-done fuel b s h = rw h

  rewrite-done :
      (fuel : ℕ) (block : List Bytes) (s : BlockDownloadStream E)
      → s.done ≡ true
      → 0 < length block
      → (rewrite bus crc_hqx (block_write bus crc_hqx (suc fuel)) block s) ≡ (err runtime_error, s)
  unfolding rewrite
  rewrite-done fuel [] s h some_left = absurd (omega (arith, some_left))
  rewrite-done fuel (b ∷ block) s h some_left = ground (arith, block_write-done fuel b s h)

  -- Once the last segment of a download has been sent, a server that acknowledges fewer segments of the
  -- block than were sent makes the stream raise RuntimeError, whatever the fuel: nothing is sent again.
  pub block_ack-done :
      (fuel ackseq blksize : ℕ) (s : BlockDownloadStream E) (c : SdoClient E)
      → s.done ≡ true
      → await_ack bus crc_hqx s.sdo_client ≡ (ok (ackseq, blksize), c)
      → ackseq == s.blksize ≡ false
      → ackseq < length s.current_block
      → let (r, s') = block_ack bus crc_hqx (block_write bus crc_hqx (suc fuel)) s in
        (r ≡ err runtime_error) × (s'.sdo_client ≡ c)
  unfolding block_ack acknowledge retransmit on_client
  block_ack-done fuel ackseq blksize s c h answered differ lost =
      let left : 0 < length (drop ackseq s.current_block) =
        omega (arith, length-drop ackseq s.current_block, lost) in
      let s1 : BlockDownloadStream E = record s {
        sdo_client = c;
        pos = rewound s.pos (drop ackseq s.current_block);
        current_block = [];
        seqno = 0;
        blksize = blksize;
        retransmitting = true;
      } in
      let e = rewrite-done fuel (drop ackseq s.current_block) s1 h left in
      (ground (arith, answered, differ, e), ground (arith, answered, differ, e))
