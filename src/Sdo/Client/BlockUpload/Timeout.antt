-- ===== src/Sdo/Client/BlockUpload/Timeout.antt =====
-- A timeout in the middle of a block upload (canopen/sdo/client.py).
use canopen_asyncio.Sdo.Client.BlockUpload.{
  BlockUploadStream, next_segment, retransmit_upload, resync, ack_block, on_upload_client,
  fail_unless,
}
use canopen_asyncio.Sdo.Client.Readable.{first_byte}
use canopen_asyncio.Sdo.Client.{Bus, SdoClient, read_response, client_abort}
use canopen_asyncio.Sdo.Constants
use canopen_asyncio.Common.Bytes.{Bytes}
use canopen_asyncio.Common.Monad.{Result-cases, ok, err, sdo_communication}
use canopen_asyncio.Common.{ℕ, zero, suc, ◌+◌, ◌≡◌, arith, inl, inr, Bool-cases, ◌==◌, bit_and}

module _ {E : Type 0} (bus : Bus E) (crc_hqx : Bytes → ℕ → ℕ) where
  -- What `_retransmit` returns has the sequence number that it leaves behind.
  resync-seqno :
      (fuel : ℕ) (s s' : BlockUploadStream E) (response : Bytes)
      → resync bus crc_hqx fuel s ≡ (ok response, s')
      → (res_command : ℕ) × (first_byte response ≡ ok res_command)
        × (bit_and res_command 0x7F ≡ s'.ackseq)
  unfolding resync on_upload_client fail_unless
  resync-seqno zero s s' response h =
      elim (Result-cases ((client_abort bus Constants.abort_timed_out s.sdo_client).0)) [
        | inl (done, e) ↦ absurd (ground (arith, h, e))
        | inr (x, e) ↦ absurd (ground (arith, h, e))
      ]
  resync-seqno (suc fuel) s s' response h =
      let s1 : BlockUploadStream E = record s { sdo_client = (read_response bus s.sdo_client).1 } in
      elim (Result-cases ((read_response bus s.sdo_client).0)) [
        | inr (x, e) ↦ absurd (ground (arith, h, e))
        | inl (got, e) ↦ elim (Result-cases (first_byte got)) [
          | inr (x, e1) ↦ absurd (ground (arith, h, e, e1))
          | inl (res_command, e1) ↦ elim (Bool-cases (bit_and res_command 0x7F == s.ackseq + 1)) [
            | inl next ↦
                (res_command, ground (arith, h, e, e1, next), ground (arith, h, e, e1, next))
            | inr other ↦ resync-seqno fuel s1 s' response (ground (arith, h, e, e1, other))
          ]
        ]
      ]

  retransmit_upload-seqno :
      (fuel : ℕ) (s s' : BlockUploadStream E) (response : Bytes)
      → retransmit_upload bus crc_hqx fuel s ≡ (ok response, s')
      → (res_command : ℕ) × (first_byte response ≡ ok res_command)
        × (bit_and res_command 0x7F ≡ s'.ackseq)
  unfolding retransmit_upload
  retransmit_upload-seqno fuel s s' response h = elim (Result-cases ((ack_block bus crc_hqx s).0)) [
    | inr (x, e) ↦ absurd (ground (arith, h, e))
    | inl (done, e) ↦
        resync-seqno fuel ((ack_block bus crc_hqx s).1) s' response (ground (arith, h, e))
  ]

  -- No response comes in time, and a retransmission gets one: the read then does not take it, but asks
  -- for another retransmission, since the number of the response has been counted already.
  pub next_segment-timeout :
      (fuel : ℕ) (s s' : BlockUploadStream E) (c : SdoClient E) (response : Bytes)
      → read_response bus s.sdo_client ≡ (err sdo_communication, c)
      → retransmit_upload bus crc_hqx fuel (record s { sdo_client = c }) ≡ (ok response, s')
      → next_segment bus crc_hqx fuel s ≡ retransmit_upload bus crc_hqx fuel s'
  unfolding next_segment on_upload_client
  next_segment-timeout fuel s s' c response late again =
      let (res_command, e, counted) =
        retransmit_upload-seqno fuel (record s { sdo_client = c }) s' response again in
      ground (arith, late, again, e, counted)
