-- ===== src/Sdo/Client/Transfer/Fetch.antt =====
-- The first exchange of an upload, and what `SdoClient.upload` comes to.
use canopen_asyncio.Sdo.Client.Transfer.Segments.{index_fields, abort_lem, abort_frame}
use canopen_asyncio.Sdo.Client.Transfer.Upload.{sending}
use canopen_asyncio.Sdo.Server.{
  on_request, abort_code, dispatch, init_upload, node_get_data, upload_response, set_target,
  send_response, SdoServer,
}
use canopen_asyncio.Sdo.Frames.{pack_u32, pack_header, unpack_header}
use canopen_asyncio.Common.Bytes.{le_bytes, Bytes}
use canopen_asyncio.Common.Monad.{err, ok, sdo_aborted, Result, Exn}
use canopen_asyncio.Node.Local.{get_data}
use canopen_asyncio.Common.{
  arith, ◌++◌, ◌∷◌, [], List, some, false, true, refl, ◌≡◌, bit_or, ◌<◌, ◌^◌, ◌%◌, ◌/◌, ◌*◌, ◌-◌,
  replicate, length, all_below_sound, all_below, ltb→lt, ltb, ℕ,
}

abbrev pub upload_request : ℕ → ℕ → Bytes
upload_request index subindex = 0x40 ∷ (index % 256) ∷ (index / 256) ∷ subindex ∷ replicate 4 0

-- What the client is to get for what the node's `get_data` gives.
abbrev pub fetched : Result Bytes → Result Bytes
fetched (ok []) = err (sdo_aborted 0x08000024)
fetched (ok (b ∷ bs)) = ok (b ∷ bs)
fetched (err e) = err (sdo_aborted (abort_code e))

abbrev pub aimed : SdoServer → ℕ → ℕ → List Bytes → SdoServer
aimed s index subindex sent = record s { index = some index; subindex = some subindex; sent = sent }

module _ (s : SdoServer) (index subindex : ℕ) (hi : index < 65536) (hs : subindex < 256) where
  pub on_request-refused :
      (x : Exn)
      → abort_code x < 2 ^ 32
      → get_data (s.node) index subindex true ≡ err x
      → on_request (upload_request index subindex) (record s { sent = [] })
        ≡ (ok tt, aimed s index subindex (abort_frame index subindex (abort_code x) ∷ []))
  unfolding on_request dispatch init_upload unpack_header set_target node_get_data
  on_request-refused x hc e = ground (
    arith,
    index_fields index,
    abort_lem (aimed s index subindex []) index subindex (abort_code x) refl refl hi hs hc,
  )

  pub on_request-empty :
      get_data (s.node) index subindex true ≡ ok []
      → on_request (upload_request index subindex) (record s { sent = [] })
        ≡ (ok tt, aimed s index subindex (abort_frame index subindex 0x08000024 ∷ []))
  unfolding on_request dispatch init_upload unpack_header set_target node_get_data upload_response
  on_request-empty e = ground (
    arith,
    index_fields index,
    abort_lem (aimed s index subindex []) index subindex 0x08000024 refl refl hi hs (omega arith),
  )

  abbrev pub expedited_frame : Bytes → Bytes
  expedited_frame b =
      bit_or 0x43 ((4 - length b) * 4)
      ∷ (index % 256)
      ∷ (index / 256)
      ∷ subindex
      ∷ (b ++ replicate (4 - length b) 0)

  pub response_lt : (n : ℕ) → n < 5 → bit_or 0x43 ((4 - n) * 4) < 0x80
  response_lt n h =
      ltb→lt _ _ (all_below_sound 5 (λ n. ltb (bit_or 0x43 ((4 - n) * 4)) 0x80) n table h)
    where
      table : all_below 5 (λ n. ltb (bit_or 0x43 ((4 - n) * 4)) 0x80) ≡ true
      table = unfold all_below in refl

  upload_response-small :
      (b : Bytes) (t : SdoServer)
      → 0 < length b
      → length b < 5
      → upload_response index subindex b t
        ≡ (ok tt, record t { sent = t.sent ++ (expedited_frame b ∷ []) })
  unfolding upload_response pack_header send_response
  upload_response-small b t p h = ground (arith, response_lt (length b) h)

  pub on_request-small :
      (b : Bytes)
      → 0 < length b
      → length b < 5
      → get_data (s.node) index subindex true ≡ ok b
      → on_request (upload_request index subindex) (record s { sent = [] })
        ≡ (ok tt, aimed s index subindex (expedited_frame b ∷ []))
  unfolding on_request dispatch init_upload unpack_header set_target node_get_data
  on_request-small b p h e =
      ground (arith, index_fields index, upload_response-small b (aimed s index subindex []) p h)

  abbrev pub size_frame : Bytes → Bytes
  size_frame b = 0x41 ∷ (index % 256) ∷ (index / 256) ∷ subindex ∷ le_bytes 4 (length b)

  pub on_request-large :
      (b : Bytes)
      → 4 < length b
      → length b < 2 ^ 32
      → get_data (s.node) index subindex true ≡ ok b
      → on_request (upload_request index subindex) (record s { sent = [] }) ≡ (
        ok tt,
        sending (s.node) (s.last_received_error) index subindex b false (size_frame b ∷ []),
      )
  unfolding on_request dispatch init_upload unpack_header set_target node_get_data upload_response
      pack_header pack_u32 send_response
  on_request-large b p h e = ground (arith, index_fields index)
