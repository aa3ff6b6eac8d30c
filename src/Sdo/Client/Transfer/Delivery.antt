-- ===== src/Sdo/Client/Transfer/Delivery.antt =====
-- `SdoClient.download` against the server, from end to end.
use canopen_asyncio.Sdo.Client.Transfer.Expedited.{
  expedited_command_lt, ask_expedited_err, ask_expedited_ok, answered, expedited_command,
}
use canopen_asyncio.Sdo.Client.Transfer.Close.{
  drain-keeps, drain-fails, close-done, drop-all, drain-nil, close_buffered-err, close_buffered-ok,
  Ends,
}
use canopen_asyncio.Sdo.Client.Transfer.Segments.{
  abort_frame, on_request-announcement, announcement, receiving,
}
use canopen_asyncio.Sdo.Client.Transfer.Answer.{server_bus_lem, request_response-frame}
use canopen_asyncio.Sdo.Client.Transfer.Download.{drain-write, drain-IsDrained, writing, IsDrained}
use canopen_asyncio.Sdo.Client.Transfer.{server_bus}
use canopen_asyncio.Sdo.Client.Readable.{first_byte}
use canopen_asyncio.Sdo.Client.Writable.{
  close_buffered, close, write, write_expedited, check_response, open_expedited, with_close,
  write_all, drain, open_segmented, expect, announce, WritableStream,
}
use canopen_asyncio.Sdo.Server.{abort_code, SdoServer}
use canopen_asyncio.Sdo.Frames.{pack_u32, pack_header}
use canopen_asyncio.Sdo.Client.{request_response, SdoClient}
use canopen_asyncio.Common.Bytes.{Bytes}
use canopen_asyncio.Common.Monad.{err, ok, sdo_aborted, Exn}
use canopen_asyncio.Node.Local.{set_data, LocalNode}
use canopen_asyncio.Common.{
  Bool, refl, arith, ◌∷◌, [], List, some, false, true, ◌≡◌, ◌<◌, ◌^◌, ◌%◌, ◌/◌, suc, replicate,
  length, ℕ,
}

module _ (c : SdoClient SdoServer) (index subindex total : ℕ) where
  abbrev pub opened : SdoServer
  opened =
      receiving (c.env.node) (c.env.last_received_error) index subindex [] false
        ((0x60 ∷ (index % 256) ∷ (index / 256) ∷ subindex ∷ replicate 4 0) ∷ [])

  ask_announcement :
      index < 65536
      → subindex < 256
      → request_response server_bus (announcement index subindex total) c ≡ (
        ok (0x60 ∷ (index % 256) ∷ (index / 256) ∷ subindex ∷ replicate 4 0),
        record { env = opened; responses = [] },
      )
  ask_announcement hi hs =
      request_response-frame server_bus c _ opened 0x60 _
        (server_bus_lem (announcement index subindex total) (c.env) opened (ok tt)
          (on_request-announcement (record (c.env) { sent = [] }) index subindex total hi hs))
        (omega arith)

  pub open_segmented_lem :
      index < 65536
      → subindex < 256
      → total < 2 ^ 32
      → open_segmented server_bus index subindex (some total) c
        ≡ (ok (writing opened total 0 false false), record { env = opened; responses = [] })
  unfolding open_segmented announce pack_u32 pack_header first_byte expect
  open_segmented_lem hi hs ht = ground (arith, ask_announcement hi hs)

-- Handing all of a content to a stream that has just been opened.
module _ (node node' : LocalNode) (last_error index subindex fuel : ℕ) (content : Bytes)
    (sent : List Bytes) where
  abbrev pub fresh : WritableStream SdoServer
  fresh =
      writing (receiving node last_error index subindex [] false sent) (length content) 0 false
        false

  drained :
      length content < suc fuel
      → IsDrained node last_error index subindex
          (length content)
          content
          (drain server_bus (suc fuel) 7 content fresh)
  drained h =
      drain-IsDrained node last_error index subindex (length content) (suc fuel) [] content false
        sent 0 (omega arith) (omega arith)

  pub write_all-ok :
      length content < suc fuel
      → set_data index subindex content true node ≡ (ok tt, node')
      → Ends (ok tt) node' (write_all server_bus (suc fuel) content fresh)
  unfolding write_all
  write_all-ok h e =
      let d = drained h in
      ground (
        arith,
        d.result_eq,
        close_buffered-ok node node' last_error index subindex (d.got) (d.phase) (d.sent)
            (length content) (d.pos) fuel (d.kept) (d.short) (d.pos_eq) (rw (d.whole_eq) e),
      )

  pub write_all-err :
      (x : Exn)
      → index < 65536
      → subindex < 256
      → abort_code x < 2 ^ 32
      → length content < suc fuel
      → set_data index subindex content true node ≡ (err x, node')
      → Ends
          (err (sdo_aborted (abort_code x)))
          node'
          (write_all server_bus (suc fuel) content fresh)
  unfolding write_all
  write_all-err x hi hs hc h e =
      let d = drained h in
      ground (
        arith,
        d.result_eq,
        close_buffered-err node node' last_error index subindex (d.got) (d.phase) (d.sent)
            (length content) (d.pos) fuel x (d.kept) hi hs hc (d.short) (d.pos_eq)
            (rw (d.whole_eq) e),
      )

-- The expedited way, from a stream that has its header.
module _ (c : SdoClient SdoServer) (node' : LocalNode) (index subindex fuel : ℕ) (b : Bytes)
    (p : 0 < length b) (h : length b < 5) (hi : index < 65536) (hs : subindex < 256) where
  abbrev pub header : Bytes
  header = expedited_command (length b) ∷ (index % 256) ∷ (index / 256) ∷ subindex ∷ []

  abbrev pub waiting : SdoClient SdoServer → ℕ → Bool → WritableStream SdoServer
  waiting c' reached done = record {
    sdo_client = c';
    size = some (length b);
    pos = reached;
    toggle = 0;
    exp_header = some header;
    done = done;
  }

  pub open_expedited_lem :
      open_expedited server_bus index subindex (length b) c ≡ (ok (waiting c 0 false), c)
  unfolding open_expedited pack_header
  open_expedited_lem =
      let small : expedited_command (length b) < 256 = expedited_command_lt (length b) h in
      ground arith

  write-expedited_ok :
      set_data index subindex b true (c.env.node) ≡ (ok tt, node')
      → write server_bus b (waiting c 0 false) ≡ (
        ok (length b),
        waiting
            (answered c node' index subindex b p h hi hs
              ((0x60 ∷ (index % 256) ∷ (index / 256) ∷ subindex ∷ replicate 4 0) ∷ []))
            (length b)
            true,
      )
  unfolding write write_expedited check_response expect first_byte
  write-expedited_ok e = ground (arith, ask_expedited_ok c node' index subindex b p h hi hs e)

  write-expedited_err :
      (x : Exn)
      → abort_code x < 2 ^ 32
      → set_data index subindex b true (c.env.node) ≡ (err x, node')
      → write server_bus b (waiting c 0 false) ≡ (
        err (sdo_aborted (abort_code x)),
        waiting
            (answered c node' index subindex b p h hi hs
              (abort_frame index subindex (abort_code x) ∷ []))
            0
            false,
      )
  unfolding write write_expedited
  write-expedited_err x hc e =
      ground (arith, ask_expedited_err c node' index subindex b p h hi hs x hc e)

  pub write_all-expedited_ok :
      set_data index subindex b true (c.env.node) ≡ (ok tt, node')
      → Ends (ok tt) node' (write_all server_bus (suc fuel) b (waiting c 0 false))
  unfolding write_all close_buffered with_close
  write_all-expedited_ok e = ground (
    arith,
    drain-keeps (suc fuel) 7 b (waiting c 0 false),
    drain-write fuel 0 (length b) b (waiting c 0 false) _ p (write-expedited_ok e),
    drop-all b,
    drain-nil fuel 0 (
        waiting
          (answered c node' index subindex b p h hi hs
            ((0x60 ∷ (index % 256) ∷ (index / 256) ∷ subindex ∷ replicate 4 0) ∷ []))
          (length b) true),
    close-done
        (waiting
          (answered c node' index subindex b p h hi hs
            ((0x60 ∷ (index % 256) ∷ (index / 256) ∷ subindex ∷ replicate 4 0) ∷ []))
          (length b) true)
        refl,
  )

  pub write_all-expedited_err :
      (x : Exn)
      → abort_code x < 2 ^ 32
      → set_data index subindex b true (c.env.node) ≡ (err x, node')
      → Ends
          (err (sdo_aborted (abort_code x)))
          node'
          (write_all server_bus (suc fuel) b (waiting c 0 false))
  unfolding write_all close_buffered with_close close
  write_all-expedited_err x hc e = ground (
    arith,
    drain-keeps (suc fuel) 7 b (waiting c 0 false),
    drain-fails fuel 0 b _ (waiting c 0 false) _ p (write-expedited_err x hc e),
  )
