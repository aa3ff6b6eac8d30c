-- ===== src/Sdo/Client/Transfer/Last.antt =====
-- The last segment of `SdoClient.download` against the server, and the close of the stream.
use canopen_asyncio.Sdo.Client.Transfer.Segments.{
  unpack-abort_frame, on_request-last_err, on_request-last_ok, abort_frame, segment_answer,
  receiving, toggle_of,
}
use canopen_asyncio.Sdo.Client.Transfer.Answer.{
  server_bus_lem, request_response-abort, request_response-frame,
}
use canopen_asyncio.Sdo.Client.Transfer.Download.{writing}
use canopen_asyncio.Sdo.Client.Transfer.{server_bus}
use canopen_asyncio.Sdo.Client.Readable.{first_byte}
use canopen_asyncio.Sdo.Client.Writable.{
  write, write_segment, check_response, expect, download_command, is_last,
}
use canopen_asyncio.Sdo.Server.{abort_code, SdoServer}
use canopen_asyncio.Sdo.Client.{request_response, SdoClient}
use canopen_asyncio.Common.Bytes.{Bytes}
use canopen_asyncio.Common.Monad.{err, ok, sdo_aborted, Exn}
use canopen_asyncio.Node.Local.{set_data, LocalNode}
use canopen_asyncio.Common.{
  arith, ◌++◌, ◌∷◌, [], List, not, false, true, Bool, ◌≢◌, refl, ◌≡◌, bit_xor, bit_or, bit_and, ◌<◌,
  ◌^◌, ◌-◌, take-all, replicate, length, ℕ, ◌+◌,
}

pub last_command_ne : (phase : Bool) → bit_or 0x20 (toggle_of phase) ≢ 0x80
last_command_ne false = omega arith
last_command_ne true = omega arith

pub answer_specifier : (phase : Bool) → bit_and (bit_or 0x20 (toggle_of phase)) 0xE0 ≡ 0x20
answer_specifier false = refl
answer_specifier true = refl

pub flip : (phase : Bool) → bit_xor (toggle_of phase) 0x10 ≡ toggle_of (not phase)
flip false = refl
flip true = refl

module _ (node node' : LocalNode) (last_error index subindex : ℕ) (got b : Bytes) (phase : Bool)
    (sent : List Bytes) where
  abbrev pub last_frame : Bytes
  last_frame =
      download_command (toggle_of phase) (length b) true ∷ (b ++ replicate (7 - length b) 0)

  abbrev pub before : SdoClient SdoServer
  before = record { env = receiving node last_error index subindex got phase sent; responses = [] }

  abbrev pub after : Bool → List Bytes → SdoClient SdoServer
  after p out = record {
    env = receiving node' last_error index subindex (got ++ b) p out;
    responses = [];
  }

  pub ask_last_ok :
      length b < 8
      → set_data index subindex (got ++ b) true node ≡ (ok tt, node')
      → request_response server_bus last_frame before
        ≡ (ok (segment_answer phase), after (not phase) (segment_answer phase ∷ []))
  ask_last_ok h e =
      request_response-frame server_bus before last_frame _ (bit_or 0x20 (toggle_of phase))
        (replicate 7 0)
        (server_bus_lem last_frame (before.env) _ (ok tt)
          (on_request-last_ok node node' last_error index subindex got b phase h e))
        (last_command_ne phase)

  module _ (x : Exn) (hi : index < 65536) (hs : subindex < 256) (hc : abort_code x < 2 ^ 32) where
    pub ask_last_err :
        length b < 8
        → set_data index subindex (got ++ b) true node ≡ (err x, node')
        → request_response server_bus last_frame before ≡ (
          err (sdo_aborted (abort_code x)),
          after phase (abort_frame index subindex (abort_code x) ∷ []),
        )
    ask_last_err h e =
        request_response-abort server_bus before last_frame _ _ (abort_code x)
          (server_bus_lem last_frame (before.env) _ (ok tt)
            (on_request-last_err node node' last_error index subindex got b phase x h hi hs hc e))
          (unpack-abort_frame index subindex (abort_code x) hc)

  module _ (total pos : ℕ) (reached : pos + length b ≡ total) where
    pub write-last_ok :
        length b < 8
        → set_data index subindex (got ++ b) true node ≡ (ok tt, node')
        → write server_bus b (writing (before.env) total pos phase false) ≡ (
          ok (length b),
          writing
              ((after (not phase) (segment_answer phase ∷ [])).env)
              total
              (pos + length b)
              (not phase)
              true,
        )
    unfolding write write_segment is_last check_response expect first_byte
    write-last_ok h e =
        ground (arith, ask_last_ok h e, take-all (length b) b, flip phase, answer_specifier phase)

    pub write-last_err :
        (x : Exn)
        → index < 65536
        → subindex < 256
        → abort_code x < 2 ^ 32
        → length b < 8
        → set_data index subindex (got ++ b) true node ≡ (err x, node')
        → write server_bus b (writing (before.env) total pos phase false) ≡ (
          err (sdo_aborted (abort_code x)),
          writing
              ((after phase (abort_frame index subindex (abort_code x) ∷ [])).env)
              total
              pos
              (not phase)
              true,
        )
    unfolding write write_segment is_last
    write-last_err x hi hs hc h e =
        ground (arith, ask_last_err x hi hs hc h e, take-all (length b) b, flip phase)
