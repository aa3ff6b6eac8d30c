-- ===== src/Sdo/Client/Transfer/Answer.antt =====
-- One request and its answer.
use canopen_asyncio.Common.{ℕ, List, [], ◌∷◌, ◌++◌, ◌≡◌, ◌≢◌, arith}
use canopen_asyncio.Common.Bytes.{Bytes}
use canopen_asyncio.Common.Monad.{Result, ok, err, sdo_aborted}
use canopen_asyncio.Sdo.Frames.{unpack_u32_at_4}
use canopen_asyncio.Sdo.Server.{SdoServer, on_request}
use canopen_asyncio.Sdo.Client.{
  Bus, SdoClient, transmit, send_loop, send_request, read_response, response_loop, request_response,
}
use canopen_asyncio.Sdo.Client.Transfer.{server_bus}

module _ {E : Type 0} (bus : Bus E) (c : SdoClient E) (request : Bytes) where
  transmit-ok :
      (arrived : List Bytes) (env' : E)
      → bus request c.env ≡ (ok arrived, env')
      → transmit bus request c ≡ (ok tt, record { env = env'; responses = c.responses ++ arrived })
  unfolding transmit
  transmit-ok arrived env' e = ground arith

  send_request-ok :
      (arrived : List Bytes) (env' : E)
      → bus request c.env ≡ (ok arrived, env')
      → send_request bus request c
        ≡ (ok tt, record { env = env'; responses = c.responses ++ arrived })
  unfolding send_request send_loop
  send_request-ok arrived env' e = ground (arith, transmit-ok arrived env' e)

module _ {E : Type 0} (bus : Bus E) (c : SdoClient E) (request : Bytes) where
  -- A client asks, and the server sends one frame that is no abort.
  pub request_response-frame :
      (env' : E) (b : ℕ) (bs : Bytes)
      → bus request c.env ≡ (ok ((b ∷ bs) ∷ []), env')
      → b ≢ 0x80
      → request_response bus request c ≡ (ok (b ∷ bs), record { env = env'; responses = [] })
  unfolding request_response response_loop read_response
  request_response-frame env' b bs e ne =
      ground
        (arith, send_request-ok bus (record c { responses = [] }) request ((b ∷ bs) ∷ []) env' e)

  pub request_response-abort :
      (env' : E) (bs : Bytes) (code : ℕ)
      → bus request c.env ≡ (ok ((0x80 ∷ bs) ∷ []), env')
      → unpack_u32_at_4 (0x80 ∷ bs) ≡ ok code
      → request_response bus request c
        ≡ (err (sdo_aborted code), record { env = env'; responses = [] })
  unfolding request_response response_loop read_response
  request_response-abort env' bs code e u =
      ground
        (arith, send_request-ok bus (record c { responses = [] }) request ((0x80 ∷ bs) ∷ []) env' e)

-- What the server does is what the bus does.
pub server_bus_lem :
    (request : Bytes) (s s' : SdoServer) (r : Result (Unit {0}))
    → on_request request (record s { sent = [] }) ≡ (r, s')
    → server_bus request s ≡ (ok s'.sent, s')
unfolding server_bus
server_bus_lem request s s' r e = ground arith
