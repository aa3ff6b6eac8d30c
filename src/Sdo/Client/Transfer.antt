-- ===== src/Sdo/Client/Transfer.antt =====
-- The client against the server of the same repository: the bus hands each request to
-- `SdoServer.on_request` and what it sends back to the client's queue. An exception that
-- `on_request` lets out is logged by the network, and nothing more is sent.
pub mod Answer
pub mod Segments
pub mod Download
pub mod Last
pub mod Expedited
pub mod Close
pub mod Delivery
pub mod Outcome
pub mod Upload
pub mod Collect
pub mod Fetch
pub mod Fetched
use canopen_asyncio.Common.{ℕ, ◌<◌, ◌^◌, [], ◌∷◌}
use canopen_asyncio.Common.Bytes.{Bytes}
use canopen_asyncio.Common.Monad.{Result, Exn, ok, err, sdo_aborted}
use canopen_asyncio.Sdo.Server.{SdoServer, on_request, abort_code}
use canopen_asyncio.Sdo.Client.{Bus}

unfoldable pub server_bus : Bus SdoServer
server_bus request s = let (r, s') = on_request request (record s { sent = [] }) in (ok s'.sent, s')

-- What a client learns of the outcome of a server-side call: the abort code of an exception.
unfoldable pub reported : {A : Type 0} → Result A → Result A
reported (ok a) = ok a
reported (err e) = err (sdo_aborted (abort_code e))

-- An abort code that fits its field.
abbrev pub IsAnswerable : {A : Type 0} → Result A → Type 0
IsAnswerable (ok a) = Unit
IsAnswerable (err e) = abort_code e < 2 ^ 32
