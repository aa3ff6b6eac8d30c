-- ===== src/Sdo/Client.antt =====
-- `SdoClient` (canopen/sdo/client.py): requests, responses and retries. What is beyond the network
-- is a parameter `E` with a bus: sending a frame is refused with an exception, or leads to the frames
-- that arrive before the response time is over. A frame that comes later is handed out by the bus at
-- a later send. Logging and pauses are left out.
pub mod Readable
pub mod Writable
pub mod BlockDownload
pub mod BlockUpload
pub mod Transfer
use canopen_asyncio.Common.{
  ℕ, zero, suc, ◌+◌, Bool, true, false, Option, none, some, List, [], ◌∷◌, ◌++◌, ◌==◌,
  if◌then◌else◌, replicate,
}
use canopen_asyncio.Common.Bytes.{Bytes}
use canopen_asyncio.Common.Monad.{
  Action, Result, Exn, ok, err, raise, pure, gets, modify, lift, ◌>>=◌, ◌>>◌, sdo_aborted,
  sdo_communication, can_error, struct_error, diverged,
}
use canopen_asyncio.Sdo.Constants
use canopen_asyncio.Sdo.Frames.{pack_u32, unpack_u32_at_4}

abbrev pub Bus : Type 0 → Type 0
Bus E = Bytes → E → Result (List Bytes) × E

pub record SdoClient (E : Type 0) : Type 0 where
  pub env : E
  pub responses : List Bytes

-- `SdoClient.MAX_RETRIES`
abbrev pub max_retries : ℕ
max_retries = 1

module _ {E : Type 0} (bus : Bus E) where
  -- `network.send_message`, and `on_response` for what arrives.
  unfoldable pub transmit : Bytes → Action (SdoClient E) (Unit {0})
  transmit request c =
      let (r, env') = bus request c.env in
      elim r [
        | ok arrived ↦ (ok tt, record { env = env'; responses = c.responses ++ arrived })
        | err e ↦ (err e, record c { env = env' })
      ]

  -- The loop of `send_request` on `retries_left`; with 0 to begin with it would not end on errors.
  unfoldable pub send_loop : ℕ → Bytes → Action (SdoClient E) (Unit {0})
  send_loop zero request c = (err diverged, c)
  send_loop (suc left) request c =
      let (r, c') = transmit request c in
      let again = send_loop left request c' in
      elim r [
        | err can_error ↦ if left == 0 then (err can_error, c') else again
        | err e ↦ (err e, c')
        | ok _ ↦ (ok tt, c')
      ]

  unfoldable pub send_request : Bytes → Action (SdoClient E) (Unit {0})
  send_request = send_loop max_retries

  -- An abort by the server is raised; so is a queue that stays empty.
  unfoldable pub read_response : Action (SdoClient E) Bytes
  read_response c = elim c.responses [
    | [] ↦ (err sdo_communication, c)
    | [] ∷ rest ↦ (err struct_error, record c { responses = rest })
    | (res_command ∷ more) ∷ rest ↦
        let c' : SdoClient E = record c { responses = rest } in
        if res_command == Constants.response_aborted
        then elim (unpack_u32_at_4 (res_command ∷ more)) [
          | ok code ↦ (err (sdo_aborted code), c')
          | err e ↦ (err e, c')
        ]
        else (ok (res_command ∷ more), c')
  ]

  -- `SdoClient.abort`
  unfoldable pub client_abort : ℕ → Action (SdoClient E) (Unit {0})
  client_abort code = do
    field ← lift (pack_u32 code)
    send_request (Constants.request_aborted ∷ 0 ∷ 0 ∷ 0 ∷ field)

  -- The loop of `request_response` on `retries_left`.
  unfoldable pub response_loop : ℕ → Bytes → Action (SdoClient E) Bytes
  response_loop zero request c = (err diverged, c)
  response_loop (suc left) request c =
      let (sent, c') = send_request request c in
      elim sent [
        | err e ↦ (err e, c')
        | ok _ ↦
            let (r, c'') = read_response c' in
            let again = response_loop left request c'' in
            elim r [
              | err sdo_communication ↦
                  if left == 0
                  then (client_abort Constants.abort_timed_out >> raise sdo_communication) c''
                  else again
              | err e ↦ (err e, c'')
              | ok response ↦ (ok response, c'')
            ]
      ]

  -- `request_response` drops what is in the queue first.
  unfoldable pub request_response : Bytes → Action (SdoClient E) Bytes
  request_response request c = response_loop max_retries request (record c { responses = [] })
