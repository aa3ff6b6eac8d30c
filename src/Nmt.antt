-- ===== src/Nmt.antt =====
-- The NMT services (canopen/nmt.py): state by command, heartbeats. The network below is the list of
-- frames that were sent and the periodic task that is running; what comes of sending a frame is a
-- parameter. Waiting on a condition with a timeout
-- and node guarding are left out.
use canopen_asyncio.Sdo.Client.BlockDownload.{send, frame}
use canopen_asyncio.Lss.{byte}
pub mod Heartbeat
pub mod Master
use canopen_asyncio.Common.{
  ℕ, ◌+◌, ◌*◌, ◌||◌, ◌&&◌, Option, none, some, List, [], ◌∷◌, ◌++◌, ltb, ◌==◌, if◌then◌else◌,
  bit_and,
}
use canopen_asyncio.Common.Bytes.{Bytes}
use canopen_asyncio.Common.Monad.{
  Exn, Action, Result, ok, err, gets, modify, ◌>>=◌, ◌>>◌, struct_error, key_error, value_error,
}

-- A CAN frame that `Network.send_message` was given.
pub record Frame : Type 0 where
  pub can_id : ℕ
  pub payload : Bytes

-- A running `PeriodicMessageTask`: the period is in milliseconds.
pub record PeriodicTask : Type 0 where
  pub can_id : ℕ
  pub payload : Bytes
  pub period_ms : ℕ

-- `COMMAND_TO_STATE`
unfoldable pub command_to_state : ℕ → Option ℕ
command_to_state code =
    if code == 1
    then some 5
    else if code == 2
    then some 4
    else if code == 80
    then some 80
    else if code == 96
    then some 96
    else if code == 128
    then some 127
    else if code == 129
    then some 0
    else if code == 130
    then some 0
    else none

-- The keys of `NMT_STATES`, which are also the names that `state` reads.
pub data StateName : Type 0 where
  initialising stopped operational sleep standby pre_operational : StateName

unfoldable pub nmt_states : ℕ → Option StateName
nmt_states s =
    if s == 0
    then some initialising
    else if s == 4
    then some stopped
    else if s == 5
    then some operational
    else if s == 80
    then some sleep
    else if s == 96
    then some standby
    else if s == 127
    then some pre_operational
    else none

-- `NMT_STATES[s]`, which raises KeyError.
unfoldable pub state_name : ℕ → Result StateName
state_name s = elim (nmt_states s) [ some n ↦ ok n | none ↦ err key_error ]

-- The keys of `NMT_COMMANDS`, and any other text.
pub data CommandName : Type 0 where
  to_operational to_stopped to_sleep to_standby to_pre_operational : CommandName
  to_initialising to_reset to_reset_communication : CommandName
  other : CommandName

unfoldable pub nmt_commands : CommandName → Option ℕ
nmt_commands to_operational = some 1
nmt_commands to_stopped = some 2
nmt_commands to_sleep = some 80
nmt_commands to_standby = some 96
nmt_commands to_pre_operational = some 128
nmt_commands to_initialising = some 129
nmt_commands to_reset = some 129
nmt_commands to_reset_communication = some 130
nmt_commands other = none

-- `NmtBase`, with what the network saw.
pub record NmtBase : Type 0 where
  pub id : ℕ
  pub state : ℕ
  pub sent : List Frame

-- `NmtBase.on_command`. The names of both states are looked up for the log, if they differ.
unfoldable pub on_command : Bytes → Action NmtBase (Unit {0})
on_command (cmd ∷ node_id ∷ rest) b =
    if node_id == b.id || node_id == 0
    then elim (command_to_state cmd) [
      | none ↦ (ok tt, b)
      | some new_state ↦ if new_state == b.state then (ok tt, b) else elim (state_name b.state) [
        | ok old ↦ (ok tt, record b { state = new_state })
        | err e ↦ (err e, b)
      ]
    ]
    else (ok tt, b)
on_command _ b = (err struct_error, b)

-- `NmtBase.send_command`
unfoldable pub base_send_command : ℕ → Action NmtBase (Unit {0})
base_send_command code b = elim (command_to_state code) [
  | none ↦ (ok tt, b)
  | some new_state ↦ elim (state_name b.state) [
    | ok old ↦ (ok tt, record b { state = new_state })
    | err e ↦ (err e, b)
  ]
]

-- What comes of sending a frame: it is sent; there is no bus, or the bus raises; or it is sent and
-- `check` raises an exception of before.
pub data Sending : Type 0 where
  passed : Sending
  refused reported : Exn → Sending

unfoldable pub sending_result : Sending → Result (Unit {0})
sending_result passed = ok tt
sending_result (refused e) = err e
sending_result (reported e) = err e

-- The frames that are on the bus then.
unfoldable pub frames_sent : Sending → Frame → List Frame
frames_sent passed frame = frame ∷ []
frames_sent (refused e) frame = []
frames_sent (reported e) frame = frame ∷ []

-- `Network.send_message`
unfoldable pub send_message : Sending → ℕ → Bytes → Action NmtBase (Unit {0})
unfolding sending_result frames_sent
send_message sending can_id payload b =
    let frame : Frame = record { can_id = can_id; payload = payload } in
    (sending_result sending, record b { sent = b.sent ++ frames_sent sending frame })

-- `NmtMaster`: `state_received` and the time of the last heartbeat.
pub record NmtMaster : Type 0 where
  pub base : NmtBase
  pub state_received : Option ℕ
  pub timestamp : Option ℕ
  -- The states that the registered callbacks were called with.
  pub notified : List ℕ

-- An action of the base class on a subclass object.
abbrev pub on_base : Action NmtBase (Unit {0}) → Action NmtMaster (Unit {0})
on_base act m = let (r, b) = act m.base in (r, record m { base = b })

unfoldable pub on_heartbeat : Bytes → ℕ → Action NmtMaster (Unit {0})
on_heartbeat [] now m = (err struct_error, m)
on_heartbeat (byte ∷ rest) now m =
    let new_state = bit_and byte 0x7F in
    (
      ok tt,
      record m {
        base = record (m.base) { state = if new_state == 0 then 127 else new_state };
        state_received = some new_state;
        timestamp = some now;
        notified = m.notified ++ (new_state ∷ []);
      },
    )

unfoldable pub master_send_command : Sending → ℕ → Action NmtMaster (Unit {0})
master_send_command sending code = do
  on_base (base_send_command code)
  id ← gets (λ m. m.base.id)
  on_base (send_message sending 0 (code ∷ id ∷ []))

-- The setter of `NmtBase.state`, on the `send_command` of the subclass.
unfoldable pub set_state :
    {S : Type 0} → (ℕ → Action S (Unit {0})) → CommandName → Action S (Unit {0})
set_state send name s = elim (nmt_commands name) [
  | some code ↦ send code s
  | none ↦ (err value_error, s)
]

-- `NmtSlave`. What reading object 0x1017 of the local node's own SDO server gives is a parameter.
pub record NmtSlave : Type 0 where
  pub base : NmtBase
  pub send_task : Option PeriodicTask
  pub heartbeat_time_ms : ℕ

unfoldable pub stop_heartbeat : NmtSlave → NmtSlave
stop_heartbeat n = record n { send_task = none }

unfoldable pub start_heartbeat : ℕ → NmtSlave → NmtSlave
start_heartbeat ms n =
    let n' = stop_heartbeat (record n { heartbeat_time_ms = ms }) in
    if ltb 0 ms
    then record n' {
      send_task =
          some (record { can_id = 0x700 + n.base.id; payload = n.base.state ∷ []; period_ms = ms });
    }
    else n'

unfoldable pub update_heartbeat : NmtSlave → NmtSlave
update_heartbeat n = elim n.send_task [
  | none ↦ n
  | some t ↦ record n { send_task = some (record t { payload = n.base.state ∷ [] }) }
]

abbrev pub on_slave_base : Action NmtBase (Unit {0}) → Action NmtSlave (Unit {0})
on_slave_base act n = let (r, b) = act n.base in (r, record n { base = b })

unfoldable pub slave_on_command : Bytes → Action NmtSlave (Unit {0})
slave_on_command bs = do on_slave_base (on_command bs); modify update_heartbeat

-- The end of `NmtSlave.send_command`, outside async mode; `read_1017` is `sdo[0x1017].raw`. A
-- KeyError is passed over, any other exception is not.
unfoldable pub heartbeat_transition : Result ℕ → ℕ → Action NmtSlave (Unit {0})
heartbeat_transition read_1017 old_state n =
    if old_state == 0 && n.base.state == 127
    then elim read_1017 [
      | ok ms ↦ (ok tt, start_heartbeat ms n)
      | err key_error ↦ (ok tt, n)
      | err e ↦ (err e, n)
    ]
    else (ok tt, update_heartbeat n)

unfoldable pub boot_up : Sending → Action NmtSlave (Unit {0})
boot_up sending n =
    if n.base.state == 0
    then on_slave_base (send_message sending (0x700 + n.base.id) (0 ∷ [])) n
    else (ok tt, n)

unfoldable pub slave_send_command : Sending → Result ℕ → ℕ → Action NmtSlave (Unit {0})
slave_send_command sending read_1017 code = do
  old_state ← gets (λ n. n.base.state)
  on_slave_base (base_send_command code)
  boot_up sending
  heartbeat_transition read_1017 old_state

-- `NmtSlave.on_write`, the write callback of the local node.
unfoldable pub on_write : ℕ → Bytes → Action NmtSlave (Unit {0})
on_write index (lo ∷ hi ∷ rest) n =
    let heartbeat_time = lo + 256 * hi in
    if index == 0x1017
    then (ok tt, if heartbeat_time == 0 then stop_heartbeat n else start_heartbeat heartbeat_time n)
    else (ok tt, n)
on_write index _ n = if index == 0x1017 then (err struct_error, n) else (ok tt, n)
