-- ===== src/Tests/Services.antt =====
-- Heartbeats, commands, messages and emergencies.
use canopen_asyncio.Sync.Runs.{
  stops, starts, transmits, SyncCall, time_payload-from_le, called-IsSingle, IsSingle, called,
}
use canopen_asyncio.Sync.{time_payload, SyncProducer}
use canopen_asyncio.Common.Bytes.{from_le, le_bytes, Bytes}
use canopen_asyncio.Common.Monad.{err, ok, value_error, key_error, Action}
use canopen_asyncio.Nmt.Heartbeat.{
  slave_send_command-refused, announcement, IsDelivered, written, sends, commanded, after-IsBeating,
  after, IsBeating,
}
use canopen_asyncio.Nmt.Master.{
  master_send_command-named, master_send_command-unnamed, on_command-state, obeyed, is_named,
}
use canopen_asyncio.Emcy.Log.{
  on_emcy-emcy_send, on_emcys-IsTracked, IsTracked, on_emcys, since_reset,
}
use canopen_asyncio.Network.Scanner.{scanned-IsFound, IsFound, scanned}
use canopen_asyncio.Network.Subscribers.{
  unsubscribed, subscribed, changed-IsSound, IsSound, changed, IsTable, IsOnce, count,
}
use canopen_asyncio.Network.Dispatch.{
  notify-filtered, notify-unsubscribed, IsSteady, after_calls, keep_error,
}
use canopen_asyncio.Tests.Fixtures.{slave, base}
use canopen_asyncio.Emcy.{emcy_send, pack_emcy, on_emcy, is_error_reset, EmcyConsumer}
use canopen_asyncio.Network.{notify, list_of, unsubscribe, scan_message, Network}
use canopen_asyncio.Nmt.{
  refused, pre_operational, slave_send_command, state_name, NmtSlave, passed, frames_sent,
  sending_result, master_send_command, on_heartbeat, on_command, nmt_states, command_to_state,
  NmtMaster,
}
use canopen_asyncio.Common.{
  List, ◌*◌, ◌∷◌, [], some, none, ◌+◌, if◌then◌else◌, ◌==◌, ℕ, ◌≡◌, refl, arith, true, inl,
}

after-IsBeating_example :
    IsBeating (
      after
        (sends passed 0 129 ∷ written 0x1017 (232 ∷ 3 ∷ []) ∷ commanded (1 ∷ 5 ∷ []) ∷ [])
        slave)
unfolding IsBeating IsDelivered
after-IsBeating_example =
    after-IsBeating
      (sends passed 0 129 ∷ written 0x1017 (232 ∷ 3 ∷ []) ∷ commanded (1 ∷ 5 ∷ []) ∷ []) slave
      (refl, (tt, (tt, tt))) (inl refl)

-- A reset of a node that beats, without a bus.
slave_send_command-refused_example :
    let n : NmtSlave = record {
      base = record { id = 5; state = 127; sent = [] };
      send_task = some (record { can_id = 0x705; payload = 127 ∷ []; period_ms = 1000 });
      heartbeat_time_ms = 1000;
    } in
    let (r, n') = slave_send_command (refused value_error) (ok 1000) 129 n in
    (r ≡ err value_error)
    × (n'.base.state ≡ 0)
    × (n'.send_task ≡ some (record { can_id = 0x705; payload = 127 ∷ []; period_ms = 1000 }))
unfolding announcement state_name nmt_states
slave_send_command-refused_example =
    slave_send_command-refused value_error (ok 1000) pre_operational
      (record {
        base = record { id = 5; state = 127; sent = [] };
        send_task = some (record { can_id = 0x705; payload = 127 ∷ []; period_ms = 1000 });
        heartbeat_time_ms = 1000;
      })
      refl refl

on_command-state_example :
    (on_command (2 ∷ 5 ∷ []) base ≡ (ok tt, record base { state = obeyed 2 5 base }))
    × (is_named (obeyed 2 5 base) ≡ true)
unfolding is_named nmt_states
on_command-state_example = on_command-state 2 5 [] base refl

abbrev master : NmtMaster
master = record { base = base; state_received = none; timestamp = none; notified = [] }

master_send_command-unnamed_example :
    let m' = (on_heartbeat (7 ∷ []) 100 master).1 in
    (master_send_command passed 1 m' ≡ (err key_error, m')) × (m'.base.sent ≡ [])
unfolding command_to_state is_named nmt_states
master_send_command-unnamed_example =
    master_send_command-unnamed passed 7 100 1 5 [] master refl (λ e. absurd (omega arith)) refl

master_send_command-named_example :
    let m' = (on_heartbeat (127 ∷ []) 100 master).1 in
    let (r, n) = master_send_command passed 1 m' in
    (r ≡ ok tt)
    × (n.base.state ≡ 5)
    × (n.base.sent ≡ record { can_id = 0; payload = 1 ∷ 5 ∷ [] } ∷ [])
unfolding command_to_state is_named nmt_states sending_result frames_sent
master_send_command-named_example = master_send_command-named passed 127 100 1 5 [] master refl refl

-- Callback 1 counts, callback 2 counts and raises, callback 4 takes itself off the list.
abbrev call : ℕ → ℕ → Bytes → ℕ → Action (Network ℕ) (Unit {0})
call c can_id payload timestamp n =
    (if c == 2 then err value_error else ok tt, record n { world = n.world + 1 })

abbrev leaving : ℕ → ℕ → Bytes → ℕ → Action (Network ℕ) (Unit {0})
leaving c can_id payload timestamp n =
    if c == 4 then unsubscribe can_id (some 4) n else call c can_id payload timestamp n

abbrev network : Network ℕ
network = record {
  subscribers = (0x585, 9) ∷ [];
  lists = (9, 1 ∷ 2 ∷ 3 ∷ []) ∷ [];
  next_list = 10;
  exceptions = [];
  filter_errors = true;
  nodes = [];
  world = 0;
}

call-IsSteady : IsSteady (λ c. call c 0x585 [] 0)
unfolding IsSteady
call-IsSteady c n = (refl, refl)

notify-filtered_example : notify call 4 0x585 [] 0 network ≡ (
  ok tt,
  record network { world = 3; exceptions = value_error ∷ []; nodes = scan_message 0x585 [] },
)
unfolding list_of after_calls keep_error
notify-filtered_example =
    notify-filtered call 4 0x585 0 [] network 9 call-IsSteady refl refl (omega arith)

notify-unsubscribed_example :
    notify leaving 2 0x585 [] 0 (record network { lists = (9, 4 ∷ 1 ∷ []) ∷ [] })
    ≡ (ok tt, record network { lists = (9, 1 ∷ []) ∷ []; nodes = scan_message 0x585 [] })
unfolding list_of
notify-unsubscribed_example =
    notify-unsubscribed leaving 0 0x585 0 [] (record network { lists = (9, 4 ∷ 1 ∷ []) ∷ [] }) 9 4 1
      refl refl refl

changed-IsSound_example : IsSound (
    changed
      (subscribed 0x585 4
        ∷ subscribed 0x585 4
        ∷ unsubscribed 0x585 (some 4)
        ∷ unsubscribed 0x585 none
        ∷ [])
      (record network { subscribers = []; lists = [] }))
unfolding IsSound IsTable
changed-IsSound_example =
    changed-IsSound
      (subscribed 0x585 4
        ∷ subscribed 0x585 4
        ∷ unsubscribed 0x585 (some 4)
        ∷ unsubscribed 0x585 none
        ∷ [])
      (record network { subscribers = []; lists = [] }) tt

nothing-IsFound : IsFound []
unfolding IsFound IsOnce count
nothing-IsFound = (tt, λ x. omega arith)

scanned-IsFound_example : IsFound (scanned (0x705 ∷ 0x585 ∷ 0x700 ∷ []) [])
scanned-IsFound_example = scanned-IsFound (0x705 ∷ 0x585 ∷ 0x700 ∷ []) [] nothing-IsFound

abbrev consumer : EmcyConsumer
consumer = record { log = []; active = [] }

on_emcys-IsTracked_example :
    IsTracked (on_emcys (((0 ∷ 16 ∷ 1 ∷ 0 ∷ 0 ∷ 0 ∷ 0 ∷ 0 ∷ []), 3) ∷ ([], 4) ∷ []) consumer)
unfolding IsTracked since_reset
on_emcys-IsTracked_example =
    on_emcys-IsTracked (((0 ∷ 16 ∷ 1 ∷ 0 ∷ 0 ∷ 0 ∷ 0 ∷ 0 ∷ []), 3) ∷ ([], 4) ∷ []) consumer refl

on_emcy-emcy_send_example : on_emcy (0x10 ∷ 0x81 ∷ 17 ∷ 9 ∷ 0 ∷ 0 ∷ 0 ∷ 0 ∷ []) 6 consumer ≡ (
  ok tt,
  record {
    log =
        record { code = 0x8110; register = 17; data_field = 9 ∷ 0 ∷ 0 ∷ 0 ∷ 0 ∷ []; timestamp = 6 }
        ∷ [];
    active =
        record { code = 0x8110; register = 17; data_field = 9 ∷ 0 ∷ 0 ∷ 0 ∷ 0 ∷ []; timestamp = 6 }
        ∷ [];
  },
)
unfolding is_error_reset emcy_send pack_emcy
on_emcy-emcy_send_example =
    on_emcy-emcy_send 0x8110 17 6 (9 ∷ []) (0x10 ∷ 0x81 ∷ 17 ∷ 9 ∷ 0 ∷ 0 ∷ 0 ∷ 0 ∷ []) consumer
      (omega arith) refl

abbrev producer : SyncProducer
producer = record { period = none; own_task = none; running = []; sent = [] }

abbrev calls : List SyncCall
calls = starts (some 100) ∷ starts (some 50) ∷ transmits (some 3) ∷ stops ∷ starts none ∷ []

called-IsSingle_example : IsSingle (called calls producer)
unfolding IsSingle
called-IsSingle_example = called-IsSingle calls producer refl

-- The second day of 1984, one minute after midnight.
time_payload-from_le_example :
    1000 * (441763200 + 86400 * from_le (1 ∷ 0 ∷ [])) + from_le (96 ∷ 234 ∷ 0 ∷ 0 ∷ [])
    ≡ 1000 * 441849660
unfolding time_payload le_bytes
time_payload-from_le_example =
    time_payload-from_le 441849660 0 (96 ∷ 234 ∷ 0 ∷ 0 ∷ 1 ∷ 0 ∷ []) (λ e. absurd (omega arith))
      refl
