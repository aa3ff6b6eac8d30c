-- ===== src/Nmt/Heartbeat.antt =====
-- The heartbeat of a local node (canopen/nmt.py): the periodic task carries the current state.
use canopen_asyncio.Sdo.Client.BlockDownload.Delivery.{sending, on}
use canopen_asyncio.Common.Bytes.{Bytes}
use mathlib.Core.Path.{subst}
use canopen_asyncio.Common.Monad.{Result, err, ok, Exn, Result-cases}
use canopen_asyncio.Nmt.{
  refused, passed, Sending, StateName, sending_result, state_name, command_to_state,
  slave_send_command, boot_up, heartbeat_transition, send_message, on_write, slave_on_command,
  update_heartbeat, start_heartbeat, stop_heartbeat, base_send_command, on_command, NmtSlave,
  NmtBase, PeriodicTask,
}
use canopen_asyncio.Common.{
  sym, All, ◌∙◌, ◌==◌, some, none, ◌*◌, Bool-cases, ltb→lt, ltb, ℕ, ◌+◌, ◌<◌, List, [], ◌∷◌, ◌≡◌,
  refl, arith, ◌⊎◌, inl, inr,
}

-- The task that announces the state of a node every `heartbeat_time_ms`.
unfoldable pub announcement : NmtSlave → PeriodicTask
announcement n = record {
  can_id = 0x700 + n.base.id;
  payload = n.base.state ∷ [];
  period_ms = n.heartbeat_time_ms;
}

-- No task is running, or that one, with a period.
unfoldable pub IsBeating : NmtSlave → Type 0
IsBeating n =
    (n.send_task ≡ none) ⊎ ((n.send_task ≡ some (announcement n)) × (0 < n.heartbeat_time_ms))

start_heartbeat-IsBeating : (ms : ℕ) (n : NmtSlave) → IsBeating (start_heartbeat ms n)
unfolding start_heartbeat stop_heartbeat IsBeating announcement
start_heartbeat-IsBeating ms n = elim (Bool-cases (ltb 0 ms)) [
  | inl on ↦ inr (ground arith, ground (arith, ltb→lt 0 ms))
  | inr off ↦ inl (ground arith)
]

stop_heartbeat-IsBeating : (n : NmtSlave) → IsBeating (stop_heartbeat n)
unfolding stop_heartbeat IsBeating
stop_heartbeat-IsBeating n = inl refl

-- Whatever the state has become, the update makes the task fit.
update_heartbeat-IsBeating :
    (n : NmtSlave) (b : NmtBase)
    → IsBeating n
    → b.id ≡ n.base.id
    → IsBeating (update_heartbeat (record n { base = b }))
unfolding update_heartbeat IsBeating announcement
update_heartbeat-IsBeating n b (inl idle) same_id = inl (ground arith)
update_heartbeat-IsBeating n b (inr (running, period)) same_id = inr (ground arith, ground arith)

on_command-id : (bs : Bytes) (b : NmtBase) → ((on_command bs b).1).id ≡ b.id
unfolding on_command
on_command-id [] b = refl
on_command-id (cmd ∷ []) b = refl
on_command-id (cmd ∷ node_id ∷ rest) b = ground arith

base_send_command-id : (cmd : ℕ) (b : NmtBase) → ((base_send_command cmd b).1).id ≡ b.id
unfolding base_send_command
base_send_command-id cmd b = ground arith

on_command-err :
    (bs : Bytes) (b : NmtBase) (x : Exn)
    → (on_command bs b).0 ≡ err x
    → on_command bs b ≡ (err x, b)
unfolding on_command
on_command-err [] b x e = ground arith
on_command-err (cmd ∷ []) b x e = ground arith
on_command-err (cmd ∷ node_id ∷ rest) b x e = ground arith

base_send_command-err :
    (cmd : ℕ) (b : NmtBase) (x : Exn)
    → (base_send_command cmd b).0 ≡ err x
    → base_send_command cmd b ≡ (err x, b)
unfolding base_send_command
base_send_command-err cmd b x e = ground arith

-- A command of the master, which either is obeyed or fails without effect.
slave_on_command-IsBeating :
    (bs : Bytes) (n : NmtSlave) → IsBeating n → IsBeating ((slave_on_command bs n).1)
unfolding slave_on_command
slave_on_command-IsBeating bs n h = elim (Result-cases ((on_command bs n.base).0)) [
  | inl (u, e) ↦
      ground
        (arith, update_heartbeat-IsBeating n ((on_command bs n.base).1) h (on_command-id bs n.base))
  | inr (x, e) ↦ ground (arith, on_command-err bs n.base x e, h)
]

on_write-IsBeating :
    (index : ℕ) (bs : Bytes) (n : NmtSlave) → IsBeating n → IsBeating ((on_write index bs n).1)
unfolding on_write
on_write-IsBeating index [] n h = ground (arith, h)
on_write-IsBeating index (lo ∷ []) n h = ground (arith, h)
on_write-IsBeating index (lo ∷ hi ∷ rest) n h =
    ground (arith, h, start_heartbeat-IsBeating (lo + 256 * hi) n, stop_heartbeat-IsBeating n)

-- The boot-up message changes nothing but what was sent.
boot_up-base :
    (n : NmtSlave)
    → (b : NmtBase) × (boot_up passed n ≡ (ok tt, record n { base = b })) × (b.id ≡ n.base.id)
unfolding boot_up send_message sending_result
boot_up-base n = elim (Bool-cases (n.base.state == 0)) [
  | inl booted ↦ (((send_message passed (0x700 + n.base.id) (0 ∷ []) n.base).1), ground arith, refl)
  | inr not_booted ↦ (n.base, ground arith, refl)
]

heartbeat_transition-IsBeating :
    (ms old : ℕ) (n : NmtSlave) (b : NmtBase)
    → IsBeating n
    → b.id ≡ n.base.id
    → IsBeating ((heartbeat_transition (ok ms) old (record n { base = b })).1)
unfolding heartbeat_transition
heartbeat_transition-IsBeating ms old n b h same_id = ground (
  arith,
  start_heartbeat-IsBeating ms (record n { base = b }),
  update_heartbeat-IsBeating n b h same_id,
)

slave_send_command-IsBeating :
    (ms cmd : ℕ) (n : NmtSlave)
    → IsBeating n
    → IsBeating ((slave_send_command passed (ok ms) cmd n).1)
unfolding slave_send_command
slave_send_command-IsBeating ms cmd n h = elim (Result-cases ((base_send_command cmd n.base).0)) [
  | inr (x, e) ↦ ground (arith, base_send_command-err cmd n.base x e, h)
  | inl (u, e) ↦
      let b1 = (base_send_command cmd n.base).1 in
      let (b2, booted, same_id) = boot_up-base (record n { base = b1 }) in
      ground (
        arith,
        booted,
        heartbeat_transition-IsBeating ms n.base.state n b2 h
            (same_id ∙ base_send_command-id cmd n.base),
      )
]

-- What happens to a local node: a command of the master, its own `send_command`, where object 0x1017
-- reads as the number given, and a write to its object dictionary.
pub data Event : Type 0 where
  commanded : Bytes → Event
  sends : Sending → ℕ → ℕ → Event
  written : ℕ → Bytes → Event

-- The node after these; an exception goes to the caller.
unfoldable pub after : List Event → NmtSlave → NmtSlave
after [] n = n
after (commanded bs ∷ rest) n = after rest ((slave_on_command bs n).1)
after (sends sending ms cmd ∷ rest) n = after rest ((slave_send_command sending (ok ms) cmd n).1)
after (written index bs ∷ rest) n = after rest ((on_write index bs n).1)

-- The network takes the boot-up message, if one is sent.
unfoldable pub IsDelivered : Event → Type 0
IsDelivered (commanded bs) = Unit {0}
IsDelivered (sends sending ms cmd) = sending ≡ passed
IsDelivered (written index bs) = Unit {0}

-- Whatever commands, state changes of the node itself and object writes happen, in any order, with
-- malformed ones and those that raise KeyError or struct.error included, as long as the network takes
-- every boot-up message without an exception and object 0x1017 is readable: a heartbeat task that is
-- running announces the current state, on the node's own ID, with the set period.
pub after-IsBeating :
    (es : List Event) (n : NmtSlave) → All IsDelivered es → IsBeating n → IsBeating (after es n)
unfolding after IsDelivered
after-IsBeating [] n all h = h
after-IsBeating (commanded bs ∷ rest) n (u, all) h =
    after-IsBeating rest ((slave_on_command bs n).1) all (slave_on_command-IsBeating bs n h)
after-IsBeating (sends sending ms cmd ∷ rest) n (taken, all) h =
    after-IsBeating rest ((slave_send_command sending (ok ms) cmd n).1) all (
      subst (λ s. IsBeating ((slave_send_command s (ok ms) cmd n).1)) (sym taken)
        (slave_send_command-IsBeating ms cmd n h))
after-IsBeating (written index bs ∷ rest) n (u, all) h =
    after-IsBeating rest ((on_write index bs n).1) all (on_write-IsBeating index bs n h)

-- A node has a heartbeat task that announces its state, which is one of NMT_STATES, and is told to reset
-- by its own `send_command`. If the network refuses the boot-up message, its exception goes to the caller,
-- and the node is in state 0, while the task goes on announcing the state from before.
pub slave_send_command-refused :
    (e : Exn) (read_1017 : Result ℕ) (old : StateName) (n : NmtSlave)
    → state_name n.base.state ≡ ok old
    → n.send_task ≡ some (announcement n)
    → let (r, n') = slave_send_command (refused e) read_1017 129 n in
      (r ≡ err e) × (n'.base.state ≡ 0) × (n'.send_task ≡ some (announcement n))
unfolding slave_send_command base_send_command boot_up command_to_state send_message sending_result
slave_send_command-refused e read_1017 old n name running =
    (ground (arith, name), ground (arith, name), ground (arith, name, running))
