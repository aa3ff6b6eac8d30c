-- ===== src/Nmt/Master.antt =====
-- Commands by the master and on the node (canopen/nmt.py).
use canopen_asyncio.Common.Bytes.{Bytes}
use canopen_asyncio.Common.Monad.{err, ok, key_error}
use canopen_asyncio.Nmt.{
  Sending, frames_sent, sending_result, StateName, master_send_command, on_heartbeat, send_message,
  base_send_command, on_command, state_name, nmt_states, command_to_state, NmtMaster, NmtBase,
}
use canopen_asyncio.Common.{
  ◌++◌, Bool, inr, inl, ◌≢◌, bit_and, Option-cases, Bool-cases, if◌then◌else◌, ℕ, ◌≡◌, refl, arith,
  [], ◌∷◌, ◌||◌, ◌==◌, true, false, some, none,
}

-- `s in NMT_STATES`
unfoldable pub is_named : ℕ → Bool
is_named s = elim (nmt_states s) [ some n ↦ true | none ↦ false ]

command_to_state-named : (cmd s : ℕ) → command_to_state cmd ≡ some s → is_named s ≡ true
unfolding command_to_state is_named nmt_states
command_to_state-named cmd s e = ground arith

state_name-named : (s : ℕ) → is_named s ≡ true → (n : StateName) × (state_name s ≡ ok n)
unfolding is_named state_name
state_name-named s h = elim (Option-cases (nmt_states s)) [
  | inl e ↦ absurd (ground arith)
  | inr (n, e) ↦ (n, ground arith)
]

-- The state that a node is in after a command.
unfoldable pub obeyed : ℕ → ℕ → NmtBase → ℕ
obeyed cmd node_id b =
    if node_id == b.id || node_id == 0
    then elim (command_to_state cmd) [ some t ↦ t | none ↦ b.state ]
    else b.state

obeyed-named :
    (cmd node_id : ℕ) (b : NmtBase)
    → is_named b.state ≡ true
    → is_named (obeyed cmd node_id b) ≡ true
unfolding obeyed
obeyed-named cmd node_id b h = elim (Option-cases (command_to_state cmd)) [
  | inl e ↦ ground arith
  | inr (t, e) ↦ ground (arith, command_to_state-named cmd t e)
]

-- A command that reaches a node with a state of NMT_STATES never raises. The node gets the state of
-- the command if it is addressed by its own ID or by 0 and the command is known; otherwise its
-- state is as it was; and the state is again one of NMT_STATES.
pub on_command-state :
    (cmd node_id : ℕ) (rest : Bytes) (b : NmtBase)
    → is_named b.state ≡ true
    → (on_command (cmd ∷ node_id ∷ rest) b ≡ (ok tt, record b { state = obeyed cmd node_id b }))
      × (is_named (obeyed cmd node_id b) ≡ true)
unfolding on_command obeyed
on_command-state cmd node_id rest b h =
    let (old, named) = state_name-named b.state h in
    (ground (arith, named), obeyed-named cmd node_id b h)

-- After a heartbeat with a state that is not in NMT_STATES, every known command of the master raises
-- KeyError before anything is sent to the node.
pub master_send_command-unnamed :
    (sending : Sending) (byte now cmd s : ℕ) (rest : Bytes) (m : NmtMaster)
    → command_to_state cmd ≡ some s
    → bit_and byte 0x7F ≢ 0
    → is_named (bit_and byte 0x7F) ≡ false
    → let m' = (on_heartbeat (byte ∷ rest) now m).1 in
      (master_send_command sending cmd m' ≡ (err key_error, m')) × (m'.base.sent ≡ m.base.sent)
unfolding on_heartbeat master_send_command base_send_command state_name is_named
master_send_command-unnamed sending byte now cmd s rest m known heard unnamed = (ground arith, refl)

is_named-127 : is_named 127 ≡ true
unfolding is_named nmt_states
is_named-127 = refl

heard_state :
    (byte : ℕ)
    → is_named (bit_and byte 0x7F) ≡ true
    → is_named (if bit_and byte 0x7F == 0 then 127 else bit_and byte 0x7F) ≡ true
heard_state byte named = elim (Bool-cases (bit_and byte 0x7F == 0)) [
  | inl boot ↦ rw (boot) is_named-127
  | inr heard ↦ rw (heard) named
]

-- After a heartbeat with a state of NMT_STATES, every known command of the master is sent to the
-- node, as two bytes with CAN ID 0, and the master takes the node to be in the state of the command, even
-- if the network refuses the frame. The call returns if the network takes the frame, and raises what
-- the network raises.
pub master_send_command-named :
    (sending : Sending) (byte now cmd s : ℕ) (rest : Bytes) (m : NmtMaster)
    → command_to_state cmd ≡ some s
    → is_named (bit_and byte 0x7F) ≡ true
    → let m' = (on_heartbeat (byte ∷ rest) now m).1 in
      let (r, n) = master_send_command sending cmd m' in
      (r ≡ sending_result sending)
      × (n.base.state ≡ s)
      × (n.base.sent
          ≡ m.base.sent
            ++ frames_sent sending (record { can_id = 0; payload = cmd ∷ m.base.id ∷ [] }))
unfolding on_heartbeat master_send_command base_send_command send_message
master_send_command-named sending byte now cmd s rest m known named =
    let (n, e) = state_name-named _ (heard_state byte named) in
    (ground (arith, e), ground (arith, e), ground (arith, e))
