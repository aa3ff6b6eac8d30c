-- ===== src/P402.antt =====
-- The DS402 state machine of a drive (canopen/profiles/p402.py): statusword, controlword, and the
-- walk through the states. What the PDOs and the SDO client of the node do is an interface, `Access`.
-- The setup, homing and operation modes are left out.
mod States
pub mod Masks
pub mod Drive
pub mod Walk
unfoldable pub use States.*
use canopen_asyncio.Common.{
  ℕ, zero, suc, ◌+◌, Bool, true, false, ◌||◌, Option, none, some, List, [], ◌∷◌, ltb, ◌==◌,
  if◌then◌else◌, bit_and,
}
use canopen_asyncio.Common.Dict.{Dict, lookup, insert}
use canopen_asyncio.Common.Monad.{
  key_error, raise, Action, Result, ok, err, ◌>>=◌, ◌>>◌, value_error, runtime_error, diverged,
}

-- What the node's SDO client and PDOs do, on what is beyond them.
pub record Access (E : Type 0) : Type 0 where
  pub sdo_read : ℕ → Action E ℕ
  pub sdo_write : ℕ → ℕ → Action E (Unit {0})
  -- `wait_for_reception` of the TPDO with the statusword: None on timeout, else its values.
  pub wait_for_reception : Action E (Option (Dict ℕ))
  -- The write to the mapped controlword, and the transmission of its PDO.
  pub rpdo_write : ℕ → Action E (Unit {0})
  pub rpdo_transmit : Action E (Unit {0})
  pub now : E → ℕ

-- `BaseNode402`: a pointer is kept as `pdo_parent.is_periodic`.
pub record BaseNode402 (E : Type 0) : Type 0 where
  pub env : E
  pub tpdo_values : Dict ℕ
  pub tpdo_pointers : Dict Bool
  pub rpdo_pointers : Dict Bool

-- `on_TPDOs_update_callback`
unfoldable pub store_values : Dict ℕ → Dict ℕ → Dict ℕ
store_values [] values = values
store_values ((index, raw) ∷ rest) values = store_values rest (insert index raw values)

module _ {E : Type 0} (access : Access E) where
  -- An action of the node's SDO client or PDOs.
  abbrev pub on_env : {A : Type 0} → Action E A → Action (BaseNode402 E) A
  on_env act n = let (r, env') = act n.env in (r, record n { env = env' })

  unfoldable pub statusword : Action (BaseNode402 E) ℕ
  statusword n = elim (lookup 0x6041 n.tpdo_values) [
    | some word ↦ (ok word, n)
    | none ↦ on_env (access.sdo_read 0x6041) n
  ]

  unfoldable pub wait_for_statusword : Action (BaseNode402 E) (Unit {0})
  wait_for_statusword n =
      let (r, env') = access.wait_for_reception n.env in
      elim r [
        | err e ↦ (err e, record n { env = env' })
        | ok none ↦ (err runtime_error, record n { env = env' })
        | ok (some values) ↦
            (ok tt, record n { env = env'; tpdo_values = store_values values n.tpdo_values })
      ]

  unfoldable pub check_statusword : Action (BaseNode402 E) ℕ
  check_statusword n = elim (lookup 0x6041 n.tpdo_pointers) [
    | none ↦ statusword n
    | some false ↦ on_env (access.sdo_read 0x6041) n
    | some true ↦ (wait_for_statusword >> statusword) n
  ]

  -- The setter of `controlword`.
  unfoldable pub set_controlword : ℕ → Action (BaseNode402 E) (Unit {0})
  set_controlword value n = elim (lookup 0x6040 n.rpdo_pointers) [
    | none ↦ on_env (access.sdo_write 0x6040 value) n
    | some true ↦ on_env (access.rpdo_write value) n
    | some false ↦ (on_env (access.rpdo_write value) >> on_env access.rpdo_transmit) n
  ]

  -- The loop of the getter: the statusword is read anew for each mask.
  unfoldable pub find_state : List (State × ℕ × ℕ) → Action (BaseNode402 E) State
  find_state [] n = (ok unknown, n)
  find_state ((s, mask, bits) ∷ rest) n =
      let (r, n') = statusword n in
      let later = find_state rest n' in
      elim r [
        | ok word ↦ if bit_and word mask == bits then (ok s, n') else later
        | err e ↦ (err e, n')
      ]

  -- The getter of `state`.
  unfoldable pub state : Action (BaseNode402 E) State
  unfolding sw_mask
  state = find_state sw_mask

  -- A KeyError in `_change_state` becomes ValueError, whose text has the state again.
  unfoldable pub illegal_transition : Action (BaseNode402 E) Bool
  illegal_transition = do state; raise value_error

  -- The loop of `_change_state`, in milliseconds.
  unfoldable pub await_state : ℕ → State → ℕ → Action (BaseNode402 E) Bool
  await_state zero target timeout n = (err diverged, n)
  await_state (suc fuel) target timeout n =
      let (r, n1) = state n in
      elim r [
        | err e ↦ (err e, n1)
        | ok s ↦ elim (same s target) [
          | true ↦ (ok true, n1)
          | false ↦ elim (ltb timeout (access.now n1.env)) [
            | true ↦ (ok false, n1)
            | false ↦ (check_statusword >> await_state fuel target timeout) n1
          ]
        ]
      ]

  -- `_change_state`: the first reading of the state, the table and the setter are under `try`.
  unfoldable pub change_state : ℕ → Option State → Action (BaseNode402 E) Bool
  change_state fuel target n =
      let (r, n1) = state n in
      elim r [
        | err key_error ↦ illegal_transition n1
        | err e ↦ (err e, n1)
        | ok from ↦ elim (control_for from target) [
          | err key_error ↦ illegal_transition n1
          | err e ↦ (err e, n1)
          | ok word ↦
              let (w, n2) = set_controlword word n1 in
              elim w [
                | err key_error ↦ illegal_transition n2
                | err e ↦ (err e, n2)
                | ok _ ↦ elim target [
                  | none ↦ (err value_error, n2)
                  | some t ↦ await_state fuel t (access.now n2.env + 400) n2
                ]
              ]
        ]
      ]

  -- `_next_state` of the node.
  unfoldable pub choose_state : State → Action (BaseNode402 E) (Option State)
  choose_state target n = elim (is_forbidden target) [
    | true ↦ (err value_error, n)
    | false ↦
        let (r, n1) = state n in
        elim r [ err e ↦ (err e, n1) | ok from ↦ (ok (next_state from target), n1) ]
  ]

  -- The loop of the setter of `state`, up to its `timeout`.
  unfoldable pub walk : ℕ → State → ℕ → Action (BaseNode402 E) (Unit {0})
  walk zero target timeout n = (err diverged, n)
  walk (suc fuel) target timeout n =
      let (r, n1) = state n in
      elim r [
        | err e ↦ (err e, n1)
        | ok s ↦ elim (same s target) [
          | true ↦ (ok tt, n1)
          | false ↦
              let (c, n2) = (choose_state target >>= change_state fuel) n1 in
              elim c [
                | err e ↦ (err e, n2)
                | ok true ↦ walk fuel target timeout n2
                | ok false ↦ elim (ltb timeout (access.now n2.env)) [
                  | true ↦ (err runtime_error, n2)
                  | false ↦ (check_statusword >> walk fuel target timeout) n2
                ]
              ]
        ]
      ]

  -- The setter of `state`.
  unfoldable pub set_state : ℕ → State → Action (BaseNode402 E) (Unit {0})
  set_state fuel target n = walk fuel target (access.now n.env + 800) n
