-- ===== src/P402/States.antt =====
-- The states of a drive: the masks of the statusword, the transition table, and what the setter takes
-- from them (canopen/profiles/p402.py).
use canopen_asyncio.Common.{
  ℕ, Bool, true, false, ◌||◌, Option, none, some, List, [], ◌∷◌, ◌==◌, if◌then◌else◌, bit_and,
}
use canopen_asyncio.Common.Monad.{key_error, Result, ok, err}

-- The strings that name states and commands.
pub data State : Type 0 where
  start not_ready_to_switch_on switch_on_disabled ready_to_switch_on switched_on : State
  operation_enabled fault fault_reaction_active quick_stop_active : State
  disable_voltage unknown : State

unfoldable pub code : State → ℕ
code start = 0
code not_ready_to_switch_on = 1
code switch_on_disabled = 2
code ready_to_switch_on = 3
code switched_on = 4
code operation_enabled = 5
code fault = 6
code fault_reaction_active = 7
code quick_stop_active = 8
code disable_voltage = 9
code unknown = 10

-- `s == t` of the strings.
unfoldable pub same : State → State → Bool
same s t = code s == code t

-- `SW_MASK`, in the order of the dict.
unfoldable pub sw_mask : List (State × ℕ × ℕ)
sw_mask =
    (not_ready_to_switch_on, 0x4F, 0x00)
    ∷ (switch_on_disabled, 0x4F, 0x40)
    ∷ (ready_to_switch_on, 0x6F, 0x21)
    ∷ (switched_on, 0x6F, 0x23)
    ∷ (operation_enabled, 0x6F, 0x27)
    ∷ (fault, 0x4F, 0x08)
    ∷ (fault_reaction_active, 0x4F, 0x0F)
    ∷ (quick_stop_active, 0x6F, 0x07)
    ∷ []

-- The first entry that the word matches.
unfoldable pub first_match : ℕ → List (State × ℕ × ℕ) → State
first_match word [] = unknown
first_match word ((s, mask, bits) ∷ rest) =
    if bit_and word mask == bits then s else first_match word rest

-- The string that the `state` property gives for a statusword.
unfoldable pub state_of : ℕ → State
state_of word = first_match word sw_mask

-- `SW_MASK[s]`
unfoldable pub mask_of : State → List (State × ℕ × ℕ) → Option (ℕ × ℕ)
mask_of s [] = none
mask_of s ((t, mask, bits) ∷ rest) = if same s t then some (mask, bits) else mask_of s rest

unfoldable pub is_faulted : ℕ → Bool
is_faulted word = elim (mask_of fault sw_mask) [
  | some (mask, bits) ↦ bit_and word mask == bits
  | none ↦ false
]

-- `TRANSITIONTABLE.get((s, t))`
unfoldable pub transition : State → State → Option ℕ
transition ready_to_switch_on switch_on_disabled = some 0x00
transition operation_enabled switch_on_disabled = some 0x00
transition switched_on switch_on_disabled = some 0x00
transition quick_stop_active switch_on_disabled = some 0x00
transition not_ready_to_switch_on switch_on_disabled = some 0x00
transition start not_ready_to_switch_on = some 0x00
transition fault_reaction_active fault = some 0x00
transition switch_on_disabled ready_to_switch_on = some 0x06
transition switched_on ready_to_switch_on = some 0x06
transition operation_enabled ready_to_switch_on = some 0x06
transition ready_to_switch_on switched_on = some 0x07
transition operation_enabled switched_on = some 0x07
transition switched_on operation_enabled = some 0x0F
transition quick_stop_active operation_enabled = some 0x0F
transition operation_enabled quick_stop_active = some 0x02
transition fault switch_on_disabled = some 0x80
transition _ _ = none

-- A key of `NEXTSTATE2ANY`: one pair of parentheses around a string is the string itself.
pub data Key : Type 0 where
  text : State → Key
  tuple : List State → Key

-- `s in "..."`, the substring test on the names: besides equal names, only FAULT is a part of
-- another one, FAULT REACTION ACTIVE.
unfoldable pub is_substring : State → State → Bool
is_substring fault fault_reaction_active = true
is_substring s t = same s t

unfoldable pub is_member : State → List State → Bool
is_member s [] = false
is_member s (t ∷ ts) = same s t || is_member s ts

-- `_from in cond`
unfoldable pub matches : State → Key → Bool
matches s (text t) = is_substring s t
matches s (tuple ts) = is_member s ts

unfoldable pub next_state2any : List (Key × State)
next_state2any =
    (text start, not_ready_to_switch_on)
    ∷ (tuple (fault ∷ not_ready_to_switch_on ∷ quick_stop_active ∷ []), switch_on_disabled)
    ∷ (text switch_on_disabled, ready_to_switch_on)
    ∷ (text ready_to_switch_on, switched_on)
    ∷ (text switched_on, operation_enabled)
    ∷ (text fault_reaction_active, fault)
    ∷ []

unfoldable pub first_key : State → List (Key × State) → Option State
first_key s [] = none
first_key s ((cond, next) ∷ rest) = if matches s cond then some next else first_key s rest

-- `next_state_indirect`: None if no key matches.
unfoldable pub next_state_indirect : State → Option State
next_state_indirect s = first_key s next_state2any

-- The test of `_next_state` on its target.
unfoldable pub is_forbidden : State → Bool
is_forbidden t = is_member t (not_ready_to_switch_on ∷ fault_reaction_active ∷ fault ∷ [])

-- What `_next_state` gives from the state that the drive is in: None as the source's None.
unfoldable pub next_state : State → State → Option State
next_state from target = elim (transition from target) [
  | some _ ↦ some target
  | none ↦ next_state_indirect from
]

-- `TRANSITIONTABLE[(from, target)]`, which raises KeyError, of None as well.
unfoldable pub control_for : State → Option State → Result ℕ
control_for from none = err key_error
control_for from (some target) = elim (transition from target) [
  | some word ↦ ok word
  | none ↦ err key_error
]
