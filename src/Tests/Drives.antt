-- ===== src/Tests/Drives.antt =====
-- A drive that is its state, and makes every transition that it is told.
use canopen_asyncio.P402.Walk.{
  Ends, set_state-disable_voltage, set_state-reaches, is_settable, is_reported,
}
use canopen_asyncio.P402.Drive.{Obeys, by_sdo}
use canopen_asyncio.P402.Masks.{state_of-mask_of, same→≡, all_states, from_code}
use canopen_asyncio.Common.Monad.{ok}
use canopen_asyncio.P402.{
  code, fault, disable_voltage, quick_stop_active, fault_reaction_active, operation_enabled,
  switched_on, ready_to_switch_on, switch_on_disabled, not_ready_to_switch_on, State, is_forbidden,
  is_member, transition, mask_of, state_of, first_match, sw_mask, same, set_state, Access,
}
use canopen_asyncio.Common.{
  arith, some, false, true, Bool, refl, ◌≡◌, all_below, none, if◌then◌else◌, ◌==◌, ℕ,
}

abbrev word : State → ℕ
word not_ready_to_switch_on = 0x00
word switch_on_disabled = 0x40
word ready_to_switch_on = 0x21
word switched_on = 0x23
word operation_enabled = 0x27
word fault = 0x08
word fault_reaction_active = 0x0F
word quick_stop_active = 0x07
word _ = 0x01

abbrev moved_state : State → ℕ → State
moved_state s cw =
    if cw == 0x06
    then ready_to_switch_on
    else if cw == 0x07
    then switched_on
    else if cw == 0x0F
    then operation_enabled
    else if cw == 0x02
    then quick_stop_active
    else if cw == 0x00
    then (if same s fault_reaction_active then fault else switch_on_disabled)
    else switch_on_disabled

abbrev access : Access State
access = record {
  sdo_read = λ index s. (ok (word s), s);
  sdo_write = λ index cw s. (ok tt, moved_state s cw);
  wait_for_reception = λ s. (ok none, s);
  rpdo_write = λ cw s. (ok tt, s);
  rpdo_transmit = λ s. (ok tt, s);
  now = λ s. 0;
}

obeys : State → State → Bool
obeys s t = elim (transition (state_of (word s)) t) [
  | none ↦ true
  | some cw ↦ same (state_of (word (moved_state s cw))) t
]

obeys-all : (s t : State) → obeys s t ≡ true
unfolding obeys transition state_of first_match sw_mask same code all_below
obeys-all s t =
    all_states (obeys s) (all_states (λ r. all_below 11 (λ i. obeys r (from_code i))) refl s) t

obeys-moves :
    (s t : State) (cw : ℕ)
    → transition (state_of (word s)) t ≡ some cw
    → state_of (word (moved_state s cw)) ≡ t
unfolding obeys
obeys-moves s t cw h = same→≡ _ t (ground (arith, obeys-all s t))

abbrev drive : Obeys access word
drive = record {
  reads = λ s. refl;
  moved = moved_state;
  writes = λ s cw. refl;
  moves = obeys-moves;
}

set_state-reaches_example :
    Ends access word drive true quick_stop_active
      (set_state access 8 quick_stop_active (by_sdo fault_reaction_active))
unfolding is_reported is_settable is_forbidden is_member same code state_of first_match sw_mask
set_state-reaches_example =
    set_state-reaches access word drive fault_reaction_active quick_stop_active 8 refl refl
      (omega arith)

set_state-disable_voltage_example :
    Ends access word drive false operation_enabled
      (set_state access 8 disable_voltage (by_sdo switch_on_disabled))
unfolding is_reported is_member same code state_of first_match sw_mask
set_state-disable_voltage_example =
    set_state-disable_voltage access word drive switch_on_disabled 8 refl (omega arith)

state_of-mask_of_example : state_of 0x1637 ≡ operation_enabled
unfolding mask_of sw_mask same code
state_of-mask_of_example = state_of-mask_of operation_enabled 0x1637 0x6F 0x27 refl refl
