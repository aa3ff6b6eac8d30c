-- ===== src/P402/Masks.antt =====
-- The statusword masks (canopen/profiles/p402.py).
use canopen_asyncio.Common.{
  some, none, ◌&&◌, sym, refl, all_below_sound, all_below, ==_refl, ==_iff, ltb, ◌∙◌, ap, ℕ, ◌+◌,
  ◌*◌, ◌/◌, ◌%◌, ◌<◌, Bool, true, ◌==◌, ◌≡◌, arith, if◌then◌else◌, bit_and,
}
use canopen_asyncio.Common.Bits.{and_low}
use canopen_asyncio.P402.{
  unknown, disable_voltage, quick_stop_active, fault_reaction_active, fault, operation_enabled,
  switched_on, ready_to_switch_on, switch_on_disabled, not_ready_to_switch_on, start, mask_of, code,
  State, same, sw_mask, first_match, state_of,
}

-- The low seven bits of the word decide.
and_seven : (word mask : ℕ) → mask < 128 → bit_and word mask ≡ bit_and (word % 128) mask
and_seven word mask h =
    let e : word ≡ word % 128 + word / 128 * 128 = omega arith in
    ap (λ x. bit_and x mask) e ∙ and_low 7 (word % 128) (word / 128) mask h

state_of-low : (word : ℕ) → state_of word ≡ state_of (word % 128)
unfolding state_of sw_mask first_match
state_of-low word = rw (and_seven word 0x4F (omega arith), and_seven word 0x6F (omega arith))

-- One row of the table: a word that matches the mask of `s` is given the state `s`.
agrees : State → ℕ → Bool
agrees s x = elim (mask_of s sw_mask) [
  | none ↦ true
  | some (mask, bits) ↦
      ltb mask 128 && (if bit_and x mask == bits then same (state_of x) s else true)
]

agrees-all : (s : State) → all_below 128 (agrees s) ≡ true
unfolding all_below agrees mask_of sw_mask same code state_of first_match
agrees-all start = refl
agrees-all not_ready_to_switch_on = refl
agrees-all switch_on_disabled = refl
agrees-all ready_to_switch_on = refl
agrees-all switched_on = refl
agrees-all operation_enabled = refl
agrees-all fault = refl
agrees-all fault_reaction_active = refl
agrees-all quick_stop_active = refl
agrees-all disable_voltage = refl
agrees-all unknown = refl

-- What a row says where the state has an entry.
agrees_entry :
    (s : State) (x mask bits : ℕ)
    → mask_of s sw_mask ≡ some (mask, bits)
    → agrees s x ≡ true
    → mask < 128 × (bit_and x mask ≡ bits → same (state_of x) s ≡ true)
unfolding agrees
agrees_entry s x mask bits entry row = (ground arith, λ h. ground (arith, h))

-- The state that a code stands for.
abbrev pub from_code : ℕ → State
from_code n =
    if n == 0
    then start
    else if n == 1
    then not_ready_to_switch_on
    else if n == 2
    then switch_on_disabled
    else if n == 3
    then ready_to_switch_on
    else if n == 4
    then switched_on
    else if n == 5
    then operation_enabled
    else if n == 6
    then fault
    else if n == 7
    then fault_reaction_active
    else if n == 8
    then quick_stop_active
    else if n == 9
    then disable_voltage
    else unknown

from_code-code : (s : State) → from_code (code s) ≡ s
unfolding code
from_code-code start = refl
from_code-code not_ready_to_switch_on = refl
from_code-code switch_on_disabled = refl
from_code-code ready_to_switch_on = refl
from_code-code switched_on = refl
from_code-code operation_enabled = refl
from_code-code fault = refl
from_code-code fault_reaction_active = refl
from_code-code quick_stop_active = refl
from_code-code disable_voltage = refl
from_code-code unknown = refl

code-lt : (s : State) → code s < 11
unfolding code
code-lt s = ground arith

-- A test of all states, by evaluation on the codes.
pub all_states :
    (p : State → Bool) → all_below 11 (λ i. p (from_code i)) ≡ true → (s : State) → p s ≡ true
all_states p h s =
    sym (ap p (from_code-code s)) ∙ all_below_sound 11 (λ i. p (from_code i)) (code s) h (code-lt s)

pub same→≡ : (s t : State) → same s t ≡ true → s ≡ t
unfolding same
same→≡ s t h =
    sym (from_code-code s) ∙ ap from_code ((==_iff (code s) (code t)).0 h) ∙ from_code-code t

pub same_refl : (s : State) → same s s ≡ true
unfolding same
same_refl s = ==_refl (code s)

-- The masks exclude each other: a statusword of any width that matches the entry of a state in
-- SW_MASK is given that state by the `state` property, wherever the entry stands in the dict.
pub state_of-mask_of :
    (s : State) (word mask bits : ℕ)
    → mask_of s sw_mask ≡ some (mask, bits)
    → bit_and word mask ≡ bits
    → state_of word ≡ s
state_of-mask_of s word mask bits entry matched =
    let row : agrees s (word % 128) ≡ true =
      all_below_sound 128 (agrees s) (word % 128) (agrees-all s) (omega arith) in
    let (small, hit) = agrees_entry s (word % 128) mask bits entry row in
    state_of-low word
    ∙ same→≡ (state_of (word % 128)) s (hit (sym (and_seven word mask small) ∙ matched))
