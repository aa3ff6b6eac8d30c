-- ===== src/P402/Walk.antt =====
-- The walk of the `state` setter through the states of a drive that does as it is told.
use canopen_asyncio.P402.Masks.{same→≡, all_states, from_code}
use canopen_asyncio.Common.Monad.{err, ok, value_error, Result}
use canopen_asyncio.P402.Drive.{Obeys, walk-stuck, walk-end, walk-step, by_sdo}
use canopen_asyncio.P402.{
  set_state, unknown, disable_voltage, operation_enabled, start, next_state_indirect, first_key,
  next_state2any, matches, is_member, is_substring, code, State, walk, next_state, is_forbidden,
  transition, state_of, same, BaseNode402, Access,
}
use canopen_asyncio.Common.{
  ◌<◌, ◌≤◌, ◌+◌, all_below, ◌∷◌, [], ◌&&◌, not, inr, inl, ◌∙◌, ap, Option-cases, Bool-cases, arith,
  ℕ, zero, suc, Bool, true, false, Option, none, some, ◌≡◌, refl, if◌then◌else◌,
}

-- Where the walk from `s` to `t` ends within `k` transitions: whether at the target, and the state.
outcome : ℕ → State → State → Option (Bool × State)
outcome zero s t = none
outcome (suc k) s t = elim (same s t) [
  | true ↦ some (true, s)
  | false ↦ elim (next_state s t) [
    | none ↦ some (false, s)
    | some u ↦ elim (transition s u) [ none ↦ none | some cw ↦ outcome k u t ]
  ]
]

module _ {E : Type 0} (access : Access E) (word : E → ℕ) (drive : Obeys access word) where
  -- The walk ends as it is foretold: with or without ValueError, and with the drive in that state.
  abbrev pub Ends : Bool → State → Result (Unit {0}) × BaseNode402 E → Type 0
  Ends reached u out =
      (e : E) × (out ≡ ((if reached then ok tt else err value_error), by_sdo e))
      × (state_of (word e) ≡ u)

  walk-outcome :
      (k f : ℕ) (e : E) (t u : State) (reached : Bool) (timeout : ℕ)
      → is_forbidden t ≡ false
      → k ≤ f
      → outcome k (state_of (word e)) t ≡ some (reached, u)
      → Ends reached u (walk access (suc f) t timeout (by_sdo e))
  unfolding outcome
  walk-outcome zero f e t u reached timeout allowed le h = absurd (ground arith)
  walk-outcome (suc k) zero e t u reached timeout allowed le h = elim le [ ]
  walk-outcome (suc k) (suc f) e t u reached timeout allowed le h =
      elim (Bool-cases (same (state_of (word e)) t)) [
        | inl hit ↦
            (e, ground (arith, walk-end access word drive e t (suc f) timeout hit), ground arith)
        | inr apart ↦ elim (Option-cases (next_state (state_of (word e)) t)) [
          | inl stuck ↦ (
            e,
            ground (arith, walk-stuck access word drive e t (suc f) timeout allowed apart stuck),
            ground arith,
          )
          | inr (v, next) ↦ elim (Option-cases (transition (state_of (word e)) v)) [
            | inl illegal ↦ absurd (ground arith)
            | inr (cw, legal) ↦
                let onward : outcome k v t ≡ some (reached, u) = ground arith in
                let (e', run, there) =
                  walk-outcome k f (drive.moved e cw) t u reached timeout allowed (omega arith)
                    (ap (λ x. outcome k x t) (drive.moves e v cw legal) ∙ onward) in
                (
                  e',
                  walk-step access word drive e t v cw f timeout allowed apart next legal ∙ run,
                  there,
                )
          ]
        ]
      ]

-- The states that a statusword can report, and those that the setter may be asked for.
unfoldable pub is_reported : State → Bool
is_reported s = not (is_member s (start ∷ disable_voltage ∷ unknown ∷ []))

unfoldable pub is_settable : State → Bool
is_settable t = is_reported t && not (is_forbidden t)

-- Seven rounds are enough for any walk to a settable state, which they end in.
settles : State → State → Bool
settles s t =
    if is_reported s && is_settable t
    then elim (outcome 7 s t) [ some (reached, u) ↦ reached && same u t | none ↦ false ]
    else true

settles-all : (s t : State) → settles s t ≡ true
unfolding settles outcome is_reported is_settable is_forbidden is_member same code next_state
    transition next_state_indirect next_state2any first_key matches is_substring all_below
settles-all s t =
    all_states (settles s) (all_states (λ r. all_below 11 (λ i. settles r (from_code i))) refl s) t

outcome-settable :
    (s t : State) → is_reported s ≡ true → is_settable t ≡ true → outcome 7 s t ≡ some (true, t)
unfolding settles
outcome-settable s t r p = elim (Option-cases (outcome 7 s t)) [
  | inl e ↦ absurd (ground (arith, settles-all s t))
  | inr ((reached, u), e) ↦
      let both : (reached && same u t) ≡ true = ground (arith, settles-all s t) in
      elim (Bool-cases reached) [
        | inl hit ↦ ground (arith, same→≡ u t (ground arith))
        | inr miss ↦ absurd (ground arith)
      ]
]

-- From any state, a walk to DISABLE VOLTAGE gets to OPERATION ENABLED and no further.
strands : State → Bool
strands s =
    if is_reported s
    then elim (outcome 7 s disable_voltage) [
      | some (reached, u) ↦ not reached && same u operation_enabled
      | none ↦ false
    ]
    else true

strands-all : (s : State) → strands s ≡ true
unfolding strands outcome is_reported is_member same code next_state transition next_state_indirect
    next_state2any first_key matches is_substring all_below
strands-all s = all_states strands refl s

outcome-disable_voltage :
    (s : State)
    → is_reported s ≡ true
    → outcome 7 s disable_voltage ≡ some (false, operation_enabled)
unfolding strands
outcome-disable_voltage s r = elim (Option-cases (outcome 7 s disable_voltage)) [
  | inl e ↦ absurd (ground (arith, strands-all s))
  | inr ((reached, u), e) ↦
      let both : (not reached && same u operation_enabled) ≡ true = ground (arith, strands-all s) in
      elim (Bool-cases reached) [
        | inl hit ↦ absurd (ground arith)
        | inr miss ↦ ground (arith, same→≡ u operation_enabled (ground arith))
      ]
]

module _ {E : Type 0} (access : Access E) (word : E → ℕ) (drive : Obeys access word) where
  -- On a drive whose statusword and controlword are read and written by SDO, and which makes each
  -- transition that it is told, the `state` setter returns from any reported state, for every target
  -- that can be entered programmatically, with the drive in the target state. Eight rounds are enough.
  pub set_state-reaches :
      (e : E) (t : State) (fuel : ℕ)
      → is_reported (state_of (word e)) ≡ true
      → is_settable t ≡ true
      → 7 < fuel
      → Ends access word drive true t (set_state access fuel t (by_sdo e))
  unfolding set_state is_settable
  set_state-reaches e t zero r p lt = elim lt [ ]
  set_state-reaches e t (suc f) r p lt =
      walk-outcome access word drive 7 f e t t true (access.now e + 800) (ground arith)
        (omega arith) (outcome-settable (state_of (word e)) t r p)

  -- On such a drive, setting the state to DISABLE VOLTAGE raises ValueError from any reported state,
  -- and leaves the drive in OPERATION ENABLED.
  pub set_state-disable_voltage :
      (e : E) (fuel : ℕ)
      → is_reported (state_of (word e)) ≡ true
      → 7 < fuel
      → Ends access word drive false operation_enabled
          (set_state access fuel disable_voltage (by_sdo e))
  unfolding set_state is_forbidden is_member same code
  set_state-disable_voltage e zero r lt = elim lt [ ]
  set_state-disable_voltage e (suc f) r lt =
      walk-outcome access word drive 7 f e disable_voltage operation_enabled false
        (access.now e + 800) refl (omega arith) (outcome-disable_voltage (state_of (word e)) r)
