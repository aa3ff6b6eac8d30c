-- ===== src/P402/Drive.antt =====
-- A drive behind SDO that carries out every transition it is told, and one round of the loop of the
-- `state` setter on it (canopen/profiles/p402.py).
use canopen_asyncio.Common.{◌∷◌, List, refl, ℕ, suc, ◌+◌, true, false, none, some, [], ◌≡◌, arith}
use canopen_asyncio.Common.Monad.{ok, err, value_error}
use canopen_asyncio.P402.{
  illegal_transition, find_state, first_match, sw_mask, State, state_of, transition, next_state,
  Access, BaseNode402, statusword, state, await_state, change_state, choose_state, control_for,
  walk, set_controlword, is_forbidden, same,
}
use canopen_asyncio.P402.Masks.{same_refl}

module _ {E : Type 0} where
  -- A node whose statusword and controlword are in no PDO.
  abbrev pub by_sdo : E → BaseNode402 E
  by_sdo e = record { env = e; tpdo_values = []; tpdo_pointers = []; rpdo_pointers = [] }

  -- Reading the statusword leaves the drive as it is; a controlword of a transition of the state that
  -- the drive is in moves it to the target of the transition.
  pub record Obeys (access : Access E) (word : E → ℕ) : Type 0 where
    pub reads : (e : E) → access.sdo_read 0x6041 e ≡ (ok (word e), e)
    pub moved : E → ℕ → E
    pub writes : (e : E) (cw : ℕ) → access.sdo_write 0x6040 cw e ≡ (ok tt, moved e cw)
    pub moves :
        (e : E) (t : State) (cw : ℕ)
        → transition (state_of (word e)) t ≡ some cw
        → state_of (word (moved e cw)) ≡ t

module _ {E : Type 0} (access : Access E) (word : E → ℕ) (drive : Obeys access word) where
  find_state-by_sdo :
      (masks : List (State × ℕ × ℕ)) (e : E)
      → find_state access masks (by_sdo e) ≡ (ok (first_match (word e) masks), by_sdo e)
  unfolding find_state statusword first_match
  find_state-by_sdo [] e = refl
  find_state-by_sdo ((s, mask, bits) ∷ rest) e =
      ground (arith, drive.reads e, find_state-by_sdo rest e)

  pub state-by_sdo : (e : E) → state access (by_sdo e) ≡ (ok (state_of (word e)), by_sdo e)
  unfolding state state_of
  state-by_sdo e = find_state-by_sdo sw_mask e

  pub set_controlword-by_sdo :
      (e : E) (cw : ℕ) → set_controlword access cw (by_sdo e) ≡ (ok tt, by_sdo (drive.moved e cw))
  unfolding set_controlword
  set_controlword-by_sdo e cw = ground (arith, drive.writes e cw)

  pub await_state-by_sdo :
      (e : E) (t : State) (f timeout : ℕ)
      → same (state_of (word e)) t ≡ true
      → await_state access (suc f) t timeout (by_sdo e) ≡ (ok true, by_sdo e)
  unfolding await_state
  await_state-by_sdo e t f timeout h = ground (arith, state-by_sdo e)

  pub change_state-by_sdo :
      (e : E) (t : State) (cw f : ℕ)
      → transition (state_of (word e)) t ≡ some cw
      → change_state access (suc f) (some t) (by_sdo e) ≡ (ok true, by_sdo (drive.moved e cw))
  unfolding change_state control_for
  change_state-by_sdo e t cw f h =
      let arrived = drive.moves e t cw h in
      let hit : same (state_of (word (drive.moved e cw))) t ≡ true = rw (arrived, same_refl t) in
      ground (
        arith,
        state-by_sdo e,
        set_controlword-by_sdo e cw,
        await_state-by_sdo (drive.moved e cw) t f (access.now (drive.moved e cw) + 400) hit,
      )

  choose_state-by_sdo :
      (e : E) (t : State)
      → is_forbidden t ≡ false
      → choose_state access t (by_sdo e) ≡ (ok (next_state (state_of (word e)) t), by_sdo e)
  unfolding choose_state
  choose_state-by_sdo e t allowed = ground (arith, state-by_sdo e)

  -- One round of the loop: the next state is a target of a transition, or there is none.
  pub walk-step :
      (e : E) (t u : State) (cw f timeout : ℕ)
      → is_forbidden t ≡ false
      → same (state_of (word e)) t ≡ false
      → next_state (state_of (word e)) t ≡ some u
      → transition (state_of (word e)) u ≡ some cw
      → walk access (suc (suc f)) t timeout (by_sdo e)
        ≡ walk access (suc f) t timeout (by_sdo (drive.moved e cw))
  unfolding walk
  walk-step e t u cw f timeout allowed apart next h =
      ground
        (arith, state-by_sdo e, choose_state-by_sdo e t allowed, change_state-by_sdo e u cw f h)

  pub walk-end :
      (e : E) (t : State) (f timeout : ℕ)
      → same (state_of (word e)) t ≡ true
      → walk access (suc f) t timeout (by_sdo e) ≡ (ok tt, by_sdo e)
  unfolding walk
  walk-end e t f timeout h = ground (arith, state-by_sdo e)

  pub walk-stuck :
      (e : E) (t : State) (f timeout : ℕ)
      → is_forbidden t ≡ false
      → same (state_of (word e)) t ≡ false
      → next_state (state_of (word e)) t ≡ none
      → walk access (suc f) t timeout (by_sdo e) ≡ (err value_error, by_sdo e)
  unfolding walk change_state control_for illegal_transition
  walk-stuck e t f timeout allowed apart next =
      ground (arith, state-by_sdo e, choose_state-by_sdo e t allowed)
