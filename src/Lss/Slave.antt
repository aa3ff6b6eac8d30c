-- ===== src/Lss/Slave.antt =====
-- A conforming slave, as the fast scan of the LSS master sees it (canopen/lss.py).
use canopen_asyncio.Common.Bytes.{le_bytes, Bytes}
use canopen_asyncio.Common.Monad.{ok}
use canopen_asyncio.Lss.{
  send_fast_scan_message, is_identify, fast_scan_frame, send_command, await_response, response_cs,
  needs_response, cs_fast_scan, cs_identify_slave, Bus, LssMaster,
}
use canopen_asyncio.Common.{
  inr, inl, Bool-cases, if◌then◌else◌, ℕ, ◌/◌, ◌^◌, ◌<◌, ◌≡◌, arith, [], ◌∷◌, ◌++◌, Bool, true,
  ◌&&◌, ◌==◌,
}

-- The frame of a fast scan message.
abbrev pub scan_frame : ℕ → ℕ → ℕ → ℕ → Bytes
scan_frame id_number bit_checker lss_sub lss_next =
    cs_fast_scan ∷ (le_bytes 4 id_number ++ (bit_checker ∷ lss_sub ∷ lss_next ∷ []))

-- The slave answers if the bits from `bit` up are those of the part of its identity.
unfoldable pub confirms : ℕ → ℕ → ℕ → Bool
confirms ident id_number bit = id_number / 2 ^ bit == ident / 2 ^ bit

-- One unconfigured slave on the bus, as CiA 305 has it: it starts at part 0, compares the part that it
-- is at, and goes to `lss_next` once all bits are right.
pub record IsSlave {E : Type 0} (bus : Bus E) (ident : ℕ → ℕ) (part : E → ℕ) : Type 0 where
  pub answer : Bytes
  pub restarted : E → E
  pub starts :
      (e : E) → bus (scan_frame 0 128 0 0) e ≡ ((cs_identify_slave ∷ answer) ∷ [], restarted e)
  pub starts_part : (e : E) → part (restarted e) ≡ 0
  pub asked : E → ℕ → ℕ → ℕ → E
  pub answers :
      (e : E) (id_number bit lss_next : ℕ)
      → id_number < 2 ^ 32
      → bit < 32
      → bus (scan_frame id_number bit (part e) lss_next) e ≡ (
        (if confirms (ident (part e)) id_number bit then (cs_identify_slave ∷ answer) ∷ [] else []),
        asked e id_number bit lss_next,
      )
  pub answers_part :
      (e : E) (id_number bit lss_next : ℕ)
      → id_number < 2 ^ 32
      → bit < 32
      → part (asked e id_number bit lss_next)
        ≡ (if bit == 0 && confirms (ident (part e)) id_number bit then lss_next else part e)

module _ {E : Type 0} (bus : Bus E) (ident : ℕ → ℕ) (part : E → ℕ)
    (slave : IsSlave bus ident part) where
  pub message-answered :
      (m : LssMaster E) (id_number bit lss_next : ℕ)
      → id_number < 2 ^ 32
      → bit < 32
      → send_fast_scan_message bus id_number bit (part m.env) lss_next m ≡ (
        ok (confirms (ident (part m.env)) id_number bit),
        record { env = slave.asked m.env id_number bit lss_next; responses = [] },
      )
  unfolding send_fast_scan_message fast_scan_frame send_command needs_response await_response
      is_identify response_cs
  message-answered m id_number bit lss_next hid hb =
      elim (Bool-cases (confirms (ident (part m.env)) id_number bit)) [
        | inl yes_ ↦ ground (arith, slave.answers m.env id_number bit lss_next hid hb)
        | inr no_ ↦ ground (arith, slave.answers m.env id_number bit lss_next hid hb)
      ]

  pub message-started :
      (m : LssMaster E)
      → send_fast_scan_message bus 0 128 0 0 m
        ≡ (ok true, record { env = slave.restarted m.env; responses = [] })
  unfolding send_fast_scan_message fast_scan_frame send_command needs_response await_response
      is_identify response_cs
  message-started m = ground (arith, slave.starts m.env)
