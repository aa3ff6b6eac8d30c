-- ===== src/Lss.antt =====
-- `LssMaster` (canopen/lss.py). What is beyond the network is a parameter `E` with a bus, as for the
-- SDO client: the frames that arrive before the response time is over. Pauses are left out.
pub mod Slave
pub mod Upper
pub mod Scan
use canopen_asyncio.Common.{
  ℕ, zero, suc, ◌+◌, ◌%◌, ◌^◌, Bool, true, false, ◌||◌, Option, none, some, List, [], ◌∷◌, ◌++◌,
  ltb, ◌==◌, if◌then◌else◌, bit_or, replicate,
}
use canopen_asyncio.Common.Bytes.{Bytes, le_bytes, from_le}
use canopen_asyncio.Common.Monad.{
  Action, Result, Exn, ok, err, pure, lift, require, ◌>>=◌, ◌>>◌, lss_error, struct_error,
  type_error,
}

abbrev pub Bus : Type 0 → Type 0
Bus E = Bytes → E → List Bytes × E

pub record LssMaster (E : Type 0) : Type 0 where
  pub env : E
  pub responses : List Bytes

-- Command specifiers
abbrev pub cs_switch_state_global : ℕ
cs_switch_state_global = 0x04

abbrev pub cs_configure_node_id : ℕ
cs_configure_node_id = 0x11

abbrev pub cs_configure_bit_timing : ℕ
cs_configure_bit_timing = 0x13

abbrev pub cs_activate_bit_timing : ℕ
cs_activate_bit_timing = 0x15

abbrev pub cs_store_configuration : ℕ
cs_store_configuration = 0x17

abbrev pub cs_switch_state_selective_vendor_id : ℕ
cs_switch_state_selective_vendor_id = 0x40

abbrev pub cs_switch_state_selective_product_code : ℕ
cs_switch_state_selective_product_code = 0x41

abbrev pub cs_switch_state_selective_revision_number : ℕ
cs_switch_state_selective_revision_number = 0x42

abbrev pub cs_switch_state_selective_serial_number : ℕ
cs_switch_state_selective_serial_number = 0x43

abbrev pub cs_switch_state_selective_response : ℕ
cs_switch_state_selective_response = 0x44

abbrev pub cs_identify_slave : ℕ
cs_identify_slave = 0x4F

abbrev pub cs_fast_scan : ℕ
cs_fast_scan = 0x51

abbrev pub cs_inquire_vendor_id : ℕ
cs_inquire_vendor_id = 0x5A

abbrev pub cs_inquire_product_code : ℕ
cs_inquire_product_code = 0x5B

abbrev pub cs_inquire_revision_number : ℕ
cs_inquire_revision_number = 0x5C

abbrev pub cs_inquire_serial_number : ℕ
cs_inquire_serial_number = 0x5D

abbrev pub cs_inquire_node_id : ℕ
cs_inquire_node_id = 0x5E

-- `cs in ListMessageNeedResponse`
unfoldable pub needs_response : ℕ → Bool
needs_response cs =
    cs == cs_configure_node_id
    || cs == cs_configure_bit_timing
    || cs == cs_store_configuration
    || cs == cs_switch_state_selective_serial_number
    || cs == cs_fast_scan
    || cs == cs_inquire_vendor_id
    || cs == cs_inquire_product_code
    || cs == cs_inquire_revision_number
    || cs == cs_inquire_serial_number
    || cs == cs_inquire_node_id

-- `struct.pack('<I', n)` and `struct.pack('<H', n)`
unfoldable pub pack_field : ℕ → ℕ → Result Bytes
pack_field k n = if ltb n (256 ^ k) then ok (le_bytes k n) else err struct_error

-- A byte that is stored in a bytearray: ValueError from 256 on.
unfoldable pub byte : ℕ → Result ℕ
byte n = if ltb n 256 then ok n else err Exn.value_error

-- The first byte of a response; None has none.
unfoldable pub response_cs : Option Bytes → Result ℕ
response_cs none = err type_error
response_cs (some []) = err struct_error
response_cs (some (cs ∷ rest)) = ok cs

-- `struct.unpack_from("<BB", response)`
unfoldable pub unpack_bb : Option Bytes → Result (ℕ × ℕ)
unpack_bb none = err type_error
unpack_bb (some (a ∷ b ∷ rest)) = ok (a, b)
unpack_bb (some _) = err struct_error

-- `struct.unpack_from("<BI", response)`
unfoldable pub unpack_bi : Option Bytes → Result (ℕ × ℕ)
unpack_bi none = err type_error
unpack_bi (some (cs ∷ a ∷ b ∷ c ∷ d ∷ rest)) = ok (cs, from_le (a ∷ b ∷ c ∷ d ∷ []))
unpack_bi (some _) = err struct_error

module _ {E : Type 0} (bus : Bus E) where
  -- The queue at the end of the wait: its head, or LssError.
  unfoldable pub await_response : Action (LssMaster E) (Option Bytes)
  await_response m = elim m.responses [
    | [] ↦ (err lss_error, m)
    | r ∷ rest ↦ (ok (some r), record m { responses = rest })
  ]

  -- `__send_command`: old responses are dropped; some commands have no response.
  unfoldable pub send_command : Bytes → Action (LssMaster E) (Option Bytes)
  send_command [] m = (err Exn.index_error, m)
  send_command (cs ∷ rest) m =
      let (arrived, env') = bus (cs ∷ rest) m.env in
      let m' : LssMaster E = record { env = env'; responses = arrived } in
      if needs_response cs then await_response m' else (ok none, m')

  unfoldable pub send_switch_state_global : ℕ → Action (LssMaster E) (Unit {0})
  send_switch_state_global mode = do
    b ← lift (byte mode)
    send_command (cs_switch_state_global ∷ b ∷ replicate 6 0)
    pure tt

  -- `__send_lss_address`
  unfoldable pub send_lss_address : ℕ → ℕ → Action (LssMaster E) (Option Bytes)
  send_lss_address req_cs number = do
    field ← lift (pack_field 4 number)
    send_command (req_cs ∷ (field ++ replicate 3 0))

  unfoldable pub send_switch_state_selective : ℕ → ℕ → ℕ → ℕ → Action (LssMaster E) Bool
  send_switch_state_selective vendor product revision serial = do
    send_lss_address cs_switch_state_selective_vendor_id vendor
    send_lss_address cs_switch_state_selective_product_code product
    send_lss_address cs_switch_state_selective_revision_number revision
    response ← send_lss_address cs_switch_state_selective_serial_number serial
    cs ← lift (response_cs response)
    pure (cs == cs_switch_state_selective_response)

  -- `__send_inquire_node_id`
  unfoldable pub inquire_node_id : Action (LssMaster E) ℕ
  inquire_node_id = do
    response ← send_command (cs_inquire_node_id ∷ replicate 7 0)
    (cs, current_node_id) ← lift (unpack_bb response)
    require (cs == cs_inquire_node_id) lss_error
    pure current_node_id

  -- `__send_inquire_lss_address`
  unfoldable pub inquire_lss_address : ℕ → Action (LssMaster E) ℕ
  inquire_lss_address req_cs = do
    response ← send_command (req_cs ∷ replicate 7 0)
    (res_cs, part_of_address) ← lift (unpack_bi response)
    require (res_cs == req_cs) lss_error
    pure part_of_address

  -- `__send_configure`
  unfoldable pub send_configure : ℕ → ℕ → ℕ → Action (LssMaster E) (Unit {0})
  send_configure req_cs value1 value2 = do
    b1 ← lift (byte value1)
    b2 ← lift (byte value2)
    response ← send_command (req_cs ∷ b1 ∷ b2 ∷ replicate 5 0)
    (res_cs, error_code) ← lift (unpack_bb response)
    require (res_cs == req_cs) lss_error
    require (error_code == 0) lss_error

  unfoldable pub configure_node_id : ℕ → Action (LssMaster E) (Unit {0})
  configure_node_id new_node_id = send_configure cs_configure_node_id new_node_id 0

  unfoldable pub configure_bit_timing : ℕ → Action (LssMaster E) (Unit {0})
  configure_bit_timing new_bit_timing = send_configure cs_configure_bit_timing 0 new_bit_timing

  unfoldable pub activate_bit_timing : ℕ → Action (LssMaster E) (Unit {0})
  activate_bit_timing switch_delay_ms = do
    field ← lift (pack_field 2 switch_delay_ms)
    send_command (cs_activate_bit_timing ∷ (field ++ replicate 5 0))
    pure tt

  unfoldable pub store_configuration : Action (LssMaster E) (Unit {0})
  store_configuration = send_configure cs_store_configuration 0 0

  -- `struct.pack('<BIBBB', CS_FAST_SCAN, id_number, bit_checker, lss_sub, lss_next)`
  unfoldable pub fast_scan_frame : ℕ → ℕ → ℕ → ℕ → Result Bytes
  fast_scan_frame id_number bit_checker lss_sub lss_next =
      if ltb id_number (2 ^ 32)
      then ok (cs_fast_scan ∷ (le_bytes 4 id_number ++ (bit_checker ∷ lss_sub ∷ lss_next ∷ [])))
      else err struct_error

  -- The answer of `__send_fast_scan_message` to what the command gave.
  unfoldable pub is_identify : Result (Option Bytes) → Result Bool
  is_identify (err lss_error) = ok false
  is_identify (err e) = err e
  is_identify (ok response) = elim (response_cs response) [
    | ok cs ↦ ok (cs == cs_identify_slave)
    | err e ↦ err e
  ]

  unfoldable pub send_fast_scan_message : ℕ → ℕ → ℕ → ℕ → Action (LssMaster E) Bool
  send_fast_scan_message id_number bit_checker lss_sub lss_next m =
      elim (fast_scan_frame id_number bit_checker lss_sub lss_next) [
        | err e ↦ (err e, m)
        | ok frame ↦ let (r, m') = send_command frame m in (is_identify r, m')
      ]

  -- The inner loop: from bit `bits - 1` down to 0. The bits above are known; a bit that no slave
  -- confirms as 0 is set.
  unfoldable pub scan_bits : ℕ → ℕ → ℕ → ℕ → Action (LssMaster E) ℕ
  scan_bits zero id_number lss_sub lss_next = pure id_number
  scan_bits (suc bit) id_number lss_sub lss_next = do
    confirmed ← send_fast_scan_message id_number bit lss_sub lss_next
    scan_bits bit (if confirmed then id_number else bit_or id_number (2 ^ bit)) lss_sub lss_next

  -- The outer loop, for the `parts` of the identity that are left: `lss_sub` is 4 - parts. The
  -- result is None if a part is not confirmed.
  unfoldable pub scan_parts : ℕ → ℕ → ℕ → Action (LssMaster E) (Option (List ℕ))
  scan_parts zero lss_sub lss_next m = (ok (some []), m)
  scan_parts (suc parts) lss_sub lss_next m =
      let (r, m') = scan_bits 32 0 lss_sub lss_next m in
      elim r [
        | err e ↦ (err e, m')
        | ok id_number ↦
            let lss_next' = (lss_sub + 1) % 4 in
            let (q, m'') = send_fast_scan_message id_number 0 lss_sub lss_next' m' in
            elim q [
              | err e ↦ (err e, m'')
              | ok false ↦ (ok none, m'')
              | ok true ↦
                  let (t, m3) = scan_parts parts (lss_sub + 1) lss_next' m'' in
                  elim t [
                    | err e ↦ (err e, m3)
                    | ok none ↦ (ok none, m3)
                    | ok (some ids) ↦ (ok (some (id_number ∷ ids)), m3)
                  ]
            ]
      ]

  -- `fast_scan`: None stands for (False, None), a list for (True, list).
  unfoldable pub fast_scan : Action (LssMaster E) (Option (List ℕ))
  fast_scan = do
    found ← send_fast_scan_message 0 128 0 0
    if found then scan_parts 4 0 0 else pure none
