-- ===== src/Pdo.antt =====
-- PDO maps (canopen/pdo/base.py): the variables that are mapped, and transmission. `sent` holds the
-- frames that the network was given. Times are in milliseconds. Callbacks, look-up in a map by name and
-- the default COB-ID are left out.
use canopen_asyncio.Common.Bytes.{Bytes}
use canopen_asyncio.Common.Monad.{err, ok, value_error, key_error, Result}
use canopen_asyncio.Od.Types.{array, rec, variable, OdObject, ObjectDictionary, OdVariable}
use canopen_asyncio.Od.Dictionary.{array_get, record_get, od_get}
use canopen_asyncio.Od.Variable.{bit_length}
pub mod Layout
pub mod Exchange
pub mod Values
pub mod Fields
pub mod Splicing
pub mod Setting
pub mod Mapped
pub mod Config
pub mod Saving
pub mod Reading
pub mod Words
pub mod Device
pub mod Entries
pub mod Restoring
pub mod RoundTrip
pub mod Maps
use canopen_asyncio.Common.{
  ℕ, ◌+◌, ◌/◌, Bool, true, false, not, ◌&&◌, Option, none, some, List, [], ◌∷◌, ◌++◌, ◌==◌,
  if◌then◌else◌, replicate, ltb,
}
use canopen_asyncio.Common.Int.{ℤ, pos, difference}

-- `PdoVariable`
pub record PdoVariable : Type 0 where
  pub od : OdVariable
  pub subindex : ℕ
  pub offset : ℕ
  pub length : ℕ

-- A frame, and whether it is a remote request.
pub record PdoFrame : Type 0 where
  pub can_id : ℕ
  pub payload : Bytes
  pub remote : Bool

-- A task of `send_periodic`.
pub record PdoTask : Type 0 where
  pub can_id : ℕ
  pub payload : Bytes
  pub period : ℤ

pub record PdoMap : Type 0 where
  pub enabled : Bool
  pub cob_id : Option ℕ
  pub rtr_allowed : Bool
  pub trans_type : Option ℕ
  pub inhibit_time : Option ℕ
  pub event_timer : Option ℕ
  pub sync_start_value : Option ℕ
  pub variables : List PdoVariable
  pub bit_count : ℕ
  pub payload : Bytes
  pub timestamp : Option ℕ
  pub period : Option ℤ
  pub is_received : Bool
  pub task : Option PdoTask
  pub sent : List PdoFrame

-- `_update_data_size`
unfoldable pub update_data_size : PdoMap → PdoMap
update_data_size m = record m { payload = replicate ((m.bit_count + 7) / 8) 0 }

-- `is_periodic`
unfoldable pub is_periodic : PdoMap → Bool
is_periodic m = elim m.period [
  | some p ↦ true
  | none ↦ elim m.trans_type [ some t ↦ ltb t 0xF1 | none ↦ false ]
]

unfoldable pub on_message : ℕ → Bytes → ℕ → PdoMap → PdoMap
on_message can_id content now m = elim m.cob_id [
  | none ↦ m
  | some cob_id ↦ elim m.task [
    | some t ↦ m
    | none ↦
        if can_id == cob_id
        then record m {
          is_received = true;
          payload = content;
          period = elim m.timestamp [ some then_ ↦ some (difference now then_) | none ↦ m.period ];
          timestamp = some now;
        }
        else m
  ]
]

-- `clear`
unfoldable pub clear : PdoMap → PdoMap
clear m = record m { variables = []; bit_count = 0 }

-- `_get_variable`, as a variable that is not placed.
unfoldable pub get_variable : ObjectDictionary → ℕ → ℕ → Result OdVariable
get_variable od index subindex = elim (od_get od index) [
  | err e ↦ err e
  | ok (OdObject.variable v) ↦ ok v
  | ok (OdObject.rec r) ↦ record_get r subindex
  | ok (OdObject.array a) ↦ array_get a subindex
]

-- The variable at its place: a subindex that is given is forced, and so is a length.
unfoldable pub placed : ℕ → Option ℕ → ℕ → OdVariable → PdoVariable
placed subindex length bit_count v = record {
  od = v;
  subindex = if subindex == 0 then v.subindex else subindex;
  offset = bit_count;
  length = elim length [ some l ↦ l | none ↦ bit_length v ];
}

-- `add_variable`: a KeyError is logged only.
unfoldable pub add_variable :
    ObjectDictionary → ℕ → ℕ → Option ℕ → PdoMap → Result (Option PdoVariable) × PdoMap
add_variable od index subindex length m = elim (get_variable od index subindex) [
  | ok v ↦
      let var = placed subindex length m.bit_count v in
      (
        ok (some var),
        update_data_size (record m {
          variables = m.variables ++ (var ∷ []);
          bit_count = m.bit_count + var.length;
        }),
      )
  | err key_error ↦ (ok none, update_data_size m)
  | err e ↦ (err e, m)
]

-- A COB-ID that is not None and not 0.
unfoldable pub assigned : PdoMap → Option ℕ
assigned m = elim m.cob_id [ some c ↦ if c == 0 then none else some c | none ↦ none ]

-- `transmit`
unfoldable pub pdo_transmit : PdoMap → Result (Unit {0}) × PdoMap
pdo_transmit m = elim (assigned m) [
  | none ↦ (err value_error, m)
  | some c ↦ (
    ok tt,
    record m { sent = m.sent ++ (record { can_id = c; payload = m.payload; remote = false } ∷ []) },
  )
]

-- `stop`
unfoldable pub pdo_stop : PdoMap → PdoMap
pdo_stop m = record m { task = none }

-- A period that is not None and not 0.
unfoldable pub usable : Option ℤ → Option ℤ
usable none = none
usable (some (pos n)) = if n == 0 then none else some (pos n)
usable (some z) = some z

-- `start`
unfoldable pub pdo_start : Option ℤ → PdoMap → Result (Unit {0}) × PdoMap
pdo_start period m =
    let m' = record (pdo_stop m) { period = elim period [ some p ↦ some p | none ↦ m.period ] } in
    elim (usable m'.period) [
      | none ↦ (err value_error, m')
      | some p ↦ elim (assigned m') [
        | none ↦ (err value_error, m')
        | some c ↦ (
          ok tt,
          record m' { task = some (record { can_id = c; payload = m'.payload; period = p }) },
        )
      ]
    ]

-- `update`
unfoldable pub pdo_update : PdoMap → PdoMap
pdo_update m = elim m.task [
  | none ↦ m
  | some t ↦ record m { task = some (record t { payload = m.payload }) }
]

-- `remote_request`
unfoldable pub remote_request : PdoMap → PdoMap
remote_request m = elim (assigned m) [
  | none ↦ m
  | some c ↦
      if m.enabled && m.rtr_allowed
      then record m { sent = m.sent ++ (record { can_id = c; payload = []; remote = true } ∷ []) }
      else m
]
