-- ===== src/Node/Local.antt =====
-- `LocalNode` (canopen/node/local.py): access to its data by index and subindex.
pub mod Store
use canopen_asyncio.Common.{
  ℕ, ◌*◌, Bool, not, ◌&&◌, Option, none, some, List, [], ◌∷◌, ◌==◌, if◌then◌else◌, length,
}
use canopen_asyncio.Common.Bytes.{Bytes}
use canopen_asyncio.Common.Dict.{Dict, lookup, insert}
use canopen_asyncio.Common.Monad.{Action, Result, ok, err, sdo_aborted, ◌>>◌, lift, pure}
use canopen_asyncio.Od.Types.{Value, Codec, OdVariable, OdObject, ObjectDictionary}
use canopen_asyncio.Od.Variable.{
  is_readable, is_writable, is_number_type, bit_length, encode_raw, and_then,
}
use canopen_asyncio.Od.Dictionary.{
  od_get, od_contains, record_get, record_contains, array_get, array_contains,
}
use canopen_asyncio.Nmt.{NmtSlave, on_write}

-- A registered read callback: None, a value, or an exception, which depends on its arguments alone.
abbrev pub ReadCallback : Type 0
ReadCallback = ℕ → ℕ → OdVariable → Result (Option Value)

-- The NMT slave registers `on_write` first; the application adds callbacks that may raise. What
-- those do to the application's own state is not seen here; they leave the node alone.
pub data WriteCallback : Type 0 where
  nmt_on_write : WriteCallback
  user : (ℕ → ℕ → OdVariable → Bytes → Result (Unit {0})) → WriteCallback

pub record LocalNode : Type 0 where
  pub id : ℕ
  pub object_dictionary : ObjectDictionary
  pub data_store : Dict (Dict Bytes)
  pub read_callbacks : List ReadCallback
  pub write_callbacks : List WriteCallback
  pub nmt : NmtSlave
  -- How the interpreter codes floats and text.
  pub codec : Codec

unfoldable pub find_object : ObjectDictionary → ℕ → ℕ → Result OdVariable
find_object od index subindex =
    if not (od_contains od index) then err (sdo_aborted 0x06020000) else elim (od_get od index) [
      | err e ↦ err e
      | ok (OdObject.variable v) ↦ ok v
      | ok (OdObject.rec r) ↦
          if record_contains r subindex then record_get r subindex else err (sdo_aborted 0x06090011)
      | ok (OdObject.array a) ↦
          if array_contains a subindex then array_get a subindex else err (sdo_aborted 0x06090011)
    ]

-- The first read callback that answers.
unfoldable pub try_callbacks : List ReadCallback → ℕ → ℕ → OdVariable → Result (Option Value)
try_callbacks [] index subindex obj = ok none
try_callbacks (callback ∷ rest) index subindex obj = elim (callback index subindex obj) [
  | ok none ↦ try_callbacks rest index subindex obj
  | ok (some v) ↦ ok (some v)
  | err e ↦ err e
]

-- `self.data_store[index][subindex]`
unfoldable pub stored : Dict (Dict Bytes) → ℕ → ℕ → Option Bytes
stored d index subindex = elim (lookup index d) [ none ↦ none | some inner ↦ lookup subindex inner ]

-- The stored data, else the value, else the default.
unfoldable pub stored_or_default : LocalNode → ℕ → ℕ → OdVariable → Result Bytes
stored_or_default n index subindex obj = elim (stored n.data_store index subindex) [
  | some b ↦ ok b
  | none ↦ elim obj.value [
    | some v ↦ encode_raw n.codec obj v
    | none ↦ elim obj.default [
      | some v ↦ encode_raw n.codec obj v
      | none ↦ err (sdo_aborted 0x060A0023)
    ]
  ]
]

unfoldable pub read_object : LocalNode → ℕ → ℕ → OdVariable → Result Bytes
read_object n index subindex obj = elim (try_callbacks n.read_callbacks index subindex obj) [
  | err e ↦ err e
  | ok (some v) ↦ encode_raw n.codec obj v
  | ok none ↦ stored_or_default n index subindex obj
]

unfoldable pub get_data : LocalNode → ℕ → ℕ → Bool → Result Bytes
get_data n index subindex check_readable =
    and_then (find_object n.object_dictionary index subindex) (λ obj.
      if check_readable && not (is_readable obj)
      then err (sdo_aborted 0x06010001)
      else read_object n index subindex obj)

-- `self._write_callbacks`, in order, up to the first exception.
unfoldable pub run_callbacks :
    List WriteCallback → ℕ → ℕ → OdVariable → Bytes → Action NmtSlave (Unit {0})
run_callbacks [] index subindex obj bs = pure tt
run_callbacks (nmt_on_write ∷ rest) index subindex obj bs = do
  on_write index bs
  run_callbacks rest index subindex obj bs
run_callbacks (user f ∷ rest) index subindex obj bs = do
  lift (f index subindex obj bs)
  run_callbacks rest index subindex obj bs

-- `self.data_store.setdefault(index, {})` and `self.data_store[index][subindex] = bytes(data)`
unfoldable pub store : Dict (Dict Bytes) → ℕ → ℕ → Bytes → Dict (Dict Bytes)
store d index subindex bs = elim (lookup index d) [
  | none ↦ insert index ((subindex, bs) ∷ []) d
  | some inner ↦ insert index (insert subindex bs inner) d
]

-- The end of `set_data`: the callbacks, then the store.
unfoldable pub write_object : ℕ → ℕ → OdVariable → Bytes → Action LocalNode (Unit {0})
write_object index subindex obj bs n =
    let (r, nmt') = run_callbacks n.write_callbacks index subindex obj bs n.nmt in
    let n' = record n { nmt = nmt' } in
    elim r [
      | ok _ ↦ (ok tt, record n' { data_store = store n.data_store index subindex bs })
      | err e ↦ (err e, n')
    ]

unfoldable pub set_data : ℕ → ℕ → Bytes → Bool → Action LocalNode (Unit {0})
set_data index subindex bs check_writable n =
    elim (find_object n.object_dictionary index subindex) [
      | err e ↦ (err e, n)
      | ok obj ↦
          if check_writable && not (is_writable obj)
          then (err (sdo_aborted 0x06010002), n)
          else if is_number_type obj.data_type && not (8 * length bs == bit_length obj)
          then (err (sdo_aborted 0x06070010), n)
          else write_object index subindex obj bs n
    ]
