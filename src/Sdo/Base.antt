-- ===== src/Sdo/Base.antt =====
-- `SdoBase` with its records, arrays and variables (canopen/sdo/base.py), and the raw value of a
-- variable (canopen/variable.py). Transfers are the methods `upload` and `download` of the node;
-- access by name, streams, and the asynchronous variants, which differ by `await`, are left out.
use canopen_asyncio.Od.Types.{Value, OdVariable, OdObject, ObjectDictionary, Codec}
use canopen_asyncio.Od.DataType
use canopen_asyncio.Od.Dictionary.{od_get, record_get, record_contains, array_get}
use canopen_asyncio.Od.Structs.{struct_type}
use canopen_asyncio.Od.Variable.{bit_length, decode_raw, encode_raw}
use canopen_asyncio.Common.Bytes.{Bytes}
use canopen_asyncio.Common.Dict.{Dict}
use canopen_asyncio.Common.Int.{pos, negsuc}
use canopen_asyncio.Common.Monad.{
  Action, Result, ok, err, pure, raise, lift, ◌>>=◌, key_error, type_error, value_error,
}
use canopen_asyncio.Common.{
  ℕ, zero, suc, ◌+◌, ◌-◌, ◌/◌, Bool, true, false, Option, none, some, List, [], ◌∷◌, ltb, leb, ◌==◌,
  if◌then◌else◌, ◌&&◌, length, take,
}

-- `upload` and `download` of SdoBase, which SdoClient and SdoServer override; the last argument of
-- `download` is `force_segment`.
pub record SdoNode (N : Type 0) : Type 0 where
  pub upload : ℕ → ℕ → Action N Bytes
  pub download : ℕ → ℕ → Bytes → Bool → Action N (Unit {0})

-- An int that is a size or a field of bits.
unfoldable pub as_number : Value → Result ℕ
as_number (Value.int (pos n)) = ok n
as_number (Value.int (negsuc n)) = err value_error
as_number _ = err type_error

-- `ODVariable.fixed_size`
unfoldable pub fixed_size : OdVariable → Bool
fixed_size v = elim (struct_type v.data_type) [ some s ↦ true | none ↦ false ]

-- `SdoVariable._truncate_data`
unfoldable pub truncate_data : OdVariable → Bytes → Bytes
truncate_data v bs =
    let var_size = bit_length v / 8 in
    if fixed_size v && ltb var_size (length bs) then take var_size bs else bs

-- `sorted(subindices)`, of keys that differ.
unfoldable pub insert_sorted : ℕ → List ℕ → List ℕ
insert_sorted n [] = n ∷ []
insert_sorted n (k ∷ keys) = if leb n k then n ∷ (k ∷ keys) else k ∷ insert_sorted n keys

unfoldable pub sorted_keys : Dict OdVariable → List ℕ
sorted_keys [] = []
sorted_keys ((key, v) ∷ entries) = insert_sorted key (sorted_keys entries)

-- `filter(None, keys)`
unfoldable pub nonzero : List ℕ → List ℕ
nonzero [] = []
nonzero (k ∷ keys) = if k == 0 then nonzero keys else k ∷ nonzero keys

-- `range(first, first + count)`
unfoldable pub numbers_from : ℕ → ℕ → List ℕ
numbers_from first zero = []
numbers_from first (suc count) = first ∷ numbers_from (first + 1) count

-- `SdoRecord.__getitem__` and `SdoArray.__getitem__`; a variable has no items.
unfoldable pub sdo_item : OdObject → ℕ → Result OdVariable
sdo_item (OdObject.variable v) subindex = err type_error
sdo_item (OdObject.rec r) subindex = record_get r subindex
sdo_item (OdObject.array a) subindex = array_get a subindex

module _ {N : Type 0} (sdo : SdoNode N) (codec : Codec) where
  -- `SdoVariable.get_data` and `set_data`
  unfoldable pub sdo_get_data : OdVariable → Action N Bytes
  sdo_get_data v = do content ← sdo.upload v.index v.subindex; pure (truncate_data v content)

  unfoldable pub sdo_set_data : OdVariable → Bytes → Action N (Unit {0})
  sdo_set_data v content = sdo.download v.index v.subindex content (v.data_type == DataType.domain)

  -- `Variable.raw`, read and written.
  unfoldable pub get_raw : OdVariable → Action N Value
  get_raw v = do content ← sdo_get_data v; lift (decode_raw codec v content)

  unfoldable pub set_raw : OdVariable → Value → Action N (Unit {0})
  set_raw v value = do content ← lift (encode_raw codec v value); sdo_set_data v content

  unfoldable pub get_number : OdVariable → Action N ℕ
  get_number v = do value ← get_raw v; lift (as_number value)

  -- `SdoRecord.__len__` goes by the dictionary, `SdoArray.__len__` by the node.
  unfoldable pub sdo_length : OdObject → Action N ℕ
  sdo_length (OdObject.variable v) = raise type_error
  sdo_length (OdObject.rec r) = pure (length r.subindices - (if record_contains r 0 then 1 else 0))
  sdo_length (OdObject.array a) = do v ← lift (array_get a 0); get_number v

  -- `SdoRecord.__iter__` and `SdoArray.__iter__`
  unfoldable pub sdo_keys : OdObject → Action N (List ℕ)
  sdo_keys (OdObject.variable v) = raise type_error
  sdo_keys (OdObject.rec r) = pure (nonzero (sorted_keys r.subindices))
  sdo_keys (OdObject.array a) = do
    count ← sdo_length (OdObject.array a)
    pure (numbers_from 1 count)

  -- `SdoRecord.__contains__` and `SdoArray.__contains__`
  unfoldable pub sdo_contains : OdObject → ℕ → Action N Bool
  sdo_contains (OdObject.variable v) subindex = raise type_error
  sdo_contains (OdObject.rec r) subindex = pure (record_contains r subindex)
  sdo_contains (OdObject.array a) subindex = do
    count ← sdo_length (OdObject.array a)
    pure (leb subindex count)

-- `get` of a Mapping: a missing key is None.
unfoldable pub or_none : {A : Type 0} → Result A → Result (Option A)
or_none (ok a) = ok (some a)
or_none (err key_error) = ok none
or_none (err e) = err e

-- `SdoBase.get_variable`
unfoldable pub sdo_get_variable : ObjectDictionary → ℕ → ℕ → Result (Option OdVariable)
sdo_get_variable od index subindex = elim (od_get od index) [
  | err key_error ↦ ok none
  | err e ↦ err e
  | ok (OdObject.variable v) ↦ ok (some v)
  | ok obj ↦ or_none (sdo_item obj subindex)
]
