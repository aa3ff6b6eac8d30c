-- ===== src/Sdo/Bits.antt =====
-- `Bits` of canopen/variable.py, over a variable that is accessed by SDO. Out of an event loop the value is
-- read when the view is made, and written when a bit is set. Offsets of a slice are not negative.
pub mod Written
use canopen_asyncio.Sdo.Base.{SdoNode, get_raw, set_raw}
use canopen_asyncio.Od.Variable.BitFields.{BitKey, offsets, decode_bits, encode_bits}
use canopen_asyncio.Od.Variable.{is_integer_type}
use canopen_asyncio.Od.Types.{Value, OdVariable, Codec}
use canopen_asyncio.Common.Int.{ℤ}
use canopen_asyncio.Common.Monad.{
  Action, Result, ok, err, pure, lift, require, ◌>>=◌, ◌>>◌, assertion_error, index_error,
}
use canopen_asyncio.Common.{
  ℕ, zero, suc, ◌+◌, Option, none, some, List, [], ◌∷◌, ◌==◌, leb, if◌then◌else◌,
}

-- The keys of `__getitem__`; the parts of a slice are start, stop and step.
pub data BitsKey : Type 0 where
  bit : ℕ → BitsKey
  slice : Option ℕ → Option ℕ → Option ℕ → BitsKey
  key : BitKey → BitsKey

-- `range(start, stop, step)`, a step of 0 being none; the fuel is the length that there can be.
unfoldable pub range_to : ℕ → ℕ → ℕ → ℕ → List ℕ
range_to zero start stop step = []
range_to (suc fuel) start stop step =
    let rest = range_to fuel (start + step) stop step in if leb stop start then [] else start ∷ rest

-- `n or default`
unfoldable pub or_default : Option ℕ → ℕ → ℕ
or_default none d = d
or_default (some n) d = if n == 0 then d else n

-- `Bits._get_bits`
unfoldable pub get_bit_key : BitsKey → Result BitKey
get_bit_key (bit n) = ok (offsets (n ∷ []))
get_bit_key (slice start none step) = err index_error
get_bit_key (slice start (some stop) step) =
    ok (offsets (range_to stop (or_default start 0) stop (or_default step 1)))
get_bit_key (key k) = ok k

unfoldable pub as_int : Value → Result ℤ
as_int (Value.int z) = ok z
as_int _ = err assertion_error

module _ {N : Type 0} (sdo : SdoNode N) (codec : Codec) (v : OdVariable) where
  -- `Bits.read`
  unfoldable pub bits_read : Action N ℤ
  bits_read = do value ← get_raw sdo codec v; lift (as_int value)

  -- `Bits.__init__`, the raw value that the view holds.
  unfoldable pub bits_open : Action N ℤ
  bits_open = do require (is_integer_type v.data_type) assertion_error; bits_read

  -- `Bits.__getitem__`
  unfoldable pub bits_get : ℤ → BitsKey → Result ℕ
  bits_get raw k = elim (get_bit_key k) [ ok bits ↦ decode_bits v raw bits | err e ↦ err e ]

  -- `Bits.__setitem__`, with the write of the new value, which the view then holds.
  unfoldable pub bits_set : ℤ → BitsKey → ℤ → Action N ℤ
  bits_set raw k value = do
    bits ← lift (get_bit_key k)
    merged ← lift (encode_bits v raw bits value)
    set_raw sdo codec v (Value.int merged)
    pure merged
