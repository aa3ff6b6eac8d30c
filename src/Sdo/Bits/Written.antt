-- ===== src/Sdo/Bits/Written.antt =====
-- Bits that are set through the view reach the device (canopen/variable.py).
use canopen_asyncio.Sdo.Bits.{BitsKey, get_bit_key, as_int, bits_read, bits_open, bits_set}
use canopen_asyncio.Sdo.Base.{SdoNode}
use canopen_asyncio.Pdo.Device.{Device, set_raw-put, get_raw-content}
use canopen_asyncio.Od.Variable.BitFields.{BitKey, encode_bits}
use canopen_asyncio.Od.Variable.{is_integer_type}
use canopen_asyncio.Od.Structs.{unsigned, struct_type}
use canopen_asyncio.Od.Types.{OdVariable, Codec}
use canopen_asyncio.Common.Bytes.{le_bytes}
use canopen_asyncio.Common.Int.{ℤ, pos}
use canopen_asyncio.Common.Monad.{ok}
use canopen_asyncio.Common.{ℕ, ◌^◌, ◌<◌, ◌≡◌, arith, true, some}

-- The variable has the type UNSIGNED8, 16, 32 or 64, and the merged value fits it. Setting bits through the view of a
-- device that takes every write gives the merged value, writes nothing else, and a view that is made
-- anew then holds the merged value.
pub bits_open-bits_set :
    {N : Type 0} (sdo : SdoNode N) (codec : Codec) (d : Device N sdo) (v : OdVariable)
    (k merged : ℕ) (raw value : ℤ) (asked : BitsKey) (bits : BitKey) (n : N)
    → struct_type v.data_type ≡ some (unsigned k)
    → is_integer_type v.data_type ≡ true
    → get_bit_key asked ≡ ok bits
    → encode_bits v raw bits value ≡ ok (pos merged)
    → merged < 256 ^ k
    → let n' = d.put n v.index v.subindex (le_bytes k merged) in
      (bits_set sdo codec v raw asked value n ≡ (ok (pos merged), n'))
      × (bits_open sdo codec v n' ≡ (ok (pos merged), n'))
unfolding bits_set bits_open bits_read as_int
bits_open-bits_set sdo codec d v k merged raw value asked bits n t integer keyed encoded small =
    let n' = d.put n v.index v.subindex (le_bytes k merged) in
    (
      ground (arith, keyed, encoded, set_raw-put sdo codec d v k merged n t small),
      ground (
        arith,
        integer,
        get_raw-content sdo codec d v k merged n' t small
            (d.content-put v.index v.subindex (le_bytes k merged) n),
      ),
    )
