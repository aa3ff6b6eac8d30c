-- ===== src/Od/Structs.antt =====
-- The packers of `ODVariable.STRUCT_TYPES`: `struct.Struct` for the formats that it has, and the
-- classes UnsignedN and IntegerN of canopen/objectdictionary/datatypes.py for the other widths.
pub mod RoundTrip
use canopen_asyncio.Common.{
  ℕ, ◌+◌, ◌-◌, ◌*◌, ◌/◌, ◌^◌, ◌++◌, Bool, Option, none, some, ltb, leb, ◌==◌, if◌then◌else◌,
  bit_and, length, take, replicate, get_elem?,
}
use canopen_asyncio.Common.Bytes.{Bytes, le_bytes, from_le}
use canopen_asyncio.Common.Int.{ℤ, pos, negsuc}
use canopen_asyncio.Common.Monad.{Result, ok, err, struct_error, index_error}
use canopen_asyncio.Od.DataType

-- The entries of STRUCT_TYPES, with their size in bytes.
pub data StructType : Type 0 where
  boolean : StructType
  signed : ℕ → StructType
  integer_n : ℕ → StructType
  unsigned : ℕ → StructType
  unsigned_n : ℕ → StructType
  real : ℕ → StructType

unfoldable pub struct_type : ℕ → Option StructType
struct_type t =
    if t == DataType.boolean
    then some boolean
    else if t == DataType.integer8
    then some (signed 1)
    else if t == DataType.integer16
    then some (signed 2)
    else if t == DataType.integer24
    then some (integer_n 3)
    else if t == DataType.integer32
    then some (signed 4)
    else if t == DataType.integer40
    then some (integer_n 5)
    else if t == DataType.integer48
    then some (integer_n 6)
    else if t == DataType.integer56
    then some (integer_n 7)
    else if t == DataType.integer64
    then some (signed 8)
    else if t == DataType.unsigned8
    then some (unsigned 1)
    else if t == DataType.unsigned16
    then some (unsigned 2)
    else if t == DataType.unsigned24
    then some (unsigned_n 3)
    else if t == DataType.unsigned32
    then some (unsigned 4)
    else if t == DataType.unsigned40
    then some (unsigned_n 5)
    else if t == DataType.unsigned48
    then some (unsigned_n 6)
    else if t == DataType.unsigned56
    then some (unsigned_n 7)
    else if t == DataType.unsigned64
    then some (unsigned 8)
    else if t == DataType.real32
    then some (real 4)
    else if t == DataType.real64
    then some (real 8)
    else none

unfoldable pub struct_size : StructType → ℕ
struct_size boolean = 1
struct_size (signed k) = k
struct_size (integer_n k) = k
struct_size (unsigned k) = k
struct_size (unsigned_n k) = k
struct_size (real k) = k

-- Bytes of the `struct` format that UnsignedN and IntegerN choose for their width.
unfoldable pub container : ℕ → ℕ
container k = if leb k 1 then 1 else if leb k 2 then 2 else if leb k 4 then 4 else 8

-- `struct.pack` of one of "B", "<H", "<L", "<Q", which are `k` bytes long.
unfoldable pub pack_unsigned : ℕ → ℤ → Result Bytes
pack_unsigned k (pos n) = if ltb n (256 ^ k) then ok (le_bytes k n) else err struct_error
pack_unsigned k (negsuc n) = err struct_error

-- `struct.pack` of one of "b", "<h", "<l", "<q": two's complement.
unfoldable pub pack_signed : ℕ → ℤ → Result Bytes
pack_signed k (pos n) = if ltb n (256 ^ k / 2) then ok (le_bytes k n) else err struct_error
pack_signed k (negsuc n) =
    if ltb n (256 ^ k / 2) then ok (le_bytes k (256 ^ k - (n + 1))) else err struct_error

unfoldable pub unpack_unsigned : ℕ → Bytes → Result ℤ
unpack_unsigned k bs = if length bs == k then ok (pos (from_le bs)) else err struct_error

-- The integer that a pattern of `k` bytes stands for.
unfoldable pub to_signed : ℕ → ℕ → ℤ
to_signed k v = if ltb v (256 ^ k / 2) then pos v else negsuc (256 ^ k - v - 1)

unfoldable pub unpack_signed : ℕ → Bytes → Result ℤ
unfolding to_signed
unpack_signed k bs = if length bs == k then ok (to_signed k (from_le bs)) else err struct_error

-- `super().pack(*v)[:self.size]`
abbrev sliced : ℕ → Result Bytes → Result Bytes
sliced k (ok bs) = ok (take k bs)
sliced k (err e) = err e

unfoldable pub unsigned_n_pack : ℕ → ℤ → Result Bytes
unfolding container pack_unsigned
unsigned_n_pack k z = sliced k (pack_unsigned (container k) z)

unfoldable pub unsigned_n_unpack : ℕ → Bytes → Result ℤ
unfolding container unpack_unsigned
unsigned_n_unpack k bs = unpack_unsigned (container k) (bs ++ replicate (container k - k) 0)

unfoldable pub integer_n_pack : ℕ → ℤ → Result Bytes
unfolding container pack_signed
integer_n_pack k z = sliced k (pack_signed (container k) z)

-- `buffer[self.size - 1]` raises IndexError on a short buffer.
unfoldable pub integer_n_unpack : ℕ → Bytes → Result ℤ
unfolding container unpack_signed
integer_n_unpack k bs = elim (get_elem? bs (k - 1)) [
  | none ↦ err index_error
  | some top ↦
      let fill = if ltb 0 (bit_and top 0x80) then 0xff else 0 in
      unpack_signed (container k) (bs ++ replicate (container k - k) fill)
]
