-- ===== src/Od/Variable.antt =====
-- Methods of `ODVariable` (canopen/objectdictionary/__init__.py).
pub mod Coding
pub mod BitFields
pub mod Descriptions
use canopen_asyncio.Common.{
  ℕ, zero, suc, ◌+◌, ◌*◌, ◌/◌, ◌%◌, ◌-◌, ◌<◌, Bool, true, false, ◌||◌, ◌&&◌, ◌^◌, length, Option,
  none, some, List, [], ◌∷◌, ltb, leb, ◌==◌, if◌then◌else◌, bit_and, bit_or, replicate,
}
use canopen_asyncio.Common.Bytes.{Bytes}
use canopen_asyncio.Common.Int.{ℤ, pos, negsuc}
use canopen_asyncio.Common.Monad.{
  Result, ok, err, type_error, value_error, attribute_error, od_error, struct_error, Exn,
}
use canopen_asyncio.Od.Types.{Text, Value, Codec, OdVariable, has_char}
use canopen_asyncio.Od.DataType
use canopen_asyncio.Od.Structs.{
  StructType, struct_type, struct_size, pack_unsigned, pack_signed, unpack_unsigned, unpack_signed,
  unsigned_n_pack, unsigned_n_unpack, integer_n_pack, integer_n_unpack,
}

-- `SIGNED_TYPES + UNSIGNED_TYPES`
unfoldable pub is_integer_type : ℕ → Bool
is_integer_type t =
    t == DataType.integer8
    || t == DataType.integer16
    || t == DataType.integer24
    || t == DataType.integer32
    || t == DataType.integer40
    || t == DataType.integer48
    || t == DataType.integer56
    || t == DataType.integer64
    || t == DataType.unsigned8
    || t == DataType.unsigned16
    || t == DataType.unsigned24
    || t == DataType.unsigned32
    || t == DataType.unsigned40
    || t == DataType.unsigned48
    || t == DataType.unsigned56
    || t == DataType.unsigned64

-- `NUMBER_TYPES`
unfoldable pub is_number_type : ℕ → Bool
unfolding is_integer_type
is_number_type t = is_integer_type t || t == DataType.real32 || t == DataType.real64

-- `len(var)`: the size in bits.
unfoldable pub bit_length : OdVariable → ℕ
unfolding struct_type struct_size
bit_length v = elim (struct_type v.data_type) [ some s ↦ struct_size s * 8 | none ↦ 8 ]

unfoldable pub is_writable : OdVariable → Bool
unfolding has_char
is_writable v = has_char b'w' v.access_type

is_const : Text → Bool
is_const (a ∷ b ∷ c ∷ d ∷ e ∷ []) = a == b'c' && b == b'o' && c == b'n' && d == b's' && e == b't'
is_const _ = false

-- `"r" in access_type or access_type == "const"`
unfoldable pub is_readable : OdVariable → Bool
unfolding has_char is_const
is_readable v = has_char b'r' v.access_type || is_const v.access_type

-- `text.rstrip("\x00")`
unfoldable pub rstrip : Text → Text
rstrip [] = []
rstrip (x ∷ xs) = elim (rstrip xs) [ [] ↦ if x == 0 then [] else x ∷ [] | y ∷ ys ↦ x ∷ y ∷ ys ]

-- `data.decode("ascii", errors="ignore")`
unfoldable pub decode_ascii : Bytes → Text
decode_ascii [] = []
decode_ascii (b ∷ bs) = let rest = decode_ascii bs in if ltb b 128 then b ∷ rest else rest

-- `text.encode("ascii")` raises UnicodeEncodeError, a ValueError.
unfoldable pub encode_ascii : Text → Result Bytes
encode_ascii [] = ok []
encode_ascii (c ∷ cs) = elim (encode_ascii cs) [
  | ok bs ↦ if ltb c 128 then ok (c ∷ bs) else err value_error
  | err e ↦ err e
]

-- `bool(value)`
unfoldable pub truthy : Value → Bool
truthy (Value.int (pos n)) = ltb 0 n
truthy (Value.int (negsuc n)) = true
truthy (Value.str []) = false
truthy (Value.str (c ∷ cs)) = true
truthy (Value.bytes []) = false
truthy (Value.bytes (c ∷ cs)) = true
truthy (Value.real p) = ltb 0 (p % 2 ^ 63)

-- `int(value)`
unfoldable pub to_int : Codec → Value → Result ℤ
to_int c (Value.int z) = ok z
to_int c v = elim (c.int_of v) [ some z ↦ ok z | none ↦ err value_error ]

abbrev pub and_then : {A B : Type 0} → Result A → (A → Result B) → Result B
and_then (ok a) f = f a
and_then (err e) f = err e

-- `except struct.error: raise ...`
abbrev pub on_struct_error : {A : Type 0} → Exn → Result A → Result A
on_struct_error e (err struct_error) = err e
on_struct_error e r = r

-- `STRUCT_TYPES[self.data_type].pack(value)`, behind `value = int(value)` for the integer types.
unfoldable pub struct_pack : Codec → StructType → Value → Result Bytes
struct_pack c StructType.boolean v = ok ((if truthy v then 1 else 0) ∷ [])
struct_pack c (StructType.signed k) v = and_then (to_int c v) (pack_signed k)
struct_pack c (StructType.integer_n k) v = and_then (to_int c v) (integer_n_pack k)
struct_pack c (StructType.unsigned k) v = and_then (to_int c v) (pack_unsigned k)
struct_pack c (StructType.unsigned_n k) v = and_then (to_int c v) (unsigned_n_pack k)
struct_pack c (StructType.real k) v = c.real_pack k v

abbrev int_value : Result ℤ → Result Value
int_value r = and_then r (λ z. ok (Value.int z))

unfoldable pub struct_unpack : Codec → StructType → Bytes → Result Value
struct_unpack c StructType.boolean (b ∷ []) = ok (Value.int (pos (if b == 0 then 0 else 1)))
struct_unpack c StructType.boolean _ = err struct_error
struct_unpack c (StructType.signed k) bs = int_value (unpack_signed k bs)
struct_unpack c (StructType.integer_n k) bs = int_value (integer_n_unpack k bs)
struct_unpack c (StructType.unsigned k) bs = int_value (unpack_unsigned k bs)
struct_unpack c (StructType.unsigned_n k) bs = int_value (unsigned_n_unpack k bs)
struct_unpack c (StructType.real k) bs =
    if length bs == k then ok (Value.real (c.real_unpack k bs)) else err struct_error

unfoldable pub decode_raw : Codec → OdVariable → Bytes → Result Value
decode_raw c v bs =
    if v.data_type == DataType.visible_string
    then ok (Value.str (rstrip (decode_ascii bs)))
    else if v.data_type == DataType.unicode_string
    then ok (Value.str (rstrip (c.utf16_decode bs)))
    else elim (struct_type v.data_type) [
      | some s ↦ on_struct_error od_error (struct_unpack c s bs)
      | none ↦ ok (Value.bytes bs)
    ]

-- `bytes(value)`: of an int, that many zeros.
unfoldable pub to_bytes : Value → Result Bytes
to_bytes (Value.int (pos n)) = ok (replicate n 0)
to_bytes (Value.int (negsuc n)) = err value_error
to_bytes (Value.bytes b) = ok b
to_bytes _ = err type_error

-- The branches of `encode_raw` for what is no bytes. The bounds `min` and `max` are only logged.
unfoldable pub encode_value : Codec → OdVariable → Value → Result Bytes
encode_value c v x =
    if v.data_type == DataType.visible_string
    then elim x [ Value.str t ↦ encode_ascii t | _ ↦ err attribute_error ]
    else if v.data_type == DataType.unicode_string
    then elim x [
      | Value.str t ↦ elim (c.utf16_encode t) [ some b ↦ ok b | none ↦ err value_error ]
      | _ ↦ err attribute_error
    ]
    else if v.data_type == DataType.domain || v.data_type == DataType.octet_string
    then to_bytes x
    else elim (struct_type v.data_type) [
      | some s ↦ on_struct_error value_error (struct_pack c s x)
      | none ↦ if v.data_type == 0 then err od_error else err type_error
    ]

unfoldable pub encode_raw : Codec → OdVariable → Value → Result Bytes
encode_raw c v (Value.bytes b) = ok b
encode_raw c v x = encode_value c v x
