-- ===== src/Pdo/Values.antt =====
-- The value of a mapped variable in the message of its PDO (canopen/pdo/base.py): `get_data` and
-- `set_data` of PdoVariable, on byte fields and on bit fields.
use canopen_asyncio.Od.DataType.{unsigned8}
use canopen_asyncio.Od.Variable.{and_then, bit_length}
use canopen_asyncio.Pdo.{pdo_update, PdoMap, PdoVariable}
use canopen_asyncio.Common.{
  ℕ, zero, suc, ◌+◌, ◌-◌, ◌*◌, ◌/◌, ◌%◌, ◌^◌, Bool, true, false, ◌||◌, ◌&&◌, not, none, some, ◌++◌,
  ltb, leb, ◌==◌, if◌then◌else◌, length, take, drop, bit_and,
}
use canopen_asyncio.Common.Int.{shift_right, shift_left, low_bits, or_bits, ℤ, pos, negsuc}
use canopen_asyncio.Common.Bytes.{Bytes}
use canopen_asyncio.Common.Monad.{
  Action, Result, ok, err, key_error, struct_error, type_error, value_error,
}
use canopen_asyncio.Od.DataType
use canopen_asyncio.Od.Structs.{
  StructType, integer_n_unpack, integer_n_pack, unsigned_n_unpack, unsigned_n_pack, unpack_signed,
  unpack_unsigned, pack_signed, pack_unsigned, container, struct_size, struct_type, real, signed,
  unsigned, integer_n, unsigned_n,
}

-- `STRUCT_TYPES[data_type]`, a BOOLEAN being taken as an UNSIGNED8.
unfoldable pub bit_struct : ℕ → Result StructType
bit_struct data_type =
    elim (struct_type (if data_type == DataType.boolean then DataType.unsigned8 else data_type)) [
      | some s ↦ ok s
      | none ↦ err key_error
    ]

-- `od_struct.pack` and `od_struct.unpack` of an int; a float has no bit operations.
unfoldable pub pack_int : StructType → ℤ → Result Bytes
pack_int (signed k) z = pack_signed k z
pack_int (integer_n k) z = integer_n_pack k z
pack_int (unsigned k) z = pack_unsigned k z
pack_int (unsigned_n k) z = unsigned_n_pack k z
pack_int _ z = err type_error

unfoldable pub unpack_int : StructType → Bytes → Result ℤ
unpack_int (signed k) bs = unpack_signed k bs
unpack_int (integer_n k) bs = integer_n_unpack k bs
unpack_int (unsigned k) bs = unpack_unsigned k bs
unpack_int (unsigned_n k) bs = unsigned_n_unpack k bs
unpack_int _ bs = err type_error

-- The `struct` format behind a type: UnsignedN and IntegerN override neither `unpack_from` nor
-- `pack_into`, which go by the wider format.
unfoldable pub native_struct : StructType → StructType
native_struct (integer_n k) = signed (container k)
native_struct (unsigned_n k) = unsigned (container k)
native_struct s = s

-- `od_struct.unpack_from(payload, at)[0]`
unfoldable pub unpack_from : StructType → Bytes → ℕ → Result ℤ
unpack_from s payload at =
    let size = struct_size (native_struct s) in
    if leb (at + size) (length payload)
    then unpack_int (native_struct s) (take size (drop at payload))
    else err struct_error

-- `payload[at:at + len(content)] = content`
unfoldable pub spliced : Bytes → ℕ → Bytes → Bytes
spliced payload at content = take at payload ++ (content ++ drop (at + length content) payload)

-- `od_struct.pack_into(payload, at, z)`
unfoldable pub pack_into : StructType → Bytes → ℕ → ℤ → Result Bytes
pack_into s payload at z = elim (pack_int (native_struct s) z) [
  | err e ↦ err e
  | ok content ↦
      if leb (at + length content) (length payload)
      then ok (spliced payload at content)
      else err struct_error
]

-- `od_struct.format.islower()`
unfoldable pub is_lower : StructType → Bool
is_lower (signed k) = true
is_lower (integer_n k) = true
is_lower (real k) = true
is_lower _ = false

-- The sign of a bit field: the test shifts by length - 1, which raises on a length of 0.
unfoldable pub extend_sign : StructType → ℕ → ℕ → Result ℤ
extend_sign s zero content = if is_lower s then err value_error else ok (pos content)
extend_sign s (suc n) content =
    if is_lower s && ltb (2 ^ n) content
    then ok (negsuc (2 ^ suc n - content - 1))
    else ok (pos content)

-- `if bit_offset or self.length % 8`
unfoldable pub is_bit_field : PdoVariable → Bool
is_bit_field v = not (v.offset % 8 == 0) || not (v.length % 8 == 0)

-- The branch of `get_data` for bit fields.
unfoldable pub get_bits : PdoVariable → Bytes → Result Bytes
get_bits v payload = and_then (bit_struct v.od.data_type) (λ s.
    and_then (unpack_from s payload (v.offset / 8)) (λ z.
      and_then (extend_sign s v.length (low_bits (shift_right z (v.offset % 8)) v.length))
        (λ content. pack_int s content)))

-- `PdoVariable.get_data`, on the data of the PDO.
unfoldable pub pdo_get_data : PdoVariable → Bytes → Result Bytes
pdo_get_data v payload =
    if is_bit_field v
    then get_bits v payload
    else ok (take (bit_length v.od / 8) (drop (v.offset / 8) payload))

-- The bits of the field in a value that is `width` bits wide, and all other bits of it.
unfoldable pub field_mask : ℕ → ℕ → ℕ → ℕ
field_mask width bit_offset len = bit_and ((2 ^ len - 1) * 2 ^ bit_offset) (2 ^ width - 1)

-- `~field & full`, where all bits of the field are bits of `full`.
unfoldable pub other_mask : ℕ → ℕ → ℕ → ℕ
other_mask width bit_offset len = 2 ^ width - 1 - field_mask width bit_offset len

-- The current value with the field cleared, or-ed with the new one.
unfoldable pub merged : ℕ → ℕ → ℕ → ℤ → ℤ → ℤ
merged width bit_offset len old_value value =
    or_bits (shift_left value bit_offset)
      (bit_and (low_bits old_value width) (other_mask width bit_offset len))

-- The branch of `set_data` for bit fields.
unfoldable pub set_bits : PdoVariable → Bytes → Bytes → Result Bytes
set_bits v content payload = and_then (bit_struct v.od.data_type) (λ s.
    and_then (unpack_int s (take (bit_length v.od / 8) (drop (v.offset / 8) payload))) (λ old_value.
      and_then (unpack_int s content) (λ value.
        pack_into s payload (v.offset / 8)
          (merged (bit_length v.od) (v.offset % 8) v.length old_value value))))

unfoldable pub set_payload : PdoVariable → Bytes → Bytes → Result Bytes
set_payload v content payload =
    if is_bit_field v
    then set_bits v content payload
    else ok (spliced payload (v.offset / 8) content)

-- `PdoVariable.set_data`, with the update of a running task.
unfoldable pub pdo_set_data : PdoVariable → Bytes → Action PdoMap (Unit {0})
pdo_set_data v content m = elim (set_payload v content m.payload) [
  | err e ↦ (err e, m)
  | ok payload ↦ (ok tt, pdo_update (record m { payload = payload }))
]
