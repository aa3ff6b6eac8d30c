-- ===== src/Od/Variable/Coding.antt =====
-- `decode_raw` reads back what `encode_raw` wrote, and `LocalNode` what was stored.
use canopen_asyncio.Common.Bytes.{Bytes}
use canopen_asyncio.Common.Int.{pos, negsuc, ℤ}
use canopen_asyncio.Common.Monad.{err, struct_error, value_error, Result, Exn, ok}
use canopen_asyncio.Od.Structs.RoundTrip.{
  unsigned_n_unpack-unsigned_n_pack, unpack_signed-pack_signed, unpack_unsigned-pack_unsigned,
}
use canopen_asyncio.Od.Types.{Value, OdVariable, Codec}
use canopen_asyncio.Od.Variable.{
  on_struct_error, encode_raw, encode_value, decode_raw, struct_unpack, struct_pack, to_int,
}
use canopen_asyncio.Od.Structs.{
  unsigned_n_pack, pack_unsigned, real, unsigned_n, unsigned, integer_n, signed, boolean,
  StructType, container, struct_type,
}
use canopen_asyncio.Common.{
  ◌==◌, Bool, leb→le, leb, ℕ, ◌≡◌, refl, arith, ◌%◌, ◌^◌, some, true, false,
}

-- The number that an integer type gives back.
unfoldable pub kept : StructType → ℤ → ℤ
kept (unsigned_n k) (pos n) = pos (n % 256 ^ k)
kept s z = z

-- The struct types of integers that are packed by `struct` or by UnsignedN.
unfoldable pub is_plain : StructType → Bool
is_plain (signed k) = true
is_plain (unsigned k) = true
is_plain (unsigned_n k) = leb k (container k)
is_plain _ = false

unsigned_n_pack-negsuc : (k n : ℕ) → unsigned_n_pack k (negsuc n) ≡ err struct_error
unfolding unsigned_n_pack pack_unsigned
unsigned_n_pack-negsuc k n = refl

struct_unpack-struct_pack :
    (c : Codec) (s : StructType) (z : ℤ) (bs : Bytes)
    → is_plain s ≡ true
    → struct_pack c s (Value.int z) ≡ ok bs
    → struct_unpack c s bs ≡ ok (Value.int (kept s z))
unfolding struct_unpack struct_pack kept is_plain to_int
struct_unpack-struct_pack c (signed k) z bs p h = ground (arith, unpack_signed-pack_signed k z bs h)
struct_unpack-struct_pack c (unsigned k) z bs p h =
    ground (arith, unpack_unsigned-pack_unsigned k z bs h)
struct_unpack-struct_pack c (unsigned_n k) (pos n) bs p h =
    ground (arith, unsigned_n_unpack-unsigned_n_pack k n bs (leb→le k (container k) p) h)
struct_unpack-struct_pack c (unsigned_n k) (negsuc n) bs p h =
    absurd (ground (arith, unsigned_n_pack-negsuc k n))
struct_unpack-struct_pack c boolean z bs p h = absurd (ground arith)
struct_unpack-struct_pack c (integer_n k) z bs p h = absurd (ground arith)
struct_unpack-struct_pack c (real k) z bs p h = absurd (ground arith)

-- No text or byte string has a struct type.
pub struct_type-strings :
    (t : ℕ) (s : StructType)
    → struct_type t ≡ some s
    → ((t == 9) ≡ false) × ((t == 11) ≡ false) × ((t == 15) ≡ false) × ((t == 10) ≡ false)
unfolding struct_type
struct_type-strings t s h = (ground arith, ground arith, ground arith, ground arith)

on_struct_error-ok :
    (e : Exn) (r : Result Bytes) (b : Bytes) → on_struct_error e r ≡ ok b → r ≡ ok b
on_struct_error-ok e (ok a) b h = h
on_struct_error-ok e (err x) b h = ground arith

-- A variable of an integer type that `struct` or UnsignedN packs: what `encode_raw` makes of an int
-- is decoded as that int, but for an unsigned type of 24, 40, 48 or 56 bits as its remainder.
pub decode_raw-encode_raw :
    (c : Codec) (v : OdVariable) (s : StructType) (z : ℤ) (bs : Bytes)
    → struct_type v.data_type ≡ some s
    → is_plain s ≡ true
    → encode_raw c v (Value.int z) ≡ ok bs
    → decode_raw c v bs ≡ ok (Value.int (kept s z))
unfolding decode_raw encode_raw encode_value
decode_raw-encode_raw c v s z bs t p h =
    let (visible, unicode, domain_type, octets) = struct_type-strings v.data_type s t in
    let raised : on_struct_error value_error (struct_pack c s (Value.int z)) ≡ ok bs =
      ground arith in
    let packed = on_struct_error-ok value_error (struct_pack c s (Value.int z)) bs raised in
    ground (arith, struct_unpack-struct_pack c s z bs p packed)
