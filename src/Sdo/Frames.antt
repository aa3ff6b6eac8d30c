-- ===== src/Sdo/Frames.antt =====
-- Frame layout: `SDO_STRUCT` ("<BHB") and the other formats that the server and client pack with
-- `struct`. A value that does not fit its field raises struct.error.
use canopen_asyncio.Common.{ℕ, ◌+◌, ◌*◌, ◌/◌, ◌%◌, ◌^◌, ◌&&◌, [], ◌∷◌, ltb, if◌then◌else◌}
use canopen_asyncio.Common.Bytes.{Bytes, le_bytes, from_le}
use canopen_asyncio.Common.Monad.{Result, ok, err, struct_error}

-- `SDO_STRUCT.unpack_from(data)`: command, index, subindex.
unfoldable pub unpack_header : Bytes → Result (ℕ × ℕ × ℕ)
unpack_header (command ∷ lo ∷ hi ∷ subindex ∷ rest) = ok (command, lo + 256 * hi, subindex)
unpack_header _ = err struct_error

-- `SDO_STRUCT.pack(command, index, subindex)`
unfoldable pub pack_header : ℕ → ℕ → ℕ → Result Bytes
pack_header command index subindex =
    if ltb command 256 && (ltb index 65536 && ltb subindex 256)
    then ok (command ∷ (index % 256) ∷ (index / 256) ∷ subindex ∷ [])
    else err struct_error

-- `struct.pack("<L", n)`
unfoldable pub pack_u32 : ℕ → Result Bytes
pack_u32 n = if ltb n (2 ^ 32) then ok (le_bytes 4 n) else err struct_error

-- `struct.unpack_from("<L", data, 4)`
unfoldable pub unpack_u32_at_4 : Bytes → Result ℕ
unpack_u32_at_4 (_ ∷ _ ∷ _ ∷ _ ∷ a ∷ b ∷ c ∷ d ∷ rest) = ok (from_le (a ∷ b ∷ c ∷ d ∷ []))
unpack_u32_at_4 _ = err struct_error
