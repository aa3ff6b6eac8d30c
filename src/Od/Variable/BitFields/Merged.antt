-- ===== src/Od/Variable/BitFields/Merged.antt =====
-- Bits that are set are read back (canopen/objectdictionary/__init__.py).
use canopen_asyncio.Od.Variable.BitFields.{
  BitKey, key_offsets, lowest, bits_mask, masked_bits, other_bits, decode_bits, encode_bits,
}
use canopen_asyncio.Od.Types.{OdVariable}
use canopen_asyncio.Common.Merging.{
  IsWithin, merged_lem, merged_below, masked-IsWithin, unmasked-IsWithin, or-within, or-below,
}
use canopen_asyncio.Common.Int.{ℤ, pos, negsuc, shift_left, or_bits}
use canopen_asyncio.Common.Monad.{ok}
use canopen_asyncio.Common.{ℕ, ◌≡◌, ap, arith, List}

masked_bits-IsWithin : (z : ℤ) (mask : ℕ) → IsWithin (masked_bits z mask) mask
unfolding masked_bits
masked_bits-IsWithin (pos x) mask = masked-IsWithin mask x mask (omega arith)
masked_bits-IsWithin (negsuc x) mask = unmasked-IsWithin mask x mask (omega arith)

masked_bits-merged :
    (z : ℤ) (c mask : ℕ) → IsWithin c mask → masked_bits (or_bits (other_bits z mask) c) mask ≡ c
unfolding masked_bits or_bits other_bits
masked_bits-merged (pos x) c mask w = merged_lem mask x c mask (omega arith) w
masked_bits-merged (negsuc x) c mask w = merged_below mask x c mask (omega arith) w

other_bits-merged :
    (z : ℤ) (c mask : ℕ)
    → IsWithin c mask
    → other_bits (or_bits (other_bits z mask) c) mask ≡ other_bits z mask
unfolding other_bits or_bits
other_bits-merged (pos x) c mask w = ap pos (
    omega
      (arith, merged_lem mask x c mask (omega arith) w, or-within mask x c mask (omega arith) w))
other_bits-merged (negsuc x) c mask w = ap negsuc (or-below mask x c mask (omega arith) w)

-- Where `encode_bits` gives a value, the bits of the key are those of the pattern, moved to the lowest
-- offset: `decode_bits` gives the same of both. All other bits are as they were, also of a negative value.
pub decode_bits-encode_bits :
    (v : OdVariable) (key : BitKey) (bits : List ℕ) (low : ℕ) (original_value bit_value merged : ℤ)
    → key_offsets v key ≡ ok bits
    → lowest bits ≡ ok low
    → encode_bits v original_value key bit_value ≡ ok merged
    → (decode_bits v merged key ≡ decode_bits v (shift_left bit_value low) key)
      × (other_bits merged (bits_mask 0 bits) ≡ other_bits original_value (bits_mask 0 bits))
unfolding decode_bits encode_bits
decode_bits-encode_bits v key bits low original_value bit_value merged named least encoded =
    let mask = bits_mask 0 bits in
    let c = masked_bits (shift_left bit_value low) mask in
    let w = masked_bits-IsWithin (shift_left bit_value low) mask in
    let e : ok (or_bits (other_bits original_value mask) c) ≡ ok merged =
      ground (arith, named, least, encoded) in
    let r = masked_bits-merged original_value c mask w in
    let o = other_bits-merged original_value c mask w in
    (ground (arith, named, least, e, r), ground (arith, e, o))
