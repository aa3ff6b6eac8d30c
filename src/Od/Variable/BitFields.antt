-- ===== src/Od/Variable/BitFields.antt =====
-- `decode_bits` and `encode_bits` of ODVariable (canopen/objectdictionary/__init__.py): bits of a value by
-- their offsets, or by a name that is registered for them.
pub mod Merged
use canopen_asyncio.Od.Types.{Text, OdVariable}
use canopen_asyncio.Common.Int.{shift_left, or_bits, ℤ, pos, negsuc}
use canopen_asyncio.Common.Monad.{Result, ok, err, key_error, value_error}
use canopen_asyncio.Od.Variable.{and_then}
use canopen_asyncio.Common.{
  ℕ, zero, suc, ◌-◌, ◌*◌, ◌/◌, ◌^◌, Bool, true, false, ◌&&◌, List, [], ◌∷◌, ◌==◌, if◌then◌else◌,
  bit_and, bit_or, min,
}

-- A registered name, or the offsets themselves.
pub data BitKey : Type 0 where
  named : Text → BitKey
  offsets : List ℕ → BitKey

unfoldable pub same_text : Text → Text → Bool
same_text [] [] = true
same_text (a ∷ as_) (b ∷ bs) = a == b && same_text as_ bs
same_text _ _ = false

-- `self.bit_definitions[bits]`
unfoldable pub definition_of : Text → List (Text × List ℕ) → Result (List ℕ)
definition_of key [] = err key_error
definition_of key ((other, bits) ∷ rest) =
    if same_text key other then ok bits else definition_of key rest

unfoldable pub key_offsets : OdVariable → BitKey → Result (List ℕ)
key_offsets v (named key) = definition_of key v.bit_definitions
key_offsets v (offsets bits) = ok bits

-- The loop `mask |= 1 << bit`
unfoldable pub bits_mask : ℕ → List ℕ → ℕ
bits_mask mask [] = mask
bits_mask mask (bit ∷ bits) = bits_mask (bit_or mask (2 ^ bit)) bits

-- `min(bits)`
unfoldable pub lowest : List ℕ → Result ℕ
lowest [] = err value_error
lowest (bit ∷ []) = ok bit
lowest (bit ∷ bits) = elim (lowest bits) [ ok other ↦ ok (min bit other) | err e ↦ err e ]

-- `z & mask` and `z & ~mask`, in two's complement.
unfoldable pub masked_bits : ℤ → ℕ → ℕ
masked_bits (pos x) mask = bit_and x mask
masked_bits (negsuc x) mask = mask - bit_and x mask

unfoldable pub other_bits : ℤ → ℕ → ℤ
other_bits (pos x) mask = pos (x - bit_and x mask)
other_bits (negsuc x) mask = negsuc (bit_or x mask)

unfoldable pub decode_bits : OdVariable → ℤ → BitKey → Result ℕ
decode_bits v value key =
    and_then (key_offsets v key)
      (λ bits. and_then (lowest bits) (λ low. ok (masked_bits value (bits_mask 0 bits) / 2 ^ low)))

unfoldable pub encode_bits : OdVariable → ℤ → BitKey → ℤ → Result ℤ
encode_bits v original_value key bit_value = and_then (key_offsets v key) (λ bits.
    and_then (lowest bits) (λ low.
      let mask = bits_mask 0 bits in
      ok (or_bits (other_bits original_value mask) (masked_bits (shift_left bit_value low) mask))))
