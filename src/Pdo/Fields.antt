-- ===== src/Pdo/Fields.antt =====
-- Mapped variables of an unsigned type, as fields of the number that the message stands for
-- (canopen/pdo/base.py).
use canopen_asyncio.Pdo.Values.{
  get_bits, pdo_get_data, bit_struct, unpack_from, unpack_int, native_struct, extend_sign, is_lower,
  pack_int, is_bit_field,
}
use canopen_asyncio.Common.Numbers.{field, field-lt, field-window}
use canopen_asyncio.Common.Windows.{from_le-window, All-take, All-drop, bytes_bits}
use canopen_asyncio.Common.{
  false, true, ℕ, zero, suc, ◌+◌, ◌-◌, ◌*◌, ◌/◌, ◌%◌, ◌^◌, ◌≤◌, ◌<◌, ◌≡◌, refl, ap, ◌∙◌, sym, inl,
  inr, arith, ◌⊎◌, length, take, drop, All, length-take, length-drop,
}
use canopen_asyncio.Common.Bytes.{Bytes, IsByte, le_bytes, from_le, le_bytes-from_le}
use canopen_asyncio.Common.Monad.{ok}
use canopen_asyncio.Common.Int.{shift_right, low_bits, pos}
use canopen_asyncio.Od.Structs.{struct_type, unsigned, pack_unsigned, unpack_unsigned, struct_size}
use canopen_asyncio.Od.Variable.{and_then, bit_length}
use canopen_asyncio.Pdo.{PdoVariable}
use native.Mathlib.Nat.{pow-le-pow_right}

-- A variable of an unsigned type of `k` bytes that `struct` has (1, 2, 4 or 8; a BOOLEAN counts as
-- UNSIGNED8), all whose bits lie in the `k` bytes of a message of `n` bytes that begin with the byte of
-- its first bit; one that is no bit field takes all of its bytes.
unfoldable pub IsPlaced : PdoVariable → ℕ → ℕ → Type 0
IsPlaced v k n =
    (bit_struct v.od.data_type ≡ ok (unsigned k))
    × (v.offset % 8 + v.length ≤ 8 * k)
    × (v.offset / 8 + k ≤ n)
    × ((is_bit_field v ≡ true) ⊎ ((is_bit_field v ≡ false) × (v.length ≡ 8 * k)))

pub bit_length-placed :
    (v : PdoVariable) (k : ℕ)
    → bit_struct v.od.data_type ≡ ok (unsigned k)
    → bit_length v.od ≡ 8 * k
unfolding bit_struct bit_length struct_size struct_type
bit_length-placed v k h = ground arith

extend_sign-unsigned : (k len c : ℕ) → extend_sign (unsigned k) len c ≡ ok (pos c)
unfolding extend_sign is_lower
extend_sign-unsigned k zero c = refl
extend_sign-unsigned k (suc len) c = refl

pub pow_le : (a b : ℕ) → 2 ^ a ≤ 2 ^ (a + b)
pow_le a b = pow-le-pow_right (omega arith) (omega arith)

pub div_eight : (k : ℕ) → 8 * k / 8 ≡ k
div_eight k = omega arith

module _ (v : PdoVariable) (k : ℕ) (payload : Bytes) (bytes : All IsByte payload)
    (at : IsPlaced v k (length payload)) where
  abbrev pub window : ℕ
  window = from_le (take k (drop (v.offset / 8) payload))

  pub length-window : length (take k (drop (v.offset / 8) payload)) ≡ k
  unfolding IsPlaced
  length-window =
      omega
        (arith, length-take k (drop (v.offset / 8) payload), length-drop (v.offset / 8) payload, at)

  pub window_lem : window ≡ field (from_le payload) (8 * (v.offset / 8)) (8 * k)
  unfolding IsPlaced
  window_lem = from_le-window payload bytes (v.offset / 8) k (omega (arith, at))

  window-field : field window (v.offset % 8) v.length ≡ field (from_le payload) v.offset v.length
  unfolding IsPlaced
  window-field =
      let e : 8 * (v.offset / 8) + v.offset % 8 ≡ v.offset = omega arith in
      ap (λ n. field n (v.offset % 8) v.length) window_lem
      ∙ field-window (from_le payload) (8 * (v.offset / 8)) (8 * k) (v.offset % 8) v.length
          (omega (arith, at))
      ∙ ap (λ n. field (from_le payload) n v.length) e

  unpack_lem : unpack_from (unsigned k) payload (v.offset / 8) ≡ ok (pos window)
  unfolding unpack_from native_struct unpack_int unpack_unsigned struct_size IsPlaced
  unpack_lem = ground (arith, length-window, at)

  content-lt : field (from_le payload) v.offset v.length < 256 ^ k
  unfolding IsPlaced
  content-lt =
      let r : ℕ = 8 * k - v.length in
      let e : v.length + r ≡ 8 * k = omega (arith, at) in
      omega (
        arith,
        field-lt (from_le payload) v.offset v.length,
        bytes_bits k,
        pow_le v.length r,
        ap (λ n. 2 ^ n) e,
      )

  get_bits-field : get_bits v payload ≡ ok (le_bytes k (field (from_le payload) v.offset v.length))
  unfolding get_bits IsPlaced shift_right low_bits pack_int pack_unsigned field
  get_bits-field =
      ap
        (λ r. and_then r (λ s. and_then (unpack_from s payload (v.offset / 8)) (λ z.
          and_then (extend_sign s v.length (low_bits (shift_right z (v.offset % 8)) v.length))
            (λ content. pack_int s content))))
        at.0
      ∙ ap
          (λ r. and_then r (λ z.
            and_then
              (extend_sign (unsigned k) v.length (low_bits (shift_right z (v.offset % 8)) v.length))
              (λ content. pack_int (unsigned k) content)))
          unpack_lem
      ∙ ap
          (λ n.
            and_then (extend_sign (unsigned k) v.length n)
              (λ content. pack_int (unsigned k) content))
          window-field
      ∙ ap (λ r. and_then r (λ content. pack_int (unsigned k) content))
          (extend_sign-unsigned k v.length (field (from_le payload) v.offset v.length))
      ∙ ground (arith, content-lt)

  pub aligned : is_bit_field v ≡ false → v.offset ≡ 8 * (v.offset / 8)
  unfolding is_bit_field
  aligned h = ground (arith, h)

  slice-field :
      is_bit_field v ≡ false
      → v.length ≡ 8 * k
      → take k (drop (v.offset / 8) payload)
        ≡ le_bytes k (field (from_le payload) v.offset v.length)
  unfolding IsPlaced
  slice-field plain whole =
      let slice : Bytes = take k (drop (v.offset / 8) payload) in
      let value : from_le slice ≡ field (from_le payload) v.offset v.length =
        window_lem
        ∙ ap (λ n. field (from_le payload) n (8 * k)) (sym (aligned plain))
        ∙ ap (λ n. field (from_le payload) v.offset n) (sym whole) in
      sym (
        le_bytes-from_le slice (
          All-take IsByte k (drop (v.offset / 8) payload)
            (All-drop IsByte (v.offset / 8) payload bytes)))
      ∙ ap (λ n. le_bytes n (from_le slice)) length-window
      ∙ ap (λ n. le_bytes k n) value

  -- Reading a mapped variable gives the bits of its field.
  pub pdo_get_data-field :
      pdo_get_data v payload ≡ ok (le_bytes k (field (from_le payload) v.offset v.length))
  unfolding pdo_get_data IsPlaced
  pdo_get_data-field = elim at.3 [
    | inl bits ↦ ground (arith, bits, get_bits-field)
    | inr (plain, whole) ↦
        ground (arith, plain, slice-field plain whole, bit_length-placed v k at.0, div_eight k)
  ]
