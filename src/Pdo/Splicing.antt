-- ===== src/Pdo/Splicing.antt =====
-- The bytes that setting a mapped variable writes into the message (canopen/pdo/base.py).
use canopen_asyncio.Pdo.Fields.{
  IsPlaced, window, window_lem, length-window, bit_length-placed, aligned,
}
use canopen_asyncio.Pdo.Values.{
  set_bits, set_payload, unpack_int, native_struct, pack_int, pack_into, spliced, merged,
  field_mask, other_mask, is_bit_field,
}
use canopen_asyncio.Common.Masked.{masked_field, replaced-lt}
use canopen_asyncio.Common.Numbers.{replaced, replaced-window, field-lt}
use canopen_asyncio.Common.Windows.{All-take, All-drop, All-append, from_le-splice, bytes_bits}
use canopen_asyncio.Common.{
  bit_and, bit_or, ℕ, ◌+◌, ◌-◌, ◌*◌, ◌/◌, ◌%◌, ◌^◌, ◌≤◌, ◌<◌, ◌≡◌, ap, ◌∙◌, sym, ◌++◌,
  length-append, inl, inr, false, arith, length, take, drop, All, length-take, length-drop,
}
use canopen_asyncio.Common.Bytes.{
  Bytes, IsByte, le_bytes, from_le, from_le-le_bytes, le_bytes-IsByte, le_bytes-from_le, from_le-lt,
  length-le_bytes,
}
use canopen_asyncio.Common.Monad.{Result, ok}
use canopen_asyncio.Common.Int.{shift_left, low_bits, or_bits, ℤ, pos}
use canopen_asyncio.Od.Structs.{StructType, unsigned, pack_unsigned, unpack_unsigned}
use canopen_asyncio.Od.Variable.{and_then, bit_length}
use canopen_asyncio.Pdo.{PdoVariable}
use native.Mathlib.Nat.{mod-eq_of_lt, div-eq_of_lt, pow-le-pow_right}

module _ (start len width : ℕ) (fits : start + len ≤ width) where
  merged-replaced :
      (c value : ℕ)
      → c < 2 ^ width
      → value < 2 ^ len
      → merged width start len (pos c) (pos value) ≡ pos (replaced c start len value)
  unfolding merged or_bits shift_left low_bits other_mask field_mask
  merged-replaced c value hc hv =
      let r : ℕ = width - (start + len) in
      let e : start + (len + r) ≡ width = omega arith in
      ap
        (λ n. pos (
          bit_or (value * 2 ^ start)
            (bit_and n (2 ^ width - 1 - bit_and ((2 ^ len - 1) * 2 ^ start) (2 ^ width - 1)))))
        (mod-eq_of_lt hc)
      ∙ ap
          (λ w. pos (
            bit_or (value * 2 ^ start)
              (bit_and c (2 ^ w - 1 - bit_and ((2 ^ len - 1) * 2 ^ start) (2 ^ w - 1)))))
          (sym e)
      ∙ ap pos (masked_field start len r c value (omega (arith, hc, ap (λ w. 2 ^ w) e)) hv)

  fitting-lt :
      (c value : ℕ) → c < 2 ^ width → value < 2 ^ len → replaced c start len value < 2 ^ width
  fitting-lt c value hc hv =
      let r : ℕ = width - (start + len) in
      let e : start + (len + r) ≡ width = omega arith in
      omega (
        arith,
        replaced-lt start len r c value (omega (arith, hc, ap (λ w. 2 ^ w) e)) hv,
        ap (λ w. 2 ^ w) e,
      )

div_one : (n : ℕ) → n / 1 ≡ n
div_one n = omega arith

fitting_length : (v : PdoVariable) (k n : ℕ) → IsPlaced v k n → v.length ≤ 8 * k
unfolding IsPlaced
fitting_length v k n h = omega (arith, h)

module _ (v : PdoVariable) (k : ℕ) (payload : Bytes) (bytes : All IsByte payload)
    (at : IsPlaced v k (length payload)) (value : ℕ) (small : value < 2 ^ v.length) where
  -- The bytes that the variable lies in, with its field set.
  abbrev content_value : ℕ
  content_value = replaced (window v k payload bytes at) (v.offset % 8) v.length value

  abbrev content : Bytes
  content = le_bytes k content_value

  window-lt : window v k payload bytes at < 2 ^ (8 * k)
  window-lt = omega (
    arith,
    window_lem v k payload bytes at,
    field-lt (from_le payload) (8 * (v.offset / 8)) (8 * k),
  )

  content_value-lt : content_value < 256 ^ k
  unfolding IsPlaced
  content_value-lt = omega (
    arith,
    bytes_bits k,
    fitting-lt (v.offset % 8) v.length (8 * k) (omega (arith, at)) (window v k payload bytes at)
        value window-lt small,
  )

  value-lt : value < 256 ^ k
  unfolding IsPlaced
  value-lt = omega (
    arith,
    at,
    small,
    bytes_bits k,
    pow-le-pow_right {n = 2} (omega arith) (fitting_length v k (length payload) at),
  )

  unpack_slice :
      unpack_int (unsigned k) (take k (drop (v.offset / 8) payload))
      ≡ ok (pos (window v k payload bytes at))
  unfolding unpack_int unpack_unsigned
  unpack_slice = ground (arith, length-window v k payload bytes at)

  unpack_value : unpack_int (unsigned k) (le_bytes k value) ≡ ok (pos value)
  unfolding unpack_int unpack_unsigned
  unpack_value = ground (arith, length-le_bytes k value, from_le-le_bytes k value value-lt)

  pack_content :
      pack_into (unsigned k) payload (v.offset / 8) (pos content_value)
      ≡ ok (spliced payload (v.offset / 8) content)
  unfolding pack_into native_struct pack_int pack_unsigned IsPlaced
  pack_content = ground (arith, content_value-lt, length-le_bytes k content_value, at)

  slice_size : bit_length v.od / 8 ≡ k
  unfolding IsPlaced
  slice_size = omega (arith, bit_length-placed v k at.0)

  set_bits-spliced :
      set_bits v (le_bytes k value) payload ≡ ok (spliced payload (v.offset / 8) content)
  unfolding set_bits IsPlaced
  set_bits-spliced =
      let store : StructType → ℕ → ℤ → ℤ → Result Bytes =
        (λ s w c x. pack_into s payload (v.offset / 8) (merged w (v.offset % 8) v.length c x)) in
      let w = bit_length v.od in
      ap
        (λ r. and_then r (λ s.
          and_then (unpack_int s (take (w / 8) (drop (v.offset / 8) payload)))
            (λ c. and_then (unpack_int s (le_bytes k value)) (λ x. store s w c x))))
        at.0
      ∙ ap
          (λ n. and_then (unpack_int (unsigned k) (take n (drop (v.offset / 8) payload))) (λ c.
            and_then (unpack_int (unsigned k) (le_bytes k value)) (λ x. store (unsigned k) w c x)))
          slice_size
      ∙ ap
          (λ r. and_then r (λ c.
            and_then (unpack_int (unsigned k) (le_bytes k value)) (λ x. store (unsigned k) w c x)))
          unpack_slice
      ∙ ap (λ r. and_then r (λ x. store (unsigned k) w (pos (window v k payload bytes at)) x))
          unpack_value
      ∙ ap (λ n. store (unsigned k) n (pos (window v k payload bytes at)) (pos value))
          (bit_length-placed v k at.0)
      ∙ ap (λ z. pack_into (unsigned k) payload (v.offset / 8) z)
          (merged-replaced (v.offset % 8) v.length (8 * k) (omega (arith, at))
            (window v k payload bytes at) value window-lt small)
      ∙ pack_content

  whole_content : is_bit_field v ≡ false → v.length ≡ 8 * k → content_value ≡ value
  unfolding replaced
  whole_content plain whole =
      let w = window v k payload bytes at in
      let z : v.offset % 8 ≡ 0 = omega (arith, aligned v k payload bytes at plain) in
      ap (λ b. replaced w b v.length value) z
      ∙ ap (λ l. replaced w 0 l value) whole
      ∙ omega (
        arith,
        ap (λ t. t * 2 ^ (8 * k)) (div-eq_of_lt window-lt),
        ap (λ t. t / 2 ^ (8 * k) * 2 ^ (8 * k)) (div_one w),
      )

  set_payload-spliced :
      set_payload v (le_bytes k value) payload ≡ ok (spliced payload (v.offset / 8) content)
  unfolding set_payload IsPlaced
  set_payload-spliced = elim at.3 [
    | inl bits ↦ ground (arith, bits, set_bits-spliced)
    | inr (plain, whole) ↦ ground (
      arith,
      plain,
      ap (λ n. spliced payload (v.offset / 8) (le_bytes k n)) (whole_content plain whole),
    )
  ]

  length-content : length content ≡ k
  length-content = length-le_bytes k content_value

  spliced-replaced :
      from_le (spliced payload (v.offset / 8) content)
      ≡ replaced (from_le payload) v.offset v.length value
  unfolding spliced IsPlaced
  spliced-replaced =
      let e : 8 * (v.offset / 8) + v.offset % 8 ≡ v.offset = omega arith in
      from_le-splice payload bytes (v.offset / 8) content (omega (arith, at, length-content))
      ∙ ap (λ n. replaced (from_le payload) (8 * (v.offset / 8)) (8 * n) (from_le content))
          length-content
      ∙ ap (λ n. replaced (from_le payload) (8 * (v.offset / 8)) (8 * k) n)
          (from_le-le_bytes k content_value content_value-lt)
      ∙ ap
          (λ n.
            replaced (from_le payload) (8 * (v.offset / 8)) (8 * k)
              (replaced n (v.offset % 8) v.length value))
          (window_lem v k payload bytes at)
      ∙ replaced-window (from_le payload) (8 * (v.offset / 8)) (8 * k) (v.offset % 8) v.length value
          (omega (arith, at))
      ∙ ap (λ n. replaced (from_le payload) n v.length value) e

  length-spliced : length (spliced payload (v.offset / 8) content) ≡ length payload
  unfolding spliced IsPlaced
  length-spliced = omega (
    arith,
    at,
    length-content,
    length-append (take (v.offset / 8) payload)
        (content ++ drop (v.offset / 8 + length content) payload),
    length-append content (drop (v.offset / 8 + length content) payload),
    length-take (v.offset / 8) payload,
    length-drop (v.offset / 8 + length content) payload,
  )

  spliced-IsByte : All IsByte (spliced payload (v.offset / 8) content)
  unfolding spliced
  spliced-IsByte =
      All-append IsByte (take (v.offset / 8) payload)
        (content ++ drop (v.offset / 8 + length content) payload)
        (All-take IsByte (v.offset / 8) payload bytes)
        (All-append IsByte content (drop (v.offset / 8 + length content) payload)
          (le_bytes-IsByte k content_value)
          (All-drop IsByte (v.offset / 8 + length content) payload bytes))

  pub set_payload-replaced :
      set_payload v (le_bytes k value) payload
      ≡ ok (le_bytes (length payload) (replaced (from_le payload) v.offset v.length value))
  set_payload-replaced =
      set_payload-spliced
      ∙ ap ok (sym (le_bytes-from_le (spliced payload (v.offset / 8) content) spliced-IsByte))
      ∙ ap (λ n. ok (le_bytes n (from_le (spliced payload (v.offset / 8) content)))) length-spliced
      ∙ ap (λ n. ok (le_bytes (length payload) n)) spliced-replaced

  pub replaced-fits : replaced (from_le payload) v.offset v.length value < 256 ^ length payload
  replaced-fits = omega (
    arith,
    ap (λ n. 256 ^ n) length-spliced,
    spliced-replaced,
    from_le-lt (spliced payload (v.offset / 8) content) spliced-IsByte,
  )
