-- ===== src/Common/Masked.antt =====
-- A field that is set with masks, as a replaced field.
use canopen_asyncio.Common.Fields.{pow_pos, pow_add, and_split, or_split, and_ones}
use canopen_asyncio.Common.Bits.{zero-or, or-zero, and_zero}
use canopen_asyncio.Common.Numbers.{replaced, shift_twice}
use Prim.Native.Nat.{ℕ, ◌+◌, ◌-◌, ◌*◌, ◌/◌, ◌%◌, ◌^◌, ◌<◌, bit_and, bit_or, ◌≤◌}
use mathlib.Core.Path.{◌≡◌, ap, ◌∙◌, sym}
use native.Mathlib.Omega.{arith}
use native.Mathlib.Nat.{mod-lt, mod-add-div', div-lt_iff_lt-mul, mul-le-mul_right}

-- The masks, for powers of two that are given as successors.
mask_lt' : (p l q : ℕ) → l * (p + 1) < (p + 1) * ((l + 1) * (q + 1))
mask_lt' p l q = grind arith

keep_mask' :
    (p l q : ℕ) → (p + 1) * ((l + 1) * (q + 1)) - 1 - l * (p + 1) ≡ p + (0 + q * (l + 1)) * (p + 1)
keep_mask' p l q = grind arith

swap : (a b : ℕ) → a * b ≡ b * a
swap a b = grind arith

times_suc : (y p : ℕ) → (y + 1) * p ≡ y * p + p
times_suc y p = grind arith

stacked-lt : (x y j k : ℕ) → x < 2 ^ j → y < 2 ^ k → x + y * 2 ^ j < 2 ^ (j + k)
stacked-lt x y j k hx hy =
    let most : (y + 1) * 2 ^ j ≤ 2 ^ k * 2 ^ j = mul-le-mul_right (2 ^ j) (omega (arith, hy)) in
    omega (arith, hx, most, times_suc y (2 ^ j), pow_add k j, swap (2 ^ k) (2 ^ j))

module _ (start len r : ℕ) where
  abbrev top : ℕ
  top = start + (len + r)

  top_lem : 2 ^ top ≡ 2 ^ start * (2 ^ len * 2 ^ r)
  top_lem = pow_add (len + r) start ∙ ap (λ t. 2 ^ start * t) (pow_add r len)

  -- A power of two as the successor of its mask.
  ones : (k : ℕ) → 2 ^ k - 1 + 1 ≡ 2 ^ k
  ones k = omega (arith, pow_pos k)

  all_ones : (2 ^ start - 1 + 1) * ((2 ^ len - 1 + 1) * (2 ^ r - 1 + 1)) ≡ 2 ^ top
  all_ones =
      ap (λ t. t * ((2 ^ len - 1 + 1) * (2 ^ r - 1 + 1))) (ones start)
      ∙ ap (λ t. 2 ^ start * (t * (2 ^ r - 1 + 1))) (ones len)
      ∙ ap (λ t. 2 ^ start * (2 ^ len * t)) (ones r)
      ∙ sym top_lem

  mask_lt : (2 ^ len - 1) * 2 ^ start < 2 ^ top
  mask_lt =
      let below : (2 ^ len - 1) * (2 ^ start - 1 + 1) ≡ (2 ^ len - 1) * 2 ^ start =
        ap (λ t. (2 ^ len - 1) * t) (ones start) in
      omega (arith, mask_lt' (2 ^ start - 1) (2 ^ len - 1) (2 ^ r - 1), below, all_ones)

  keep_mask :
      2 ^ top - 1 - (2 ^ len - 1) * 2 ^ start
      ≡ (2 ^ start - 1) + (0 + (2 ^ r - 1) * 2 ^ len) * 2 ^ start
  keep_mask =
      let p = 2 ^ start - 1 in
      let q = 2 ^ r - 1 in
      let below : (2 ^ len - 1) * (p + 1) ≡ (2 ^ len - 1) * 2 ^ start =
        ap (λ t. (2 ^ len - 1) * t) (ones start) in
      let kept : p + (0 + q * (2 ^ len - 1 + 1)) * (p + 1) ≡ p + (0 + q * 2 ^ len) * 2 ^ start =
        ap (λ t. p + (0 + q * t) * (p + 1)) (ones len)
        ∙ ap (λ t. p + (0 + q * 2 ^ len) * t) (ones start) in
      omega (arith, keep_mask' p (2 ^ len - 1) q, below, all_ones, kept)

  -- What is above the field fits the bits above it.
  above : (c : ℕ) → c < 2 ^ top → c / 2 ^ start / 2 ^ len < 2 ^ r
  above c hc =
      let e : start + len + r ≡ top = omega arith in
      let bound : c < 2 ^ r * 2 ^ (start + len) =
        omega (
          arith,
          hc,
          ap (λ k. 2 ^ k) e,
          pow_add r (start + len),
          swap (2 ^ r) (2 ^ (start + len)),
        ) in
      let q : c / 2 ^ (start + len) < 2 ^ r = (div-lt_iff_lt-mul (pow_pos (start + len))).1 bound in
      omega (arith, q, shift_twice c start len)

  -- What the mask keeps.
  pub kept_lem :
      (c : ℕ)
      → c < 2 ^ top
      → bit_and c (2 ^ top - 1 - bit_and ((2 ^ len - 1) * 2 ^ start) (2 ^ top - 1))
        ≡ c % 2 ^ start + (0 + c / 2 ^ start / 2 ^ len * 2 ^ len) * 2 ^ start
  kept_lem c hc =
      let low = c % 2 ^ start in
      let f = c / 2 ^ start % 2 ^ len in
      let g = c / 2 ^ start / 2 ^ len in
      let ones_low = 2 ^ start - 1 in
      let ones_high = 0 + (2 ^ r - 1) * 2 ^ len in
      let c_split : c ≡ low + (f + g * 2 ^ len) * 2 ^ start =
        sym (mod-add-div' c (2 ^ start))
        ∙ ap (λ t. low + t * 2 ^ start) (sym (mod-add-div' (c / 2 ^ start) (2 ^ len))) in
      let inner : bit_and (f + g * 2 ^ len) ones_high ≡ 0 + g * 2 ^ len =
        and_split len f g 0 (2 ^ r - 1) (mod-lt (c / 2 ^ start) (pow_pos len)) (pow_pos len)
        ∙ omega (
          arith,
          and_zero f f (omega arith),
          ap (λ t. t * 2 ^ len) (and_ones r g (above c hc)),
        ) in
      ap (λ x. bit_and c (2 ^ top - 1 - x)) (and_ones top ((2 ^ len - 1) * 2 ^ start) mask_lt)
      ∙ ap (λ x. bit_and c x) keep_mask
      ∙ ap (λ x. bit_and x (ones_low + ones_high * 2 ^ start)) c_split
      ∙ and_split start low (f + g * 2 ^ len) ones_low ones_high (mod-lt c (pow_pos start))
          (omega (arith, pow_pos start))
      ∙ omega (arith, and_ones start low (mod-lt c (pow_pos start)), ap (λ t. t * 2 ^ start) inner)

  -- Masking the field out and or-ing the shifted value in replaces the field.
  pub masked_field :
      (c value : ℕ)
      → c < 2 ^ top
      → value < 2 ^ len
      → bit_or
          (value * 2 ^ start)
          (bit_and c (2 ^ top - 1 - bit_and ((2 ^ len - 1) * 2 ^ start) (2 ^ top - 1)))
        ≡ replaced c start len value
  unfolding replaced
  masked_field c value hc hv =
      let low = c % 2 ^ start in
      let g = c / 2 ^ start / 2 ^ len in
      let raised : value * 2 ^ start ≡ 0 + value * 2 ^ start = omega arith in
      let padded : value ≡ value + 0 * 2 ^ len = omega arith in
      let inner : bit_or value (0 + g * 2 ^ len) ≡ value + g * 2 ^ len =
        ap (λ x. bit_or x (0 + g * 2 ^ len)) padded
        ∙ or_split len value 0 0 g hv (pow_pos len)
        ∙ omega (arith, or-zero value value (omega arith), ap (λ t. t * 2 ^ len) (zero-or g)) in
      ap (λ x. bit_or (value * 2 ^ start) x) (kept_lem c hc)
      ∙ ap (λ x. bit_or x (low + (0 + g * 2 ^ len) * 2 ^ start)) raised
      ∙ or_split start 0 value low (0 + g * 2 ^ len) (pow_pos start) (mod-lt c (pow_pos start))
      ∙ omega (arith, zero-or low, ap (λ t. t * 2 ^ start) inner)

  -- Setting a field does not make the number longer.
  pub replaced-lt :
      (c value : ℕ) → c < 2 ^ top → value < 2 ^ len → replaced c start len value < 2 ^ top
  unfolding replaced
  replaced-lt c value hc hv =
      stacked-lt (c % 2 ^ start) (value + c / 2 ^ start / 2 ^ len * 2 ^ len) start (len + r)
        (mod-lt c (pow_pos start))
        (stacked-lt value (c / 2 ^ start / 2 ^ len) len r hv (above c hc))
