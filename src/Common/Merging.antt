-- ===== src/Common/Merging.antt =====
-- Numbers as sets of bits: a mask, what is in it, and what is left.
use canopen_asyncio.Common.Bits.{and_digit, or_digit, and_zero, or-zero}
use Prim.Native.Nat.{ℕ, zero, suc, ◌+◌, ◌-◌, ◌/◌, ◌%◌, ◌≤◌, bit_and, bit_or, min, bit_and-bitwise}
use mathlib.Core.Path.{◌≡◌, ap, ◌∙◌, sym}
use native.Mathlib.Omega.{arith}

and-le : (n a m : ℕ) → m ≤ n → bit_and a m ≤ m
and-le n a zero h = omega (arith, and_zero a a (omega arith))
and-le zero a (suc m) h = elim h [ ]
and-le (suc n) a (suc m) h =
    omega (arith, and_digit a (suc m), and-le n (a / 2) (suc m / 2) (omega arith))

-- All bits of `c` are bits of `m`.
unfoldable pub IsWithin : ℕ → ℕ → Type 0
IsWithin c m = bit_and c m ≡ c

within_zero : (c : ℕ) → IsWithin c 0 → c ≡ 0
unfolding IsWithin
within_zero c h = omega (arith, h, and_zero c c (omega arith))

within_half :
    (c m : ℕ) → IsWithin c m → (bit_and (c / 2) (m / 2) ≡ c / 2) × (min (c % 2) (m % 2) ≡ c % 2)
unfolding IsWithin
within_half c m h = (omega (arith, h, and_digit c m), omega (arith, h, and_digit c m))

and-le_left : (n a m : ℕ) → a ≤ n → bit_and a m ≤ a
and-le_left n zero m h = omega (arith, bit_and-bitwise 0 m)
and-le_left zero (suc a) m h = elim h [ ]
and-le_left (suc n) (suc a) m h =
    omega (arith, and_digit (suc a) m, and-le_left n (suc a / 2) (m / 2) (omega arith))

-- Bits that are put in the place of those of a mask are those of the mask.
pub merged_lem : (n a c m : ℕ) → m ≤ n → IsWithin c m → bit_and (bit_or (a - bit_and a m) c) m ≡ c
unfolding IsWithin
merged_lem n a c zero h w = omega (
  arith,
  and_zero (bit_or (a - bit_and a 0) c) (bit_or (a - bit_and a 0) c) (omega arith),
  within_zero c w,
)
merged_lem zero a c (suc m) h w = elim h [ ]
merged_lem (suc n) a c (suc m) h w =
    let mask = suc m in
    let x : ℕ = a - bit_and a mask in
    let y = bit_or x c in
    let (cut, bit) = within_half c mask w in
    let x_high : x / 2 ≡ a / 2 - bit_and (a / 2) (mask / 2) =
      omega (arith, and_digit a mask, and-le_left (a / 2) (a / 2) (mask / 2) (omega arith)) in
    let x_low : x % 2 ≡ a % 2 - min (a % 2) (mask % 2) =
      omega (arith, and_digit a mask, and-le_left (a / 2) (a / 2) (mask / 2) (omega arith)) in
    let y_high : y / 2 ≡ bit_or (a / 2 - bit_and (a / 2) (mask / 2)) (c / 2) =
      omega (arith, or_digit x c, ap (λ t. bit_or t (c / 2)) x_high) in
    let rest : bit_and (y / 2) (mask / 2) ≡ c / 2 =
      ap (λ t. bit_and t (mask / 2)) y_high
      ∙ merged_lem n (a / 2) (c / 2) (mask / 2) (omega (arith, h)) cut in
    omega (arith, and_digit y mask, or_digit x c, rest, x_low, bit)

-- The same where the number is negative: its other bits are set.
pub merged_below :
    (n x c m : ℕ) → m ≤ n → IsWithin c m → m - bit_and (bit_or x m - bit_and (bit_or x m) c) m ≡ c
unfolding IsWithin
merged_below n x c zero h w = omega (arith, within_zero c w)
merged_below zero x c (suc m) h w = elim h [ ]
merged_below (suc n) x c (suc m) h w =
    let mask = suc m in
    let y = bit_or x mask in
    let z : ℕ = y - bit_and y c in
    let (cut, bit) = within_half c mask w in
    let y_high : y / 2 ≡ bit_or (x / 2) (mask / 2) = omega (arith, or_digit x mask) in
    let less = and-le_left (y / 2) (y / 2) (c / 2) (omega arith) in
    let z_high : z / 2 ≡ y / 2 - bit_and (y / 2) (c / 2) = omega (arith, and_digit y c, less) in
    let z_low : z % 2 ≡ y % 2 - min (y % 2) (c % 2) = omega (arith, and_digit y c, less) in
    let rest : mask / 2 - bit_and (z / 2) (mask / 2) ≡ c / 2 =
      ap (λ t. mask / 2 - bit_and t (mask / 2)) (z_high ∙ ap (λ t. t - bit_and t (c / 2)) y_high)
      ∙ merged_below n (x / 2) (c / 2) (mask / 2) (omega (arith, h)) cut in
    omega (
      arith,
      and_digit z mask,
      or_digit x mask,
      rest,
      z_low,
      bit,
      and-le (mask / 2) (z / 2) (mask / 2) (omega arith),
    )

-- What a mask leaves of a number is within the mask.
pub masked-IsWithin : (n b m : ℕ) → m ≤ n → IsWithin (bit_and b m) m
unfolding IsWithin
masked-IsWithin n b zero h =
    omega (arith, and_zero (bit_and b 0) (bit_and b 0) (omega arith), and_zero b b (omega arith))
masked-IsWithin zero b (suc m) h = elim h [ ]
masked-IsWithin (suc n) b (suc m) h =
    let mask = suc m in
    let c = bit_and b mask in
    let c_high : c / 2 ≡ bit_and (b / 2) (mask / 2) = omega (arith, and_digit b mask) in
    let rest : bit_and (c / 2) (mask / 2) ≡ c / 2 =
      ap (λ t. bit_and t (mask / 2)) c_high
      ∙ masked-IsWithin n (b / 2) (mask / 2) (omega (arith, h))
      ∙ sym c_high in
    omega (arith, and_digit c mask, and_digit b mask, rest)

pub unmasked-IsWithin : (n b m : ℕ) → m ≤ n → IsWithin (m - bit_and b m) m
unfolding IsWithin
unmasked-IsWithin n b zero h =
    let z : 0 - bit_and b 0 ≡ 0 = omega arith in
    ap (λ t. bit_and t 0) z ∙ bit_and-bitwise 0 0 ∙ sym z
unmasked-IsWithin zero b (suc m) h = elim h [ ]
unmasked-IsWithin (suc n) b (suc m) h =
    let mask = suc m in
    let c : ℕ = mask - bit_and b mask in
    let less = and-le (mask / 2) (b / 2) (mask / 2) (omega arith) in
    let c_high : c / 2 ≡ mask / 2 - bit_and (b / 2) (mask / 2) =
      omega (arith, and_digit b mask, less) in
    let c_low : c % 2 ≡ mask % 2 - min (b % 2) (mask % 2) = omega (arith, and_digit b mask, less) in
    let rest : bit_and (c / 2) (mask / 2) ≡ c / 2 =
      ap (λ t. bit_and t (mask / 2)) c_high
      ∙ unmasked-IsWithin n (b / 2) (mask / 2) (omega (arith, h))
      ∙ sym c_high in
    omega (arith, and_digit c mask, rest, c_low)

-- Bits beside a mask, together with bits of the mask.
pub or-within :
    (n a c m : ℕ) → m ≤ n → IsWithin c m → bit_or (a - bit_and a m) c ≡ (a - bit_and a m) + c
unfolding IsWithin
or-within n a c zero h w =
    let z = within_zero c w in
    ap (λ t. bit_or (a - bit_and a 0) t) z
    ∙ omega (arith, or-zero (a - bit_and a 0) (a - bit_and a 0) (omega arith), z)
or-within zero a c (suc m) h w = elim h [ ]
or-within (suc n) a c (suc m) h w =
    let mask = suc m in
    let x : ℕ = a - bit_and a mask in
    let (cut, bit) = within_half c mask w in
    let less = and-le_left (a / 2) (a / 2) (mask / 2) (omega arith) in
    let x_high : x / 2 ≡ a / 2 - bit_and (a / 2) (mask / 2) =
      omega (arith, and_digit a mask, less) in
    let x_low : x % 2 ≡ a % 2 - min (a % 2) (mask % 2) = omega (arith, and_digit a mask, less) in
    let rest : bit_or (x / 2) (c / 2) ≡ x / 2 + c / 2 =
      ap (λ t. bit_or t (c / 2)) x_high
      ∙ or-within n (a / 2) (c / 2) (mask / 2) (omega (arith, h)) cut
      ∙ omega (arith, x_high) in
    omega (arith, or_digit x c, rest, x_low, bit)

pub or-below :
    (n x c m : ℕ)
    → m ≤ n
    → IsWithin c m
    → bit_or (bit_or x m - bit_and (bit_or x m) c) m ≡ bit_or x m
unfolding IsWithin
or-below n x c zero h w =
    let y = bit_or x 0 in
    let z : y - bit_and y c ≡ y =
      omega (arith, ap (λ t. bit_and y t) (within_zero c w), and_zero y y (omega arith)) in
    ap (λ t. bit_or t 0) z ∙ or-zero y y (omega arith)
or-below zero x c (suc m) h w = elim h [ ]
or-below (suc n) x c (suc m) h w =
    let mask = suc m in
    let y = bit_or x mask in
    let z : ℕ = y - bit_and y c in
    let (cut, bit) = within_half c mask w in
    let y_high : y / 2 ≡ bit_or (x / 2) (mask / 2) = omega (arith, or_digit x mask) in
    let less = and-le_left (y / 2) (y / 2) (c / 2) (omega arith) in
    let z_high : z / 2 ≡ y / 2 - bit_and (y / 2) (c / 2) = omega (arith, and_digit y c, less) in
    let z_low : z % 2 ≡ y % 2 - min (y % 2) (c % 2) = omega (arith, and_digit y c, less) in
    let rest : bit_or (z / 2) (mask / 2) ≡ bit_or (x / 2) (mask / 2) =
      ap (λ t. bit_or t (mask / 2)) (z_high ∙ ap (λ t. t - bit_and t (c / 2)) y_high)
      ∙ or-below n (x / 2) (c / 2) (mask / 2) (omega (arith, h)) cut in
    omega (arith, or_digit z mask, or_digit x mask, rest, z_low, bit)
