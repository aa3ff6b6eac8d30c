-- ===== src/Common/Fields.antt =====
-- Conjunction and disjunction of numbers that are split at a bit.
use canopen_asyncio.Common.Bits.{or-zero, zero-or, and_digit, or_digit, times_double, zero-or}
use Prim.Native.Nat.{
  ℕ, zero, suc, ◌+◌, ◌-◌, ◌*◌, ◌/◌, ◌%◌, ◌^◌, ◌<◌, bit_and, bit_or, min, max, bit_and-bitwise,
}
use mathlib.Core.Path.{◌≡◌, ap, ◌∙◌, sym}
use native.Mathlib.Omega.{arith}
use native.Mathlib.Nat.{pow-suc, one-le-pow}

pub pow_pos : (k : ℕ) → 0 < 2 ^ k
pow_pos k = one-le-pow k 2 (omega arith)

-- Half of a number above a bit.
shift_suc : (b k : ℕ) → b * 2 ^ suc k ≡ b * 2 ^ k * 2
shift_suc b k =
    let hk : 2 ^ suc k ≡ 2 ^ k * 2 = omega (arith, pow-suc 2 k) in
    ap (λ x. b * x) hk ∙ times_double b (2 ^ k)

split_half : (k a b : ℕ) → (a + b * 2 ^ suc k) / 2 ≡ a / 2 + b * 2 ^ k
split_half k a b = omega (arith, shift_suc b k)

split_digit : (k a b : ℕ) → (a + b * 2 ^ suc k) % 2 ≡ a % 2
split_digit k a b = omega (arith, shift_suc b k)

pub and_split :
    (k a b m n : ℕ)
    → a < 2 ^ k
    → m < 2 ^ k
    → bit_and (a + b * 2 ^ k) (m + n * 2 ^ k) ≡ bit_and a m + bit_and b n * 2 ^ k
and_split zero a b m n ha hm =
    let za : a ≡ 0 = omega arith in
    let zm : m ≡ 0 = omega arith in
    let eb : a + b * 1 ≡ b = omega arith in
    let en : m + n * 1 ≡ n = omega arith in
    let z : bit_and a m ≡ 0 = ap (λ x. bit_and x m) za ∙ bit_and-bitwise 0 m in
    ap (λ x. bit_and x (m + n * 1)) eb ∙ ap (λ x. bit_and b x) en ∙ omega (arith, z)
and_split (suc k) a b m n ha hm =
    let hk : 2 ^ suc k ≡ 2 ^ k * 2 = omega (arith, pow-suc 2 k) in
    let x = a + b * 2 ^ suc k in
    let y = m + n * 2 ^ suc k in
    let halves : bit_and (x / 2) (y / 2) ≡ bit_and (a / 2 + b * 2 ^ k) (m / 2 + n * 2 ^ k) =
      ap (λ u. bit_and u (y / 2)) (split_half k a b)
      ∙ ap (λ u. bit_and (a / 2 + b * 2 ^ k) u) (split_half k m n) in
    let ih = and_split k (a / 2) b (m / 2) n (omega (arith, hk)) (omega (arith, hk)) in
    let digits : min (x % 2) (y % 2) ≡ min (a % 2) (m % 2) =
      ap (λ u. min u (y % 2)) (split_digit k a b) ∙ ap (λ u. min (a % 2) u) (split_digit k m n) in
    omega (arith, and_digit x y, and_digit a m, halves, ih, digits, shift_suc (bit_and b n) k)

pub or_split :
    (k a b m n : ℕ)
    → a < 2 ^ k
    → m < 2 ^ k
    → bit_or (a + b * 2 ^ k) (m + n * 2 ^ k) ≡ bit_or a m + bit_or b n * 2 ^ k
or_split zero a b m n ha hm =
    let za : a ≡ 0 = omega arith in
    let zm : m ≡ 0 = omega arith in
    let eb : a + b * 1 ≡ b = omega arith in
    let en : m + n * 1 ≡ n = omega arith in
    let z : bit_or a m ≡ 0 = ap (λ x. bit_or x m) za ∙ zero-or m ∙ zm in
    ap (λ x. bit_or x (m + n * 1)) eb ∙ ap (λ x. bit_or b x) en ∙ omega (arith, z)
or_split (suc k) a b m n ha hm =
    let hk : 2 ^ suc k ≡ 2 ^ k * 2 = omega (arith, pow-suc 2 k) in
    let x = a + b * 2 ^ suc k in
    let y = m + n * 2 ^ suc k in
    let halves : bit_or (x / 2) (y / 2) ≡ bit_or (a / 2 + b * 2 ^ k) (m / 2 + n * 2 ^ k) =
      ap (λ u. bit_or u (y / 2)) (split_half k a b)
      ∙ ap (λ u. bit_or (a / 2 + b * 2 ^ k) u) (split_half k m n) in
    let ih = or_split k (a / 2) b (m / 2) n (omega (arith, hk)) (omega (arith, hk)) in
    let digits : max (x % 2) (y % 2) ≡ max (a % 2) (m % 2) =
      ap (λ u. max u (y % 2)) (split_digit k a b) ∙ ap (λ u. max (a % 2) u) (split_digit k m n) in
    omega (arith, or_digit x y, or_digit a m, halves, ih, digits, shift_suc (bit_or b n) k)

-- A mask of ones keeps a number that fits it.
pub and_ones : (k a : ℕ) → a < 2 ^ k → bit_and a (2 ^ k - 1) ≡ a
and_ones zero a h =
    let z : a ≡ 0 = omega arith in ap (λ x. bit_and x 0) z ∙ bit_and-bitwise 0 0 ∙ sym z
and_ones (suc k) a h =
    let hk : 2 ^ suc k ≡ 2 ^ k * 2 = omega (arith, pow-suc 2 k) in
    let half : (2 ^ suc k - 1) / 2 ≡ 2 ^ k - 1 = omega (arith, hk, pow_pos k) in
    omega (
      arith,
      hk,
      pow_pos k,
      and_digit a (2 ^ suc k - 1),
      ap (λ m. bit_and (a / 2) m) half,
      and_ones k (a / 2) (omega (arith, hk)),
    )

pub pow_add : (j k : ℕ) → 2 ^ (k + j) ≡ 2 ^ k * 2 ^ j
pow_add zero k = let e : k + 0 ≡ k = omega arith in ap (λ n. 2 ^ n) e ∙ omega arith
pow_add (suc j) k =
    let e : k + suc j ≡ suc (k + j) = omega arith in
    let hk : 2 ^ suc (k + j) ≡ 2 ^ (k + j) * 2 = omega (arith, pow-suc 2 (k + j)) in
    let hj : 2 ^ suc j ≡ 2 ^ j * 2 = omega (arith, pow-suc 2 j) in
    ap (λ n. 2 ^ n) e
    ∙ hk
    ∙ ap (λ t. t * 2) (pow_add j k)
    ∙ sym (times_double (2 ^ k) (2 ^ j))
    ∙ ap (λ t. 2 ^ k * t) (sym hj)

-- Quotient and remainder of a number that is given by them.
pub div_of : (r q d : ℕ) → r < d → (r + q * d) / d ≡ q
div_of r q d h = grind arith

pub mod_of : (r q d : ℕ) → r < d → (r + q * d) % d ≡ r
mod_of r q d h = grind arith

-- A number below a bit, or-ed with one above it.
pub or_above : (k a b : ℕ) → a < 2 ^ k → bit_or a (b * 2 ^ k) ≡ a + b * 2 ^ k
or_above k a b h =
    let padded : a ≡ a + 0 * 2 ^ k = omega arith in
    let raised : b * 2 ^ k ≡ 0 + b * 2 ^ k = omega arith in
    ap (λ x. bit_or x (b * 2 ^ k)) padded
    ∙ ap (λ x. bit_or (a + 0 * 2 ^ k) x) raised
    ∙ or_split k a 0 0 b h (pow_pos k)
    ∙ omega (arith, or-zero a a (omega arith), ap (λ t. t * 2 ^ k) (zero-or b))

pub or_below : (k a b : ℕ) → a < 2 ^ k → bit_or (b * 2 ^ k) a ≡ a + b * 2 ^ k
or_below k a b h =
    let padded : a ≡ a + 0 * 2 ^ k = omega arith in
    let raised : b * 2 ^ k ≡ 0 + b * 2 ^ k = omega arith in
    ap (λ x. bit_or (b * 2 ^ k) x) padded
    ∙ ap (λ x. bit_or x (a + 0 * 2 ^ k)) raised
    ∙ or_split k 0 b a 0 (pow_pos k) h
    ∙ omega (arith, zero-or a, ap (λ t. t * 2 ^ k) (or-zero b b (omega arith)))
