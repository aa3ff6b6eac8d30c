-- ===== src/Common/Bits.antt =====
-- Facts about the bit operations, at masks and shifts that the frames use.
use canopen_asyncio.Common.Tests.{◌==◌, ==_iff, all_below, all_below_sound}
use Prim.Native.Nat.{
  ℕ, zero, suc, ◌+◌, ◌*◌, ◌/◌, ◌%◌, ◌^◌, ◌<◌, ◌≤◌, bit_and, bit_or, bit_and-bitwise, bit_or-bitwise,
  digits, min, max,
}
use mathlib.Core.Path.{◌≡◌, refl, ap, ◌∙◌, sym}
use native.Mathlib.Omega.{arith}
use native.Mathlib.Nat.{pow-suc}

-- `x & 0xE0`, the command specifier of a byte.
pub and_specifier : (x : ℕ) → x < 256 → bit_and x 0xE0 ≡ x / 32 * 32
unfolding all_below
and_specifier x h =
    (==_iff _ _).0 (all_below_sound 256 (λ x. bit_and x 0xE0 == x / 32 * 32) x refl h)

-- Any count of digits that the first number leaves unused gives the same result.
digits_enough :
    (z : ℕ → ℕ) (f : ℕ → ℕ → ℕ) (more less x y : ℕ)
    → x ≤ less
    → x ≤ more
    → digits z f more x y ≡ digits z f less x y
digits_enough z f zero zero x y hl hm = refl
digits_enough z f (suc more) zero zero y hl hm = refl
digits_enough z f more zero (suc x) y hl hm = elim hl [ ]
digits_enough z f zero (suc less) zero y hl hm = refl
digits_enough z f zero less (suc x) y hl hm = elim hm [ ]
digits_enough z f (suc more) (suc less) zero y hl hm = refl
digits_enough z f (suc more) (suc less) (suc x) y hl hm =
    ap (λ above. above * 2 + f (suc x % 2) (y % 2))
      (digits_enough z f more less (suc x / 2) (y / 2) (omega arith) (omega arith))

-- The lowest digit of a conjunction, and what is above it.
pub and_digit : (a b : ℕ) → bit_and a b ≡ bit_and (a / 2) (b / 2) * 2 + min (a % 2) (b % 2)
and_digit zero b = omega (arith, bit_and-bitwise 0 b, bit_and-bitwise 0 (b / 2))
and_digit (suc a) b = omega (
  arith,
  bit_and-bitwise (suc a) b,
  bit_and-bitwise (suc a / 2) (b / 2),
  digits_enough (λ b. zero) min a (suc a / 2) (suc a / 2) (b / 2) (omega arith) (omega arith),
)

pub zero-or : (b : ℕ) → bit_or 0 b ≡ b
zero-or b = bit_or-bitwise 0 b

pub or_digit : (a b : ℕ) → bit_or a b ≡ bit_or (a / 2) (b / 2) * 2 + max (a % 2) (b % 2)
or_digit zero b = omega (arith, zero-or b, zero-or (b / 2))
or_digit (suc a) b = omega (
  arith,
  bit_or-bitwise (suc a) b,
  bit_or-bitwise (suc a / 2) (b / 2),
  digits_enough (λ b. b) max a (suc a / 2) (suc a / 2) (b / 2) (omega arith) (omega arith),
)

pub or-zero : (n a : ℕ) → a ≤ n → bit_or a 0 ≡ a
or-zero n zero h = refl
or-zero zero (suc a) h = elim h [ ]
or-zero (suc n) (suc a) h = omega (arith, or_digit (suc a) 0, or-zero n (suc a / 2) (omega arith))

or_double : (a b : ℕ) → bit_or (a * 2) (b * 2) ≡ bit_or a b * 2
or_double a b =
    let ha : a * 2 / 2 ≡ a = omega arith in
    let hb : b * 2 / 2 ≡ b = omega arith in
    omega
      (arith, or_digit (a * 2) (b * 2), ap (λ x. bit_or x (b * 2 / 2)) ha, ap (λ y. bit_or a y) hb)

or_one : (q : ℕ) → bit_or (q * 2) 1 ≡ q * 2 + 1
or_one q =
    let h : q * 2 / 2 ≡ q = omega arith in
    omega (arith, or_digit (q * 2) 1, ap (λ x. bit_or x 0) h, or-zero q q (omega arith))

-- A bit that is set above zeros is an addition.
pub or_bit : (k q : ℕ) → bit_or (q * 2 * 2 ^ k) (2 ^ k) ≡ q * 2 * 2 ^ k + 2 ^ k
or_bit zero q =
    let h : q * 2 * 1 ≡ q * 2 = omega arith in omega (arith, ap (λ x. bit_or x 1) h, or_one q)
or_bit (suc k) q =
    let hk : 2 ^ suc k ≡ 2 ^ k * 2 = omega (arith, pow-suc 2 k) in
    let hq : q * 2 * 2 ^ suc k ≡ q * 2 * 2 ^ k * 2 = grind (arith, hk) in
    ap (λ x. bit_or x (2 ^ suc k)) hq
    ∙ ap (λ y. bit_or (q * 2 * 2 ^ k * 2) y) hk
    ∙ or_double (q * 2 * 2 ^ k) (2 ^ k)
    ∙ omega (arith, or_bit k q, hk, hq)

-- The lowest digit of both sides, when what is above agrees.
and_agree :
    (a b m : ℕ)
    → a % 2 ≡ b % 2
    → bit_and (a / 2) (m / 2) ≡ bit_and (b / 2) (m / 2)
    → bit_and a m ≡ bit_and b m
and_agree a b m low high = omega (arith, and_digit a m, and_digit b m, ap (λ x. min x (m % 2)) low)

pub and_zero : (n a : ℕ) → a ≤ n → bit_and a 0 ≡ 0
and_zero n zero h = refl
and_zero zero (suc a) h = elim h [ ]
and_zero (suc n) (suc a) h =
    omega (arith, and_digit (suc a) 0, and_zero n (suc a / 2) (omega arith))

pub times_double : (c p : ℕ) → c * (p * 2) ≡ c * p * 2
times_double c p = grind arith

-- What is above the mask does not matter.
pub and_low : (k b c m : ℕ) → m < 2 ^ k → bit_and (b + c * 2 ^ k) m ≡ bit_and b m
and_low zero b c m h =
    let hm : m ≡ 0 = omega arith in
    ap (λ x. bit_and (b + c * 1) x) hm
    ∙ omega (arith, and_zero (b + c * 1) (b + c * 1) (omega arith), and_zero b b (omega arith))
    ∙ ap (λ x. bit_and b x) (sym hm)
and_low (suc k) b c m h =
    let hk : 2 ^ suc k ≡ 2 ^ k * 2 = omega (arith, pow-suc 2 k) in
    let hc : c * 2 ^ suc k ≡ c * 2 ^ k * 2 = ap (λ x. c * x) hk ∙ times_double c (2 ^ k) in
    let high : (b + c * 2 ^ suc k) / 2 ≡ b / 2 + c * 2 ^ k = omega (arith, hc) in
    and_agree (b + c * 2 ^ suc k) b m (omega (arith, hc))
      (ap (λ x. bit_and x (m / 2)) high ∙ and_low k (b / 2) c (m / 2) (omega (arith, hk)))

-- A byte mask above the low byte.
pub and_high : (b m : ℕ) → bit_and b (m * 2) ≡ bit_and (b / 2) m * 2
and_high b m =
    let h : m * 2 / 2 ≡ m = omega arith in
    omega (arith, and_digit b (m * 2), ap (λ x. bit_and (b / 2) x) h)
