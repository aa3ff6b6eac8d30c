-- ===== src/Lss/Upper.antt =====
-- A number without its low bits, and the next bit, as the inner loop of the fast scan sets it.
use canopen_asyncio.Common.Bits.{or_bit}
use canopen_asyncio.Lss.Slave.{confirms}
use canopen_asyncio.Common.{
  inr, inl, ◌∙◌, ap, sym, bit_or, Bool-cases, ==_iff, if◌then◌else◌, ℕ, suc, ◌+◌, ◌*◌, ◌/◌, ◌^◌,
  ◌<◌, ◌≤◌, ◌≡◌, arith, ◌==◌,
}
use native.Mathlib.Nat.{pow-suc, div-div-eq-div-mul, mul-div_cancel, mul-div-le, one-le-pow}

-- One more bit of a number.
next_bit : (x bit : ℕ) → x / 2 ^ suc bit ≡ x / 2 ^ bit / 2
next_bit x bit =
    let hp : 2 ^ suc bit ≡ 2 ^ bit * 2 = omega (arith, pow-suc 2 bit) in
    ap (λ p. x / p) hp ∙ sym (div-div-eq-div-mul x (2 ^ bit) 2)

-- The bits of a number from `bit` up, the others being 0.
unfoldable pub upper : ℕ → ℕ → ℕ
upper x bit = x / 2 ^ bit * 2 ^ bit

pub upper_le : (x bit : ℕ) → upper x bit ≤ x
unfolding upper
upper_le x bit = omega (arith, mul-div-le x (2 ^ bit), swap (x / 2 ^ bit) (2 ^ bit))
  where
    swap : (a b : ℕ) → a * b ≡ b * a
    swap a b = grind arith

pub upper-zero : (x : ℕ) → upper x 0 ≡ x
unfolding upper
upper-zero x = omega arith

-- All 32 bits are open at first.
pub upper-all : (x : ℕ) → x < 2 ^ 32 → upper x 32 ≡ 0
unfolding upper
upper-all x h = omega arith

regroup : (h p : ℕ) → h * (p * 2) ≡ h * 2 * p
regroup h p = grind arith

one_more : (h p : ℕ) → h * 2 * p + p ≡ (h * 2 + 1) * p
one_more h p = grind arith

-- The bits above `bit`, as a multiple of twice its weight.
upper-suc : (x bit : ℕ) → upper x (suc bit) ≡ x / 2 ^ bit / 2 * 2 * 2 ^ bit
unfolding upper
upper-suc x bit =
    let hp : 2 ^ suc bit ≡ 2 ^ bit * 2 = omega (arith, pow-suc 2 bit) in
    ap (λ q. q * 2 ^ suc bit) (next_bit x bit)
    ∙ ap (λ p. x / 2 ^ bit / 2 * p) hp
    ∙ regroup (x / 2 ^ bit / 2) (2 ^ bit)

-- What the inner loop makes of a bit, on a slave that tells the truth, is right.
pub next_upper :
    (x bit : ℕ)
    → (if confirms x (upper x (suc bit)) bit
        then upper x (suc bit)
        else bit_or (upper x (suc bit)) (2 ^ bit))
      ≡ upper x bit
unfolding confirms upper
next_upper x bit =
    let h : ℕ = x / 2 ^ bit / 2 in
    let e : x / 2 ^ suc bit * 2 ^ suc bit ≡ h * 2 * 2 ^ bit = upper-suc x bit in
    let quotient : x / 2 ^ suc bit * 2 ^ suc bit / 2 ^ bit ≡ h * 2 =
      ap (λ n. n / 2 ^ bit) e
      ∙ mul-div_cancel (h * 2) (omega (arith, one-le-pow bit 2 (omega arith))) in
    elim (Bool-cases (h * 2 == x / 2 ^ bit)) [
      | inl even ↦
          ground (arith, quotient, e, ap (λ q. q * 2 ^ bit) ((==_iff (h * 2) (x / 2 ^ bit)).0 even))
      | inr odd ↦
          let up : h * 2 + 1 ≡ x / 2 ^ bit = ground arith in
          ground (
            arith,
            quotient,
            ap (λ n. bit_or n (2 ^ bit)) e,
            or_bit bit h,
            one_more h (2 ^ bit),
            ap (λ q. q * 2 ^ bit) up,
          )
    ]
