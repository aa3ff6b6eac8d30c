-- ===== src/Common/Numbers.antt =====
-- Reading and replacing a field of bits in a number.
use canopen_asyncio.Common.Fields.{pow_pos, pow_add, div_of, mod_of}
use Prim.Native.Nat.{ℕ, ◌+◌, ◌-◌, ◌*◌, ◌/◌, ◌%◌, ◌^◌, ◌<◌, ◌≤◌}
use mathlib.Core.Path.{◌≡◌, refl, ap, ◌∙◌, sym}
use mathlib.Core.Logic.{◌⊎◌, inl, inr}
use native.Mathlib.Omega.{arith}
use native.Mathlib.Nat.{
  div-div-eq-div-mul, mod-add-div, mod-add-div', mod-lt, add-mul-div_right, add-mul-mod_self_right,
}

-- The bits from `start` on, `len` of them.
unfoldable pub field : ℕ → ℕ → ℕ → ℕ
field n start len = n / 2 ^ start % 2 ^ len

-- The same number with that field set to `value`.
unfoldable pub replaced : ℕ → ℕ → ℕ → ℕ → ℕ
replaced n start len value = n % 2 ^ start + (value + n / 2 ^ start / 2 ^ len * 2 ^ len) * 2 ^ start

pub field-lt : (n start len : ℕ) → field n start len < 2 ^ len
unfolding field
field-lt n start len = mod-lt (n / 2 ^ start) (pow_pos len)

replaced-above :
    (n start len value : ℕ)
    → replaced n start len value / 2 ^ start ≡ value + n / 2 ^ start / 2 ^ len * 2 ^ len
unfolding replaced
replaced-above n start len value = div_of (n % 2 ^ start) _ (2 ^ start) (mod-lt n (pow_pos start))

-- What was set is read.
pub field-replaced :
    (n start len value : ℕ) → value < 2 ^ len → field (replaced n start len value) start len ≡ value
unfolding field
field-replaced n start len value h =
    ap (λ x. x % 2 ^ len) (replaced-above n start len value) ∙ mod_of value _ (2 ^ len) h

regroup : (q s l r : ℕ) → q * (s * (l * r)) ≡ q * r * l * s
regroup q s l r = grind arith

-- A number is its remainder and multiples of the field's upper end.
split_at :
    (n start len r : ℕ)
    → n ≡ n % 2 ^ (start + (len + r)) + n / 2 ^ (start + (len + r)) * 2 ^ r * 2 ^ len * 2 ^ start
split_at n start len r =
    let k = start + (len + r) in
    let hk : 2 ^ k ≡ 2 ^ start * (2 ^ len * 2 ^ r) =
      pow_add (len + r) start ∙ ap (λ t. 2 ^ start * t) (pow_add r len) in
    let e : n / 2 ^ k * 2 ^ k ≡ n / 2 ^ k * 2 ^ r * 2 ^ len * 2 ^ start =
      ap (λ t. n / 2 ^ k * t) hk ∙ regroup (n / 2 ^ k) (2 ^ start) (2 ^ len) (2 ^ r) in
    omega (arith, mod-add-div' n (2 ^ k), e)

-- A field below a bit is one of the remainder.
field-low : (n start len r : ℕ) → field n start len ≡ field (n % 2 ^ (start + (len + r))) start len
unfolding field
field-low n start len r =
    let k = start + (len + r) in
    ap (λ x. x / 2 ^ start % 2 ^ len) (split_at n start len r)
    ∙ ap (λ x. x % 2 ^ len)
        (add-mul-div_right (n % 2 ^ k) (n / 2 ^ k * 2 ^ r * 2 ^ len) (pow_pos start))
    ∙ add-mul-mod_self_right (n % 2 ^ k / 2 ^ start) (n / 2 ^ k * 2 ^ r) (2 ^ len)

-- Two shifts are one.
pub shift_twice : (n j k : ℕ) → n / 2 ^ j / 2 ^ k ≡ n / 2 ^ (j + k)
shift_twice n j k = div-div-eq-div-mul n (2 ^ j) (2 ^ k) ∙ ap (λ t. n / t) (sym (pow_add k j))

-- A field above a bit is one of the quotient.
field-high : (n k d len : ℕ) → field n (k + d) len ≡ field (n / 2 ^ k) d len
unfolding field
field-high n k d len = ap (λ x. x % 2 ^ len) (sym (shift_twice n k d))

replaced-low : (n start len value : ℕ) → replaced n start len value % 2 ^ start ≡ n % 2 ^ start
unfolding replaced
replaced-low n start len value = mod_of (n % 2 ^ start) _ (2 ^ start) (mod-lt n (pow_pos start))

replaced-high :
    (n start len value : ℕ)
    → value < 2 ^ len
    → replaced n start len value / 2 ^ (start + len) ≡ n / 2 ^ (start + len)
replaced-high n start len value h =
    sym (shift_twice (replaced n start len value) start len)
    ∙ ap (λ x. x / 2 ^ len) (replaced-above n start len value)
    ∙ div_of value _ (2 ^ len) h
    ∙ shift_twice n start len

-- A field that does not overlap is left as it is.
pub field-replaced_other :
    (n start len value from count : ℕ)
    → value < 2 ^ len
    → (from + count ≤ start) ⊎ (start + len ≤ from)
    → field (replaced n start len value) from count ≡ field n from count
field-replaced_other n start len value from count h (inl below) =
    let new = replaced n start len value in
    let r : ℕ = start - (from + count) in
    let e : from + (count + r) ≡ start = omega arith in
    field-low new from count r
    ∙ ap (λ k. field (new % 2 ^ k) from count) e
    ∙ ap (λ x. field x from count) (replaced-low n start len value)
    ∙ ap (λ k. field (n % 2 ^ k) from count) (sym e)
    ∙ sym (field-low n from count r)
field-replaced_other n start len value from count h (inr above) =
    let new = replaced n start len value in
    let d : ℕ = from - (start + len) in
    let e : start + len + d ≡ from = omega arith in
    ap (λ k. field new k count) (sym e)
    ∙ field-high new (start + len) d count
    ∙ ap (λ x. field x d count) (replaced-high n start len value h)
    ∙ sym (field-high n (start + len) d count)
    ∙ ap (λ k. field n k count) e

-- A field of a window of a number is a field of the number.
pub field-window :
    (n base window start len : ℕ)
    → start + len ≤ window
    → field (field n base window) start len ≡ field n (base + start) len
unfolding field
field-window n base window start len h =
    let r : ℕ = window - (start + len) in
    let e : start + (len + r) ≡ window = omega arith in
    ap (λ k. field (n / 2 ^ base % 2 ^ k) start len) (sym e)
    ∙ sym (field-low (n / 2 ^ base) start len r)
    ∙ sym (field-high n base start len)

distribute : (v h x l s : ℕ) → (v + (h + x) * l) * s ≡ (v + h * l) * s + x * l * s
distribute v h x l s = grind arith

-- What is above the window is not touched.
replaced-split :
    (m start len r value : ℕ)
    → let k = start + (len + r) in
      replaced m start len value ≡ replaced (m % 2 ^ k) start len value + m / 2 ^ k * 2 ^ k
unfolding replaced
replaced-split m start len r value =
    let k = start + (len + r) in
    let x = m / 2 ^ k * 2 ^ r in
    let low : m % 2 ^ start ≡ m % 2 ^ k % 2 ^ start =
      ap (λ n. n % 2 ^ start) (split_at m start len r)
      ∙ add-mul-mod_self_right (m % 2 ^ k) (x * 2 ^ len) (2 ^ start) in
    let high : m / 2 ^ start ≡ m % 2 ^ k / 2 ^ start + x * 2 ^ len =
      ap (λ n. n / 2 ^ start) (split_at m start len r)
      ∙ add-mul-div_right (m % 2 ^ k) (x * 2 ^ len) (pow_pos start) in
    let top : m / 2 ^ start / 2 ^ len ≡ m % 2 ^ k / 2 ^ start / 2 ^ len + x =
      ap (λ n. n / 2 ^ len) high ∙ add-mul-div_right (m % 2 ^ k / 2 ^ start) x (pow_pos len) in
    let whole : m / 2 ^ k * 2 ^ k ≡ x * 2 ^ len * 2 ^ start =
      omega (arith, mod-add-div' m (2 ^ k), split_at m start len r) in
    omega (
      arith,
      low,
      ap (λ t. (value + t * 2 ^ len) * 2 ^ start) top,
      distribute value (m % 2 ^ k / 2 ^ start / 2 ^ len) x (2 ^ len) (2 ^ start),
      whole,
    )

times_sum : (a b c : ℕ) → (a + b) * c ≡ a * c + b * c
times_sum a b c = grind arith

swap_factors : (b s q : ℕ) → b * s * q ≡ q * s * b
swap_factors b s q = grind arith

mod_product : (n b s : ℕ) → n % (b * s) ≡ n % b + n / b % s * b
mod_product n b s =
    let e : b * s * (n / (b * s)) ≡ n / b / s * s * b =
      ap (λ t. b * s * t) (sym (div-div-eq-div-mul n b s)) ∙ swap_factors b s (n / b / s) in
    omega (
      arith,
      e,
      mod-add-div n (b * s),
      mod-add-div' n b,
      ap (λ t. t * b) (mod-add-div' (n / b) s),
      times_sum (n / b % s) (n / b / s * s) b,
    )

nest : (a v h l s b : ℕ) → a * b + (v + h * l) * (b * s) ≡ (a + (v + h * l) * s) * b
nest a v h l s b = grind arith

-- A field above a base is one of what is above it.
replaced-base :
    (n base start len value : ℕ)
    → replaced n (base + start) len value
      ≡ n % 2 ^ base + replaced (n / 2 ^ base) start len value * 2 ^ base
unfolding replaced
replaced-base n base start len value =
    let b = 2 ^ base in
    let s = 2 ^ start in
    let power : 2 ^ (base + start) ≡ b * s = pow_add start base in
    let low : n % 2 ^ (base + start) ≡ n % b + n / b % s * b =
      ap (λ t. n % t) power ∙ mod_product n b s in
    let high : n / 2 ^ (base + start) ≡ n / b / s = sym (shift_twice n base start) in
    let top = ap (λ t. value + t / 2 ^ len * 2 ^ len) high in
    let scaled : (value + n / 2 ^ (base + start) / 2 ^ len * 2 ^ len) * 2 ^ (base + start)
        ≡ (value + n / b / s / 2 ^ len * 2 ^ len) * (b * s) =
      ap (λ t. t * 2 ^ (base + start)) top
      ∙ ap (λ t. (value + n / b / s / 2 ^ len * 2 ^ len) * t) power in
    omega (arith, low, scaled, nest (n / b % s) value (n / b / s / 2 ^ len) (2 ^ len) s b)

-- Replacing a field of a window is replacing it in the number.
pub replaced-window :
    (n base window start len value : ℕ)
    → start + len ≤ window
    → replaced n base window (replaced (field n base window) start len value)
      ≡ replaced n (base + start) len value
unfolding field
replaced-window n base window start len value h =
    let r : ℕ = window - (start + len) in
    let e : start + (len + r) ≡ window = omega arith in
    let m = n / 2 ^ base in
    let split : replaced m start len value
        ≡ replaced (m % 2 ^ window) start len value + m / 2 ^ window * 2 ^ window =
      replaced-split m start len r value
      ∙ ap (λ k. replaced (m % 2 ^ k) start len value + m / 2 ^ k * 2 ^ k) e in
    outer n base window (replaced (m % 2 ^ window) start len value)
    ∙ ap (λ t. n % 2 ^ base + t * 2 ^ base) (sym split)
    ∙ sym (replaced-base n base start len value)
  where
    outer :
        (n base window value : ℕ)
        → replaced n base window value
          ≡ n % 2 ^ base + (value + n / 2 ^ base / 2 ^ window * 2 ^ window) * 2 ^ base
    outer n base window value = unfold replaced in refl
