-- ===== src/Od/Eds/Limits.antt =====
-- Which limits an EDS file can give a signed variable (canopen/objectdictionary/eds.py).
use canopen_asyncio.Od.Eds.{
  signed_int, int_ltb, minus, limit, read_limit, is_signed_type, calc_bit_length,
  signed_int_from_hex, int_of_text,
}
use mathlib.Core.Path.{subst}
use native.Mathlib.Nat.{pow-suc}
use canopen_asyncio.Od.Types.{Text}
use canopen_asyncio.Common.Fields.{pow_pos}
use canopen_asyncio.Common.Int.{ℤ, pos, negsuc, difference, low_bits}
use canopen_asyncio.Common.Monad.{Result, ok, err, value_error}
use canopen_asyncio.Common.{
  Bool-cases, leb→le, ℕ, suc, ◌-◌, ◌*◌, ◌%◌, ◌^◌, ◌<◌, ◌≤◌, ◌≡◌, refl, sym, leb, Option, some, none,
  ◌⊎◌, inl, inr, true, arith,
}

-- A number of `suc v` bits in two's complement.
unfoldable pub IsSigned : ℕ → ℤ → Type 0
IsSigned v (pos x) = x < 2 ^ v
IsSigned v (negsuc x) = x < 2 ^ v

-- A literal that stands for such a number: it, or its pattern as an unsigned number.
unfoldable pub IsLiteral : ℕ → ℤ → Type 0
IsLiteral v (pos x) = x < 2 ^ suc v
IsLiteral v (negsuc x) = x < 2 ^ v

-- What a reading of the literal `n` may be: the number with its low bits, or nothing when it is none.
unfoldable pub IsReading : ℕ → ℤ → Option ℤ → Type 0
unfolding IsSigned IsLiteral
IsReading v n (some z) = IsLiteral v n × IsSigned v z × (low_bits z (suc v) ≡ low_bits n (suc v))
IsReading v n none = ¬ IsLiteral v n

accepted : Result ℤ → Option ℤ
accepted (ok z) = some z
accepted (err e) = none

lt_or_le : (x y : ℕ) → (x < y) ⊎ (y ≤ x)
lt_or_le x y = elim (Bool-cases (leb y x)) [
  | inl above ↦ inr (leb→le y x above)
  | inr below ↦ inl (ground (arith, below))
]

double : (v : ℕ) → 2 ^ suc v ≡ 2 ^ v * 2
double v = omega (arith, pow-suc 2 v)

mod_small : (x d : ℕ) → x < d → x % d ≡ x
mod_small x d h = grind arith

int_pos-small : (v x : ℕ) → x < 2 ^ v → signed_int (pos x) (suc v) ≡ ok (pos x)
unfolding signed_int int_ltb minus difference
int_pos-small v x h =
    let two : 2 ^ suc v ≡ 2 ^ v * 2 = double v in ground (arith, h, two, pow_pos v)

int_pos-pattern :
    (v x : ℕ)
    → 2 ^ v ≤ x
    → x < 2 ^ suc v
    → signed_int (pos x) (suc v) ≡ ok (negsuc (2 ^ suc v - x - 1))
unfolding signed_int int_ltb minus difference
int_pos-pattern v x above h =
    let two : 2 ^ suc v ≡ 2 ^ v * 2 = double v in ground (arith, above, h, two, pow_pos v)

int_pos-large : (v x : ℕ) → 2 ^ suc v ≤ x → signed_int (pos x) (suc v) ≡ err value_error
unfolding signed_int int_ltb minus difference
int_pos-large v x above =
    let two : 2 ^ suc v ≡ 2 ^ v * 2 = double v in ground (arith, above, two, pow_pos v)

int_negsuc-small : (v x : ℕ) → x < 2 ^ v → signed_int (negsuc x) (suc v) ≡ ok (negsuc x)
unfolding signed_int int_ltb minus difference
int_negsuc-small v x h = ground (arith, h, pow_pos v)

int_negsuc-large : (v x : ℕ) → 2 ^ v ≤ x → signed_int (negsuc x) (suc v) ≡ err value_error
unfolding signed_int int_ltb minus difference
int_negsuc-large v x above = ground (arith, above, pow_pos v)

signed_int-IsReading : (v : ℕ) (n : ℤ) → IsReading v n (accepted (signed_int n (suc v)))
unfolding IsReading IsSigned IsLiteral accepted low_bits
signed_int-IsReading v (pos x) = elim (lt_or_le x (2 ^ suc v)) [
  | inl h ↦ elim (lt_or_le x (2 ^ v)) [
    | inl small ↦
        subst (λ r. IsReading v (pos x) (accepted r)) (sym (int_pos-small v x small))
          (h, small, refl)
    | inr above ↦
        let two : 2 ^ suc v ≡ 2 ^ v * 2 = double v in
        let low : 2 ^ suc v - 1 - (2 ^ suc v - x - 1) % 2 ^ suc v ≡ x % 2 ^ suc v = omega (
          arith,
          mod_small x (2 ^ suc v) h,
          mod_small (2 ^ suc v - x - 1) (2 ^ suc v) (omega arith),
        ) in
        subst (λ r. IsReading v (pos x) (accepted r)) (sym (int_pos-pattern v x above h))
          (h, omega (arith, two, above, h), low)
  ]
  | inr above ↦
      subst (λ r. IsReading v (pos x) (accepted r)) (sym (int_pos-large v x above))
        (λ h. omega (arith, h, above))
]
signed_int-IsReading v (negsuc x) = elim (lt_or_le x (2 ^ v)) [
  | inl small ↦
      subst (λ r. IsReading v (negsuc x) (accepted r)) (sym (int_negsuc-small v x small))
        (small, small, refl)
  | inr above ↦
      subst (λ r. IsReading v (negsuc x) (accepted r)) (sym (int_negsuc-large v x above))
        (λ h. omega (arith, h, above))
]

-- A limit of a signed type, whose text reads as a number: when the number is one of the type or the
-- unsigned pattern of one, the limit is the number of the type with the same low bits. Otherwise the
-- limit is left out.
pub limit-IsReading :
    (parse_int : Text → Option ℤ) (data_type : ℕ) (text : Text) (number : ℤ) (v : ℕ)
    → is_signed_type data_type ≡ true
    → calc_bit_length data_type ≡ ok (suc v)
    → parse_int text ≡ some number
    → IsReading v number (limit parse_int data_type text)
unfolding limit read_limit signed_int_from_hex int_of_text accepted
limit-IsReading parse_int data_type text number v is_signed width parsed =
    let same : limit parse_int data_type text ≡ accepted (signed_int number (suc v)) =
      grind (arith, is_signed, width, parsed) in
    subst (λ r. IsReading v number r) (sym same) (signed_int-IsReading v number)
