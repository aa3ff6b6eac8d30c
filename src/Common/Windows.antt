-- ===== src/Common/Windows.antt =====
-- A window of a byte string as a field of its number.
use canopen_asyncio.Common.Lists.{
  length, take, drop, All, take-append-drop, length-take, length-drop,
}
use canopen_asyncio.Common.Bytes.{Bytes, IsByte, from_le, from_le-lt}
use canopen_asyncio.Common.Fields.{pow_add, div_of, mod_of}
use canopen_asyncio.Common.Numbers.{field, replaced}
use Prim.Native.Nat.{ℕ, zero, suc, ◌+◌, ◌*◌, ◌/◌, ◌%◌, ◌^◌, ◌<◌, ◌≤◌}
use mathlib.Core.Path.{◌≡◌, refl, ap, ◌∙◌, sym}
use mathlib.Core.List.{List, [], ◌∷◌, ◌++◌}
use native.Mathlib.Omega.{arith}
use native.Mathlib.Nat.{pow-suc}

pub bytes_bits : (k : ℕ) → 256 ^ k ≡ 2 ^ (8 * k)
bytes_bits zero = refl
bytes_bits (suc k) =
    let e : 8 * k + 8 ≡ 8 * suc k = omega arith in
    omega (arith, pow-suc 256 k, bytes_bits k, pow_add 8 (8 * k), ap (λ n. 2 ^ n) e)

assoc_256' : (w x : ℕ) → 256 * (w * x) ≡ 256 * w * x
assoc_256' w x = grind arith

pub from_le-append :
    (xs ys : Bytes) → from_le (xs ++ ys) ≡ from_le xs + from_le ys * 256 ^ length xs
unfolding from_le
from_le-append [] ys = omega arith
from_le-append (x ∷ xs) ys = omega (
  arith,
  from_le-append xs ys,
  pow-suc 256 (length xs),
  shift (from_le ys) (256 ^ length xs),
  ap (λ t. from_le ys * t) (pow-suc 256 (length xs)),
)
  where
    shift : (y p : ℕ) → 256 * (y * p) ≡ y * (p * 256)
    shift y p = grind arith

pub All-take : (P : ℕ → Type 0) (n : ℕ) (xs : List ℕ) → All P xs → All P (take n xs)
All-take P zero xs h = tt
All-take P (suc n) [] h = tt
All-take P (suc n) (x ∷ xs) (hx, h) = (hx, All-take P n xs h)

pub All-drop : (P : ℕ → Type 0) (n : ℕ) (xs : List ℕ) → All P xs → All P (drop n xs)
All-drop P zero xs h = h
All-drop P (suc n) [] h = tt
All-drop P (suc n) (x ∷ xs) (hx, h) = All-drop P n xs h

pub All-append : (P : ℕ → Type 0) (xs ys : List ℕ) → All P xs → All P ys → All P (xs ++ ys)
All-append P [] ys hx hy = hy
All-append P (x ∷ xs) ys (h, hx) hy = (h, All-append P xs ys hx hy)

drop_nil : (n : ℕ) → drop {A = ℕ} n [] ≡ []
drop_nil zero = refl
drop_nil (suc n) = refl

pub drop-drop : (m n : ℕ) (xs : List ℕ) → drop (m + n) xs ≡ drop n (drop m xs)
drop-drop zero n xs = ap (λ k. drop k xs) (omega arith)
drop-drop (suc m) n [] = drop_nil (suc m + n) ∙ sym (drop_nil n)
drop-drop (suc m) n (x ∷ xs) =
    let e : suc m + n ≡ suc (m + n) = omega arith in ap (λ k. drop k (x ∷ xs)) e ∙ drop-drop m n xs

-- The number below `at`, and the number from `at` on.
parts :
    (at : ℕ) (bs : Bytes)
    → at ≤ length bs
    → from_le bs ≡ from_le (take at bs) + from_le (drop at bs) * 2 ^ (8 * at)
parts at bs h =
    ap from_le (sym (take-append-drop at bs))
    ∙ from_le-append (take at bs) (drop at bs)
    ∙ ap (λ k. from_le (take at bs) + from_le (drop at bs) * 256 ^ k)
        (omega (arith, length-take at bs))
    ∙ ap (λ p. from_le (take at bs) + from_le (drop at bs) * p) (bytes_bits at)

take-lt : (n : ℕ) (bs : Bytes) → All IsByte bs → n ≤ length bs → from_le (take n bs) < 2 ^ (8 * n)
take-lt n bs h k =
    let len : length (take n bs) ≡ n = omega (arith, length-take n bs, k) in
    omega
      (arith, from_le-lt (take n bs) (All-take IsByte n bs h), ap (λ m. 256 ^ m) len, bytes_bits n)

module _ (bs : Bytes) (h : All IsByte bs) where
  -- The number of the bytes from `at` on, and of `k` bytes from there.
  drop-quotient : (at : ℕ) → at ≤ length bs → from_le bs / 2 ^ (8 * at) ≡ from_le (drop at bs)
  drop-quotient at le =
      ap (λ n. n / 2 ^ (8 * at)) (parts at bs le)
      ∙ div_of (from_le (take at bs)) (from_le (drop at bs)) (2 ^ (8 * at)) (take-lt at bs h le)

  take-remainder : (at : ℕ) → at ≤ length bs → from_le bs % 2 ^ (8 * at) ≡ from_le (take at bs)
  take-remainder at le =
      ap (λ n. n % 2 ^ (8 * at)) (parts at bs le)
      ∙ mod_of (from_le (take at bs)) (from_le (drop at bs)) (2 ^ (8 * at)) (take-lt at bs h le)

module _ (bs : Bytes) (h : All IsByte bs) where
  -- Some bytes of a byte string, as a field of its number.
  pub from_le-window :
      (at k : ℕ)
      → at + k ≤ length bs
      → from_le (take k (drop at bs)) ≡ field (from_le bs) (8 * at) (8 * k)
  unfolding field
  from_le-window at k le = sym (
      ap (λ n. n % 2 ^ (8 * k)) (drop-quotient bs h at (omega arith))
      ∙ take-remainder (drop at bs) (All-drop IsByte at bs h) k (omega (arith, length-drop at bs)))

-- Some bytes of a byte string that are replaced, as a replaced field.
module _ (bs : Bytes) (h : All IsByte bs) where
  pub from_le-splice :
      (at : ℕ) (content : Bytes)
      → at + length content ≤ length bs
      → from_le (take at bs ++ (content ++ drop (at + length content) bs))
        ≡ replaced (from_le bs) (8 * at) (8 * length content) (from_le content)
  unfolding replaced
  from_le-splice at content le =
      from_le-append (take at bs) (content ++ rest)
      ∙ ap (λ n. from_le (take at bs) + n * 256 ^ length (take at bs)) (from_le-append content rest)
      ∙ ap (λ n. from_le (take at bs) + (from_le content + from_le rest * 256 ^ length content) * n)
          head_weight
      ∙ ap (λ n. from_le (take at bs) + (from_le content + from_le rest * n) * 2 ^ (8 * at))
          (bytes_bits (length content))
      ∙ ap
          (λ n.
            from_le (take at bs) + (from_le content + n * 2 ^ (8 * length content)) * 2 ^ (8 * at))
          above
      ∙ ap
          (λ n.
            n
            + (from_le content
                + from_le bs / 2 ^ (8 * at) / 2 ^ (8 * length content) * 2 ^ (8 * length content))
              * 2 ^ (8 * at))
          (sym (take-remainder bs h at (omega arith)))
    where
      rest : Bytes
      rest = drop (at + length content) bs

      head_weight : 256 ^ length (take at bs) ≡ 2 ^ (8 * at)
      head_weight =
          let len : length (take at bs) ≡ at = omega (arith, length-take at bs, le) in
          ap (λ k. 256 ^ k) len ∙ bytes_bits at

      above : from_le rest ≡ from_le bs / 2 ^ (8 * at) / 2 ^ (8 * length content)
      above =
          ap from_le (drop-drop at (length content) bs)
          ∙ sym (
              drop-quotient (drop at bs) (All-drop IsByte at bs h) (length content)
                (omega (arith, length-drop at bs)))
          ∙ ap (λ n. n / 2 ^ (8 * length content)) (sym (drop-quotient bs h at (omega arith)))
