-- ===== src/Od/Structs/RoundTrip.antt =====
-- The packers read back what they wrote (canopen/objectdictionary/datatypes.py and `struct`).
use canopen_asyncio.Common.Bytes.{
  take-le_bytes, from_le-le_bytes, length-le_bytes, from_le, le_bytes, Bytes,
}
use canopen_asyncio.Common.Int.{pos, negsuc, ℤ}
use canopen_asyncio.Common.Monad.{err, struct_error, ok}
use canopen_asyncio.Od.Structs.{
  unsigned_n_unpack, unsigned_n_pack, container, unpack_signed, to_signed, unpack_unsigned,
  pack_signed, pack_unsigned,
}
use canopen_asyncio.Common.{
  ◌⊎◌, length, ◌∙◌, ap, sym, length-replicate, length-append, inr, inl, replicate, Bool-cases,
  ltb→lt, ltb, ℕ, zero, suc, ◌+◌, ◌-◌, ◌*◌, ◌/◌, ◌%◌, ◌^◌, ◌<◌, ◌≤◌, ◌≡◌, refl, arith, [], ◌∷◌,
  ◌++◌,
}
use native.Mathlib.Nat.{pow-suc, div-div-eq-div-mul, mod-add-div}

pub unpack_unsigned-pack_unsigned :
    (k : ℕ) (z : ℤ) (bs : Bytes) → pack_unsigned k z ≡ ok bs → unpack_unsigned k bs ≡ ok z
unfolding pack_unsigned unpack_unsigned
unpack_unsigned-pack_unsigned k (pos n) bs h = elim (Bool-cases (ltb n (256 ^ k))) [
  | inl fits ↦ ground (arith, length-le_bytes k n, from_le-le_bytes k n (ltb→lt n (256 ^ k) fits))
  | inr wide ↦ absurd (ground arith)
]
unpack_unsigned-pack_unsigned k (negsuc n) bs h = absurd (ground arith)

to_signed-low : (k n : ℕ) → n < 256 ^ k / 2 → to_signed k n ≡ pos n
unfolding to_signed
to_signed-low k n h = ground arith

to_signed-high : (k n : ℕ) → n < 256 ^ k / 2 → to_signed k (256 ^ k - (n + 1)) ≡ negsuc n
unfolding to_signed
to_signed-high k n h =
    let p : 256 ^ k - (256 ^ k - (n + 1)) - 1 ≡ n = omega arith in ground (arith, p)

pub unpack_signed-pack_signed :
    (k : ℕ) (z : ℤ) (bs : Bytes) → pack_signed k z ≡ ok bs → unpack_signed k bs ≡ ok z
unfolding pack_signed unpack_signed
unpack_signed-pack_signed k (pos n) bs h = elim (Bool-cases (ltb n (256 ^ k / 2))) [
  | inl fits ↦
      let lt = ltb→lt n (256 ^ k / 2) fits in
      ground (arith, length-le_bytes k n, from_le-le_bytes k n (omega arith), to_signed-low k n lt)
  | inr wide ↦ absurd (ground arith)
]
unpack_signed-pack_signed k (negsuc n) bs h = elim (Bool-cases (ltb n (256 ^ k / 2))) [
  | inl fits ↦
      let lt = ltb→lt n (256 ^ k / 2) fits in
      let v : ℕ = 256 ^ k - (n + 1) in
      ground (arith, length-le_bytes k v, from_le-le_bytes k v (omega arith), to_signed-high k n lt)
  | inr wide ↦ absurd (ground arith)
]

from_le-zeros : (j : ℕ) → from_le (replicate j 0) ≡ 0
unfolding from_le
from_le-zeros zero = refl
from_le-zeros (suc j) = omega (arith, from_le-zeros j)

from_le-filled : (bs : Bytes) (j : ℕ) → from_le (bs ++ replicate j 0) ≡ from_le bs
unfolding from_le
from_le-filled [] j = from_le-zeros j
from_le-filled (b ∷ bs) j = omega (arith, from_le-filled bs j)

assoc_256 : (p q : ℕ) → 256 * p * q ≡ 256 * (p * q)
assoc_256 p q = grind arith

low_mod : (p n : ℕ) → n % (256 * p) ≡ n % 256 + 256 * (n / 256 % p)
low_mod p n =
    let d : n / 256 / p ≡ n / (256 * p) = div-div-eq-div-mul n 256 p in
    let e : 256 * p * (n / (256 * p)) ≡ 256 * (p * (n / 256 / p)) =
      ap (λ x. 256 * p * x) (sym d) ∙ assoc_256 p (n / 256 / p) in
    omega (arith, mod-add-div n (256 * p), mod-add-div (n / 256) p, e)

-- The low `k` bytes of a number are its remainder.
from_le-le_bytes_mod : (k n : ℕ) → from_le (le_bytes k n) ≡ n % 256 ^ k
unfolding from_le le_bytes
from_le-le_bytes_mod zero n = omega arith
from_le-le_bytes_mod (suc k) n =
    let hp : 256 ^ suc k ≡ 256 * 256 ^ k = omega (arith, pow-suc 256 k) in
    ap (λ r. n % 256 + 256 * r) (from_le-le_bytes_mod k (n / 256))
    ∙ sym (low_mod (256 ^ k) n)
    ∙ ap (λ p. n % p) (sym hp)

-- UnsignedN of `k` bytes, which are at most those of its struct format, reads back the remainder of
-- what it wrote by 256 ^ k.
pub unsigned_n_unpack-unsigned_n_pack :
    (k n : ℕ) (bs : Bytes)
    → k ≤ container k
    → unsigned_n_pack k (pos n) ≡ ok bs
    → unsigned_n_unpack k bs ≡ ok (pos (n % 256 ^ k))
unfolding unsigned_n_pack unsigned_n_unpack pack_unsigned unpack_unsigned
unsigned_n_unpack-unsigned_n_pack k n bs small h = elim (Bool-cases (ltb n (256 ^ container k))) [
  | inl fits ↦ ground (
    arith,
    take-le_bytes k (container k) n small,
    from_le-filled (le_bytes k n) (container k - k),
    from_le-le_bytes_mod k n,
    length-append (le_bytes k n) (replicate (container k - k) 0),
    length-le_bytes k n,
    length-replicate {A = ℕ} (container k - k) 0,
  )
  | inr wide ↦ absurd (ground arith)
]

-- UnsignedN of `k` bytes, which are at most those of its struct format, packs every value that the struct
-- format takes, into a pattern that reads back as the remainder by 256 ^ k: a value that is too wide for
-- `k` bytes is cut without an exception. Only a value that the struct format does not take is refused.
pub unsigned_n_pack-container :
    (k n : ℕ)
    → k ≤ container k
    → ((n < 256 ^ container k)
        × (bs : Bytes) × (unsigned_n_pack k (pos n) ≡ ok bs)
        × (length bs ≡ k)
        × (unsigned_n_unpack k bs ≡ ok (pos (n % 256 ^ k))))
      ⊎ ((256 ^ container k ≤ n) × (unsigned_n_pack k (pos n) ≡ err struct_error))
unfolding unsigned_n_pack pack_unsigned
unsigned_n_pack-container k n small = elim (Bool-cases (ltb n (256 ^ container k))) [
  | inl fits ↦
      let packed : unsigned_n_pack k (pos n) ≡ ok (le_bytes k n) =
        ground (arith, fits, take-le_bytes k (container k) n small) in
      inl (
        ltb→lt n (256 ^ container k) fits,
        le_bytes k n,
        packed,
        length-le_bytes k n,
        unsigned_n_unpack-unsigned_n_pack k n (le_bytes k n) small packed,
      )
  | inr wide ↦ inr (ground (arith, wide), ground (arith, wide))
]
