-- ===== src/Pdo/Setting.antt =====
-- What setting a mapped variable does to the message of its PDO (canopen/pdo/base.py).
use canopen_asyncio.Pdo.Splicing.{set_payload-replaced, replaced-fits}
use canopen_asyncio.Pdo.Fields.{IsPlaced, pdo_get_data-field}
use canopen_asyncio.Pdo.Values.{pdo_set_data, pdo_get_data}
use canopen_asyncio.Common.Numbers.{field, replaced, field-replaced, field-replaced_other}
use canopen_asyncio.Common.{ℕ, ◌+◌, ◌^◌, ◌≤◌, ◌<◌, ◌≡◌, ap, ◌∙◌, sym, arith, ◌⊎◌, length, All}
use canopen_asyncio.Common.Bytes.{
  IsByte, le_bytes, from_le, from_le-le_bytes, le_bytes-IsByte, length-le_bytes,
}
use canopen_asyncio.Common.Monad.{err, ok}
use canopen_asyncio.Pdo.{PdoVariable, PdoMap, pdo_update}

-- Take a variable of type UNSIGNED8, 16, 32 or 64, or BOOLEAN for a bit field, whose bits all lie in as
-- many bytes as its type has, counted from the byte of its first bit, where those bytes lie in the
-- message; if it begins and ends with a byte, it is as long as its type. Writing a value that it fits
-- sets its bits of the number that the message stands for to the value, leaves all other bits and the
-- length of the message as they are, and hands the message to a running task.
pub pdo_set_data-replaced :
    (v : PdoVariable) (k value : ℕ) (m : PdoMap)
    → All IsByte m.payload
    → IsPlaced v k (length m.payload)
    → value < 2 ^ v.length
    → pdo_set_data v (le_bytes k value) m ≡ (
      ok tt,
      pdo_update (record m {
        payload =
            le_bytes (length m.payload) (replaced (from_le m.payload) v.offset v.length value);
      }),
    )
unfolding pdo_set_data
pdo_set_data-replaced v k value m bytes at small =
    ap
      (λ r. elim r [
        | err e ↦ (err e, m)
        | ok payload ↦ (ok tt, pdo_update (record m { payload = payload }))
      ])
      (set_payload-replaced v k m.payload bytes at value small)

pdo_update-payload : (m : PdoMap) → (pdo_update m).payload ≡ m.payload
unfolding pdo_update
pdo_update-payload m = ground arith

pdo_get_data-le_bytes :
    (w : PdoVariable) (j n number : ℕ)
    → IsPlaced w j n
    → number < 256 ^ n
    → pdo_get_data w (le_bytes n number) ≡ ok (le_bytes j (field number w.offset w.length))
unfolding IsPlaced
pdo_get_data-le_bytes w j n number h fits =
    pdo_get_data-field w j (le_bytes n number) (le_bytes-IsByte n number)
      (h.0, h.1, omega (arith, h, length-le_bytes n number), h.3)
    ∙ ap (λ x. ok (le_bytes j (field x w.offset w.length))) (from_le-le_bytes n number fits)

-- Apart from each other in the message.
abbrev pub IsApart : PdoVariable → PdoVariable → Type 0
IsApart v w = (w.offset + w.length ≤ v.offset) ⊎ (v.offset + v.length ≤ w.offset)

-- Take two variables that share no bit, each of type UNSIGNED8, 16, 32 or 64, or BOOLEAN for a bit field,
-- with all its bits in as many bytes as its type has, counted from the byte of its first bit, where
-- those bytes lie in the message, and as long as its type if it begins and ends with a byte. After a
-- write of a value that it fits to the one, a read of it gives the value, and a read of the other gives
-- what it gave before.
pub pdo_get_data-pdo_set_data :
    (v w : PdoVariable) (k j value : ℕ) (m : PdoMap)
    → All IsByte m.payload
    → IsPlaced v k (length m.payload)
    → value < 2 ^ v.length
    → IsPlaced w j (length m.payload)
    → IsApart v w
    → let m' = (pdo_set_data v (le_bytes k value) m).1 in
      (pdo_get_data v m'.payload ≡ ok (le_bytes k value))
      × (pdo_get_data w m'.payload ≡ pdo_get_data w m.payload)
pdo_get_data-pdo_set_data v w k j value m bytes at small at_w apart =
    let n = length m.payload in
    let number = replaced (from_le m.payload) v.offset v.length value in
    let fits : number < 256 ^ n = replaced-fits v k m.payload bytes at value small in
    let after : (pdo_set_data v (le_bytes k value) m).1.payload ≡ le_bytes n number =
      ap (λ r. r.1.payload) (pdo_set_data-replaced v k value m bytes at small)
      ∙ pdo_update-payload (record m { payload = le_bytes n number }) in
    (
      ap (λ p. pdo_get_data v p) after
          ∙ pdo_get_data-le_bytes v k n number at fits
          ∙ ap (λ x. ok (le_bytes k x))
              (field-replaced (from_le m.payload) v.offset v.length value small),
      ap (λ p. pdo_get_data w p) after
          ∙ pdo_get_data-le_bytes w j n number at_w fits
          ∙ ap (λ x. ok (le_bytes j x))
              (field-replaced_other (from_le m.payload) v.offset v.length value w.offset w.length
                small apart)
          ∙ sym (pdo_get_data-field w j m.payload bytes at_w),
    )
