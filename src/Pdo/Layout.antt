-- ===== src/Pdo/Layout.antt =====
-- The bits of a PDO that the mapped variables take (canopen/pdo/base.py).
use canopen_asyncio.Common.Monad.{Result-cases}
use canopen_asyncio.Od.Types.{ObjectDictionary}
use canopen_asyncio.Pdo.{
  add_variable, placed, get_variable, clear, update_data_size, PdoMap, PdoVariable,
}
use canopen_asyncio.Common.{Option, inr, inl, ℕ, ◌+◌, ◌≡◌, refl, arith, List, [], ◌∷◌, ◌++◌}

-- Each variable begins where the one before ends: from bit `from`, up to bit `to`.
unfoldable pub IsLaid : ℕ → List PdoVariable → ℕ → Type 0
IsLaid from [] to = from ≡ to
IsLaid from (v ∷ vs) to = (v.offset ≡ from) × IsLaid (from + v.length) vs to

IsLaid-append :
    (from to : ℕ) (vs : List PdoVariable) (v : PdoVariable)
    → IsLaid from vs to
    → v.offset ≡ to
    → IsLaid from (vs ++ (v ∷ [])) (to + v.length)
unfolding IsLaid
IsLaid-append from to [] v h e = (omega arith, omega arith)
IsLaid-append from to (w ∷ vs) v (hw, h) e = (hw, IsLaid-append (from + w.length) to vs v h e)

-- The arguments of a call of `add_variable`, and the map after such calls.
abbrev pub Addition : Type 0
Addition = ℕ × ℕ × Option ℕ

unfoldable pub added : ObjectDictionary → List Addition → PdoMap → PdoMap
added od [] m = m
added od ((index, subindex, length) ∷ rest) m =
    added od rest ((add_variable od index subindex length m).1)

-- The variables of a map follow each other from bit 0 up to its length.
unfoldable pub IsPacked : PdoMap → Type 0
IsPacked m = IsLaid 0 m.variables m.bit_count

add_variable-IsPacked :
    (od : ObjectDictionary) (index subindex : ℕ) (length : Option ℕ) (m : PdoMap)
    → IsPacked m
    → IsPacked ((add_variable od index subindex length m).1)
unfolding add_variable IsPacked update_data_size placed
add_variable-IsPacked od index subindex length m h =
    elim (Result-cases (get_variable od index subindex)) [
      | inl (v, e) ↦ ground (
        arith,
        IsLaid-append 0 m.bit_count m.variables (placed subindex length m.bit_count v) h refl,
      )
      | inr (x, e) ↦ ground (arith, h)
    ]

added-IsPacked :
    (od : ObjectDictionary) (additions : List Addition) (m : PdoMap)
    → IsPacked m
    → IsPacked (added od additions m)
unfolding added
added-IsPacked od [] m h = h
added-IsPacked od ((index, subindex, length) ∷ rest) m h =
    added-IsPacked od rest ((add_variable od index subindex length m).1)
      (add_variable-IsPacked od index subindex length m h)

-- Whatever variables are added to a cleared map, of any length and missing ones included, they take
-- consecutive bits from 0 up to the length of the map, without a gap and without an overlap.
pub added-clear :
    (od : ObjectDictionary) (additions : List Addition) (m : PdoMap)
    → IsPacked (added od additions (clear m))
unfolding clear IsPacked IsLaid
added-clear od additions m = added-IsPacked od additions (clear m) refl
