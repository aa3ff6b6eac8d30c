-- ===== src/Pdo/Mapped.antt =====
-- Writing the variables of a map that `add_variable` has built (canopen/pdo/base.py).
use canopen_asyncio.Pdo.Layout.{IsLaid, IsPacked, Addition, added, added-clear}
use canopen_asyncio.Pdo.Fields.{IsPlaced}
use canopen_asyncio.Pdo.Setting.{pdo_get_data-pdo_set_data}
use canopen_asyncio.Pdo.Values.{pdo_get_data, pdo_set_data}
use canopen_asyncio.Pdo.{PdoVariable, PdoMap, clear}
use canopen_asyncio.Od.Types.{ObjectDictionary}
use canopen_asyncio.Common.{
  ℕ, ◌+◌, ◌^◌, ◌≤◌, ◌<◌, ◌≡◌, List, [], ◌∷◌, ◌++◌, arith, inl, inr, All, length,
}
use canopen_asyncio.Common.Bytes.{Bytes, IsByte, le_bytes}
use canopen_asyncio.Common.Monad.{ok}
use mathlib.Core.Path.{subst}

laid-from :
    (from to : ℕ) (xs : List PdoVariable) (w : PdoVariable) (zs : List PdoVariable)
    → IsLaid from (xs ++ (w ∷ zs)) to
    → from ≤ w.offset
unfolding IsLaid
laid-from from to [] w zs (e, h) = omega (arith, e)
laid-from from to (x ∷ xs) w zs (e, h) = omega (arith, laid-from (from + x.length) to xs w zs h)

laid-apart :
    (from to : ℕ) (xs : List PdoVariable) (v : PdoVariable) (ys : List PdoVariable)
    (w : PdoVariable) (zs : List PdoVariable)
    → IsLaid from (xs ++ (v ∷ (ys ++ (w ∷ zs)))) to
    → v.offset + v.length ≤ w.offset
unfolding IsLaid
laid-apart from to [] v ys w zs (e, h) = omega (arith, e, laid-from (from + v.length) to ys w zs h)
laid-apart from to (x ∷ xs) v ys w zs (e, h) = laid-apart (from + x.length) to xs v ys w zs h

-- In a map that was cleared and had variables added to it, take two, each of type UNSIGNED8, 16, 32 or
-- 64, or BOOLEAN for a bit field, with all its bits in as many bytes as its type has, counted from the
-- byte of its first bit, where those bytes lie in the message, and as long as its type if it begins and
-- ends with a byte. Whatever the message holds, after a write to the one of a value that it fits, reading
-- it gives the value, and reading the other gives what it gave before, in either order of the two.
pub added-pdo_set_data :
    (od : ObjectDictionary) (additions : List Addition) (m : PdoMap) (payload : Bytes)
    (xs : List PdoVariable) (v : PdoVariable) (ys : List PdoVariable) (w : PdoVariable)
    (zs : List PdoVariable) (k j first second : ℕ)
    → (added od additions (clear m)).variables ≡ xs ++ (v ∷ (ys ++ (w ∷ zs)))
    → All IsByte payload
    → IsPlaced v k (length payload)
    → IsPlaced w j (length payload)
    → first < 2 ^ v.length
    → second < 2 ^ w.length
    → let m' = record (added od additions (clear m)) { payload = payload } in
      let at_v = (pdo_set_data v (le_bytes k first) m').1.payload in
      let at_w = (pdo_set_data w (le_bytes j second) m').1.payload in
      (pdo_get_data v at_v ≡ ok (le_bytes k first))
      × (pdo_get_data w at_v ≡ pdo_get_data w payload)
      × (pdo_get_data w at_w ≡ ok (le_bytes j second))
      × (pdo_get_data v at_w ≡ pdo_get_data v payload)
unfolding IsPacked
added-pdo_set_data od additions m payload xs v ys w zs k j first second e bytes placed_v placed_w
      small_v small_w =
    let built = added od additions (clear m) in
    let m' : PdoMap = record built { payload = payload } in
    let laid : IsLaid 0 (xs ++ (v ∷ (ys ++ (w ∷ zs)))) built.bit_count =
      subst (λ vs. IsLaid 0 vs built.bit_count) e (added-clear od additions m) in
    let below = laid-apart 0 built.bit_count xs v ys w zs laid in
    let (r, s) =
      pdo_get_data-pdo_set_data v w k j first m' bytes placed_v small_v placed_w (inr below) in
    let (r', s') =
      pdo_get_data-pdo_set_data w v j k second m' bytes placed_w small_w placed_v (inl below) in
    (r, s, r', s')
