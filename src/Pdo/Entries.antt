-- ===== src/Pdo/Entries.antt =====
-- The entries of a mapping that are read are the variables of the map (canopen/pdo/base.py).
use canopen_asyncio.Pdo.Reading.{all_mapped}
use canopen_asyncio.Pdo.Config.{add_mapped}
use canopen_asyncio.Pdo.Layout.{IsLaid}
use canopen_asyncio.Pdo.{PdoMap, PdoVariable, get_variable, add_variable, placed, update_data_size}
use canopen_asyncio.Od.Types.{ObjectDictionary}
use canopen_asyncio.Common.Monad.{ok}
use canopen_asyncio.Common.{
  ℕ, ◌+◌, ◌≡◌, refl, ap, ◌∙◌, sym, arith, Bool, false, ◌==◌, ◌||◌, if◌then◌else◌, Option, some,
  List, [], ◌∷◌, ◌++◌,
}

-- The variables are those that the dictionary has under their numbers, and each is in use.
unfoldable pub IsKnown : ObjectDictionary → List PdoVariable → Type 0
IsKnown od [] = Unit {0}
IsKnown od (v ∷ vs) =
    (get_variable od v.od.index v.subindex ≡ ok v.od)
    × ((if v.subindex == 0 then v.od.subindex else v.subindex) ≡ v.subindex)
    × (v.od.index == 0 || v.length == 0 ≡ false)
    × IsKnown od vs

-- What the configuration of a map is.
abbrev pub Configuration : Type 0
Configuration = Option ℕ × Bool × Bool × Option ℕ × List PdoVariable × ℕ

unfoldable pub configuration : PdoMap → Configuration
configuration m = (m.cob_id, m.enabled, m.rtr_allowed, m.trans_type, m.variables, m.bit_count)

unfoldable pub entries : List PdoVariable → List (ℕ × ℕ × ℕ)
entries [] = []
entries (v ∷ vs) = (v.od.index, v.subindex, v.length) ∷ entries vs

placed_self :
    (v : PdoVariable) (bit_count : ℕ)
    → (if v.subindex == 0 then v.od.subindex else v.subindex) ≡ v.subindex
    → v.offset ≡ bit_count
    → placed v.subindex (some v.length) bit_count v.od ≡ v
unfolding placed
placed_self v bit_count sub offset =
    λ i. record { od = v.od; subindex = sub i; offset = sym offset i; length = v.length }

grown : PdoVariable → PdoMap → PdoMap
grown v m =
    update_data_size
      (record m { variables = m.variables ++ (v ∷ []); bit_count = m.bit_count + v.length })

add_mapped-grown :
    (od : ObjectDictionary) (v : PdoVariable) (vs : List PdoVariable) (m : PdoMap)
    → IsKnown od (v ∷ vs)
    → v.offset ≡ m.bit_count
    → (add_mapped od (v.od.index, v.subindex, v.length) m).1 ≡ grown v m
unfolding add_mapped add_variable IsKnown grown
add_mapped-grown od v vs m (found, sub, used, hs) offset =
    ground (arith, found, used, placed_self v m.bit_count sub offset)

append_assoc :
    (xs : List PdoVariable) (v : PdoVariable) (ys : List PdoVariable)
    → (xs ++ (v ∷ [])) ++ ys ≡ xs ++ (v ∷ ys)
append_assoc [] v ys = refl
append_assoc (x ∷ xs) v ys = ap (λ l. x ∷ l) (append_assoc xs v ys)

append_nil : (xs : List PdoVariable) → xs ++ [] ≡ xs
append_nil [] = refl
append_nil (x ∷ xs) = ap (λ l. x ∷ l) (append_nil xs)

pub all_mapped-entries :
    (od : ObjectDictionary) (vs : List PdoVariable) (to : ℕ) (m : PdoMap)
    → IsKnown od vs
    → IsLaid m.bit_count vs to
    → configuration (all_mapped od (entries vs) m)
      ≡ (m.cob_id, m.enabled, m.rtr_allowed, m.trans_type, m.variables ++ vs, to)
unfolding all_mapped entries IsKnown IsLaid configuration grown update_data_size
all_mapped-entries od [] to m h laid =
    ap (λ n. (m.cob_id, m.enabled, m.rtr_allowed, m.trans_type, m.variables, n)) laid
    ∙ ap (λ l. (m.cob_id, m.enabled, m.rtr_allowed, m.trans_type, l, to))
        (sym (append_nil m.variables))
all_mapped-entries od (v ∷ vs) to m (found, sub, used, hs) (offset, laid) =
    ap (λ n. configuration (all_mapped od (entries vs) n))
      (add_mapped-grown od v vs m (found, sub, used, hs) offset)
    ∙ all_mapped-entries od vs to (grown v m) hs laid
    ∙ ap (λ l. (m.cob_id, m.enabled, m.rtr_allowed, m.trans_type, l, to))
        (append_assoc m.variables v vs)
