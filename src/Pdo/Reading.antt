-- ===== src/Pdo/Reading.antt =====
-- Reading the configuration of a map from a device (canopen/pdo/base.py).
use canopen_asyncio.Pdo.Config.{
  PdoSession, PdoParameters, read_item, delivered, on_node, on_map, read_com_record, read_timing,
  read_mapping, pdo_read, add_mapped, mapped_entry, with_cob_id, pdo_subscribe,
}
use canopen_asyncio.Pdo.{get_variable, add_variable, PdoMap, clear}
use canopen_asyncio.Sdo.Base.{SdoNode, sdo_item, get_number}
use canopen_asyncio.Od.Types.{ObjectDictionary, OdVariable, OdObject, Codec}
use canopen_asyncio.Od.Dictionary.{od_get, record_get, array_get}
use canopen_asyncio.Common.Monad.{Exn, Result-cases, err, key_error, ok}
use canopen_asyncio.Common.{
  some, inl, inr, map, length, some, ℕ, ◌+◌, ◌<◌, ◌≡◌, refl, arith, false, List, [], ◌∷◌,
}

get_variable-err :
    (od : ObjectDictionary) (index subindex : ℕ) (e : Exn)
    → get_variable od index subindex ≡ err e
    → e ≡ key_error
unfolding get_variable od_get record_get array_get
get_variable-err od index subindex e h = ground (arith, h)

add_mapped-ok :
    (od : ObjectDictionary) (entry : ℕ × ℕ × ℕ) (m : PdoMap)
    → add_mapped od entry m ≡ (ok tt, (add_mapped od entry m).1)
unfolding add_mapped add_variable
add_mapped-ok od (index, subindex, size) m = elim (Result-cases (get_variable od index subindex)) [
  | inl (v, e) ↦ ground (arith, e)
  | inr (x, e) ↦ ground (arith, e, get_variable-err od index subindex x e)
]

-- The map after entries of a mapping were added to it.
unfoldable pub all_mapped : ObjectDictionary → List (ℕ × ℕ × ℕ) → PdoMap → PdoMap
all_mapped od [] m = m
all_mapped od (entry ∷ entries) m = all_mapped od entries ((add_mapped od entry m).1)

module _ {N : Type 0} (sdo : SdoNode N) (codec : Codec) (p : PdoParameters) where
  -- The entry of an object, read over SDO, is `value`; the device stays as it is.
  unfoldable pub Reads : N → OdObject → ℕ → ℕ → Type 0
  Reads n obj subindex value =
      (v : OdVariable) × (sdo_item obj subindex ≡ ok v) × (get_number sdo codec v n ≡ (ok value, n))

  read_item-Reads :
      (obj : OdObject) (subindex value : ℕ) (s : PdoSession N)
      → Reads s.node obj subindex value
      → read_item sdo codec p false obj subindex s ≡ (ok value, s)
  unfolding Reads read_item delivered on_node
  read_item-Reads obj subindex value s (v, found, got) = ground (arith, found, got)

  read_com_record-Reads :
      (c t : ℕ) (s : PdoSession N)
      → Reads s.node p.com_record 1 c
      → Reads s.node p.com_record 2 t
      → t < 254
      → read_com_record sdo codec p false s
        ≡ (ok tt, record s { map = record (with_cob_id c s.map) { trans_type = some t } })
  unfolding read_com_record on_map read_timing
  read_com_record-Reads c t s h1 h2 small =
      let s1 : PdoSession N = record s { map = with_cob_id c s.map } in
      ground (arith, read_item-Reads p.com_record 1 c s h1, read_item-Reads p.com_record 2 t s1 h2)

  -- The entries from a subindex on, and how many they are.
  unfoldable pub ReadsAll : N → ℕ → List ℕ → Type 0
  unfolding Reads
  ReadsAll n subindex [] = Unit {0}
  ReadsAll n subindex (word ∷ words) =
      Reads n p.map_array subindex word × ReadsAll n (subindex + 1) words

  read_mapping-ReadsAll :
      (words : List ℕ) (subindex : ℕ) (s : PdoSession N)
      → ReadsAll s.node subindex words
      → read_mapping sdo codec p false (length words) subindex s
        ≡ (ok tt, record s { map = all_mapped p.od (map (mapped_entry p.curtis_hack) words) s.map })
  unfolding ReadsAll read_mapping all_mapped on_map
  read_mapping-ReadsAll [] subindex s h = refl
  read_mapping-ReadsAll (word ∷ words) subindex s (h, hs) =
      let entry = mapped_entry p.curtis_hack word in
      let s1 : PdoSession N = record s { map = (add_mapped p.od entry s.map).1 } in
      ground (
        arith,
        read_item-Reads p.map_array subindex word s h,
        add_mapped-ok p.od entry s.map,
        read_mapping-ReadsAll words (subindex + 1) s1 hs,
      )

  -- The map with the configuration that a COB-ID entry, a transmission type and a mapping make.
  unfoldable pub configured : ℕ → ℕ → List ℕ → PdoMap → PdoMap
  configured c t words m =
      all_mapped p.od (map (mapped_entry p.curtis_hack) words)
        (clear (record (with_cob_id c m) { trans_type = some t }))

  pub pdo_read-Reads :
      (c t : ℕ) (words : List ℕ) (s : PdoSession N)
      → Reads s.node p.com_record 1 c
      → Reads s.node p.com_record 2 t
      → t < 254
      → Reads s.node p.map_array 0 (length words)
      → ReadsAll s.node 1 words
      → pdo_read sdo codec p false s ≡ pdo_subscribe (record s { map = configured c t words s.map })
  unfolding pdo_read configured on_map
  pdo_read-Reads c t words s h1 h2 small h3 hs =
      let s1 : PdoSession N = record s {
        map = clear (record (with_cob_id c s.map) { trans_type = some t });
      } in
      ground (
        arith,
        read_com_record-Reads c t s h1 h2 small,
        read_item-Reads p.map_array 0 (length words) s1 h3,
        read_mapping-ReadsAll words 1 s1 hs,
      )
