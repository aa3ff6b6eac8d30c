-- ===== src/Pdo/RoundTrip.antt =====
-- A configuration that is saved to a device is read back from it (canopen/pdo/base.py).
use canopen_asyncio.Pdo.Restoring.{
  Description, IsSetUp, saved, counted, stopped, after_save, pdo_save_lem,
}
use canopen_asyncio.Pdo.Entries.{configuration, entries, all_mapped-entries}
use canopen_asyncio.Pdo.Device.{
  write_item-put, Device, IsEntry, Slots, put_all-other, Reads-content, ReadsAll-put_all,
}
use canopen_asyncio.Pdo.Words.{
  cob_word, cob_word-lt, with_cob_id-cob_word, mapped_entry-mapping_value,
}
use canopen_asyncio.Pdo.Reading.{Reads, ReadsAll, all_mapped, configured, pdo_read-Reads}
use canopen_asyncio.Pdo.Saving.{
  write_item, write_mapping, write_entries, pdo_save, cob_id_value, disabled_value,
}
use canopen_asyncio.Pdo.Config.{
  on_node, PdoSession, PdoParameters, pdo_subscribe, pdo_read, mapped_entry, mapping_value,
  with_cob_id,
}
use canopen_asyncio.Pdo.{PdoMap, PdoVariable, clear}
use canopen_asyncio.Sdo.Base.{SdoNode, sdo_item, sdo_keys, sdo_length, numbers_from}
use canopen_asyncio.Od.Types.{Codec, OdArray, OdObject, OdVariable}
use canopen_asyncio.Od.Dictionary.{array_get}
use canopen_asyncio.Common.Bytes.{le_bytes}
use canopen_asyncio.Common.Monad.{ok, ◌>>=◌}
use canopen_asyncio.Common.{
  suc, ℕ, ◌+◌, ◌≡◌, ◌≢◌, ◌⊎◌, refl, ap, ◌∙◌, sym, arith, Bool, true, false, some, List, [], ◌∷◌,
  length, map, inl, inr, if◌then◌else◌,
}

length-map : (f : PdoVariable → ℕ) (vs : List PdoVariable) → length (map f vs) ≡ length vs
length-map f [] = refl
length-map f (v ∷ vs) = ap suc (length-map f vs)

map-entries :
    (p : PdoParameters) (index subindex : ℕ) (vs : List PdoVariable)
    → Slots p index subindex vs
    → map (mapped_entry p.curtis_hack) (map (mapping_value p.curtis_hack) vs) ≡ entries vs
unfolding Slots entries
map-entries p index subindex [] h = refl
map-entries p index subindex (v ∷ vs) (slot, fits, hs) =
    ap (λ e. e ∷ map (mapped_entry p.curtis_hack) (map (mapping_value p.curtis_hack) vs))
      (mapped_entry-mapping_value p.curtis_hack v fits)
    ∙ ap (λ es. (v.od.index, v.subindex, v.length) ∷ es) (map-entries p index (subindex + 1) vs hs)

module _ {N : Type 0} (sdo : SdoNode N) (codec : Codec) (p : PdoParameters) (d : Device N sdo)
    (s : PdoSession N) (c t : ℕ) (setup : IsSetUp p.od c t s.map) (desc : Description p s.map) where
  abbrev device : N
  device = saved sdo codec p d s c t setup desc

  abbrev before_enable : N
  before_enable = counted sdo codec p d s c t setup desc

  abbrev before_mapping : N
  before_mapping = stopped sdo codec p d s c t setup desc

  words : List ℕ
  words = map (mapping_value p.curtis_hack) s.map.variables

  enabled-other :
      (b : Bool) (x i j : ℕ)
      → (i ≢ desc.com_index) ⊎ (j ≢ 1)
      → d.content
          (if b then d.put before_enable desc.com_index 1 (le_bytes 4 x) else before_enable)
          i
          j
        ≡ d.content before_enable i j
  enabled-other true x i j h =
      d.content-put_other desc.com_index 1 i j (le_bytes 4 x) before_enable h
  enabled-other false x i j h = refl

  com_entry-kept :
      (j : ℕ)
      → d.content before_enable desc.com_index j
        ≡ d.content
            (d.put
              (d.put s.node desc.com_index 1 (le_bytes 4 (disabled_value c s.map.rtr_allowed)))
              desc.com_index
              2
              (le_bytes 1 t))
            desc.com_index
            j
  com_entry-kept j =
      d.content-put_other desc.map_index 0 desc.com_index j _ _ (inl desc.apart)
      ∙ put_all-other sdo codec p d desc.map_index 1 s.map.variables before_mapping desc.com_index j
          (inl desc.apart)
      ∙ d.content-put_other desc.map_index 0 desc.com_index j _ _ (inl desc.apart)

  cob_content :
      (b : Bool)
      → d.content
          (if b
            then d.put before_enable desc.com_index 1
                (le_bytes 4 (cob_id_value c s.map.rtr_allowed))
            else before_enable)
          desc.com_index
          1
        ≡ le_bytes 4 (cob_word c b s.map.rtr_allowed)
  unfolding cob_word
  cob_content true = d.content-put desc.com_index 1 _ before_enable
  cob_content false =
      com_entry-kept 1
      ∙ d.content-put_other desc.com_index 2 desc.com_index 1 _ _
          (inr (λ e. absurd (omega (arith, e))))
      ∙ d.content-put desc.com_index 1 _ s.node

  Reads-cob_id :
      Reads sdo codec p device p.com_record 1 (cob_word c s.map.enabled s.map.rtr_allowed)
  unfolding IsSetUp
  Reads-cob_id =
      Reads-content sdo codec p d p.com_record desc.com_index 1 4
        (cob_word c s.map.enabled s.map.rtr_allowed) desc.cob_entry device desc.cob_lem
        (cob_word-lt c s.map.enabled s.map.rtr_allowed setup.1) (cob_content s.map.enabled)

  Reads-trans_type : Reads sdo codec p device p.com_record 2 t
  unfolding IsSetUp
  Reads-trans_type =
      Reads-content sdo codec p d p.com_record desc.com_index 2 1 t desc.trans_entry device
        desc.trans_lem (omega (arith, setup))
        (enabled-other s.map.enabled _ desc.com_index 2 (inr (λ e. absurd (omega (arith, e))))
          ∙ com_entry-kept 2
          ∙ d.content-put desc.com_index 2 _ _)

  Reads-count : Reads sdo codec p device p.map_array 0 (length words)
  unfolding IsSetUp words
  Reads-count =
      let e = length-map (mapping_value p.curtis_hack) s.map.variables in
      Reads-content sdo codec p d p.map_array desc.map_index 0 1 (length words) desc.count_entry
        device desc.count_lem (omega (arith, setup, e))
        (enabled-other s.map.enabled _ desc.map_index 0 (inl (λ e. desc.apart (sym e)))
          ∙ d.content-put desc.map_index 0 _ _
          ∙ ap (λ n. le_bytes 1 n) (sym e))

  ReadsAll-words : ReadsAll sdo codec p device 1 words
  unfolding words
  ReadsAll-words =
      ReadsAll-put_all sdo codec p d desc.map_index 1 s.map.variables before_mapping device
        desc.slots
        (λ j le.
          enabled-other s.map.enabled _ desc.map_index j (inl (λ e. desc.apart (sym e)))
          ∙ d.content-put_other desc.map_index 0 desc.map_index j _ _
              (inr (λ e. absurd (omega (arith, le, e)))))

  configured-configuration :
      (fresh : PdoMap)
      → configuration
          (configured sdo codec p (cob_word c s.map.enabled s.map.rtr_allowed) t words fresh)
        ≡ configuration s.map
  unfolding configured words IsSetUp configuration clear
  configured-configuration fresh =
      let w = cob_word c s.map.enabled s.map.rtr_allowed in
      let m : PdoMap = clear (record (with_cob_id w fresh) { trans_type = some t }) in
      ap (λ es. configuration (all_mapped p.od es m))
        (map-entries p desc.map_index 1 s.map.variables desc.slots)
      ∙ all_mapped-entries p.od s.map.variables s.map.bit_count m setup.8 setup.9
      ∙ ap (λ x. (x.cob_id, x.enabled, x.rtr_allowed, some t, s.map.variables, s.map.bit_count))
          (with_cob_id-cob_word c s.map.enabled s.map.rtr_allowed fresh setup.1)
      ∙ ap (λ o. (o, s.map.enabled, s.map.rtr_allowed, some t, s.map.variables, s.map.bit_count))
          (sym setup.0)
      ∙ ap
          (λ o.
            (s.map.cob_id, s.map.enabled, s.map.rtr_allowed, o, s.map.variables, s.map.bit_count))
          (sym setup.2)

  restored : PdoMap → PdoSession N
  restored fresh = record (after_save sdo codec p d s c t setup desc) {
    map = configured sdo codec p (cob_word c s.map.enabled s.map.rtr_allowed) t words fresh;
  }

  pdo_read_lem :
      (fresh : PdoMap)
      → pdo_read sdo codec p false (record (pdo_save sdo codec p s).1 { map = fresh })
        ≡ pdo_subscribe (restored fresh)
  unfolding IsSetUp after_save restored
  pdo_read_lem fresh =
      ap (λ r. pdo_read sdo codec p false (record r.1 { map = fresh }))
        (pdo_save_lem sdo codec p d s c t setup desc)
      ∙ pdo_read-Reads sdo codec p (cob_word c s.map.enabled s.map.rtr_allowed) t words
          (record (after_save sdo codec p d s c t setup desc) { map = fresh }) Reads-cob_id
          Reads-trans_type setup.3 Reads-count ReadsAll-words

pdo_subscribe-kept :
    {N : Type 0} (s : PdoSession N)
    → ((pdo_subscribe s).0 ≡ ok tt)
      × ((pdo_subscribe s).1.map ≡ s.map)
      × ((pdo_subscribe s).1.node ≡ s.node)
unfolding pdo_subscribe
pdo_subscribe-kept s = (ground arith, ground arith, ground arith)

-- A map is set up for a COB-ID of 29 bits and a transmission type below 254, with no times set, and the
-- dictionary describes its objects. Saving it to a device that takes every write succeeds; after that,
-- reading the configuration into any map of the same node succeeds, writes nothing to the device, and
-- restores the COB-ID, both flags, the transmission type, and the variables with their places.
pub pdo_read-pdo_save :
    {N : Type 0} (sdo : SdoNode N) (codec : Codec) (p : PdoParameters) (d : Device N sdo)
    (s : PdoSession N) (fresh : PdoMap) (c t : ℕ)
    → IsSetUp p.od c t s.map
    → Description p s.map
    → let (saving, s') = pdo_save sdo codec p s in
      let (reading, s'') = pdo_read sdo codec p false (record s' { map = fresh }) in
      (saving ≡ ok tt)
      × (reading ≡ ok tt)
      × (configuration s''.map ≡ configuration s.map)
      × (s''.node ≡ s'.node)
unfolding restored after_save
pdo_read-pdo_save sdo codec p d s fresh c t setup desc =
    let saving = pdo_save_lem sdo codec p d s c t setup desc in
    let reading = pdo_read_lem sdo codec p d s c t setup desc fresh in
    let (done, same_map, same_node) =
      pdo_subscribe-kept (restored sdo codec p d s c t setup desc fresh) in
    (
      ap (λ r. r.0) saving,
      ap (λ r. r.0) reading ∙ done,
      ap (λ r. configuration r.1.map) reading
          ∙ ap configuration same_map
          ∙ configured-configuration sdo codec p d s c t setup desc fresh,
      ap (λ r. r.1.node) reading ∙ same_node ∙ ap (λ r. r.1.node) (sym saving),
    )

array_keys-empty :
    {N : Type 0} (sdo : SdoNode N) (codec : Codec) (p : PdoParameters) (s : PdoSession N)
    (a : OdArray)
    → p.map_array ≡ OdObject.array a
    → Reads sdo codec p s.node p.map_array 0 0
    → on_node (sdo_keys sdo codec p.map_array) s ≡ (ok [], s)
unfolding Reads sdo_keys sdo_length on_node numbers_from sdo_item
array_keys-empty sdo codec p s a e (v, found, got) =
    let item : array_get a 0 ≡ ok v = ap (λ o. sdo_item o 0) (sym e) ∙ found in
    ap (λ o. on_node (sdo_keys sdo codec o) s) e ∙ ground (arith, item, got)

-- A map whose mapping object is an array in the dictionary, and a device that takes every write: once the
-- count of the entries has been set to 0, as saving does before it writes them, the loop over the entries
-- writes none, whatever variables the map has, since it asks the device how many entries there are.
pub write_mapping-array :
    {N : Type 0} (sdo : SdoNode N) (codec : Codec) (p : PdoParameters) (d : Device N sdo)
    (s : PdoSession N) (a : OdArray) (index : ℕ) (count_entry : OdVariable) (vs : List PdoVariable)
    → p.map_array ≡ OdObject.array a
    → IsEntry p.map_array index 0 1 count_entry
    → (write_item sdo codec p p.map_array 0 0 >>= λ _. write_mapping sdo codec p vs) s
      ≡ (ok tt, record s { node = d.put s.node index 0 (le_bytes 1 0) })
unfolding write_mapping write_entries
write_mapping-array sdo codec p d s a index count_entry [] e at =
    ground
      (arith, write_item-put sdo codec p d p.map_array index 0 1 0 count_entry s at (omega arith))
write_mapping-array {N} sdo codec p d s a index count_entry (v ∷ vs) e at =
    let s1 : PdoSession N = record s { node = d.put s.node index 0 (le_bytes 1 0) } in
    let empty =
      Reads-content sdo codec p d p.map_array index 0 1 0 count_entry s1.node at (omega arith)
        (d.content-put index 0 (le_bytes 1 0) s.node) in
    ground (
      arith,
      write_item-put sdo codec p d p.map_array index 0 1 0 count_entry s at (omega arith),
      array_keys-empty sdo codec p s1 a e empty,
    )
