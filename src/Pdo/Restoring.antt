-- ===== src/Pdo/Restoring.antt =====
-- The device after the configuration of a map was saved to it (canopen/pdo/base.py).
use canopen_asyncio.Pdo.Entries.{IsKnown}
use canopen_asyncio.Pdo.Device.{
  Device, IsEntry, Slots, put_all, write_item-put, write_number-put, write_entries-put_all,
}
use canopen_asyncio.Pdo.Words.{cob_word, cob_word-lt}
use canopen_asyncio.Pdo.Saving.{
  com_setting, com_settings, write_settings, write_mapping, enable, save_map, pdo_save,
  write_number, write_item, cob_id_value, disabled_value,
}
use canopen_asyncio.Pdo.Config.{PdoSession, PdoParameters, on_node, on_map, pdo_subscribe}
use canopen_asyncio.Pdo.Layout.{IsLaid}
use canopen_asyncio.Pdo.{PdoMap, PdoVariable, update_data_size, assigned}
use canopen_asyncio.Sdo.Base.{SdoNode, sdo_keys, numbers_from, nonzero, sorted_keys}
use canopen_asyncio.Od.Types.{OdVariable, OdObject, OdRecord, ObjectDictionary, Codec}
use canopen_asyncio.Od.Variable.{is_writable}
use canopen_asyncio.Common.Bytes.{le_bytes}
use canopen_asyncio.Common.Monad.{ok}
use canopen_asyncio.Common.{
  ℕ, ◌<◌, ◌^◌, ◌≡◌, ◌≢◌, refl, ap, ◌∙◌, arith, true, false, not, ◌&&◌, ◌==◌, if◌then◌else◌, none,
  some, List, [], ◌∷◌, ◌++◌, length,
}

-- What the dictionary of a device says of a map: its two objects, at different indexes, with an
-- UNSIGNED32 COB-ID, a writable UNSIGNED8 transmission type, an UNSIGNED8 count, and for each variable in
-- turn a writable UNSIGNED32 entry of a record.
pub record Description (p : PdoParameters) (m : PdoMap) : Type 0 where
  pub com_index : ℕ
  pub map_index : ℕ
  pub apart : com_index ≢ map_index
  pub cob_entry : OdVariable
  pub cob_lem : IsEntry p.com_record com_index 1 4 cob_entry
  pub trans_entry : OdVariable
  pub trans_lem : IsEntry p.com_record com_index 2 1 trans_entry
  pub trans_writable : is_writable trans_entry ≡ true
  pub count_entry : OdVariable
  pub count_lem : IsEntry p.map_array map_index 0 1 count_entry
  pub map_record : OdRecord
  pub map_record_lem : p.map_array ≡ OdObject.rec map_record
  pub spare : List ℕ
  pub keys_lem :
      nonzero (sorted_keys map_record.subindices) ≡ numbers_from 1 (length m.variables) ++ spare
  pub slots : Slots p map_index 1 m.variables

-- A map that is set up: its COB-ID has 29 bits, its transmission type is a synchronous one, no time is
-- set, its variables are those of the dictionary, and follow each other.
unfoldable pub IsSetUp : ObjectDictionary → ℕ → ℕ → PdoMap → Type 0
IsSetUp od c t m =
    (m.cob_id ≡ some c)
    × (c < 2 ^ 29)
    × (m.trans_type ≡ some t)
    × (t < 254)
    × (m.inhibit_time ≡ none)
    × (m.event_timer ≡ none)
    × (m.sync_start_value ≡ none)
    × (length m.variables < 256)
    × IsKnown od m.variables
    × IsLaid 0 m.variables m.bit_count

mapping_keys :
    {N : Type 0} (sdo : SdoNode N) (codec : Codec) (p : PdoParameters) (r : OdRecord)
    (keys : List ℕ) (s : PdoSession N)
    → p.map_array ≡ OdObject.rec r
    → nonzero (sorted_keys r.subindices) ≡ keys
    → on_node (sdo_keys sdo codec p.map_array) s ≡ (ok keys, s)
unfolding on_node sdo_keys
mapping_keys sdo codec p r keys s e h =
    ap (λ m. on_node (sdo_keys sdo codec m) s) e ∙ ap (λ ks. (ok ks, s)) h

write_mapping-put_all :
    {N : Type 0} (sdo : SdoNode N) (codec : Codec) (p : PdoParameters) (d : Device N sdo)
    (index : ℕ) (r : OdRecord) (vs : List PdoVariable) (spare : List ℕ) (s : PdoSession N)
    → p.map_array ≡ OdObject.rec r
    → nonzero (sorted_keys r.subindices) ≡ numbers_from 1 (length vs) ++ spare
    → Slots p index 1 vs
    → write_mapping sdo codec p vs s
      ≡ (ok tt, record s { node = put_all sdo codec p d index 1 vs s.node })
unfolding write_mapping put_all
write_mapping-put_all sdo codec p d index r [] spare s e keys slots = refl
write_mapping-put_all {N} sdo codec p d index r (v ∷ vs) spare s e keys slots = ground (
  arith,
  mapping_keys sdo codec p r (numbers_from 1 (length (v ∷ vs)) ++ spare) s e keys,
  write_entries-put_all sdo codec p d index 1 (v ∷ vs) spare s slots,
)

module _ {N : Type 0} (sdo : SdoNode N) (codec : Codec) (p : PdoParameters) (d : Device N sdo)
    (s : PdoSession N) (c t : ℕ) (setup : IsSetUp p.od c t s.map) (desc : Description p s.map) where
  abbrev pub stopped : N
  stopped =
      d.put
        (d.put (d.put s.node desc.com_index 1 (le_bytes 4 (disabled_value c s.map.rtr_allowed)))
          desc.com_index 2 (le_bytes 1 t))
        desc.map_index 0 (le_bytes 1 0)

  abbrev pub counted : N
  counted =
      d.put (put_all sdo codec p d desc.map_index 1 s.map.variables stopped) desc.map_index 0
        (le_bytes 1 (length s.map.variables))

  abbrev pub saved : N
  saved =
      if s.map.enabled
      then d.put counted desc.com_index 1 (le_bytes 4 (cob_id_value c s.map.rtr_allowed))
      else counted

  com_settings_lem :
      (s' : PdoSession N)
      → com_settings sdo codec p s.map s' ≡ (ok ((desc.trans_entry, t) ∷ []), s')
  unfolding com_settings com_setting IsSetUp IsEntry
  com_settings_lem s' = ground (arith, desc.trans_lem.0, desc.trans_writable, setup)

  write_mapping_lem :
      (s' : PdoSession N)
      → write_mapping sdo codec p s.map.variables s' ≡ (
        ok tt,
        record s' { node = put_all sdo codec p d desc.map_index 1 s.map.variables s'.node },
      )
  write_mapping_lem s' =
      write_mapping-put_all sdo codec p d desc.map_index desc.map_record s.map.variables desc.spare
        s' desc.map_record_lem desc.keys_lem desc.slots

  on_device : N → PdoSession N
  on_device n = record s { node = n }

  wrote_cob_id : write_item sdo codec p p.com_record 1 (disabled_value c s.map.rtr_allowed) s ≡ (
    ok tt,
    on_device (d.put s.node desc.com_index 1 (le_bytes 4 (disabled_value c s.map.rtr_allowed))),
  )
  unfolding on_device IsSetUp cob_word
  wrote_cob_id =
      write_item-put sdo codec p d p.com_record desc.com_index 1 4
        (disabled_value c s.map.rtr_allowed) desc.cob_entry s desc.cob_lem
        (cob_word-lt c false s.map.rtr_allowed setup.1)

  wrote_trans_type :
      (n : N)
      → write_number sdo codec p desc.trans_entry t (on_device n)
        ≡ (ok tt, on_device (d.put n desc.com_index 2 (le_bytes 1 t)))
  unfolding on_device IsSetUp
  wrote_trans_type n =
      write_number-put sdo codec p d p.com_record desc.com_index 2 1 t desc.trans_entry
        (on_device n) desc.trans_lem (omega (arith, setup))

  wrote_count :
      (n : N) (count : ℕ)
      → count < 256
      → write_item sdo codec p p.map_array 0 count (on_device n)
        ≡ (ok tt, on_device (d.put n desc.map_index 0 (le_bytes 1 count)))
  unfolding on_device
  wrote_count n count small =
      write_item-put sdo codec p d p.map_array desc.map_index 0 1 count desc.count_entry
        (on_device n) desc.count_lem (omega (arith, small))

  unfoldable pub subscriptions : List ℕ
  subscriptions = if s.map.enabled && not (c == 0) then s.subscribed ++ (c ∷ []) else s.subscribed

  unfoldable pub after_save : PdoSession N
  after_save = record { map = update_data_size s.map; node = saved; subscribed = subscriptions }

  wrote_enabled :
      enable sdo codec p c s.map (record s { map = update_data_size s.map; node = counted })
      ≡ (ok tt, after_save)
  unfolding enable after_save subscriptions pdo_subscribe assigned IsSetUp update_data_size cob_word
  wrote_enabled =
      let s6 : PdoSession N = record s { map = update_data_size s.map; node = counted } in
      ground (
        arith,
        setup,
        write_item-put sdo codec p d p.com_record desc.com_index 1 4
            (cob_id_value c s.map.rtr_allowed) desc.cob_entry s6 desc.cob_lem
            (cob_word-lt c true s.map.rtr_allowed setup.1),
      )

  pub pdo_save_lem : pdo_save sdo codec p s ≡ (ok tt, after_save)
  unfolding pdo_save save_map IsSetUp on_map write_settings on_device
  pdo_save_lem =
      let n1 = d.put s.node desc.com_index 1 (le_bytes 4 (disabled_value c s.map.rtr_allowed)) in
      ground (
        arith,
        setup.0,
        wrote_cob_id,
        com_settings_lem (on_device n1),
        wrote_trans_type n1,
        wrote_count (d.put n1 desc.com_index 2 (le_bytes 1 t)) 0 (omega arith),
        write_mapping_lem (on_device stopped),
        wrote_count (put_all sdo codec p d desc.map_index 1 s.map.variables stopped)
            (length s.map.variables) (omega (arith, setup)),
        wrote_enabled,
      )
