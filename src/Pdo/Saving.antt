-- ===== src/Pdo/Saving.antt =====
-- Saving the configuration of a PDO map to its node (canopen/pdo/base.py). `save` runs the generator of
-- the writes and makes each write where it is yielded; an abort by the node leaves `save`, so the
-- handlers of the generator, with '@@fill_map', are never reached.
use canopen_asyncio.Pdo.Config.{
  PdoSession, PdoParameters, on_node, on_map, pdo_subscribe, mapping_value, pdo_not_valid,
  rtr_not_allowed,
}
use canopen_asyncio.Pdo.{PdoMap, PdoVariable, update_data_size}
use canopen_asyncio.Sdo.Base.{SdoNode, sdo_item, sdo_keys, set_raw}
use canopen_asyncio.Od.Types.{Value, OdVariable, OdObject, Codec}
use canopen_asyncio.Od.Variable.{is_writable}
use canopen_asyncio.Common.Int.{pos}
use canopen_asyncio.Common.Monad.{Action, pure, lift, modify, ◌>>=◌, ◌>>◌, ok}
use canopen_asyncio.Common.{
  ℕ, Bool, Option, none, some, List, [], ◌∷◌, ◌++◌, if◌then◌else◌, bit_or, length,
}

-- The COB-ID with the flag for remote requests.
unfoldable pub cob_id_value : ℕ → Bool → ℕ
cob_id_value cob_id rtr_allowed = bit_or cob_id (if rtr_allowed then 0 else rtr_not_allowed)

-- `self.cob_id | PDO_NOT_VALID | ...`
unfoldable pub disabled_value : ℕ → Bool → ℕ
disabled_value cob_id rtr_allowed =
    bit_or (bit_or cob_id pdo_not_valid) (if rtr_allowed then 0 else rtr_not_allowed)

module _ {N : Type 0} (sdo : SdoNode N) (codec : Codec) (p : PdoParameters) where
  -- `sdo.raw = value`
  unfoldable pub write_number : OdVariable → ℕ → Action (PdoSession N) (Unit {0})
  write_number v value = on_node (set_raw sdo codec v (Value.int (pos value)))

  unfoldable pub write_item : OdObject → ℕ → ℕ → Action (PdoSession N) (Unit {0})
  write_item obj subindex value = do v ← lift (sdo_item obj subindex); write_number v value

  unfoldable pub write_settings : List (OdVariable × ℕ) → Action (PdoSession N) (Unit {0})
  write_settings [] = pure tt
  write_settings ((v, value) ∷ rest) = do write_number v value; write_settings rest

  -- `_set_com_record`
  unfoldable pub com_setting : ℕ → Option ℕ → Action (PdoSession N) (List (OdVariable × ℕ))
  com_setting subindex none = pure []
  com_setting subindex (some value) = do
    v ← lift (sdo_item p.com_record subindex)
    pure (if is_writable v then (v, value) ∷ [] else [])

  -- All four are looked up before the first is written.
  unfoldable pub com_settings : PdoMap → Action (PdoSession N) (List (OdVariable × ℕ))
  com_settings m = do
    trans_type ← com_setting 2 m.trans_type
    inhibit_time ← com_setting 3 m.inhibit_time
    event_timer ← com_setting 5 m.event_timer
    sync_start_value ← com_setting 6 m.sync_start_value
    pure (trans_type ++ (inhibit_time ++ (event_timer ++ sync_start_value)))

  -- An entry that is not writable is passed over, with its variable.
  unfoldable pub write_entry : PdoVariable → OdVariable → Action (PdoSession N) (Unit {0})
  write_entry v entry s =
      if is_writable entry then write_number entry (mapping_value p.curtis_hack v) s else (ok tt, s)

  -- The loop over `zip(self.map, self.map_array.values())`.
  unfoldable pub write_entries : List PdoVariable → List ℕ → Action (PdoSession N) (Unit {0})
  write_entries [] keys = pure tt
  write_entries (v ∷ vs) [] = pure tt
  write_entries (v ∷ vs) (key ∷ keys) = do
    entry ← lift (sdo_item p.map_array key)
    write_entry v entry
    write_entries vs keys

  -- `zip` asks for a key when there is a variable.
  unfoldable pub write_mapping : List PdoVariable → Action (PdoSession N) (Unit {0})
  write_mapping [] = pure tt
  write_mapping (v ∷ vs) = do
    keys ← on_node (sdo_keys sdo codec p.map_array)
    write_entries (v ∷ vs) keys

  unfoldable pub enable : ℕ → PdoMap → Action (PdoSession N) (Unit {0})
  enable cob_id m s =
      let steps = do write_item p.com_record 1 (cob_id_value cob_id m.rtr_allowed); pdo_subscribe
      in if m.enabled then steps s else (ok tt, s)

  unfoldable pub save_map : ℕ → PdoMap → Action (PdoSession N) (Unit {0})
  save_map cob_id m = do
    write_item p.com_record 1 (disabled_value cob_id m.rtr_allowed)
    settings ← com_settings m
    write_settings settings
    write_item p.map_array 0 0
    write_mapping m.variables
    write_item p.map_array 0 (length m.variables)
    on_map (modify update_data_size)
    enable cob_id m

  -- `save_generator`, run by `save`.
  unfoldable pub pdo_save : Action (PdoSession N) (Unit {0})
  pdo_save s = elim s.map.cob_id [ none ↦ (ok tt, s) | some cob_id ↦ save_map cob_id s.map s ]
