-- ===== src/Pdo/Config.antt =====
-- The configuration of a PDO map, read from its node and saved to it (canopen/pdo/base.py). The
-- generators run with the loop that sends them values: the value or the write of each step is got where
-- it is yielded. An exception of a transfer arises in that loop and not in the generator, so no handler
-- of the generator sees it. `subscribed` holds the COB-IDs that the network was asked to subscribe to.
-- Entries of a signed type are left out.
use canopen_asyncio.Pdo.{PdoMap, PdoVariable, add_variable, assigned, clear}
use canopen_asyncio.Sdo.Base.{SdoNode, as_number, sdo_item, get_number}
use canopen_asyncio.Od.Types.{OdVariable, OdObject, ObjectDictionary, Codec}
use canopen_asyncio.Common.Monad.{
  Action, Result, ok, err, pure, lift, modify, ◌>>=◌, ◌>>◌, key_error, type_error,
}
use canopen_asyncio.Common.{
  ℕ, zero, suc, ◌+◌, ◌*◌, ◌/◌, ◌^◌, Bool, true, false, ◌||◌, none, some, List, [], ◌∷◌, ◌++◌, leb,
  ◌==◌, if◌then◌else◌, bit_and, bit_or,
}

abbrev pub pdo_not_valid : ℕ
pdo_not_valid = 0x80000000

abbrev pub rtr_not_allowed : ℕ
rtr_not_allowed = 0x40000000

pub record PdoSession (N : Type 0) : Type 0 where
  pub map : PdoMap
  pub node : N
  pub subscribed : List ℕ

-- What belongs to a map: the object dictionary of its node, its two parameter objects, and whether the
-- node has `curtis_hack`.
pub record PdoParameters : Type 0 where
  pub od : ObjectDictionary
  pub com_record : OdObject
  pub map_array : OdObject
  pub curtis_hack : Bool

module _ {N A : Type 0} where
  unfoldable pub on_node : Action N A → Action (PdoSession N) A
  on_node f s = let (r, n) = f s.node in (r, record s { node = n })

  unfoldable pub on_map : Action PdoMap A → Action (PdoSession N) A
  on_map f s = let (r, m) = f s.map in (r, record s { map = m })

-- `subscribe`
unfoldable pub pdo_subscribe : {N : Type 0} → Action (PdoSession N) (Unit {0})
pdo_subscribe s = elim (assigned s.map) [
  | none ↦ (ok tt, s)
  | some c ↦
      (ok tt, if s.map.enabled then record s { subscribed = s.subscribed ++ (c ∷ []) } else s)
]

-- `param.od.value`, or else `param.od.default`.
unfoldable pub od_value : OdVariable → Result ℕ
od_value v = elim v.value [
  | some x ↦ as_number x
  | none ↦ elim v.default [ some x ↦ as_number x | none ↦ err type_error ]
]

-- The COB-ID entry as the fields that it sets.
unfoldable pub with_cob_id : ℕ → PdoMap → PdoMap
with_cob_id value m = record m {
  cob_id = some (bit_and value 0x1FFFFFFF);
  enabled = bit_and value pdo_not_valid == 0;
  rtr_allowed = bit_and value rtr_not_allowed == 0;
}

-- Index, subindex and length of an entry of the mapping.
unfoldable pub mapped_entry : Bool → ℕ → ℕ × ℕ × ℕ
mapped_entry curtis_hack value =
    if curtis_hack
    then (bit_and value 0xFFFF, bit_and (value / 2 ^ 16) 0xFF, bit_and (value / 2 ^ 24) 0x7F)
    else (value / 2 ^ 16, bit_and (value / 2 ^ 8) 0xFF, bit_and value 0x7F)

-- The entry of the mapping that stands for a variable.
unfoldable pub mapping_value : Bool → PdoVariable → ℕ
mapping_value curtis_hack v =
    if curtis_hack
    then bit_or (bit_or v.od.index (v.subindex * 2 ^ 16)) (v.length * 2 ^ 24)
    else bit_or (bit_or (v.od.index * 2 ^ 16) (v.subindex * 2 ^ 8)) v.length

-- `add_variable`, of an entry with an index and a length.
unfoldable pub add_mapped : ObjectDictionary → ℕ × ℕ × ℕ → Action PdoMap (Unit {0})
add_mapped od (index, subindex, size) m =
    let (r, m') = add_variable od index subindex (some size) m in
    let added : Result (Unit {0}) = elim r [ ok v ↦ ok tt | err e ↦ err e ] in
    if index == 0 || size == 0 then (ok tt, m) else (added, m')

module _ {N : Type 0} (sdo : SdoNode N) (codec : Codec) (p : PdoParameters) where
  -- A value that `read` delivers to `read_generator`.
  unfoldable pub delivered : Bool → OdVariable → Action (PdoSession N) ℕ
  delivered true v = lift (od_value v)
  delivered false v = on_node (get_number sdo codec v)

  unfoldable pub read_item : Bool → OdObject → ℕ → Action (PdoSession N) ℕ
  read_item from_od obj subindex = do v ← lift (sdo_item obj subindex); delivered from_od v

  -- An entry that the dictionary may not have: only its look-up is in reach of the handler.
  unfoldable pub read_optional : Bool → ℕ → (ℕ → PdoMap → PdoMap) → Action (PdoSession N) (Unit {0})
  read_optional from_od subindex update s = elim (sdo_item p.com_record subindex) [
    | err key_error ↦ (ok tt, s)
    | err e ↦ (err e, s)
    | ok v ↦ (delivered from_od v >>= λ value. on_map (modify (update value))) s
  ]

  unfoldable pub read_timing : Bool → ℕ → Action (PdoSession N) (Unit {0})
  read_timing from_od trans_type s =
      let rest = do
        read_optional from_od 3 (λ value m. record m { inhibit_time = some value })
        read_optional from_od 5 (λ value m. record m { event_timer = some value })
        read_optional from_od 6 (λ value m. record m { sync_start_value = some value })
      in if leb 254 trans_type then rest s else (ok tt, s)

  unfoldable pub read_com_record : Bool → Action (PdoSession N) (Unit {0})
  read_com_record from_od = do
    cob_id ← read_item from_od p.com_record 1
    on_map (modify (with_cob_id cob_id))
    trans_type ← read_item from_od p.com_record 2
    on_map (modify (λ m. record m { trans_type = some trans_type }))
    read_timing from_od trans_type

  -- The loop over the entries of the mapping, from `subindex` on.
  unfoldable pub read_mapping : Bool → ℕ → ℕ → Action (PdoSession N) (Unit {0})
  read_mapping from_od zero subindex = pure tt
  read_mapping from_od (suc count) subindex = do
    value ← read_item from_od p.map_array subindex
    on_map (add_mapped p.od (mapped_entry p.curtis_hack value))
    read_mapping from_od count (subindex + 1)

  -- `read_generator`, run by `read`.
  unfoldable pub pdo_read : Bool → Action (PdoSession N) (Unit {0})
  pdo_read from_od = do
    read_com_record from_od
    on_map (modify clear)
    nof_entries ← read_item from_od p.map_array 0
    read_mapping from_od nof_entries 1
    pdo_subscribe
