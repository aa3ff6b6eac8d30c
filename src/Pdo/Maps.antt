-- ===== src/Pdo/Maps.antt =====
-- `PdoMaps` (canopen/pdo/base.py): the maps of a node by their numbers, and what the communication
-- parameters of the dictionary make of them. A map is a parameter here.
pub mod Numbers
use canopen_asyncio.Od.Types.{ObjectDictionary}
use canopen_asyncio.Od.Dictionary.{od_contains}
use canopen_asyncio.Common.Dict.{Dict, lookup, insert}
use canopen_asyncio.Common.Monad.{Result, ok, err, key_error}
use canopen_asyncio.Common.{
  ℕ, zero, suc, ◌+◌, ◌-◌, ◌*◌, ◌&&◌, not, Option, none, some, [], ltb, leb, ◌==◌, if◌then◌else◌,
}

-- A map that was found: its two objects, and its default COB-ID.
pub record FoundMap : Type 0 where
  pub com_index : ℕ
  pub map_index : ℕ
  pub predefined_cob_id : Option ℕ

pub record PdoMaps : Type 0 where
  pub maps : Dict FoundMap
  pub com_offset : ℕ
  pub map_offset : ℕ

-- `cob_base + map_no * 0x100 + node.id` for the first four maps.
unfoldable pub default_cob_id : Option ℕ → ℕ → ℕ → Option ℕ
default_cob_id none map_no node_id = none
default_cob_id (some cob_base) map_no node_id =
    if ltb map_no 4 then some (cob_base + map_no * 0x100 + node_id) else none

-- The loop of `__init__` over the numbers from `map_no` on: a map whose mapping object is missing raises.
unfoldable pub find_maps :
    ObjectDictionary → ℕ → ℕ → Option ℕ → ℕ → ℕ → ℕ → Dict FoundMap → Result (Dict FoundMap)
find_maps od com_offset map_offset cob_base node_id zero map_no maps = ok maps
find_maps od com_offset map_offset cob_base node_id (suc left) map_no maps =
    let found : FoundMap = record {
      com_index = com_offset + map_no;
      map_index = map_offset + map_no;
      predefined_cob_id = default_cob_id cob_base map_no node_id;
    } in
    let with_map =
      find_maps od com_offset map_offset cob_base node_id left (map_no + 1)
        (insert (map_no + 1) found maps) in
    let without = find_maps od com_offset map_offset cob_base node_id left (map_no + 1) maps in
    if od_contains od (com_offset + map_no)
    then (if od_contains od (map_offset + map_no) then with_map else err key_error)
    else without

-- `PdoMaps.__init__`
unfoldable pub open_maps : ObjectDictionary → ℕ → ℕ → Option ℕ → ℕ → Result PdoMaps
open_maps od com_offset map_offset cob_base node_id =
    if com_offset == 0 && map_offset == 0
    then ok (record { maps = []; com_offset = com_offset; map_offset = map_offset })
    else elim (find_maps od com_offset map_offset cob_base node_id 512 0 []) [
      | ok maps ↦ ok (record { maps = maps; com_offset = com_offset; map_offset = map_offset })
      | err e ↦ err e
    ]

-- `self.maps[key + 1 - offset]`, where the offset is not 0; no map has a number below 1.
unfoldable pub by_offset : Dict FoundMap → ℕ → ℕ → Option FoundMap
by_offset maps offset key =
    if not (offset == 0) && leb offset key then lookup (key + 1 - offset) maps else none

-- `PdoMaps.__getitem__`: by number, then by the index of the mapping, then by that of the parameters.
unfoldable pub get_map : PdoMaps → ℕ → Result FoundMap
get_map p key = elim (lookup key p.maps) [
  | some m ↦ ok m
  | none ↦ elim (by_offset p.maps p.map_offset key) [
    | some m ↦ ok m
    | none ↦ elim (by_offset p.maps p.com_offset key) [ some m ↦ ok m | none ↦ err key_error ]
  ]
]
