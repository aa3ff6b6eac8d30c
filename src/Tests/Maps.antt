-- ===== src/Tests/Maps.antt =====
-- The values of mapped variables.
use canopen_asyncio.Sdo.Client.Transfer.Upload.{reading}
use canopen_asyncio.Pdo.Mapped.{added-pdo_set_data}
use canopen_asyncio.Pdo.Setting.{pdo_set_data-replaced, pdo_get_data-pdo_set_data}
use canopen_asyncio.Pdo.Values.{pdo_get_data, pdo_set_data, bit_struct, is_bit_field}
use canopen_asyncio.Common.Bytes.{le_bytes, from_le}
use canopen_asyncio.Common.Numbers.{replaced}
use canopen_asyncio.Od.Structs.{struct_type}
use canopen_asyncio.Od.Dictionary.{array_get, record_get, od_get, od_contains}
use canopen_asyncio.Pdo.Layout.{IsLaid, added, Addition}
use canopen_asyncio.Pdo.Fields.{IsPlaced}
use canopen_asyncio.Pdo.{
  add_variable, get_variable, placed, update_data_size, pdo_update, PdoMap, PdoVariable, clear,
}
use canopen_asyncio.Od.Types.{has_char, OdObject, OdVariable, ObjectDictionary}
use canopen_asyncio.Tests.Fixtures.{counter, no_codec}
use canopen_asyncio.Tests.Store.{memory_put, Memory, memory, memory_sdo}
use canopen_asyncio.Pdo.RoundTrip.{write_mapping-array, pdo_read-pdo_save}
use canopen_asyncio.Pdo.Restoring.{Description, IsSetUp}
use canopen_asyncio.Pdo.Entries.{IsKnown, configuration}
use canopen_asyncio.Pdo.Device.{IsEntry, Slots}
use canopen_asyncio.Pdo.Words.{mapped_entry-mapping_value, IsMappable}
use canopen_asyncio.Pdo.Config.{mapped_entry, mapping_value, PdoSession, PdoParameters, pdo_read}
use canopen_asyncio.Pdo.Saving.{pdo_save, write_item, write_mapping}
use canopen_asyncio.Sdo.Base.{sdo_item, nonzero, sorted_keys, insert_sorted, numbers_from}
use canopen_asyncio.Od.Variable.{is_writable}
use canopen_asyncio.Tests.Objects.{map}
use canopen_asyncio.Common.{true, ℕ, false, some, [], ◌∷◌, List, ◌≡◌, refl, arith, inl, inr}
use canopen_asyncio.Common.Monad.{◌>>=◌, ok}
use canopen_asyncio.Common.Int.{pos}

-- UNSIGNED8 and UNSIGNED16.
abbrev flags : OdVariable
flags = record counter { index = 0x2003; data_type = 5 }

abbrev level : OdVariable
level = record counter { index = 0x2004; data_type = 6 }

abbrev od : ObjectDictionary
od = record { indices = (0x2003, OdObject.variable flags) ∷ (0x2004, OdObject.variable level) ∷ [] }

-- Bits 0 to 2, and bits 3 to 14.
abbrev flags_bits : PdoVariable
flags_bits = record { od = flags; subindex = 0; offset = 0; length = 3 }

abbrev level_bits : PdoVariable
level_bits = record { od = level; subindex = 0; offset = 3; length = 12 }

abbrev bit_additions : List Addition
bit_additions = (0x2003, 0, some 3) ∷ (0x2004, 0, some 12) ∷ []

abbrev running : PdoMap
running = record map {
  payload = 0x85 ∷ 0xff ∷ [];
  task = some (record { can_id = 0x185; payload = 0x85 ∷ 0xff ∷ []; period = pos 100 });
}

flags-IsPlaced : IsPlaced flags_bits 1 2
unfolding IsPlaced bit_struct struct_type is_bit_field
flags-IsPlaced = (refl, omega arith, omega arith, inl refl)

level-IsPlaced : IsPlaced level_bits 2 2
unfolding IsPlaced bit_struct struct_type is_bit_field
level-IsPlaced = (refl, omega arith, omega arith, inl refl)

built_variables : (added od bit_additions (clear map)).variables ≡ flags_bits ∷ level_bits ∷ []
unfolding added add_variable get_variable od_get od_contains placed update_data_size clear
built_variables = refl

-- 0x123 in bits 3 to 14 of 0xff85 is 0x891d.
pdo_set_data-replaced_example : pdo_set_data level_bits (0x23 ∷ 0x01 ∷ []) running ≡ (
  ok tt,
  record running {
    payload = 0x1d ∷ 0x89 ∷ [];
    task = some (record { can_id = 0x185; payload = 0x1d ∷ 0x89 ∷ []; period = pos 100 });
  },
)
unfolding le_bytes replaced from_le pdo_update
pdo_set_data-replaced_example =
    pdo_set_data-replaced level_bits 2 0x123 running (omega arith, (omega arith, tt)) level-IsPlaced
      (omega arith)

pdo_get_data-pdo_set_data_example :
    let m' = (pdo_set_data flags_bits (2 ∷ []) running).1 in
    (pdo_get_data flags_bits m'.payload ≡ ok (2 ∷ []))
    × (pdo_get_data level_bits m'.payload ≡ pdo_get_data level_bits (0x85 ∷ 0xff ∷ []))
unfolding le_bytes
pdo_get_data-pdo_set_data_example =
    pdo_get_data-pdo_set_data flags_bits level_bits 1 2 2 running (omega arith, (omega arith, tt))
      flags-IsPlaced (omega arith) level-IsPlaced (inr (omega arith))

added-pdo_set_data_example :
    let built = record (added od bit_additions (clear map)) { payload = 0x85 ∷ 0xff ∷ [] } in
    (pdo_get_data flags_bits (pdo_set_data flags_bits (2 ∷ []) built).1.payload ≡ ok (2 ∷ []))
    × (pdo_get_data level_bits (pdo_set_data flags_bits (2 ∷ []) built).1.payload
        ≡ pdo_get_data level_bits (0x85 ∷ 0xff ∷ []))
    × (pdo_get_data level_bits (pdo_set_data level_bits (0x23 ∷ 1 ∷ []) built).1.payload
        ≡ ok (0x23 ∷ 1 ∷ []))
    × (pdo_get_data flags_bits (pdo_set_data level_bits (0x23 ∷ 1 ∷ []) built).1.payload
        ≡ pdo_get_data flags_bits (0x85 ∷ 0xff ∷ []))
unfolding le_bytes
added-pdo_set_data_example =
    added-pdo_set_data od bit_additions map (0x85 ∷ 0xff ∷ []) [] flags_bits [] level_bits [] 1 2 2
      0x123 built_variables (omega arith, (omega arith, tt)) flags-IsPlaced level-IsPlaced
      (omega arith) (omega arith)

abbrev entry : ℕ → ℕ → ℕ → OdVariable
entry index subindex data_type = record counter {
  index = index;
  subindex = subindex;
  data_type = data_type;
}

-- A synchronous map with two entries.
abbrev parameters : PdoParameters
parameters = record {
  od = od;
  com_record = OdObject.rec (record {
    name = [];
    index = 0x1800;
    subindices = (1, entry 0x1800 1 7) ∷ (2, entry 0x1800 2 5) ∷ [];
  });
  map_array = OdObject.rec (record {
    name = [];
    index = 0x1A00;
    subindices = (0, entry 0x1A00 0 5) ∷ (1, entry 0x1A00 1 7) ∷ (2, entry 0x1A00 2 7) ∷ [];
  });
  curtis_hack = false;
}

abbrev set_up_map : PdoMap
set_up_map = record map { variables = flags_bits ∷ level_bits ∷ []; bit_count = 15 }

abbrev session : PdoSession Memory
session = record { map = set_up_map; node = λ index subindex. []; subscribed = [] }

set_up_map-IsSetUp : IsSetUp od 0x185 1 set_up_map
unfolding IsSetUp IsKnown IsLaid get_variable od_get
set_up_map-IsSetUp = (
  refl,
  omega arith,
  refl,
  omega arith,
  refl,
  refl,
  refl,
  omega arith,
  (refl, refl, refl, (refl, refl, refl, tt)),
  (refl, (refl, refl)),
)

description : Description parameters set_up_map
unfolding IsEntry struct_type sdo_item record_get is_writable has_char Slots IsMappable nonzero
    sorted_keys insert_sorted numbers_from
description = record {
  com_index = 0x1800;
  map_index = 0x1A00;
  apart = λ e. absurd (omega (arith, e));
  cob_entry = entry 0x1800 1 7;
  cob_lem = (refl, refl, refl, refl);
  trans_entry = entry 0x1800 2 5;
  trans_lem = (refl, refl, refl, refl);
  trans_writable = refl;
  count_entry = entry 0x1A00 0 5;
  count_lem = (refl, refl, refl, refl);
  map_record = record {
    name = [];
    index = 0x1A00;
    subindices = (0, entry 0x1A00 0 5) ∷ (1, entry 0x1A00 1 7) ∷ (2, entry 0x1A00 2 7) ∷ [];
  };
  map_record_lem = refl;
  spare = [];
  keys_lem = refl;
  slots = (
    (entry 0x1A00 1 7, (refl, refl, refl, refl), refl),
    (omega arith, omega arith, omega arith),
    (
      (entry 0x1A00 2 7, (refl, refl, refl, refl), refl),
      (omega arith, omega arith, omega arith),
      tt,
    ),
  );
}

pdo_read-pdo_save_example :
    let (saving, s') = pdo_save memory_sdo no_codec parameters session in
    let (reading, s'') = pdo_read memory_sdo no_codec parameters false (record s' { map = map }) in
    (saving ≡ ok tt)
    × (reading ≡ ok tt)
    × (configuration s''.map ≡ configuration set_up_map)
    × (s''.node ≡ s'.node)
pdo_read-pdo_save_example =
    pdo_read-pdo_save memory_sdo no_codec parameters memory session map 0x185 1 set_up_map-IsSetUp
      description

-- The same with an array of entries.
abbrev array_parameters : PdoParameters
array_parameters = record parameters {
  map_array = OdObject.array (record {
    name = [];
    index = 0x1A00;
    subindices = (0, entry 0x1A00 0 5) ∷ (1, entry 0x1A00 1 7) ∷ [];
  });
}

write_mapping-array_example :
    (write_item memory_sdo no_codec array_parameters array_parameters.map_array 0 0 >>= λ _.
    write_mapping memory_sdo no_codec array_parameters (flags_bits ∷ level_bits ∷ []))
      session
    ≡ (ok tt, record session { node = memory_put session.node 0x1A00 0 (0 ∷ []) })
unfolding IsEntry sdo_item array_get struct_type le_bytes
write_mapping-array_example =
    write_mapping-array memory_sdo no_codec array_parameters memory session
      (record {
        name = [];
        index = 0x1A00;
        subindices = (0, entry 0x1A00 0 5) ∷ (1, entry 0x1A00 1 7) ∷ [];
      })
      0x1A00 (entry 0x1A00 0 5) (flags_bits ∷ level_bits ∷ []) refl (refl, refl, refl, refl)

level-IsMappable : IsMappable level_bits
unfolding IsMappable
level-IsMappable = (omega arith, omega arith, omega arith)

mapped_entry-mapping_value_example :
    mapped_entry true (mapping_value true level_bits) ≡ (0x2004, 0, 12)
mapped_entry-mapping_value_example = mapped_entry-mapping_value true level_bits level-IsMappable
