-- ===== src/Tests/Views.antt =====
-- Views of values, and the maps of a node.
use canopen_asyncio.Pdo.Maps.Numbers.{get_map-open_maps, numbered_map}
use canopen_asyncio.Pdo.Maps.{PdoMaps, FoundMap, open_maps, get_map, find_maps, default_cob_id}
use canopen_asyncio.Od.Variable.Descriptions.{
  decode_desc-encode_desc, decode_desc, encode_desc, value_of, HasDistinctKeys, IsAbsent, same_int,
}
use canopen_asyncio.Od.Variable.BitFields.Merged.{decode_bits-encode_bits}
use canopen_asyncio.Od.Variable.BitFields.{
  same_text, BitKey, decode_bits, encode_bits, other_bits, key_offsets, definition_of, lowest,
  bits_mask, masked_bits,
}
use canopen_asyncio.Od.Dictionary.{od_contains}
use canopen_asyncio.Od.Types.{OdVariable, OdObject, ObjectDictionary}
use canopen_asyncio.Tests.Store.{Memory, memory, memory_put, memory_sdo}
use canopen_asyncio.Sdo.Bits.Written.{bits_open-bits_set}
use canopen_asyncio.Sdo.Bits.{BitsKey, bits_open, bits_set, get_bit_key, range_to, or_default}
use canopen_asyncio.Od.Variable.{is_integer_type}
use canopen_asyncio.Od.Structs.{struct_size, struct_type}
use canopen_asyncio.Common.Bytes.{le_bytes}
use canopen_asyncio.Od.Eds.Limits.{limit-IsReading, IsReading}
use canopen_asyncio.Od.Eds.{
  is_signed_type, calc_bit_length, limit, read_limit, signed_int_from_hex, int_of_text, signed_int,
  int_ltb, minus,
}
use canopen_asyncio.Tests.Fixtures.{no_codec, counter, blob}
use canopen_asyncio.Common.Int.{difference, pos, negsuc, shift_left, or_bits}
use canopen_asyncio.Common.Monad.{ok}
use canopen_asyncio.Common.{none, ◌≡◌, refl, arith, [], ◌∷◌, some}

-- Bits 4 to 6 are named "m", and two values have descriptions.
abbrev mode : OdVariable
mode = record counter {
  bit_definitions = ((b'm' ∷ []), (4 ∷ 5 ∷ 6 ∷ [])) ∷ [];
  value_descriptions = (negsuc 0, b'o' ∷ []) ∷ (pos 3, b'i' ∷ []) ∷ [];
}

-- -1 with bits 4 to 6 set to 5.
decode_bits-encode_bits_example :
    (decode_bits mode (negsuc 32) (BitKey.named (b'm' ∷ []))
      ≡ decode_bits mode (shift_left (pos 5) 4) (BitKey.named (b'm' ∷ [])))
    × (other_bits (negsuc 32) (bits_mask 0 (4 ∷ 5 ∷ 6 ∷ []))
        ≡ other_bits (negsuc 0) (bits_mask 0 (4 ∷ 5 ∷ 6 ∷ [])))
unfolding key_offsets definition_of same_text lowest encode_bits bits_mask masked_bits other_bits
    or_bits shift_left
decode_bits-encode_bits_example =
    decode_bits-encode_bits mode (BitKey.named (b'm' ∷ [])) (4 ∷ 5 ∷ 6 ∷ []) 4 (negsuc 0) (pos 5)
      (negsuc 32) refl refl refl

decode_desc-encode_desc_example : decode_desc mode (pos 3) ≡ ok (b'i' ∷ [])
unfolding encode_desc value_of same_text HasDistinctKeys IsAbsent same_int
decode_desc-encode_desc_example =
    decode_desc-encode_desc mode (b'i' ∷ []) (pos 3) ((refl, tt), (tt, tt)) refl

-- The second TPDO only.
abbrev second_map : ObjectDictionary
second_map = record {
  indices = (0x1801, OdObject.variable blob) ∷ (0x1A01, OdObject.variable blob) ∷ [];
}

abbrev found : FoundMap
found = record { com_index = 0x1801; map_index = 0x1A01; predefined_cob_id = some 0x285 }

abbrev tpdo_maps : PdoMaps
tpdo_maps = record { maps = (2, found) ∷ []; com_offset = 0x1800; map_offset = 0x1A00 }

get_map-open_maps_example :
    (get_map tpdo_maps 2 ≡ ok found)
    × (get_map tpdo_maps 0x1A01 ≡ ok found)
    × (get_map tpdo_maps 0x1801 ≡ ok found)
unfolding open_maps find_maps od_contains numbered_map default_cob_id
get_map-open_maps_example =
    get_map-open_maps second_map 0x1800 0x1A00 (some 0x180) 5 tpdo_maps 1 refl (omega arith)
      (omega arith) (omega arith) refl

abbrev status : OdVariable
status = record counter { data_type = 5 }

-- Bits 4 to 6 of 3 set to 5.
bits_open-bits_set_example :
    let n : Memory = memory_put (λ i j. []) 0x2001 0 (0x53 ∷ []) in
    (bits_set memory_sdo no_codec status
        (pos 3)
        (BitsKey.slice (some 4) (some 7) none)
        (pos 5)
        (λ i j. [])
      ≡ (ok (pos 0x53), n))
    × (bits_open memory_sdo no_codec status n ≡ (ok (pos 0x53), n))
unfolding struct_type is_integer_type get_bit_key range_to or_default encode_bits key_offsets lowest
    bits_mask masked_bits other_bits or_bits shift_left le_bytes
bits_open-bits_set_example =
    bits_open-bits_set memory_sdo no_codec memory status 1 0x53 (pos 3) (pos 5)
      (BitsKey.slice (some 4) (some 7) none) (BitKey.offsets (4 ∷ 5 ∷ 6 ∷ [])) (λ i j. []) refl refl
      refl refl (omega arith)

-- 0xFF as the limit of an INTEGER8.
limit-IsReading_example : IsReading 7 (pos 0xFF) (some (negsuc 0))
unfolding is_signed_type calc_bit_length is_integer_type struct_type struct_size limit read_limit
    signed_int_from_hex int_of_text signed_int int_ltb minus difference
limit-IsReading_example =
    limit-IsReading (λ text. some (pos 0xFF)) 2 (b'F' ∷ b'F' ∷ []) (pos 0xFF) 7 refl refl refl
