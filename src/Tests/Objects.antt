-- ===== src/Tests/Objects.antt =====
-- Objects of the dictionary and their values.
use canopen_asyncio.Pdo.Layout.{added-clear, IsPacked, added, Addition}
use canopen_asyncio.Pdo.{clear, PdoMap}
use canopen_asyncio.Od.Dictionary.{od_contains, od_get}
use canopen_asyncio.Node.Local.Store.{get_data-set_data_other, get_data-set_data}
use canopen_asyncio.Node.Local.{set_data, write_object, run_callbacks, get_data, find_object}
use canopen_asyncio.Nmt.{on_write}
use canopen_asyncio.Common.Bytes.{Bytes, le_bytes}
use canopen_asyncio.Common.Monad.{err, struct_error, sdo_aborted, ok}
use canopen_asyncio.Od.Structs.RoundTrip.{unsigned_n_pack-container}
use canopen_asyncio.Od.Variable.Coding.{decode_raw-encode_raw, is_plain, kept}
use canopen_asyncio.Od.Types.{Value}
use canopen_asyncio.Od.Variable.{
  is_writable, bit_length, is_number_type, is_integer_type, encode_raw, encode_value, decode_raw,
  struct_pack, to_int,
}
use canopen_asyncio.Od.Structs.{
  struct_size, unsigned_n, unsigned_n_unpack, unsigned_n_pack, pack_unsigned, container,
  struct_type,
}
use canopen_asyncio.Tests.Fixtures.{node, counter, no_codec}
use canopen_asyncio.Common.{
  ◌⊎◌, ◌<◌, ◌≤◌, ◌^◌, ◌%◌, length, List, some, none, false, true, inr, ◌≡◌, refl, arith, [], ◌∷◌,
}
use canopen_asyncio.Common.Int.{pos}

-- 0x01020304 does not fit 24 bits.
unsigned_n_pack-container_example :
    ((0x01020304 < 256 ^ container 3)
      × (bs : Bytes) × (unsigned_n_pack 3 (pos 0x01020304) ≡ ok bs)
      × (length bs ≡ 3)
      × (unsigned_n_unpack 3 bs ≡ ok (pos (0x01020304 % 256 ^ 3))))
    ⊎ ((256 ^ container 3 ≤ 0x01020304) × (unsigned_n_pack 3 (pos 0x01020304) ≡ err struct_error))
unfolding container
unsigned_n_pack-container_example = unsigned_n_pack-container 3 0x01020304 (omega arith)

decode_raw-encode_raw_example :
    decode_raw no_codec counter (3 ∷ 2 ∷ 1 ∷ []) ≡ ok (Value.int (pos 0x010203))
unfolding struct_type is_plain container encode_raw encode_value struct_pack to_int unsigned_n_pack
    pack_unsigned le_bytes kept
decode_raw-encode_raw_example =
    decode_raw-encode_raw no_codec counter (unsigned_n 3) (pos 0x010203) (3 ∷ 2 ∷ 1 ∷ []) refl refl
      refl

get_data-set_data_example :
    get_data ((set_data 0x2001 0 (7 ∷ 8 ∷ 9 ∷ []) true node).1) 0x2001 0 false ≡ ok (7 ∷ 8 ∷ 9 ∷ [])
unfolding set_data find_object od_contains od_get is_writable is_number_type bit_length write_object
    run_callbacks on_write
get_data-set_data_example = get_data-set_data node 0x2001 0 (7 ∷ 8 ∷ 9 ∷ []) true refl refl

get_data-set_data_other_example :
    get_data ((set_data 0x2001 0 (7 ∷ 8 ∷ []) true node).1) 0x2001 0 true
    ≡ get_data node 0x2001 0 true
unfolding set_data find_object od_contains od_get is_writable is_number_type is_integer_type
    bit_length struct_type struct_size write_object run_callbacks on_write
get_data-set_data_other_example =
    get_data-set_data_other node 0x2001 0 (7 ∷ 8 ∷ []) true 0x2001 0 true
      (inr (sdo_aborted 0x06070010, refl))

abbrev pub map : PdoMap
map = record {
  enabled = true;
  cob_id = some 0x185;
  rtr_allowed = true;
  trans_type = some 1;
  inhibit_time = none;
  event_timer = none;
  sync_start_value = none;
  variables = [];
  bit_count = 0;
  payload = 1 ∷ 2 ∷ [];
  timestamp = none;
  period = none;
  is_received = false;
  task = none;
  sent = [];
}

abbrev additions : List Addition
additions = (0x2001, 0, none) ∷ (0x2002, 0, none) ∷ (0x2001, 3, some 12) ∷ []

added-clear_example : IsPacked (added node.object_dictionary additions (clear map))
added-clear_example = added-clear node.object_dictionary additions map
