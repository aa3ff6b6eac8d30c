-- ===== src/Tests/Transfers.antt =====
-- Transfers with the concrete node.
use canopen_asyncio.Od.Dictionary.{od_contains, od_get}
use canopen_asyncio.Od.Variable.{encode_raw, is_readable, is_writable, is_number_type}
use canopen_asyncio.Nmt.{on_write}
use canopen_asyncio.Sdo.Client.Transfer.Outcome.{download-set_data, Delivers, wanted}
use canopen_asyncio.Sdo.Client.Transfer.Fetch.{fetched}
use canopen_asyncio.Sdo.Client.Transfer.Fetched.{upload-get_data, Fetches}
use canopen_asyncio.Sdo.Client.Transfer.{server_bus}
use canopen_asyncio.Sdo.Client.Readable.{upload}
use canopen_asyncio.Sdo.Client.Writable.{download}
use canopen_asyncio.Common.Bytes.{Bytes}
use canopen_asyncio.Node.Local.{
  set_data, write_object, run_callbacks, read_object, stored_or_default, stored, try_callbacks,
  find_object, get_data,
}
use canopen_asyncio.Tests.Fixtures.{client, node}
use canopen_asyncio.Common.{[], ◌∷◌, true, false, arith}

abbrev message : Bytes
message = 10 ∷ 20 ∷ 30 ∷ 40 ∷ 50 ∷ 60 ∷ 70 ∷ 80 ∷ 90 ∷ []

download-set_data_example :
    Delivers (wanted client 0x2000 0 message) (download server_bus 20 0x2000 0 message false client)
unfolding set_data find_object od_contains od_get is_writable is_number_type write_object
    run_callbacks on_write
download-set_data_example =
    download-set_data client 0x2000 0 20 message false (omega arith) (omega arith) (omega arith)
      (omega arith) tt

upload-get_data_example :
    Fetches (fetched (get_data node 0x2000 0 true)) node (upload server_bus 20 0x2000 0 client)
unfolding get_data find_object od_contains od_get is_readable read_object try_callbacks
    stored_or_default stored encode_raw
upload-get_data_example =
    upload-get_data client 0x2000 0 20 (omega arith) (omega arith) tt (omega arith) (omega arith)
