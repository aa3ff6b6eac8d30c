-- ===== src/Tests/Fixtures.antt =====
-- A local node with an octet string that is read and written, and what talks to it.
use canopen_asyncio.Common.Monad.{err, overflow_error}
use canopen_asyncio.Sdo.Server.{SdoServer}
use canopen_asyncio.Sdo.Client.{SdoClient}
use canopen_asyncio.Od.Types.{OdObject, Value, OdVariable, Codec}
use canopen_asyncio.Node.Local.{nmt_on_write, LocalNode}
use canopen_asyncio.Nmt.{NmtSlave, NmtBase}
use canopen_asyncio.Common.{none, some, [], ◌∷◌}

abbrev pub no_codec : Codec
no_codec = record {
  real_pack = λ k v. err overflow_error;
  real_unpack = λ k b. 0;
  utf16_encode = λ t. none;
  utf16_decode = λ b. [];
  int_of = λ v. none;
}

-- DOMAIN, "rw", default 1 2 3.
abbrev pub blob : OdVariable
blob = record {
  index = 0x2000;
  subindex = 0;
  name = [];
  data_type = 0x0F;
  access_type = b'r' ∷ b'w' ∷ [];
  value = none;
  default = some (Value.bytes (1 ∷ 2 ∷ 3 ∷ []));
  value_descriptions = [];
  bit_definitions = [];
}

-- UNSIGNED24, "rw", no value.
abbrev pub counter : OdVariable
counter = record {
  index = 0x2001;
  subindex = 0;
  name = [];
  data_type = 0x16;
  access_type = b'r' ∷ b'w' ∷ [];
  value = none;
  default = none;
  value_descriptions = [];
  bit_definitions = [];
}

abbrev pub base : NmtBase
base = record { id = 5; state = 5; sent = [] }

abbrev pub slave : NmtSlave
slave = record { base = base; send_task = none; heartbeat_time_ms = 0 }

abbrev pub node : LocalNode
node = record {
  id = 5;
  object_dictionary = record {
    indices = (0x2000, OdObject.variable blob) ∷ (0x2001, OdObject.variable counter) ∷ [];
  };
  data_store = [];
  read_callbacks = [];
  write_callbacks = nmt_on_write ∷ [];
  nmt = slave;
  codec = no_codec;
}

abbrev pub server : SdoServer
server = record {
  node = node;
  buffer = none;
  toggle = 0;
  index = none;
  subindex = none;
  last_received_error = 0;
  sent = [];
}

abbrev pub client : SdoClient SdoServer
client = record { env = server; responses = [] }
