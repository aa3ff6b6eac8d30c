-- ===== src/Lib.antt =====
-- canopen_asyncio: a CANopen library. A node is local (it serves its object dictionary) or remote (it
-- is accessed over the bus); both exchange frames through one network.
--
-- How the parts interact, and which file models which:
-- - Common: lists, bytes, bits, dicts, and the monad of state and exceptions. An action takes the state
--   and gives a value or an exception, with the state as it was left.
-- - Od: canopen/objectdictionary/__init__.py and datatypes.py. Od.Types has the objects, Od.Structs the
--   packers of STRUCT_TYPES, Od.Variable encode_raw and decode_raw, its children bit fields and
--   descriptions, Od.Dictionary look-up by number, Od.Eds the limits of canopen/objectdictionary/eds.py.
-- - Node.Local: canopen/node/local.py, get_data and set_data over the dictionary, the callbacks and
--   the data store, with the NMT slave that a write of object 0x1017 reaches. The
--   application's callbacks leave the node alone, and read callbacks depend on their arguments alone.
-- - Sdo.Server: canopen/sdo/server.py; on_request takes a frame and appends the answers to `sent`.
-- - Sdo.Client: canopen/sdo/client.py; requests with retries, the readable and the writable stream. What
--   is beyond the client is a bus, a function from a frame to the frames that arrive in time.
--   Sdo.Client.Transfer joins the client to the server and takes whole transfers apart.
--   BlockDownload and BlockUpload are the block streams; BlockDownload.Receiver is a server of CiA 301,
--   and block_download what a user does: open, write everything, close.
-- - Nmt: canopen/nmt.py; commands and heartbeats of master and slave. What comes of sending a frame
--   (canopen/network.py, send_message) is a parameter, Sending.
-- - Lss: canopen/lss.py; the services of the LSS master on a bus, and the fast scan of one slave.
-- - P402: canopen/profiles/p402.py; the tables (P402.States), statusword, controlword and the state
--   setter. The SDO
--   client and the PDOs of the node are its interface Access.
-- - Emcy: canopen/emcy.py; Network: canopen/network.py, with callbacks as numbers that a function runs,
--   on the network itself, and the lists of callbacks as objects in a store.
-- - Sdo.Base: canopen/sdo/base.py and the raw value of canopen/variable.py, over the two transfers of
--   a node; Sdo.Bits: the view of its bits.
-- - Pdo: canopen/pdo/base.py, the layout and the transmission of a map. Pdo.Values has the values in the
--   message, Pdo.Exchange takes one from a producer to a consumer, Pdo.Config and Pdo.Saving the
--   configuration over SDO,
--   Pdo.Maps the maps of a node.
-- - Sync: canopen/sync.py, and the payload of canopen/timestamp.py for whole seconds.
-- - Tests: concrete objects and runs.
--
-- Numbers are natural; the fields of frames are packed with their bounds. Loops that end by the data
-- are recursion on it; the others have fuel: the transfers need more than the length of the content,
-- as each round moves a byte or ends; the walk of the DS402 setter needs eight rounds, as no path has
-- more than six transitions. Without enough fuel the result is the exception `diverged`, which no
-- code handles.
--
-- Not modelled: the setup of DS402 nodes, finalizers of streams that failed to open, LSS
-- identification, the EDS files but for the limits of a variable, the EPF files, look-up by name, remote
-- nodes, coroutines and locks, and waits on a condition: they are glue, need code that is not of the
-- repository, or are time. Logging has no effect but the look-ups in its arguments, which are
-- modelled. What floats and UTF-16 become is a parameter, `Codec`.
pub mod Common
pub mod Od
pub mod Nmt
pub mod Node
pub mod Sdo
pub mod Lss
pub mod P402
pub mod Emcy
pub mod Network
pub mod Pdo
pub mod Sync
pub mod Tests
