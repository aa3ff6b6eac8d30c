-- ===== src/Sdo/Server.antt =====
-- `SdoServer` (canopen/sdo/server.py). `sent` holds the frames that `send_response` handed to the
-- network, in order. Logging is left out.
use canopen_asyncio.Common.{
  ℕ, ◌-◌, ◌*◌, ◌/◌, true, Option, none, some, List, [], ◌∷◌, ◌++◌, leb, ◌==◌, if◌then◌else◌,
  bit_and, bit_or, bit_xor, length, take, drop, replicate,
}
use canopen_asyncio.Common.Bytes.{Bytes}
use canopen_asyncio.Common.Monad.{
  Action, Exn, ok, err, raise, gets, modify, lift, catch, ◌>>=◌, ◌>>◌, sdo_aborted, key_error,
  type_error, struct_error,
}
use canopen_asyncio.Node.Local.{LocalNode, get_data, set_data}
use canopen_asyncio.Sdo.Constants
use canopen_asyncio.Sdo.Frames.{unpack_header, pack_header, pack_u32, unpack_u32_at_4}

pub record SdoServer : Type 0 where
  pub node : LocalNode
  pub buffer : Option Bytes
  pub toggle : ℕ
  pub index : Option ℕ
  pub subindex : Option ℕ
  pub last_received_error : ℕ
  pub sent : List Bytes

unfoldable pub send_response : Bytes → Action SdoServer (Unit {0})
send_response response s = (ok tt, record s { sent = s.sent ++ (response ∷ []) })

-- `self._index` and `self._subindex` are None before the first request, and do not pack.
unfoldable pub abort : ℕ → Action SdoServer (Unit {0})
abort code s = elim s.index [
  | none ↦ (err struct_error, s)
  | some index ↦ elim s.subindex [
    | none ↦ (err struct_error, s)
    | some subindex ↦
        (do
          header ← lift (pack_header Constants.response_aborted index subindex)
          field ← lift (pack_u32 code)
          send_response (header ++ field))
          s
  ]
]

unfoldable pub set_target : ℕ → ℕ → Action SdoServer (Unit {0})
set_target index subindex s = (ok tt, record s { index = some index; subindex = some subindex })

-- `init_upload` behind `get_data`. `res_command` is RESPONSE_UPLOAD | SIZE_SPECIFIED.
unfoldable pub upload_response : ℕ → ℕ → Bytes → Action SdoServer (Unit {0})
upload_response index subindex content s =
    let size = length content in
    let res_command = bit_or Constants.response_upload Constants.size_specified in
    if size == 0
    then abort Constants.abort_no_data_available s
    else if leb size 4
    then (do
      let command = bit_or (bit_or res_command Constants.expedited) ((4 - size) * 4)
      header ← lift (pack_header command index subindex)
      send_response (header ++ (content ++ replicate (4 - size) 0)))
        s
    else (do
      field ← lift (pack_u32 size)
      modify (λ s. record s { buffer = some content; toggle = 0 })
      header ← lift (pack_header res_command index subindex)
      send_response (header ++ field))
        s

unfoldable pub node_get_data : ℕ → ℕ → Action SdoServer Bytes
node_get_data index subindex s = (get_data s.node index subindex true, s)

unfoldable pub node_set_data : ℕ → ℕ → Bytes → Action SdoServer (Unit {0})
node_set_data index subindex content s =
    let (r, n) = set_data index subindex content true s.node in (r, record s { node = n })

unfoldable pub init_upload : Bytes → Action SdoServer (Unit {0})
init_upload request = do
  (command, index, subindex) ← lift (unpack_header request)
  set_target index subindex
  content ← node_get_data index subindex
  upload_response index subindex content

-- `self._buffer`, where None fails with TypeError.
unfoldable pub the_buffer : Action SdoServer Bytes
the_buffer s = elim s.buffer [ some b ↦ (ok b, s) | none ↦ (err type_error, s) ]

unfoldable pub check_toggle : ℕ → Action SdoServer (Unit {0})
check_toggle command s =
    if bit_and command Constants.toggle_bit == s.toggle
    then (ok tt, s)
    else (err (sdo_aborted Constants.abort_toggle_not_alternated), s)

-- The command byte of a segment: toggle, unused bytes, and whether the buffer is empty now.
unfoldable pub segment_command : ℕ → ℕ → Bytes → ℕ
segment_command toggle size left =
    let res_command = bit_or (bit_or Constants.response_segment_upload toggle) ((7 - size) * 2) in
    elim left [ [] ↦ bit_or res_command Constants.no_more_data | _ ∷ _ ↦ res_command ]

unfoldable pub segmented_upload : ℕ → Action SdoServer (Unit {0})
segmented_upload command = do
  check_toggle command
  buffer ← the_buffer
  toggle ← gets (λ s. s.toggle)
  let content = take 7 buffer
  let size = length content
  modify (λ s. record s {
    buffer = some (drop 7 buffer);
    toggle = bit_xor toggle Constants.toggle_bit;
  })
  send_response (segment_command toggle size (drop 7 buffer) ∷ (content ++ replicate (7 - size) 0))

unfoldable pub block_upload : Bytes → Action SdoServer (Unit {0})
block_upload request = init_upload request

-- `struct.unpack_from("<BHBL", data)`
unfoldable pub request_aborted : Bytes → Action SdoServer (Unit {0})
request_aborted request = do
  code ← lift (unpack_u32_at_4 request)
  modify (λ s. record s { last_received_error = code })

unfoldable pub block_download : Bytes → Action SdoServer (Unit {0})
block_download request = do
  (command, index, subindex) ← lift (unpack_header request)
  set_target index subindex
  abort Constants.abort_invalid_command_specifier

-- `request[4:4 + size]` of an expedited download.
unfoldable pub expedited_data : ℕ → Bytes → Bytes
expedited_data command request =
    let size =
      if bit_and command Constants.size_specified == 0 then 4 else 4 - bit_and (command / 4) 0x3 in
    take size (drop 4 request)

-- A segmented download whose size is given reads the size, for the log.
unfoldable pub read_size : ℕ → Bytes → Action SdoServer (Unit {0})
read_size command request s =
    if bit_and command Constants.size_specified == 0
    then (ok tt, s)
    else elim (unpack_u32_at_4 request) [ ok n ↦ (ok tt, s) | err e ↦ (err e, s) ]

unfoldable pub begin_download : ℕ → ℕ → ℕ → Bytes → Action SdoServer (Unit {0})
begin_download command index subindex request s =
    if bit_and command Constants.expedited == 0
    then (do read_size command request; modify (λ s. record s { buffer = some []; toggle = 0 })) s
    else node_set_data index subindex (expedited_data command request) s

unfoldable pub init_download : Bytes → Action SdoServer (Unit {0})
init_download request = do
  (command, index, subindex) ← lift (unpack_header request)
  set_target index subindex
  begin_download command index subindex request
  header ← lift (pack_header Constants.response_download index subindex)
  send_response (header ++ replicate 4 0)

-- `self._node.set_data(self._index, self._subindex, self._buffer)`. With an index of None no object
-- is found.
unfoldable pub finish_download : Bytes → Action SdoServer (Unit {0})
finish_download content s = elim s.index [
  | none ↦ (err (sdo_aborted 0x06020000), s)
  | some index ↦ elim s.subindex [
    | none ↦ (err (sdo_aborted 0x06020000), s)
    | some subindex ↦ node_set_data index subindex content s
  ]
]

-- `request[1:last_byte]`
unfoldable pub segment_data : ℕ → Bytes → Bytes
segment_data command request = take (8 - bit_and (command / 2) 0x7 - 1) (drop 1 request)

unfoldable pub finish_if_last : ℕ → Bytes → Action SdoServer (Unit {0})
finish_if_last command content s =
    if bit_and command Constants.no_more_data == 0 then (ok tt, s) else finish_download content s

unfoldable pub store_segment : ℕ → Bytes → Action SdoServer (Unit {0})
store_segment command content = do
  modify (λ s. record s { buffer = some content })
  finish_if_last command content

unfoldable pub segmented_download : ℕ → Bytes → Action SdoServer (Unit {0})
segmented_download command request = do
  check_toggle command
  buffer ← the_buffer
  store_segment command (buffer ++ segment_data command request)
  toggle ← gets (λ s. s.toggle)
  modify (λ s. record s { toggle = bit_xor toggle Constants.toggle_bit })
  send_response (bit_or Constants.response_segment_download toggle ∷ replicate 7 0)

-- The ladder on the command specifier.
unfoldable pub dispatch : ℕ → Bytes → Action SdoServer (Unit {0})
dispatch command request =
    let ccs = bit_and command 0xE0 in
    if ccs == Constants.request_upload
    then init_upload request
    else if ccs == Constants.request_segment_upload
    then segmented_upload command
    else if ccs == Constants.request_download
    then init_download request
    else if ccs == Constants.request_segment_download
    then segmented_download command request
    else if ccs == Constants.request_block_upload
    then block_upload request
    else if ccs == Constants.request_block_download
    then block_download request
    else if ccs == Constants.request_aborted
    then request_aborted request
    else abort Constants.abort_invalid_command_specifier

-- The abort code that `on_request` sends for an exception of a handler.
unfoldable pub abort_code : Exn → ℕ
abort_code (sdo_aborted code) = code
abort_code key_error = Constants.abort_not_in_od
abort_code _ = Constants.abort_general_error

-- `on_request`: an exception inside `try` is answered by an abort; one in the answer, or in reading
-- the command byte, goes to the caller.
unfoldable pub on_request : Bytes → Action SdoServer (Unit {0})
on_request [] = raise struct_error
on_request (command ∷ rest) = catch (dispatch command (command ∷ rest)) (λ e. abort (abort_code e))
