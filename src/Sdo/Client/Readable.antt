-- ===== src/Sdo/Client/Readable.antt =====
-- `ReadableStream`, and `SdoClient.upload` (canopen/sdo/client.py). Reading all of a stream is the
-- loop of `io.RawIOBase.readall`: read until nothing comes.
use canopen_asyncio.Common.{
  ℕ, zero, suc, ◌+◌, ◌-◌, ◌/◌, Bool, true, false, ◌&&◌, not, Option, none, some, [], ◌∷◌, ◌++◌,
  ◌==◌, ltb, if◌then◌else◌, bit_and, bit_or, bit_xor, length, take, drop, replicate,
}
use canopen_asyncio.Common.Bytes.{Bytes}
use canopen_asyncio.Common.Monad.{
  Action, Result, ok, err, raise, gets, lift, ◌>>=◌, ◌>>◌, require, sdo_communication, struct_error,
  diverged,
}
use canopen_asyncio.Sdo.Constants
use canopen_asyncio.Sdo.Frames.{pack_header, unpack_header, unpack_u32_at_4}
use canopen_asyncio.Sdo.Client.{Bus, SdoClient, request_response, client_abort}

pub record ReadableStream (E : Type 0) : Type 0 where
  pub sdo_client : SdoClient E
  pub done : Bool
  pub toggle : ℕ
  pub pos : ℕ
  pub size : Option ℕ
  pub exp_data : Option Bytes

-- The first byte of a frame.
unfoldable pub first_byte : Bytes → Result ℕ
first_byte [] = err struct_error
first_byte (b ∷ bs) = ok b

-- The size and the data that the response to an initiated upload carries.
unfoldable pub upload_size : ℕ → Bytes → Result (Option ℕ × Option Bytes)
upload_size res_command response =
    let res_data = take 4 (drop 4 response) in
    let size = 4 - bit_and (res_command / 4) 0x3 in
    if not (bit_and res_command Constants.expedited == 0)
    then if not (bit_and res_command Constants.size_specified == 0)
      then ok (some size, some (take size res_data))
      else ok (none, some res_data)
    else if not (bit_and res_command Constants.size_specified == 0)
    then elim (unpack_u32_at_4 response) [ ok n ↦ ok (some n, none) | err e ↦ err e ]
    else ok (none, none)

abbrev data_length : Option Bytes → ℕ
data_length none = 0
data_length (some bs) = length bs

module _ {E : Type 0} (bus : Bus E) where
  -- `ReadableStream.__init__`
  unfoldable pub open_readable : ℕ → ℕ → Action (SdoClient E) (ReadableStream E)
  open_readable index subindex = do
    header ← lift (pack_header Constants.request_upload index subindex)
    response ← request_response bus (header ++ replicate 4 0)
    (res_command, res_index, res_subindex) ← lift (unpack_header response)
    require (bit_and res_command 0xE0 == Constants.response_upload) sdo_communication
    require (res_index == index && res_subindex == subindex) sdo_communication
    (size, exp_data) ← lift (upload_size res_command response)
    gets (λ c. record {
      sdo_client = c;
      done = false;
      toggle = 0;
      pos = data_length exp_data;
      size = size;
      exp_data = exp_data;
    })

  -- An action of the client on the stream that holds it.
  abbrev on_reader : {A : Type 0} → Action (SdoClient E) A → Action (ReadableStream E) A
  on_reader act s = let (r, c) = act s.sdo_client in (r, record s { sdo_client = c })

  -- `sdo_client.abort(code)` and `raise SdoCommunicationError`
  unfoldable pub reader_fails : ℕ → Action (ReadableStream E) (Unit {0})
  reader_fails code = do on_reader (client_abort bus code); raise sdo_communication

  -- The checks of a segment's command byte.
  unfoldable pub check_segment : ℕ → Action (ReadableStream E) (Unit {0})
  check_segment res_command s =
      if bit_and res_command 0xE0 == Constants.response_segment_upload
      then if bit_and res_command Constants.toggle_bit == s.toggle
        then (ok tt, s)
        else reader_fails Constants.abort_toggle_not_alternated s
      else reader_fails Constants.abort_invalid_command_specifier s

  -- What `read` does on a response that passed.
  unfoldable pub take_segment : ℕ → Bytes → Action (ReadableStream E) Bytes
  take_segment res_command response s =
      let length' = 7 - bit_and (res_command / 2) 0x7 in
      (
        ok (take length' (drop 1 response)),
        record s {
          done = if bit_and res_command Constants.no_more_data == 0 then s.done else true;
          toggle = bit_xor s.toggle Constants.toggle_bit;
          pos = s.pos + length';
        },
      )

  unfoldable pub read_segment : Action (ReadableStream E) Bytes
  read_segment = do
    toggle ← gets (λ s. s.toggle)
    response ←
        on_reader
          (request_response bus (bit_or Constants.request_segment_upload toggle ∷ replicate 7 0))
    res_command ← lift (first_byte response)
    check_segment res_command
    take_segment res_command response

  -- `read(size)` for a size that is not negative.
  unfoldable pub read : Action (ReadableStream E) Bytes
  read s =
      if s.done
      then (ok [], s)
      else elim s.exp_data [ some bs ↦ (ok bs, record s { done = true }) | none ↦ read_segment s ]

  unfoldable pub readall : ℕ → Bytes → Action (ReadableStream E) Bytes
  readall zero acc s = (err diverged, s)
  readall (suc fuel) acc s =
      let (r, s') = read s in
      elim r [
        | err e ↦ (err e, s')
        | ok [] ↦ (ok acc, s')
        | ok (b ∷ bs) ↦ readall fuel (acc ++ (b ∷ bs)) s'
      ]

  -- `read(-1)`
  unfoldable pub read_to_end : ℕ → Action (ReadableStream E) Bytes
  read_to_end fuel s = if s.done then (ok [], s) else elim s.exp_data [
    | some bs ↦ (ok bs, record s { done = true })
    | none ↦ readall fuel [] s
  ]

  -- `if response_size and response_size < len(data): data = data[:response_size]`
  unfoldable pub truncate : Option ℕ → Bytes → Bytes
  truncate none bs = bs
  truncate (some n) bs = if n == 0 then bs else if ltb n (length bs) then take n bs else bs

  -- `SdoClient.upload`. The fuel bounds the segments that are read.
  unfoldable pub upload : ℕ → ℕ → ℕ → Action (SdoClient E) Bytes
  upload fuel index subindex c =
      let (opened, c') = open_readable index subindex c in
      elim opened [
        | err e ↦ (err e, c')
        | ok fp ↦
            let (r, fp') = read_to_end fuel fp in
            elim r [
              | err e ↦ (err e, fp'.sdo_client)
              | ok bs ↦ (ok (truncate fp.size bs), fp'.sdo_client)
            ]
      ]
