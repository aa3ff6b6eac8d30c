-- ===== src/Sdo/Client/Writable.antt =====
-- `WritableStream`, and `SdoClient.download` (canopen/sdo/client.py). The stream is written through
-- an `io.BufferedWriter` of seven bytes: it hands all that is left to the stream while more than
-- seven bytes are left, keeps the rest, and hands that over when it is closed.
use canopen_asyncio.Common.{
  ℕ, zero, suc, ◌+◌, ◌-◌, ◌*◌, Bool, true, false, ◌||◌, Option, none, some, [], ◌∷◌, ◌++◌, ◌==◌,
  ltb, leb, if◌then◌else◌, bit_and, bit_or, bit_xor, length, take, drop, replicate, min,
}
use canopen_asyncio.Common.Bytes.{Bytes}
use canopen_asyncio.Common.Monad.{
  Action, Result, ok, err, raise, pure, gets, modify, lift, ◌>>=◌, ◌>>◌, sdo_communication,
  runtime_error, type_error, assertion_error, diverged,
}
use canopen_asyncio.Sdo.Constants
use canopen_asyncio.Sdo.Frames.{pack_header, pack_u32}
use canopen_asyncio.Sdo.Client.{Bus, SdoClient, request_response, client_abort}
use canopen_asyncio.Sdo.Client.Readable.{first_byte}

pub record WritableStream (E : Type 0) : Type 0 where
  pub sdo_client : SdoClient E
  pub size : Option ℕ
  pub pos : ℕ
  pub toggle : ℕ
  pub exp_header : Option Bytes
  pub done : Bool

-- `size is None or size < 1 or size > 4 or force_segment`
unfoldable pub is_segmented : Option ℕ → Bool → Bool
is_segmented none force = true
is_segmented (some n) force = ltb n 1 || (ltb 4 n || force)

-- `self.size is not None and self.pos + bytes_sent >= self.size`
unfoldable pub is_last : Option ℕ → ℕ → Bool
is_last none reached = false
is_last (some n) reached = leb n reached

-- The command byte of a segment of `bytes_sent` bytes.
unfoldable pub download_command : ℕ → ℕ → Bool → ℕ
download_command toggle bytes_sent last =
    let command = bit_or Constants.request_segment_download toggle in
    bit_or (if last then bit_or command Constants.no_more_data else command) ((7 - bytes_sent) * 2)

-- A `with` block: what closing raises replaces what the block raised.
unfoldable pub with_close : {S A : Type 0} → Action S A → Action S (Unit {0}) → Action S A
with_close m close s =
    let (r, s') = m s in
    let (q, s'') = close s' in elim q [ err e ↦ (err e, s'') | ok _ ↦ (r, s'') ]

module _ {E : Type 0} (bus : Bus E) where
  -- The command and size field that announce a segmented download.
  unfoldable pub announce : Option ℕ → Result (ℕ × Bytes)
  announce none = ok (Constants.request_download, replicate 4 0)
  announce (some n) = elim (pack_u32 n) [
    | ok field ↦ ok (bit_or Constants.request_download Constants.size_specified, field)
    | err e ↦ err e
  ]

  abbrev new_stream : Option ℕ → Option Bytes → SdoClient E → WritableStream E
  new_stream size header c = record {
    sdo_client = c;
    size = size;
    pos = 0;
    toggle = 0;
    exp_header = header;
    done = false;
  }

  -- A response that is not the expected one: abort and raise.
  unfoldable pub expect : Bool → Action (SdoClient E) (Unit {0})
  expect true = pure tt
  expect false = do
    client_abort bus Constants.abort_invalid_command_specifier
    raise sdo_communication

  unfoldable pub open_segmented : ℕ → ℕ → Option ℕ → Action (SdoClient E) (WritableStream E)
  open_segmented index subindex size = do
    (command, field) ← lift (announce size)
    header ← lift (pack_header command index subindex)
    response ← request_response bus (header ++ field)
    res_command ← lift (first_byte response)
    expect (res_command == Constants.response_download)
    gets (new_stream size none)

  -- The header of an expedited download of `n` bytes.
  unfoldable pub open_expedited : ℕ → ℕ → ℕ → Action (SdoClient E) (WritableStream E)
  open_expedited index subindex n = do
    let command =
        bit_or
          (bit_or (bit_or Constants.request_download Constants.expedited) Constants.size_specified)
          ((4 - n) * 4)
    header ← lift (pack_header command index subindex)
    gets (new_stream (some n) (some header))

  -- `WritableStream.__init__`
  unfoldable pub open_writable : ℕ → ℕ → Option ℕ → Bool → Action (SdoClient E) (WritableStream E)
  open_writable index subindex size force c =
      if is_segmented size force then open_segmented index subindex size c else elim size [
        | none ↦ open_segmented index subindex none c
        | some n ↦ open_expedited index subindex n c
      ]

  abbrev on_writer : {A : Type 0} → Action (SdoClient E) A → Action (WritableStream E) A
  on_writer act s = let (r, c) = act s.sdo_client in (r, record s { sdo_client = c })

  unfoldable pub check_response : ℕ → Bytes → Action (WritableStream E) (Unit {0})
  check_response expected response = do
    res_command ← lift (first_byte response)
    on_writer (expect (bit_and res_command 0xE0 == expected))

  -- The expedited branch of `write`; the header is that of a download of `n` bytes.
  unfoldable pub write_expedited : Bytes → ℕ → Bytes → Action (WritableStream E) ℕ
  write_expedited header n b s =
      if ltb (length b) n
      then (ok 0, s)
      else if ltb 4 (length b)
      then (err assertion_error, s)
      else (do
        response ← on_writer (request_response bus (header ++ (b ++ replicate (4 - length b) 0)))
        check_response Constants.response_download response
        modify (λ s. record s { done = true; pos = s.pos + length b })
        pure (length b))
          s

  -- The segmented branch of `write`.
  unfoldable pub write_segment : Bytes → Action (WritableStream E) ℕ
  write_segment b s =
      let bytes_sent = min (length b) 7 in
      let last = is_last s.size (s.pos + bytes_sent) in
      (do
        modify (λ s. record s {
          toggle = bit_xor s.toggle Constants.toggle_bit;
          done = if last then true else s.done;
        })
        response ← on_writer (
            request_response bus (
              download_command s.toggle bytes_sent last
              ∷ (take bytes_sent b ++ replicate (7 - bytes_sent) 0)))
        check_response Constants.response_segment_download response
        modify (λ s. record s { pos = s.pos + bytes_sent })
        pure bytes_sent)
        s

  unfoldable pub write : Bytes → Action (WritableStream E) ℕ
  write b s = if s.done then (err runtime_error, s) else elim s.exp_header [
    | some header ↦ elim s.size [
      | some n ↦ write_expedited header n b s
      | none ↦ (err type_error, s)
    ]
    | none ↦ write_segment b s
  ]

  -- `WritableStream.close`: an unfinished segmented download is ended by an empty segment.
  unfoldable pub close : Action (WritableStream E) (Unit {0})
  close s = if s.done then (ok tt, s) else elim s.exp_header [
    | some header ↦ (ok tt, s)
    | none ↦
        (do
          let command = bit_or (bit_or 0x01 s.toggle) (7 * 2)
          on_writer (request_response bus (command ∷ replicate 7 0))
          modify (λ s. record s { done = true }))
          s
  ]

  -- `BufferedWriter`: hand all over while more than `keep` bytes are left; the rest is the result.
  unfoldable pub drain : ℕ → ℕ → Bytes → Action (WritableStream E) Bytes
  drain zero keep b s = if leb (length b) keep then (ok b, s) else (err diverged, s)
  drain (suc fuel) keep b s =
      let (r, s') = write b s in
      let rest : Result Bytes × WritableStream E = elim r [
        | ok n ↦ drain fuel keep (drop n b) s'
        | err e ↦ (err e, s')
      ] in
      if leb (length b) keep then (ok b, s) else rest

  -- `BufferedWriter.close`: flush what was kept, and close the stream in any case.
  unfoldable pub close_buffered : ℕ → Bytes → Action (WritableStream E) (Unit {0})
  close_buffered fuel kept = with_close (do drain fuel 0 kept; pure tt) close

  -- `fp.write(data)` inside `with`: a write that fails keeps nothing.
  unfoldable pub write_all : ℕ → Bytes → Action (WritableStream E) (Unit {0})
  write_all fuel content s =
      let (r, s') = drain fuel 7 content s in
      elim r [
        | ok kept ↦ close_buffered fuel kept s'
        | err e ↦ with_close (raise e) (close_buffered fuel []) s'
      ]

  -- `SdoClient.download`. The fuel bounds the segments that are written.
  unfoldable pub download : ℕ → ℕ → ℕ → Bytes → Bool → Action (SdoClient E) (Unit {0})
  download fuel index subindex content force c =
      let (opened, c') = open_writable index subindex (some (length content)) force c in
      elim opened [
        | err e ↦ (err e, c')
        | ok fp ↦ let (r, fp') = write_all fuel content fp in (r, fp'.sdo_client)
      ]
