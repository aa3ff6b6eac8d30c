-- ===== src/Sdo/Client/BlockDownload/Whole.antt =====
-- A whole block download (canopen/sdo/client.py).
use canopen_asyncio.Sdo.Client.BlockDownload.Receiver.{
  names_object, ends, opens, size_told, Receiver, Phase, receiver_bus, receive_frame, opening,
}
use canopen_asyncio.Sdo.Client.BlockDownload.Delivery.{
  on, halfway, sending, complete, send_request-receiver,
}
use canopen_asyncio.Sdo.Client.BlockDownload.Content.{append_assoc, Delivers, block_drain-Delivers}
use canopen_asyncio.Sdo.Client.BlockDownload.{
  block_download, open_block_download, close_block_download, block_announcement, abort_unless,
  byte_at_4, on_client,
}
use canopen_asyncio.Sdo.Client.{request_response, response_loop, read_response}
use canopen_asyncio.Sdo.Client.Readable.{first_byte}
use canopen_asyncio.Sdo.Client.Writable.{with_close}
use canopen_asyncio.Sdo.Frames.{pack_header, pack_u32, unpack_header}
use canopen_asyncio.Common.Bytes.{Bytes, le_bytes, from_le, from_le-le_bytes}
use canopen_asyncio.Common.Monad.{ok}
use canopen_asyncio.Common.{
  none, ℕ, suc, ◌+◌, ◌-◌, ◌*◌, ◌/◌, ◌%◌, ◌^◌, ◌<◌, ◌≤◌, ◌≡◌, refl, ap, ◌∙◌, sym, arith, Bool, true,
  false, some, List, [], ◌∷◌, ◌++◌, length, take, replicate, bit_or, all_below, all_below_sound,
  ==_iff, ◌==◌, length-append, length-replicate,
}

-- A request that is answered with one frame, which is no abort.
request_response-answered :
    (command : ℕ) (content : Bytes) (r r' : Receiver) (stale : List Bytes) (first : ℕ)
    (more : Bytes)
    → receive_frame r.phase command content r ≡ ((first ∷ more) ∷ [], r')
    → (first == 0x80) ≡ false
    → request_response receiver_bus (command ∷ content) (record { env = r; responses = stale })
      ≡ (ok (first ∷ more), on r')
unfolding request_response response_loop read_response
request_response-answered command content r r' stale first more e no_abort =
    ground (arith, send_request-receiver command content r, e, no_abort)

-- The command byte that says how many bytes of the last segment are not used.
ending_command : (n : ℕ) → n < 8 → bit_or 0xC1 (n * 4) ≡ 0xC1 + n * 4
unfolding all_below
ending_command n h =
    (==_iff _ _).0 (all_below_sound 8 (λ n. bit_or 0xC1 (n * 4) == 0xC1 + n * 4) n refl h)

take-append : (xs ys : Bytes) → take (length xs) (xs ++ ys) ≡ xs
take-append [] ys = refl
take-append (x ∷ xs) ys = ap (λ l. x ∷ l) (take-append xs ys)

crc_bytes : (crc : ℕ) → take 2 (le_bytes 2 crc ++ replicate 5 0) ≡ le_bytes 2 crc
unfolding le_bytes
crc_bytes crc = refl

-- The receiver before a download.
unfoldable pub idle : ℕ → ℕ → ℕ → Receiver
idle index subindex bs = record {
  index = index;
  subindex = subindex;
  blksize = bs;
  announced = none;
  phase = Phase.waiting;
  seqno = 0;
  received = [];
  checksum = 0;
}

module _ (crc_hqx : Bytes → ℕ → ℕ) (index subindex bs size : ℕ) where
  -- The receiver opens for a request with its index, its subindex and a size.
  opening_answered :
      (command : ℕ)
      → opens command ≡ true
      → command / 2 % 2 ≡ 1
      → size < 2 ^ 32
      → let r = idle index subindex bs in
        receive_frame Phase.waiting command
          ((index % 256) ∷ (index / 256) ∷ subindex ∷ le_bytes 4 size)
          r
        ≡ (opening r ∷ [], halfway crc_hqx index subindex bs size 0 [])
  unfolding receive_frame names_object size_told idle halfway le_bytes
  opening_answered command specifier sized hn =
      let named : index % 256 + 256 * (index / 256) ≡ index = omega arith in
      ground (arith, specifier, sized, named, from_le-le_bytes 4 size hn)

  -- It ends for a request with `n` bytes of the last segment unused.
  ending_answered :
      (n : ℕ) (content : Bytes) (r : Receiver)
      → n < 8
      → receive_frame Phase.ending (0xC1 + n * 4) content r ≡ (
        (0xA1 ∷ replicate 7 0) ∷ [],
        record r {
          phase = Phase.ended;
          received = take (length r.received - (0xC1 + n * 4) / 4 % 8) r.received;
          checksum = from_le (take 2 content);
        },
      )
  unfolding receive_frame ends
  ending_answered n content r h =
      let specifier : (0xC1 + n * 4) / 32 ≡ 6 = omega (arith, h) in
      let odd : (0xC1 + n * 4) % 2 ≡ 1 = omega arith in ground (arith, specifier, odd)

  opened :
      (request_crc : Bool) (stale : List Bytes)
      → index < 65536
      → subindex < 256
      → size < 2 ^ 32
      → open_block_download receiver_bus crc_hqx index subindex
          (some size)
          request_crc
          (record { env = idle index subindex bs; responses = stale })
        ≡ (
          ok (sending crc_hqx index subindex bs size 0 [] 0 0 []),
          on (halfway crc_hqx index subindex bs size 0 []),
        )
  unfolding open_block_download block_announcement idle opening sending halfway unpack_header opens
      byte_at_4 abort_unless pack_u32 pack_header receive_frame
  opened true stale hi hs hn = ground (
    arith,
    request_response-answered 0xC6 ((index % 256) ∷ (index / 256) ∷ subindex ∷ le_bytes 4 size)
        (idle index subindex bs) (halfway crc_hqx index subindex bs size 0 []) stale 0xA4
        ((index % 256) ∷ (index / 256) ∷ subindex ∷ bs ∷ replicate 3 0)
        (opening_answered 0xC6 refl refl hn) refl,
  )
  opened false stale hi hs hn = ground (
    arith,
    request_response-answered 0xC2 ((index % 256) ∷ (index / 256) ∷ subindex ∷ le_bytes 4 size)
        (idle index subindex bs) (halfway crc_hqx index subindex bs size 0 []) stale 0xA4
        ((index % 256) ∷ (index / 256) ∷ subindex ∷ bs ∷ replicate 3 0)
        (opening_answered 0xC2 refl refl hn) refl,
  )

  closed :
      (before b : Bytes) (pos crc : ℕ)
      → length b ≤ 7
      → crc < 65536
      → (r : Receiver) × (close_block_download receiver_bus crc_hqx
            (complete crc_hqx index subindex bs size before b pos crc)
          ≡ (
            ok tt,
            record (complete crc_hqx index subindex bs size before b pos crc) { sdo_client = on r },
          ))
        × (r.received ≡ before ++ b)
        × (r.announced ≡ some size)
        × (r.checksum ≡ crc)
        × (r.phase ≡ Phase.ended)
  unfolding close_block_download complete halfway receive_frame on_client first_byte
  closed before b pos crc hb hc =
      let n = 7 - length b in
      let padded = before ++ (b ++ replicate n 0) in
      let last : Receiver = record (halfway crc_hqx index subindex bs size 0 padded) {
        phase = Phase.ending;
      } in
      let command = 0xC1 + n * 4 in
      let content = le_bytes 2 crc ++ replicate 5 0 in
      let r : Receiver = record last {
        phase = Phase.ended;
        received = take (length padded - command / 4 % 8) padded;
        checksum = from_le (take 2 content);
      } in
      let count : length padded - command / 4 % 8 ≡ length (before ++ b) = omega (
        arith,
        hb,
        length-append before (b ++ replicate n 0),
        length-append b (replicate n 0),
        length-replicate {A = ℕ} n 0,
        length-append before b,
      ) in
      (
        r,
        ground (
          arith,
          ending_command n (omega arith),
          request_response-answered command content last r [] 0xA1 (replicate 7 0)
              (ending_answered n content last (omega arith)) refl,
        ),
        ap (λ k. take k padded) count
            ∙ ap (λ l. take (length (before ++ b)) l) (sym (append_assoc before b (replicate n 0)))
            ∙ take-append (before ++ b) (replicate n 0),
        refl,
        ap from_le (crc_bytes crc) ∙ from_le-le_bytes 2 crc (omega (arith, hc)),
        refl,
      )

-- `crc_hqx` goes on from the value that it is given, and its values have 16 bits. Against a server of
-- CiA 301 that opens for this object only, with a block size from 1 to 127, a block download of at least one
-- byte and less than 2 ^ 32 bytes succeeds, for any fuel not below the length of the content; the server
-- then has exactly the content, in order, the length that it was told is that of the content, and its
-- checksum is the CRC of the content.
pub block_download-receiver :
    (crc_hqx : Bytes → ℕ → ℕ)
    (crc-append : (xs ys : Bytes) (v : ℕ) → crc_hqx (xs ++ ys) v ≡ crc_hqx ys (crc_hqx xs v))
    (crc-lt : (xs : Bytes) (v : ℕ) → crc_hqx xs v < 65536) (fuel retries index subindex bs : ℕ)
    (content : Bytes) (request_crc : Bool) (stale : List Bytes)
    → index < 65536
    → subindex < 256
    → 0 < bs
    → bs < 128
    → 0 < length content
    → length content < 2 ^ 32
    → length content ≤ fuel
    → (r : Receiver) × (block_download receiver_bus crc_hqx fuel
          (suc retries)
          index
          subindex
          content
          request_crc
          (record { env = idle index subindex bs; responses = stale })
        ≡ (ok tt, on r))
      × (r.received ≡ content)
      × (r.announced ≡ some (length content))
      × (r.checksum ≡ crc_hqx content 0)
      × (r.phase ≡ Phase.ended)
unfolding block_download with_close Delivers sending
block_download-receiver crc_hqx crc-append crc-lt fuel retries index subindex bs content request_crc
      stale hi hs hb few some_content short enough =
    let size = length content in
    let (before, b, drained, parts, last) =
      block_drain-Delivers crc_hqx crc-append index subindex bs size hb few fuel retries 0 0 0 [] []
        content hb some_content enough (omega arith) in
    let (r, finished, received, announced, checksum, phase) =
      closed crc_hqx index subindex bs size before b size (crc_hqx content 0) last
        (crc-lt content 0) in
    (
      r,
      ground (
        arith,
        opened crc_hqx index subindex bs size request_crc stale hi hs short,
        drained,
        finished,
      ),
      received ∙ parts,
      announced,
      checksum,
      phase,
    )
