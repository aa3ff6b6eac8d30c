-- ===== src/Sdo/Client/Transfer/Segments.antt =====
-- The server's side of a segmented download, request by request.
use canopen_asyncio.Sdo.Frames.{unpack_u32_at_4, unpack_header, pack_u32, pack_header}
use canopen_asyncio.Common.{
  ap, ◌*◌, ◌+◌, ==_refl, ℕ, ◌<◌, ◌-◌, ◌/◌, ◌%◌, bit_and, ◌==◌, ◌&&◌, all_below, all_below_sound,
  take-append_prefix, refl, ◌^◌, ℕ, Bool, true, false, not, some, List, [], ◌∷◌, ◌++◌, ◌≡◌, arith,
  bit_or, length, replicate, take-all,
}
use canopen_asyncio.Common.Bytes.{from_le, Bytes, le_bytes}
use canopen_asyncio.Common.Monad.{err, Exn, ok}
use canopen_asyncio.Node.Local.{set_data, LocalNode}
use canopen_asyncio.Sdo.Server.{
  init_download, begin_download, read_size, set_target, abort_code, finish_if_last, node_set_data,
  abort, finish_download, SdoServer, on_request, dispatch, segmented_download, check_toggle,
  the_buffer, store_segment, segment_data, send_response,
}
use canopen_asyncio.Sdo.Client.Writable.{download_command}

-- The toggle bit in its two phases.
abbrev pub toggle_of : Bool → ℕ
toggle_of false = 0
toggle_of true = 0x10

-- A server in a segmented download to the object at `index` and `subindex`, which has got `got`.
abbrev pub receiving : LocalNode → ℕ → ℕ → ℕ → Bytes → Bool → List Bytes → SdoServer
receiving node last_error index subindex got phase sent = record {
  node = node;
  buffer = some got;
  toggle = toggle_of phase;
  index = some index;
  subindex = some subindex;
  last_received_error = last_error;
  sent = sent;
}

-- The answer to a segment.
abbrev pub segment_answer : Bool → Bytes
segment_answer phase = bit_or 0x20 (toggle_of phase) ∷ replicate 7 0

module _ (node : LocalNode) (last_error index subindex : ℕ) where
  -- Seven bytes that are not the last are appended and answered with the toggle bit.
  pub segment_step :
      (got b : Bytes) (phase : Bool)
      → length b ≡ 7
      → on_request
          (download_command (toggle_of phase) 7 false ∷ b)
          (receiving node last_error index subindex got phase [])
        ≡ (
          ok tt,
          receiving node last_error index subindex
              (got ++ b)
              (not phase)
              (segment_answer phase ∷ []),
        )
  unfolding on_request dispatch segmented_download check_toggle the_buffer store_segment
      finish_if_last segment_data send_response download_command
  segment_step got b false n = rw (take-all 7 b (omega arith))
  segment_step got b true n = rw (take-all 7 b (omega arith))

-- What the server reads in a segment's command byte.
abbrev SegmentFields : ℕ → ℕ → Bool → ℕ → Type 0
SegmentFields command n phase last =
    (bit_and command 0xE0 ≡ 0)
    × (bit_and command 0x10 ≡ toggle_of phase)
    × (8 - bit_and (command / 2) 0x7 - 1 ≡ n)
    × (bit_and command 0x1 ≡ last)

abbrev segment_table : Bool → ℕ → Bool
segment_table phase n =
    let c = download_command (toggle_of phase) n true in
    bit_and c 0xE0 == 0
    && (bit_and c 0x10 == toggle_of phase
        && (8 - bit_and (c / 2) 0x7 - 1 == n && bit_and c 0x1 == 1))

segment_tables : (phase : Bool) → all_below 8 (segment_table phase) ≡ true
unfolding all_below download_command
segment_tables false = refl
segment_tables true = refl

last_fields :
    (phase : Bool) (n : ℕ)
    → n < 8
    → SegmentFields (download_command (toggle_of phase) n true) n phase 1
last_fields phase n h =
    ground (arith, all_below_sound 8 (segment_table phase) n (segment_tables phase))

pub dispatch-segment :
    (command : ℕ) (request : Bytes)
    → bit_and command 0xE0 ≡ 0
    → dispatch command request ≡ segmented_download command request
unfolding dispatch
dispatch-segment command request e = rw e

-- The frame of `abort`.
abbrev pub abort_frame : ℕ → ℕ → ℕ → Bytes
abort_frame index subindex code = 0x80 ∷ (index % 256) ∷ (index / 256) ∷ subindex ∷ le_bytes 4 code

pub abort_lem :
    (s : SdoServer) (index subindex code : ℕ)
    → s.index ≡ some index
    → s.subindex ≡ some subindex
    → index < 65536
    → subindex < 256
    → code < 2 ^ 32
    → abort code s ≡ (ok tt, record s { sent = s.sent ++ (abort_frame index subindex code ∷ []) })
unfolding abort send_response pack_header pack_u32
abort_lem s index subindex code ei es hi hs hc = ground arith

module _ (node node' : LocalNode) (last_error index subindex : ℕ) (got b : Bytes)
    (phase : Bool) where
  abbrev last_request : Bytes
  last_request =
      download_command (toggle_of phase) (length b) true ∷ (b ++ replicate (7 - length b) 0)

  last_data :
      length b < 8
      → segment_data (download_command (toggle_of phase) (length b) true) last_request ≡ b
  unfolding segment_data
  last_data h =
      let f = last_fields phase (length b) h in rw (f.2, take-append_prefix (length b) b _ refl)

  got_all : SdoServer
  got_all = receiving node last_error index subindex (got ++ b) phase []

  last_toggle :
      length b < 8
      → check_toggle
          (download_command (toggle_of phase) (length b) true)
          (receiving node last_error index subindex got phase [])
        ≡ (ok tt, receiving node last_error index subindex got phase [])
  unfolding check_toggle
  last_toggle h = rw ((last_fields phase (length b) h).1, ==_refl (toggle_of phase))

  last_finish :
      length b < 8
      → finish_if_last (download_command (toggle_of phase) (length b) true) (got ++ b) got_all
        ≡ node_set_data index subindex (got ++ b) got_all
  unfolding finish_if_last finish_download got_all
  last_finish h = rw ((last_fields phase (length b) h).3)

  -- The last segment hands all that was got to the node.
  segmented_download-last_ok :
      length b < 8
      → set_data index subindex (got ++ b) true node ≡ (ok tt, node')
      → segmented_download
          (download_command (toggle_of phase) (length b) true)
          last_request
          (receiving node last_error index subindex got phase [])
        ≡ (
          ok tt,
          receiving node' last_error index subindex
              (got ++ b)
              (not phase)
              (segment_answer phase ∷ []),
        )
  unfolding segmented_download the_buffer store_segment node_set_data send_response got_all
  segmented_download-last_ok h e = ground (arith, last_toggle h, last_finish h, last_data h)

  -- A node that refuses: the exception leaves the handler, and the toggle bit stays.
  segmented_download-last_err :
      (x : Exn)
      → length b < 8
      → set_data index subindex (got ++ b) true node ≡ (err x, node')
      → segmented_download
          (download_command (toggle_of phase) (length b) true)
          last_request
          (receiving node last_error index subindex got phase [])
        ≡ (err x, receiving node' last_error index subindex (got ++ b) phase [])
  unfolding segmented_download the_buffer store_segment node_set_data send_response got_all
  segmented_download-last_err x h e = ground (arith, last_toggle h, last_finish h, last_data h)

module _ (node node' : LocalNode) (last_error index subindex : ℕ) (got b : Bytes)
    (phase : Bool) where
  pub on_request-last_ok :
      length b < 8
      → set_data index subindex (got ++ b) true node ≡ (ok tt, node')
      → on_request
          (download_command (toggle_of phase) (length b) true ∷ (b ++ replicate (7 - length b) 0))
          (receiving node last_error index subindex got phase [])
        ≡ (
          ok tt,
          receiving node' last_error index subindex
              (got ++ b)
              (not phase)
              (segment_answer phase ∷ []),
        )
  unfolding on_request
  on_request-last_ok h e = ground (
    arith,
    last_fields phase (length b) h,
    dispatch-segment (download_command (toggle_of phase) (length b) true)
        (download_command (toggle_of phase) (length b) true ∷ (b ++ replicate (7 - length b) 0)),
    segmented_download-last_ok node node' last_error index subindex got b phase h e,
  )

  pub on_request-last_err :
      (x : Exn)
      → length b < 8
      → index < 65536
      → subindex < 256
      → abort_code x < 2 ^ 32
      → set_data index subindex (got ++ b) true node ≡ (err x, node')
      → on_request
          (download_command (toggle_of phase) (length b) true ∷ (b ++ replicate (7 - length b) 0))
          (receiving node last_error index subindex got phase [])
        ≡ (
          ok tt,
          receiving node' last_error index subindex
              (got ++ b)
              phase
              (abort_frame index subindex (abort_code x) ∷ []),
        )
  unfolding on_request
  on_request-last_err x h hi hs hc e = ground (
    arith,
    last_fields phase (length b) h,
    dispatch-segment (download_command (toggle_of phase) (length b) true)
        (download_command (toggle_of phase) (length b) true ∷ (b ++ replicate (7 - length b) 0)),
    segmented_download-last_err node node' last_error index subindex got b phase x h e,
    abort_lem (receiving node' last_error index subindex (got ++ b) phase []) index subindex
        (abort_code x) refl refl hi hs hc,
  )

-- The request that announces a segmented download of `total` bytes.
abbrev pub announcement : ℕ → ℕ → ℕ → Bytes
announcement index subindex total =
    0x21 ∷ (index % 256) ∷ (index / 256) ∷ subindex ∷ le_bytes 4 total

pub index_fields : (index : ℕ) → index % 256 + 256 * (index / 256) ≡ index
index_fields index = omega arith

-- An announced download starts with nothing got, and is answered by the object's address.
pub on_request-announcement :
    (s : SdoServer) (index subindex total : ℕ)
    → index < 65536
    → subindex < 256
    → on_request (announcement index subindex total) s ≡ (
      ok tt,
      receiving s.node s.last_received_error index subindex [] false
          (s.sent ++ ((0x60 ∷ (index % 256) ∷ (index / 256) ∷ subindex ∷ replicate 4 0) ∷ [])),
    )
unfolding on_request dispatch init_download begin_download unpack_header set_target read_size
    unpack_u32_at_4 pack_header send_response le_bytes
on_request-announcement s index subindex total hi hs = ground (arith, index_fields index)

-- The client reads the code of an abort.
pub unpack-abort_frame :
    (index subindex code : ℕ)
    → code < 2 ^ 32
    → unpack_u32_at_4 (abort_frame index subindex code) ≡ ok code
unfolding unpack_u32_at_4 le_bytes from_le
unpack-abort_frame index subindex code h = ap ok (omega arith)
