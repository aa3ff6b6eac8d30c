-- ===== src/Sdo/Client/Transfer/Upload.antt =====
-- A segmented upload from the server: each segment, and the loop that collects them.
use canopen_asyncio.Sdo.Client.Transfer.Segments.{receiving, toggle_of}
use canopen_asyncio.Sdo.Client.Transfer.Answer.{server_bus_lem, request_response-frame}
use canopen_asyncio.Sdo.Client.Transfer.Last.{flip}
use canopen_asyncio.Sdo.Client.Transfer.{server_bus}
use canopen_asyncio.Sdo.Client.Readable.{
  read, read_segment, take_segment, check_segment, first_byte, ReadableStream,
}
use canopen_asyncio.Sdo.Server.{
  on_request, dispatch, segmented_upload, segment_command, check_toggle, the_buffer, send_response,
  SdoServer,
}
use canopen_asyncio.Sdo.Client.{request_response}
use canopen_asyncio.Sdo.Constants.{request_segment_upload}
use canopen_asyncio.Common.Bytes.{Bytes}
use canopen_asyncio.Common.Monad.{ok}
use canopen_asyncio.Node.Local.{LocalNode}
use canopen_asyncio.Common.{
  arith, ◌++◌, ◌∷◌, [], List, none, Option, ◌&&◌, not, false, true, Bool, ap, refl, ◌≡◌, bit_or,
  bit_and, ◌<◌, ◌/◌, ◌-◌, take-append_prefix, length-drop, length-take, replicate, drop, take,
  length, all_below_sound, all_below, if◌then◌else◌, ◌==◌, ltb, ℕ, ◌+◌,
}
use canopen_asyncio.Sdo.Constants

-- A server that has `left` to send.
abbrev pub sending : LocalNode → ℕ → ℕ → ℕ → Bytes → Bool → List Bytes → SdoServer
sending node last_error index subindex left phase sent =
    receiving node last_error index subindex left phase sent

abbrev SegmentCommand : ℕ → ℕ → Bool → ℕ → Type 0
SegmentCommand command n phase last =
    (bit_and command 0xE0 ≡ 0)
    × (bit_and command 0x10 ≡ toggle_of phase)
    × (7 - bit_and (command / 2) 0x7 ≡ n)
    × (bit_and command 0x1 ≡ last)
    × (command < 0x80)

abbrev command_table : Bool → ℕ → Bool
command_table phase n =
    let c = segment_command (toggle_of phase) n [] in
    bit_and c 0xE0 == 0
    && (bit_and c 0x10 == toggle_of phase
        && (7 - bit_and (c / 2) 0x7 == n && (bit_and c 0x1 == 1 && ltb c 0x80)))

command_tables : (phase : Bool) → all_below 8 (command_table phase) ≡ true
unfolding all_below segment_command
command_tables false = refl
command_tables true = refl

last_command :
    (phase : Bool) (n : ℕ)
    → n < 8
    → SegmentCommand (segment_command (toggle_of phase) n []) n phase 1
last_command phase n h =
    ground (arith, all_below_sound 8 (command_table phase) n (command_tables phase))

middle_command :
    (phase : Bool) (x : ℕ) (xs : Bytes)
    → SegmentCommand (segment_command (toggle_of phase) 7 (x ∷ xs)) 7 phase 0
unfolding segment_command
middle_command false x xs = (refl, refl, refl, refl, omega arith)
middle_command true x xs = (refl, refl, refl, refl, omega arith)

-- The request for the next segment.
abbrev pub segment_request : Bool → Bytes
segment_request phase = bit_or Constants.request_segment_upload (toggle_of phase) ∷ replicate 7 0

abbrev pub segment_response : Bool → Bytes → Bytes
segment_response phase left =
    segment_command (toggle_of phase) (length (take 7 left)) (drop 7 left)
    ∷ (take 7 left ++ replicate (7 - length (take 7 left)) 0)

on_request-segment :
    (node : LocalNode) (last_error index subindex : ℕ) (left : Bytes) (phase : Bool)
    → on_request (segment_request phase) (sending node last_error index subindex left phase []) ≡ (
      ok tt,
      sending node last_error index subindex
          (drop 7 left)
          (not phase)
          (segment_response phase left ∷ []),
    )
unfolding on_request dispatch segmented_upload check_toggle the_buffer send_response
on_request-segment node last_error index subindex left false = refl
on_request-segment node last_error index subindex left true = refl

-- The command that comes with a segment of a buffer that is not empty.
abbrev last_flag : Bytes → ℕ
last_flag [] = 1
last_flag (x ∷ xs) = 0

response_command :
    (phase : Bool) (left : Bytes)
    → SegmentCommand
        (segment_command (toggle_of phase) (length (take 7 left)) (drop 7 left))
        (length (take 7 left))
        phase
        (last_flag (drop 7 left))
response_command phase left = go (drop 7 left) refl
  where
    go :
        (rest : Bytes)
        → drop 7 left ≡ rest
        → SegmentCommand
            (segment_command (toggle_of phase) (length (take 7 left)) rest)
            (length (take 7 left))
            phase
            (last_flag rest)
    go [] e = last_command phase (length (take 7 left)) (omega (arith, length-take 7 left))
    go (x ∷ xs) e =
        let n : length (take 7 left) ≡ 7 =
          omega (arith, length-take 7 left, length-drop 7 left, ap length e) in
        rw n (middle_command phase x xs)

-- A stream in a segmented upload, with the server that it reads from.
abbrev pub reading : SdoServer → Option ℕ → ℕ → Bool → Bool → ReadableStream SdoServer
reading server size at_pos phase done = record {
  sdo_client = record { env = server; responses = [] };
  done = done;
  toggle = toggle_of phase;
  pos = at_pos;
  size = size;
  exp_data = none;
}

abbrev pub is_last_segment : Bytes → Bool
is_last_segment [] = true
is_last_segment (x ∷ xs) = false

flag_is_last : (rest : Bytes) → (if last_flag rest == 0 then false else true) ≡ is_last_segment rest
flag_is_last [] = refl
flag_is_last (x ∷ xs) = refl

module _ (node : LocalNode) (last_error index subindex : ℕ) (size : Option ℕ) where
  abbrev pub source : Bytes → Bool → List Bytes → SdoServer
  source left phase sent = sending node last_error index subindex left phase sent

  ask_segment_upload :
      (left : Bytes) (phase : Bool) (sent : List Bytes)
      → request_response server_bus
          (segment_request phase)
          (record { env = source left phase sent; responses = [] })
        ≡ (
          ok (segment_response phase left),
          record {
            env = source (drop 7 left) (not phase) (segment_response phase left ∷ []);
            responses = [];
          },
        )
  ask_segment_upload left phase sent =
      request_response-frame server_bus (record { env = source left phase sent; responses = [] })
        (segment_request phase) _ _ _
        (server_bus_lem (segment_request phase) (source left phase sent) _ (ok tt)
          (on_request-segment node last_error index subindex left phase))
        (omega (arith, response_command phase left))

  -- One segment: what it holds, and whether it is the last.
  pub read-segment :
      (left : Bytes) (phase : Bool) (sent : List Bytes) (at_pos : ℕ)
      → read server_bus (reading (source left phase sent) size at_pos phase false) ≡ (
        ok (take 7 left),
        reading
            (source (drop 7 left) (not phase) (segment_response phase left ∷ []))
            size
            (at_pos + length (take 7 left))
            (not phase)
            (is_last_segment (drop 7 left)),
      )
  unfolding read read_segment check_segment take_segment first_byte
  read-segment left phase sent at_pos = ground (
    arith,
    ask_segment_upload left phase sent,
    response_command phase left,
    flip phase,
    flag_is_last (drop 7 left),
    take-append_prefix (length (take 7 left)) (take 7 left) (replicate (7 - length (take 7 left)) 0)
        refl,
  )
