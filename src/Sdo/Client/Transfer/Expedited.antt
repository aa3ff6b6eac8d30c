-- ===== src/Sdo/Client/Transfer/Expedited.antt =====
-- An expedited download, of one to four bytes, against the server.
use canopen_asyncio.Sdo.Client.Transfer.Segments.{
  unpack-abort_frame, index_fields, abort_lem, abort_frame,
}
use canopen_asyncio.Sdo.Client.Transfer.Answer.{
  server_bus_lem, request_response-abort, request_response-frame,
}
use canopen_asyncio.Sdo.Client.Transfer.{server_bus}
use canopen_asyncio.Sdo.Server.{
  on_request, abort_code, dispatch, init_download, begin_download, expedited_data, node_set_data,
  set_target, send_response, SdoServer,
}
use canopen_asyncio.Sdo.Frames.{pack_header, unpack_header}
use canopen_asyncio.Sdo.Client.{request_response, SdoClient}
use canopen_asyncio.Sdo.Constants.{size_specified, expedited, request_download}
use canopen_asyncio.Common.Bytes.{Bytes}
use canopen_asyncio.Common.Monad.{err, ok, sdo_aborted, Exn}
use canopen_asyncio.Node.Local.{set_data, LocalNode}
use canopen_asyncio.Common.{
  all_below_sound, all_below, ltb→lt, ltb, arith, ◌++◌, ◌∷◌, [], List, some, true, refl, ◌≡◌,
  bit_or, bit_and, ◌<◌, ◌^◌, ◌%◌, ◌/◌, ◌*◌, ◌-◌, replicate, length, ℕ,
}
use canopen_asyncio.Sdo.Constants

-- The command byte of an expedited download of `n` bytes.
abbrev pub expedited_command : ℕ → ℕ
expedited_command n =
    bit_or (bit_or (bit_or Constants.request_download Constants.expedited) Constants.size_specified)
      ((4 - n) * 4)

abbrev pub expedited_request : ℕ → ℕ → Bytes → Bytes
expedited_request index subindex b =
    expedited_command (length b)
    ∷ (index % 256)
    ∷ (index / 256)
    ∷ subindex
    ∷ (b ++ replicate (4 - length b) 0)

-- What the server makes of an expedited request whose command and data are known.
module _ (s : SdoServer) (node' : LocalNode) (index subindex command : ℕ) (b field : Bytes)
    (specifier : bit_and command 0xE0 ≡ 0x20) (is_expedited : bit_and command 0x2 ≡ 2)
    (data_eq : expedited_data command (command ∷ (index % 256) ∷ (index / 256) ∷ subindex ∷ field)
      ≡ b)
    (hi : index < 65536) (hs : subindex < 256) where
  dispatch-expedited_ok :
      set_data index subindex b true (s.node) ≡ (ok tt, node')
      → dispatch command (command ∷ (index % 256) ∷ (index / 256) ∷ subindex ∷ field) s ≡ (
        ok tt,
        record s {
          node = node';
          index = some index;
          subindex = some subindex;
          sent = s.sent ++ ((0x60 ∷ (index % 256) ∷ (index / 256) ∷ subindex ∷ replicate 4 0) ∷ []);
        },
      )
  unfolding dispatch init_download begin_download unpack_header set_target pack_header send_response
      node_set_data
  dispatch-expedited_ok e = ground (arith, index_fields index)

  dispatch-expedited_err :
      (x : Exn)
      → set_data index subindex b true (s.node) ≡ (err x, node')
      → dispatch command (command ∷ (index % 256) ∷ (index / 256) ∷ subindex ∷ field) s
        ≡ (err x, record s { node = node'; index = some index; subindex = some subindex })
  unfolding dispatch init_download begin_download unpack_header set_target pack_header send_response
      node_set_data
  dispatch-expedited_err x e = ground (arith, index_fields index)

-- The fields of the command byte, for each size.
abbrev ExpeditedFields : ℕ → ℕ → Bytes → Type 0
ExpeditedFields index subindex b =
    (bit_and (expedited_command (length b)) 0xE0 ≡ 0x20)
    × (bit_and (expedited_command (length b)) 0x2 ≡ 2)
    × (expedited_data (expedited_command (length b)) (expedited_request index subindex b) ≡ b)

expedited_fields :
    (index subindex : ℕ) (b : Bytes)
    → 0 < length b
    → length b < 5
    → ExpeditedFields index subindex b
unfolding expedited_data
expedited_fields index subindex [] p h = absurd (omega arith)
expedited_fields index subindex (w ∷ []) p h = (refl, refl, refl)
expedited_fields index subindex (w ∷ x ∷ []) p h = (refl, refl, refl)
expedited_fields index subindex (w ∷ x ∷ y ∷ []) p h = (refl, refl, refl)
expedited_fields index subindex (w ∷ x ∷ y ∷ z ∷ []) p h = (refl, refl, refl)
expedited_fields index subindex (w ∷ x ∷ y ∷ z ∷ u ∷ b) p h = absurd (omega arith)

module _ (c : SdoClient SdoServer) (node' : LocalNode) (index subindex : ℕ) (b : Bytes)
    (p : 0 < length b) (h : length b < 5) (hi : index < 65536) (hs : subindex < 256) where
  abbrev pub answered : List Bytes → SdoClient SdoServer
  answered out = record {
    env = record (c.env) { node = node'; index = some index; subindex = some subindex; sent = out };
    responses = [];
  }

  pub ask_expedited_ok :
      set_data index subindex b true (c.env.node) ≡ (ok tt, node')
      → request_response server_bus (expedited_request index subindex b) c ≡ (
        ok (0x60 ∷ (index % 256) ∷ (index / 256) ∷ subindex ∷ replicate 4 0),
        answered ((0x60 ∷ (index % 256) ∷ (index / 256) ∷ subindex ∷ replicate 4 0) ∷ []),
      )
  unfolding on_request
  ask_expedited_ok e =
      let f = expedited_fields index subindex b p h in
      request_response-frame server_bus c _ _ 0x60 _
        (server_bus_lem (expedited_request index subindex b) (c.env) _ (ok tt) (
          ground (
            arith,
            dispatch-expedited_ok (record (c.env) { sent = [] }) node' index subindex
                (expedited_command (length b)) b (b ++ replicate (4 - length b) 0) (f.0) (f.1) (f.2)
                hi hs e,
          )))
        (omega arith)

  pub ask_expedited_err :
      (x : Exn)
      → abort_code x < 2 ^ 32
      → set_data index subindex b true (c.env.node) ≡ (err x, node')
      → request_response server_bus (expedited_request index subindex b) c ≡ (
        err (sdo_aborted (abort_code x)),
        answered (abort_frame index subindex (abort_code x) ∷ []),
      )
  unfolding on_request
  ask_expedited_err x hc e =
      let f = expedited_fields index subindex b p h in
      request_response-abort server_bus c _ _ _ (abort_code x)
        (server_bus_lem (expedited_request index subindex b) (c.env) _ (ok tt) (
          ground (
            arith,
            dispatch-expedited_err (record (c.env) { sent = [] }) node' index subindex
                (expedited_command (length b)) b (b ++ replicate (4 - length b) 0) (f.0) (f.1) (f.2)
                hi hs x e,
            abort_lem
                (record (c.env) {
                  node = node';
                  index = some index;
                  subindex = some subindex;
                  sent = [];
                })
                index subindex (abort_code x) refl refl hi hs hc,
          )))
        (unpack-abort_frame index subindex (abort_code x) hc)

pub expedited_command_lt : (n : ℕ) → n < 5 → expedited_command n < 256
expedited_command_lt n h =
    ltb→lt _ _ (all_below_sound 5 (λ n. ltb (expedited_command n) 256) n table h)
  where
    table : all_below 5 (λ n. ltb (expedited_command n) 256) ≡ true
    table = unfold all_below in refl
