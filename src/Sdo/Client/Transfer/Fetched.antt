-- ===== src/Sdo/Client/Transfer/Fetched.antt =====
-- `SdoClient.upload` against the server, from end to end.
use canopen_asyncio.Sdo.Client.Transfer.Segments.{unpack-abort_frame, index_fields, abort_frame}
use canopen_asyncio.Sdo.Client.Transfer.Collect.{readall-Collects}
use canopen_asyncio.Sdo.Client.Transfer.Answer.{
  server_bus_lem, request_response-abort, request_response-frame,
}
use canopen_asyncio.Sdo.Client.Transfer.Fetch.{
  on_request-empty, on_request-refused, fetched, on_request-large, size_frame, on_request-small,
  response_lt, expedited_frame, aimed, upload_request,
}
use canopen_asyncio.Sdo.Client.Transfer.{IsAnswerable, server_bus}
use canopen_asyncio.Sdo.Client.Readable.{upload, truncate, read_to_end, open_readable, upload_size}
use canopen_asyncio.Sdo.Server.{abort_code, on_request, SdoServer}
use canopen_asyncio.Sdo.Frames.{unpack_u32_at_4, pack_header, unpack_header}
use canopen_asyncio.Sdo.Client.{SdoClient}
use canopen_asyncio.Common.Bytes.{from_le, le_bytes, Bytes}
use canopen_asyncio.Common.Monad.{err, ok, sdo_aborted, Result}
use canopen_asyncio.Node.Local.{get_data, LocalNode}
use canopen_asyncio.Common.{
  arith, ◌∷◌, [], List, some, none, false, true, ap, refl, ◌≡◌, bit_or, bit_and, ◌<◌, ◌^◌, ◌*◌, ◌-◌,
  length, ℕ,
}

-- What an upload from the server gives, and that it leaves the node alone.
abbrev pub Fetches : Result Bytes → LocalNode → Result Bytes × SdoClient SdoServer → Type 0
Fetches r node t = (t.0 ≡ r) × (t.1.env.node ≡ node)

module _ (c : SdoClient SdoServer) (index subindex : ℕ) (hi : index < 65536)
    (hs : subindex < 256) where
  abbrev target : SdoServer → SdoClient SdoServer
  target s = record { env = s; responses = [] }

  open-aborted :
      (code : ℕ) (sent : List Bytes) (fuel : ℕ)
      → code < 2 ^ 32
      → on_request (upload_request index subindex) (record (c.env) { sent = [] })
        ≡ (ok tt, aimed (c.env) index subindex (abort_frame index subindex code ∷ []))
      → Fetches (err (sdo_aborted code)) (c.env.node) (upload server_bus fuel index subindex c)
  unfolding upload open_readable pack_header
  open-aborted code sent fuel hc e = ground (
    arith,
    request_response-abort server_bus c (upload_request index subindex) _ _ code
        (server_bus_lem (upload_request index subindex) (c.env) _ (ok tt) e)
        (unpack-abort_frame index subindex code hc),
  )

  small_fields :
      (b : Bytes)
      → 0 < length b
      → length b < 5
      → (bit_and (bit_or 0x43 ((4 - length b) * 4)) 0xE0 ≡ 0x40)
        × (upload_size
              (bit_or 0x43 ((4 - length b) * 4))
              (expedited_frame (c.env) index subindex hi hs b)
            ≡ ok (some (length b), some b))
  unfolding upload_size
  small_fields [] p h = absurd (omega arith)
  small_fields (w ∷ []) p h = (refl, refl)
  small_fields (w ∷ x ∷ []) p h = (refl, refl)
  small_fields (w ∷ x ∷ y ∷ []) p h = (refl, refl)
  small_fields (w ∷ x ∷ y ∷ z ∷ []) p h = (refl, refl)
  small_fields (w ∷ x ∷ y ∷ z ∷ u ∷ b) p h = absurd (omega arith)

  open-small :
      (b : Bytes) (fuel : ℕ)
      → 0 < length b
      → length b < 5
      → get_data (c.env.node) index subindex true ≡ ok b
      → Fetches (ok b) (c.env.node) (upload server_bus fuel index subindex c)
  unfolding upload open_readable pack_header unpack_header read_to_end truncate
  open-small b fuel p h e = ground (
    arith,
    index_fields index,
    request_response-frame server_bus c (upload_request index subindex)
        (aimed (c.env) index subindex (expedited_frame (c.env) index subindex hi hs b ∷ [])) _ _
        (server_bus_lem (upload_request index subindex) (c.env) _ (ok tt)
          (on_request-small (c.env) index subindex hi hs b p h e))
        (omega (arith, response_lt (c.env) index subindex hi hs (length b) h)),
    small_fields b p h,
  )

  large_size :
      (b : Bytes)
      → length b < 2 ^ 32
      → upload_size 0x41 (size_frame (c.env) index subindex hi hs b) ≡ ok (some (length b), none)
  unfolding upload_size unpack_u32_at_4 le_bytes from_le
  large_size b h = ap (λ (n : ℕ). ok (some n, none)) (omega arith)

  open-large :
      (b : Bytes) (fuel : ℕ)
      → 4 < length b
      → length b < 2 ^ 32
      → length b < fuel
      → get_data (c.env.node) index subindex true ≡ ok b
      → Fetches (ok b) (c.env.node) (upload server_bus fuel index subindex c)
  unfolding upload open_readable pack_header unpack_header read_to_end truncate
  open-large [] fuel p h hf e = absurd (omega arith)
  open-large (x ∷ xs) fuel p h hf e = ground (
    arith,
    index_fields index,
    request_response-frame server_bus c (upload_request index subindex) _ 0x41 _
        (server_bus_lem (upload_request index subindex) (c.env) _ (ok tt)
          (on_request-large (c.env) index subindex hi hs (x ∷ xs) p h e))
        (omega arith),
    large_size (x ∷ xs) h,
    readall-Collects (c.env.node) (c.env.last_received_error) index subindex
        (some (length (x ∷ xs))) fuel x [] xs hf 0 false
        (size_frame (c.env) index subindex hi hs (x ∷ xs) ∷ []),
  )

abbrev pub content_length : Result Bytes → ℕ
content_length (ok b) = length b
content_length (err e) = 0

-- An upload from the server of this library gives what the node's `get_data` gives: the whole
-- content if there is any, the abort code 0x08000024 if it is empty, and the abort code of the
-- exception if it fails. The node stays as it is. The address fits its fields, the fuel exceeds the
-- content's length, which fits its field, and so does the abort code of an exception.
pub upload-get_data :
    (c : SdoClient SdoServer) (index subindex fuel : ℕ)
    → index < 65536
    → subindex < 256
    → IsAnswerable (get_data (c.env.node) index subindex true)
    → content_length (get_data (c.env.node) index subindex true) < 2 ^ 32
    → content_length (get_data (c.env.node) index subindex true) < fuel
    → Fetches
        (fetched (get_data (c.env.node) index subindex true))
        (c.env.node)
        (upload server_bus fuel index subindex c)
upload-get_data c index subindex fuel hi hs a ht hf =
    go (get_data (c.env.node) index subindex true) refl a ht hf
  where
    go :
        (r : Result Bytes)
        → get_data (c.env.node) index subindex true ≡ r
        → IsAnswerable r
        → content_length r < 2 ^ 32
        → content_length r < fuel
        → Fetches (fetched r) (c.env.node) (upload server_bus fuel index subindex c)
    go (err x) e a ht hf =
        open-aborted c index subindex hi hs (abort_code x) [] fuel a
          (on_request-refused (c.env) index subindex hi hs x a e)
    go (ok []) e a ht hf =
        open-aborted c index subindex hi hs 0x08000024 [] fuel (omega arith)
          (on_request-empty (c.env) index subindex hi hs e)
    go (ok (w ∷ [])) e a ht hf =
        open-small c index subindex hi hs (w ∷ []) fuel (omega arith) (omega arith) e
    go (ok (w ∷ x ∷ [])) e a ht hf =
        open-small c index subindex hi hs (w ∷ x ∷ []) fuel (omega arith) (omega arith) e
    go (ok (w ∷ x ∷ y ∷ [])) e a ht hf =
        open-small c index subindex hi hs (w ∷ x ∷ y ∷ []) fuel (omega arith) (omega arith) e
    go (ok (w ∷ x ∷ y ∷ z ∷ [])) e a ht hf =
        open-small c index subindex hi hs (w ∷ x ∷ y ∷ z ∷ []) fuel (omega arith) (omega arith) e
    go (ok (w ∷ x ∷ y ∷ z ∷ u ∷ b)) e a ht hf =
        open-large c index subindex hi hs (w ∷ x ∷ y ∷ z ∷ u ∷ b) fuel (omega arith) ht hf e
