-- ===== src/Sdo/Client/Transfer/Collect.antt =====
-- `SdoClient.upload` against the server, from end to end.
use mathlib.Core.List.{append-nil, append_assoc}
use canopen_asyncio.Sdo.Client.Transfer.Upload.{
  read-segment, source, is_last_segment, reading, segment_response,
}
use canopen_asyncio.Sdo.Client.Transfer.{server_bus}
use canopen_asyncio.Sdo.Client.Readable.{readall, read, ReadableStream}
use canopen_asyncio.Sdo.Server.{SdoServer}
use canopen_asyncio.Common.Bytes.{Bytes}
use canopen_asyncio.Common.Monad.{ok, Result}
use canopen_asyncio.Node.Local.{LocalNode}
use canopen_asyncio.Common.{
  length-drop, arith, ◌++◌, ◌∷◌, [], List, Option, not, false, true, Bool, ◌∙◌, ap, refl, ◌≡◌, ◌<◌,
  suc, zero, take-append-drop, drop, take, length, ℕ, ◌+◌,
}

abbrev pub Reads : Result Bytes → LocalNode → Result Bytes × ReadableStream SdoServer → Type 0
Reads r node t = (t.0 ≡ r) × (t.1.sdo_client.env.node ≡ node)

module _ (node : LocalNode) (last_error index subindex : ℕ) (size : Option ℕ) where
  -- Once the last segment is in, the loop ends with what it has.
  readall-done :
      (fuel at_pos : ℕ) (acc left : Bytes) (phase : Bool) (sent : List Bytes)
      → Reads (ok acc) node (
          readall server_bus (suc fuel) acc (
            reading
              (source node last_error index subindex size left phase sent)
              size
              at_pos
              phase
              true))
  unfolding readall read
  readall-done fuel at_pos acc left phase sent = (refl, refl)

  readall-step :
      (fuel at_pos x : ℕ) (acc xs : Bytes) (phase : Bool) (sent : List Bytes)
      → readall server_bus (suc fuel) acc (
          reading
            (source node last_error index subindex size (x ∷ xs) phase sent)
            size
            at_pos
            phase
            false)
        ≡ readall server_bus fuel (acc ++ (x ∷ take 6 xs)) (
            reading
              (source node last_error index subindex size
                (drop 6 xs)
                (not phase)
                (segment_response phase (x ∷ xs) ∷ []))
              size
              (at_pos + length (x ∷ take 6 xs))
              (not phase)
              (is_last_segment (drop 6 xs)))
  unfolding readall
  readall-step fuel at_pos x acc xs phase sent =
      ground (arith, read-segment node last_error index subindex size (x ∷ xs) phase sent at_pos)

  -- What is to be shown of the loop with `rest` left, where `whole` is the content.
  abbrev pub Collects : ℕ → Bytes → Bytes → Bytes → Type 0
  Collects fuel whole acc rest =
      (at_pos : ℕ) (phase : Bool) (sent : List Bytes)
      → Reads (ok whole) node (
          readall server_bus fuel acc (
            reading (source node last_error index subindex size rest phase sent) size at_pos phase
              (is_last_segment rest)))

  Collects-next :
      (fuel : ℕ) (acc rest whole : Bytes)
      → 0 < fuel
      → acc ++ rest ≡ whole
      → ((y : ℕ) (ys : Bytes) → rest ≡ y ∷ ys → Collects fuel (acc ++ (y ∷ ys)) acc (y ∷ ys))
      → Collects fuel whole acc rest
  Collects-next zero acc rest whole h e ih at_pos phase sent = elim h [ ]
  Collects-next (suc fuel) acc [] whole h e ih at_pos phase sent =
      rw (← e, append-nil acc) (readall-done fuel at_pos acc [] phase sent)
  Collects-next (suc fuel) acc (y ∷ ys) whole h e ih at_pos phase sent =
      rw (← e) (ih y ys refl at_pos phase sent)

  -- The loop collects all that the server has left.
  pub readall-Collects :
      (fuel x : ℕ) (acc xs : Bytes)
      → length (x ∷ xs) < fuel
      → Collects fuel (acc ++ (x ∷ xs)) acc (x ∷ xs)
  readall-Collects zero x acc xs h at_pos phase sent = elim h [ ]
  readall-Collects (suc fuel) x acc xs h at_pos phase sent =
      rw (readall-step fuel at_pos x acc xs phase sent) (
        Collects-next fuel (acc ++ (x ∷ take 6 xs)) (drop 6 xs) (acc ++ (x ∷ xs)) (omega arith)
          (append_assoc acc (x ∷ take 6 xs) (drop 6 xs)
            ∙ ap (λ r. acc ++ (x ∷ r)) (take-append-drop 6 xs))
          (λ y ys e.
            readall-Collects fuel y (acc ++ (x ∷ take 6 xs)) ys
              (omega (arith, length-drop 6 xs, ap length e)))
          (at_pos + length (x ∷ take 6 xs)) (not phase) (segment_response phase (x ∷ xs) ∷ []))
