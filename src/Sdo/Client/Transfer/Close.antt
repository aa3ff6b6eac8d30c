-- ===== src/Sdo/Client/Transfer/Close.antt =====
-- Closing the buffered stream: what was kept is the last segment, or an empty one ends the download.
use canopen_asyncio.Sdo.Client.Transfer.Segments.{abort_frame, segment_answer, receiving, toggle_of}
use canopen_asyncio.Sdo.Client.Transfer.Download.{drain-write, writing}
use canopen_asyncio.Sdo.Client.Transfer.Last.{
  ask_last_err, write-last_err, write-last_ok, ask_last_ok, after,
}
use canopen_asyncio.Sdo.Client.Transfer.{server_bus}
use canopen_asyncio.Sdo.Client.Writable.{
  close_buffered, drain, close, write, with_close, download_command, WritableStream,
}
use canopen_asyncio.Sdo.Server.{abort_code, SdoServer}
use canopen_asyncio.Common.Bytes.{Bytes}
use canopen_asyncio.Common.Monad.{err, ok, sdo_aborted, Result, Exn}
use canopen_asyncio.Node.Local.{set_data, LocalNode}
use canopen_asyncio.Common.{
  ◌≤◌, le→leb, arith, ◌++◌, ◌∷◌, [], List, not, false, true, Bool, refl, ◌≡◌, bit_or, ◌<◌, ◌^◌, ◌*◌,
  suc, zero, drop, length, lt→leb, ℕ, ◌+◌,
}

-- How a download that reaches the node ends: with the node's own outcome and the node as it left it.
abbrev pub Ends : {A : Type 0} → Result A → LocalNode → Result A × WritableStream SdoServer → Type 0
Ends r node' t = (t.0 ≡ r) × (t.1.sdo_client.env.node ≡ node')

close_command :
    (phase : Bool)
    → bit_or (bit_or 0x01 (toggle_of phase)) (7 * 2) ≡ download_command (toggle_of phase) 0 true
unfolding download_command
close_command false = refl
close_command true = refl

pub drain-nil :
    (fuel keep : ℕ) (s : WritableStream SdoServer) → drain server_bus fuel keep [] s ≡ (ok [], s)
unfolding drain
drain-nil zero keep s = ground arith
drain-nil (suc fuel) keep s = ground arith

pub drop-all : (b : Bytes) → drop (length b) b ≡ []
drop-all [] = refl
drop-all (x ∷ b) = drop-all b

pub close-done : (s : WritableStream SdoServer) → s.done ≡ true → close server_bus s ≡ (ok tt, s)
unfolding close
close-done s e = ground arith

pub drain-fails :
    (fuel keep : ℕ) (b : Bytes) (x : Exn) (s s' : WritableStream SdoServer)
    → keep < length b
    → write server_bus b s ≡ (err x, s')
    → drain server_bus (suc fuel) keep b s ≡ (err x, s')
unfolding drain
drain-fails fuel keep b x s s' h e = ground (arith, lt→leb (length b) keep h)

module _ (node node' : LocalNode) (last_error index subindex : ℕ) (got : Bytes) (phase : Bool)
    (sent : List Bytes) (total pos fuel : ℕ) where
  abbrev stream : WritableStream SdoServer
  stream = writing (receiving node last_error index subindex got phase sent) total pos phase false

  close-empty_ok :
      set_data index subindex (got ++ []) true node ≡ (ok tt, node')
      → Ends (ok tt) node' (close server_bus stream)
  unfolding close
  close-empty_ok e = ground (
    arith,
    close_command phase,
    ask_last_ok node node' last_error index subindex got [] phase sent (omega arith) e,
  )

  close-empty_err :
      (x : Exn)
      → index < 65536
      → subindex < 256
      → abort_code x < 2 ^ 32
      → set_data index subindex (got ++ []) true node ≡ (err x, node')
      → Ends (err (sdo_aborted (abort_code x))) node' (close server_bus stream)
  unfolding close
  close-empty_err x hi hs hc e = ground (
    arith,
    close_command phase,
    ask_last_err node node' last_error index subindex got [] phase sent x hi hs hc (omega arith) e,
  )

  pub close_buffered-ok :
      (kept : Bytes)
      → length kept < 8
      → pos + length kept ≡ total
      → set_data index subindex (got ++ kept) true node ≡ (ok tt, node')
      → Ends (ok tt) node' (close_buffered server_bus (suc fuel) kept stream)
  unfolding close_buffered with_close
  close_buffered-ok [] h e d = ground (arith, drain-nil (suc fuel) 0 stream, close-empty_ok d)
  close_buffered-ok (x ∷ kept) h e d = ground (
    arith,
    drain-write fuel 0 (length (x ∷ kept)) (x ∷ kept) stream _ (omega arith) (
        write-last_ok node node' last_error index subindex got (x ∷ kept) phase sent total pos e h
          d),
    drop-all (x ∷ kept),
    drain-nil fuel 0 (
        writing
          ((after node node' last_error index subindex got (x ∷ kept) phase sent (not phase)
            (segment_answer phase ∷ [])).env)
          total (pos + length (x ∷ kept)) (not phase) true),
    close-done
        (writing
          ((after node node' last_error index subindex got (x ∷ kept) phase sent (not phase)
            (segment_answer phase ∷ [])).env)
          total (pos + length (x ∷ kept)) (not phase) true)
        refl,
  )

  pub close_buffered-err :
      (x : Exn) (kept : Bytes)
      → index < 65536
      → subindex < 256
      → abort_code x < 2 ^ 32
      → length kept < 8
      → pos + length kept ≡ total
      → set_data index subindex (got ++ kept) true node ≡ (err x, node')
      → Ends
          (err (sdo_aborted (abort_code x)))
          node'
          (close_buffered server_bus (suc fuel) kept stream)
  unfolding close_buffered with_close
  close_buffered-err x [] hi hs hc h e d =
      ground (arith, drain-nil (suc fuel) 0 stream, close-empty_err x hi hs hc d)
  close_buffered-err x (y ∷ kept) hi hs hc h e d = ground (
    arith,
    drain-fails fuel 0 (y ∷ kept) _ stream _ (omega arith) (
        write-last_err node node' last_error index subindex got (y ∷ kept) phase sent total pos e x
          hi hs hc h d),
    close-done
        (writing
          ((after node node' last_error index subindex got (y ∷ kept) phase sent phase
            (abort_frame index subindex (abort_code x) ∷ [])).env)
          total pos (not phase) true)
        refl,
  )

-- What is short enough is kept, and nothing is written.
pub drain-keeps :
    (fuel keep : ℕ) (b : Bytes) (s : WritableStream SdoServer)
    → length b ≤ keep
    → drain server_bus fuel keep b s ≡ (ok b, s)
unfolding drain
drain-keeps zero keep b s h = rw (le→leb (length b) keep h)
drain-keeps (suc fuel) keep b s h = rw (le→leb (length b) keep h)
