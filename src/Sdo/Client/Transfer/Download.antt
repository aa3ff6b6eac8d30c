-- ===== src/Sdo/Client/Transfer/Download.antt =====
-- `SdoClient.download` against the server.
use canopen_asyncio.Sdo.Client.Transfer.Answer.{server_bus_lem, request_response-frame}
use canopen_asyncio.Common.Monad.{Result, ok}
use canopen_asyncio.Sdo.Client.Transfer.{server_bus}
use canopen_asyncio.Sdo.Client.Readable.{first_byte}
use canopen_asyncio.Sdo.Client.Transfer.Segments.{
  segment_step, segment_answer, toggle_of, receiving,
}
use canopen_asyncio.Common.Bytes.{Bytes}
use canopen_asyncio.Sdo.Client.Writable.{
  drain, download_command, expect, check_response, is_last, WritableStream, write_segment, write,
}
use canopen_asyncio.Sdo.Client.{request_response, SdoClient}
use canopen_asyncio.Sdo.Server.{SdoServer}
use canopen_asyncio.Node.Local.{LocalNode}
use canopen_asyncio.Common.{
  ◌∙◌, ap, take-append-drop, lt→leb, le→leb, ◌≤◌, suc, zero, length-drop, drop, arith, true, ◌≢◌,
  refl, bit_or, length-take, replicate, not, take, ◌∷◌, false, ◌<◌, none, length, List, some, Bool,
  ℕ, ◌+◌, ◌≡◌, ◌++◌, [],
}
use mathlib.Core.List.{append-nil, append_assoc}
use native.Mathlib.Decide.{dec_le}

-- A stream in a segmented download of `total` bytes, with the server that it writes to.
abbrev pub writing : SdoServer → ℕ → ℕ → Bool → Bool → WritableStream SdoServer
writing server total pos phase done = record {
  sdo_client = record { env = server; responses = [] };
  size = some total;
  pos = pos;
  toggle = toggle_of phase;
  exp_header = none;
  done = done;
}

module _ (node : LocalNode) (last_error index subindex : ℕ) where
  -- A middle segment and its answer.
  pub ask_segment :
      (c : SdoClient SdoServer) (got b : Bytes) (phase : Bool) (sent : List Bytes)
      → c.env ≡ receiving node last_error index subindex got phase sent
      → length b ≡ 7
      → request_response server_bus (download_command (toggle_of phase) 7 false ∷ b) c ≡ (
        ok (segment_answer phase),
        record {
          env =
              receiving node last_error index subindex
                (got ++ b)
                (not phase)
                (segment_answer phase ∷ []);
          responses = [];
        },
      )
  ask_segment c got b phase sent e n =
      request_response-frame server_bus c _ _ (bit_or 0x20 (toggle_of phase)) (replicate 7 0)
        (rw e (
          server_bus_lem _ (receiving node last_error index subindex got phase sent) _ (ok tt)
            (segment_step node last_error index subindex got b phase n)))
        (answer_ne phase)
    where
      answer_ne : (phase : Bool) → bit_or 0x20 (toggle_of phase) ≢ 0x80
      answer_ne false = omega arith
      answer_ne true = omega arith

  -- More than seven bytes are left: one full segment is written.
  pub write-middle :
      (got rest : Bytes) (phase : Bool) (sent : List Bytes) (total pos : ℕ)
      → 7 < length rest
      → pos + length rest ≡ total
      → write server_bus rest
          (writing (receiving node last_error index subindex got phase sent) total pos phase false)
        ≡ (
          ok 7,
          writing
              (receiving node last_error index subindex
                (got ++ take 7 rest)
                (not phase)
                (segment_answer phase ∷ []))
              total
              (pos + 7)
              (not phase)
              false,
        )
  unfolding write write_segment is_last check_response expect first_byte
  write-middle got rest false sent total pos h e = ground (
    arith,
    append-nil (take 7 rest),
    length-take 7 rest,
    ask_segment
        (record { env = receiving node last_error index subindex got false sent; responses = [] })
        got (take 7 rest) false sent refl,
  )
  write-middle got rest true sent total pos h e = ground (
    arith,
    append-nil (take 7 rest),
    length-take 7 rest,
    ask_segment
        (record { env = receiving node last_error index subindex got true sent; responses = [] })
        got (take 7 rest) true sent refl,
  )

-- What draining leaves: a full state in which `kept` is still to be written.
pub record IsDrained (node : LocalNode) (last_error index subindex total : ℕ) (whole : Bytes)
    (result : Result Bytes × WritableStream SdoServer) : Type 0 where
  pub kept : Bytes
  pub got : Bytes
  pub phase : Bool
  pub sent : List Bytes
  pub pos : ℕ
  pub result_eq : result ≡ (
    ok kept,
    writing (receiving node last_error index subindex got phase sent) total pos phase false,
  )
  pub whole_eq : got ++ kept ≡ whole
  pub pos_eq : pos + length kept ≡ total
  pub short : length kept < 8

IsDrained-trans :
    (node : LocalNode) (last_error index subindex total : ℕ) (whole whole' : Bytes)
    (r r' : Result Bytes × WritableStream SdoServer)
    → r' ≡ r
    → whole ≡ whole'
    → IsDrained node last_error index subindex total whole r
    → IsDrained node last_error index subindex total whole' r'
IsDrained-trans node last_error index subindex total whole whole' r r' p q d = record {
  kept = d.kept;
  got = d.got;
  phase = d.phase;
  sent = d.sent;
  pos = d.pos;
  result_eq = p ∙ d.result_eq;
  whole_eq = d.whole_eq ∙ q;
  pos_eq = d.pos_eq;
  short = d.short;
}

pub drain-write :
    (fuel keep n : ℕ) (b : Bytes) (s s' : WritableStream SdoServer)
    → keep < length b
    → write server_bus b s ≡ (ok n, s')
    → drain server_bus (suc fuel) keep b s ≡ drain server_bus fuel keep (drop n b) s'
unfolding drain
drain-write fuel keep n b s s' h e = ground (arith, lt→leb (length b) keep h)

module _ (node : LocalNode) (last_error index subindex total : ℕ) where
  -- Draining to seven bytes sends all that comes before them, segment by segment.
  pub drain-IsDrained :
      (fuel : ℕ) (got rest : Bytes) (phase : Bool) (sent : List Bytes) (pos : ℕ)
      → length rest ≤ fuel
      → pos + length rest ≡ total
      → IsDrained node last_error index subindex total (got ++ rest) (
          drain server_bus fuel 7 rest (
            writing
              (receiving node last_error index subindex got phase sent)
              total
              pos
              phase
              false))
  drain-IsDrained zero got rest phase sent pos h e = record {
    kept = rest;
    got = got;
    phase = phase;
    sent = sent;
    pos = pos;
    result_eq = unfold drain in ground arith;
    whole_eq = refl;
    pos_eq = e;
    short = omega arith;
  }
  drain-IsDrained (suc fuel) got rest phase sent pos h e = elim (dec_le (length rest) 7) [
    | yes le ↦ record {
      kept = rest;
      got = got;
      phase = phase;
      sent = sent;
      pos = pos;
      result_eq = unfold drain in (rw (le→leb (length rest) 7 le));
      whole_eq = refl;
      pos_eq = e;
      short = omega arith;
    }
    | no more ↦
        IsDrained-trans node last_error index subindex total (got ++ take 7 rest ++ drop 7 rest)
          (got ++ rest) _ _
          (drain-write fuel 7 7 rest _ _ (omega arith) (
            write-middle node last_error index subindex got rest phase sent total pos (omega arith)
              e))
          (append_assoc got (take 7 rest) (drop 7 rest)
            ∙ ap (λ r. got ++ r) (take-append-drop 7 rest))
          (drain-IsDrained fuel (got ++ take 7 rest) (drop 7 rest) (not phase)
            (segment_answer phase ∷ []) (pos + 7) (omega (arith, length-drop 7 rest))
            (omega (arith, length-drop 7 rest)))
  ]
