-- ===== src/Sdo/Client/BlockDownload/Receiver.antt =====
-- A server of block downloads, as CiA 301 describes it, for one object: what the stream of
-- canopen/sdo/client.py is checked against. It is opened by the request for its own object, with the
-- size if that is given, takes the segments of a block in order, answers the last of a block and the last
-- of all, and takes away the bytes that the end says are not used. Any other opening or end is aborted.
use canopen_asyncio.Common.Bytes.{le_bytes, Bytes, from_le}
use canopen_asyncio.Common.Monad.{ok}
use canopen_asyncio.Sdo.Client.{Bus}
use canopen_asyncio.Common.{
  some, none, Option, ◌&&◌, false, ◌*◌, drop, ℕ, ◌+◌, ◌-◌, ◌/◌, ◌%◌, Bool, ◌||◌, List, [], ◌∷◌,
  ◌++◌, ◌==◌, if◌then◌else◌, length, take, replicate,
}

pub data Phase : Type 0 where
  waiting receiving ending ended : Phase

pub record Receiver : Type 0 where
  pub index : ℕ
  pub subindex : ℕ
  pub blksize : ℕ
  pub announced : Option ℕ
  pub phase : Phase
  pub seqno : ℕ
  pub received : Bytes
  pub checksum : ℕ

-- The answer to the request that opens the download.
unfoldable pub opening : Receiver → Bytes
opening r = 0xA4 ∷ (r.index % 256) ∷ (r.index / 256) ∷ r.subindex ∷ r.blksize ∷ replicate 3 0

unfoldable pub ack : ℕ → ℕ → Bytes
ack seqno blksize = 0xA2 ∷ seqno ∷ blksize ∷ replicate 5 0

-- An abort with the code of an unknown command specifier.
unfoldable pub refusal : Receiver → Bytes
refusal r = 0x80 ∷ (r.index % 256) ∷ (r.index / 256) ∷ r.subindex ∷ le_bytes 4 0x05040001

-- The command of a request that opens a download: its specifier is 6 and its lowest bit 0.
unfoldable pub opens : ℕ → Bool
opens command = command / 32 == 6 && command % 2 == 0

-- The command of a request that ends one: its specifier is 6 and its lowest bit 1.
unfoldable pub ends : ℕ → Bool
ends command = command / 32 == 6 && command % 2 == 1

-- The index and the subindex are those of the object.
unfoldable pub names_object : Receiver → Bytes → Bool
names_object r (low ∷ high ∷ subindex ∷ rest) =
    low + 256 * high == r.index && subindex == r.subindex
names_object r _ = false

-- The size, if bit 1 of the command says that there is one.
unfoldable pub size_told : ℕ → Bytes → Option ℕ
size_told command content =
    if command / 2 % 2 == 1 then some (from_le (take 4 (drop 3 content))) else none

-- A segment in its turn.
unfoldable pub segment : ℕ → Bool → Bytes → Receiver → List Bytes × Receiver
segment seqno last content r =
    if last || seqno == r.blksize
    then (
      ack seqno r.blksize ∷ [],
      record r {
        received = r.received ++ content;
        seqno = 0;
        phase = if last then ending else receiving;
      },
    )
    else ([], record r { received = r.received ++ content; seqno = seqno })

-- A segment out of turn is passed over.
unfoldable pub receive_frame : Phase → ℕ → Bytes → Receiver → List Bytes × Receiver
receive_frame waiting command content r =
    if opens command && names_object r content
    then (opening r ∷ [], record r { phase = receiving; announced = size_told command content })
    else (refusal r ∷ [], r)
receive_frame receiving command content r =
    if command % 128 == r.seqno + 1
    then segment (command % 128) (command / 128 == 1) content r
    else ([], r)
receive_frame ending command content r =
    if ends command
    then (
      (0xA1 ∷ replicate 7 0) ∷ [],
      record r {
        phase = ended;
        received = take (length r.received - command / 4 % 8) r.received;
        checksum = from_le (take 2 content);
      },
    )
    else (refusal r ∷ [], r)
receive_frame ended command content r = ([], r)

unfoldable pub receiver_bus : Bus Receiver
receiver_bus [] r = (ok [], r)
receiver_bus (command ∷ content) r =
    let (answers, r') = receive_frame r.phase command content r in (ok answers, r')
