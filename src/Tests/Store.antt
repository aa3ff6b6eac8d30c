-- ===== src/Tests/Store.antt =====
-- A device that keeps what is written to it, and the configuration of a map on it.
use canopen_asyncio.Pdo.Device.{Device}
use canopen_asyncio.Sdo.Base.{SdoNode}
use canopen_asyncio.Common.{ℕ, ◌≡◌, ◌≢◌, ◌⊎◌, refl, arith, ◌==◌, ◌&&◌, if◌then◌else◌, inl, inr}
use canopen_asyncio.Common.Bytes.{Bytes}
use canopen_asyncio.Common.Monad.{ok}

abbrev pub Memory : Type 0
Memory = ℕ → ℕ → Bytes

abbrev pub memory_put : Memory → ℕ → ℕ → Bytes → Memory
memory_put n index subindex b = λ i j. if i == index && j == subindex then b else n i j

abbrev pub memory_sdo : SdoNode Memory
memory_sdo = record {
  upload = λ index subindex n. (ok (n index subindex), n);
  download = λ index subindex b force n. (ok tt, memory_put n index subindex b);
}

pub memory_put-same :
    (index subindex : ℕ) (b : Bytes) (n : Memory) → memory_put n index subindex b index subindex ≡ b
memory_put-same index subindex b n = ground arith

pub memory_put-other :
    (index subindex index' subindex' : ℕ) (b : Bytes) (n : Memory)
    → (index' ≢ index) ⊎ (subindex' ≢ subindex)
    → memory_put n index subindex b index' subindex' ≡ n index' subindex'
memory_put-other index subindex index' subindex' b n (inl h) = ground (arith, h)
memory_put-other index subindex index' subindex' b n (inr h) = ground (arith, h)

abbrev pub memory : Device Memory memory_sdo
memory = record {
  put = memory_put;
  content = λ n. n;
  upload_lem = λ index subindex n. refl;
  download_lem = λ index subindex b force n. refl;
  content-put = memory_put-same;
  content-put_other = memory_put-other;
}
