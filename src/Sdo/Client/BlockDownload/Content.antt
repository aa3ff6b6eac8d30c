-- ===== src/Sdo/Client/BlockDownload/Content.antt =====
-- A whole block download, from its opening to its end (canopen/sdo/client.py).
use canopen_asyncio.Sdo.Client.BlockDownload.Receiver.{Receiver, receiver_bus}
use canopen_asyncio.Sdo.Client.BlockDownload.Delivery.{
  next_block, sending, complete, next_seqno, write_segment-full, write_segment-last,
}
use canopen_asyncio.Sdo.Client.BlockDownload.{BlockDownloadStream, block_drain}
use canopen_asyncio.Common.Bytes.{Bytes}
use canopen_asyncio.Common.Monad.{Result, ok}
use canopen_asyncio.Common.{
  Bool-cases, leb, leb→le, ◌⊎◌, ℕ, zero, suc, ◌+◌, ◌-◌, ◌<◌, ◌≤◌, ◌≡◌, refl, ap, ◌∙◌, sym, arith,
  List, [], ◌∷◌, ◌++◌, length, take, drop, inl, inr, take-append-drop, length-drop,
}

pub append_assoc : (xs ys zs : Bytes) → (xs ++ ys) ++ zs ≡ xs ++ (ys ++ zs)
append_assoc [] ys zs = refl
append_assoc (x ∷ xs) ys zs = ap (λ l. x ∷ l) (append_assoc xs ys zs)

pub drop-all : (n : ℕ) (xs : Bytes) → length xs ≤ n → drop n xs ≡ []
drop-all zero [] h = refl
drop-all zero (x ∷ xs) h = absurd (omega (arith, h))
drop-all (suc n) [] h = refl
drop-all (suc n) (x ∷ xs) h = drop-all n xs (omega (arith, h))

short_or_long : (n : ℕ) → (n ≤ 7) ⊎ (7 < n)
short_or_long n = elim (Bool-cases (leb n 7)) [
  | inl e ↦ inl (leb→le n 7 e)
  | inr e ↦ inr (ground (arith, e))
]

module _ (crc_hqx : Bytes → ℕ → ℕ)
    (crc-append : (xs ys : Bytes) (v : ℕ) → crc_hqx (xs ++ ys) v ≡ crc_hqx ys (crc_hqx xs v))
    (index subindex bs size : ℕ) (some_block : 0 < bs) (few : bs < 128) where
  -- How writing `rest` ends: its last segment is `b`.
  unfoldable pub Delivers :
      Bytes → Bytes → ℕ → Result (Unit {0}) × BlockDownloadStream Receiver → Type 0
  Delivers got rest crc outcome =
      (before : Bytes) × (b : Bytes) × (outcome
        ≡ (ok tt, complete crc_hqx index subindex bs size before b size (crc_hqx rest crc)))
      × (before ++ b ≡ got ++ rest)
      × (length b ≤ 7)

  next_seqno-lt : (q : ℕ) → q < bs → next_seqno crc_hqx index subindex bs size q < bs
  unfolding next_seqno
  next_seqno-lt q h = ground (arith, h)

  block_drain-empty :
      (fuel retries : ℕ) (s : BlockDownloadStream Receiver)
      → block_drain receiver_bus crc_hqx fuel retries [] s ≡ (ok tt, s)
  unfolding block_drain
  block_drain-empty zero retries s = refl
  block_drain-empty (suc fuel) retries s = refl

  written_last :
      (fuel retries q pos crc : ℕ) (got : Bytes) (block : List Bytes) (rest : Bytes)
      → q < bs
      → 0 < length rest
      → length rest ≤ 7
      → pos + length rest ≡ size
      → block_drain receiver_bus crc_hqx
          (suc fuel)
          (suc retries)
          rest
          (sending crc_hqx index subindex bs size q got pos crc block)
        ≡ (ok tt, complete crc_hqx index subindex bs size got rest size (crc_hqx rest crc))
  unfolding block_drain
  written_last fuel retries q pos crc got block rest hq some_left short whole = ground (
    arith,
    some_left,
    write_segment-last crc_hqx index subindex bs size retries q pos crc got block rest hq few short
        whole,
    drop-all (length rest) rest (omega arith),
    block_drain-empty fuel (suc retries)
        (complete crc_hqx index subindex bs size got rest size (crc_hqx rest crc)),
  )

  written_full :
      (fuel retries q pos crc : ℕ) (got : Bytes) (block : List Bytes) (rest : Bytes)
      → q < bs
      → 7 < length rest
      → pos + length rest ≡ size
      → block_drain receiver_bus crc_hqx
          (suc fuel)
          (suc retries)
          rest
          (sending crc_hqx index subindex bs size q got pos crc block)
        ≡ block_drain receiver_bus crc_hqx fuel (suc retries) (drop 7 rest) (
            sending crc_hqx index subindex bs size
              (next_seqno crc_hqx index subindex bs size q)
              (got ++ take 7 rest)
              (pos + 7)
              (crc_hqx (take 7 rest) crc)
              (next_block crc_hqx index subindex bs size q block (take 7 rest)))
  unfolding block_drain
  written_full fuel retries q pos crc got block rest hq long whole = ground (
    arith,
    long,
    write_segment-full crc_hqx index subindex bs size retries q pos crc got block rest hq few long
        whole,
  )

  pub block_drain-Delivers :
      (fuel retries q pos crc : ℕ) (got : Bytes) (block : List Bytes) (rest : Bytes)
      → q < bs
      → 0 < length rest
      → length rest ≤ fuel
      → pos + length rest ≡ size
      → Delivers got rest crc (
          block_drain receiver_bus crc_hqx fuel
            (suc retries)
            rest
            (sending crc_hqx index subindex bs size q got pos crc block))
  unfolding Delivers
  block_drain-Delivers zero retries q pos crc got block rest hq some_left h whole =
      absurd (omega (arith, some_left, h))
  block_drain-Delivers (suc fuel) retries q pos crc got block rest hq some_left h whole =
      elim (short_or_long (length rest)) [
        | inl short ↦ (
          got,
          rest,
          written_last fuel retries q pos crc got block rest hq some_left short whole,
          refl,
          short,
        )
        | inr long ↦
            let chunk = take 7 rest in
            let q' = next_seqno crc_hqx index subindex bs size q in
            let left : length (drop 7 rest) ≡ length rest - 7 = length-drop 7 rest in
            let (before, b, e, parts, small) =
              block_drain-Delivers fuel retries q' (pos + 7) (crc_hqx chunk crc) (got ++ chunk)
                (next_block crc_hqx index subindex bs size q block chunk) (drop 7 rest)
                (next_seqno-lt q hq) (omega (arith, left, long)) (omega (arith, left, h, long))
                (omega (arith, left, whole, long)) in
            (
              before,
              b,
              written_full fuel retries q pos crc got block rest hq long whole
                  ∙ e
                  ∙ ap (λ v. (ok tt, complete crc_hqx index subindex bs size before b size v))
                      (sym (crc-append chunk (drop 7 rest) crc)
                        ∙ ap (λ x. crc_hqx x crc) (take-append-drop 7 rest)),
              parts
                  ∙ append_assoc got chunk (drop 7 rest)
                  ∙ ap (λ x. got ++ x) (take-append-drop 7 rest),
              small,
            )
      ]
