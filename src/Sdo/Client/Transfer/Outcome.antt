-- ===== src/Sdo/Client/Transfer/Outcome.antt =====
-- What a transfer with the server comes to.
use canopen_asyncio.Sdo.Client.Transfer.Delivery.{
  write_all-expedited_err, write_all-expedited_ok, open_expedited_lem, write_all-err, write_all-ok,
  open_segmented_lem, opened,
}
use canopen_asyncio.Sdo.Client.Transfer.{IsAnswerable, reported, server_bus}
use canopen_asyncio.Sdo.Client.Writable.{download, open_writable, is_segmented}
use canopen_asyncio.Sdo.Server.{SdoServer}
use canopen_asyncio.Sdo.Client.{SdoClient}
use canopen_asyncio.Common.Bytes.{Bytes}
use canopen_asyncio.Common.Monad.{err, ok, Result}
use canopen_asyncio.Node.Local.{set_data, LocalNode}
use canopen_asyncio.Common.{
  arith, some, false, true, Bool, inr, inl, ◌⊎◌, refl, ◌≡◌, ◌<◌, ◌^◌, suc, zero, length, Bool-cases,
  ℕ,
}

-- The node's own answer to the write that a download asks for.
abbrev pub wanted : SdoClient SdoServer → ℕ → ℕ → Bytes → Result (Unit {0}) × LocalNode
wanted c index subindex content = set_data index subindex content true (c.env.node)

abbrev pub Delivers :
    Result (Unit {0}) × LocalNode → Result (Unit {0}) × SdoClient SdoServer → Type 0
Delivers w t = (t.0 ≡ reported (w.0)) × (t.1.env.node ≡ w.1)

module _ (c : SdoClient SdoServer) (index subindex fuel : ℕ) (content : Bytes) (hi : index < 65536)
    (hs : subindex < 256) (ht : length content < 2 ^ 32) (hf : length content < suc fuel) where
  segmented-Delivers :
      (force : Bool) (r : Result (Unit {0})) (node' : LocalNode)
      → is_segmented (some (length content)) force ≡ true
      → wanted c index subindex content ≡ (r, node')
      → IsAnswerable r
      → Delivers (r, node') (download server_bus (suc fuel) index subindex content force c)
  unfolding download open_writable reported
  segmented-Delivers force (ok _) node' s w a = ground (
    arith,
    open_segmented_lem c index subindex (length content) hi hs ht,
    write_all-ok (c.env.node) node' (c.env.last_received_error) index subindex fuel content
        (opened c index subindex (length content)).sent hf w,
  )
  segmented-Delivers force (err x) node' s w a = ground (
    arith,
    open_segmented_lem c index subindex (length content) hi hs ht,
    write_all-err (c.env.node) node' (c.env.last_received_error) index subindex fuel content
        (opened c index subindex (length content)).sent x hi hs a hf w,
  )

  expedited-Delivers :
      (force : Bool) (r : Result (Unit {0})) (node' : LocalNode)
      → is_segmented (some (length content)) force ≡ false
      → (0 < length content) × (length content < 5)
      → wanted c index subindex content ≡ (r, node')
      → IsAnswerable r
      → Delivers (r, node') (download server_bus (suc fuel) index subindex content force c)
  unfolding download open_writable reported
  expedited-Delivers force (ok _) node' s (p, h) w a = ground (
    arith,
    open_expedited_lem c node' index subindex fuel content p h hi hs,
    write_all-expedited_ok c node' index subindex fuel content p h hi hs w,
  )
  expedited-Delivers force (err x) node' s (p, h) w a = ground (
    arith,
    open_expedited_lem c node' index subindex fuel content p h hi hs,
    write_all-expedited_err c node' index subindex fuel content p h hi hs x a w,
  )

segmented_cases :
    (n : ℕ) (force : Bool)
    → (is_segmented (some n) force ≡ true)
      ⊎ ((is_segmented (some n) force ≡ false) × (0 < n) × (n < 5))
segmented_cases n force = elim (Bool-cases (is_segmented (some n) force)) [
  | inl s ↦ inl s
  | inr e ↦ inr (e, small e, large e)
]
  where
    small : is_segmented (some n) force ≡ false → 0 < n
    small e = unfold is_segmented in ground arith

    large : is_segmented (some n) force ≡ false → n < 5
    large e = unfold is_segmented in ground arith

-- A download to the server of this library writes the whole content with one `set_data`, whatever
-- its size and whether or not segments are forced: the client gets the outcome of that call, with an
-- exception turned into its abort code, and the server's node is left as that call leaves it. The
-- address and the length fit their fields, the fuel exceeds the length, and an abort code that the
-- node raises fits its field.
pub download-set_data :
    (c : SdoClient SdoServer) (index subindex fuel : ℕ) (content : Bytes) (force : Bool)
    → index < 65536
    → subindex < 256
    → length content < 2 ^ 32
    → length content < fuel
    → IsAnswerable (wanted c index subindex content).0
    → Delivers
        (wanted c index subindex content)
        (download server_bus fuel index subindex content force c)
download-set_data c index subindex zero content force hi hs ht hf a = elim hf [ ]
download-set_data c index subindex (suc fuel) content force hi hs ht hf a =
    elim (segmented_cases (length content) force) [
      | inl s ↦ segmented-Delivers c index subindex fuel content hi hs ht hf force _ _ s refl a
      | inr (s, p, h) ↦
          expedited-Delivers c index subindex fuel content hi hs ht hf force _ _ s (p, h) refl a
    ]
