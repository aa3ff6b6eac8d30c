-- ===== src/Sync/Runs.antt =====
-- Runs of the SYNC producer, and what a TIME payload says (canopen/sync.py, canopen/timestamp.py).
use canopen_asyncio.Common.Bytes.{from_le-le_bytes, le_bytes, from_le, Bytes}
use canopen_asyncio.Common.Monad.{ok}
use canopen_asyncio.Sync.{
  time_payload, sync_stop, stopped_task, sync_start, sync_transmit, SyncProducer,
}
use canopen_asyncio.Common.{
  ◌&&◌, ◌≢◌, ◌<◌, Bool-cases, leb, ltb, some, none, Option, inr, inl, Option-cases, ℕ, ◌+◌, ◌-◌,
  ◌*◌, ◌/◌, ◌%◌, ◌^◌, ◌≡◌, arith, List, [], ◌∷◌, ◌++◌, take, drop,
}

-- A call of the application.
pub data SyncCall : Type 0 where
  transmits : Option ℕ → SyncCall
  starts : Option ℕ → SyncCall
  stops : SyncCall

-- The producer after these; an exception goes to the caller.
unfoldable pub called : List SyncCall → SyncProducer → SyncProducer
called [] s = s
called (transmits count ∷ rest) s = called rest ((sync_transmit count s).1)
called (starts period ∷ rest) s = called rest ((sync_start period s).1)
called (stops ∷ rest) s = called rest (sync_stop s)

-- What runs on the bus is our own task and nothing else.
unfoldable pub IsSingle : SyncProducer → Type 0
IsSingle s = s.running ≡ elim s.own_task [ none ↦ [] | some p ↦ p ∷ [] ]

sync_transmit-IsSingle :
    (count : Option ℕ) (s : SyncProducer) → IsSingle s → IsSingle ((sync_transmit count s).1)
unfolding sync_transmit IsSingle
sync_transmit-IsSingle count s h = ground arith

sync_start-IsSingle :
    (period : Option ℕ) (s : SyncProducer) → IsSingle s → IsSingle ((sync_start period s).1)
unfolding sync_start IsSingle
sync_start-IsSingle period s h = ground arith

sync_stop-IsSingle : (s : SyncProducer) → IsSingle s → IsSingle (sync_stop s)
unfolding sync_stop IsSingle stopped_task
sync_stop-IsSingle s h = elim (Option-cases s.own_task) [
  | inl e ↦ ground arith
  | inr (p, e) ↦ ground arith
]

-- Whatever is called on a producer, failing calls included, the bus never runs a SYNC task but the
-- one that the producer holds, so that a stop leaves none behind.
pub called-IsSingle : (cs : List SyncCall) (s : SyncProducer) → IsSingle s → IsSingle (called cs s)
unfolding called
called-IsSingle [] s h = h
called-IsSingle (transmits count ∷ rest) s h =
    called-IsSingle rest ((sync_transmit count s).1) (sync_transmit-IsSingle count s h)
called-IsSingle (starts period ∷ rest) s h =
    called-IsSingle rest ((sync_start period s).1) (sync_start-IsSingle period s h)
called-IsSingle (stops ∷ rest) s h = called-IsSingle rest (sync_stop s) (sync_stop-IsSingle s h)

-- The fields of the payload, one after the other.
time_fields :
    (ms days : ℕ)
    → ms < 256 ^ 4
    → days < 256 ^ 2
    → (from_le (take 4 (le_bytes 4 ms ++ le_bytes 2 days)) ≡ ms)
      × (from_le (drop 4 (le_bytes 4 ms ++ le_bytes 2 days)) ≡ days)
unfolding le_bytes
time_fields ms days hm hd = (from_le-le_bytes 4 ms hm, from_le-le_bytes 2 days hd)

-- The six bytes that are sent for a time in whole seconds give that time back: four bytes of
-- milliseconds after midnight, and two bytes of days since 1984.
pub time_payload-from_le :
    (timestamp now : ℕ) (bs : Bytes)
    → timestamp ≢ 0
    → time_payload timestamp now ≡ ok bs
    → 1000 * (441763200 + 86400 * from_le (drop 4 bs)) + from_le (take 4 bs) ≡ 1000 * timestamp
unfolding time_payload
time_payload-from_le timestamp now bs given h =
    elim (Bool-cases (leb 441763200 timestamp && ltb ((timestamp - 441763200) / 86400) 65536)) [
      | inl fits ↦
          let (ms, days) =
            time_fields ((timestamp - 441763200) % 86400 * 1000) ((timestamp - 441763200) / 86400)
              (omega arith) (ground arith) in
          ground (arith, ms, days)
      | inr out ↦ absurd (ground arith)
    ]
