-- ===== src/Sync.antt =====
-- The SYNC producer (canopen/sync.py) and the payload of the TIME producer (canopen/timestamp.py).
-- Periods are in milliseconds; the network below is the list of frames and the running task.
use canopen_asyncio.Common.Bytes.{le_bytes, Bytes}
use canopen_asyncio.Common.Monad.{err, ok, runtime_error, struct_error, value_error, Result, Action}
pub mod Runs
use canopen_asyncio.Common.{
  ℕ, ◌+◌, ◌-◌, ◌*◌, ◌/◌, ◌%◌, ◌^◌, ◌&&◌, Option, none, some, List, [], ◌∷◌, ◌++◌, ltb, leb, ◌==◌,
  if◌then◌else◌,
}

-- `SyncProducer`: the periods of the tasks that the bus is running, one of them our own.
pub record SyncProducer : Type 0 where
  pub period : Option ℕ
  pub own_task : Option ℕ
  pub running : List ℕ
  pub sent : List Bytes

-- `bytes([count])`
unfoldable pub count_bytes : Option ℕ → Result Bytes
count_bytes none = ok []
count_bytes (some count) = if ltb count 256 then ok (count ∷ []) else err value_error

unfoldable pub sync_transmit : Option ℕ → Action SyncProducer (Unit {0})
sync_transmit count s = elim (count_bytes count) [
  | err e ↦ (err e, s)
  | ok payload ↦ (ok tt, record s { sent = s.sent ++ (payload ∷ []) })
]

-- The period that `start` uses: an argument is kept, and 0 is as good as none.
unfoldable pub chosen : Option ℕ → Option ℕ → Option ℕ
chosen (some p) kept = some p
chosen none kept = kept

unfoldable pub sync_start : Option ℕ → Action SyncProducer (Unit {0})
sync_start period s = elim s.own_task [
  | some t ↦ (err runtime_error, s)
  | none ↦
      let s' = record s { period = chosen period s.period } in
      elim s'.period [
        | none ↦ (err value_error, s')
        | some p ↦
            if p == 0
            then (err value_error, s')
            else (ok tt, record s' { own_task = some p; running = p ∷ s.running })
      ]
]

-- One task of that period is stopped.
unfoldable pub stopped_task : ℕ → List ℕ → List ℕ
stopped_task p [] = []
stopped_task p (q ∷ qs) = let rest = stopped_task p qs in if p == q then qs else q ∷ rest

unfoldable pub sync_stop : SyncProducer → SyncProducer
sync_stop s = elim s.own_task [
  | none ↦ s
  | some p ↦ record s { own_task = none; running = stopped_task p s.running }
]

-- The TIME payload for a Unix time in whole seconds, or for `now` where that is 0: milliseconds of
-- the day, and days since 1984. A time before 1984 has negative days, which do not pack.
unfoldable pub time_payload : ℕ → ℕ → Result Bytes
time_payload timestamp now =
    let unix_s = if timestamp == 0 then now else timestamp in
    let delta = unix_s - 441763200 in
    let days = delta / 86400 in
    if leb 441763200 unix_s && ltb days 65536
    then ok (le_bytes 4 (delta % 86400 * 1000) ++ le_bytes 2 days)
    else err struct_error
