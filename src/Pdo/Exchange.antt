-- ===== src/Pdo/Exchange.antt =====
-- A PDO from its producer to a consumer (canopen/pdo/base.py).
use canopen_asyncio.Common.Bytes.{Bytes}
use canopen_asyncio.Pdo.{on_message, PdoMap, PdoFrame}
use canopen_asyncio.Common.{List, ℕ, [], ◌∷◌}

-- The maps that hear frames, in order.
unfoldable pub heard : List PdoFrame → ℕ → PdoMap → PdoMap
heard [] now peer = peer
heard (frame ∷ rest) now peer = heard rest now (on_message frame.can_id frame.payload now peer)
