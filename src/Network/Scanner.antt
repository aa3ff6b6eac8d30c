-- ===== src/Network/Scanner.antt =====
-- The nodes that the scanner finds (canopen/network.py).
use canopen_asyncio.Common.Bits.{and_low}
use canopen_asyncio.Network.Subscribers.{add-IsOnce, IsOnce}
use canopen_asyncio.Network.{scan_message, is_in, Nodes}
use canopen_asyncio.Common.{
  inr, inl, ◌∙◌, ap, bit_and, all_below_sound, all_below, Bool-cases, ==_iff, ◌==◌, ℕ, ◌+◌, ◌*◌,
  ◌/◌, ◌%◌, ◌<◌, ◌≡◌, refl, arith, All, List, [], ◌∷◌, ◌++◌,
}

seven_bits : (can_id : ℕ) → bit_and can_id 0x7F ≡ can_id % 128
unfolding all_below
seven_bits can_id =
    let e : can_id ≡ can_id % 128 + can_id / 128 * 128 = omega arith in
    ap (λ x. bit_and x 0x7F) e
    ∙ and_low 7 (can_id % 128) (can_id / 128) 0x7F (omega arith)
    ∙ (==_iff _ _).0
        (all_below_sound 128 (λ x. bit_and x 0x7F == x) (can_id % 128) refl (omega arith))

All-append : (P : ℕ → Type 0) (xs : List ℕ) (x : ℕ) → All P xs → P x → All P (xs ++ (x ∷ []))
All-append P [] x h p = (p, tt)
All-append P (y ∷ ys) x (hy, hs) p = (hy, All-append P ys x hs p)

-- The scanner after messages with these IDs.
unfoldable pub scanned : List ℕ → Nodes → Nodes
scanned [] nodes = nodes
scanned (can_id ∷ rest) nodes = scanned rest (scan_message can_id nodes)

abbrev pub IsNodeId : ℕ → Type 0
IsNodeId x = 0 < x × x < 128

unfoldable pub IsFound : Nodes → Type 0
IsFound nodes = All IsNodeId nodes × IsOnce nodes

scan_message-IsFound :
    (can_id : ℕ) (nodes : Nodes) → IsFound nodes → IsFound (scan_message can_id nodes)
unfolding scan_message IsFound
scan_message-IsFound can_id nodes (ids, once) =
    elim (Bool-cases (is_in (bit_and can_id 0x7F) nodes)) [
      | inl there ↦ ground arith
      | inr absent ↦ ground (
        arith,
        seven_bits can_id,
        add-IsOnce (bit_and can_id 0x7F) nodes once,
        All-append IsNodeId nodes (bit_and can_id 0x7F) ids,
      )
    ]

-- Whatever messages are received, the scanner lists node IDs from 1 to 127 only, each once.
pub scanned-IsFound :
    (can_ids : List ℕ) (nodes : Nodes) → IsFound nodes → IsFound (scanned can_ids nodes)
unfolding scanned
scanned-IsFound [] nodes h = h
scanned-IsFound (can_id ∷ rest) nodes h =
    scanned-IsFound rest (scan_message can_id nodes) (scan_message-IsFound can_id nodes h)
