-- ===== src/Node.antt =====
-- Nodes (canopen/node) and the NMT state machine that a node owns (canopen/nmt.py).
pub mod Local
