-- ===== src/Relayer.antt =====
-- The relayer of ghost-services/src/relayer: the escrow accounting and the transaction queue of
-- queue.ts (Escrow, Queue) and `relay` of service.ts (Service).
pub mod Escrow
pub mod Queue
pub mod Service
mod Examples
