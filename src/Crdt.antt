-- ===== src/Crdt.antt =====
-- internal/crdt: the replicated data types.
pub mod Replicated
pub mod GCounter
pub mod PnCounter
pub mod LwwRegister
pub mod DvvSet
pub mod OrSet
