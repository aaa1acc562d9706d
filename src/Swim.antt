-- ===== src/Swim.antt =====
-- internal/swim: membership and failure detection.
pub mod Types
pub mod Peers
pub mod Message
pub mod Subgroup
pub mod EventQueue
pub mod Sending
pub mod Probe
pub mod Listen
pub mod Bootstrap
pub mod Member
