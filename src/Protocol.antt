-- ===== src/Protocol.antt =====
-- packages/protocol: the boot state machine and the wire messages.
pub mod State
pub mod Messages
