-- ===== src/Protocol.antt =====
-- protocol/: the rules that every client and the relay share.
pub mod Clock
pub mod Crdt
pub mod Envelope
pub mod Wire
pub mod Boxes
pub mod Tests
