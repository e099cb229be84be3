-- ===== src/Replay.antt =====
-- The replay lab: the events that an input method reports, and the order they must come in.
pub mod Event
pub mod Sequence
pub mod Tests
