-- ===== src/Client.antt =====
-- syncclient/: the background worker that exchanges envelopes with the relay.
pub mod Session
pub mod Task
pub mod Answer
pub mod Upload
pub mod Worker
pub mod Tests
