-- ===== src/Relay.antt =====
-- The relay that stores sealed envelopes for the devices of an account.
pub mod Envelope
pub mod Sync
pub mod Limiter
pub mod Pairing
pub mod Accounts
pub mod Tests
