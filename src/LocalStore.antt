-- ===== src/LocalStore.antt =====
-- localstore/: the encrypted phrase database of one device, its clock and its sync checkpoint.
pub mod Phrase
pub mod HlcState
pub mod Store
pub mod SyncState
pub mod Upload
pub mod Tests
