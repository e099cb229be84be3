-- ===== src/Agent.antt =====
-- desktopagent/: the background process of a device.
pub mod Runner
pub mod Credentials
pub mod Tests
