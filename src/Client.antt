-- ===== src/Client.antt =====
-- backend/device_client.py: every request that the backend sends to a board.
pub mod Patterns
pub mod Probe
pub mod Data
pub mod Ota
pub mod Confined
pub mod Tasks
